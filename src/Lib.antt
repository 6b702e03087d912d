-- ===== src/Lib.antt =====
-- BiSearch: a backup system that cuts files into chunks, stores each distinct chunk once, as it
-- is, compressed or as a delta, and restores the files. A chunker thread pushes chunks to a queue;
-- a method (deduplication, BiSearch, Odess, Finesse, N-transform, Palantir, locality) takes them,
-- decides how each is stored and calls the store; the store packs chunks into containers, writes
-- full containers to files, and reads them back through a cache.
--
-- Base        numbers, lists, byte buffers and the lemmas about them that the parts share
-- Config      the constants of include/define.h and include/chunker.h, and the GEAR table
-- Cdc         the cut points of src/chunking/chunker.cc: CompareLimit, DivCeil, CalNormalSize,
--             GenerateFastCDCMask, ChunkerInit (chunker_init), CutPointFastCDC and CutPointGear
-- Chunking    Chunker::Chunking of src/chunking/chunker.cc for FIXED_SIZE, FASTCDC and GEARCDC:
--             cut_window is the inner loop, chunking the outer one
-- Cache       Cache/Index is include/lruCache.h, Cache the container pool of src/util/readCache.cc
-- Types       Chunk_t and Container_t of include/struct.h
-- Store       src/datawrite/datawrite.cc: Chunk_Insert in both versions, the recipes, the
--             container files, and in Store/Fetch Get_Chunk_Info with its three branches
-- Restore     restoreFile of src/datawrite/datawrite.cc
-- Dedup       Dedup::ProcessTrace of src/method/Dedup.cc with FP_Find and FP_Insert
-- Backup      the loops of src/app/main.cc that back files up and restore them
-- Tar         CutPointTarFast of src/chunking/chunker.cc with the members that it keeps
--             (TarState); Tar/Names has FindName, ExtractPath, FindLongName and the hashes of names,
--             Tar/Archive the specification of an archive as headers and contents
-- Mtar        the MTAR format: MTar of src/chunking/chunker.cc (mtar) and MTar2Tar of
--             src/datawrite/datawrite.cc (mtar2tar)
-- Segment     CutPointTarHeader of src/chunking/chunker.cc (fill_headers is its first loop,
--             cut_contents the second) and Chunker::Chunking for TAR_MultiHeader (tar_chunking)
-- Rebuild     restoreHeaderFile of src/datawrite/datawrite.cc (rebuild is its loop) and the copy of
--             CutPointTarFast that it calls (restore_cut_point)
--
-- State. A file is the list of its bytes; a buffer in memory is a function from indices to bytes,
-- so that what lies past the written part stays unknown. The file system is the function from
-- container numbers to container files, with a test that says which of them the stream opens. A
-- pointer to a chunk is the list of the bytes that it points to when it is set.
--
-- Numbers. Sizes and offsets are natural numbers. The rolling hash, Gear's result and the
-- parameter functions keep their 32 bits, and `len - localOffset` its 64 bits; the other sizes
-- stay below 2 ^ 31, since for a MULTI_HEADER_CHUNK of at most 16 a window has at most 256 MB, and a
-- container 4 MB.
--
-- Fuel. The loops of chunking run on fuel: more than the file's length for the outer loop, which
-- reads at least a byte in each round, and more than the read buffer for the inner loop, which
-- cuts at least a byte in each round that does not end. The pruning loop of the cache has one
-- round for each entry. The loops over a tar archive get twice the read buffer, since a round that
-- takes no byte of an empty content is followed by one that takes a header. Restoring an archive
-- takes a round for each header.
--
-- Parameters. LZ4_decompress_safe and inflate are functions from the stored bytes to the bytes
-- that they write, LZ4_compress_fast from a chunk to its compressed bytes (none where it gives
-- up), SHA-256 from bytes to a hash, and xd3_decode from a delta and a base to the decoded bytes.
--
-- Not modelled: the paths and streams of MTar and MTar2Tar; MTarBIN and MTarBIN2Tar;
-- FindNameBegin and FindLongNameBegin, which nothing calls;
-- blockTypeMask, which is built and never read; the methods other than deduplication, the queue
-- between the threads, option parsing, statistics and logs, and the libraries kept in the
-- repository (LZ4, xxHash, xdelta3, ReaderWriterQueue).
pub mod Base
pub mod Config
pub mod Cdc
pub mod Chunking
pub mod Cache
pub mod Types
pub mod Store
pub mod Restore
pub mod Dedup
pub mod Backup
pub mod Tar
pub mod Mtar
pub mod Segment
pub mod Rebuild
