-- ===== src/Rebuild/RoundTrip.antt =====
-- A tar file that is chunked with TAR_MultiHeader and stored under two recipes is restored.
use Prim.Native.String.{String}
use bi_search.Base.{ℕ, suc, ◌≤◌, ◌<◌, ◌≡◌, ◌∙◌, sym, ap, subst, Bool, List, [], Bytes, length}
use bi_search.Config.{container_max_size}
use bi_search.Chunking.{window_size}
use bi_search.Types.{Chunk}
use bi_search.Store.Stored.{Blob, Frame}
use bi_search.Tar.{file_header}
use bi_search.Tar.Archive.{Entry, AllEntries, archive}
use bi_search.Tar.Pending.{IsQuiet}
use bi_search.Restore.Originals.{Serves}
use bi_search.Segment.{HeaderState, Cutting, finished, undefined, running, tar_chunking}
use bi_search.Segment.Layout.{header_pieces, data_pieces, join-header_pieces, LaidOut}
use bi_search.Segment.Separated.{tar_chunking-archive}
use bi_search.Rebuild.{Rebuild, rebuilt, restore_header_file}
use bi_search.Rebuild.Contents.{Lists}
use bi_search.Rebuild.Rounds.{IsUsedUp}
use bi_search.Rebuild.Whole.{AllNoDigits, restore_header_file-archive}

module _ (lz4_decompress_safe inflate_decompress : Bytes → Bytes)
    (xd3_decode : Bytes → Bytes → Bytes) (lz4 : Bool) (blobs : List Blob) where
  -- Whatever TAR_MultiHeader chunking pushes for an archive that fits the read buffer with a byte
  -- to spare, from an empty headerBuffer and a state in which a header is next and no long name is
  -- due, when a well-formed store has its header chunks under the header recipe of a name and the
  -- other chunks under the other recipe, and nothing of a file before is unread, restoreHeaderFile
  -- of that name ends and writes the archive. MULTI_HEADER_CHUNK is from 1 to 16 and BigChunkSize
  -- is 4 MiB. The archive is any list of entries with headers of 512 bytes, among them the blocks
  -- of zeros at its end: only a regular file has content, of less than 8 GiB and in whole blocks;
  -- each header has a NUL, and no '/' between the name field and the first one; there are no long
  -- names and no extended headers. A header of type AREGTYPE, as a block of zeros, has zeros and no
  -- digits for its size.
  pub restore_header_file-tar_chunking :
      (multi_header_chunk : ℕ) (st st' : HeaderState) (es : List Entry) (cs : List Chunk) (upto : ℕ)
      → 0 < multi_header_chunk
      → multi_header_chunk ≤ 16
      → st.header_buffer ≡ []
      → st.tar.next_chunk_type ≡ file_header
      → st.tar.big_limit ≡ container_max_size
      → IsQuiet st.tar
      → AllEntries es
      → AllNoDigits es
      → length (archive es) < window_size multi_header_chunk
      → tar_chunking multi_header_chunk st (archive es) ≡ finished cs upto st'
      → (r : Rebuild) (name : String) → IsUsedUp r
      → Serves lz4 blobs r.data_write
      → Lists lz4_decompress_safe inflate_decompress xd3_decode lz4 blobs
          (r.data_write.recipe_map_header name)
          (header_pieces cs)
      → Lists lz4_decompress_safe inflate_decompress xd3_decode lz4 blobs
          (r.data_write.recipe_map name)
          (data_pieces cs)
      → (r' : Rebuild) × (restore_header_file lz4_decompress_safe inflate_decompress xd3_decode
            (suc (length es))
            r
            name
          ≡ rebuilt (archive es) r')
        × Serves lz4 blobs r'.data_write
        × Frame r.data_write r'.data_write
        × IsUsedUp r'
  restore_header_file-tar_chunking m st st' es cs upto some_headers bound empty at limit quiet vs
        plain short pushed r name u s lh ld =
      let (ds, st'', run, headers, heads, out) =
        tar_chunking-archive m st es some_headers bound empty at quiet vs short in
      let same : ds ≡ cs = chunks_of (sym run ∙ pushed) in
      restore_header_file-archive lz4_decompress_safe inflate_decompress xd3_decode lz4 blobs r name
        es (header_pieces ds) (data_pieces ds) u s
        (subst
          (λ l.
            Lists lz4_decompress_safe inflate_decompress xd3_decode lz4 blobs
              (r.data_write.recipe_map_header name) (header_pieces l))
          (sym same) lh)
        (subst
          (λ l.
            Lists lz4_decompress_safe inflate_decompress xd3_decode lz4 blobs
              (r.data_write.recipe_map name) (data_pieces l))
          (sym same) ld)
        heads (join-header_pieces ds ∙ headers)
        (subst (λ n. LaidOut n es (data_pieces ds)) limit out) vs plain
    where
      pushed_by : Cutting → List Chunk
      pushed_by (finished xs n t) = xs
      pushed_by undefined = []
      pushed_by running = []

      chunks_of :
          {xs ys : List Chunk} {n k : ℕ} {t t' : HeaderState}
          → finished xs n t ≡ finished ys k t'
          → xs ≡ ys
      chunks_of e = ap pushed_by e
