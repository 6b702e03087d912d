-- ===== src/Segment/Tests.antt =====
-- Runs of TAR_MultiHeader chunking.
use bi_search.Base.{◌≡◌, refl, List, [], arith, length}
use bi_search.Types.{Chunk}
use bi_search.Tar.{file_header}
use bi_search.Tar.Samples.{sample, new_tar, sample-AllEntries}
use bi_search.Tar.Archive.{archive, headers}
use bi_search.Segment.{HeaderState, finished, tar_chunking}
use bi_search.Segment.Layout.{header_bytes, header_pieces, AllHeaderChunks, data_pieces, LaidOut}
use bi_search.Segment.Separated.{tar_chunking-archive}

abbrev initial : HeaderState
initial = record { tar = new_tar; local_type = file_header; header_buffer = [] }

tar_chunking-archive_example :
    (cs : List Chunk) × (st' : HeaderState) × (tar_chunking 16 initial (archive sample)
      ≡ finished cs (length (archive sample)) st')
    × (header_bytes cs ≡ headers sample)
    × AllHeaderChunks (header_pieces cs)
    × LaidOut 4194304 sample (data_pieces cs)
tar_chunking-archive_example =
    tar_chunking-archive 16 initial sample (omega arith) (omega arith) refl refl
      (record { no_first = refl }) sample-AllEntries (omega arith)
