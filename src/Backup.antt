-- ===== src/Backup.antt =====
-- src/app/main.cc, the loops over the files to back up and to restore: each is chunked, its chunks are
-- deduplicated under its name, and the read cache is emptied. Here with FastCDC chunking and
-- deduplication; the two threads pass the chunks in order through the queue.
pub mod Steps
pub mod Pieces
pub mod Whole
mod Tests
use Prim.Native.String.{String}
use bi_search.Base.{ℕ, suc, Bool, true, false, Option, none, some, List, [], ◌∷◌, Bytes, length}
use bi_search.Types.{Chunk, no_delta}
use bi_search.Chunking.{
  finished, overrun, running, chunking, cut_point, fastcdc, cut_quota, window_size, buffer_size,
}
use bi_search.Store.{DataWrite, set_filename, clear_all_cache}
use bi_search.Restore.{restore_file}
use bi_search.Dedup.{Dedup, process_trace}

-- The chunk that Chunking pushes for the bytes it has cut off. What it leaves unset is 0 or none.
unfoldable pub pushed_chunk : Bytes → Chunk
pushed_chunk bytes = record {
  chunk_id = 0;
  chunk_size = length bytes;
  save_size = 0;
  offset = 0;
  container_id = 0;
  chunk_ptr = bytes;
  name = 0;
  basechunk_id = none;
  delta_flag = no_delta;
  load_from_disk = false;
  header_flag = false;
  name_exist = true;
  cdc_flag = false;
}

unfoldable pub pushed_chunks : List Bytes → List Chunk
unfolding pushed_chunk
pushed_chunks [] = []
pushed_chunks (c ∷ cs) = pushed_chunk c ∷ pushed_chunks cs

-- All that Chunking pushes for a file. Each round of its loops takes at least a byte, so the
-- length of the file and of the buffer are fuel enough. `none`: the loops do not finish.
unfoldable pub file_chunks : ℕ → Bytes → Option (List Chunk)
unfolding pushed_chunks
file_chunks multi_header_chunk file =
    elim (chunking (cut_point fastcdc) (cut_quota multi_header_chunk)
      (window_size multi_header_chunk) buffer_size (suc buffer_size) (suc (length file)) file 0) [
        | finished cs off ↦ some (pushed_chunks cs)
        | overrun ↦ none
        | running ↦ none
      ]

module _ (hash lz4_compress_fast : Bytes → Bytes) (multi_header_chunk : ℕ) where
  -- One round of the loop, for a file's name and bytes.
  unfoldable pub back_up : Dedup → String → Bytes → Option Dedup
  unfolding file_chunks set_filename clear_all_cache
  back_up d name file = elim (file_chunks multi_header_chunk file) [
    | none ↦ none
    | some chunks ↦
        elim (process_trace hash lz4_compress_fast
          (record d { data_write = set_filename d.data_write name }) chunks) [
            | none ↦ none
            | some d' ↦ some (record d' { data_write = clear_all_cache d'.data_write })
          ]
  ]

  unfoldable pub back_up_all : Dedup → List (String × Bytes) → Option Dedup
  unfolding back_up
  back_up_all d [] = some d
  back_up_all d ((name, file) ∷ rest) = elim (back_up d name file) [
    | none ↦ none
    | some d' ↦ back_up_all d' rest
  ]

module _ (lz4_decompress_safe inflate_decompress : Bytes → Bytes)
    (xd3_decode : Bytes → Bytes → Bytes) where
  -- The loop that restores the files: what it writes for each name.
  unfoldable pub restore_all : DataWrite → List String → Option (List Bytes)
  unfolding restore_file clear_all_cache
  restore_all st [] = some []
  restore_all st (name ∷ names) =
      elim (restore_file lz4_decompress_safe inflate_decompress xd3_decode st name) [
        | none ↦ none
        | some (x, st') ↦ elim (restore_all (clear_all_cache st') names) [
          | none ↦ none
          | some xs ↦ some (x ∷ xs)
        ]
      ]
