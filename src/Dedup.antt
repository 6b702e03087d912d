-- ===== src/Dedup.antt =====
-- src/method/Dedup.cc, Dedup::ProcessTrace, with FP_Find and FP_Insert of src/method/absMethod.cc:
-- each chunk is hashed; a chunk with a new hash is compressed and stored, one with a known hash is
-- only listed in the recipe. SHA-256 and LZ4_compress_fast are parameters: from bytes to the hash,
-- and from bytes to the compressed bytes, none where the library cannot make them shorter.

pub mod Invariant
pub mod Listing
pub mod Unique
pub mod Trace
pub mod Backup
pub mod Rounds
pub mod Once
pub mod Tests
use bi_search.Base.{
  ℕ, suc, ◌+◌, ◌-◌, Bool, true, false, ◌&&◌, Option, none, some, List, [], ◌∷◌, ◌++◌, Bytes,
  if◌then◌else◌, ltb, ◌==◌, length,
}
use bi_search.Config.{container_max_size}
use bi_search.Types.{Chunk, DeltaType, no_delta, no_lz4}
use bi_search.Store.{
  DataWrite, chunk_insert, chunk_insert_lz4, recipe_insert, recipe_header_insert,
  get_chunk_meta_info,
}

-- string::operator==
unfoldable pub same_bytes : Bytes → Bytes → Bool
same_bytes [] [] = true
same_bytes [] (y ∷ ys) = false
same_bytes (x ∷ xs) [] = false
same_bytes (x ∷ xs) (y ∷ ys) = (x == y) && same_bytes xs ys

-- FPindex
abbrev pub FpIndex : Type 0
FpIndex = List (Bytes × ℕ)

-- FP_Find; `none` is -1.
unfoldable pub fp_find : FpIndex → Bytes → Option ℕ
unfolding same_bytes
fp_find [] fp = none
fp_find ((k, id) ∷ index) fp = if same_bytes k fp then some id else fp_find index fp

-- FP_Insert: the newest entry for a key is the one that is found.
unfoldable pub fp_insert : FpIndex → Bytes → ℕ → FpIndex
fp_insert index fp id = (fp, id) ∷ index

-- class Dedup: what AbsMethod counts, its index, and the store. `container_num` is this file's
-- own copy of the static variable of include/datawrite.h.
pub record Dedup : Type 0 where
  pub fp_index : FpIndex
  pub uniquechunk_num : ℕ
  pub uniquechunk_size : ℕ
  pub basechunk_num : ℕ
  pub basechunk_size : ℕ
  pub logicalchunk_num : ℕ
  pub logicalchunk_size : ℕ
  pub local_reduct : ℕ
  pub dedup_reduct : ℕ
  pub container_num : ℕ
  pub container_size : ℕ
  pub data_write : DataWrite

unfoldable pub new_dedup : DataWrite → Dedup
new_dedup st = record {
  fp_index = [];
  uniquechunk_num = 0;
  uniquechunk_size = 0;
  basechunk_num = 0;
  basechunk_size = 0;
  logicalchunk_num = 0;
  logicalchunk_size = 0;
  local_reduct = 0;
  dedup_reduct = 0;
  container_num = 0;
  container_size = 0;
  data_write = st;
}

-- The recipe that a chunk is listed in, and the logical counters.
unfoldable pub list_chunk : Dedup → Chunk → Dedup
list_chunk d chunk = record d {
  data_write =
      if chunk.header_flag
      then recipe_header_insert d.data_write chunk.chunk_id
      else recipe_insert d.data_write chunk.chunk_id;
  logicalchunk_num = d.logicalchunk_num + 1;
  logicalchunk_size = d.logicalchunk_size + chunk.chunk_size;
}

-- The container that the method counts on for a unique chunk. Chunk_Insert sets its own.
unfoldable pub assign_container : Dedup → Chunk → Dedup × Chunk
assign_container d chunk =
    let next = ltb container_max_size (d.container_size + chunk.chunk_size) in
    let num = if next then d.container_num + 1 else d.container_num in
    let offset = if next then 0 else d.container_size in
    (
      record d { container_num = num; container_size = offset + chunk.chunk_size },
      record chunk { container_id = num; offset = offset },
    )

-- deltaFlag == NO_LZ4
unfoldable pub is_no_lz4 : DeltaType → Bool
is_no_lz4 no_lz4 = true
is_no_lz4 _ = false

module _ (hash lz4_compress_fast : Bytes → Bytes) where
  -- Compression sets the flag and the size to store.
  unfoldable pub compressed : Chunk → ℕ → Chunk
  compressed chunk id =
      let lz4_size = length (lz4_compress_fast chunk.chunk_ptr) in
      if lz4_size == 0
      then record chunk { chunk_id = id; delta_flag = no_lz4; save_size = chunk.chunk_size }
      else record chunk { chunk_id = id; delta_flag = no_delta; save_size = lz4_size }

  unfoldable pub store_chunk : DataWrite → Chunk → DataWrite
  unfolding is_no_lz4
  store_chunk st chunk =
      if is_no_lz4 chunk.delta_flag
      then chunk_insert st chunk
      else chunk_insert_lz4 st chunk (lz4_compress_fast chunk.chunk_ptr)

  -- The branch of a unique chunk. LocalReduct loses nothing: the compressed size is at most the
  -- chunk's, the capacity that the compressor is given.
  unfoldable pub insert_unique : Dedup → Chunk → Dedup × Chunk
  unfolding compressed assign_container store_chunk fp_insert
  insert_unique d chunk =
      let c = compressed chunk d.uniquechunk_num in
      let (d', c') = assign_container d c in
      (
        record d' {
          fp_index = fp_insert d.fp_index (hash chunk.chunk_ptr) c'.chunk_id;
          data_write = store_chunk d.data_write c';
          basechunk_num = d.basechunk_num + 1;
          basechunk_size = d.basechunk_size + c'.save_size;
          uniquechunk_num = d.uniquechunk_num + 1;
          uniquechunk_size = d.uniquechunk_size + c'.save_size;
          local_reduct = d.local_reduct + (c'.chunk_size - c'.save_size);
        },
        c',
      )

  -- One round of the loop. `none`: the index names a chunk that the store does not have.
  unfoldable pub process_chunk : Dedup → Chunk → Option Dedup
  unfolding insert_unique list_chunk fp_find
  process_chunk d chunk = elim (fp_find d.fp_index (hash chunk.chunk_ptr)) [
    | none ↦ let (d', c) = insert_unique d chunk in some (list_chunk d' c)
    | some id ↦ elim (get_chunk_meta_info d.data_write id) [
      | none ↦ none
      | some c ↦ some (list_chunk (record d { dedup_reduct = d.dedup_reduct + c.chunk_size }) c)
    ]
  ]

  -- The loop, over the chunks that the queue delivers until it is done.
  unfoldable pub process_trace : Dedup → List Chunk → Option Dedup
  unfolding process_chunk
  process_trace d [] = some d
  process_trace d (chunk ∷ chunks) = elim (process_chunk d chunk) [
    | none ↦ none
    | some d' ↦ process_trace d' chunks
  ]
