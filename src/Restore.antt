-- ===== src/Restore.antt =====
-- src/datawrite/datawrite.cc, dataWrite::restoreFile: a file is its recipe's chunks one after the
-- other, a delta decoded against its base chunk. The name of the output file is not modelled.
-- xd3_decode of the xdelta3 library is a parameter: from a delta and a base to the decoded bytes.
pub mod Originals
pub mod Files
mod Tests
use Prim.Native.String.{String}
use bi_search.Base.{ℕ, Bool, Option, none, some, List, [], ◌∷◌, ◌++◌, Bytes, if◌then◌else◌, copy}
use bi_search.Types.{Chunk, is_whole}
use bi_search.Store.{DataWrite}
use bi_search.Store.Fetch.{get_chunk_info}

module _ (lz4_decompress_safe inflate_decompress : Bytes → Bytes)
    (xd3_decode : Bytes → Bytes → Bytes) where
  -- The bytes written for a delta, after its base chunk is fetched. A base of -1 is no index.
  unfoldable pub restored_delta : DataWrite → Chunk → Option (Bytes × DataWrite)
  restored_delta st c = elim c.basechunk_id [
    | none ↦ none
    | some base ↦ elim (get_chunk_info lz4_decompress_safe inflate_decompress st base) [
      | none ↦ none
      | some (b, st') ↦ some (
        copy c.chunk_size
            (xd3_decode (copy c.save_size c.chunk_ptr) (copy b.chunk_size b.chunk_ptr)),
        st',
      )
    ]
  ]

  -- One round of the loop over the recipe: the bytes written to the file.
  unfoldable pub restored_chunk : DataWrite → ℕ → Option (Bytes × DataWrite)
  unfolding restored_delta is_whole
  restored_chunk st id = elim (get_chunk_info lz4_decompress_safe inflate_decompress st id) [
    | none ↦ none
    | some (c, st') ↦
        if is_whole c.delta_flag
        then some (copy c.chunk_size c.chunk_ptr, st')
        else restored_delta st' c
  ]

  unfoldable pub restored : DataWrite → List ℕ → Option (Bytes × DataWrite)
  unfolding restored_chunk
  restored st [] = some ([], st)
  restored st (id ∷ ids) = elim (restored_chunk st id) [
    | none ↦ none
    | some (x, st') ↦ elim (restored st' ids) [ none ↦ none | some (y, st'') ↦ some (x ++ y, st'') ]
  ]

  unfoldable pub restore_file : DataWrite → String → Option (Bytes × DataWrite)
  unfolding restored
  restore_file st name = restored st (st.recipe_map name)
