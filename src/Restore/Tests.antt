-- ===== src/Restore/Tests.antt =====
-- Restoring a base chunk and a delta to it. Decoding of the tests: the delta goes behind the base.
use bi_search.Base.{◌≡◌, refl, ◌∙◌, true, some, List, [], ◌∷◌, ◌++◌, arith, Bytes, copy}
use bi_search.Types.{Chunk, delta, is_no_delta, is_whole}
use bi_search.Store.{DataWrite, chunk_insert}
use bi_search.Store.Stored.{Blob, IsValid, AllStored, Frame}
use bi_search.Store.Insert.{blob_of, chunk_insert-IsValid, chunk_insert_lz4-IsValid}
use bi_search.Store.Tests.{
  unrun, no_inflate, empty, empty-IsValid, chunk, eights, one_chunk, one_blob,
}
use bi_search.Restore.{restored}
use bi_search.Restore.Originals.{Serves, whole, from_base, Spells, nothing, next}
use bi_search.Restore.Files.{restored_lem}

abbrev behind : Bytes → Bytes → Bytes
behind d base = base ++ d

-- 8 8 8 8 9 as a delta to the first chunk.
abbrev nine : Chunk
nine = record (chunk delta 1 (9 ∷ [])) { chunk_id = 1; chunk_size = 5; basechunk_id = some 0 }

abbrev blobs : List Blob
blobs = one_blob ∷ blob_of nine (9 ∷ []) ∷ []

abbrev two_chunks : DataWrite
two_chunks = chunk_insert one_chunk nine

one_chunk_held :
    IsValid one_chunk
    × AllStored one_chunk one_chunk.chunklist (one_blob ∷ [])
    × Frame empty one_chunk
unfolding copy
one_chunk_held =
    chunk_insert_lz4-IsValid empty eights (4 ∷ 8 ∷ []) [] empty-IsValid tt (omega arith)

two_chunks_held :
    IsValid two_chunks
    × AllStored two_chunks two_chunks.chunklist blobs
    × Frame one_chunk two_chunks
unfolding copy is_no_delta
two_chunks_held =
    chunk_insert-IsValid one_chunk nine (one_blob ∷ []) refl one_chunk_held.0 one_chunk_held.1
      (omega arith)

two_chunks-Serves : Serves true blobs two_chunks
two_chunks-Serves = record {
  valid = two_chunks_held.0;
  all = two_chunks_held.1;
  codec = two_chunks_held.2.codec ∙ one_chunk_held.2.codec;
}

delta_first :
    Spells unrun no_inflate behind true blobs (1 ∷ 0 ∷ []) (8 ∷ 8 ∷ 8 ∷ 8 ∷ 9 ∷ 8 ∷ 8 ∷ 8 ∷ 8 ∷ [])
unfolding is_no_delta is_whole
delta_first =
    next {b = blob_of nine (9 ∷ [])} refl
      (from_base {k = 0} {base = one_blob} refl refl refl refl refl refl refl)
      (next {b = one_blob} refl (whole refl refl refl) nothing)

restored_lem_example :
    (st' : DataWrite) × (restored unrun no_inflate behind two_chunks (1 ∷ 0 ∷ [])
      ≡ some (8 ∷ 8 ∷ 8 ∷ 8 ∷ 9 ∷ 8 ∷ 8 ∷ 8 ∷ 8 ∷ [], st'))
    × Serves true blobs st'
    × Frame two_chunks st'
restored_lem_example =
    restored_lem unrun no_inflate behind true blobs two_chunks (1 ∷ 0 ∷ [])
      (8 ∷ 8 ∷ 8 ∷ 8 ∷ 9 ∷ 8 ∷ 8 ∷ 8 ∷ 8 ∷ []) two_chunks-Serves delta_first
