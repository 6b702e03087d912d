-- ===== src/Store/Tests.antt =====
-- A small store, and the properties of the store at it. Compression of the tests: a run of equal
-- bytes is its length and its byte.
use bi_search.Base.{
  ℕ, zero, suc, ◌≡◌, refl, true, false, none, some, [], ◌∷◌, arith, Bytes, Memory, length, copy,
}
use bi_search.Types.{Chunk, DeltaType, no_delta, no_lz4, is_no_delta}
use bi_search.Cache.{read_cache}
use bi_search.Cache.Coherent.{read_cache-IsCoherent}
use bi_search.Store.{DataWrite, chunk_insert, chunk_insert_lz4, place}
use bi_search.Store.Fetch.{get_chunk_info}
use bi_search.Store.Stored.{Blob, AllStored, IsValid, Frame, contents}
use bi_search.Store.Deliver.{IsFetched}
use bi_search.Store.Insert.{blob_of, place-IsValid, chunk_insert_lz4-IsValid}
use bi_search.Store.Read.{get_chunk_info_lem}
use bi_search.Store.RoundTrip.{get_chunk_info-chunk_insert, get_chunk_info-chunk_insert_lz4}

abbrev repeated : ℕ → ℕ → Bytes
repeated zero x = []
repeated (suc n) x = x ∷ repeated n x

abbrev pub unrun : Bytes → Bytes
unrun (n ∷ x ∷ []) = repeated n x
unrun _ = []

abbrev pub no_inflate : Bytes → Bytes
no_inflate bs = []

abbrev no_memory : Memory
no_memory i = 0

abbrev pub empty : DataWrite
empty = record {
  chunk_num = 0;
  container_size = 0;
  filename = "a.tar";
  load_container_times = 0;
  cache_hit_times = 0;
  recipe_map = λ s. [];
  recipe_map_header = λ s. [];
  container_cache = read_cache (λ i. no_memory);
  lz4_safe_chunk_buffer = no_memory;
  lz4_compress = true;
  chunklist = [];
  container_num = 0;
  cur_container = record { size = 0; chunk_num = 0; container_id = 0; content = no_memory };
  cur_offset = 0;
  containers = λ k. none;
  can_open = λ k. true;
}

pub empty-IsValid : IsValid empty
unfolding read_cache
empty-IsValid = record {
  filled = refl;
  numbered = refl;
  fits = omega arith;
  cache = read_cache-IsCoherent (contents empty.containers) (λ i. no_memory);
  cached = tt;
  filed = λ k h. absurd (omega arith);
  opens = λ k. refl;
}

abbrev pub chunk : DeltaType → ℕ → Bytes → Chunk
chunk flag save_size bytes = record {
  chunk_id = 0;
  chunk_size = length bytes;
  save_size = save_size;
  offset = 0;
  container_id = 0;
  chunk_ptr = bytes;
  name = 0;
  basechunk_id = none;
  delta_flag = flag;
  load_from_disk = false;
  header_flag = false;
  name_exist = false;
  cdc_flag = false;
}

abbrev pub eights : Chunk
eights = chunk no_delta 2 (8 ∷ 8 ∷ 8 ∷ 8 ∷ [])

abbrev mixed : Chunk
mixed = chunk no_lz4 3 (1 ∷ 2 ∷ 3 ∷ [])

get_chunk_info-chunk_insert_lz4_example :
    (r : Chunk × DataWrite) × (get_chunk_info unrun no_inflate
        (chunk_insert_lz4 empty eights (4 ∷ 8 ∷ []))
        0
      ≡ some r)
    × (r.0.chunk_ptr ≡ eights.chunk_ptr)
    × IsValid r.1
    × AllStored r.1 r.1.chunklist (blob_of eights (4 ∷ 8 ∷ []) ∷ [])
unfolding is_no_delta
get_chunk_info-chunk_insert_lz4_example =
    get_chunk_info-chunk_insert_lz4 unrun no_inflate empty eights [] (4 ∷ 8 ∷ []) empty-IsValid tt
      refl refl refl (omega arith) refl

abbrev pub one_blob : Blob
one_blob = blob_of eights (4 ∷ 8 ∷ [])

get_chunk_info-chunk_insert_example :
    (r : Chunk × DataWrite) × (get_chunk_info unrun no_inflate (chunk_insert empty mixed) 0
      ≡ some r)
    × (r.0.chunk_ptr ≡ 1 ∷ 2 ∷ 3 ∷ [])
    × IsValid r.1
    × AllStored r.1 r.1.chunklist (blob_of mixed (1 ∷ 2 ∷ 3 ∷ []) ∷ [])
unfolding is_no_delta
get_chunk_info-chunk_insert_example =
    get_chunk_info-chunk_insert unrun no_inflate empty mixed [] empty-IsValid tt refl refl
      (omega arith)

-- The store with the one chunk.
abbrev pub one_chunk : DataWrite
one_chunk = chunk_insert_lz4 empty eights (4 ∷ 8 ∷ [])

get_chunk_info_lem_example :
    (r : Chunk × DataWrite) × (get_chunk_info unrun no_inflate one_chunk 0 ≡ some r)
    × IsFetched unrun no_inflate one_chunk (one_blob ∷ []) one_blob r
unfolding copy is_no_delta chunk_insert_lz4
get_chunk_info_lem_example =
    get_chunk_info_lem unrun no_inflate one_chunk (one_blob ∷ []) 0 one_blob
      (chunk_insert_lz4-IsValid empty eights (4 ∷ 8 ∷ []) [] empty-IsValid tt (omega arith)).0
      (chunk_insert_lz4-IsValid empty eights (4 ∷ 8 ∷ []) [] empty-IsValid tt (omega arith)).1 refl
      (λ p. refl)

chunk_insert_lz4-IsValid_example :
    IsValid one_chunk
    × AllStored one_chunk one_chunk.chunklist (one_blob ∷ [])
    × Frame empty one_chunk
unfolding copy
chunk_insert_lz4-IsValid_example =
    chunk_insert_lz4-IsValid empty eights (4 ∷ 8 ∷ []) [] empty-IsValid tt (omega arith)

place-IsValid_example :
    let st' = place empty mixed 3 (1 ∷ 2 ∷ 3 ∷ []) in
    IsValid st'
    × AllStored st' st'.chunklist (blob_of mixed (1 ∷ 2 ∷ 3 ∷ []) ∷ [])
    × Frame empty st'
unfolding copy
place-IsValid_example =
    place-IsValid empty mixed 3 (1 ∷ 2 ∷ 3 ∷ []) [] empty-IsValid tt (omega arith) refl
