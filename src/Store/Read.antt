-- ===== src/Store/Read.antt =====
-- Get_Chunk_Info gives back what was stored, from wherever it is found.
use bi_search.Base.{
  ℕ, ◌+◌, ◌≡◌, refl, ap, ◌∙◌, ◌≢◌, inl, inr, Bool, true, false, Option, some, List, Bytes, Memory,
  length, read_at, copy, get_elem?, length-copy, ==→eq, ==→ne, ◌==◌, Bool-cases, subst,
}
use bi_search.Types.{Chunk, is_no_delta}
use bi_search.Cache.{ReadCache, exists_in_cache, insert_to_cache}
use bi_search.Cache.Slots.{KeysBelow}
use bi_search.Cache.Coherent.{IsCoherent, insert_to_cache-IsCoherent, read_from_cache-IsCoherent}
use bi_search.Store.{DataWrite}
use bi_search.Store.Fetch.{memory_of, deliver, from_cache, from_file, from_memory, get_chunk_info}
use bi_search.Store.Stored.{
  Stored, contents, Blob, Entry, AllStored, IsValid, Entry-mono, AllStored-mono, AllStored-get,
}
use bi_search.Store.Deliver.{unpacked, IsFetched, deliver-IsFetched}
use bi_search.Store.Locate.{
  cached_below, recached, recached-IsValid, filed_at, in_own_file, in_current, not_current,
}

module _ (lz4_decompress_safe inflate_decompress : Bytes → Bytes) where
  module _ (st : DataWrite) (blobs : List Blob) (id : ℕ) (c : Chunk) (b : Blob) (valid : IsValid st)
      (all : AllStored st st.chunklist blobs) (listed : get_elem? st.chunklist id ≡ some c)
      (entry : Entry st c b)
      (size : is_no_delta b.flag ≡ true
        → length (unpacked lz4_decompress_safe inflate_decompress st.lz4_compress b) ≡ b.size) where
    abbrev Fetches : Option (Chunk × DataWrite) → Type 0
    Fetches o =
        (r : Chunk × DataWrite) × (o ≡ some r)
        × IsFetched lz4_decompress_safe inflate_decompress st blobs b r

    recached-IsFetched :
        (cache : ReadCache) (hits loads : ℕ) (m : Memory) (fresh : Bool)
        → IsCoherent (contents st.containers) cache
        → KeysBelow st.container_num cache.lru.keys
        → read_at m c.offset (length b.bytes) ≡ b.bytes
        → IsFetched lz4_decompress_safe inflate_decompress st blobs b (
            deliver lz4_decompress_safe inflate_decompress
              (record st {
                container_cache = cache;
                cache_hit_times = hits;
                load_container_times = loads;
              })
              id
              c
              m
              fresh)
    recached-IsFetched cache hits loads m fresh coherent below found =
        let keeps : (d : Chunk) (bs : Bytes)
            → Stored st d bs
            → Stored
                (record st {
                  container_cache = cache;
                  cache_hit_times = hits;
                  load_container_times = loads;
                })
                d bs =
          recached st cache hits loads in
        let st1 = record st {
          container_cache = cache;
          cache_hit_times = hits;
          load_container_times = loads;
        } in
        let got =
          deliver-IsFetched lz4_decompress_safe inflate_decompress st1 blobs id c b
            (recached-IsValid st cache hits loads valid coherent below)
            (AllStored-mono st st1 keeps st.chunklist blobs all) listed
            (Entry-mono (keeps c b.bytes) refl refl refl refl refl refl entry) size m fresh found in
        record {
          bytes = got.bytes;
          entry = got.entry;
          valid = got.valid;
          stored = got.stored;
          frame = record {
            codec = got.frame.codec;
            name = got.frame.name;
            recipes = got.frame.recipes;
            header_recipes = got.frame.header_recipes;
          };
        }

    cached_case :
        exists_in_cache st.container_cache c.container_id ≡ true
        → Fetches (from_cache lz4_decompress_safe inflate_decompress st id c)
    unfolding from_cache
    cached_case hit =
        let (m, cache, run, whole, coherent, below) =
          read_from_cache-IsCoherent (contents st.containers) st.container_cache c.container_id
            valid.cache hit in
        (
          _,
          rw (from_cache, run) refl,
          recached-IsFetched cache (st.cache_hit_times + 1) st.load_container_times m false coherent
              (below st.container_num valid.cached)
              (filed_at st c b.bytes m entry.stored (cached_below st c.container_id valid hit)
                whole),
        )

    memory_case :
        c.container_id ≡ st.container_num
        → Fetches (from_memory lz4_decompress_safe inflate_decompress st id c)
    unfolding from_memory
    memory_case current = (
      _,
      refl,
      deliver-IsFetched lz4_decompress_safe inflate_decompress st blobs id c b valid all listed
          entry size st.cur_container.content false (in_current st c b.bytes entry.stored current),
    )

    file_case :
        exists_in_cache st.container_cache c.container_id ≡ false
        → c.container_id ≢ st.container_num
        → Fetches (from_file lz4_decompress_safe inflate_decompress st id c)
    unfolding from_file
    file_case missed other =
        let below = not_current st c b.bytes entry.stored other in
        let (f, opened) = valid.filed c.container_id below in
        let same : contents st.containers c.container_id ≡ copy f.size f.payload =
          rw (contents, opened) refl in
        let sized : length (contents st.containers c.container_id) ≡ f.size =
          ap length same ∙ length-copy f.size f.payload in
        let (cache, run, coherent, _, keys) =
          insert_to_cache-IsCoherent (contents st.containers) st.container_cache c.container_id
            valid.cache missed in
        let run' : insert_to_cache st.container_cache c.container_id (copy f.size f.payload) f.size
            ≡ some cache =
          rw (← same, ← sized) run in
        (
          _,
          rw (from_file, opened, run') refl,
          recached-IsFetched cache st.cache_hit_times (st.load_container_times + 1)
              (memory_of (copy f.size f.payload)) true coherent
              (keys st.container_num below valid.cached)
              (subst (λ xs. read_at (memory_of xs) c.offset (length b.bytes) ≡ b.bytes) same
                (in_own_file st c b.bytes entry.stored below)),
        )

    listed_case : Fetches (get_chunk_info lz4_decompress_safe inflate_decompress st id)
    unfolding get_chunk_info
    listed_case = elim (Bool-cases (exists_in_cache st.container_cache c.container_id)) [
      | inl hit ↦ subst Fetches (rw (get_chunk_info, listed, hit) refl) (cached_case hit)
      | inr missed ↦ elim (Bool-cases (c.container_id == st.container_num)) [
        | inl current ↦
            subst Fetches (rw (get_chunk_info, listed, missed, current) refl)
              (memory_case (==→eq c.container_id st.container_num current))
        | inr other ↦
            subst Fetches (rw (get_chunk_info, listed, missed, other) refl)
              (file_case missed (==→ne c.container_id st.container_num other))
      ]
    ]

  -- In a well-formed store whose chunk list agrees with the blobs, fetching a listed index succeeds,
  -- if a compressed blob unpacks to bytes of the chunk's size: the chunk points to the unpacked
  -- bytes, and the store is still well formed and holds every blob, with its recipes, file name
  -- and codec as before.
  pub get_chunk_info_lem :
      (st : DataWrite) (blobs : List Blob) (id : ℕ) (b : Blob)
      → IsValid st
      → AllStored st st.chunklist blobs
      → get_elem? blobs id ≡ some b
      → (is_no_delta b.flag ≡ true
          → length (unpacked lz4_decompress_safe inflate_decompress st.lz4_compress b) ≡ b.size)
      → (r : Chunk × DataWrite) × (get_chunk_info lz4_decompress_safe inflate_decompress st id
          ≡ some r)
        × IsFetched lz4_decompress_safe inflate_decompress st blobs b r
  get_chunk_info_lem st blobs id b valid all known size =
      let (c, listed, entry) = AllStored-get st st.chunklist blobs id all known in
      listed_case st blobs id c b valid all listed entry size
