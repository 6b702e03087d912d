-- ===== src/Cache/ReadBack.antt =====
-- What the users of the read cache see: hits and misses give the container's bytes.
use bi_search.Base.{ℕ, ◌≡◌, true, false, some, Bytes, Memory, length, read_at}
use bi_search.Cache.{ReadCache, insert_to_cache, exists_in_cache, read_from_cache}
use bi_search.Cache.Coherent.{IsCoherent, insert_to_cache-IsCoherent, read_from_cache-IsCoherent}

module _ (contents : ℕ → Bytes) where
  -- In a coherent cache, reading a cached container succeeds: the buffer begins with the
  -- container's bytes, and the cache is coherent afterwards.
  pub read_hit :
      (c : ReadCache) (name : ℕ)
      → IsCoherent contents c
      → exists_in_cache c name ≡ true
      → (m : Memory) × (c' : ReadCache) × (read_from_cache c name ≡ some (m, c'))
        × (read_at m 0 (length (contents name)) ≡ contents name)
        × IsCoherent contents c'
  read_hit c name v cached =
      let (m, c', run, bytes, v', _) = read_from_cache-IsCoherent contents c name v cached in
      (m, c', run, bytes, v')

  -- In a coherent cache, inserting a container that is not cached succeeds, even where the cache
  -- is full: the cache is coherent afterwards, and a read of the container then gives a buffer
  -- that begins with its bytes and leaves the cache coherent.
  pub read-insert :
      (c : ReadCache) (name : ℕ)
      → IsCoherent contents c
      → exists_in_cache c name ≡ false
      → (c' : ReadCache) × (insert_to_cache c name (contents name) (length (contents name))
          ≡ some c')
        × IsCoherent contents c'
        × (m : Memory) × (c'' : ReadCache) × (read_from_cache c' name ≡ some (m, c''))
        × (read_at m 0 (length (contents name)) ≡ contents name)
        × IsCoherent contents c''
  read-insert c name v missed =
      let (c', run, v', cached, _) = insert_to_cache-IsCoherent contents c name v missed in
      let (m, c'', again, bytes, v'') = read_hit c' name v' cached in
      (c', run, v', m, c'', again, bytes, v'')
