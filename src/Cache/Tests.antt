-- ===== src/Cache/Tests.antt =====
-- The read cache on small containers, and its properties there.
use bi_search.Base.{
  ℕ, zero, suc, ◌+◌, ◌≡◌, refl, true, false, some, [], ◌∷◌, arith, Bytes, Memory, length, read_at,
}
use bi_search.Cache.{ReadCache, insert_to_cache, exists_in_cache, read_from_cache}
use bi_search.Cache.Index
use bi_search.Cache.Coherent.{IsCoherent}
use bi_search.Cache.Held.{read_buffer_kept}
use bi_search.Cache.ReadBack.{read_hit, read-insert}

abbrev files : ℕ → Bytes
files k = k ∷ (k + 1) ∷ (k + 2) ∷ []

abbrev pool : ℕ → Memory
pool zero i = 4 + i
pool (suc n) i = 5 + i

-- A full cache of two slots: container 5 was used last, container 4 before it.
abbrev full : ReadCache
full = record {
  lru = record { keys = (5, 1) ∷ (4, 0) ∷ []; max_size = 2; elasticity = 0 };
  container_pool = pool;
  cache_size = 2;
  current_index = 2;
}

full-IsCoherent : IsCoherent files full
unfolding read_at
full-IsCoherent = record {
  table = record {
    distinct = ((omega arith, tt), (omega arith, tt), (tt, tt, tt));
    below = (omega arith, (omega arith, tt));
    holds = (refl, (refl, tt));
  };
  used = refl;
  bounded = omega arith;
  limit = refl;
  strict = refl;
  positive = omega arith;
}

hit : exists_in_cache full 4 ≡ true
unfolding exists_in_cache Index.contains Index.lookup
hit = refl

miss : exists_in_cache full 6 ≡ false
unfolding exists_in_cache Index.contains Index.lookup
miss = refl

read_hit_example :
    (m : Memory) × (c' : ReadCache) × (read_from_cache full 4 ≡ some (m, c'))
    × (read_at m 0 (length (files 4)) ≡ files 4)
    × IsCoherent files c'
read_hit_example = read_hit files full 4 full-IsCoherent hit

read-insert_example :
    (c' : ReadCache) × (insert_to_cache full 6 (files 6) (length (files 6)) ≡ some c')
    × IsCoherent files c'
    × (m : Memory) × (c'' : ReadCache) × (read_from_cache c' 6 ≡ some (m, c''))
    × (read_at m 0 (length (files 6)) ≡ files 6)
    × IsCoherent files c''
read-insert_example = read-insert files full 6 full-IsCoherent miss

read_buffer_kept_example :
    (slot : ℕ) × (c' : ReadCache) × (c'' : ReadCache) × (read_from_cache full 4
      ≡ some (full.container_pool slot, c'))
    × (insert_to_cache c' 6 (files 6) (length (files 6)) ≡ some c'')
    × (c''.container_pool slot ≡ full.container_pool slot)
    × (read_at (c''.container_pool slot) 0 (length (files 4)) ≡ files 4)
read_buffer_kept_example =
    read_buffer_kept files full 4 6 full-IsCoherent (omega arith) (omega arith) hit miss
