-- ===== src/Cache.antt =====
-- src/util/readCache.cc: a fixed pool of container buffers behind an LRU index of slots.
pub mod Index
pub mod Slots
pub mod Eviction
pub mod Coherent
pub mod ReadBack
pub mod Held
mod Tests
use bi_search.Base.{
  ℕ, suc, ◌+◌, Bool, Option, none, some, [], Bytes, Memory, if◌then◌else◌, ltb, ◌==◌, copy,
  write_at,
}
use bi_search.Config.{container_cache_size}
use Index.{Lru}

pub record ReadCache : Type 0 where
  pub lru : Lru
  pub container_pool : ℕ → Memory
  pub cache_size : ℕ
  pub current_index : ℕ

-- The buffers are malloc'ed; what they hold at first is the argument.
unfoldable pub read_cache : (ℕ → Memory) → ReadCache
read_cache pool = record {
  lru = record { keys = []; max_size = container_cache_size; elasticity = 0 };
  container_pool = pool;
  cache_size = container_cache_size;
  current_index = 0;
}

-- memcpy(containerPool_[slot], data, length)
unfoldable pub fill_slot : (ℕ → Memory) → ℕ → Bytes → ℕ → Memory
fill_slot pool slot bytes j = if j == slot then write_at (pool slot) 0 bytes else pool j

-- `none` is the exception of pruneValue. `length` is the number of bytes copied.
unfoldable pub insert_to_cache : ReadCache → ℕ → Bytes → ℕ → Option ReadCache
unfolding fill_slot
insert_to_cache c name bytes length =
    if ltb c.cache_size (Index.size c.lru + 1)
    then (elim (Index.prune_value c.lru) [
      | none ↦ none
      | some slot ↦ some (record c {
        container_pool = fill_slot c.container_pool slot (copy length bytes);
        lru = Index.insert c.lru name slot;
      })
    ])
    else some (record c {
      container_pool = fill_slot c.container_pool c.current_index (copy length bytes);
      lru = Index.insert c.lru name c.current_index;
      current_index = c.current_index + 1;
    })

unfoldable pub exists_in_cache : ReadCache → ℕ → Bool
exists_in_cache c name = Index.contains c.lru name

-- The buffer, or `none` for KeyNotFound.
unfoldable pub read_from_cache : ReadCache → ℕ → Option (Memory × ReadCache)
read_from_cache c name = elim (Index.get c.lru name) [
  | none ↦ none
  | some (slot, lru) ↦ some (c.container_pool slot, record c { lru = lru })
]

unfoldable pub clear_all_cache : ReadCache → ReadCache
clear_all_cache c = record c { lru = Index.clear c.lru; current_index = 0 }
