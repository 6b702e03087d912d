-- ===== src/Cache/Coherent.antt =====
-- The read cache against the containers that it copies: an entry's buffer begins with the bytes
-- of its container, whatever has been inserted, read and evicted.
use bi_search.Base.{
  ℕ, ◌+◌, ◌≤◌, ◌<◌, ◌≡◌, refl, inl, inr, true, false, none, some, [], ◌∷◌, arith, Bytes, Memory,
  dec_lt, length, le→ltb, lt→ltb, Option-cases, read_at, copy_all,
}
use bi_search.Cache.{
  ReadCache, read_cache, fill_slot, insert_to_cache, exists_in_cache, read_from_cache,
  clear_all_cache,
}
use bi_search.Cache.Index.{Lru, Entries, lookup, without, pop_back, back, prune_loop, prune}
use bi_search.Cache.Index
use bi_search.Cache.Slots.{
  Absent, Unused, Below, Table, Absent-of_lookup, looked_up, length-without, touch-Table,
  Holds-fill_slot, fill_slot_self, Unused-of_Below, Below-mono, KeysBelow, Holds-congr,
  KeysBelow-without, key_below,
}
use bi_search.Cache.Eviction.{
  back-some, pop_back-Table, back-Unused, lookup-back, insert_below, insert_at_limit,
  Absent-pop_back, KeysBelow-pop_back, length-pop_back_lem,
}

pub record IsCoherent (contents : ℕ → Bytes) (c : ReadCache) : Type 0 where
  pub table : Table c.current_index c.container_pool contents c.lru.keys
  pub used : length c.lru.keys ≡ c.current_index
  pub bounded : c.current_index ≤ c.cache_size
  pub limit : c.lru.max_size ≡ c.cache_size
  pub strict : c.lru.elasticity ≡ 0
  pub positive : 0 < c.cache_size

module _ (contents : ℕ → Bytes) where
  pub read_cache-IsCoherent : (pool : ℕ → Memory) → IsCoherent contents (read_cache pool)
  unfolding read_cache
  read_cache-IsCoherent pool = record {
    table = record { distinct = tt; below = tt; holds = tt };
    used = refl;
    bounded = omega arith;
    limit = refl;
    strict = refl;
    positive = omega arith;
  }

  pub clear_all_cache-IsCoherent :
      (c : ReadCache) → IsCoherent contents c → IsCoherent contents (clear_all_cache c)
  unfolding clear_all_cache Index.clear
  clear_all_cache-IsCoherent c v = record {
    table = record { distinct = tt; below = tt; holds = tt };
    used = refl;
    bounded = omega arith;
    limit = v.limit;
    strict = v.strict;
    positive = v.positive;
  }

  -- A slot that nobody uses, filled with the container's bytes, makes a new entry.
  cons-Table :
      {n m : ℕ} {pool : ℕ → Memory} (name slot : ℕ) (l : Entries)
      → n ≤ m
      → slot < m
      → Absent name l
      → Unused slot l
      → Table n pool contents l
      → Table m (fill_slot pool slot (contents name)) contents ((name, slot) ∷ l)
  cons-Table {n} {m} {pool} name slot l h k a u t = record {
    distinct = (a, u, t.distinct);
    below = (k, Below-mono n m l h t.below);
    holds = (
      fill_slot_self pool slot (contents name),
      Holds-fill_slot pool contents slot (contents name) l u t.holds,
    );
  }

  module _ (c : ReadCache) (v : IsCoherent contents c) (name : ℕ)
      (missing : lookup name c.lru.keys ≡ none) where
    -- With room left the next slot is taken.
    pub insert_room :
        c.current_index < c.cache_size
        → insert_to_cache c name (contents name) (length (contents name))
          ≡ some (record c {
            container_pool = fill_slot c.container_pool c.current_index (contents name);
            lru = record c.lru { keys = (name, c.current_index) ∷ c.lru.keys };
            current_index = c.current_index + 1;
          })
    unfolding insert_to_cache Index.size
    insert_room room =
        let w = v.used in
        let x = v.limit in
        let below = insert_below c.lru name c.current_index v.strict missing (omega arith) in
        rw (
          insert_to_cache,
          copy_all (contents name),
          le→ltb c.cache_size (length c.lru.keys + 1) (omega arith),
          below,
        )

    -- A full cache gives up its least recent entry and reuses the slot.
    pub insert_full :
        (e : ℕ × ℕ)
        → c.current_index ≡ c.cache_size
        → back c.lru.keys ≡ some e
        → insert_to_cache c name (contents name) (length (contents name))
          ≡ some (record c {
            container_pool = fill_slot c.container_pool e.1 (contents name);
            lru = record c.lru { keys = (name, e.1) ∷ pop_back c.lru.keys };
          })
    unfolding insert_to_cache Index.size Index.prune_value
    insert_full e full last =
        let w = v.used in
        let x = v.limit in
        let y = v.positive in
        let at_limit =
          insert_at_limit c.lru name e.1 v.strict missing e (omega arith) (omega arith) last in
        rw (
          insert_to_cache,
          lt→ltb c.cache_size (length c.lru.keys + 1) (omega arith),
          last,
          lookup-back c.lru.keys e v.table.distinct last,
          copy_all (contents name),
          at_limit,
        )

  pub full_back : (l : Entries) → 0 < length l → (e : ℕ × ℕ) × (back l ≡ some e)
  full_back [] h = absurd (omega arith)
  full_back (e ∷ l) h = back-some e l

  full_slot : (n : ℕ) (l : Entries) (e : ℕ × ℕ) → Below n l → back l ≡ some e → e.1 < n
  unfolding back
  full_slot n [] e b h = absurd (ground arith)
  full_slot n (f ∷ []) e b h = ground arith
  full_slot n (f ∷ g ∷ l) e b h = full_slot n (g ∷ l) e b.1 h

  -- Caching a container that is not cached yet never fails and never writes outside the pool. It
  -- keeps the cache coherent, and the container is cached from then on.
  pub insert_to_cache-IsCoherent :
      (c : ReadCache) (name : ℕ)
      → IsCoherent contents c
      → exists_in_cache c name ≡ false
      → (c' : ReadCache) × (insert_to_cache c name (contents name) (length (contents name))
          ≡ some c')
        × IsCoherent contents c'
        × (exists_in_cache c' name ≡ true)
        × ((n : ℕ) → name < n → KeysBelow n c.lru.keys → KeysBelow n c'.lru.keys)
  unfolding exists_in_cache Index.contains lookup
  insert_to_cache-IsCoherent c name v absent = elim (dec_lt c.current_index c.cache_size) [
    | yes room ↦ (
      _,
      insert_room c v name missing room,
      record {
        table =
            cons-Table name c.current_index c.lru.keys (omega arith) (omega arith)
              (Absent-of_lookup name c.lru.keys missing)
              (Unused-of_Below c.current_index c.current_index c.lru.keys v.table.below
                (omega arith))
              v.table;
        used = omega (arith, v.used);
        bounded = omega arith;
        limit = v.limit;
        strict = v.strict;
        positive = v.positive;
      },
      ground arith,
      λ n h b. (h, b),
    )
    | no full ↦
        let full' : c.current_index ≡ c.cache_size = omega (arith, v.bounded) in
        let (e, last) = full_back c.lru.keys (omega (arith, v.used, v.positive)) in
        (
          _,
          insert_full c v name missing e full' last,
          record {
            table =
                cons-Table name e.1 (pop_back c.lru.keys) (omega arith)
                  (full_slot c.current_index c.lru.keys e v.table.below last)
                  (Absent-pop_back name c.lru.keys (Absent-of_lookup name c.lru.keys missing))
                  (back-Unused c.lru.keys e v.table.distinct last)
                  (pop_back-Table c.lru.keys v.table);
            used = omega (arith, v.used, v.positive, length-pop_back_lem c.lru.keys);
            bounded = v.bounded;
            limit = v.limit;
            strict = v.strict;
            positive = v.positive;
          },
          ground arith,
          λ n h b. (h, KeysBelow-pop_back n c.lru.keys b),
        )
  ]
    where
      missing : lookup name c.lru.keys ≡ none
      missing = ground arith

  -- A cached container is read as its bytes, and reading keeps the cache coherent.
  pub read_from_cache-IsCoherent :
      (c : ReadCache) (name : ℕ)
      → IsCoherent contents c
      → exists_in_cache c name ≡ true
      → (m : Memory) × (c' : ReadCache) × (read_from_cache c name ≡ some (m, c'))
        × (read_at m 0 (length (contents name)) ≡ contents name)
        × IsCoherent contents c'
        × ((n : ℕ) → KeysBelow n c.lru.keys → KeysBelow n c'.lru.keys)
  unfolding exists_in_cache Index.contains read_from_cache Index.get
  read_from_cache-IsCoherent c name v cached = elim (Option-cases (lookup name c.lru.keys)) [
    | inl none_here ↦ absurd (ground arith)
    | inr (slot, found) ↦ (
      c.container_pool slot,
      record c { lru = record c.lru { keys = (name, slot) ∷ without name c.lru.keys } },
      rw (read_from_cache, found),
      (looked_up c.current_index c.container_pool contents name c.lru.keys slot v.table.below
          v.table.holds found).1,
      record {
        table = touch-Table name c.lru.keys slot v.table found;
        used = omega (arith, v.used, length-without name c.lru.keys slot found);
        bounded = v.bounded;
        limit = v.limit;
        strict = v.strict;
        positive = v.positive;
      },
      λ n b. (key_below n name c.lru.keys slot b found, KeysBelow-without n name c.lru.keys b),
    )
  ]

-- Containers that are not cached may change.
pub IsCoherent-congr :
    (contents contents' : ℕ → Bytes) (n : ℕ) (c : ReadCache)
    → ((k : ℕ) → k < n → contents k ≡ contents' k)
    → KeysBelow n c.lru.keys
    → IsCoherent contents c
    → IsCoherent contents' c
IsCoherent-congr contents contents' n c same b v = record {
  table = record {
    distinct = v.table.distinct;
    below = v.table.below;
    holds = Holds-congr c.container_pool contents contents' n c.lru.keys same b v.table.holds;
  };
  used = v.used;
  bounded = v.bounded;
  limit = v.limit;
  strict = v.strict;
  positive = v.positive;
}
