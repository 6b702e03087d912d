-- ===== src/Cache/Held.antt =====
-- The buffer that ReadFromCache hands out is a pointer into the pool. restoreFile still uses it
-- for a delta after the base chunk's container has been cached.
use bi_search.Base.{
  ℕ, suc, ◌<◌, ◌≡◌, ◌≢◌, refl, sym, ap, subst, read_at, ◌∙◌, inl, inr, true, false, none, some, [],
  ◌∷◌, arith, Bytes, Memory, length, dec_lt, ne→==, Option-cases,
}
use mathlib.Core.Option.{some-injective}
use bi_search.Cache.{ReadCache, fill_slot, insert_to_cache, exists_in_cache, read_from_cache}
use bi_search.Cache.Index
use bi_search.Cache.Index.{Entries, lookup, back, pop_back, without}
use bi_search.Cache.Slots.{
  Unused, Below, Distinct, Absent-of_lookup, Absent-without, lookup_of_Absent,
}
use bi_search.Cache.Coherent.{
  IsCoherent, read_from_cache-IsCoherent, insert_room, insert_full, full_back,
}

fill_other :
    (pool : ℕ → Memory) (slot other : ℕ) (bytes : Bytes)
    → other ≢ slot
    → fill_slot pool slot bytes other ≡ pool other
unfolding fill_slot
fill_other pool slot other bytes h = rw (ne→== other slot h) refl

last_slot_differs :
    (slot : ℕ) (l : Entries) (e : ℕ × ℕ) → Unused slot l → back l ≡ some e → slot ≢ e.1
unfolding back
last_slot_differs slot [] e u h = absurd (ground arith)
last_slot_differs slot (f ∷ []) e u h = ground arith
last_slot_differs slot (f ∷ g ∷ l) e u h = last_slot_differs slot (g ∷ l) e u.1 h

back_behind :
    (f : ℕ × ℕ) (l : Entries) (e : ℕ × ℕ) → 0 < length l → back (f ∷ l) ≡ some e → back l ≡ some e
unfolding back
back_behind f [] e h b = absurd (omega arith)
back_behind f (g ∷ l) e h b = b

not_found :
    (c : ReadCache) (name : ℕ) → lookup name c.lru.keys ≡ none → exists_in_cache c name ≡ false
unfolding exists_in_cache Index.contains
not_found c name h = ground arith

module _ (contents : ℕ → Bytes) where
  -- Inserting a container leaves the buffer of the most recent entry alone, if the cache has at
  -- least two slots.
  front_kept :
      (c : ReadCache) (name slot other : ℕ) (rest : Entries)
      → IsCoherent contents c
      → c.lru.keys ≡ (name, slot) ∷ rest
      → 1 < c.cache_size
      → exists_in_cache c other ≡ false
      → (c' : ReadCache) × (insert_to_cache c other (contents other) (length (contents other))
          ≡ some c')
        × (c'.container_pool slot ≡ c.container_pool slot)
  unfolding exists_in_cache Index.contains
  front_kept c name slot other rest v front two absent =
      elim (dec_lt c.current_index c.cache_size) [
        | yes room ↦ (
          _,
          insert_room contents c v other missing room,
          fill_other c.container_pool c.current_index slot (contents other)
              (λ q. absurd (omega (arith, below.0))),
        )
        | no full ↦
            let full' : c.current_index ≡ c.cache_size = omega (arith, v.bounded) in
            let (e, last) = full_back contents c.lru.keys (omega (arith, v.used, v.positive)) in
            (
              _,
              insert_full contents c v other missing e full' last,
              fill_other c.container_pool e.1 slot (contents other) (
                  last_slot_differs slot rest e distinct.1 (
                    back_behind (name, slot) rest e (omega (arith, used, full', v.used))
                      (subst (λ l. back l ≡ some e) front last))),
            )
      ]
    where
      missing : lookup other c.lru.keys ≡ none
      missing = ground arith

      below : Below c.current_index ((name, slot) ∷ rest)
      below = subst (Below c.current_index) front v.table.below

      distinct : Distinct ((name, slot) ∷ rest)
      distinct = subst Distinct front v.table.distinct

      used : length c.lru.keys ≡ suc (length rest)
      used = ap length front

  absent_after :
      (name slot other : ℕ) (l : Entries)
      → name ≢ other
      → lookup other l ≡ none
      → lookup other ((name, slot) ∷ without name l) ≡ none
  unfolding lookup
  absent_after name slot other l h missing =
      lookup_of_Absent other ((name, slot) ∷ without name l)
        (h, Absent-without other name l (Absent-of_lookup other l missing))

  -- In a coherent cache of at least two slots, let a cached container be read and then another one,
  -- which is not cached, be inserted. Both succeed, and the buffer that the read handed out is not
  -- written to: it still begins with its container's bytes.
  pub read_buffer_kept :
      (c : ReadCache) (name other : ℕ)
      → IsCoherent contents c
      → 1 < c.cache_size
      → name ≢ other
      → exists_in_cache c name ≡ true
      → exists_in_cache c other ≡ false
      → (slot : ℕ) × (c' : ReadCache) × (c'' : ReadCache) × (read_from_cache c name
          ≡ some (c.container_pool slot, c'))
        × (insert_to_cache c' other (contents other) (length (contents other)) ≡ some c'')
        × (c''.container_pool slot ≡ c.container_pool slot)
        × (read_at (c''.container_pool slot) 0 (length (contents name)) ≡ contents name)
  unfolding exists_in_cache Index.contains read_from_cache Index.get
  read_buffer_kept c name other v two apart cached absent =
      elim (Option-cases (lookup name c.lru.keys)) [
        | inl missing ↦ absurd (ground arith)
        | inr (slot, hit) ↦
            let keys = (name, slot) ∷ without name c.lru.keys in
            let c1 = record c { lru = record c.lru { keys = keys } } in
            let here : read_from_cache c name ≡ some (c.container_pool slot, c1) =
              rw (read_from_cache, hit) refl in
            let (m, c', run, bytes, v', _) = read_from_cache-IsCoherent contents c name v cached in
            let same : (m, c') ≡ (c.container_pool slot, c1) =
              some-injective (m, c') (c.container_pool slot, c1) (sym run ∙ here) in
            let v1 : IsCoherent contents c1 = subst (λ r. IsCoherent contents r.1) same v' in
            let bytes1 : read_at (c.container_pool slot) 0 (length (contents name))
                ≡ contents name =
              subst (λ r. read_at r.0 0 (length (contents name)) ≡ contents name) same bytes in
            let other_missing : lookup other c.lru.keys ≡ none = ground arith in
            let gone = absent_after name slot other c.lru.keys apart other_missing in
            let missed : exists_in_cache c1 other ≡ false = not_found c1 other gone in
            let (c2, inserted, kept) =
              front_kept c1 name slot other (without name c.lru.keys) v1 refl two missed in
            (slot, c1, c2, here, inserted, kept, rw kept bytes1)
      ]
