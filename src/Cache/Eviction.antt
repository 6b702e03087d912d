-- ===== src/Cache/Eviction.antt =====
-- The least recent entry, which goes when the index is full.
use bi_search.Base.{
  ℕ, zero, suc, ◌+◌, ◌≤◌, ◌<◌, ◌≡◌, refl, ap, ◌≢◌, none, some, [], ◌∷◌, arith, Bytes, Memory, sym,
  ne→==, length, le→ltb, lt→ltb,
}
use bi_search.Cache.Index.{Lru, Entries, lookup, pop_back, back, prune_loop, insert}
use bi_search.Cache.Slots.{Absent, Unused, Distinct, Below, KeysBelow, Holds, Table}

pub back-some : (e : ℕ × ℕ) (l : Entries) → (f : ℕ × ℕ) × (back (e ∷ l) ≡ some f)
unfolding back
back-some e [] = (e, refl)
back-some e (f ∷ l) = back-some f l

pub length-pop_back : (e : ℕ × ℕ) (l : Entries) → length (pop_back (e ∷ l)) ≡ length l
unfolding pop_back
length-pop_back e [] = refl
length-pop_back e (f ∷ l) = ap suc (length-pop_back f l)

pub length-pop_back_lem : (l : Entries) → 0 < length l → length (pop_back l) + 1 ≡ length l
length-pop_back_lem [] h = absurd (omega arith)
length-pop_back_lem (e ∷ l) h = omega (arith, length-pop_back e l)

pub prune_loop_none : (m fuel : ℕ) (l : Entries) → length l ≤ m → prune_loop m fuel l ≡ l
unfolding prune_loop
prune_loop_none m zero l h = refl
prune_loop_none m (suc fuel) l h = rw (le→ltb m (length l) h)

pub pop_back_cons :
    (x : ℕ × ℕ) (l : Entries) (e : ℕ × ℕ) → back l ≡ some e → pop_back (x ∷ l) ≡ x ∷ pop_back l
unfolding back pop_back
pop_back_cons x [] e b = absurd (ground arith)
pop_back_cons x (f ∷ l) e b = refl

-- One entry too many: one round of the loop.
pub prune_loop_one :
    (m : ℕ) (e : ℕ × ℕ) (l : Entries)
    → length l ≡ m
    → prune_loop m (suc (length l)) (e ∷ l) ≡ pop_back (e ∷ l)
unfolding prune_loop
prune_loop_one m e l h =
    rw (lt→ltb m (suc (length l)) (omega arith))
      (prune_loop_none m (length l) (pop_back (e ∷ l)) (omega (arith, length-pop_back e l)))

module _ (k : ℕ) where
  pub Absent-pop_back : (l : Entries) → Absent k l → Absent k (pop_back l)
  unfolding pop_back
  Absent-pop_back [] h = tt
  Absent-pop_back (e ∷ []) h = tt
  Absent-pop_back (e ∷ f ∷ l) h = (h.0, Absent-pop_back (f ∷ l) h.1)

  Unused-pop_back : (l : Entries) → Unused k l → Unused k (pop_back l)
  unfolding pop_back
  Unused-pop_back [] h = tt
  Unused-pop_back (e ∷ []) h = tt
  Unused-pop_back (e ∷ f ∷ l) h = (h.0, Unused-pop_back (f ∷ l) h.1)

  Below-pop_back : (l : Entries) → Below k l → Below k (pop_back l)
  unfolding pop_back
  Below-pop_back [] h = tt
  Below-pop_back (e ∷ []) h = tt
  Below-pop_back (e ∷ f ∷ l) h = (h.0, Below-pop_back (f ∷ l) h.1)

  pub KeysBelow-pop_back : (l : Entries) → KeysBelow k l → KeysBelow k (pop_back l)
  unfolding pop_back
  KeysBelow-pop_back [] h = tt
  KeysBelow-pop_back (e ∷ []) h = tt
  KeysBelow-pop_back (e ∷ f ∷ l) h = (h.0, KeysBelow-pop_back (f ∷ l) h.1)

  -- The last key is among the keys, the last slot among the slots.
  back_key-ne : (l : Entries) {e : ℕ × ℕ} → Absent k l → back l ≡ some e → e.0 ≢ k
  unfolding back
  back_key-ne [] h b = absurd (ground arith)
  back_key-ne (e ∷ []) h b = ground arith
  back_key-ne (e ∷ f ∷ l) h b = back_key-ne (f ∷ l) h.1 b

  back_slot-ne : (l : Entries) {e : ℕ × ℕ} → Unused k l → back l ≡ some e → e.1 ≢ k
  unfolding back
  back_slot-ne [] h b = absurd (ground arith)
  back_slot-ne (e ∷ []) h b = ground arith
  back_slot-ne (e ∷ f ∷ l) h b = back_slot-ne (f ∷ l) h.1 b

Distinct-pop_back : (l : Entries) → Distinct l → Distinct (pop_back l)
unfolding pop_back
Distinct-pop_back [] h = tt
Distinct-pop_back (e ∷ []) h = tt
Distinct-pop_back (e ∷ f ∷ l) h = (
  Absent-pop_back e.0 (f ∷ l) h.0,
  Unused-pop_back e.1 (f ∷ l) h.1,
  Distinct-pop_back (f ∷ l) h.2,
)

Holds-pop_back :
    (pool : ℕ → Memory) (contents : ℕ → Bytes) (l : Entries)
    → Holds pool contents l
    → Holds pool contents (pop_back l)
unfolding pop_back
Holds-pop_back pool contents [] h = tt
Holds-pop_back pool contents (e ∷ []) h = tt
Holds-pop_back pool contents (e ∷ f ∷ l) h = (h.0, Holds-pop_back pool contents (f ∷ l) h.1)

pub pop_back-Table :
    {n : ℕ} {pool : ℕ → Memory} {contents : ℕ → Bytes} (l : Entries)
    → Table n pool contents l
    → Table n pool contents (pop_back l)
pop_back-Table {n} {pool} {contents} l t = record {
  distinct = Distinct-pop_back l t.distinct;
  below = Below-pop_back n l t.below;
  holds = Holds-pop_back pool contents l t.holds;
}

-- The slot of the last entry is free once that entry is gone.
pub back-Unused : (l : Entries) (e : ℕ × ℕ) → Distinct l → back l ≡ some e → Unused e.1 (pop_back l)
unfolding back pop_back
back-Unused [] e d b = tt
back-Unused (f ∷ []) e d b = tt
back-Unused (f ∷ g ∷ l) e d b =
    (λ q. back_slot-ne f.1 (g ∷ l) d.1 b (sym q), back-Unused (g ∷ l) e d.2 b)

pub back-Absent : (l : Entries) (e : ℕ × ℕ) → Distinct l → back l ≡ some e → Absent e.0 (pop_back l)
unfolding back pop_back
back-Absent [] e d b = tt
back-Absent (f ∷ []) e d b = tt
back-Absent (f ∷ g ∷ l) e d b =
    (λ q. back_key-ne f.0 (g ∷ l) d.0 b (sym q), back-Absent (g ∷ l) e d.2 b)

-- A search for the last key finds the last slot.
pub lookup-back : (l : Entries) (e : ℕ × ℕ) → Distinct l → back l ≡ some e → lookup e.0 l ≡ some e.1
unfolding back lookup
lookup-back [] e d b = absurd (ground arith)
lookup-back (f ∷ []) e d b = ground arith
lookup-back (f ∷ g ∷ l) e d b =
    rw (ne→== f.0 e.0 (λ q. back_key-ne f.0 (g ∷ l) d.0 b (sym q))) (lookup-back (g ∷ l) e d.2 b)

-- Without the last entry, only its key is no longer found.
pub lookup-pop_back :
    (q : ℕ) (l : Entries) (e : ℕ × ℕ)
    → back l ≡ some e
    → q ≢ e.0
    → lookup q (pop_back l) ≡ lookup q l
unfolding back lookup pop_back
lookup-pop_back q [] e b h = refl
lookup-pop_back q (f ∷ []) e b h = ground arith
lookup-pop_back q (f ∷ g ∷ l) e b h = ground (arith, lookup-pop_back q (g ∷ l) e b h)

module _ (c : Lru) (k v : ℕ) (strict : c.elasticity ≡ 0) (missing : lookup k c.keys ≡ none) where
  -- A new key below the limit goes to the front.
  pub insert_below : length c.keys < c.max_size → insert c k v ≡ record c { keys = (k, v) ∷ c.keys }
  unfolding insert
  insert_below h =
      ground (arith, missing, prune_loop_none c.max_size (suc (length c.keys)) ((k, v) ∷ c.keys))

  -- At the limit the least recent entry goes.
  pub insert_at_limit :
      (e : ℕ × ℕ)
      → 0 < c.max_size
      → length c.keys ≡ c.max_size
      → back c.keys ≡ some e
      → insert c k v ≡ record c { keys = (k, v) ∷ pop_back c.keys }
  unfolding insert
  insert_at_limit e p h b =
      ground (arith, prune_loop_one c.max_size (k, v) c.keys h, pop_back_cons (k, v) c.keys e b)
