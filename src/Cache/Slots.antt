-- ===== src/Cache/Slots.antt =====
-- The index as a table of slots: no key twice, no slot twice, each slot below a bound and holding
-- what it should.
use bi_search.Base.{
  ℕ, ◌+◌, ◌≤◌, ◌<◌, ◌≡◌, refl, ◌≢◌, none, some, [], ◌∷◌, arith, Bytes, Memory, ne→==, ==_self,
  read_at-write_at, length, read_at,
}
use bi_search.Cache.{fill_slot}
use bi_search.Cache.Index.{Entries, lookup, without}

abbrev pub Absent : ℕ → Entries → Type 0
Absent k [] = Unit {0}
Absent k ((j, v) ∷ l) = (j ≢ k) × Absent k l

abbrev pub Unused : ℕ → Entries → Type 0
Unused i [] = Unit {0}
Unused i ((j, v) ∷ l) = (v ≢ i) × Unused i l

abbrev pub Distinct : Entries → Type 0
Distinct [] = Unit {0}
Distinct ((k, i) ∷ l) = Absent k l × Unused i l × Distinct l

abbrev pub Below : ℕ → Entries → Type 0
Below n [] = Unit {0}
Below n ((k, i) ∷ l) = (i < n) × Below n l

-- The keys are container numbers below a bound.
abbrev pub KeysBelow : ℕ → Entries → Type 0
KeysBelow n [] = Unit {0}
KeysBelow n ((k, i) ∷ l) = (k < n) × KeysBelow n l

-- Each slot begins with the contents that belong to its key.
abbrev pub Holds : (ℕ → Memory) → (ℕ → Bytes) → Entries → Type 0
Holds pool contents [] = Unit {0}
Holds pool contents ((k, i) ∷ l) =
    (read_at (pool i) 0 (length (contents k)) ≡ contents k) × Holds pool contents l

-- The four together, for the entries of an index that uses slots below `n`.
pub record Table (n : ℕ) (pool : ℕ → Memory) (contents : ℕ → Bytes) (l : Entries) : Type 0 where
  pub distinct : Distinct l
  pub below : Below n l
  pub holds : Holds pool contents l

pub Absent-of_lookup : (k : ℕ) (l : Entries) → lookup k l ≡ none → Absent k l
unfolding lookup
Absent-of_lookup k [] h = tt
Absent-of_lookup k ((j, v) ∷ l) h = ground (arith, Absent-of_lookup k l)

pub lookup_of_Absent : (k : ℕ) (l : Entries) → Absent k l → lookup k l ≡ none
unfolding lookup
lookup_of_Absent k [] h = refl
lookup_of_Absent k ((j, v) ∷ l) h = ground (arith, lookup_of_Absent k l h.1)

pub Absent-without : (k j : ℕ) (l : Entries) → Absent k l → Absent k (without j l)
unfolding without
Absent-without k j [] h = tt
Absent-without k j ((i, v) ∷ l) h = ground (arith, Absent-without k j l h.1)

Unused-without : (i j : ℕ) (l : Entries) → Unused i l → Unused i (without j l)
unfolding without
Unused-without i j [] h = tt
Unused-without i j ((k, v) ∷ l) h = ground (arith, Unused-without i j l h.1)

Distinct-without : (k : ℕ) (l : Entries) → Distinct l → Distinct (without k l)
unfolding without
Distinct-without k [] h = tt
Distinct-without k ((j, v) ∷ l) h =
    ground (arith, Distinct-without k l h.2, Absent-without j k l h.0, Unused-without v k l h.1)

Below-without : (n k : ℕ) (l : Entries) → Below n l → Below n (without k l)
unfolding without
Below-without n k [] h = tt
Below-without n k ((j, v) ∷ l) h = ground (arith, Below-without n k l h.1)

Holds-without :
    (pool : ℕ → Memory) (contents : ℕ → Bytes) (k : ℕ) (l : Entries)
    → Holds pool contents l
    → Holds pool contents (without k l)
unfolding without
Holds-without pool contents k [] h = tt
Holds-without pool contents k ((j, v) ∷ l) h = ground (arith, Holds-without pool contents k l h.1)

slot_ne : (k : ℕ) (l : Entries) (i v : ℕ) → Unused v l → lookup k l ≡ some i → v ≢ i
unfolding lookup
slot_ne k [] i v u h = absurd (ground arith)
slot_ne k ((j, w) ∷ l) i v u h = ground (arith, slot_ne k l i v u.1)

-- The node that is taken out has a key and a slot that no other entry has.
removed-Distinct :
    (k : ℕ) (l : Entries) (i : ℕ)
    → Distinct l
    → lookup k l ≡ some i
    → Absent k (without k l) × Unused i (without k l)
unfolding lookup without
removed-Distinct k [] i d h = absurd (ground arith)
removed-Distinct k ((j, v) ∷ l) i d h = ground (arith, removed-Distinct k l i d.2, not_slot)
  where
    not_slot : lookup k l ≡ some i → v ≢ i
    not_slot e = slot_ne k l i v d.1 e

pub looked_up :
    (n : ℕ) (pool : ℕ → Memory) (contents : ℕ → Bytes) (k : ℕ) (l : Entries) (i : ℕ)
    → Below n l
    → Holds pool contents l
    → lookup k l ≡ some i
    → (i < n) × (read_at (pool i) 0 (length (contents k)) ≡ contents k)
unfolding lookup
looked_up n pool contents k [] i b h e = absurd (ground arith)
looked_up n pool contents k ((j, v) ∷ l) i b h e =
    ground (arith, looked_up n pool contents k l i b.1 h.1)

pub length-without :
    (k : ℕ) (l : Entries) (i : ℕ) → lookup k l ≡ some i → length (without k l) + 1 ≡ length l
unfolding lookup without
length-without k [] i h = absurd (ground arith)
length-without k ((j, v) ∷ l) i h = ground (arith, length-without k l i)

-- Moving a found entry to the front keeps the table.
pub touch-Table :
    {n : ℕ} {pool : ℕ → Memory} {contents : ℕ → Bytes} (k : ℕ) (l : Entries) (i : ℕ)
    → Table n pool contents l
    → lookup k l ≡ some i
    → Table n pool contents ((k, i) ∷ without k l)
touch-Table {n} {pool} {contents} k l i t e =
    let (absent, unused) = removed-Distinct k l i t.distinct e in
    let (low, held) = looked_up n pool contents k l i t.below t.holds e in
    record {
      distinct = (absent, unused, Distinct-without k l t.distinct);
      below = (low, Below-without n k l t.below);
      holds = (held, Holds-without pool contents k l t.holds);
    }

pub Holds-fill_slot :
    (pool : ℕ → Memory) (contents : ℕ → Bytes) (slot : ℕ) (bytes : Bytes) (l : Entries)
    → Unused slot l
    → Holds pool contents l
    → Holds (fill_slot pool slot bytes) contents l
unfolding fill_slot
Holds-fill_slot pool contents slot bytes [] u h = tt
Holds-fill_slot pool contents slot bytes ((k, i) ∷ l) u h =
    (rw (ne→== i slot u.0) h.0, Holds-fill_slot pool contents slot bytes l u.1 h.1)

pub fill_slot_self :
    (pool : ℕ → Memory) (slot : ℕ) (bytes : Bytes)
    → read_at (fill_slot pool slot bytes slot) 0 (length bytes) ≡ bytes
unfolding fill_slot
fill_slot_self pool slot bytes = rw (==_self slot) (read_at-write_at (pool slot) 0 bytes)

pub Unused-of_Below : (n i : ℕ) (l : Entries) → Below n l → n ≤ i → Unused i l
Unused-of_Below n i [] b h = tt
Unused-of_Below n i ((k, v) ∷ l) b h = (omega arith, Unused-of_Below n i l b.1 h)

pub Below-mono : (n m : ℕ) (l : Entries) → n ≤ m → Below n l → Below m l
Below-mono n m [] h b = tt
Below-mono n m ((k, v) ∷ l) h b = (omega arith, Below-mono n m l h b.1)

-- The contents of keys that are not in the index may change.
pub Holds-congr :
    (pool : ℕ → Memory) (contents contents' : ℕ → Bytes) (n : ℕ) (l : Entries)
    → ((k : ℕ) → k < n → contents k ≡ contents' k)
    → KeysBelow n l
    → Holds pool contents l
    → Holds pool contents' l
Holds-congr pool contents contents' n [] same b h = tt
Holds-congr pool contents contents' n ((k, i) ∷ l) same b h =
    (rw (← same k b.0) h.0, Holds-congr pool contents contents' n l same b.1 h.1)

pub KeysBelow-without : (n k : ℕ) (l : Entries) → KeysBelow n l → KeysBelow n (without k l)
unfolding without
KeysBelow-without n k [] h = tt
KeysBelow-without n k ((j, v) ∷ l) h = ground (arith, KeysBelow-without n k l h.1)

pub KeysBelow-mono : (n m : ℕ) (l : Entries) → n ≤ m → KeysBelow n l → KeysBelow m l
KeysBelow-mono n m [] h b = tt
KeysBelow-mono n m ((k, v) ∷ l) h b = (omega arith, KeysBelow-mono n m l h b.1)

pub key_below : (n k : ℕ) (l : Entries) (i : ℕ) → KeysBelow n l → lookup k l ≡ some i → k < n
unfolding lookup
key_below n k [] i b e = absurd (ground arith)
key_below n k ((j, v) ∷ l) i b e = ground (arith, key_below n k l i b.1)
