-- ===== src/Base/Buffers.antt =====
-- Bytes and memory. A buffer that the code reads and writes at offsets is a function of the
-- address; a run of bytes is a list.
use Prim.Native.Nat.{ℕ, zero, suc, ◌+◌, ◌-◌, ◌≤◌, ◌<◌}
use mathlib.Core.Bool.{◌&&◌}
use mathlib.Core.List.{List, [], ◌∷◌}
use mathlib.Core.Path.{◌≡◌, refl, ap, ap₂, ◌∙◌}
use native.Mathlib.Omega.{arith}
use bi_search.Base.Tests.{ltb, leb, if◌then◌else◌, le→leb, lt→ltb}
use bi_search.Base.Lists.{length, get_or, take}

abbrev pub Bytes : Type 0
Bytes = List ℕ

abbrev pub Memory : Type 0
Memory = ℕ → ℕ

-- memcpy(dst, src, n) as a list: the first n bytes of the source. Bytes past its end read 0.
unfoldable pub copy : ℕ → Bytes → Bytes
copy zero xs = []
copy (suc n) [] = 0 ∷ copy n []
copy (suc n) (x ∷ xs) = x ∷ copy n xs

-- memcpy into a buffer at an offset.
unfoldable pub write_at : Memory → ℕ → Bytes → Memory
write_at d off bs i = if leb off i && ltb i (off + length bs) then get_or bs (i - off) 0 else d i

-- memcpy out of a buffer at an offset.
unfoldable pub read_at : Memory → ℕ → ℕ → Bytes
read_at d off zero = []
read_at d off (suc n) = d off ∷ read_at d (off + 1) n

pub length-copy : (n : ℕ) (xs : Bytes) → length (copy n xs) ≡ n
unfolding copy
length-copy zero xs = refl
length-copy (suc n) [] = ap suc (length-copy n [])
length-copy (suc n) (x ∷ xs) = ap suc (length-copy n xs)

pub copy_all : (xs : Bytes) → copy (length xs) xs ≡ xs
unfolding copy
copy_all [] = refl
copy_all (x ∷ xs) = ap (◌∷◌ x) (copy_all xs)

pub length-read_at : (d : Memory) (off n : ℕ) → length (read_at d off n) ≡ n
unfolding read_at
length-read_at d off zero = refl
length-read_at d off (suc n) = ap suc (length-read_at d (off + 1) n)

-- Two memories that agree on a range read alike there.
pub read_at_congr :
    (d e : Memory) (off n : ℕ)
    → ((i : ℕ) → off ≤ i → i < off + n → d i ≡ e i)
    → read_at d off n ≡ read_at e off n
unfolding read_at
read_at_congr d e off zero h = refl
read_at_congr d e off (suc n) h =
    ap₂ ◌∷◌ (h off (omega arith) (omega arith))
      (read_at_congr d e (off + 1) n (λ i a b. h i (omega arith) (omega arith)))

pub write_at_outside :
    (d : Memory) (off : ℕ) (bs : Bytes) (i : ℕ) → (i < off) → write_at d off bs i ≡ d i
unfolding write_at
write_at_outside d off bs i h = ground arith

-- A write past a range leaves what is read there.
pub read_at-write_at_below :
    (d : Memory) (off : ℕ) (bs : Bytes) (p n : ℕ)
    → p + n ≤ off
    → read_at (write_at d off bs) p n ≡ read_at d p n
read_at-write_at_below d off bs p n h =
    read_at_congr _ _ p n (λ i a b. write_at_outside d off bs i (omega arith))

get_or-suc_sub :
    (x : ℕ) (bs : Bytes) (off i : ℕ)
    → off + 1 ≤ i
    → get_or (x ∷ bs) (i - off) 0 ≡ get_or bs (i - (off + 1)) 0
get_or-suc_sub x bs off i h =
    let e : i - off ≡ suc (i - (off + 1)) = omega arith in ap (λ k. get_or (x ∷ bs) k 0) e

write_at_head : (d : Memory) (off x : ℕ) (bs : Bytes) → write_at d off (x ∷ bs) off ≡ x
unfolding write_at
write_at_head d off x bs =
    let e : off - off ≡ 0 = omega arith in
    rw (le→leb off off (omega arith), lt→ltb off (off + suc (length bs)) (omega arith), e)

write_at_tail :
    (d : Memory) (off x : ℕ) (bs : Bytes) (i : ℕ)
    → off + 1 ≤ i
    → i < off + 1 + length bs
    → write_at d off (x ∷ bs) i ≡ write_at d (off + 1) bs i
unfolding write_at
write_at_tail d off x bs i lo hi =
    rw
      (
        le→leb off i (omega arith),
        le→leb (off + 1) i lo,
        lt→ltb i (off + suc (length bs)) (omega arith),
        lt→ltb i (off + 1 + length bs) hi,
      )
      (get_or-suc_sub x bs off i lo)

-- What a write put is what a read at its place gives.
pub read_at-write_at :
    (d : Memory) (off : ℕ) (bs : Bytes) → read_at (write_at d off bs) off (length bs) ≡ bs
unfolding read_at
read_at-write_at d off [] = refl
read_at-write_at d off (x ∷ bs) = ap₂ ◌∷◌ (write_at_head d off x bs) (
    read_at_congr _ _ (off + 1) (length bs) (write_at_tail d off x bs)
    ∙ read_at-write_at d (off + 1) bs)

pub copy-take : (c n : ℕ) (xs : Bytes) → c ≤ n → c ≤ length xs → copy c (take n xs) ≡ take c xs
unfolding copy
copy-take zero n xs h k = refl
copy-take (suc c) n [] h k = absurd (omega arith)
copy-take (suc c) zero (x ∷ xs) h k = absurd (omega arith)
copy-take (suc c) (suc n) (x ∷ xs) h k = ap (◌∷◌ x) (copy-take c n xs (omega arith) (omega arith))

pub copy-prefix : (c : ℕ) (xs : Bytes) → c ≤ length xs → copy c xs ≡ take c xs
unfolding copy
copy-prefix zero xs h = refl
copy-prefix (suc c) [] h = absurd (omega arith)
copy-prefix (suc c) (x ∷ xs) h = ap (◌∷◌ x) (copy-prefix c xs (omega arith))
