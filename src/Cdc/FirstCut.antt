-- ===== src/Cdc/FirstCut.antt =====
-- Which cut CutPointFastCDC takes, with the program's sizes.
use bi_search.Base.{
  ℕ, suc, ◌+◌, ◌-◌, ◌≤◌, ◌<◌, min, max, bit_and, ◌≡◌, refl, sym, ◌∙◌, ◌≢◌, ◌⊎◌, inl, inr, arith,
  Bytes,
}
use bi_search.Cdc.{Limits, Scan, scan, cut_long, cut_point_fast_cdc, chunker_init}
use bi_search.Cdc.Params.{normal_size-le-min_size}
use bi_search.Cdc.Scanning.{rolled, Scanned, at, through, scan-Scanned}

-- A first loop that ends before it starts leaves the cut to the second.
pub skip_first_loop :
    (p : Limits) (src : Bytes) (len : ℕ)
    → p.normal_size ≤ p.min_size
    → cut_point_fast_cdc p src len ≡ cut_long p src len (min len p.min_size) 0
unfolding cut_point_fast_cdc scan
skip_first_loop p src len h =
    let none_left : min p.normal_size len - min len p.min_size ≡ 0 = omega arith in
    let stay : max (min len p.min_size) (min p.normal_size len) ≡ min len p.min_size =
      omega arith in
    rw (cut_point_fast_cdc, none_left, scan, stay)

-- The strict mask has no effect: whatever its value, the program's sizes make the first loop
-- empty, and every cut is the same.
pub strict_mask_unused :
    (mask : ℕ) (src : Bytes) (len : ℕ)
    → cut_point_fast_cdc (record chunker_init { mask_s = mask }) src len
      ≡ cut_point_fast_cdc chunker_init src len
unfolding cut_long
strict_mask_unused mask src len =
    skip_first_loop (record chunker_init { mask_s = mask }) src len normal_size-le-min_size
    ∙ sym (skip_first_loop chunker_init src len normal_size-le-min_size)

-- `c` is the first index past the minimum size after which the fingerprint meets the mask, or
-- the end of the range.
pub record IsFirstCut (p : Limits) (src : Bytes) (len c : ℕ) : Type 0 where
  pub before :
      (j : ℕ)
      → min len p.min_size + suc j < c
      → bit_and (rolled src (suc j) (min len p.min_size) 0) p.mask_l ≢ 0
  pub last :
      (c ≡ min p.max_size len)
      ⊎ ((d : ℕ) × (c ≡ min len p.min_size + suc d)
          × (bit_and (rolled src (suc d) (min len p.min_size) 0) p.mask_l ≡ 0))

cut_long-IsFirstCut :
    (p : Limits) (src : Bytes) (len : ℕ) (r : Scan)
    → p.min_size ≤ p.max_size
    → scan p.mask_l src (min p.max_size len - min len p.min_size) (min len p.min_size) 0 ≡ r
    → Scanned p.mask_l src (min p.max_size len - min len p.min_size) (min len p.min_size) 0 r
    → IsFirstCut p src len (cut_long p src len (min len p.min_size) 0)
unfolding cut_long
cut_long-IsFirstCut p src len r h e (at d lt hit earlier {c} q) =
    rw (cut_long, e) (record { before = λ j b. earlier j (omega arith); last = inr (d, q, hit) })
cut_long-IsFirstCut p src len r h e (through none_before) =
    rw (cut_long, e)
      (record { before = λ j b. none_before j (omega arith); last = inl (omega arith) })

pub sizes_in_order : chunker_init.min_size ≤ chunker_init.max_size
unfolding chunker_init
sizes_in_order = omega arith

-- Each cut is the first index after the minimum chunk size at which the gear fingerprint of the
-- bytes read from there meets the mask, or, if there is none, the maximum size or the end of the
-- buffer, whichever comes first.
pub fast_cdc-IsFirstCut :
    (src : Bytes) (len : ℕ)
    → IsFirstCut chunker_init src len (cut_point_fast_cdc chunker_init src len)
fast_cdc-IsFirstCut src len =
    rw (skip_first_loop chunker_init src len normal_size-le-min_size)
      (cut_long-IsFirstCut chunker_init src len _ sizes_in_order refl (scan-Scanned _ src _ _ 0))
