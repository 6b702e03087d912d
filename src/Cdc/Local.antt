-- ===== src/Cdc/Local.antt =====
-- A cut depends on the bytes of the chunk's range only: content decides it.
use bi_search.Base.{ℕ, zero, suc, ◌+◌, ◌-◌, ◌≤◌, ◌<◌, min, ◌≡◌, refl, arith, Bytes, get_or}
use bi_search.Cdc.{Limits, scan, roll, cut_long, cut_point_fast_cdc, chunker_init}
use bi_search.Cdc.Params.{normal_size-le-min_size}
use bi_search.Cdc.FirstCut.{skip_first_loop, sizes_in_order}

scan_congr :
    (mask : ℕ) (src src' : Bytes) (k i fp : ℕ)
    → ((j : ℕ) → i ≤ j → j < i + k → get_or src j 0 ≡ get_or src' j 0)
    → scan mask src k i fp ≡ scan mask src' k i fp
unfolding scan
scan_congr mask src src' zero i fp h = refl
scan_congr mask src src' (suc k) i fp h =
    let rest =
      scan_congr mask src src' k (i + 1) (roll fp (get_or src' i 0))
        (λ j a b. h j (omega arith) (omega arith)) in
    let here = h i (omega arith) (omega arith) in rw (here, rest)

cut_long_congr :
    (p : Limits) (src src' : Bytes) (len len' i fp : ℕ)
    → p.max_size ≤ len
    → p.max_size ≤ len'
    → i ≤ p.max_size
    → ((j : ℕ) → j < p.max_size → get_or src j 0 ≡ get_or src' j 0)
    → cut_long p src len i fp ≡ cut_long p src' len' i fp
unfolding cut_long
cut_long_congr p src src' len len' i fp h h' b same =
    let full : min p.max_size len ≡ p.max_size = omega arith in
    let full' : min p.max_size len' ≡ p.max_size = omega arith in
    let alike =
      scan_congr p.mask_l src src' (p.max_size - i) i fp (λ j lo hi. same j (omega arith)) in
    ground arith

-- Two buffers that agree on the first `max_size` bytes, both at least that long, are cut alike.
pub fast_cdc_local :
    (src src' : Bytes) (len len' : ℕ)
    → chunker_init.max_size ≤ len
    → chunker_init.max_size ≤ len'
    → ((j : ℕ) → j < chunker_init.max_size → get_or src j 0 ≡ get_or src' j 0)
    → cut_point_fast_cdc chunker_init src len ≡ cut_point_fast_cdc chunker_init src' len'
fast_cdc_local src src' len len' h h' same =
    rw (skip_first_loop, normal_size-le-min_size, skip_first_loop, min_eq len h, min_eq len' h')
      (cut_long_congr chunker_init src src' len len' chunker_init.min_size 0 h h' sizes_in_order
        same)
  where
    min_eq :
        (n : ℕ) → chunker_init.max_size ≤ n → min n chunker_init.min_size ≡ chunker_init.min_size
    min_eq n k = omega (arith, sizes_in_order)
