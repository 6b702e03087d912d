-- ===== src/Cdc/Bounds.antt =====
-- Where the cut points lie.
use bi_search.Base.{ℕ, ◌-◌, ◌≤◌, ◌<◌, ◌^◌, min, max, arith, Bytes}
use bi_search.Config.{mask_gear}
use bi_search.Cdc.{Limits, cut_long, cut_point_fast_cdc, cut_point_gear}
use bi_search.Cdc.Scanning.{scan_cases, rolled}

cut_long_bounds :
    (p : Limits) (src : Bytes) (len i fp : ℕ)
    → (i ≤ cut_long p src len i fp) × (cut_long p src len i fp ≤ max i (min p.max_size len))
unfolding cut_long
cut_long_bounds p src len i fp =
    ground (arith, scan_cases p.mask_l src (min p.max_size len - i) i fp)

-- Each cut of any well-ordered limits lies between the minimum and the maximum size, as far as
-- there are bytes.
pub fast_cdc_bounds :
    (p : Limits) (src : Bytes) (len : ℕ)
    → p.min_size ≤ p.max_size
    → p.normal_size ≤ p.max_size
    → (min len p.min_size ≤ cut_point_fast_cdc p src len)
      × (cut_point_fast_cdc p src len ≤ min len p.max_size)
unfolding cut_point_fast_cdc
fast_cdc_bounds p src len h k = ground (
  arith,
  scan_cases p.mask_s src (min p.normal_size len - i) i 0,
  cut_long_bounds p src len (max i (min p.normal_size len))
      (rolled src (min p.normal_size len - i) i 0),
)
  where
    i : ℕ
    i = min len p.min_size

-- The cut point of Gear chunking lies in the buffer, and not at its start, for every buffer
-- shorter than 2 ^ 32.
pub gear_bounds :
    (src : Bytes) (len : ℕ)
    → 0 < len
    → len < 2 ^ 32
    → (0 < cut_point_gear src len) × (cut_point_gear src len ≤ len)
unfolding cut_point_gear
gear_bounds src len h k = ground (arith, scan_cases mask_gear src len 0 0)
