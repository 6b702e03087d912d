-- ===== src/Cdc/Params.antt =====
-- The parameter functions: what they return over their whole range, and what they make of the
-- program's sizes.
use bi_search.Base.{ℕ, ◌+◌, ◌/◌, ◌^◌, ◌≤◌, ◌<◌, ◌≡◌, arith}
use bi_search.Config.{gear}
use bi_search.Config.Gear.{gear-lt}
use bi_search.Cdc.{compare_limit, div_ceil, cal_normal_size, chunker_init, roll}

pub compare_limit_bounds :
    (x lo hi : ℕ) → lo ≤ hi → (lo ≤ compare_limit x lo hi) × (compare_limit x lo hi ≤ hi)
unfolding compare_limit
compare_limit_bounds x lo hi h = ground arith

-- The target window of normalised chunking never passes the average or the maximum size.
pub cal_normal_size_bounds :
    (mn av mx : ℕ) → (cal_normal_size mn av mx ≤ av) × (cal_normal_size mn av mx ≤ mx)
unfolding cal_normal_size
cal_normal_size_bounds mn av mx = ground arith

-- With the program's sizes the first loop's end lies below its start.
pub normal_size-le-min_size : chunker_init.normal_size ≤ chunker_init.min_size
unfolding chunker_init cal_normal_size div_ceil
normal_size-le-min_size = omega arith

-- The 32-bit addition of the rolling hash never wraps.
pub roll_exact : (fp b : ℕ) → fp < 2 ^ 32 → (roll fp b ≡ fp / 2 + gear b) × (roll fp b < 2 ^ 32)
unfolding roll
roll_exact fp b h = omega (arith, gear-lt b)
