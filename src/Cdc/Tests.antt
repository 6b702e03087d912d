-- ===== src/Cdc/Tests.antt =====
-- Runs of the parameter and cut-point functions on small inputs, and the properties at them.
use bi_search.Base.{
  ℕ, zero, suc, ◌+◌, ◌/◌, ◌≤◌, ◌<◌, ◌%◌, ◌^◌, min, ◌≡◌, refl, [], ◌∷◌, arith, Bytes,
}
use bi_search.Config.Gear.{gear}
use bi_search.Cdc.{
  Limits, compare_limit, div_ceil, cal_normal_size, generate_fast_cdc_mask, chunker_init, roll,
  scan, cut_long, cut_point_fast_cdc, cut_point_gear,
}
use bi_search.Cdc.Params.{compare_limit_bounds, cal_normal_size_bounds, roll_exact}
use bi_search.Cdc.Bounds.{fast_cdc_bounds, gear_bounds}
use bi_search.Cdc.FirstCut.{IsFirstCut, fast_cdc-IsFirstCut, strict_mask_unused}
use bi_search.Cdc.Local.{fast_cdc_local}

chunker_init_values : chunker_init ≡ record {
  min_size = 4096;
  normal_size = 2048;
  max_size = 16384;
  mask_s = 16383;
  mask_l = 4095;
}
unfolding chunker_init cal_normal_size div_ceil generate_fast_cdc_mask compare_limit
chunker_init_values = refl

abbrev pub tiny : Limits
tiny = record { min_size = 2; normal_size = 4; max_size = 8; mask_s = 15; mask_l = 1 }

abbrev pub sample : Bytes
sample = 1 ∷ 7 ∷ 0 ∷ 200 ∷ 9 ∷ 9 ∷ 30 ∷ 4 ∷ 5 ∷ 6 ∷ []

tiny_cut : cut_point_fast_cdc tiny sample 10 ≡ 5
unfolding cut_point_fast_cdc cut_long scan roll gear
tiny_cut = refl

gear_cut : cut_point_gear sample 10 ≡ 10
unfolding cut_point_gear scan roll gear
gear_cut = refl

-- Bytes that climb and start again, as many as asked for.
abbrev pub ramp : ℕ → Bytes
ramp zero = []
ramp (suc n) = n % 251 ∷ ramp n

abbrev blocks : Bytes
blocks = ramp 20000

fast_cdc_local_example :
    cut_point_fast_cdc chunker_init blocks 16384 ≡ cut_point_fast_cdc chunker_init blocks 20000
fast_cdc_local_example =
    fast_cdc_local blocks blocks 16384 20000 (unfold chunker_init in omega arith)
      (unfold chunker_init in omega arith) (λ j h. refl)

strict_mask_unused_example :
    cut_point_fast_cdc (record chunker_init { mask_s = 0 }) blocks 20000
    ≡ cut_point_fast_cdc chunker_init blocks 20000
strict_mask_unused_example = strict_mask_unused 0 blocks 20000

fast_cdc-IsFirstCut_example :
    IsFirstCut chunker_init blocks 20000 (cut_point_fast_cdc chunker_init blocks 20000)
fast_cdc-IsFirstCut_example = fast_cdc-IsFirstCut blocks 20000

fast_cdc_bounds_example :
    (min 10 2 ≤ cut_point_fast_cdc tiny sample 10) × (cut_point_fast_cdc tiny sample 10 ≤ min 10 8)
fast_cdc_bounds_example = fast_cdc_bounds tiny sample 10 (omega arith) (omega arith)

gear_bounds_example : (0 < cut_point_gear sample 10) × (cut_point_gear sample 10 ≤ 10)
gear_bounds_example = gear_bounds sample 10 (omega arith) (omega arith)

roll_exact_example : (roll 4294967295 7 ≡ 4294967295 / 2 + gear 7) × (roll 4294967295 7 < 2 ^ 32)
roll_exact_example = roll_exact 4294967295 7 (omega arith)

compare_limit_bounds_example : (1 ≤ compare_limit 40 1 31) × (compare_limit 40 1 31 ≤ 31)
compare_limit_bounds_example = compare_limit_bounds 40 1 31 (omega arith)

cal_normal_size_bounds_example :
    (cal_normal_size 4096 8192 16384 ≤ 8192) × (cal_normal_size 4096 8192 16384 ≤ 16384)
cal_normal_size_bounds_example = cal_normal_size_bounds 4096 8192 16384
