-- ===== src/Cdc.antt =====
-- src/chunking/chunker.cc: the parameters and the two cut-point functions of content-defined
-- chunking (CompareLimit, DivCeil, CalNormalSize, GenerateFastCDCMask, ChunkerInit,
-- CutPointFastCDC, CutPointGear). `src` is the buffer from the chunk's first byte on, and a read
-- past the list gives 0, as in the zeroed read buffer. The fingerprint is a 32-bit word.
pub mod Params
pub mod Scanning
pub mod Bounds
pub mod FirstCut
pub mod Local
mod Tests
use bi_search.Base.{
  ℕ, zero, suc, ◌+◌, ◌-◌, ◌/◌, ◌%◌, ◌^◌, min, max, bit_and, Bytes, if◌then◌else◌, ltb, leb, ◌==◌,
  get_or,
}
use bi_search.Config.{gear, fixed_min, fixed_avg, fixed_max, mask_gear}

abbrev pub u32 : ℕ → ℕ
u32 n = n % 2 ^ 32

unfoldable pub compare_limit : ℕ → ℕ → ℕ → ℕ
compare_limit input lower upper =
    if leb input lower then lower else if leb upper input then upper else input

unfoldable pub div_ceil : ℕ → ℕ → ℕ
div_ceil a b = let tmp = a / b in if a % b == 0 then tmp else u32 (tmp + 1)

unfoldable pub cal_normal_size : ℕ → ℕ → ℕ → ℕ
unfolding div_ceil
cal_normal_size mn av mx =
    let off = u32 (mn + div_ceil mn 2) in
    let diff = av - (if ltb av off then av else off) in if ltb mx diff then mx else diff

unfoldable pub generate_fast_cdc_mask : ℕ → ℕ
unfolding compare_limit
generate_fast_cdc_mask bits = 2 ^ compare_limit bits 1 31 - 1

-- The members that CutPointFastCDC reads.
pub record Limits : Type 0 where
  pub min_size : ℕ
  pub normal_size : ℕ
  pub max_size : ℕ
  pub mask_s : ℕ
  pub mask_l : ℕ

-- round(log2(avgChunkSize)) for the only average size, 8192.
abbrev pub bits : ℕ
bits = 13

-- What ChunkerInit sets.
unfoldable pub chunker_init : Limits
unfolding cal_normal_size generate_fast_cdc_mask
chunker_init = record {
  min_size = fixed_min;
  normal_size = cal_normal_size fixed_min fixed_avg fixed_max;
  max_size = fixed_max;
  mask_s = generate_fast_cdc_mask (bits + 1);
  mask_l = generate_fast_cdc_mask (bits - 1);
}

-- fp = (fp >> 1) + GEAR[b], on 32 bits.
unfoldable pub roll : ℕ → ℕ → ℕ
roll fp b = u32 (fp / 2 + gear b)

-- How one `for` loop ends: by `return i + 1`, or with its fingerprint when the range is through.
pub data Scan : Type 0 where
  cut : ℕ → Scan
  passed : ℕ → Scan

-- for (; i < i + rounds; i++) { fp = roll; if (!(fp & mask)) return i + 1; }
unfoldable pub scan : ℕ → Bytes → ℕ → ℕ → ℕ → Scan
scan mask src zero i fp = passed fp
scan mask src (suc rounds) i fp =
    let fp' = roll fp (get_or src i 0) in
    let rest = scan mask src rounds (i + 1) fp' in
    if bit_and fp' mask == 0 then cut (i + 1) else rest

-- The second loop, with the looser mask.
unfoldable pub cut_long : Limits → Bytes → ℕ → ℕ → ℕ → ℕ
cut_long p src len i fp =
    let n = min p.max_size len in
    elim (scan p.mask_l src (n - i) i fp) [ cut c ↦ c | passed _ ↦ max i n ]

unfoldable pub cut_point_fast_cdc : Limits → Bytes → ℕ → ℕ
unfolding cut_long
cut_point_fast_cdc p src len =
    let i = min len p.min_size in
    let n = min p.normal_size len in
    elim (scan p.mask_s src (n - i) i 0) [ cut c ↦ c | passed fp ↦ cut_long p src len (max i n) fp ]

-- The result is a uint32_t.
unfoldable pub cut_point_gear : Bytes → ℕ → ℕ
cut_point_gear src len = elim (scan mask_gear src len 0 0) [ cut c ↦ u32 c | passed _ ↦ u32 len ]
