-- ===== src/Chunking/Windows.antt =====
-- Chunking with FastCDC and Gear cuts: the whole file comes out, and for FastCDC the windows
-- leave no trace in the boundaries.
use bi_search.Base.{
  ℕ, zero, suc, ◌^◌, ◌≤◌, ◌<◌, ◌≡◌, refl, sym, ◌∙◌, ◌⊎◌, inl, inr, arith, List, [], ◌∷◌, append-nil,
  Bytes, length, take, take_all, length-take, get_or,
}
use bi_search.Cdc.{chunker_init, cal_normal_size, div_ceil}
use bi_search.Cdc.Bounds.{fast_cdc_bounds, gear_bounds}
use bi_search.Cdc.Local.{fast_cdc_local}
use bi_search.Chunking.{
  finished, chunking, cut_point, fastcdc, gearcdc, window_size, cut_quota, buffer_size,
}
use bi_search.Chunking.Splits.{Splits, none_left, piece, concat, concat-Splits}
use bi_search.Chunking.Complete.{chunking_lem}

-- Every piece has at most `n` bytes.
abbrev pub AllWithin : ℕ → List Bytes → Type 0
AllWithin n [] = Unit {0}
AllWithin n (c ∷ cs) = (length c ≤ n) × AllWithin n cs

-- The pieces are the cuts that FastCDC makes in the unread whole: each at the cut point of all
-- that is left of the file.
abbrev pub WholeFileCut : Bytes → ℕ → Type 0
WholeFileCut r c = c ≡ cut_point fastcdc r (length r)

abbrev AnyCut : Bytes → ℕ → Type 0
AnyCut r c = Unit {0}

limits_in_order :
    (4096 ≡ chunker_init.min_size)
    × (chunker_init.max_size ≡ 16384)
    × (chunker_init.normal_size ≤ chunker_init.max_size)
unfolding chunker_init cal_normal_size div_ceil
limits_in_order = omega arith

pub get_or-take : (n : ℕ) (r : Bytes) (j : ℕ) → j < n → get_or (take n r) j 0 ≡ get_or r j 0
get_or-take zero r j h = absurd (omega arith)
get_or-take (suc n) [] j h = refl
get_or-take (suc n) (x ∷ r) zero h = refl
get_or-take (suc n) (x ∷ r) (suc j) h = get_or-take n r j (omega arith)

pub fastcdc_range :
    (src : Bytes) (len : ℕ)
    → 0 < len
    → (0 < cut_point fastcdc src len)
      × (cut_point fastcdc src len ≤ len)
      × (cut_point fastcdc src len ≤ 16384)
unfolding cut_point
fastcdc_range src len h = omega (
  arith,
  fast_cdc_bounds chunker_init src len (omega (arith, limits_in_order)) limits_in_order.2,
  limits_in_order,
)

local_cut :
    (r : Bytes) (n : ℕ)
    → 16384 ≤ n
    → n ≤ length r
    → cut_point fastcdc (take n r) n ≡ cut_point fastcdc r (length r)
unfolding cut_point
local_cut r n h k =
    fast_cdc_local (take n r) r n (length r) (omega (arith, limits_in_order))
      (omega (arith, limits_in_order)) (λ j b. get_or-take n r j (omega (arith, limits_in_order)))

fastcdc_rule :
    (quota cap : ℕ)
    → 16384 ≤ quota
    → (r : Bytes) (n : ℕ) → 0 < n
    → n ≤ length r
    → n ≤ cap
    → (n ≡ length r) ⊎ (quota ≤ n)
    → WholeFileCut r (cut_point fastcdc (take n r) n)
      × (0 < cut_point fastcdc (take n r) n)
      × (cut_point fastcdc (take n r) n ≤ n)
fastcdc_rule quota cap q r n p h _ (inl e) =
    let (pos, within, small) = fastcdc_range (take n r) n p in
    let whole : take n r ≡ r = take_all n r (omega arith) in
    let same : cut_point fastcdc (take n r) n ≡ cut_point fastcdc r (length r) =
      cong_cut (take n r) r n (length r) whole e in
    (same, pos, within)
  where
    cong_cut :
        (r r' : Bytes) (n n' : ℕ)
        → r ≡ r'
        → n ≡ n'
        → cut_point fastcdc r n ≡ cut_point fastcdc r' n'
    cong_cut r r' n n' p q = cc
fastcdc_rule quota cap q r n p h _ (inr e) =
    let (pos, within, small) = fastcdc_range (take n r) n p in
    (local_cut r n (omega arith) h, pos, within)

AllWithin-pieces :
    {r r' : Bytes} {cs : List Bytes} → Splits WholeFileCut r cs r' → AllWithin 16384 cs
AllWithin-pieces none_left = tt
AllWithin-pieces {r} (piece c p q a s) = (
  omega (arith, length-take c r, a, fastcdc_range r (length r) (omega arith)),
  AllWithin-pieces s,
)

concat-all :
    {Allowed : Bytes → ℕ → Type 0} {r : Bytes} {cs : List Bytes}
    → Splits Allowed r cs []
    → concat cs ≡ r
concat-all {cs = cs} s = sym (append-nil (concat cs)) ∙ concat-Splits s

-- FastCDC chunking of any file, for any MULTI_HEADER_CHUNK from 1 to 16, ends with the reader at
-- the end of the file. The chunks pushed, one after the other, are the file; none is longer than
-- 16384 bytes; and each is cut where FastCDC would cut all of the file that is left, so the windows
-- that the file was read in do not show.
pub chunking-fastcdc :
    (multi_header_chunk : ℕ) (file : Bytes) (fuel inner_fuel : ℕ)
    → 0 < multi_header_chunk
    → multi_header_chunk ≤ 16
    → length file < fuel
    → window_size multi_header_chunk < inner_fuel
    → (cs : List Bytes) × (chunking
          (cut_point fastcdc)
          (cut_quota multi_header_chunk)
          (window_size multi_header_chunk)
          buffer_size
          inner_fuel
          fuel
          file
          0
        ≡ finished cs (length file))
      × (concat cs ≡ file)
      × AllWithin 16384 cs
      × Splits WholeFileCut file cs []
chunking-fastcdc m file fuel inner_fuel p q f g =
    let (cs, e, s) =
      chunking_lem (cut_point fastcdc) (cut_quota m) (window_size m) buffer_size WholeFileCut
        (omega arith) (omega arith) (omega arith) (omega arith)
        (fastcdc_rule (cut_quota m) (window_size m) (omega arith)) file fuel inner_fuel f g in
    (cs, e, concat-all s, AllWithin-pieces s, s)

gear_rule :
    (quota cap : ℕ)
    → cap < 2 ^ 32
    → (r : Bytes) (n : ℕ) → 0 < n
    → n ≤ length r
    → n ≤ cap
    → (n ≡ length r) ⊎ (quota ≤ n)
    → AnyCut r (cut_point gearcdc (take n r) n)
      × (0 < cut_point gearcdc (take n r) n)
      × (cut_point gearcdc (take n r) n ≤ n)
unfolding cut_point
gear_rule quota cap word r n p h k sight =
    let (pos, within) = gear_bounds (take n r) n p (omega arith) in (tt, pos, within)

-- Gear chunking of any file, for any MULTI_HEADER_CHUNK from 1 to 16, ends with the reader at the
-- end of the file, and the chunks pushed, one after the other, are the file.
pub chunking-gearcdc :
    (multi_header_chunk : ℕ) (file : Bytes) (fuel inner_fuel : ℕ)
    → 0 < multi_header_chunk
    → multi_header_chunk ≤ 16
    → length file < fuel
    → window_size multi_header_chunk < inner_fuel
    → (cs : List Bytes) × (chunking
          (cut_point gearcdc)
          (cut_quota multi_header_chunk)
          (window_size multi_header_chunk)
          buffer_size
          inner_fuel
          fuel
          file
          0
        ≡ finished cs (length file))
      × (concat cs ≡ file)
chunking-gearcdc m file fuel inner_fuel p q f g =
    let (cs, e, s) =
      chunking_lem (cut_point gearcdc) (cut_quota m) (window_size m) buffer_size AnyCut
        (omega arith) (omega arith) (omega arith) (omega arith)
        (gear_rule (cut_quota m) (window_size m) (omega arith)) file fuel inner_fuel f g in
    (cs, e, concat-all s)
