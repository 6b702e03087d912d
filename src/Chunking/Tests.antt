-- ===== src/Chunking/Tests.antt =====
-- Chunking small files, and the properties of chunking at them.
use bi_search.Base.{
  ℕ, zero, suc, ◌+◌, ◌^◌, ◌%◌, ◌≡◌, refl, List, [], ◌∷◌, arith, Bytes, length, copy,
}
use bi_search.Chunking.{
  chunking, cut_window, cut_point, fixed_size, fastcdc, gearcdc, window_size, cut_quota,
  buffer_size, finished, overrun,
}
use bi_search.Chunking.Splits.{Splits, concat}
use bi_search.Chunking.Windows.{AllWithin, WholeFileCut, chunking-fastcdc, chunking-gearcdc}
use bi_search.Chunking.FixedSize.{chunking-fixed_size}

abbrev letters : ℕ → Bytes
letters zero = []
letters (suc n) = (97 + n % 26) ∷ letters n

length-letters : (n : ℕ) → length (letters n) ≡ n
length-letters zero = refl
length-letters (suc n) = omega (arith, length-letters n)

abbrev text_file : Bytes
text_file = letters 20000

-- Three bytes to each window, two of which must be at hand.
small_windows :
    chunking (λ src len. 2) 2 3 3 10 10 (1 ∷ 2 ∷ 3 ∷ 4 ∷ 5 ∷ 6 ∷ []) 0
    ≡ finished ((1 ∷ 2 ∷ []) ∷ (3 ∷ 4 ∷ []) ∷ (5 ∷ 6 ∷ []) ∷ []) 6
unfolding chunking cut_window copy
small_windows = refl

chunking-fastcdc_example :
    (cs : List Bytes) × (chunking
        (cut_point fastcdc)
        (cut_quota 16)
        (window_size 16)
        buffer_size
        (2 ^ 30)
        20001
        text_file
        0
      ≡ finished cs (length text_file))
    × (concat cs ≡ text_file)
    × AllWithin 16384 cs
    × Splits WholeFileCut text_file cs []
chunking-fastcdc_example =
    chunking-fastcdc 16 text_file 20001 (2 ^ 30) (omega arith) (omega arith)
      (omega (arith, length-letters 20000)) (omega arith)

chunking-gearcdc_example :
    (cs : List Bytes) × (chunking
        (cut_point gearcdc)
        (cut_quota 16)
        (window_size 16)
        buffer_size
        (2 ^ 30)
        20001
        text_file
        0
      ≡ finished cs (length text_file))
    × (concat cs ≡ text_file)
chunking-gearcdc_example =
    chunking-gearcdc 16 text_file 20001 (2 ^ 30) (omega arith) (omega arith)
      (omega (arith, length-letters 20000)) (omega arith)

chunking-fixed_size_example :
    chunking
      (cut_point fixed_size)
      (cut_quota 16)
      (window_size 16)
      buffer_size
      (2 ^ 30)
      1
      text_file
      0
    ≡ overrun
chunking-fixed_size_example =
    chunking-fixed_size 16 text_file 0 (2 ^ 30) (omega arith) (omega (arith, length-letters 20000))
      (omega (arith, length-letters 20000)) (omega arith)
