-- ===== src/Tar/Tests.antt =====
-- Runs on headers.
use bi_search.Base.{ℕ, zero, suc, ◌≡◌, refl, [], ◌∷◌, ◌++◌, arith, Bytes}
use bi_search.Tar.{header_octal}
use bi_search.Tar.Octal.{octal_digits, header_octal-octal_digits}

abbrev blanks : ℕ → Bytes
blanks zero = []
blanks (suc n) = 32 ∷ blanks n

header_octal-octal_digits_example :
    header_octal (blanks 124 ++ (octal_digits 11 1000000 ++ (0 ∷ blanks 376))) ≡ 1000000
header_octal-octal_digits_example =
    header_octal-octal_digits (blanks 124) (0 ∷ blanks 376) 1000000 refl (omega arith)
