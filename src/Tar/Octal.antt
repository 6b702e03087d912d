-- ===== src/Tar/Octal.antt =====
-- The size field of a header holds an octal number.
use bi_search.Base.{
  ℕ, zero, suc, ◌+◌, ◌-◌, ◌*◌, ◌/◌, ◌%◌, ◌^◌, ◌<◌, ◌≡◌, refl, sym, ap, ◌∙◌, [], ◌∷◌, ◌++◌, arith,
  Bytes, length, append_assoc, append-nil, subst, drop, length-append, drop-append,
}
use bi_search.Tar.{octal_loop, header_octal}

-- A number in `k` octal digits, as tar writes it.
abbrev pub octal_digits : ℕ → ℕ → Bytes
octal_digits zero n = []
octal_digits (suc k) n = octal_digits k (n / 8) ++ (48 + n % 8) ∷ []

length-octal_digits : (k n : ℕ) → length (octal_digits k n) ≡ k
length-octal_digits zero n = refl
length-octal_digits (suc k) n = omega (
  arith,
  length-octal_digits k (n / 8),
  length-append (octal_digits k (n / 8)) ((48 + n % 8) ∷ []),
)

-- The last digit counts last.
octal_loop-append :
    (xs : Bytes) (d acc : ℕ) (r : Bytes)
    → octal_loop (suc (length xs)) acc (xs ++ (d ∷ r))
      ≡ (octal_loop (length xs) acc xs * 8 + d + 2 ^ 64 - 48) % 2 ^ 64
unfolding octal_loop
octal_loop-append [] d acc r = refl
octal_loop-append (x ∷ xs) d acc r = octal_loop-append xs d ((acc * 8 + x + 2 ^ 64 - 48) % 2 ^ 64) r

octal_step :
    (k n : ℕ) (r : Bytes)
    → octal_loop (suc k) 0 (octal_digits (suc k) n ++ r)
      ≡ (octal_loop k 0 (octal_digits k (n / 8)) * 8 + (48 + n % 8) + 2 ^ 64 - 48) % 2 ^ 64
octal_step k n r =
    let digits = octal_digits k (n / 8) in
    rw append_assoc (
      subst
        (λ m.
          octal_loop (suc m) 0 (digits ++ ((48 + n % 8) ∷ r))
          ≡ (octal_loop m 0 digits * 8 + (48 + n % 8) + 2 ^ 64 - 48) % 2 ^ 64)
        (length-octal_digits k (n / 8)) (octal_loop-append digits (48 + n % 8) 0 r))

octal_loop-digits :
    (k n : ℕ) (r : Bytes) → n < 8 ^ k → n < 2 ^ 60 → octal_loop k 0 (octal_digits k n ++ r) ≡ n
octal_loop-digits zero n r h b = unfold octal_loop in omega arith
octal_loop-digits (suc k) n r h b =
    let power : 8 ^ suc k ≡ 8 * 8 ^ k = omega arith in
    let ih : octal_loop k 0 (octal_digits k (n / 8)) ≡ n / 8 =
      ap (octal_loop k 0) (sym (append-nil (octal_digits k (n / 8))))
      ∙ octal_loop-digits k (n / 8) [] (omega arith) (omega arith) in
    octal_step k n r ∙ omega (arith, ih)

-- A size below 8 ^ 11, written in eleven octal digits at byte 124 of a header, is the size that
-- CutPointTarFast reads there, whatever stands before and behind.
pub header_octal-octal_digits :
    (before behind : Bytes) (n : ℕ)
    → length before ≡ 124
    → n < 8 ^ 11
    → header_octal (before ++ (octal_digits 11 n ++ behind)) ≡ n
unfolding header_octal
header_octal-octal_digits before behind n e h =
    let skip : drop 124 (before ++ (octal_digits 11 n ++ behind)) ≡ octal_digits 11 n ++ behind =
      subst (λ m. drop m (before ++ (octal_digits 11 n ++ behind)) ≡ octal_digits 11 n ++ behind) e
        (drop-append before (octal_digits 11 n ++ behind)) in
    ap (octal_loop 11 0) skip ∙ octal_loop-digits 11 n behind h (omega arith)
