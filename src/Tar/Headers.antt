-- ===== src/Tar/Headers.antt =====
-- The fields of a header: the octal size, and what follows the header does not count.
use bi_search.Base.{
  ℕ, zero, suc, ◌+◌, ◌<◌, ◌≡◌, refl, sym, ◌∙◌, ◌++◌, arith, Bytes, length, get_or, drop,
  get_or-append_left, get_or-drop,
}
use bi_search.Tar.{octal_loop, header_octal, type_flag}

octal_loop_congr :
    (k acc : ℕ) (xs ys : Bytes)
    → ((j : ℕ) → j < k → get_or xs j 0 ≡ get_or ys j 0)
    → octal_loop k acc xs ≡ octal_loop k acc ys
unfolding octal_loop
octal_loop_congr zero acc xs ys h = refl
octal_loop_congr (suc k) acc xs ys h =
    let first = h 0 (omega arith) in
    rw first (
      octal_loop_congr k _ (drop 1 xs) (drop 1 ys)
        (λ j b. get_or-drop 1 xs j 0 ∙ h (1 + j) (omega arith) ∙ sym (get_or-drop 1 ys j 0)))

pub header_octal-append : (h r : Bytes) → length h ≡ 512 → header_octal (h ++ r) ≡ header_octal h
unfolding header_octal
header_octal-append h r e = octal_loop_congr 11 0 (drop 124 (h ++ r)) (drop 124 h) (λ j b.
    get_or-drop 124 (h ++ r) j 0
    ∙ get_or-append_left h r (124 + j) 0 (omega arith)
    ∙ sym (get_or-drop 124 h j 0))

pub type_flag-append : (h r : Bytes) → length h ≡ 512 → type_flag (h ++ r) ≡ type_flag h
unfolding type_flag
type_flag-append h r e = get_or-append_left h r 156 0 (omega arith)
