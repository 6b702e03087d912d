-- ===== src/Tar/Paths.antt =====
-- A name with no '/' behind its hundred bytes never makes ExtractPath write past the end of `path`.
use bi_search.Base.{
  true, ℕ, suc, none, sym, ap, ◌∙◌, ltb→lt, ◌==◌, ◌≤◌, ◌<◌, ◌≡◌, refl, inl, inr, some, [], ◌∷◌,
  ◌++◌, arith, Bytes, Memory, length, take, length-take, ltb, Option-cases, Bool-cases, write_at,
}
use mathlib.Core.Option.{some-injective}
use bi_search.Tar.Names.{
  slash, c_string, from_slash, last_slash, slash_count, set_path, extract_path,
}

-- What lies behind the NUL does not count.
pub c_string-append :
    (h r : Bytes) → length (c_string h) < length h → c_string (h ++ r) ≡ c_string h
unfolding c_string
c_string-append [] r k = absurd (omega arith)
c_string-append (x ∷ h) r k = ground (arith, c_string-append h r)

slash_first : (x : ℕ) (xs : Bytes) → (x == slash) ≡ true → (i : ℕ) × (last_slash (x ∷ xs) ≡ some i)
unfolding last_slash
slash_first x xs h = elim (Option-cases (last_slash xs)) [
  | inl none_there ↦ (0, rw (none_there, h) refl)
  | inr (i, there) ↦ (suc i, rw there refl)
]

-- The last '/' of a string is not before the last '/' of what starts at its first one.
last_slash-from_slash :
    (xs ys : Bytes)
    → from_slash xs ≡ some ys
    → (i : ℕ) × (j : ℕ) × (last_slash xs ≡ some i) × (last_slash ys ≡ some j) × (j ≤ i)
unfolding from_slash last_slash
last_slash-from_slash [] ys e = absurd (ground arith)
last_slash-from_slash (x ∷ xs) ys e = elim (Bool-cases (x == slash)) [
  | inl first ↦
      let (i, there) = slash_first x xs first in
      let all : from_slash (x ∷ xs) ≡ some (x ∷ xs) = rw first refl in
      let same : x ∷ xs ≡ ys = some-injective (x ∷ xs) ys (sym all ∙ e) in
      (i, i, there, ap last_slash (sym same) ∙ there, omega arith)
  | inr other ↦
      let on : from_slash (x ∷ xs) ≡ from_slash xs = rw other refl in
      let (i, j, at, at', before) = last_slash-from_slash xs ys (sym on ∙ e) in
      (suc i, j, rw at refl, at', omega arith)
]

last_slash-lt : (xs : Bytes) (i : ℕ) → last_slash xs ≡ some i → i < length xs
unfolding last_slash
last_slash-lt [] i e = absurd (ground arith)
last_slash-lt (x ∷ xs) i e = elim (Option-cases (last_slash xs)) [
  | inl none_there ↦ ground arith
  | inr (k, there) ↦
      let here : last_slash (x ∷ xs) ≡ some (suc k) = rw there refl in
      let same : suc k ≡ i = some-injective (suc k) i (sym here ∙ e) in
      omega (arith, last_slash-lt xs k there, same)
]

slash_count-none : (xs : Bytes) → last_slash xs ≡ none → slash_count xs ≡ 0
unfolding last_slash slash_count
slash_count-none [] e = refl
slash_count-none (x ∷ xs) e = elim (Option-cases (last_slash xs)) [
  | inl none_there ↦ ground (arith, slash_count-none xs none_there)
  | inr (k, there) ↦
      let here : last_slash (x ∷ xs) ≡ some (suc k) = rw there refl in
      let clash : some (suc k) ≡ none = sym here ∙ e in absurd (ground arith)
]

set_path_fits :
    (path : Memory) (xs : Bytes) → length xs ≤ 100 → (p : Memory) × (set_path path xs ≡ some p)
unfolding set_path
set_path_fits path xs h = (write_at path 0 (xs ++ 0 ∷ []), ground arith)

-- Nothing is copied from behind the last '/'.
pub extract_path_fits :
    (path : Memory) (full : Bytes)
    → ((i : ℕ) → last_slash (c_string full) ≡ some i → i < 100)
    → (p : Memory) × (extract_path path full ≡ some p)
unfolding extract_path
extract_path_fits path full h = elim (Option-cases (from_slash (c_string full))) [
  | inl no_slash ↦ (path, rw (extract_path, no_slash) refl)
  | inr (remainder, found) ↦
      let (i, last, at, at_last, before) = last_slash-from_slash (c_string full) remainder found in
      let near : last < 100 = omega (arith, h i at) in
      elim (Bool-cases (ltb 2 (slash_count (take last remainder)))) [
        | inl deep ↦ elim (Option-cases (last_slash (take last remainder))) [
          | inl none_there ↦
              let nothing = slash_count-none (take last remainder) none_there in
              absurd (omega (arith, nothing, ltb→lt _ _ deep))
          | inr (second, at_second) ↦
              let in_front = last_slash-lt (take last remainder) second at_second in
              let (p, e) = set_path_fits path (take second remainder) (
                omega
                  (arith, length-take second remainder, length-take last remainder, in_front)) in
              (p, rw (extract_path, found, at_last, deep, at_second) e)
        ]
        | inr shallow ↦
            let (p, e) =
              set_path_fits path (take last remainder)
                (omega (arith, length-take last remainder)) in
            (p, rw (extract_path, found, at_last, shallow) e)
      ]
]
