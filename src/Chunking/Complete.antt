-- ===== src/Chunking/Complete.antt =====
-- Chunking takes the whole file apart, whatever the windows it is read in.
use native.Mathlib.Nat.{le_refl}
use bi_search.Base.{
  ℕ, zero, suc, ◌+◌, ◌-◌, ◌^◌, ◌≤◌, ◌<◌, ◌≡◌, refl, sym, ap, ◌∙◌, ◌≢◌, ◌⊎◌, inl, inr, arith, Bool,
  true, false, ◌&&◌, ◌||◌, List, [], ◌∷◌, ◌++◌, Bytes, ltb, leb, length, take, drop, drop_all,
  Bool-cases, ltb→lt, ltb→le, le→ltb, length-take, length-drop, drop-window, copy-take, ℕ_discrete,
  drop-add, subst,
}
use bi_search.Chunking.{Outcome, finished, push, append, sub64, cut_window, chunking}
use bi_search.Chunking.Splits.{Splits, none_left, piece, Splits-append}

pub sub64_exact : (a b : ℕ) → b ≤ a → a < 2 ^ 64 → sub64 a b ≡ a - b
sub64_exact a b h k = omega arith

module _ (cut : Bytes → ℕ → ℕ) (quota cap room : ℕ) (Allowed : Bytes → ℕ → Type 0)
    (some_quota : 0 < quota) (quota-le-cap : quota ≤ cap) (wide : cap ≤ room) (word : cap < 2 ^ 64)
    (rule : (r : Bytes) (n : ℕ)
      → 0 < n
      → n ≤ length r
      → n ≤ cap
      → (n ≡ length r) ⊎ (quota ≤ n)
      → Allowed r (cut (take n r) n) × (0 < cut (take n r) n) × (cut (take n r) n ≤ n)) where
  module _ (rest : Bytes) where
    abbrev window : Bytes
    window = take cap rest

    abbrev at_end : Bool
    at_end = ltb (length window) cap

    -- What a finished inner loop has done: cut pieces off the rest, from one offset to another,
    -- up to the end if that is in sight, and otherwise until less than the quota is left.
    data Filled (off : ℕ) : Outcome → Type 0 where
      fills :
          {cs : List Bytes} {off' : ℕ}
          → Splits Allowed (drop off rest) cs (drop off' rest)
          → off' ≤ length window
          → (at_end ≡ true → off' ≡ length window)
          → (at_end ≡ false → length window < off' + quota)
          → Filled off (finished cs off')

    Filled-finished :
        {off : ℕ} {o : Outcome}
        → Filled off o
        → (cs : List Bytes) × (off' : ℕ) × (o ≡ finished cs off')
          × Splits Allowed (drop off rest) cs (drop off' rest)
          × (off' ≤ length window)
          × (at_end ≡ true → off' ≡ length window)
          × (at_end ≡ false → length window < off' + quota)
    Filled-finished (fills {cs} {off'} s b e n) = (cs, off', refl, s, b, e, n)

    abbrev goes_on : ℕ → Bool
    goes_on off = leb quota (sub64 (length window) off) || (at_end && ltb off (length window))

    abbrev here : ℕ → ℕ
    here off = cut (take (length window - off) (drop off rest)) (length window - off)

    -- In sight of the end the window is all of the rest.
    in_sight :
        (off : ℕ)
        → off ≤ length window
        → goes_on off ≡ true
        → (0 < length window - off)
          × (length window - off ≤ length (drop off rest))
          × ((length window - off ≡ length (drop off rest)) ⊎ (quota ≤ length window - off))
    in_sight off h g =
        ground
          (arith, length-take cap rest, length-drop off rest, sub64_exact (length window) off h)

    -- One round of the inner loop pushes the next allowed piece.
    cut_round :
        (fuel off : ℕ) (h : off ≤ length window) (g : goes_on off ≡ true)
        → 0 < here off
        → here off ≤ length window - off
        → cut_window cut quota room (suc fuel) window at_end off
          ≡ push
              (take (here off) (drop off rest))
              (cut_window cut quota room fuel window at_end (off + here off))
    unfolding cut_window
    cut_round fuel off h g p q = ground (
      arith,
      sub64_exact (length window) off,
      drop-window off cap rest h,
      length-take cap rest,
      length-drop off rest,
      copy-take (here off) (length window - off) (drop off rest),
    )

    stop_round :
        (fuel off : ℕ)
        → goes_on off ≡ false
        → cut_window cut quota room (suc fuel) window at_end off ≡ finished [] off
    unfolding cut_window
    stop_round fuel off g = rw (cut_window, g)

    Filled-push :
        (off c : ℕ) {o : Outcome}
        → 0 < c
        → c ≤ length (drop off rest)
        → Allowed (drop off rest) c
        → Filled (off + c) o
        → Filled off (push (take c (drop off rest)) o)
    Filled-push off c p q a (fills {cs} {off'} s b e n) =
        fills
          (piece c p q a
            (subst (λ r. Splits Allowed r cs (drop off' rest)) (drop-add off c rest) s))
          b e n

    stopped :
        (off : ℕ) → off ≤ length window → goes_on off ≡ false → at_end ≡ true → off ≡ length window
    stopped off h g e = ground (arith, sub64_exact (length window) off h, length-take cap rest)

    below_quota :
        (off : ℕ)
        → off ≤ length window
        → goes_on off ≡ false
        → at_end ≡ false
        → length window < off + quota
    below_quota off h g e = ground (arith, sub64_exact (length window) off h, length-take cap rest)

    cut_window-Filled :
        (fuel off : ℕ)
        → off ≤ length window
        → length window < off + fuel
        → Filled off (cut_window cut quota room fuel window at_end off)
    cut_window-Filled zero off h f = absurd (omega arith)
    cut_window-Filled (suc fuel) off h f = elim (Bool-cases (goes_on off)) [
      | inl g ↦
          let (some_left, in_rest, sight) = in_sight off h g in
          let (a, p, q) =
            rule (drop off rest) (length window - off) some_left in_rest
              (omega (arith, length-take cap rest)) sight in
          rw (cut_round fuel off h g p q) (
            Filled-push off (here off) p (omega arith) a
              (cut_window-Filled fuel (off + here off) (omega arith) (omega arith)))
      | inr g ↦
          rw (stop_round fuel off g)
            (fills none_left h (λ e. stopped off h g e) (λ e. below_quota off h g e))
    ]

  -- The outer loop, from any offset of the file.
  data Chunked (file : Bytes) (total : ℕ) : Outcome → Type 0 where
    chunks :
        {cs : List Bytes}
        → Splits Allowed (drop total file) cs []
        → Chunked file total (finished cs (length file))

  Chunked-finished :
      (file : Bytes) (total : ℕ) {o : Outcome}
      → Chunked file total o
      → (cs : List Bytes) × (o ≡ finished cs (length file)) × Splits Allowed (drop total file) cs []
  Chunked-finished file total (chunks {cs} s) = (cs, refl, s)

  append-finished :
      (cs cs' : List Bytes) (off : ℕ) → append cs (finished cs' off) ≡ finished (cs ++ cs') off
  append-finished [] cs' off = refl
  append-finished (c ∷ cs) cs' off = ap (push c) (append-finished cs cs' off)

  Chunked-append :
      {file : Bytes} (cs : List Bytes) (total off : ℕ) {o : Outcome}
      → Splits Allowed (drop total file) cs (drop (total + off) file)
      → Chunked file (total + off) o
      → Chunked file total (append cs o)
  Chunked-append {file} cs total off s (chunks {cs = cs'} t) =
      rw (append-finished cs cs' (length file)) (chunks (Splits-append s t))

  module _ (file : Bytes) (inner_fuel : ℕ) (enough : cap < inner_fuel) where
    abbrev rest_at : ℕ → Bytes
    rest_at total = drop total file

    empty_round :
        (fuel total : ℕ)
        → total ≤ length file
        → length (window (rest_at total)) ≡ 0
        → Chunked file total (chunking cut quota cap room inner_fuel (suc fuel) file total)
    unfolding chunking
    empty_round fuel total h e =
        let at_end : total ≡ length file =
          omega (arith, length-take cap (rest_at total), length-drop total file) in
        rw (chunking, le→ltb room cap wide, e, at_end)
          (chunks
            (subst (λ r. Splits Allowed r [] []) (sym (drop_all _ file (le_refl _))) none_left))

    last_round :
        (fuel total : ℕ) (cs : List Bytes) (off : ℕ)
        → length (window (rest_at total)) ≢ 0
        → at_end (rest_at total) ≡ true
        → cut_window cut quota room inner_fuel (window (rest_at total)) (at_end (rest_at total)) 0
          ≡ finished cs off
        → chunking cut quota cap room inner_fuel (suc fuel) file total ≡ finished cs (total + off)
    unfolding chunking
    last_round fuel total cs off ne e r = ground arith

    full_round :
        (fuel total : ℕ) (cs : List Bytes) (off : ℕ)
        → length (window (rest_at total)) ≢ 0
        → at_end (rest_at total) ≡ false
        → cut_window cut quota room inner_fuel (window (rest_at total)) (at_end (rest_at total)) 0
          ≡ finished cs off
        → chunking cut quota cap room inner_fuel (suc fuel) file total
          ≡ append cs (chunking cut quota cap room inner_fuel fuel file (total + off))
    unfolding chunking
    full_round fuel total cs off ne e r = ground arith

    chunking-Chunked :
        (fuel total : ℕ)
        → total ≤ length file
        → length file < total + fuel
        → Chunked file total (chunking cut quota cap room inner_fuel fuel file total)
    chunking-Chunked zero total h f = absurd (omega arith)
    chunking-Chunked (suc fuel) total h f = elim (ℕ_discrete (length (window (rest_at total))) 0) [
      | yes none_here ↦ empty_round fuel total h none_here
      | no some_here ↦
          let (cs, off, e, s, b, last, full) = Filled-finished (rest_at total) (
            cut_window-Filled (rest_at total) inner_fuel 0 (omega arith)
              (omega (arith, length-take cap (rest_at total)))) in
          let rest_eq = drop-add total off file in
          elim (Bool-cases (at_end (rest_at total))) [
            | inl ended ↦
                let whole : total + off ≡ length file = omega (
                  arith,
                  last ended,
                  ltb→lt _ _ ended,
                  length-take cap (rest_at total),
                  length-drop total file,
                ) in
                rw (last_round fuel total cs off some_here ended e, whole)
                  (chunks (
                    subst (λ r. Splits Allowed (rest_at total) cs r)
                      (sym rest_eq ∙ drop_all (total + off) file (omega arith)) s))
            | inr more ↦ rw (full_round fuel total cs off some_here more e) (
                Chunked-append cs total off
                  (subst (λ r. Splits Allowed (rest_at total) cs r) (sym rest_eq) s)
                  (chunking-Chunked fuel (total + off)
                    (omega (arith, length-take cap (rest_at total), length-drop total file))
                    (omega (arith, full more, ltb→le _ _ more, length-take cap (rest_at total)))))
          ]
    ]

  -- With fuel for the file's length the loops end, all of the file is cut, and the reader stands
  -- at its end.
  pub chunking_lem :
      (file : Bytes) (fuel inner_fuel : ℕ)
      → length file < fuel
      → cap < inner_fuel
      → (cs : List Bytes) × (chunking cut quota cap room inner_fuel fuel file 0
          ≡ finished cs (length file))
        × Splits Allowed file cs []
  chunking_lem file fuel inner_fuel f g =
      Chunked-finished file 0
        (chunking-Chunked file inner_fuel g fuel 0 (omega arith) (omega arith))
