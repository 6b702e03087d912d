-- ===== src/Chunking/Splits.antt =====
-- The specification of chunking: a file is taken apart into the pieces that a rule allows.
use bi_search.Base.{
  ℕ, ◌<◌, ◌≤◌, ◌≡◌, refl, ap, ◌∙◌, List, [], ◌∷◌, ◌++◌, append_assoc, Bytes, length, take, drop,
  take-append-drop,
}

-- `Splits Allowed r cs r'`: the pieces `cs` are cut off `r` one after the other, each at a
-- length that the rule allows there, and `r'` is left.
pub data Splits (Allowed : Bytes → ℕ → Type 0) : Bytes → List Bytes → Bytes → Type 0 where
  none_left : {r : Bytes} → Splits Allowed r [] r
  piece :
      {r r' : Bytes} {cs : List Bytes} (c : ℕ)
      → 0 < c
      → c ≤ length r
      → Allowed r c
      → Splits Allowed (drop c r) cs r'
      → Splits Allowed r (take c r ∷ cs) r'

abbrev pub concat : List Bytes → Bytes
concat [] = []
concat (c ∷ cs) = c ++ concat cs

module _ {Allowed : Bytes → ℕ → Type 0} where
  pub concat-Splits :
      {r r' : Bytes} {cs : List Bytes} → Splits Allowed r cs r' → concat cs ++ r' ≡ r
  concat-Splits none_left = refl
  concat-Splits {r} (piece {cs = cs} c p q a s) =
      append_assoc (take c r) (concat cs) _
      ∙ ap (◌++◌ (take c r)) (concat-Splits s)
      ∙ take-append-drop c r

  pub Splits-append :
      {r r' r'' : Bytes} {cs cs' : List Bytes}
      → Splits Allowed r cs r'
      → Splits Allowed r' cs' r''
      → Splits Allowed r (cs ++ cs') r''
  Splits-append none_left t = t
  Splits-append (piece c p q a s) t = piece c p q a (Splits-append s t)
