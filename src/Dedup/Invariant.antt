-- ===== src/Dedup/Invariant.antt =====
-- What holds between two chunks: the store serves the unique chunks, the index knows their hashes,
-- and the recipes spell what has been backed up.
use Prim.Native.String.{String}
use text.Mathlib.Text.{◌==◌ as str_eq}
use bi_search.Base.{
  none, ap, get_elem?-push, ℕ, zero, suc, ◌+◌, ◌≡◌, refl, sym, ◌∙◌, subst, true, false, some, List,
  [], ◌∷◌, ◌++◌, arith, Bytes, length, get_elem?, get_elem?-append_left, get_elem?-lt,
  if◌then◌else◌, Bool-cases, inl, inr,
}
use mathlib.Core.Option.{some-injective}
use bi_search.Types.{is_whole}
use bi_search.Store.Stored.{Blob}
use bi_search.Store.Deliver.{unpacked}
use bi_search.Restore.Originals.{Serves, Spells}
use bi_search.Dedup.{Dedup, FpIndex, same_bytes, fp_find, fp_insert}

-- The files after the current one has grown by a chunk.
abbrev pub backed_up : (String → Bytes) → String → Bytes → String → Bytes
backed_up files name x k = if str_eq name k then files k ++ x else files k

same_bytes→eq : (xs ys : Bytes) → same_bytes xs ys ≡ true → xs ≡ ys
unfolding same_bytes
same_bytes→eq [] [] h = refl
same_bytes→eq [] (y ∷ ys) h = absurd (ground arith)
same_bytes→eq (x ∷ xs) [] h = absurd (ground arith)
same_bytes→eq (x ∷ xs) (y ∷ ys) h = ground (arith, same_bytes→eq xs ys)

eq→same_bytes : (xs : Bytes) → same_bytes xs xs ≡ true
unfolding same_bytes
eq→same_bytes [] = refl
eq→same_bytes (x ∷ xs) = ground (arith, eq→same_bytes xs)

pub fp_find-fp_insert :
    (index : FpIndex) (fp : Bytes) (id : ℕ) → fp_find (fp_insert index fp id) fp ≡ some id
unfolding fp_find fp_insert
fp_find-fp_insert index fp id = rw (eq→same_bytes fp) refl

-- A new fingerprint hides no other one that is found.
pub fp_find-fp_insert_other :
    (index : FpIndex) (fp fp' : Bytes) (id id' : ℕ)
    → fp_find index fp ≡ none
    → fp_find index fp' ≡ some id'
    → fp_find (fp_insert index fp id) fp' ≡ some id'
unfolding fp_find fp_insert
fp_find-fp_insert_other index fp fp' id id' new old = elim (Bool-cases (same_bytes fp fp')) [
  | inl same ↦
      let clash : none ≡ some id' =
        sym new ∙ ap (fp_find index) (same_bytes→eq fp fp' same) ∙ old in
      absurd (ground arith)
  | inr other ↦ rw other old
]

module _ (lz4_decompress_safe inflate_decompress : Bytes → Bytes)
    (xd3_decode : Bytes → Bytes → Bytes) (hash : Bytes → Bytes) (Seen : Bytes → Type 0) where
  abbrev pub original : Blob → Bytes
  original b = unpacked lz4_decompress_safe inflate_decompress true b

  -- Entry `k` of the store is a whole chunk of a file.
  pub record IsPlain (k : ℕ) (b : Blob) : Type 0 where
    pub chunk_id : b.chunk_id ≡ k
    pub whole : is_whole b.flag ≡ true
    pub size : length (original b) ≡ b.size
    pub header : b.header ≡ false

  abbrev pub AllPlain : ℕ → List Blob → Type 0
  AllPlain k [] = Unit {0}
  AllPlain k (b ∷ bs) = IsPlain k b × AllPlain (suc k) bs

  abbrev pub Known : List Blob → Bytes → ℕ → Type 0
  Known blobs fp id =
      (b : Blob) × (get_elem? blobs id ≡ some b) × (hash (original b) ≡ fp) × Seen (original b)

  -- Each entry of the index names a stored chunk with the entry's hash.
  abbrev pub Indexed : List Blob → FpIndex → Type 0
  Indexed blobs [] = Unit {0}
  Indexed blobs ((fp, id) ∷ index) = Known blobs fp id × Indexed blobs index

  -- Each stored chunk is found under its hash. So no two stored chunks have the same hash.
  abbrev pub AllFound : List Blob → FpIndex → Type 0
  AllFound blobs index =
      (id : ℕ) (b : Blob)
      → get_elem? blobs id ≡ some b
      → fp_find index (hash (original b)) ≡ some id

  pub record IsDeduped (d : Dedup) (blobs : List Blob) (files : String → Bytes) : Type 0 where
    pub serves : Serves true blobs d.data_write
    pub plain : AllPlain 0 blobs
    pub counted : d.uniquechunk_num ≡ length blobs
    pub indexed : Indexed blobs d.fp_index
    pub found : AllFound blobs d.fp_index
    pub recipes :
        (name : String)
        → Spells lz4_decompress_safe inflate_decompress xd3_decode true blobs
            (d.data_write.recipe_map name)
            (files name)

  pub AllPlain-get :
      (k : ℕ) (blobs : List Blob) (i : ℕ) {b : Blob}
      → AllPlain k blobs
      → get_elem? blobs i ≡ some b
      → IsPlain (k + i) b
  AllPlain-get k [] i a e = absurd (ground arith)
  AllPlain-get k (c ∷ bs) zero {b} a e =
      let same : c ≡ b = some-injective c b e in
      subst (IsPlain (k + 0)) same (subst (λ n. IsPlain n c) (omega arith) a.0)
  AllPlain-get k (c ∷ bs) (suc i) {b} a e =
      subst (λ n. IsPlain n b) (omega arith) (AllPlain-get (suc k) bs i a.1 e)

  pub AllPlain-push :
      (k : ℕ) (blobs : List Blob) (b : Blob)
      → AllPlain k blobs
      → IsPlain (k + length blobs) b
      → AllPlain k (blobs ++ b ∷ [])
  AllPlain-push k [] b a p = (subst (λ n. IsPlain n b) (omega arith) p, tt)
  AllPlain-push k (c ∷ bs) b a p =
      (a.0, AllPlain-push (suc k) bs b a.1 (subst (λ n. IsPlain n b) (omega arith) p))

  pub Indexed-more :
      (blobs more : List Blob) (index : FpIndex)
      → Indexed blobs index
      → Indexed (blobs ++ more) index
  Indexed-more blobs more [] i = tt
  Indexed-more blobs more ((fp, id) ∷ index) i =
      let (b, known, same, seen) = i.0 in
      (
        (b, get_elem?-append_left blobs more id (get_elem?-lt blobs id known) ∙ known, same, seen),
        Indexed-more blobs more index i.1,
      )

  pub AllFound-push :
      (blobs : List Blob) (index : FpIndex) (b : Blob) (fp : Bytes)
      → AllFound blobs index
      → fp_find index fp ≡ none
      → hash (original b) ≡ fp
      → AllFound (blobs ++ b ∷ []) (fp_insert index fp (length blobs))
  AllFound-push blobs index b fp old new same i c at = elim (get_elem?-push blobs b i at) [
    | inl before ↦
        fp_find-fp_insert_other index fp (hash (original c)) (length blobs) i new (old i c before)
    | inr (last, added) ↦
        ap (fp_find (fp_insert index fp (length blobs))) (ap (λ z. hash (original z)) added ∙ same)
        ∙ fp_find-fp_insert index fp (length blobs)
        ∙ ap some (sym last)
  ]

  pub fp_find-Known :
      (blobs : List Blob) (index : FpIndex) (fp : Bytes) (id : ℕ)
      → Indexed blobs index
      → fp_find index fp ≡ some id
      → Known blobs fp id
  unfolding fp_find
  fp_find-Known blobs [] fp id i e = absurd (ground arith)
  fp_find-Known blobs ((k, j) ∷ index) fp id i e = elim (Bool-cases (same_bytes k fp)) [
    | inl same ↦
        let here : fp_find ((k, j) ∷ index) fp ≡ some j = rw same refl in
        subst (Known blobs fp) (some-injective j id (sym here ∙ e))
          (subst (λ z. Known blobs z j) (same_bytes→eq k fp same) i.0)
    | inr other ↦
        let rest : fp_find ((k, j) ∷ index) fp ≡ fp_find index fp = rw other refl in
        fp_find-Known blobs index fp id i.1 (sym rest ∙ e)
  ]
