-- ===== src/Restore/Originals.antt =====
-- What a recipe stands for: the chunks that the blobs of the store come from.
use bi_search.Base.{
  ℕ, ◌≡◌, ◌∙◌, Bool, true, false, some, List, [], ◌∷◌, ◌++◌, append_assoc, append-nil, subst, sym,
  Bytes, length, get_elem?, get_elem?-append_left, get_elem?-lt,
}
use bi_search.Types.{is_whole}
use bi_search.Store.{DataWrite}
use bi_search.Store.Stored.{Blob, AllStored, IsValid}
use bi_search.Store.Deliver.{unpacked}

-- A well-formed store that holds the blobs, with its codec.
pub record Serves (lz4 : Bool) (blobs : List Blob) (st : DataWrite) : Type 0 where
  pub valid : IsValid st
  pub all : AllStored st st.chunklist blobs
  pub codec : st.lz4_compress ≡ lz4

module _ (lz4_decompress_safe inflate_decompress : Bytes → Bytes)
    (xd3_decode : Bytes → Bytes → Bytes) (lz4 : Bool) where
  -- The blob is the chunk `x`, whole or as a delta to a whole base chunk.
  pub data IsOriginal (blobs : List Blob) (b : Blob) (x : Bytes) : Type 0 where
    whole :
        is_whole b.flag ≡ true
        → unpacked lz4_decompress_safe inflate_decompress lz4 b ≡ x
        → length x ≡ b.size
        → IsOriginal blobs b x
    from_base :
        {k : ℕ} {base : Blob} {y : Bytes}
        → is_whole b.flag ≡ false
        → b.base ≡ some k
        → get_elem? blobs k ≡ some base
        → unpacked lz4_decompress_safe inflate_decompress lz4 base ≡ y
        → length y ≡ base.size
        → xd3_decode b.bytes y ≡ x
        → length x ≡ b.size
        → IsOriginal blobs b x

  -- The recipe's chunks, one after the other, are these bytes.
  pub data Spells (blobs : List Blob) : List ℕ → Bytes → Type 0 where
    nothing : Spells blobs [] []
    next :
        {id : ℕ} {b : Blob} {ids : List ℕ} {x y : Bytes}
        → get_elem? blobs id ≡ some b
        → IsOriginal blobs b x
        → Spells blobs ids y
        → Spells blobs (id ∷ ids) (x ++ y)

  get_elem?-more :
      (blobs more : List Blob) (k : ℕ) {b : Blob}
      → get_elem? blobs k ≡ some b
      → get_elem? (blobs ++ more) k ≡ some b
  get_elem?-more blobs more k e = get_elem?-append_left blobs more k (get_elem?-lt blobs k e) ∙ e

  IsOriginal-more :
      (blobs more : List Blob) {b : Blob} {x : Bytes}
      → IsOriginal blobs b x
      → IsOriginal (blobs ++ more) b x
  IsOriginal-more blobs more (whole f u l) = whole f u l
  IsOriginal-more blobs more (from_base {k} f k_base known u l d n) =
      from_base f k_base (get_elem?-more blobs more k known) u l d n

  -- Recipes keep their meaning when the store grows.
  pub Spells-more :
      (blobs more : List Blob) {ids : List ℕ} {x : Bytes}
      → Spells blobs ids x
      → Spells (blobs ++ more) ids x
  Spells-more blobs more nothing = nothing
  Spells-more blobs more (next {id} known o s) =
      next (get_elem?-more blobs more id known) (IsOriginal-more blobs more o)
        (Spells-more blobs more s)

  pub Spells-push :
      {blobs : List Blob} {ids : List ℕ} {x y : Bytes} (id : ℕ) {b : Blob}
      → Spells blobs ids x
      → get_elem? blobs id ≡ some b
      → IsOriginal blobs b y
      → Spells blobs (ids ++ id ∷ []) (x ++ y)
  Spells-push {blobs} {y = y} id nothing known o =
      subst (Spells blobs (id ∷ [])) (append-nil y) (next known o nothing)
  Spells-push {blobs} {y = y} id (next {x = x'} {y = z} k o' s) known o =
      subst (Spells blobs _) (sym (append_assoc x' z y)) (next k o' (Spells-push id s known o))
