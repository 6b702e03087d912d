-- ===== src/Dedup/Trace.antt =====
-- Deduplication keeps the store, the index and the recipes in step, and so every file that has
-- been backed up can be restored.
use Prim.Native.String.{String}
use bi_search.Base.{
  ℕ, ◌+◌, ◌≤◌, ◌<◌, ◌≡◌, refl, sym, ap, ◌∙◌, subst, inl, inr, true, false, none, some, List, [],
  ◌∷◌, ◌++◌, arith, Bytes, length, get_elem?, get_elem?-append_last, length-append, Option-cases,
  Bool-cases,
}
use bi_search.Config.{container_max_size}
use bi_search.Types.{Chunk}
use bi_search.Store.{get_chunk_meta_info, recipe_insert, recipe_header_insert}
use bi_search.Store.Stored.{Blob, AllStored-get}
use bi_search.Store.Deliver.{unpacked}
use bi_search.Restore.Originals.{IsOriginal, whole, Spells, Spells-more}
use bi_search.Dedup.{
  Dedup, compressed, assign_container, insert_unique, list_chunk, fp_find, fp_insert, process_chunk,
}
use bi_search.Dedup.Invariant.{
  backed_up, IsDeduped, IsPlain, AllPlain-get, AllPlain-push, AllFound, AllFound-push, Indexed-more,
  fp_find-Known,
}
use bi_search.Dedup.Listing.{list_chunk-IsDeduped}
use bi_search.Dedup.Unique.{assign_container-IsPrepared, store_chunk-IsAdded}

-- A chunk as the chunker pushes it for a file that is no tar archive.
pub record IsIncoming (Seen : Bytes → Type 0) (c : Chunk) : Type 0 where
  pub size : length c.chunk_ptr ≡ c.chunk_size
  pub fits : c.chunk_size ≤ container_max_size
  pub header : c.header_flag ≡ false
  pub seen : Seen c.chunk_ptr

abbrev pub AllIncoming : (Bytes → Type 0) → List Chunk → Type 0
AllIncoming Seen [] = Unit {0}
AllIncoming Seen (c ∷ cs) = IsIncoming Seen c × AllIncoming Seen cs

module _ (lz4_decompress_safe inflate_decompress : Bytes → Bytes)
    (xd3_decode : Bytes → Bytes → Bytes) (hash : Bytes → Bytes) (Seen : Bytes → Type 0)
    (lz4_compress_fast : Bytes → Bytes)
    (no_collision : (x y : Bytes) → Seen x → Seen y → hash x ≡ hash y → x ≡ y)
    (lz4_fits : (x : Bytes) → length (lz4_compress_fast x) ≤ length x)
    (lz4_inverse : (x : Bytes)
      → 0 < length (lz4_compress_fast x)
      → lz4_decompress_safe (lz4_compress_fast x) ≡ x) where
  abbrev Kept : Dedup → List Blob → (String → Bytes) → Type 0
  Kept = IsDeduped lz4_decompress_safe inflate_decompress xd3_decode hash Seen

  abbrev original : Blob → Bytes
  original b = unpacked lz4_decompress_safe inflate_decompress true b

  plain-IsOriginal :
      (blobs : List Blob) (k : ℕ) (b : Blob) (x : Bytes)
      → IsPlain lz4_decompress_safe inflate_decompress xd3_decode hash Seen k b
      → original b ≡ x
      → IsOriginal lz4_decompress_safe inflate_decompress xd3_decode true blobs b x
  plain-IsOriginal blobs k b x p e = whole p.whole e (ap length (sym e) ∙ p.size)

  insert_unique_lem :
      (d : Dedup) (blobs : List Blob) (files : String → Bytes) (c : Chunk)
      → Kept d blobs files
      → IsIncoming Seen c
      → fp_find d.fp_index (hash c.chunk_ptr) ≡ none
      → let (d', c') = insert_unique hash lz4_compress_fast d c in
        (b : Blob) × Kept d' (blobs ++ b ∷ []) files
        × IsPlain lz4_decompress_safe inflate_decompress xd3_decode hash Seen (length blobs) b
        × (original b ≡ c.chunk_ptr)
        × (c'.header_flag ≡ false)
        × (c'.chunk_id ≡ length blobs)
        × (d'.data_write.filename ≡ d.data_write.filename)
  unfolding insert_unique assign_container fp_insert
  insert_unique_lem d blobs files c v inc new =
      let c' = (assign_container d (compressed hash lz4_compress_fast c d.uniquechunk_num)).1 in
      let p =
        assign_container-IsPrepared lz4_decompress_safe inflate_decompress xd3_decode hash Seen
          lz4_compress_fast d c d.uniquechunk_num in
      let (b, added) =
        store_chunk-IsAdded lz4_decompress_safe inflate_decompress xd3_decode hash Seen
          lz4_compress_fast lz4_fits lz4_inverse d.data_write blobs c' v.serves
          (ap length p.bytes ∙ inc.size ∙ sym p.size) (omega (arith, p.size, inc.fits))
          (p.header ∙ inc.header) (p.chunk_id ∙ v.counted) p.packed in
      let got : original b ≡ c.chunk_ptr = added.original ∙ p.bytes in
      let here : get_elem? (blobs ++ b ∷ []) c'.chunk_id ≡ some b =
        subst (λ i. get_elem? (blobs ++ b ∷ []) i ≡ some b) (sym (p.chunk_id ∙ v.counted))
          (get_elem?-append_last blobs b) in
      let kept : Kept (insert_unique hash lz4_compress_fast d c).0 (blobs ++ b ∷ []) files =
        record {
          serves = added.serves;
          plain =
              AllPlain-push lz4_decompress_safe inflate_decompress xd3_decode hash Seen 0 blobs b
                v.plain
                (subst
                  (λ n. IsPlain lz4_decompress_safe inflate_decompress xd3_decode hash Seen n b)
                  (omega arith) added.plain);
          counted = omega (arith, v.counted, length-append blobs (b ∷ []));
          indexed = (
            (b, here, ap hash got, subst Seen (sym got) inc.seen),
            Indexed-more lz4_decompress_safe inflate_decompress xd3_decode hash Seen blobs (b ∷ [])
                d.fp_index v.indexed,
          );
          found =
              subst
                (λ i.
                  AllFound lz4_decompress_safe inflate_decompress xd3_decode hash Seen
                    (blobs ++ b ∷ []) (fp_insert d.fp_index (hash c.chunk_ptr) i))
                (sym (p.chunk_id ∙ v.counted))
                (AllFound-push lz4_decompress_safe inflate_decompress xd3_decode hash Seen blobs
                  d.fp_index b (hash c.chunk_ptr) v.found new (ap hash got));
          recipes = λ name.
              subst
                (λ m.
                  Spells lz4_decompress_safe inflate_decompress xd3_decode true (blobs ++ b ∷ [])
                    (m name) (files name))
                (sym added.frame.recipes)
                (Spells-more lz4_decompress_safe inflate_decompress xd3_decode true blobs (b ∷ [])
                  (v.recipes name));
        } in
      (
        b,
        kept,
        added.plain,
        added.original ∙ p.bytes,
        p.header ∙ inc.header,
        p.chunk_id ∙ v.counted,
        added.frame.name,
      )

  -- What a round of the loop does with a chunk: the current file is longer by its bytes.
  abbrev Advances : Dedup → (String → Bytes) → Chunk → Type 0
  Advances d files c =
      (d' : Dedup) × (blobs' : List Blob) × (process_chunk hash lz4_compress_fast d c ≡ some d')
      × Kept d' blobs' (backed_up files d.data_write.filename c.chunk_ptr)
      × (d'.data_write.filename ≡ d.data_write.filename)

  list_chunk-filename :
      (d : Dedup) (c : Chunk) → (list_chunk d c).data_write.filename ≡ d.data_write.filename
  unfolding list_chunk recipe_insert recipe_header_insert
  list_chunk-filename d c = elim (Bool-cases c.header_flag) [
    | inl header ↦ rw header refl
    | inr other ↦ rw other refl
  ]

  new_chunk :
      (d : Dedup) (blobs : List Blob) (files : String → Bytes) (c : Chunk)
      → Kept d blobs files
      → IsIncoming Seen c
      → fp_find d.fp_index (hash c.chunk_ptr) ≡ none
      → Advances d files c
  unfolding process_chunk
  new_chunk d blobs files c v inc new =
      let (b, kept, plain, got, header, id, name) = insert_unique_lem d blobs files c v inc new in
      let d1 = (insert_unique hash lz4_compress_fast d c).0 in
      let c1 = (insert_unique hash lz4_compress_fast d c).1 in
      let here : get_elem? (blobs ++ b ∷ []) c1.chunk_id ≡ some b =
        subst (λ i. get_elem? (blobs ++ b ∷ []) i ≡ some b) (sym id)
          (get_elem?-append_last blobs b) in
      let listed =
        list_chunk-IsDeduped lz4_decompress_safe inflate_decompress xd3_decode hash Seen d1
          (blobs ++ b ∷ []) files c1 b c.chunk_ptr kept header here
          (plain-IsOriginal (blobs ++ b ∷ []) (length blobs) b c.chunk_ptr plain got) in
      (
        list_chunk d1 c1,
        blobs ++ b ∷ [],
        rw (process_chunk, new) refl,
        subst (λ n. Kept (list_chunk d1 c1) (blobs ++ b ∷ []) (backed_up files n c.chunk_ptr)) name
            listed,
        list_chunk-filename d1 c1 ∙ name,
      )

  known_chunk :
      (d : Dedup) (blobs : List Blob) (files : String → Bytes) (c : Chunk) (id : ℕ)
      → Kept d blobs files
      → IsIncoming Seen c
      → fp_find d.fp_index (hash c.chunk_ptr) ≡ some id
      → Advances d files c
  unfolding process_chunk get_chunk_meta_info
  known_chunk d blobs files c id v inc known =
      let (b, stored, same_hash, seen) =
        fp_find-Known lz4_decompress_safe inflate_decompress xd3_decode hash Seen blobs d.fp_index
          (hash c.chunk_ptr) id v.indexed known in
      let same : original b ≡ c.chunk_ptr =
        no_collision (original b) c.chunk_ptr seen inc.seen same_hash in
      let (e, listed, entry) =
        AllStored-get d.data_write d.data_write.chunklist blobs id v.serves.all stored in
      let plain =
        AllPlain-get lz4_decompress_safe inflate_decompress xd3_decode hash Seen 0 blobs id v.plain
          stored in
      let d1 = record d { dedup_reduct = d.dedup_reduct + e.chunk_size } in
      let v1 : Kept d1 blobs files = record {
        serves = v.serves;
        plain = v.plain;
        counted = v.counted;
        indexed = v.indexed;
        found = v.found;
        recipes = v.recipes;
      } in
      let number : id ≡ e.chunk_id = omega (arith, entry.chunk_id, plain.chunk_id) in
      (
        list_chunk d1 e,
        blobs,
        rw (process_chunk, known, get_chunk_meta_info, listed) refl,
        list_chunk-IsDeduped lz4_decompress_safe inflate_decompress xd3_decode hash Seen d1 blobs
            files e b c.chunk_ptr v1 (entry.header ∙ plain.header)
            (subst (λ i. get_elem? blobs i ≡ some b) number stored)
            (plain-IsOriginal blobs (0 + id) b c.chunk_ptr plain same),
        list_chunk-filename d1 e,
      )

  pub process_chunk-IsDeduped :
      (d : Dedup) (blobs : List Blob) (files : String → Bytes) (c : Chunk)
      → Kept d blobs files
      → IsIncoming Seen c
      → Advances d files c
  process_chunk-IsDeduped d blobs files c v inc =
      elim (Option-cases (fp_find d.fp_index (hash c.chunk_ptr))) [
        | inl new ↦ new_chunk d blobs files c v inc new
        | inr (id, known) ↦ known_chunk d blobs files c id v inc known
      ]
