-- ===== src/Dedup/Listing.antt =====
-- Listing a chunk in the recipe of the current file.
use Prim.Native.String.{String}
use text.Mathlib.Text.{◌==◌ as str_eq}
use bi_search.Base.{ℕ, ◌≡◌, true, false, some, List, Bytes, get_elem?, Bool-cases, inl, inr}
use bi_search.Types.{Chunk}
use bi_search.Store.{DataWrite, recipe_insert, pushed}
use bi_search.Store.Stored.{Blob, Stored, in_memory, in_file, AllStored-mono}
use bi_search.Restore.Originals.{Serves, IsOriginal, Spells, Spells-push}
use bi_search.Dedup.{Dedup, list_chunk}
use bi_search.Dedup.Invariant.{backed_up, IsDeduped}

relisted :
    (st : DataWrite) (m : String → List ℕ) (c : Chunk) (bs : Bytes)
    → Stored st c bs
    → Stored (record st { recipe_map = m }) c bs
relisted st m c bs (in_memory n o r) = in_memory n o r
relisted st m c bs (in_file n o r) = in_file n o r

-- The recipes have no part in what the store serves.
recipe_insert-Serves :
    (st : DataWrite) (blobs : List Blob) (id : ℕ)
    → Serves true blobs st
    → Serves true blobs (recipe_insert st id)
unfolding recipe_insert
recipe_insert-Serves st blobs id s = record {
  valid = record {
    filled = s.valid.filled;
    numbered = s.valid.numbered;
    fits = s.valid.fits;
    cache = s.valid.cache;
    cached = s.valid.cached;
    filed = s.valid.filed;
    opens = s.valid.opens;
  };
  all = AllStored-mono st _ (relisted st _) st.chunklist blobs s.all;
  codec = s.codec;
}

module _ (lz4_decompress_safe inflate_decompress : Bytes → Bytes)
    (xd3_decode : Bytes → Bytes → Bytes) where
  module _ (blobs : List Blob) where
    abbrev AllSpelled : (String → List ℕ) → (String → Bytes) → Type 0
    AllSpelled m files =
        (name : String)
        → Spells lz4_decompress_safe inflate_decompress xd3_decode true blobs (m name) (files name)

    pushed-Spells :
        (m : String → List ℕ) (files : String → Bytes) (name : String) (id : ℕ) (b : Blob)
        (x : Bytes)
        → AllSpelled m files
        → get_elem? blobs id ≡ some b
        → IsOriginal lz4_decompress_safe inflate_decompress xd3_decode true blobs b x
        → AllSpelled (pushed m name id) (backed_up files name x)
    unfolding pushed
    pushed-Spells m files name id b x all known o k = elim (Bool-cases (str_eq name k)) [
      | inl same ↦
          rw same
            (Spells-push lz4_decompress_safe inflate_decompress xd3_decode true id (all k) known o)
      | inr other ↦ rw other (all k)
    ]

  module _ (hash : Bytes → Bytes) (Seen : Bytes → Type 0) where
    -- A chunk of the store that is listed makes the current file longer by its bytes.
    pub list_chunk-IsDeduped :
        (d : Dedup) (blobs : List Blob) (files : String → Bytes) (c : Chunk) (b : Blob) (x : Bytes)
        → IsDeduped lz4_decompress_safe inflate_decompress xd3_decode hash Seen d blobs files
        → c.header_flag ≡ false
        → get_elem? blobs c.chunk_id ≡ some b
        → IsOriginal lz4_decompress_safe inflate_decompress xd3_decode true blobs b x
        → IsDeduped lz4_decompress_safe inflate_decompress xd3_decode hash Seen
            (list_chunk d c)
            blobs
            (backed_up files d.data_write.filename x)
    unfolding list_chunk recipe_insert
    list_chunk-IsDeduped d blobs files c b x v data_chunk known o =
        rw (list_chunk, data_chunk)
          (record {
            serves =
                unfold recipe_insert in recipe_insert-Serves d.data_write blobs c.chunk_id v.serves;
            plain = v.plain;
            counted = v.counted;
            indexed = v.indexed;
            found = v.found;
            recipes =
                pushed-Spells blobs d.data_write.recipe_map files d.data_write.filename c.chunk_id b
                  x v.recipes known o;
          })
