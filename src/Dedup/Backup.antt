-- ===== src/Dedup/Backup.antt =====
-- From the chunks of a file to the restored file.
use Prim.Native.String.{String}
use text.Mathlib.Text.{◌==◌ as str_eq}
use bi_search.Base.{
  ℕ, ◌≤◌, ◌<◌, ◌≡◌, refl, sym, ◌∙◌, subst, inl, inr, Bool, true, Option, some, List, [], ◌∷◌, ◌++◌,
  arith, append_assoc, append-nil, Bytes, Memory, length, Bool-cases,
}
use bi_search.Types.{Chunk}
use bi_search.Cache.{read_cache}
use bi_search.Cache.Coherent.{read_cache-IsCoherent}
use bi_search.Store.{DataWrite, ContainerFile, new_data_write}
use bi_search.Store.Stored.{Blob, IsValid, contents}
use bi_search.Restore.{restore_file}
use bi_search.Restore.Originals.{Spells, nothing}
use bi_search.Restore.Files.{restored_lem}
use bi_search.Dedup.{Dedup, new_dedup, process_trace}
use bi_search.Dedup.Invariant.{backed_up, IsDeduped}
use bi_search.Dedup.Trace.{AllIncoming, process_chunk-IsDeduped}

-- The bytes of the chunks, one after the other.
abbrev pub joined : List Chunk → Bytes
joined [] = []
joined (c ∷ cs) = c.chunk_ptr ++ joined cs

backed_up-append :
    (files : String → Bytes) (name : String) (x y : Bytes) (k : String)
    → backed_up (backed_up files name x) name y k ≡ backed_up files name (x ++ y) k
backed_up-append files name x y k = elim (Bool-cases (str_eq name k)) [
  | inl same ↦ rw same (append_assoc (files k) x y)
  | inr other ↦ rw other refl
]

backed_up-nothing : (files : String → Bytes) (name k : String) → files k ≡ backed_up files name [] k
backed_up-nothing files name k = elim (Bool-cases (str_eq name k)) [
  | inl same ↦ rw same (sym (append-nil (files k)))
  | inr other ↦ rw other refl
]

new_data_write-IsValid :
    (pool : ℕ → Memory) (buffer content : Memory) (files : ℕ → Option ContainerFile)
    (opens : ℕ → Bool)
    → ((k : ℕ) → opens k ≡ true)
    → IsValid (new_data_write pool buffer content files opens)
unfolding new_data_write read_cache
new_data_write-IsValid pool buffer content files opens all_open = record {
  filled = refl;
  numbered = refl;
  fits = omega arith;
  cache = read_cache-IsCoherent (contents files) pool;
  cached = tt;
  filed = λ k h. absurd (omega arith);
  opens = all_open;
}

module _ (lz4_decompress_safe inflate_decompress : Bytes → Bytes)
    (xd3_decode : Bytes → Bytes → Bytes) (hash : Bytes → Bytes) (Seen : Bytes → Type 0) where
  abbrev Kept : Dedup → List Blob → (String → Bytes) → Type 0
  Kept = IsDeduped lz4_decompress_safe inflate_decompress xd3_decode hash Seen

  Kept-congr :
      (d : Dedup) (blobs : List Blob) (files files' : String → Bytes)
      → ((k : String) → files k ≡ files' k)
      → Kept d blobs files
      → Kept d blobs files'
  Kept-congr d blobs files files' same v = record {
    serves = v.serves;
    plain = v.plain;
    counted = v.counted;
    indexed = v.indexed;
    found = v.found;
    recipes = λ k.
        subst
          (Spells lz4_decompress_safe inflate_decompress xd3_decode true blobs
            (d.data_write.recipe_map k))
          (same k) (v.recipes k);
  }

  -- A new program has backed up nothing.
  pub new_dedup-IsDeduped :
      (pool : ℕ → Memory) (buffer content : Memory) (files : ℕ → Option ContainerFile)
      (opens : ℕ → Bool)
      → ((k : ℕ) → opens k ≡ true)
      → Kept (new_dedup (new_data_write pool buffer content files opens)) [] (λ k. [])
  unfolding new_dedup new_data_write
  new_dedup-IsDeduped pool buffer content files opens all_open = record {
    serves = record {
      valid =
          unfold new_data_write in new_data_write-IsValid pool buffer content files opens all_open;
      all = tt;
      codec = refl;
    };
    plain = tt;
    counted = refl;
    indexed = tt;
    found = λ i b e. absurd (ground arith);
    recipes = λ k. nothing;
  }

  module _ (lz4_compress_fast : Bytes → Bytes)
      (no_collision : (x y : Bytes) → Seen x → Seen y → hash x ≡ hash y → x ≡ y)
      (lz4_fits : (x : Bytes) → length (lz4_compress_fast x) ≤ length x)
      (lz4_inverse : (x : Bytes)
        → 0 < length (lz4_compress_fast x)
        → lz4_decompress_safe (lz4_compress_fast x) ≡ x) where
    -- Deduplication of a stream of chunks runs through and keeps the store, the fingerprint index,
    -- the counter of unique chunks and the recipes in step: each entry of the index names a stored
    -- chunk of that hash, and each stored chunk is found under its hash; the current file grows by
    -- the chunks, the other recipes spell what they did. Assumes chunks of at most a container that
    -- are no header chunks, no hash collision among them, and a codec that undoes its compression
    -- and never makes a chunk longer.
    pub process_trace-IsDeduped :
        (d : Dedup) (blobs : List Blob) (files : String → Bytes) (cs : List Chunk)
        → Kept d blobs files
        → AllIncoming Seen cs
        → (d' : Dedup) × (blobs' : List Blob) × (process_trace hash lz4_compress_fast d cs
            ≡ some d')
          × Kept d' blobs' (backed_up files d.data_write.filename (joined cs))
          × (d'.data_write.filename ≡ d.data_write.filename)
    unfolding process_trace
    process_trace-IsDeduped d blobs files [] v a = (
      d,
      blobs,
      refl,
      Kept-congr d blobs files (backed_up files d.data_write.filename [])
          (backed_up-nothing files d.data_write.filename) v,
      refl,
    )
    process_trace-IsDeduped d blobs files (c ∷ cs) v a =
        let (d1, blobs1, run, v1, name) =
          process_chunk-IsDeduped lz4_decompress_safe inflate_decompress xd3_decode hash Seen
            lz4_compress_fast no_collision lz4_fits lz4_inverse d blobs files c v a.0 in
        let n = d.data_write.filename in
        let (d2, blobs2, run2, v2, name2) =
          process_trace-IsDeduped d1 blobs1 (backed_up files n c.chunk_ptr) cs v1 a.1 in
        let v3 : Kept d2 blobs2 (backed_up (backed_up files n c.chunk_ptr) n (joined cs)) =
          subst (λ m. Kept d2 blobs2 (backed_up (backed_up files n c.chunk_ptr) m (joined cs))) name
            v2 in
        (
          d2,
          blobs2,
          rw (process_trace, run) run2,
          Kept-congr d2 blobs2 _ (backed_up files n (joined (c ∷ cs)))
              (backed_up-append files n c.chunk_ptr (joined cs)) v3,
          name2 ∙ name,
        )

    -- For chunks of at most a container that are no header chunks and whose hashes do not collide,
    -- with a codec that undoes its compression and never makes a chunk longer: the loop runs
    -- through, and then every file is restored, the current one as what it was before and the
    -- chunks' bytes, each other one as it was.
    pub restore_file-process_trace :
        (d : Dedup) (blobs : List Blob) (files : String → Bytes) (cs : List Chunk) (name : String)
        → Kept d blobs files
        → AllIncoming Seen cs
        → (d' : Dedup) × (st : DataWrite) × (process_trace hash lz4_compress_fast d cs ≡ some d')
          × (restore_file lz4_decompress_safe inflate_decompress xd3_decode d'.data_write name
              ≡ some (backed_up files d.data_write.filename (joined cs) name, st))
    unfolding restore_file
    restore_file-process_trace d blobs files cs name v a =
        let (d', blobs', run, v', _) = process_trace-IsDeduped d blobs files cs v a in
        let (st, back, _, _) =
          restored_lem lz4_decompress_safe inflate_decompress xd3_decode true blobs' d'.data_write
            (d'.data_write.recipe_map name) (backed_up files d.data_write.filename (joined cs) name)
            v'.serves (v'.recipes name) in
        (d', st, run, back)
