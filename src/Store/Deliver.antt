-- ===== src/Store/Deliver.antt =====
-- A chunk found in a container is handed out with its bytes, and the store stays well formed.
use bi_search.Base.{
  ℕ, ◌≡◌, refl, sym, ap, ◌∙◌, inl, inr, Bool, true, false, some, List, Bytes, Memory, length,
  read_at, get_elem?, read_at-write_at, if◌then◌else◌, Bool-cases,
}
use bi_search.Types.{Chunk, is_no_delta}
use bi_search.Store.{DataWrite}
use bi_search.Store.Fetch.{decompress, decoded, deliver}
use bi_search.Store.Stored.{
  Stored, in_memory, in_file, Blob, Entry, AllStored, IsValid, Frame, Entry-mono, AllStored-mono,
  AllStored-set,
}

module _ (lz4_decompress_safe inflate_decompress : Bytes → Bytes) where
  -- What a client gets for a blob: a base chunk decompressed, any other as it is stored.
  abbrev pub unpacked : Bool → Blob → Bytes
  unpacked lz4 b =
      if is_no_delta b.flag
      then decompress lz4_decompress_safe inflate_decompress lz4 b.bytes
      else b.bytes

  -- A chunk was handed out with the right bytes, and the store is as good as before.
  pub record IsFetched (st : DataWrite) (blobs : List Blob) (b : Blob) (r : Chunk × DataWrite)
      : Type 0 where
    pub bytes : r.0.chunk_ptr ≡ unpacked st.lz4_compress b
    pub entry : Entry r.1 r.0 b
    pub valid : IsValid r.1
    pub stored : AllStored r.1 r.1.chunklist blobs
    pub frame : Frame st r.1

  -- A new chunk list and buffer, and new pointers, leave the stored bytes where they are.
  moved :
      (st : DataWrite) (list : List Chunk) (buffer : Memory) (c : Chunk) (ptr : Bytes)
      (loaded : Bool) (bs : Bytes)
      → Stored st c bs
      → Stored
          (record st { chunklist = list; lz4_safe_chunk_buffer = buffer })
          (record c { chunk_ptr = ptr; load_from_disk = loaded })
          bs
  moved st list buffer c ptr loaded bs (in_memory n o r) = in_memory n o r
  moved st list buffer c ptr loaded bs (in_file n o r) = in_file n o r

  repointed :
      (st : DataWrite) (c : Chunk) (ptr : Bytes) (loaded : Bool) (bs : Bytes)
      → Stored st c bs
      → Stored st (record c { chunk_ptr = ptr; load_from_disk = loaded }) bs
  repointed st c ptr loaded bs (in_memory n o r) = in_memory n o r
  repointed st c ptr loaded bs (in_file n o r) = in_file n o r

  moved-Entry :
      (st : DataWrite) (list : List Chunk) (buffer : Memory) (c : Chunk) (ptr : Bytes)
      (loaded : Bool) (b : Blob)
      → Entry st c b
      → Entry
          (record st { chunklist = list; lz4_safe_chunk_buffer = buffer })
          (record c { chunk_ptr = ptr; load_from_disk = loaded })
          b
  moved-Entry st list buffer c ptr loaded b =
      Entry-mono (moved st list buffer c ptr loaded b.bytes) refl refl refl refl refl refl

  module _ (st : DataWrite) (blobs : List Blob) (id : ℕ) (c : Chunk) (b : Blob) (valid : IsValid st)
      (all : AllStored st st.chunklist blobs) (listed : get_elem? st.chunklist id ≡ some c)
      (entry : Entry st c b)
      (size : is_no_delta b.flag ≡ true → length (unpacked st.lz4_compress b) ≡ b.size)
      (container : Memory) (fresh : Bool)
      (found : read_at container c.offset (length b.bytes) ≡ b.bytes) where
    unzipped : Bytes
    unzipped = decompress lz4_decompress_safe inflate_decompress st.lz4_compress b.bytes

    read_decoded :
        read_at (decoded lz4_decompress_safe inflate_decompress st c container) 0 (length unzipped)
        ≡ unzipped
    unfolding decoded unzipped
    read_decoded =
        rw (← entry.save_size, found)
          (read_at-write_at st.lz4_safe_chunk_buffer 0
            (decompress lz4_decompress_safe inflate_decompress st.lz4_compress b.bytes))

    deliver-bytes :
        (deliver lz4_decompress_safe inflate_decompress st id c container fresh).0.chunk_ptr
        ≡ unpacked st.lz4_compress b
    unfolding deliver
    deliver-bytes = elim (Bool-cases (is_no_delta c.delta_flag)) [
      | inl base ↦
          let p : is_no_delta b.flag ≡ true = sym (ap is_no_delta entry.flag) ∙ base in
          let unpack : unpacked st.lz4_compress b ≡ unzipped = unfold unzipped in rw p in
          let len : c.chunk_size ≡ length unzipped = entry.size ∙ sym (size p) ∙ ap length unpack in
          rw (deliver, base, len) (read_decoded ∙ sym unpack)
      | inr other ↦
          let p : is_no_delta b.flag ≡ false = sym (ap is_no_delta entry.flag) ∙ other in
          rw (deliver, other, ← entry.save_size, p) found
    ]

    pub deliver-IsFetched :
        IsFetched st blobs b
          (deliver lz4_decompress_safe inflate_decompress st id c container fresh)
    unfolding deliver
    deliver-IsFetched = record {
      bytes = deliver-bytes;
      entry = moved-Entry st _ _ c _ _ b entry;
      valid = record {
        filled = valid.filled;
        numbered = valid.numbered;
        fits = valid.fits;
        cache = valid.cache;
        cached = valid.cached;
        filed = valid.filed;
        opens = valid.opens;
      };
      stored =
          AllStored-set _ st.chunklist blobs id
            (AllStored-mono st _ (λ d bs. moved st _ _ d d.chunk_ptr d.load_from_disk bs)
              st.chunklist blobs all)
            listed (λ b'. Entry-mono (repointed _ c _ _ b'.bytes) refl refl refl refl refl refl);
      frame = record { codec = refl; name = refl; recipes = refl; header_recipes = refl };
    }
