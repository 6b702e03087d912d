-- ===== src/Dedup/Unique.antt =====
-- A new chunk: compressed or as it is, it joins the store as the next entry.
use bi_search.Base.{
  ℕ, ◌≤◌, ◌<◌, ◌≡◌, refl, ap, ◌∙◌, inl, inr, true, false, List, [], ◌∷◌, ◌++◌, arith, Bytes, length,
  copy, copy_all, ◌==◌, Bool-cases, ==→ne,
}
use bi_search.Config.{container_max_size}
use bi_search.Types.{Chunk, no_delta, no_lz4, is_no_delta, is_whole}
use bi_search.Store.{DataWrite, chunk_insert, chunk_insert_lz4}
use bi_search.Store.Stored.{Blob, Frame}
use bi_search.Store.Deliver.{unpacked}
use bi_search.Store.Insert.{blob_of, chunk_insert-IsValid, chunk_insert_lz4-IsValid}
use bi_search.Restore.Originals.{Serves}
use bi_search.Dedup.{Dedup, compressed, assign_container, store_chunk, is_no_lz4}
use bi_search.Dedup.Invariant.{IsPlain}

copy_whole : (n : ℕ) (xs : Bytes) → n ≡ length xs → copy n xs ≡ xs
copy_whole n xs e = rw e (copy_all xs)

module _ (lz4_decompress_safe inflate_decompress : Bytes → Bytes)
    (xd3_decode : Bytes → Bytes → Bytes) (hash : Bytes → Bytes) (Seen : Bytes → Type 0)
    (lz4_compress_fast : Bytes → Bytes) where
  -- How a chunk is ready to be stored: incompressible and whole, or with its compressed size.
  pub data IsPacked (c : Chunk) : Type 0 where
    as_it_is : c.delta_flag ≡ no_lz4 → c.save_size ≡ c.chunk_size → IsPacked c
    packed :
        c.delta_flag ≡ no_delta
        → 0 < length (lz4_compress_fast c.chunk_ptr)
        → c.save_size ≡ length (lz4_compress_fast c.chunk_ptr)
        → IsPacked c

  -- The store has the chunk as its next entry.
  pub record IsAdded (st st' : DataWrite) (blobs : List Blob) (x : Bytes) (b : Blob) : Type 0 where
    pub serves : Serves true (blobs ++ b ∷ []) st'
    pub plain : IsPlain lz4_decompress_safe inflate_decompress xd3_decode hash Seen (length blobs) b
    pub original : unpacked lz4_decompress_safe inflate_decompress true b ≡ x
    pub frame : Frame st st'

  module _ (lz4_fits : (x : Bytes) → length (lz4_compress_fast x) ≤ length x)
      (lz4_inverse : (x : Bytes)
        → 0 < length (lz4_compress_fast x)
        → lz4_decompress_safe (lz4_compress_fast x) ≡ x) where
    pub store_chunk-IsAdded :
        (st : DataWrite) (blobs : List Blob) (c : Chunk)
        → Serves true blobs st
        → length c.chunk_ptr ≡ c.chunk_size
        → c.chunk_size ≤ container_max_size
        → c.header_flag ≡ false
        → c.chunk_id ≡ length blobs
        → IsPacked c
        → (b : Blob) × IsAdded st (store_chunk hash lz4_compress_fast st c) blobs c.chunk_ptr b
    unfolding store_chunk is_no_lz4 is_no_delta is_whole
    store_chunk-IsAdded st blobs c s whole fits data_chunk id (as_it_is flag saved) =
        let all_of_it : copy c.save_size c.chunk_ptr ≡ c.chunk_ptr =
          copy_whole c.save_size c.chunk_ptr (omega arith) in
        let plain_flag : is_no_delta c.delta_flag ≡ false = rw flag refl in
        let (v, a, frame) =
          chunk_insert-IsValid st c blobs plain_flag s.valid s.all (omega arith) in
        let same : store_chunk hash lz4_compress_fast st c ≡ chunk_insert st c = rw flag refl in
        let got : unpacked lz4_decompress_safe inflate_decompress true
              (blob_of c (copy c.save_size c.chunk_ptr))
            ≡ c.chunk_ptr =
          rw plain_flag all_of_it in
        (
          blob_of c (copy c.save_size c.chunk_ptr),
          rw same (record {
            serves = record { valid = v; all = a; codec = frame.codec ∙ s.codec };
            plain = record {
              chunk_id = id;
              whole = rw flag refl;
              size = ap length got ∙ whole;
              header = data_chunk;
            };
            original = got;
            frame = frame;
          }),
        )
    store_chunk-IsAdded st blobs c s whole fits data_chunk id (packed flag some_bytes saved) =
        let buffer = lz4_compress_fast c.chunk_ptr in
        let all_of_it : copy c.save_size buffer ≡ buffer = copy_whole c.save_size buffer saved in
        let packed_flag : is_no_delta c.delta_flag ≡ true = rw flag refl in
        let (v, a, frame) =
          chunk_insert_lz4-IsValid st c buffer blobs s.valid s.all
            (omega (arith, lz4_fits c.chunk_ptr)) in
        let same : store_chunk hash lz4_compress_fast st c ≡ chunk_insert_lz4 st c buffer =
          rw flag refl in
        let got : unpacked lz4_decompress_safe inflate_decompress true
              (blob_of c (copy c.save_size buffer))
            ≡ c.chunk_ptr =
          rw (packed_flag, all_of_it) (lz4_inverse c.chunk_ptr some_bytes) in
        (
          blob_of c (copy c.save_size buffer),
          rw same (record {
            serves = record { valid = v; all = a; codec = frame.codec ∙ s.codec };
            plain = record {
              chunk_id = id;
              whole = rw flag refl;
              size = ap length got ∙ whole;
              header = data_chunk;
            };
            original = got;
            frame = frame;
          }),
        )

  -- What the store is given for a new chunk.
  pub record IsPrepared (c c' : Chunk) (id : ℕ) : Type 0 where
    pub bytes : c'.chunk_ptr ≡ c.chunk_ptr
    pub size : c'.chunk_size ≡ c.chunk_size
    pub header : c'.header_flag ≡ c.header_flag
    pub chunk_id : c'.chunk_id ≡ id
    pub packed : IsPacked c'

  placed : (d : Dedup) (c : Chunk) → IsPacked c → IsPacked (assign_container d c).1
  unfolding assign_container
  placed d c (as_it_is f s) = as_it_is f s
  placed d c (packed f p s) = packed f p s

  compressed-IsPrepared :
      (c : Chunk) (id : ℕ) → IsPrepared c (compressed hash lz4_compress_fast c id) id
  unfolding compressed
  compressed-IsPrepared c id = elim (Bool-cases (length (lz4_compress_fast c.chunk_ptr) == 0)) [
    | inl nothing_won ↦ rw nothing_won (record {
      bytes = refl;
      size = refl;
      header = refl;
      chunk_id = refl;
      packed = as_it_is refl refl;
    })
    | inr some_won ↦ rw some_won (record {
      bytes = refl;
      size = refl;
      header = refl;
      chunk_id = refl;
      packed = packed refl (omega (arith, ==→ne _ _ some_won)) refl;
    })
  ]

  pub assign_container-IsPrepared :
      (d : Dedup) (c : Chunk) (id : ℕ)
      → IsPrepared c (assign_container d (compressed hash lz4_compress_fast c id)).1 id
  unfolding assign_container
  assign_container-IsPrepared d c id =
      let p = compressed-IsPrepared c id in
      record {
        bytes = p.bytes;
        size = p.size;
        header = p.header;
        chunk_id = p.chunk_id;
        packed =
            unfold assign_container in placed d (compressed hash lz4_compress_fast c id) p.packed;
      }
