-- ===== src/Store/RoundTrip.antt =====
-- What the store promises: a chunk that is inserted is fetched back, whatever follows.
use bi_search.Base.{
  ◌≤◌, ◌≡◌, refl, ap, ◌∙◌, subst, true, false, some, List, [], ◌∷◌, ◌++◌, arith, Bytes, length,
  copy, get_elem?-append_last, copy_all,
}
use bi_search.Config.{container_max_size}
use bi_search.Types.{Chunk, is_no_delta}
use bi_search.Store.{DataWrite, chunk_insert, chunk_insert_lz4}
use bi_search.Store.Fetch.{decompress, get_chunk_info}
use bi_search.Store.Deliver.{unpacked}
use bi_search.Store.Read.{get_chunk_info_lem}
use bi_search.Store.Stored.{Blob, AllStored, IsValid}
use bi_search.Store.Insert.{blob_of, chunk_insert-IsValid, chunk_insert_lz4-IsValid}

module _ (lz4_decompress_safe inflate_decompress : Bytes → Bytes) where
  -- A compressed base chunk that goes into a well-formed store is fetched under the next index
  -- with its original bytes, if the codec in use decompresses its stored bytes to them.
  pub get_chunk_info-chunk_insert_lz4 :
      (st : DataWrite) (chunk : Chunk) (blobs : List Blob) (lz4_buffer : Bytes)
      → IsValid st
      → AllStored st st.chunklist blobs
      → is_no_delta chunk.delta_flag ≡ true
      → length chunk.chunk_ptr ≡ chunk.chunk_size
      → length lz4_buffer ≡ chunk.save_size
      → chunk.save_size ≤ container_max_size
      → decompress lz4_decompress_safe inflate_decompress st.lz4_compress lz4_buffer
        ≡ chunk.chunk_ptr
      → (r : Chunk × DataWrite) × (get_chunk_info lz4_decompress_safe inflate_decompress
            (chunk_insert_lz4 st chunk lz4_buffer)
            (length blobs)
          ≡ some r)
        × (r.0.chunk_ptr ≡ chunk.chunk_ptr)
        × IsValid r.1
        × AllStored r.1 r.1.chunklist (blobs ++ blob_of chunk lz4_buffer ∷ [])
  get_chunk_info-chunk_insert_lz4 st chunk blobs lz4_buffer v a packed whole saved small codec =
      let (v', a', frame) = chunk_insert_lz4-IsValid st chunk lz4_buffer blobs v a small in
      let all_of_it : copy chunk.save_size lz4_buffer ≡ lz4_buffer =
        rw (← saved) (copy_all lz4_buffer) in
      let b = blob_of chunk (copy chunk.save_size lz4_buffer) in
      let st' = chunk_insert_lz4 st chunk lz4_buffer in
      let got : unpacked lz4_decompress_safe inflate_decompress st'.lz4_compress b
          ≡ chunk.chunk_ptr =
        rw (packed, frame.codec, all_of_it) codec in
      let (r, run, f) =
        get_chunk_info_lem lz4_decompress_safe inflate_decompress st' (blobs ++ b ∷ [])
          (length blobs) b v' a' (get_elem?-append_last blobs b) (λ p. ap length got ∙ whole) in
      (
        r,
        run,
        f.bytes ∙ got,
        f.valid,
        subst (λ xs. AllStored r.1 r.1.chunklist (blobs ++ blob_of chunk xs ∷ [])) all_of_it
            f.stored,
      )

  -- A chunk that goes into a well-formed store as it is, a delta or an incompressible chunk, is
  -- fetched under the next index with the bytes that went in.
  pub get_chunk_info-chunk_insert :
      (st : DataWrite) (chunk : Chunk) (blobs : List Blob)
      → IsValid st
      → AllStored st st.chunklist blobs
      → is_no_delta chunk.delta_flag ≡ false
      → length chunk.chunk_ptr ≡ chunk.save_size
      → chunk.save_size ≤ container_max_size
      → (r : Chunk × DataWrite) × (get_chunk_info lz4_decompress_safe inflate_decompress
            (chunk_insert st chunk)
            (length blobs)
          ≡ some r)
        × (r.0.chunk_ptr ≡ chunk.chunk_ptr)
        × IsValid r.1
        × AllStored r.1 r.1.chunklist (blobs ++ blob_of chunk chunk.chunk_ptr ∷ [])
  get_chunk_info-chunk_insert st chunk blobs v a plain saved small =
      let (v', a', frame) = chunk_insert-IsValid st chunk blobs plain v a small in
      let all_of_it : copy chunk.save_size chunk.chunk_ptr ≡ chunk.chunk_ptr =
        rw (← saved) (copy_all chunk.chunk_ptr) in
      let b = blob_of chunk (copy chunk.save_size chunk.chunk_ptr) in
      let st' = chunk_insert st chunk in
      let got : unpacked lz4_decompress_safe inflate_decompress st'.lz4_compress b
          ≡ chunk.chunk_ptr =
        rw (plain, all_of_it) refl in
      let (r, run, f) =
        get_chunk_info_lem lz4_decompress_safe inflate_decompress st' (blobs ++ b ∷ [])
          (length blobs) b v' a' (get_elem?-append_last blobs b) (λ p. ground arith) in
      (
        r,
        run,
        f.bytes ∙ got,
        f.valid,
        subst (λ xs. AllStored r.1 r.1.chunklist (blobs ++ blob_of chunk xs ∷ [])) all_of_it
            f.stored,
      )
