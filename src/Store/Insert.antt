-- ===== src/Store/Insert.antt =====
-- Inserting a chunk keeps the store well formed and every chunk's bytes.
use bi_search.Base.{
  ℕ, ◌+◌, ◌≤◌, ◌≡◌, refl, sym, ◌∙◌, false, List, [], ◌∷◌, ◌++◌, arith, Bytes, length, copy,
  length-copy, read_at-write_at, read_at-write_at_below, subst,
}
use bi_search.Config.{container_max_size}
use bi_search.Types.{Chunk, is_no_delta}
use bi_search.Store.{
  DataWrite, stored_size, append_chunk, count_chunk, place, chunk_insert, chunk_insert_lz4,
}
use bi_search.Store.Stored.{
  Stored, in_memory, in_file, AllStored, IsValid, Blob, Frame, Frame-trans, AllStored-append,
  AllStored-mono,
}
use bi_search.Store.Roll.{count_chunk-IsValid, count_chunk-Stored, ready, ready-IsReady}

-- The blob that a chunk becomes when these bytes are stored for it.
abbrev pub blob_of : Chunk → Bytes → Blob
blob_of c bytes = record {
  bytes = bytes;
  flag = c.delta_flag;
  chunk_id = c.chunk_id;
  size = c.chunk_size;
  header = c.header_flag;
  base = c.basechunk_id;
}

module _ (st : DataWrite) (v : IsValid st) (chunk : Chunk) (tmp_size : ℕ) (src : Bytes)
    (room : st.cur_offset + tmp_size ≤ container_max_size) where
  append_chunk-IsValid : IsValid (append_chunk st chunk tmp_size src)
  unfolding append_chunk
  append_chunk-IsValid = record {
    filled = omega (arith, v.filled);
    numbered = v.numbered;
    fits = room;
    cache = v.cache;
    cached = v.cached;
    filed = v.filed;
    opens = v.opens;
  }

  append_chunk-Stored :
      (c : Chunk) (b : Bytes) → Stored st c b → Stored (append_chunk st chunk tmp_size src) c b
  unfolding append_chunk
  append_chunk-Stored c b (in_memory n o r) = in_memory n (omega arith) (
      read_at-write_at_below st.cur_container.content st.cur_offset (copy tmp_size src) c.offset
        (length b) o
      ∙ r)
  append_chunk-Stored c b (in_file n o r) = in_file n o r

  append_chunk-AllStored :
      (blobs : List Blob)
      → AllStored st st.chunklist blobs
      → tmp_size ≡ chunk.save_size
      → let st' = append_chunk st chunk tmp_size src in
        AllStored st' st'.chunklist (blobs ++ blob_of chunk (copy tmp_size src) ∷ [])
  append_chunk-AllStored blobs a e =
      unfold append_chunk in
      AllStored-append _ st.chunklist blobs
        (AllStored-mono st _ (unfold append_chunk in append_chunk-Stored) st.chunklist blobs a)
        (record {
          stored =
              in_memory refl (omega (arith, length-copy tmp_size src))
                (read_at-write_at st.cur_container.content st.cur_offset (copy tmp_size src));
          save_size = omega (arith, length-copy tmp_size src);
          flag = refl;
          chunk_id = refl;
          size = refl;
          header = refl;
          base = refl;
        })

count_chunk-Frame : (st : DataWrite) (chunk : Chunk) → Frame st (count_chunk st chunk)
unfolding count_chunk
count_chunk-Frame st chunk = record {
  codec = refl;
  name = refl;
  recipes = refl;
  header_recipes = refl;
}

append_chunk-Frame :
    (st : DataWrite) (chunk : Chunk) (tmp_size : ℕ) (src : Bytes)
    → Frame st (append_chunk st chunk tmp_size src)
unfolding append_chunk
append_chunk-Frame st chunk tmp_size src = record {
  codec = refl;
  name = refl;
  recipes = refl;
  header_recipes = refl;
}

-- Storing a chunk's bytes, at most a container's worth, keeps the store well formed and all that
-- it held, and adds the new bytes as the last entry.
pub place-IsValid :
    (st : DataWrite) (chunk : Chunk) (tmp_size : ℕ) (src : Bytes) (blobs : List Blob)
    → IsValid st
    → AllStored st st.chunklist blobs
    → tmp_size ≤ container_max_size
    → tmp_size ≡ chunk.save_size
    → let st' = place st chunk tmp_size src in
      IsValid st'
      × AllStored st' st'.chunklist (blobs ++ blob_of chunk (copy tmp_size src) ∷ [])
      × Frame st st'
unfolding place ready
place-IsValid st chunk tmp_size src blobs v a h e =
    let counted = count_chunk st chunk in
    let r = ready-IsReady counted tmp_size (count_chunk-IsValid st chunk v) h in
    let held =
      AllStored-mono st (ready counted tmp_size)
        (λ c b s. r.keeps c b (count_chunk-Stored st chunk c b s)) st.chunklist blobs a in
    let list : (ready counted tmp_size).chunklist ≡ st.chunklist =
      r.same ∙ (unfold count_chunk in refl) in
    (
      append_chunk-IsValid _ r.valid chunk tmp_size src r.room,
      append_chunk-AllStored _ r.valid chunk tmp_size src r.room blobs
          (subst (λ l. AllStored (ready counted tmp_size) l blobs) (sym list) held) e,
      Frame-trans (count_chunk-Frame st chunk)
          (Frame-trans r.frame (append_chunk-Frame (ready counted tmp_size) chunk tmp_size src)),
    )

-- Chunk_Insert(chunk), for a chunk that is stored as it is or as a delta.
pub chunk_insert-IsValid :
    (st : DataWrite) (chunk : Chunk) (blobs : List Blob)
    → is_no_delta chunk.delta_flag ≡ false
    → IsValid st
    → AllStored st st.chunklist blobs
    → chunk.save_size ≤ container_max_size
    → let st' = chunk_insert st chunk in
      IsValid st'
      × AllStored st' st'.chunklist
          (blobs ++ blob_of chunk (copy chunk.save_size chunk.chunk_ptr) ∷ [])
      × Frame st st'
unfolding chunk_insert
chunk_insert-IsValid st chunk blobs d v a h =
    let size : stored_size chunk ≡ chunk.save_size = unfold stored_size in rw d in
    rw size (place-IsValid st chunk chunk.save_size chunk.chunk_ptr blobs v a h refl)

-- Chunk_Insert(chunk, lz4Buffer), for a compressed base chunk.
pub chunk_insert_lz4-IsValid :
    (st : DataWrite) (chunk : Chunk) (lz4_buffer : Bytes) (blobs : List Blob)
    → IsValid st
    → AllStored st st.chunklist blobs
    → chunk.save_size ≤ container_max_size
    → let st' = chunk_insert_lz4 st chunk lz4_buffer in
      IsValid st'
      × AllStored st' st'.chunklist (blobs ++ blob_of chunk (copy chunk.save_size lz4_buffer) ∷ [])
      × Frame st st'
unfolding chunk_insert_lz4
chunk_insert_lz4-IsValid st chunk lz4_buffer blobs v a h =
    place-IsValid st chunk chunk.save_size lz4_buffer blobs v a h refl
