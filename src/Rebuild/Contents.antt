-- ===== src/Rebuild/Contents.antt =====
-- The content behind a header comes out of the next chunks of the recipe.
use bi_search.Base.{
  ℕ, ◌+◌, ◌-◌, ◌%◌, ◌^◌, ◌<◌, ◌≡◌, ◌⊎◌, refl, sym, ap, ◌∙◌, subst, inl, inr, Bool, true, false,
  ◌||◌, some, List, [], ◌∷◌, ◌++◌, arith, Bytes, ◌==◌, length, length-append, get_elem?, Bool-cases,
  ne→==,
}
use bi_search.Config.{container_max_size}
use bi_search.Store.{DataWrite}
use bi_search.Store.Stored.{Blob, Frame, Frame-trans}
use bi_search.Tar.{file_chunk, file_header, big_chunk, is_big, is_file_chunk}
use bi_search.Tar.Archive.{Entry}
use bi_search.Restore.{restored_chunk}
use bi_search.Restore.Originals.{Serves, IsOriginal}
use bi_search.Restore.Files.{restored_chunk_lem}
use bi_search.Segment.Layout.{PartsOf, none_left, part, Chunked, whole_some, parts_nil}
use bi_search.Segment.Due.{length_zero}
use bi_search.Rebuild.{Rebuild, restored_big, restored_content, is_empty}
use bi_search.Rebuild.Header.{Says, no_content, one_chunk, parts}

module _ (lz4_decompress_safe inflate_decompress : Bytes → Bytes)
    (xd3_decode : Bytes → Bytes → Bytes) (lz4 : Bool) (blobs : List Blob) where
  -- The chunks of a recipe, one by one.
  pub data Lists : List ℕ → List Bytes → Type 0 where
    no_chunks : Lists [] []
    next_chunk :
        {id : ℕ} {b : Blob} {ids : List ℕ} {x : Bytes} {xs : List Bytes}
        → get_elem? blobs id ≡ some b
        → IsOriginal lz4_decompress_safe inflate_decompress xd3_decode lz4 blobs b x
        → Lists ids xs
        → Lists (id ∷ ids) (x ∷ xs)

  no_ids : {ids : List ℕ} → Lists ids [] → ids ≡ []
  no_ids no_chunks = refl

  -- The chunks of a big file, up to its size.
  restored_big-PartsOf :
      (st : DataWrite) (c : Bytes) (ys : List Bytes) (zs : List Bytes) (ids : List ℕ)
      → Serves lz4 blobs st
      → PartsOf c ys
      → length c < 2 ^ 64
      → Lists ids (ys ++ zs)
      → (st' : DataWrite) × (ids' : List ℕ) × (restored_big lz4_decompress_safe inflate_decompress
            xd3_decode
            (length c)
            st
            ids
          ≡ some (c, st', ids'))
        × Serves lz4 blobs st'
        × Frame st st'
        × Lists ids' zs
  unfolding restored_big
  restored_big-PartsOf st _ _ zs [] s none_left small l = (
    st,
    [],
    refl,
    s,
    record { codec = refl; name = refl; recipes = refl; header_recipes = refl },
    l,
  )
  restored_big-PartsOf st _ _ zs [] s (part some_bytes p) small l = elim l [ ]
  restored_big-PartsOf st _ _ zs (id ∷ ids) s none_left small l = (
    st,
    id ∷ ids,
    refl,
    s,
    record { codec = refl; name = refl; recipes = refl; header_recipes = refl },
    l,
  )
  restored_big-PartsOf st _ _ zs (id ∷ ids) s (part {x} {c} {xs} some_bytes p) small
        (next_chunk {b = b} known o l) =
      let (st1, run1, s1, frame1) =
        restored_chunk_lem lz4_decompress_safe inflate_decompress xd3_decode lz4 blobs st id b x s
          known o in
      let long : length (x ++ c) ≡ length x + length c = length-append x c in
      let (st2, ids', run2, s2, frame2, rest) =
        restored_big-PartsOf st1 c xs zs ids s1 p (omega (arith, long)) l in
      let more : (length (x ++ c) == 0) ≡ false = ne→== _ _ (λ z. omega (arith, z, long)) in
      let left : (length (x ++ c) + 2 ^ 64 - length x) % 2 ^ 64 ≡ length c = omega (arith, long) in
      (
        st2,
        ids',
        rw (restored_big, more, run1, left, run2) refl,
        s2,
        Frame-trans frame1 frame2,
        rest,
      )

  -- After the content of an entry the recipe goes on behind its chunks.
  pub record Goes (r : Rebuild) (e : Entry) (zs : List Bytes) : Type 0 where
    pub store : DataWrite
    pub ids : List ℕ
    pub run :
        restored_content lz4_decompress_safe inflate_decompress xd3_decode r
        ≡ some (e.content, record r { data_write = store; data_left = ids })
    pub serves : Serves lz4 blobs store
    pub frame : Frame r.data_write store
    pub left : Lists ids zs

  nothing_Goes :
      (r : Rebuild) (e : Entry) (zs : List Bytes)
      → Serves lz4 blobs r.data_write
      → length e.content ≡ 0
      → Lists r.data_left zs
      → restored_content lz4_decompress_safe inflate_decompress xd3_decode r ≡ some ([], r)
      → Goes r e zs
  nothing_Goes r e zs s empty l run = record {
    store = r.data_write;
    ids = r.data_left;
    run = run ∙ ap (λ c. some (c, r)) (sym (length_zero e.content empty));
    serves = s;
    frame = record { codec = refl; name = refl; recipes = refl; header_recipes = refl };
    left = l;
  }

  no_content_run :
      (r : Rebuild)
      → ((r.tar.next_chunk_size ≡ 0) ⊎ (r.tar.next_chunk_type ≡ file_header))
      → restored_content lz4_decompress_safe inflate_decompress xd3_decode r ≡ some ([], r)
  unfolding restored_content is_file_chunk is_big
  no_content_run r (inl none_due) = rw (restored_content, none_due) refl
  no_content_run r (inr at) =
      elim (Bool-cases ((r.tar.next_chunk_size == 0) || is_empty r.data_left)) [
        | inl stop ↦ rw (restored_content, stop) refl
        | inr on ↦ rw (restored_content, on, at) refl
      ]

  one_chunk_run :
      (r : Rebuild) (id : ℕ) (ids : List ℕ) (x : Bytes) (st : DataWrite)
      → r.data_left ≡ id ∷ ids
      → r.tar.next_chunk_type ≡ file_chunk
      → 0 < r.tar.next_chunk_size
      → restored_chunk lz4_decompress_safe inflate_decompress xd3_decode r.data_write id
        ≡ some (x, st)
      → restored_content lz4_decompress_safe inflate_decompress xd3_decode r
        ≡ some (x, record r { data_write = st; data_left = ids })
  unfolding restored_content is_file_chunk
  one_chunk_run r id ids x st next at some_due run =
      let due : (r.tar.next_chunk_size == 0) ≡ false = ne→== _ _ (λ z. omega (arith, z)) in
      let file : is_file_chunk r.tar.next_chunk_type ≡ true = rw at refl in
      rw (restored_content, due, next, file, run) refl

  parts_run :
      (r : Rebuild) (id : ℕ) (ids ids' : List ℕ) (x : Bytes) (st : DataWrite)
      → r.data_left ≡ id ∷ ids
      → r.tar.next_chunk_type ≡ big_chunk
      → 0 < r.tar.next_chunk_size
      → restored_big lz4_decompress_safe inflate_decompress xd3_decode r.tar.big_chunk_size
          r.data_write
          (id ∷ ids)
        ≡ some (x, st, ids')
      → restored_content lz4_decompress_safe inflate_decompress xd3_decode r
        ≡ some (x, record r { data_write = st; data_left = ids' })
  unfolding restored_content is_file_chunk is_big
  parts_run r id ids ids' x st next at some_due run =
      let due : (r.tar.next_chunk_size == 0) ≡ false = ne→== _ _ (λ z. omega (arith, z)) in
      let no_file : is_file_chunk r.tar.next_chunk_type ≡ false = rw at refl in
      let big : is_big r.tar.next_chunk_type ≡ true = rw at refl in
      rw (restored_content, due, next, no_file, big, run) refl

  one_chunk_Goes :
      (r : Rebuild) (e : Entry) (zs : List Bytes) (ids : List ℕ)
      → Serves lz4 blobs r.data_write
      → r.tar.next_chunk_type ≡ file_chunk
      → 0 < r.tar.next_chunk_size
      → r.data_left ≡ ids
      → Lists ids (e.content ∷ zs)
      → Goes r e zs
  one_chunk_Goes r e zs [] s at some_due next l = elim l [ ]
  one_chunk_Goes r e zs (id ∷ ids) s at some_due next (next_chunk {b = b} known o l) =
      let (st, run, s', frame) =
        restored_chunk_lem lz4_decompress_safe inflate_decompress xd3_decode lz4 blobs r.data_write
          id b e.content s known o in
      record {
        store = st;
        ids = ids;
        run = one_chunk_run r id ids e.content st next at some_due run;
        serves = s';
        frame = frame;
        left = l;
      }

  parts_Goes :
      (r : Rebuild) (e : Entry) (ys zs : List Bytes) (ids : List ℕ)
      → Serves lz4 blobs r.data_write
      → r.tar.next_chunk_type ≡ big_chunk
      → 0 < r.tar.next_chunk_size
      → r.tar.big_chunk_size ≡ length e.content
      → 0 < length e.content
      → length e.content < 2 ^ 64
      → r.data_left ≡ ids
      → PartsOf e.content ys
      → Lists ids (ys ++ zs)
      → Goes r e zs
  parts_Goes r e ys zs [] s at some_due size some_bytes small next p l =
      absurd (omega (arith, no_parts e.content ys p some_bytes l))
    where
      no_parts :
          (c : Bytes) (ys : List Bytes) → PartsOf c ys → 0 < length c → Lists [] (ys ++ zs) → 0 < 0
      no_parts _ _ none_left h l = h
      no_parts _ _ (part some_bytes p) h l = elim l [ ]
  parts_Goes r e ys zs (id ∷ ids) s at some_due size some_bytes small next p l =
      let (st, ids', run, s', frame, left) =
        restored_big-PartsOf r.data_write e.content ys zs (id ∷ ids) s p small l in
      let due =
        ap
          (λ n.
            restored_big lz4_decompress_safe inflate_decompress xd3_decode n r.data_write
              (id ∷ ids))
          size
        ∙ run in
      record {
        store = st;
        ids = ids';
        run = parts_run r id ids ids' e.content st next at some_due due;
        serves = s';
        frame = frame;
        left = left;
      }

  -- Behind a header that says what its content is, the content is written.
  pub restored_content-Goes :
      (r : Rebuild) (e : Entry) (ys zs : List Bytes)
      → Serves lz4 blobs r.data_write
      → length e.content < 2 ^ 64
      → Says e r.tar
      → Chunked container_max_size e ys
      → Lists r.data_left (ys ++ zs)
      → Goes r e zs
  restored_content-Goes r e ys zs s small (no_content empty none_due) chunked l =
      nothing_Goes r e zs s empty
        (subst (λ b. Lists r.data_left (b ++ zs)) (parts_nil container_max_size chunked.parts empty)
          l)
        (no_content_run r none_due)
  restored_content-Goes r e ys zs s small (one_chunk at some_due some_bytes fits) chunked l =
      one_chunk_Goes r e zs r.data_left s at some_due refl (
        subst (λ b. Lists r.data_left (b ++ zs))
          (chunked.one fits ∙ whole_some container_max_size e.content some_bytes) l)
  restored_content-Goes r e ys zs s small (parts at some_due size some_bytes) chunked l =
      parts_Goes r e ys zs r.data_left s at some_due size some_bytes small refl chunked.parts l
