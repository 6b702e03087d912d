-- ===== src/Restore/Files.antt =====
-- Restoring gives back what a recipe stands for.
use bi_search.Base.{
  ℕ, ◌≡◌, refl, sym, ap, ◌∙◌, subst, Bool, true, false, Option, some, List, [], ◌∷◌, arith, Bytes,
  length, copy, copy_all, get_elem?,
}
use bi_search.Types.{
  Chunk, DeltaType, no_delta, no_lz4, delta, finesse_to_base, finesse_delta, local_delta, is_whole,
  is_no_delta,
}
use bi_search.Store.{DataWrite}
use bi_search.Store.Fetch.{get_chunk_info}
use bi_search.Store.Stored.{Blob, Entry, Frame, Frame-trans}
use bi_search.Store.Deliver.{unpacked}
use bi_search.Store.Read.{get_chunk_info_lem}
use bi_search.Restore.{restored_delta, restored_chunk, restored}
use bi_search.Restore.Originals.{Serves, IsOriginal, whole, from_base, Spells, nothing, next}

module _ (lz4_decompress_safe inflate_decompress : Bytes → Bytes)
    (xd3_decode : Bytes → Bytes → Bytes) (lz4 : Bool) (blobs : List Blob) where
  -- Fetching, with what the store promises before and after.
  fetch :
      (st : DataWrite) (id : ℕ) (b : Blob)
      → Serves lz4 blobs st
      → get_elem? blobs id ≡ some b
      → (is_no_delta b.flag ≡ true
          → length (unpacked lz4_decompress_safe inflate_decompress lz4 b) ≡ b.size)
      → (c : Chunk) × (st' : DataWrite) × (get_chunk_info lz4_decompress_safe inflate_decompress st
            id
          ≡ some (c, st'))
        × (c.chunk_ptr ≡ unpacked lz4_decompress_safe inflate_decompress lz4 b)
        × Entry st' c b
        × Serves lz4 blobs st'
        × Frame st st'
  fetch st id b s known size =
      let size' : is_no_delta b.flag ≡ true
          → length (unpacked lz4_decompress_safe inflate_decompress st.lz4_compress b) ≡ b.size =
        subst
          (λ z.
            is_no_delta b.flag ≡ true
            → length (unpacked lz4_decompress_safe inflate_decompress z b) ≡ b.size)
          (sym s.codec) size in
      let (r, run, f) =
        get_chunk_info_lem lz4_decompress_safe inflate_decompress st blobs id b s.valid s.all known
          size' in
      (
        r.0,
        r.1,
        run,
        f.bytes ∙ ap (λ z. unpacked lz4_decompress_safe inflate_decompress z b) s.codec,
        f.entry,
        record { valid = f.valid; all = f.stored; codec = f.frame.codec ∙ s.codec },
        f.frame,
      )

  abbrev pub Gives : Option (Bytes × DataWrite) → DataWrite → Bytes → Type 0
  Gives o st x = (st' : DataWrite) × (o ≡ some (x, st')) × Serves lz4 blobs st' × Frame st st'

  not_packed : (f : DeltaType) → is_whole f ≡ false → is_no_delta f ≡ false
  unfolding is_whole is_no_delta
  not_packed no_delta e = e
  not_packed no_lz4 e = refl
  not_packed delta e = refl
  not_packed finesse_to_base e = refl
  not_packed finesse_delta e = refl
  not_packed local_delta e = refl

  copy_exact : (n : ℕ) (p xs : Bytes) → p ≡ xs → n ≡ length xs → copy n p ≡ xs
  copy_exact n p xs e l = rw (e, l) (copy_all xs)

  -- A packed blob is a whole one.
  delta_unpacked :
      (b : Blob)
      → is_whole b.flag ≡ false
      → (is_no_delta b.flag ≡ false)
        × (unpacked lz4_decompress_safe inflate_decompress lz4 b ≡ b.bytes)
  delta_unpacked b e = let plain = not_packed b.flag e in (plain, rw plain refl)

  pub restored_chunk_lem :
      (st : DataWrite) (id : ℕ) (b : Blob) (x : Bytes)
      → Serves lz4 blobs st
      → get_elem? blobs id ≡ some b
      → IsOriginal lz4_decompress_safe inflate_decompress xd3_decode lz4 blobs b x
      → Gives (restored_chunk lz4_decompress_safe inflate_decompress xd3_decode st id) st x
  unfolding restored_chunk
  restored_chunk_lem st id b x s known (whole f u l) =
      let (c, st', run, bytes, entry, s', frame) = fetch st id b s known (λ p. ap length u ∙ l) in
      let flag : is_whole c.delta_flag ≡ true = ap is_whole entry.flag ∙ f in
      let size : c.chunk_size ≡ length x = entry.size ∙ sym l in
      (st', rw (restored_chunk, run, flag, bytes, u, size, copy_all x) refl, s', frame)
  restored_chunk_lem st id b x s known (from_base {k} {base} {y} f k_base base_known u l d n) =
      let (packed, plain) = delta_unpacked b f in
      let (c, st1, run, bytes, entry, s1, frame) =
        fetch st id b s known (λ p. absurd (ground arith)) in
      let (c2, st2, run2, bytes2, entry2, s2, frame2) =
        fetch st1 k base s1 base_known (λ p. ap length u ∙ l) in
      let flag : is_whole c.delta_flag ≡ false = ap is_whole entry.flag ∙ f in
      let base_id : c.basechunk_id ≡ some k = entry.base ∙ k_base in
      let input : copy c.save_size c.chunk_ptr ≡ b.bytes =
        copy_exact c.save_size c.chunk_ptr b.bytes (bytes ∙ plain) (sym entry.save_size) in
      let reference : copy c2.chunk_size c2.chunk_ptr ≡ y =
        copy_exact c2.chunk_size c2.chunk_ptr y (bytes2 ∙ u) (entry2.size ∙ sym l) in
      let output : copy c.chunk_size x ≡ x =
        copy_exact c.chunk_size x x refl (entry.size ∙ sym n) in
      (
        st2,
        rw (restored_chunk, run, flag, restored_delta, base_id, run2, input, reference, d, output)
            refl,
        s2,
        Frame-trans frame frame2,
      )

  -- A recipe that spells a file over the blobs of a well-formed store is restored to the file; the
  -- store is still well formed, with the same recipes.
  pub restored_lem :
      (st : DataWrite) (ids : List ℕ) (x : Bytes)
      → Serves lz4 blobs st
      → Spells lz4_decompress_safe inflate_decompress xd3_decode lz4 blobs ids x
      → (st' : DataWrite) × (restored lz4_decompress_safe inflate_decompress xd3_decode st ids
          ≡ some (x, st'))
        × Serves lz4 blobs st'
        × Frame st st'
  unfolding restored
  restored_lem st [] _ s nothing =
      (st, refl, s, record { codec = refl; name = refl; recipes = refl; header_recipes = refl })
  restored_lem st (id ∷ ids) _ s (next {b = b} {x = x} {y = y} known o rest) =
      let (st1, run, s1, frame) = restored_chunk_lem st id b x s known o in
      let (st2, run2, s2, frame2) = restored_lem st1 ids y s1 rest in
      (st2, rw (restored, run, run2) refl, s2, Frame-trans frame frame2)
