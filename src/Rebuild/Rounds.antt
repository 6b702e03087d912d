-- ===== src/Rebuild/Rounds.antt =====
-- A round of the loop of restoreHeaderFile (rebuild), and its end.
use bi_search.Base.{
  ==→eq, ℕ, suc, ◌+◌, ◌^◌, ◌≤◌, ◌<◌, ◌≡◌, refl, ap, ◌∙◌, inl, inr, Bool, true, false, ◌&&◌, some,
  List, [], ◌∷◌, ◌++◌, arith, Bytes, leb, ◌==◌, length, length-append, drop, length-drop, read_at,
  ==_self, le→ltb, Bool-cases,
}
use bi_search.Config.{regtype}
use bi_search.Store.Stored.{Blob}
use bi_search.Tar.{file_header, header_octal, rounded_up, type_flag}
use bi_search.Tar.Archive.{Entry, IsEntry}
use bi_search.Rebuild.{
  Rebuild, rebuilt, written_first, supplement, take_header, restored_content, restore_header,
  rebuild, is_empty, multi_header_room,
}
use bi_search.Rebuild.Contents.{Lists, no_chunks}
use bi_search.Segment.Layout.{AllHeaderChunks, join}
use bi_search.Rebuild.Supply.{Loaded}

-- MultiHeaderBuffer holds no header that is still to come, as between two files.
pub record IsUsedUp (r : Rebuild) : Type 0 where
  pub used : r.multi_header_chunk_size ≡ r.multi_header_offset
  pub fits : r.multi_header_chunk_size ≤ multi_header_room

lt_not_leb : (a b : ℕ) → b < a → leb a b ≡ false
lt_not_leb a b h = ground arith

pub small_content : (e : Entry) → IsEntry e → length e.content < 2 ^ 64
unfolding rounded_up
small_content e v = elim (Bool-cases (type_flag e.header == regtype)) [
  | inl regular ↦
      let size : length e.content ≡ rounded_up (header_octal e.header) =
        v.content ∙ rw regular refl in
      omega (arith, v.size (==→eq _ _ regular), size)
  | inr other ↦ let size : length e.content ≡ 0 = v.content ∙ rw other refl in omega (arith, size)
]

module _ (lz4_decompress_safe inflate_decompress : Bytes → Bytes)
    (xd3_decode : Bytes → Bytes → Bytes) where
  pub take_header_run :
      (r : Rebuild) (h : Bytes)
      → read_at r.multi_header_buffer r.multi_header_offset 512 ≡ h
      → take_header lz4_decompress_safe inflate_decompress xd3_decode r ≡ (
        h,
        record r {
          tar = restore_header (record r.tar { next_chunk_type = file_header }) h;
          multi_header_offset = r.multi_header_offset + 512;
        },
      )
  unfolding take_header
  take_header_run r h e = rw e refl

  pub rebuild-suc :
      (fuel : ℕ) (r r1 r3 : Rebuild) (bytes : Bytes)
      → (is_empty r.headers_left
          && (is_empty r.data_left && (r.multi_header_chunk_size == r.multi_header_offset)))
        ≡ false
      → supplement lz4_decompress_safe inflate_decompress xd3_decode r ≡ some r1
      → r1.multi_header_offset < r1.multi_header_chunk_size
      → r1.multi_header_offset + 512 ≤ multi_header_room
      → restored_content lz4_decompress_safe inflate_decompress xd3_decode
          (take_header lz4_decompress_safe inflate_decompress xd3_decode r1).1
        ≡ some (bytes, r3)
      → rebuild lz4_decompress_safe inflate_decompress xd3_decode (suc fuel) r
        ≡ written_first
            ((take_header lz4_decompress_safe inflate_decompress xd3_decode r1).0 ++ bytes)
            (rebuild lz4_decompress_safe inflate_decompress xd3_decode fuel r3)
  unfolding rebuild
  rebuild-suc fuel r r1 r3 bytes more run left room content =
      let some_left = lt_not_leb _ _ left in
      rw (rebuild, more, run, some_left, le→ltb _ _ room, content) refl

  rebuild_done :
      (fuel : ℕ) (r : Rebuild)
      → is_empty r.headers_left ≡ true
      → is_empty r.data_left ≡ true
      → (r.multi_header_chunk_size == r.multi_header_offset) ≡ true
      → rebuild lz4_decompress_safe inflate_decompress xd3_decode (suc fuel) r ≡ rebuilt [] r
  unfolding rebuild
  rebuild_done fuel r none_headers none_data used = rw (rebuild, none_headers, none_data, used) refl

  module _ (lz4 : Bool) (blobs : List Blob) where
    -- Nothing is left.
    empty_chunks :
        (hs : List Bytes) (ids : List ℕ)
        → AllHeaderChunks hs
        → length (join hs) ≡ 0
        → Lists lz4_decompress_safe inflate_decompress xd3_decode lz4 blobs ids hs
        → is_empty ids ≡ true
    empty_chunks [] [] vs e no_chunks = refl
    empty_chunks [] (id ∷ ids) vs e l = elim l [ ]
    empty_chunks (h ∷ hs) ids (v, vs) e l =
        absurd (omega (arith, length-append h (join hs), v.whole, v.some_headers))

    pub rebuild_end :
        (fuel : ℕ) (r : Rebuild)
        → Loaded lz4_decompress_safe inflate_decompress xd3_decode lz4 blobs r [] []
        → rebuild lz4_decompress_safe inflate_decompress xd3_decode (suc fuel) r ≡ rebuilt [] r
    rebuild_end fuel r l =
        let long = length-append (drop r.multi_header_offset l.current) (join l.chunks) in
        let none_left : length (drop r.multi_header_offset l.current ++ join l.chunks) ≡ 0 =
          ap length l.stream in
        let left = length-drop r.multi_header_offset l.current in
        let used : (r.multi_header_chunk_size == r.multi_header_offset) ≡ true = rw (l.size) (
          same (length l.current) r.multi_header_offset
            (omega (arith, long, none_left, left, l.within))) in
        rebuild_done fuel r
          (empty_chunks l.chunks r.headers_left l.whole (omega (arith, long, none_left)) l.ids)
          (no_data r.data_left l.contents) used
      where
        same : (a b : ℕ) → a ≡ b → (a == b) ≡ true
        same a b e = rw e (==_self b)

        no_data :
            (ids : List ℕ)
            → Lists lz4_decompress_safe inflate_decompress xd3_decode lz4 blobs ids []
            → is_empty ids ≡ true
        no_data [] no_chunks = refl
        no_data (id ∷ ids) l = elim l [ ]

    pub rebuild_end-IsUsedUp :
        (r : Rebuild)
        → Loaded lz4_decompress_safe inflate_decompress xd3_decode lz4 blobs r [] []
        → IsUsedUp r
    rebuild_end-IsUsedUp r l =
        let long = length-append (drop r.multi_header_offset l.current) (join l.chunks) in
        let none_left : length (drop r.multi_header_offset l.current ++ join l.chunks) ≡ 0 =
          ap length l.stream in
        let left = length-drop r.multi_header_offset l.current in
        record {
          used = omega (arith, long, none_left, left, l.within, l.size);
          fits = omega (arith, l.size, l.fits);
        }
