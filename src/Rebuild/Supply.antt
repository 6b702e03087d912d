-- ===== src/Rebuild/Supply.antt =====
-- Between two headers of restoreHeaderFile: the buffer and the recipe of header chunks hold the
-- headers that are left.
use bi_search.Base.{
  ℕ, ◌+◌, ◌-◌, ◌*◌, ◌≤◌, ◌<◌, ◌≡◌, refl, sym, ap, ◌∙◌, Bool, true, false, ◌&&◌, some, List, [], ◌∷◌,
  ◌++◌, arith, Bytes, ◌==◌, length, take, drop, drop_all, write_at, read_at, dec_lt, ne→==, ==_self,
  le→ltb,
}
use bi_search.Store.{DataWrite}
use bi_search.Store.Stored.{Blob, Frame}
use bi_search.Tar.Archive.{Entry, headers}
use bi_search.Restore.{restored_chunk}
use bi_search.Restore.Originals.{Serves}
use bi_search.Restore.Files.{restored_chunk_lem}
use bi_search.Segment.Layout.{AllHeaderChunks, join}
use bi_search.Rebuild.{Rebuild, supplement, load_headers, is_empty, multi_header_room}
use bi_search.Rebuild.Header.{read_at_copied}
use bi_search.Rebuild.Contents.{Lists, no_chunks, next_chunk}

module _ (lz4_decompress_safe inflate_decompress : Bytes → Bytes)
    (xd3_decode : Bytes → Bytes → Bytes) (lz4 : Bool) (blobs : List Blob) where
  -- The headers of `es` are left, and the content chunks `xs`.
  pub record Loaded (r : Rebuild) (es : List Entry) (xs : List Bytes) : Type 0 where
    pub current : Bytes
    pub chunks : List Bytes
    pub reads :
        (off n : ℕ)
        → r.multi_header_offset ≤ off
        → off + n ≤ length current
        → read_at r.multi_header_buffer off n ≡ take n (drop off current)
    pub size : r.multi_header_chunk_size ≡ length current
    pub fits : length current ≤ multi_header_room
    pub within : r.multi_header_offset ≤ length current
    pub blocks : ℕ
    pub aligned : length current - r.multi_header_offset ≡ 512 * blocks
    pub whole : AllHeaderChunks chunks
    pub ids :
        Lists lz4_decompress_safe inflate_decompress xd3_decode lz4 blobs r.headers_left chunks
    pub contents : Lists lz4_decompress_safe inflate_decompress xd3_decode lz4 blobs r.data_left xs
    pub stream : drop r.multi_header_offset current ++ join chunks ≡ headers es
    pub serves : Serves lz4 blobs r.data_write

  kept_Frame : (st : DataWrite) → Frame st st
  kept_Frame st = record { codec = refl; name = refl; recipes = refl; header_recipes = refl }

  -- A header is at hand.
  pub record Ready (r : Rebuild) (es : List Entry) (xs : List Bytes) : Type 0 where
    pub next : Rebuild
    pub run : supplement lz4_decompress_safe inflate_decompress xd3_decode r ≡ some next
    pub loaded : Loaded next es xs
    pub at_hand : next.multi_header_offset + 512 ≤ length loaded.current
    pub more :
        (is_empty r.headers_left
          && (is_empty r.data_left && (r.multi_header_chunk_size == r.multi_header_offset)))
        ≡ false
    pub frame : Frame r.data_write next.data_write

  and_false : (a b : Bool) → (a && (b && false)) ≡ false
  and_false true true = refl
  and_false true false = refl
  and_false false b = refl

  supplement_kept :
      (r : Rebuild)
      → (r.multi_header_chunk_size == r.multi_header_offset) ≡ false
      → supplement lz4_decompress_safe inflate_decompress xd3_decode r ≡ some r
  unfolding supplement
  supplement_kept r left = rw left refl

  supplement_loaded :
      (r : Rebuild) (id : ℕ) (ids : List ℕ) (h : Bytes) (st : DataWrite)
      → r.headers_left ≡ id ∷ ids
      → (r.multi_header_chunk_size == r.multi_header_offset) ≡ true
      → restored_chunk lz4_decompress_safe inflate_decompress xd3_decode r.data_write id
        ≡ some (h, st)
      → length h ≤ multi_header_room
      → supplement lz4_decompress_safe inflate_decompress xd3_decode r
        ≡ some (record r {
          data_write = st;
          multi_header_buffer = write_at r.multi_header_buffer 0 h;
          multi_header_chunk_size = length h;
          multi_header_offset = 0;
          headers_left = ids;
        })
  unfolding supplement load_headers
  supplement_loaded r id ids h st next used run fits =
      rw (supplement, used, load_headers, next, run, le→ltb _ _ fits) refl

  -- What is still in the buffer is used first.
  buffer-Ready :
      (r : Rebuild) (es : List Entry) (xs : List Bytes)
      → (l : Loaded r es xs) → r.multi_header_offset < length l.current
      → Ready r es xs
  buffer-Ready r es xs l left =
      let differ : (r.multi_header_chunk_size == r.multi_header_offset) ≡ false =
        ne→== _ _ (λ z. omega (arith, z, l.size)) in
      record {
        next = r;
        run = supplement_kept r differ;
        loaded = l;
        at_hand = omega (arith, l.aligned);
        more = rw differ (and_false (is_empty r.headers_left) (is_empty r.data_left));
        frame = kept_Frame r.data_write;
      }

  -- Then the next header chunk is fetched.
  recipe-Ready :
      (r : Rebuild) (es : List Entry) (xs : List Bytes) (ids : List ℕ) (hs : List Bytes)
      → (l : Loaded r es xs) → r.multi_header_offset ≡ length l.current
      → 0 < length (headers es)
      → r.headers_left ≡ ids
      → Lists lz4_decompress_safe inflate_decompress xd3_decode lz4 blobs ids hs
      → AllHeaderChunks hs
      → join hs ≡ headers es
      → Ready r es xs
  recipe-Ready r es xs [] _ l used some_left next no_chunks whole stream =
      absurd (omega (arith, ap length stream))
  recipe-Ready r es xs (id ∷ ids) _ l used some_left next
        (next_chunk {b = b} {x = h} {xs = hs} known o rest) (v, vs) stream =
      let (st, run, s, frame) =
        restored_chunk_lem lz4_decompress_safe inflate_decompress xd3_decode lz4 blobs r.data_write
          id b h l.serves known o in
      let equal : (r.multi_header_chunk_size == r.multi_header_offset) ≡ true =
        rw (used, l.size) (==_self (length l.current)) in
      let room : length h ≤ multi_header_room = omega (arith, v.few, v.whole) in
      record {
        next = record r {
          data_write = st;
          multi_header_buffer = write_at r.multi_header_buffer 0 h;
          multi_header_chunk_size = length h;
          multi_header_offset = 0;
          headers_left = ids;
        };
        run = supplement_loaded r id ids h st next equal run room;
        loaded = record {
          current = h;
          chunks = hs;
          reads = λ off n from k. read_at_copied r.multi_header_buffer h off n k;
          size = refl;
          fits = room;
          within = omega arith;
          blocks = v.count;
          aligned = omega (arith, v.whole);
          whole = vs;
          ids = rest;
          contents = l.contents;
          stream = stream;
          serves = s;
        };
        at_hand = omega (arith, v.whole, v.some_headers);
        more = rw next refl;
        frame = frame;
      }

  pub Loaded-Ready :
      (r : Rebuild) (es : List Entry) (xs : List Bytes)
      → Loaded r es xs
      → 0 < length (headers es)
      → Ready r es xs
  Loaded-Ready r es xs l some_left = elim (dec_lt r.multi_header_offset (length l.current)) [
    | yes left ↦ buffer-Ready r es xs l left
    | no through ↦
        let used : r.multi_header_offset ≡ length l.current = omega (arith, through, l.within) in
        let nil : drop r.multi_header_offset l.current ≡ [] =
          drop_all r.multi_header_offset l.current (omega (arith, used)) in
        recipe-Ready r es xs r.headers_left l.chunks l used some_left refl l.ids l.whole
          (ap (λ b. b ++ join l.chunks) (sym nil) ∙ l.stream)
  ]
