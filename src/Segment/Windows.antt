-- ===== src/Segment/Windows.antt =====
-- The inner loop of Chunker::Chunking for TAR_MultiHeader cuts all of a buffer.
use bi_search.Base.{
  or_true, ℕ, zero, suc, ◌+◌, ◌-◌, ◌*◌, ◌^◌, ◌≤◌, ◌<◌, ◌≡◌, refl, sym, ap, ◌∙◌, subst, true, false,
  ◌||◌, List, [], ◌∷◌, ◌++◌, arith, Bytes, ltb, leb, length, drop, drop-add, length-drop,
  length-append, dec_lt, lt→ltb, le→ltb,
}
use bi_search.Chunking.{sub64}
use bi_search.Chunking.Complete.{sub64_exact}
use bi_search.Types.{Chunk}
use bi_search.Tar.{FileType}
use bi_search.Tar.Archive.{Entry, AllEntries, archive, headers}
use bi_search.Segment.{HeaderState, Cutting, finished, push_all, cut_point_tar_header, cut_segments}
use bi_search.Segment.Layout.{
  header_bytes, header_pieces, header_pieces-append, AllHeaderChunks, AllHeaderChunks-append,
  data_pieces, header_bytes-append, data_pieces-append, Follow, rest_laid, none_laid,
}
use bi_search.Segment.Streams.{Between, cut_point_tar_header-Cuts}

-- At the end of the buffer nothing is due.
pub nothing_left :
    (c : Bytes) (es : List Entry)
    → AllEntries es
    → length (c ++ archive es) ≡ 0
    → (c ≡ []) × (es ≡ [])
nothing_left (x ∷ c) es vs e = absurd (omega arith)
nothing_left [] [] vs e = (refl, refl)
nothing_left [] (h ∷ es) (v, vs) e =
    absurd (omega (arith, length-append h.header (h.content ++ archive es), v.block))

leb_zero : (n : ℕ) → 0 < n → leb n 0 ≡ false
leb_zero n h = ground arith

pub rest_end :
    (limit : ℕ) (kind : FileType) (c : Bytes) (es : List Entry)
    → c ≡ []
    → es ≡ []
    → Follow limit kind c es []
rest_end limit kind c es nil_c nil_es =
    subst (λ b. Follow limit kind b es []) (sym nil_c)
      (subst (λ l. Follow limit kind [] l []) (sym nil_es) (rest_laid limit kind none_laid))

-- All of the buffer is cut.
pub record Separates (limit : ℕ) (kind : FileType) (c : Bytes) (es : List Entry) (upto : ℕ)
    (o : Cutting) : Type 0 where
  pub pushed : List Chunk
  pub state : HeaderState
  pub run : o ≡ finished pushed upto state
  pub heads : AllHeaderChunks (header_pieces pushed)
  pub headers : header_bytes pushed ≡ headers es
  pub pieces : Follow limit kind c es (data_pieces pushed)

module _ (limit multi_header_chunk header_room room quota : ℕ)
    (some_headers : 0 < multi_header_chunk) (few_headers : multi_header_chunk ≤ 16)
    (enough_room : multi_header_chunk * 512 ≤ header_room) (word : room < 2 ^ 32) where
  cut_segments-suc :
      (inner fuel : ℕ) (st st' : HeaderState) (buffer : Bytes) (off n : ℕ) (cs : List Chunk)
      → off < length buffer
      → cut_point_tar_header multi_header_chunk header_room
          (room - off)
          inner
          st
          (drop off buffer)
          (sub64 (length buffer) off)
        ≡ finished cs n st'
      → cut_segments multi_header_chunk header_room room quota inner (suc fuel) st buffer true off
        ≡ push_all cs (
            cut_segments multi_header_chunk header_room room quota inner fuel st' buffer true
              (off + n))
  unfolding cut_segments
  cut_segments-suc inner fuel st st' buffer off n cs more run =
      let go_on : (leb quota (sub64 (length buffer) off) || ltb off (length buffer)) ≡ true =
        ap (λ b. leb quota (sub64 (length buffer) off) || b) (lt→ltb off (length buffer) more)
        ∙ or_true _ in
      rw (cut_segments, go_on, run) refl

  pub cut_segments-Separates :
      (inner fuel : ℕ) (st : HeaderState) (c : Bytes) (es : List Entry) (buffer : Bytes) (off : ℕ)
      → Between limit st c es
      → drop off buffer ≡ c ++ archive es
      → length buffer ≤ room
      → off ≤ length buffer
      → 0 < quota
      → 2 * length buffer + 1 < inner
      → length buffer - off < fuel
      → Separates limit st.tar.next_chunk_type c es
          (length buffer)
          (cut_segments multi_header_chunk header_room room quota inner fuel st buffer true off)
  unfolding cut_segments
  cut_segments-Separates inner zero st c es buffer off b at narrow within some_quota deep f =
      absurd (omega arith)
  cut_segments-Separates inner (suc fuel) st c es buffer off b at narrow within some_quota deep f =
      let left : length (drop off buffer) ≡ length buffer - off = length-drop off buffer in
      let exact : sub64 (length buffer) off ≡ length (drop off buffer) =
        sub64_exact (length buffer) off within (omega arith) ∙ sym left in
      elim (dec_lt off (length buffer)) [
        | no finish ↦
            let at_end : off ≡ length buffer = omega (arith, finish) in
            let (nil_c, nil_es) =
              nothing_left c es b.at.valid (ap length (sym at) ∙ left ∙ omega arith) in
            let stop : (leb quota (sub64 (length buffer) off) || ltb off (length buffer)) ≡ false =
              let zero_left : sub64 (length buffer) off ≡ 0 = exact ∙ left ∙ omega arith in
              rw (zero_left, leb_zero quota some_quota, le→ltb off (length buffer) (omega arith))
                refl in
            record {
              pushed = [];
              heads = tt;
              state = st;
              run = rw (cut_segments, stop, at_end) refl;
              headers = ap headers (sym nil_es);
              pieces = rest_end limit st.tar.next_chunk_type c es nil_c nil_es;
            }
        | yes more ↦
            let one =
              cut_point_tar_header-Cuts limit multi_header_chunk header_room (room - off)
                some_headers few_headers enough_room (omega arith) inner st c es (drop off buffer) b
                at (omega (arith, left)) (omega (arith, left)) (omega (arith, left)) in
            let run =
              ap
                (cut_point_tar_header multi_header_chunk header_room (room - off) inner st
                  (drop off buffer))
                exact
              ∙ one.run in
            let rest =
              cut_segments-Separates inner fuel one.state one.due one.entries buffer
                (off + one.upto) one.between (drop-add off one.upto buffer ∙ one.src) narrow
                (omega (arith, one.within, left)) some_quota deep (omega (arith, one.moved)) in
            record {
              pushed = one.pushed ++ rest.pushed;
              heads = subst AllHeaderChunks (sym (header_pieces-append one.pushed rest.pushed)) (
                  AllHeaderChunks-append (header_pieces one.pushed) (header_pieces rest.pushed)
                    one.heads rest.heads);
              state = rest.state;
              run =
                  cut_segments-suc inner fuel st one.state buffer off one.upto one.pushed more run
                  ∙ ap (push_all one.pushed) rest.run;
              headers =
                  header_bytes-append one.pushed rest.pushed
                  ∙ ap (λ h. header_bytes one.pushed ++ h) rest.headers
                  ∙ one.headers;
              pieces =
                  subst (Follow limit st.tar.next_chunk_type c es)
                    (sym (data_pieces-append one.pushed rest.pushed))
                    (one.pieces (data_pieces rest.pushed) rest.pieces);
            }
      ]
  -- A file that is read at once is one window.
