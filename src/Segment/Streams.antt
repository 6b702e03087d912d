-- ===== src/Segment/Streams.antt =====
-- TAR_MultiHeader chunking takes an archive apart into its headers and its contents.
use bi_search.Base.{
  ℕ, ◌+◌, ◌*◌, ◌^◌, ◌≤◌, ◌<◌, ◌≡◌, refl, sym, ap, ◌∙◌, subst, inl, inr, true, false, List, [], ◌∷◌,
  ◌++◌, append-nil, arith, Bytes, ltb, length, drop, Bool-cases, lt→ltb,
}
use bi_search.Types.{Chunk}
use bi_search.Tar.{
  FileType, file_chunk, file_header, big_chunk, is_file_header, is_big, is_file_chunk,
}
use bi_search.Tar.Archive.{Entry, archive, headers}
use bi_search.Segment.{
  HeaderState, Cutting, finished, push_headers, clear_long_names, fills_headers, new_chunk,
  fill_headers, cut_contents, cut_point_tar_header,
}
use bi_search.Segment.Layout.{
  header_bytes, header_pieces, header_pieces-append, join, join-header_pieces, IsHeaderChunk,
  AllHeaderChunks, data_pieces, header_bytes-append, data_pieces-append, Follow,
}
use bi_search.Mtar.Selected.{weight_at_most_one}
use bi_search.Tar.Names.{hash_name_to_uint64}
use bi_search.Segment.Due.{At, cleared-At}
use bi_search.Segment.Filling.{collects}
use bi_search.Segment.Collect.{fill_headers-Filled}
use bi_search.Segment.Rests.{IsBlocks}
use bi_search.Segment.Counted.{HeadCount, Counts, fill_headers-Counts}
use bi_search.Segment.Contents.{cut_contents-Filled}
use bi_search.Segment.Kept.{Keeps, cut_contents-Keeps}

-- Between two calls of CutPointTarHeader no header is collected and no small file is due.
pub record Between (limit : ℕ) (st : HeaderState) (c : Bytes) (es : List Entry) : Type 0 where
  pub at : At limit st.tar c es
  pub empty : st.header_buffer ≡ []
  pub no_file : is_file_chunk st.tar.next_chunk_type ≡ false

-- What a call, or a loop of calls, has cut of an archive.
pub record Cuts (limit : ℕ) (st : HeaderState) (c : Bytes) (es : List Entry) (buffer : Bytes)
    (off : ℕ) (o : Cutting) : Type 0 where
  pub pushed : List Chunk
  pub upto : ℕ
  pub state : HeaderState
  pub due : Bytes
  pub entries : List Entry
  pub run : o ≡ finished pushed upto state
  pub between : Between limit state due entries
  pub src : drop upto buffer ≡ due ++ archive entries
  pub within : upto ≤ length buffer
  pub moved : off < upto
  pub heads : AllHeaderChunks (header_pieces pushed)
  pub headers : header_bytes pushed ++ headers entries ≡ headers es
  pub pieces :
      (xs : List Bytes)
      → Follow limit state.tar.next_chunk_type due entries xs
      → Follow limit st.tar.next_chunk_type c es (data_pieces pushed ++ xs)

header_not_big : (kind : FileType) → is_file_header kind ≡ true → is_big kind ≡ false
unfolding is_file_header is_big
header_not_big file_header e = refl
header_not_big file_chunk e = refl
header_not_big big_chunk e = sym e

-- With no header collected there is room for one.
collects_first :
    (multi_header_chunk : ℕ) (st : HeaderState)
    → 0 < multi_header_chunk
    → st.header_buffer ≡ []
    → is_file_header st.tar.next_chunk_type ≡ true
    → collects multi_header_chunk st ≡ true
unfolding fills_headers
collects_first m st some_headers empty header =
    let low : ltb (length st.header_buffer) (m * 512) ≡ true =
      lt→ltb _ _ (omega (arith, ap length empty)) in
    rw (low, header_not_big st.tar.next_chunk_type header, header) refl

-- The chunk of the headers holds no content.
header_bytes_last :
    (cs : List Chunk) (h : Chunk)
    → h.header_flag ≡ true
    → header_bytes cs ≡ []
    → header_bytes (cs ++ h ∷ []) ≡ h.chunk_ptr
header_bytes_last cs h flag none_there =
    header_bytes-append cs (h ∷ []) ∙ rw (none_there, flag) (append-nil h.chunk_ptr)

data_pieces_last :
    (cs : List Chunk) (h : Chunk)
    → h.header_flag ≡ true
    → data_pieces (cs ++ h ∷ []) ≡ data_pieces cs
data_pieces_last cs h flag = data_pieces-append cs (h ∷ []) ∙ rw flag (append-nil (data_pieces cs))

module _ (limit multi_header_chunk header_room room : ℕ) (some_headers : 0 < multi_header_chunk)
    (few_headers : multi_header_chunk ≤ 16) (enough_room : multi_header_chunk * 512 ≤ header_room)
    (word : room < 2 ^ 32) where
  -- The loop of headers, and their chunk behind the contents.
  headers-Cuts :
      (fuel : ℕ) (st : HeaderState) (c : Bytes) (es : List Entry) (src : Bytes)
      → Between limit st c es
      → is_file_header st.tar.next_chunk_type ≡ true
      → src ≡ c ++ archive es
      → length src ≤ room
      → 0 < length src
      → 2 * length src + 1 < fuel
      → Cuts limit st c es src 0 (
          push_headers
            (fill_headers multi_header_chunk header_room room fuel st src (length src) 0))
  unfolding push_headers new_chunk
  headers-Cuts fuel st c es src b header split narrow some_left f =
      let blocks : IsBlocks st = record { blocks = 0; whole = ap length b.empty ∙ omega arith } in
      let filled =
        fill_headers-Filled limit multi_header_chunk header_room room enough_room word fuel st c es
          src 0 b.at blocks
          (λ z. let clash : true ≡ false = sym z ∙ b.no_file in absurd (ground arith)) narrow
          some_left split (omega (arith, weight_at_most_one st.tar.next_chunk_type)) in
      let s = filled.stops in
      let h =
        new_chunk s.state.header_buffer true (hash_name_to_uint64 s.state.tar.path) true false in
      let no_bytes : header_bytes s.pushed ≡ [] =
        sym (join-header_pieces s.pushed) ∙ ap join filled.no_header in
      let counts =
        fill_headers-Counts limit multi_header_chunk header_room room enough_room word fuel st c es
          src 0 b.at blocks (omega (arith, ap length b.empty))
          (λ z. let clash : true ≡ false = sym z ∙ b.no_file in absurd (ground arith)) narrow
          some_left split (omega (arith, weight_at_most_one st.tar.next_chunk_type)) in
      let count : HeadCount (multi_header_chunk * 512) (length st.header_buffer)
          (collects multi_header_chunk st) s.state =
        subst
          (Counts (multi_header_chunk * 512) (length st.header_buffer)
            (collects multi_header_chunk st))
          s.run counts in
      let some_header =
        count.more (collects_first multi_header_chunk st some_headers b.empty header) in
      let head : IsHeaderChunk s.state.header_buffer = record {
        count = count.blocks.blocks;
        some_headers = omega (arith, count.blocks.whole, some_header);
        few = omega (arith, count.blocks.whole, count.few);
        whole = count.blocks.whole;
      } in
      record {
        heads =
            subst AllHeaderChunks
              (sym (
                header_pieces-append s.pushed (h ∷ [])
                ∙ ap (λ d. d ++ header_pieces (h ∷ [])) filled.no_header))
              (head, tt);
        pushed = s.pushed ++ h ∷ [];
        upto = s.upto;
        state = record s.state { header_buffer = [] };
        due = s.due;
        entries = s.entries;
        run = ap push_headers s.run;
        between = record { at = s.at; empty = refl; no_file = s.no_file };
        src = s.src;
        within = s.within;
        moved = filled.moved (collects_first multi_header_chunk st some_headers b.empty header);
        headers =
            ap (λ x. x ++ headers s.entries) (header_bytes_last s.pushed h refl no_bytes)
            ∙ filled.collected
            ∙ ap (λ x. x ++ headers es) b.empty;
        pieces = λ xs x.
            subst (λ d. Follow limit st.tar.next_chunk_type c es (d ++ xs))
              (sym (data_pieces_last s.pushed h refl)) (s.pieces xs x);
      }

  -- The loop over a big file.
  contents-Cuts :
      (fuel : ℕ) (st : HeaderState) (c : Bytes) (es : List Entry) (src : Bytes)
      → Between limit st c es
      → is_file_header st.tar.next_chunk_type ≡ false
      → src ≡ c ++ archive es
      → length src ≤ room
      → length src < fuel
      → Cuts limit st c es src 0 (clear_long_names (cut_contents room fuel st src (length src) 0))
  unfolding clear_long_names
  contents-Cuts fuel st c es src b no_header split narrow f =
      let filled =
        cut_contents-Filled room limit word fuel st c es src 0 b.at b.no_file narrow (omega arith)
          split (omega arith) in
      let s = filled.stops in
      let keeps =
        subst (λ o. Keeps o st.header_buffer) s.run
          (cut_contents-Keeps room fuel st src (length src) 0) in
      let empty : s.state.header_buffer ≡ [] = keeps ∙ b.empty in
      record {
        heads = subst AllHeaderChunks (sym filled.no_header) tt;
        pushed = s.pushed;
        upto = s.upto;
        state = record s.state {
          tar = record s.state.tar { is_long_name_chunk1 = false; is_long_name_chunk2 = false };
        };
        due = s.due;
        entries = s.entries;
        run = ap clear_long_names s.run;
        between = record {
          at = cleared-At limit s.state.tar s.due s.entries s.at;
          empty = empty;
          no_file = s.no_file;
        };
        src = s.src;
        within = s.within;
        moved = filled.moved (rw no_header refl);
        headers =
            ap (λ x. x ++ headers s.entries)
              (sym (join-header_pieces s.pushed) ∙ ap join filled.no_header ∙ sym empty)
            ∙ filled.collected
            ∙ ap (λ x. x ++ headers es) b.empty;
        pieces = s.pieces;
      }

  -- One call of CutPointTarHeader.
  pub cut_point_tar_header-Cuts :
      (fuel : ℕ) (st : HeaderState) (c : Bytes) (es : List Entry) (src : Bytes)
      → Between limit st c es
      → src ≡ c ++ archive es
      → length src ≤ room
      → 0 < length src
      → 2 * length src + 1 < fuel
      → Cuts limit st c es src 0
          (cut_point_tar_header multi_header_chunk header_room room fuel st src (length src))
  unfolding cut_point_tar_header
  cut_point_tar_header-Cuts fuel st c es src b split narrow some_left f =
      elim (Bool-cases (is_file_header st.tar.next_chunk_type)) [
        | inl header ↦ rw header (headers-Cuts fuel st c es src b header split narrow some_left f)
        | inr content ↦
            rw content (contents-Cuts fuel st c es src b content split narrow (omega arith))
      ]
