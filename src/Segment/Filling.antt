-- ===== src/Segment/Filling.antt =====
-- The first loop of CutPointTarHeader collects whole headers, at most the number asked for.
use native.Mathlib.Nat.{mod-eq_of_lt}
use bi_search.Base.{
  or_true, ℕ, suc, ◌+◌, ◌*◌, ◌%◌, ◌^◌, ◌≤◌, ◌<◌, ◌≡◌, refl, sym, ap, ◌∙◌, Bool, true, false, ◌&&◌,
  ◌||◌, some, List, [], ◌++◌, arith, Bytes, if◌then◌else◌, ltb, ◌==◌, length, drop, ltb→lt,
}
use bi_search.Chunking.{sub64}
use bi_search.Types.{Chunk}
use bi_search.Tar.{
  FileType, file_chunk, file_header, big_chunk, is_file_header, is_big, is_file_chunk, TarState,
  cut_point_tar_fast,
}
use bi_search.Tar.Archive.{Entry, archive, headers}
use bi_search.Segment.{
  HeaderState, Round, Cutting, finished, push_all, header_round, fills_headers, back_to_header,
  fill_headers,
}
use bi_search.Segment.Layout.{header_pieces, data_pieces, Follow}
use bi_search.Segment.Due.{At}

-- What is left of a loop's work: the content `due` and the entries behind it.
pub record Stops (limit : ℕ) (kind : FileType) (c : Bytes) (es : List Entry) (buffer : Bytes)
    (cp_sum : ℕ) (o : Cutting) : Type 0 where
  pub pushed : List Chunk
  pub upto : ℕ
  pub state : HeaderState
  pub due : Bytes
  pub entries : List Entry
  pub run : o ≡ finished pushed upto state
  pub at : At limit state.tar due entries
  pub src : drop upto buffer ≡ due ++ archive entries
  pub from : cp_sum ≤ upto
  pub within : upto ≤ length buffer
  pub pieces :
      (xs : List Bytes)
      → Follow limit state.tar.next_chunk_type due entries xs
      → Follow limit kind c es (data_pieces pushed ++ xs)
  pub no_file : is_file_chunk state.tar.next_chunk_type ≡ false

-- `on`: the loop has a round that takes bytes.
pub record Filled (limit : ℕ) (on : Bool) (st : HeaderState) (c : Bytes) (es : List Entry)
    (buffer : Bytes) (cp_sum : ℕ) (o : Cutting) : Type 0 where
  pub stops : Stops limit st.tar.next_chunk_type c es buffer cp_sum o
  pub collected :
      stops.state.header_buffer ++ headers stops.entries ≡ st.header_buffer ++ headers es
  pub no_header : header_pieces stops.pushed ≡ []
  pub moved : on ≡ true → cp_sum < stops.upto

and_false : (b : Bool) → (b && false) ≡ false
and_false true = refl
and_false false = refl

only_first : (b : Bool) → ((b || false) && true) ≡ b
only_first true = refl
only_first false = refl

module _ (multi_header_chunk : ℕ) where
  -- A small file's content is cut right behind its header.
  pub fills_at_file :
      (st : HeaderState)
      → st.tar.next_chunk_type ≡ file_chunk
      → is_file_header st.local_type ≡ true
      → fills_headers multi_header_chunk st ≡ true
  unfolding fills_headers is_file_chunk is_big
  fills_at_file st at local =
      rw (at, local)
        (ap (λ b. b && true) (or_true (ltb (length st.header_buffer) (multi_header_chunk * 512))))

  pub fills_at_big :
      (st : HeaderState)
      → st.tar.next_chunk_type ≡ big_chunk
      → fills_headers multi_header_chunk st ≡ false
  unfolding fills_headers is_file_chunk is_big
  fills_at_big st at = rw at (and_false _)

  -- Before a header there is room for it.
  pub fills_at_header :
      (st : HeaderState) (j : ℕ)
      → st.tar.next_chunk_type ≡ file_header
      → length st.header_buffer ≡ 512 * j
      → fills_headers multi_header_chunk st ≡ true
      → length st.header_buffer + 512 ≤ multi_header_chunk * 512
  unfolding fills_headers is_file_chunk is_big
  fills_at_header st j at blocks fills =
      let plain : fills_headers multi_header_chunk st
          ≡ ltb (length st.header_buffer) (multi_header_chunk * 512) =
        rw (at, and_false (is_file_header st.local_type)) (only_first _) in
      omega (arith, ltb→lt _ _ (sym plain ∙ fills))

-- A header is collected next.
abbrev pub collects : ℕ → HeaderState → Bool
collects multi_header_chunk st =
    if fills_headers multi_header_chunk st then is_file_header st.tar.next_chunk_type else false

module _ (multi_header_chunk header_room room : ℕ) where
  -- What a round of the loop leads to.
  abbrev pub after_round : ℕ → Round → Bytes → ℕ → ℕ → Cutting
  after_round fuel r src len cp_sum =
      if r.advanced && (cp_sum + r.cp == len)
      then finished r.pushed (cp_sum + r.cp) (back_to_header r.state)
      else push_all r.pushed
          (fill_headers multi_header_chunk header_room room fuel r.state src len (cp_sum + r.cp))

  pub fill_headers-suc :
      (fuel : ℕ) (st : HeaderState) (src : Bytes) (len cp_sum cut : ℕ) (s' : TarState) (r : Round)
      → fills_headers multi_header_chunk st ≡ true
      → cut_point_tar_fast st.tar (drop cp_sum src) (sub64 len cp_sum) ≡ some (cut, s')
      → cut < 2 ^ 32
      → header_round header_room room st s' (drop cp_sum src) cp_sum cut ≡ some r
      → fill_headers multi_header_chunk header_room room (suc fuel) st src len cp_sum
        ≡ after_round fuel r src len cp_sum
  unfolding fill_headers
  fill_headers-suc fuel st src len cp_sum cut s' r fills run small result =
      let exact : cut % 2 ^ 32 ≡ cut = mod-eq_of_lt small in
      rw (fill_headers, fills, run, exact, result) refl

  pub fill_headers-stop :
      (fuel : ℕ) (st : HeaderState) (src : Bytes) (len cp_sum : ℕ)
      → fills_headers multi_header_chunk st ≡ false
      → fill_headers multi_header_chunk header_room room (suc fuel) st src len cp_sum
        ≡ finished [] cp_sum st
  unfolding fill_headers
  fill_headers-stop fuel st src len cp_sum stops = rw (fill_headers, stops) refl
