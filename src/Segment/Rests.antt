-- ===== src/Segment/Rests.antt =====
-- What a round of the first loop of CutPointTarHeader leaves to the rounds behind it.
use bi_search.Base.{
  ℕ, ◌+◌, ◌*◌, ◌<◌, ◌≡◌, refl, sym, ap, ◌∙◌, subst, Bool, true, List, [], ◌++◌, append_assoc, arith,
  Bytes, length, drop, drop-add, length-drop, length-append,
}
use bi_search.Tar.{file_header, is_file_chunk}
use bi_search.Tar.Archive.{Entry, archive}
use bi_search.Tar.Pending.{at_header}
use bi_search.Segment.{HeaderState, Round, Cutting, finished, push_all, back_to_header}
use bi_search.Segment.Layout.{
  header_pieces, data_pieces, header_pieces-append, data_pieces-append, Follow, rest_nil,
}
use bi_search.Segment.Due.{Went, length_zero}
use bi_search.Segment.Filling.{Filled}

-- The number of whole headers collected.
pub record IsBlocks (st : HeaderState) : Type 0 where
  pub blocks : ℕ
  pub whole : length st.header_buffer ≡ 512 * blocks

module _ (limit : ℕ) where
  -- A round at the end of the buffer goes back to the header.
  pub back-Filled :
      (st : HeaderState) (c : Bytes) (es : List Entry) (src : Bytes) (cp_sum : ℕ) (r : Round)
      (on : Bool)
      → (on ≡ true → 0 < r.cp)
      → Went limit st c es r
      → drop cp_sum src ≡ c ++ archive es
      → cp_sum + r.cp ≡ length src
      → Filled limit on st c es src cp_sum
          (finished r.pushed (cp_sum + r.cp) (back_to_header r.state))
  unfolding back_to_header is_file_chunk
  back-Filled st c es src cp_sum r on moved went at finish =
      let rest : drop (cp_sum + r.cp) src ≡ went.due ++ archive went.entries =
        drop-add cp_sum r.cp src ∙ ap (drop r.cp) at ∙ went.src in
      let none_left : length (went.due ++ archive went.entries) ≡ 0 =
        ap length (sym rest) ∙ length-drop (cp_sum + r.cp) src ∙ omega (arith, finish) in
      let nil : went.due ≡ [] =
        length_zero went.due
          (omega (arith, none_left, length-append went.due (archive went.entries))) in
      record {
        stops = record {
          pushed = r.pushed;
          upto = cp_sum + r.cp;
          state = back_to_header r.state;
          due = [];
          entries = went.entries;
          run = refl;
          at = record {
            pending = at_header refl refl;
            quiet = record { no_first = went.at.quiet.no_first };
            valid = went.at.valid;
            same = went.at.same;
          };
          src = rest ∙ ap (λ b. b ++ archive went.entries) nil;
          from = omega arith;
          within = omega (arith, finish);
          pieces = λ xs x. went.pieces xs (
              subst (λ b. Follow limit r.state.tar.next_chunk_type b went.entries xs) (sym nil)
                (rest_nil limit file_header r.state.tar.next_chunk_type [] went.entries xs refl x));
          no_file = refl;
        };
        collected = went.collected;
        no_header = went.no_header;
        moved = λ z. omega (arith, moved z);
      }

  -- A round, and then the rest of the loop.
  pub push-Filled :
      (st : HeaderState) (c : Bytes) (es : List Entry) (src : Bytes) (cp_sum : ℕ) (r : Round)
      (o : Cutting) (on on' : Bool)
      → (on ≡ true → 0 < r.cp)
      → (went : Went limit st c es r)
      → Filled limit on' r.state went.due went.entries src (cp_sum + r.cp) o
      → Filled limit on st c es src cp_sum (push_all r.pushed o)
  push-Filled st c es src cp_sum r o on on' moved went f =
      let s = f.stops in
      record {
        stops = record {
          pushed = r.pushed ++ s.pushed;
          upto = s.upto;
          state = s.state;
          due = s.due;
          entries = s.entries;
          run = ap (push_all r.pushed) s.run;
          at = s.at;
          src = s.src;
          from = omega (arith, s.from);
          within = s.within;
          pieces = λ xs x.
              subst (Follow limit st.tar.next_chunk_type c es)
                (sym (append_assoc (data_pieces r.pushed) (data_pieces s.pushed) xs)
                  ∙ ap (λ b. b ++ xs) (sym (data_pieces-append r.pushed s.pushed)))
                (went.pieces _ (s.pieces xs x));
          no_file = s.no_file;
        };
        collected = f.collected ∙ went.collected;
        no_header =
            header_pieces-append r.pushed s.pushed
            ∙ ap (λ b. b ++ header_pieces s.pushed) went.no_header
            ∙ f.no_header;
        moved = λ z. omega (arith, moved z, s.from);
      }
