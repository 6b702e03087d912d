-- ===== src/Segment/Headers.antt =====
-- One round of the first loop of CutPointTarHeader, at a header or at a small file's content.
use bi_search.Base.{
  ℕ, ◌+◌, ◌≤◌, ◌≡◌, refl, sym, ap, ◌∙◌, subst, inl, inr, true, false, some, List, [], ◌∷◌, ◌++◌,
  append_assoc, arith, Bytes, length, take, drop, copy, copy-prefix, length-append, drop-append,
  take-append, dec_le,
}
use bi_search.Tar.{
  file_chunk, file_header, is_file_header, is_big, is_file_chunk, cut_point_tar_fast, rounded_up,
}
use bi_search.Tar.Archive.{Entry, archive, headers}
use bi_search.Tar.Entries.{cut_header-Pending, cut_file-Pending}
use bi_search.Tar.Pending.{at_header}
use bi_search.Segment.{HeaderState, chunk_name, new_chunk}
use bi_search.Segment.Layout.{Follow, rest_header, rest_nil, rest_whole}
use bi_search.Segment.Due.{
  length_zero, file_after_header, At, chunk_name-At, round_of_header, round_of_nothing,
  round_of_content, Goes,
}

module _ (limit : ℕ) where
  module _ (header_room room : ℕ) where
    -- At limit a header.
    pub header_round-header :
        (st : HeaderState) (e : Entry) (es : List Entry) (cp_sum : ℕ)
        → At limit st.tar [] (e ∷ es)
        → st.tar.next_chunk_type ≡ file_header
        → length st.header_buffer + 512 ≤ header_room
        → cp_sum + length (archive (e ∷ es)) ≤ room
        → Goes limit header_room room st [] (e ∷ es) cp_sum
    unfolding is_file_header
    header_round-header st e es cp_sum a at fits_buffer fits =
        let (v, vs) = a.valid in
        let behind = e.content ++ archive es in
        let src = e.header ++ behind in
        let long : length src ≡ 512 + length behind =
          omega (arith, length-append e.header behind, v.block) in
        let (s', run, after) =
          cut_header-Pending st.tar a.quiet e behind (length src) v at (omega (arith, long)) in
        let first : copy 512 src ≡ e.header =
          copy-prefix 512 src (omega (arith, long))
          ∙ ap (λ k. take k src) (sym v.block)
          ∙ take-append e.header behind in
        record {
          cut = 512;
          tar = s';
          round = record {
            pushed = [];
            cp = 512;
            state = record {
              tar = s';
              local_type = file_header;
              header_buffer = st.header_buffer ++ e.header;
            };
            advanced = true;
          };
          run = run;
          small = refl;
          result =
              round_of_header limit header_room room st s' src e.header cp_sum 512 at fits_buffer
                (omega (arith, long)) first;
          went = record {
            due = e.content;
            entries = es;
            at = record {
              pending = after.pending;
              quiet = after.quiet;
              valid = vs;
              same = after.limit ∙ a.same;
            };
            src = ap (λ k. drop k src) (sym v.block) ∙ drop-append e.header behind;
            within = omega (arith, long);
            collected = append_assoc st.header_buffer e.header (headers es);
            no_header = refl;
            pieces = λ xs x. rw at (
                rest_header limit s'.next_chunk_type e es xs
                  (λ z. omega (arith, after.large z, a.same)) x);
          };
          progress = inl (refl, omega arith);
          grown = inr (
            at,
            length-append st.header_buffer e.header ∙ ap (λ n. length st.header_buffer + n) v.block,
          );
          after_header = λ z. refl;
        }

    -- At limit a small file's content.
    pub header_round-content :
        (st : HeaderState) (c : Bytes) (es : List Entry) (cp_sum : ℕ)
        → At limit st.tar c es
        → st.tar.next_chunk_type ≡ file_chunk
        → length c ≡ rounded_up st.tar.next_chunk_size
        → cp_sum + length (c ++ archive es) ≤ room
        → Goes limit header_room room st c es cp_sum
    unfolding is_file_chunk is_file_header is_big new_chunk
    header_round-content st c es cp_sum a at size fits =
        let src = c ++ archive es in
        let long : length src ≡ length c + length (archive es) = length-append c (archive es) in
        let (s', run, back, quiet, same) =
          cut_file-Pending st.tar a.quiet c (length src) src at size (omega (arith, long)) in
        let gone : drop (length c) src ≡ archive es = drop-append c (archive es) in
        let next : At limit s' [] es = record {
          pending = at_header back refl;
          quiet = quiet;
          valid = a.valid;
          same = same ∙ a.same;
        } in
        elim (dec_le (length c) 0) [
          | yes empty ↦
              let none_left : length c ≡ 0 = omega arith in
              record {
                cut = 0;
                tar = s';
                round = record {
                  pushed = [];
                  cp = 0;
                  state = record {
                    tar = s';
                    local_type = file_chunk;
                    header_buffer = st.header_buffer;
                  };
                  advanced = false;
                };
                run =
                    subst (λ n. cut_point_tar_fast st.tar src (length src) ≡ some (n, s')) none_left
                      run;
                small = refl;
                result = round_of_nothing limit header_room room st s' src cp_sum at;
                went = record {
                  due = [];
                  entries = es;
                  at = next;
                  src = subst (λ n. drop n src ≡ archive es) none_left gone;
                  within = omega arith;
                  collected = refl;
                  no_header = refl;
                  pieces = λ xs x.
                      subst (λ b. Follow limit st.tar.next_chunk_type b es xs)
                        (sym (length_zero c none_left))
                        (rest_nil limit s'.next_chunk_type st.tar.next_chunk_type [] es xs refl x);
                };
                progress = inr (refl, refl, back, at);
                grown = inl (rw at refl, refl);
                after_header = λ z. file_after_header s'.next_chunk_type file_chunk back z;
              }
          | no some_left ↦
              let first : copy (length c) src ≡ c =
                copy-prefix (length c) src (omega (arith, long)) ∙ take-append c (archive es) in
              let (named, kept_type) = chunk_name-At limit s' [] es next in
              record {
                cut = length c;
                tar = s';
                round = record {
                  pushed = new_chunk c s'.name_exist (chunk_name s').0 false false ∷ [];
                  cp = length c;
                  state = record {
                    tar = (chunk_name s').1;
                    local_type = file_chunk;
                    header_buffer = st.header_buffer;
                  };
                  advanced = true;
                };
                run = run;
                small = refl;
                result =
                    round_of_content limit header_room room st s' src c cp_sum (length c) at
                      (omega (arith, some_left)) (omega (arith, long)) first;
                went = record {
                  due = [];
                  entries = es;
                  at = named;
                  src = gone;
                  within = omega (arith, long);
                  collected = refl;
                  no_header = refl;
                  pieces = λ xs x.
                      rest_whole limit st.tar.next_chunk_type (chunk_name s').1.next_chunk_type c es
                        xs (omega (arith, some_left)) x;
                };
                progress = inl (refl, omega (arith, some_left));
                grown = inl (rw at refl, refl);
                after_header = λ z.
                    file_after_header (chunk_name s').1.next_chunk_type file_chunk
                      (kept_type ∙ back) z;
              }
        ]
