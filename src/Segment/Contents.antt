-- ===== src/Segment/Contents.antt =====
-- The second loop of CutPointTarHeader cuts parts off a big file.
use native.Mathlib.Nat.{mod-eq_of_lt}
use bi_search.Base.{
  ℕ, zero, suc, ◌+◌, ◌-◌, ◌%◌, ◌^◌, ◌≤◌, ◌<◌, ◌≡◌, refl, sym, ap, ◌∙◌, subst, inl, inr, Bool, true,
  false, not, ◌&&◌, some, List, [], ◌∷◌, ◌++◌, append-nil, arith, Bytes, if◌then◌else◌, ltb, ◌==◌,
  length, take, drop, copy, copy-prefix, take-append_left, drop-append_left, drop-add, length-drop,
  length-append, Bool-cases, le→ltb,
}
use bi_search.Config.{container_max_size, max_chunk_size}
use bi_search.Chunking.{sub64}
use bi_search.Chunking.Complete.{sub64_exact}
use bi_search.Tar.{
  FileType, big_chunk, is_file_header, is_big, is_file_chunk, TarState, cut_point_tar_fast,
}
use bi_search.Tar.Archive.{Entry, archive}
use bi_search.Tar.Entries.{cut_big-Pending}
use bi_search.Tar.Pending.{Pending, at_header, in_file, in_big}
use bi_search.Segment.{HeaderState, Round, Cutting, finished, push_all, new_chunk, cut_contents}
use bi_search.Segment.Layout.{rest_content}
use bi_search.Segment.Due.{At, Went}
use bi_search.Segment.Filling.{Filled}
use bi_search.Segment.Rests.{push-Filled}

-- Another part is cut off while a big file's content is due and less than enough is cut.
abbrev pub goes_on : HeaderState → ℕ → Bool
goes_on st cp_sum =
    not (is_file_header st.tar.next_chunk_type) && ltb cp_sum (container_max_size - max_chunk_size)

abbrev part_round : HeaderState → TarState → Bytes → ℕ → Round
part_round st s' piece n = record {
  pushed = new_chunk piece true 0 false true ∷ [];
  cp = n;
  state = record st { tar = s'; local_type = st.tar.next_chunk_type };
  advanced = true;
}

big_is_big : (kind : FileType) (A : Type 0) → kind ≡ big_chunk → is_big kind ≡ false → A
unfolding is_big
big_is_big kind A at z = let clash : true ≡ false = sym (ap is_big at) ∙ z in absurd (ground arith)

module _ (room : ℕ) where
  pub cut_contents-suc :
      (fuel : ℕ) (st : HeaderState) (src piece : Bytes) (len cp_sum n : ℕ) (s' : TarState)
      → goes_on st cp_sum ≡ true
      → cut_point_tar_fast st.tar (drop cp_sum src) (sub64 len cp_sum) ≡ some (n, s')
      → n < 2 ^ 32
      → cp_sum + n ≤ room
      → copy n (drop cp_sum src) ≡ piece
      → cut_contents room (suc fuel) st src len cp_sum ≡ (
          if cp_sum + n == len
          then finished
              (part_round st s' piece n).pushed
              (cp_sum + n)
              (part_round st s' piece n).state
          else push_all
              (part_round st s' piece n).pushed
              (cut_contents room fuel (part_round st s' piece n).state src len (cp_sum + n)))
  unfolding cut_contents
  cut_contents-suc fuel st src piece len cp_sum n s' on run small fits first =
      let exact : n % 2 ^ 32 ≡ n = mod-eq_of_lt small in
      rw (cut_contents, on, run, exact, le→ltb _ _ fits, first) refl

  cut_contents-stop :
      (fuel : ℕ) (st : HeaderState) (src : Bytes) (len cp_sum : ℕ)
      → goes_on st cp_sum ≡ false
      → cut_contents room (suc fuel) st src len cp_sum ≡ finished [] cp_sum st
  unfolding cut_contents
  cut_contents-stop fuel st src len cp_sum stops = rw (cut_contents, stops) refl

  module _ (limit : ℕ) (word : room < 2 ^ 32) where
    stop-Filled :
        (st : HeaderState) (c : Bytes) (es : List Entry) (src : Bytes) (cp_sum : ℕ) (on : Bool)
        → on ≡ false
        → At limit st.tar c es
        → is_file_chunk st.tar.next_chunk_type ≡ false
        → drop cp_sum src ≡ c ++ archive es
        → cp_sum ≤ length src
        → Filled limit on st c es src cp_sum (finished [] cp_sum st)
    stop-Filled st c es src cp_sum on stops a no_file at within = record {
      stops = record {
        pushed = [];
        upto = cp_sum;
        state = st;
        due = c;
        entries = es;
        run = refl;
        at = a;
        src = at;
        from = omega arith;
        within = within;
        pieces = λ xs x. x;
        no_file = no_file;
      };
      collected = refl;
      no_header = refl;
      moved = λ z. absurd (ground arith);
    }

    -- A part of a big file.
    record PartCut (st : HeaderState) (c : Bytes) (es : List Entry) : Type 0 where
      size : ℕ
      next : TarState
      run :
          cut_point_tar_fast st.tar (c ++ archive es) (length (c ++ archive es)) ≡ some (size, next)
      some_bytes : 0 < size
      within : size ≤ length c
      went : Went limit st c es (part_round st next (take size c) size)
      no_file : is_file_chunk next.next_chunk_type ≡ false

    next_part :
        (st : HeaderState) (c : Bytes) (es : List Entry) (cp_sum : ℕ)
        → At limit st.tar c es
        → is_file_chunk st.tar.next_chunk_type ≡ false
        → goes_on st cp_sum ≡ true
        → PartCut st c es
    unfolding is_file_chunk is_file_header is_big new_chunk
    next_part st c es cp_sum a no_file on = go a.pending
      where
        go : Pending st.tar c → PartCut st c es
        go (at_header at nil) =
            let clash : true ≡ false = sym on ∙ (rw at refl) in absurd (ground arith)
        go (in_file at size) =
            let clash : true ≡ false = sym (rw at refl) ∙ no_file in absurd (ground arith)
        go (in_big at within due) =
            let (n, s', run, below, pending, some_bytes, quiet, same, still) =
              cut_big-Pending st.tar a.quiet c (length (c ++ archive es)) (c ++ archive es) at
                within due in
            record {
              size = n;
              next = s';
              run = run;
              some_bytes = some_bytes;
              within = below;
              went = record {
                due = drop n c;
                entries = es;
                at = record {
                  pending = pending;
                  quiet = quiet;
                  valid = a.valid;
                  same = same ∙ a.same;
                };
                src = drop-append_left n c (archive es) below;
                within = omega (arith, length-append c (archive es));
                collected = refl;
                no_header = refl;
                pieces = λ xs x.
                    rest_content limit st.tar.next_chunk_type s'.next_chunk_type n c es xs
                      some_bytes below (big_is_big st.tar.next_chunk_type (n ≡ length c) at) x;
              };
              no_file = still;
            }

    -- The second loop ends, at a header or within a big file, and its parts are in step with the
    -- contents; it keeps the collected headers.
    pub cut_contents-Filled :
        (fuel : ℕ) (st : HeaderState) (c : Bytes) (es : List Entry) (src : Bytes) (cp_sum : ℕ)
        → At limit st.tar c es
        → is_file_chunk st.tar.next_chunk_type ≡ false
        → length src ≤ room
        → cp_sum ≤ length src
        → drop cp_sum src ≡ c ++ archive es
        → length src - cp_sum < fuel
        → Filled limit
            (goes_on st cp_sum)
            st
            c
            es
            src
            cp_sum
            (cut_contents room fuel st src (length src) cp_sum)
    cut_contents-Filled zero st c es src cp_sum a no_file narrow before at f = absurd (omega arith)
    cut_contents-Filled (suc fuel) st c es src cp_sum a no_file narrow before at f =
        elim (Bool-cases (goes_on st cp_sum)) [
          | inr stops ↦
              subst (Filled limit (goes_on st cp_sum) st c es src cp_sum)
                (sym (cut_contents-stop fuel st src (length src) cp_sum stops))
                (stop-Filled st c es src cp_sum _ stops a no_file at before)
          | inl on ↦
              let left : length (c ++ archive es) ≡ length src - cp_sum =
                ap length (sym at) ∙ length-drop cp_sum src in
              let p : PartCut st c es = next_part st c es cp_sum a no_file on in
              let long = length-append c (archive es) in
              let within : cp_sum + p.size ≤ length src = omega (arith, p.within, left, long) in
              let exact : sub64 (length src) cp_sum ≡ length (c ++ archive es) =
                sub64_exact (length src) cp_sum (omega arith) (omega arith) ∙ sym left in
              let run : cut_point_tar_fast st.tar (drop cp_sum src) (sub64 (length src) cp_sum)
                  ≡ some (p.size, p.next) =
                ap (λ b. cut_point_tar_fast st.tar b (sub64 (length src) cp_sum)) at
                ∙ ap (cut_point_tar_fast st.tar (c ++ archive es)) exact
                ∙ p.run in
              let first : copy p.size (drop cp_sum src) ≡ take p.size c =
                ap (copy p.size) at
                ∙ copy-prefix p.size (c ++ archive es) (omega (arith, p.within, long))
                ∙ take-append_left p.size c (archive es) p.within in
              let behind : drop (cp_sum + p.size) src ≡ p.went.due ++ archive p.went.entries =
                drop-add cp_sum p.size src ∙ ap (drop p.size) at ∙ p.went.src in
              let r = part_round st p.next (take p.size c) p.size in
              subst (Filled limit (goes_on st cp_sum) st c es src cp_sum)
                (sym (
                  cut_contents-suc fuel st src (take p.size c) (length src) cp_sum p.size p.next on
                    run (omega (arith, within)) (omega (arith, within)) first))
                (after_part st c es src cp_sum r _ _ (λ z. p.some_bytes) p.went _
                  (stop-Filled r.state p.went.due p.went.entries src (cp_sum + p.size) false refl
                    p.went.at p.no_file behind within)
                  (cut_contents-Filled fuel r.state p.went.due p.went.entries src (cp_sum + p.size)
                    p.went.at p.no_file narrow within behind
                    (omega (arith, p.some_bytes, p.within, left, long))))
        ]
      where
        after_part :
            (st : HeaderState) (c : Bytes) (es : List Entry) (src : Bytes) (cp_sum : ℕ) (r : Round)
            (on on' : Bool)
            → (on ≡ true → 0 < r.cp)
            → (went : Went limit st c es r) → (o : Cutting)
            → Filled limit false r.state went.due went.entries src
                (cp_sum + r.cp)
                (finished [] (cp_sum + r.cp) r.state)
            → Filled limit on' r.state went.due went.entries src (cp_sum + r.cp) o
            → Filled limit on st c es src cp_sum (
                if cp_sum + r.cp == length src
                then finished r.pushed (cp_sum + r.cp) r.state
                else push_all r.pushed o)
        after_part st c es src cp_sum r on on' moved went o last rest =
            elim (Bool-cases (cp_sum + r.cp == length src)) [
              | inl finish ↦ rw finish (
                  subst
                    (λ d. Filled limit on st c es src cp_sum (finished d (cp_sum + r.cp) r.state))
                    (append-nil r.pushed)
                    (push-Filled limit st c es src cp_sum r _ on _ moved went last))
              | inr more ↦ rw more (push-Filled limit st c es src cp_sum r o on _ moved went rest)
            ]
