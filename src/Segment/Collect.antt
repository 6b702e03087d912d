-- ===== src/Segment/Collect.antt =====
-- The first loop of CutPointTarHeader over an archive.
use bi_search.Base.{
  ℕ, zero, suc, ◌+◌, ◌-◌, ◌*◌, ◌^◌, ◌≤◌, ◌<◌, ◌≡◌, ◌⊎◌, refl, sym, ap, ◌∙◌, subst, inl, inr, Bool,
  true, false, some, List, [], ◌∷◌, ◌++◌, arith, Bytes, if◌then◌else◌, ◌==◌, length, drop, drop-add,
  length-drop, Bool-cases, ==→ne, ==→eq,
}
use bi_search.Chunking.{sub64}
use bi_search.Chunking.Complete.{sub64_exact}
use bi_search.Tar.{file_chunk, file_header, is_file_header, is_file_chunk, cut_point_tar_fast}
use bi_search.Tar.Archive.{Entry, archive}
use bi_search.Tar.Pending.{Pending, at_header, in_file, in_big}
use bi_search.Segment.{HeaderState, Round, fills_headers, fill_headers, header_round}
use bi_search.Segment.Headers.{header_round-header, header_round-content}
use bi_search.Segment.Due.{At, Went, Goes}
use bi_search.Segment.Filling.{
  Filled, collects, fills_at_file, fills_at_big, fills_at_header, after_round, fill_headers-suc,
  fill_headers-stop,
}
use bi_search.Mtar.Selected.{weight, weight_at_most_one}
use bi_search.Segment.Rests.{IsBlocks, back-Filled, push-Filled}

module _ (limit : ℕ) where
  module _ (multi_header_chunk header_room room : ℕ)
      (enough_room : multi_header_chunk * 512 ≤ header_room) (word : room < 2 ^ 32) where
    -- Which round comes next, where there is one.
    pub next_round :
        (st : HeaderState) (c : Bytes) (es : List Entry) (cp_sum : ℕ)
        → At limit st.tar c es
        → IsBlocks st
        → (is_file_chunk st.tar.next_chunk_type ≡ true → is_file_header st.local_type ≡ true)
        → 0 < length (c ++ archive es)
        → cp_sum + length (c ++ archive es) ≤ room
        → fills_headers multi_header_chunk st ≡ true
        → Goes limit header_room room st c es cp_sum
    next_round st c es cp_sum a blocks local some_left fits fills = go es a.pending a some_left fits
      where
        go :
            (es : List Entry)
            → Pending st.tar c
            → At limit st.tar c es
            → 0 < length (c ++ archive es)
            → cp_sum + length (c ++ archive es) ≤ room
            → Goes limit header_room room st c es cp_sum
        go [] (at_header at nil) a some_left fits =
            absurd (omega (arith, ap length (ap (λ b. b ++ archive []) nil)))
        go (e ∷ es) (at_header at nil) a some_left fits =
            subst (λ b. Goes limit header_room room st b (e ∷ es) cp_sum) (sym nil)
              (header_round-header limit header_room room st e es cp_sum
                (subst (λ b. At limit st.tar b (e ∷ es)) nil a) at
                (omega (
                  arith,
                  fills_at_header multi_header_chunk st blocks.blocks at blocks.whole fills,
                ))
                (subst (λ b. cp_sum + length (b ++ archive (e ∷ es)) ≤ room) nil fits))
        go es (in_file at size) a some_left fits =
            header_round-content limit header_room room st c es cp_sum a at size fits
        go es (in_big at within size) a some_left fits =
            let clash : true ≡ false = sym fills ∙ fills_at_big multi_header_chunk st at in
            absurd (ground arith)

    -- Where the loop stops, no small file's content is due.
    stops_at :
        (st : HeaderState) (c : Bytes)
        → Pending st.tar c
        → (is_file_chunk st.tar.next_chunk_type ≡ true → is_file_header st.local_type ≡ true)
        → fills_headers multi_header_chunk st ≡ false
        → is_file_chunk st.tar.next_chunk_type ≡ false
    unfolding is_file_chunk
    stops_at st c (at_header at nil) local stops = rw at refl
    stops_at st c (in_big at within size) local stops = rw at refl
    stops_at st c (in_file at size) local stops =
        let clash : true ≡ false =
          sym (fills_at_file multi_header_chunk st at (local (rw at refl))) ∙ stops in
        absurd (ground arith)

    pub IsBlocks-grow :
        (st st' : HeaderState)
        → IsBlocks st
        → (((is_file_header st.tar.next_chunk_type ≡ false)
              × (length st'.header_buffer ≡ length st.header_buffer))
            ⊎ ((st.tar.next_chunk_type ≡ file_header)
                × (length st'.header_buffer ≡ length st.header_buffer + 512)))
        → IsBlocks st'
    IsBlocks-grow st st' b (inl (plain, same)) = record {
      blocks = b.blocks;
      whole = same ∙ b.whole;
    }
    IsBlocks-grow st st' b (inr (at, more)) = record {
      blocks = b.blocks + 1;
      whole = more ∙ omega (arith, b.whole);
    }

    -- A round takes bytes, or goes from an empty content to a header.
    pub shorter :
        (st : HeaderState) (r : Round) (left : ℕ)
        → (((r.advanced ≡ true) × (0 < r.cp))
            ⊎ ((r.advanced ≡ false)
                × (r.cp ≡ 0)
                × (r.state.tar.next_chunk_type ≡ file_header)
                × (st.tar.next_chunk_type ≡ file_chunk)))
        → 0 < left
        → ((r.advanced ≡ true) ⊎ ((r.advanced ≡ false) × (r.cp ≡ 0)))
          × (2 * (left - r.cp) + weight r.state.tar.next_chunk_type
              < 2 * left + weight st.tar.next_chunk_type)
    shorter st r left (inl (advanced, some_bytes)) h =
        (inl advanced, omega (arith, weight_at_most_one r.state.tar.next_chunk_type))
    shorter st r left (inr (again, none_cut, back, from)) h =
        (inr (again, none_cut), omega (arith, none_cut, ap weight back, ap weight from))

    moves :
        (st : HeaderState) (r : Round)
        → (((r.advanced ≡ true) × (0 < r.cp))
            ⊎ ((r.advanced ≡ false)
                × (r.cp ≡ 0)
                × (r.state.tar.next_chunk_type ≡ file_header)
                × (st.tar.next_chunk_type ≡ file_chunk)))
        → collects multi_header_chunk st ≡ true
        → 0 < r.cp
    unfolding is_file_header
    moves st r (inl (advanced, some_bytes)) z = some_bytes
    moves st r (inr (again, none_cut, back, from)) z =
        let clash : collects multi_header_chunk st ≡ false =
          never (fills_headers multi_header_chunk st) (is_file_header st.tar.next_chunk_type)
            (rw from refl) in
        absurd (ground arith)
      where
        never : (b k : Bool) → k ≡ false → (if b then k else false) ≡ false
        never true k e = e
        never false k e = refl

    after_round-Filled :
        (fuel : ℕ) (st : HeaderState) (c : Bytes) (es : List Entry) (src : Bytes) (cp_sum : ℕ)
        (r : Round) (on : Bool)
        → (on ≡ true → 0 < r.cp)
        → (went : Went limit st c es r) → drop cp_sum src ≡ c ++ archive es
        → cp_sum + r.cp ≤ length src
        → cp_sum < length src
        → ((r.advanced ≡ true) ⊎ ((r.advanced ≡ false) × (r.cp ≡ 0)))
        → (cp_sum + r.cp < length src
            → Filled limit
                (collects multi_header_chunk r.state)
                r.state
                went.due
                went.entries
                src
                (cp_sum + r.cp)
                (fill_headers multi_header_chunk header_room room fuel r.state src
                  (length src)
                  (cp_sum + r.cp)))
        → Filled limit on st c es src cp_sum
            (after_round multi_header_chunk header_room room fuel r src (length src) cp_sum)
    after_round-Filled fuel st c es src cp_sum r on moved went at within before (inl advanced) ih =
        elim (Bool-cases (cp_sum + r.cp == length src)) [
          | inl finish ↦
              rw (advanced, finish)
                (back-Filled limit st c es src cp_sum r on moved went at (==→eq _ _ finish))
          | inr more ↦
              rw (advanced, more)
                (push-Filled limit st c es src cp_sum r _ on _ moved went
                  (ih (omega (arith, ==→ne _ _ more))))
        ]
    after_round-Filled fuel st c es src cp_sum r on moved went at within before
          (inr (again, none_cut)) ih =
        rw again
          (push-Filled limit st c es src cp_sum r _ on _ moved went (ih (omega (arith, none_cut))))

    -- The first loop ends, at a header or a big file, and what it pushes and collects is in step
    -- with the entries.
    pub fill_headers-Filled :
        (fuel : ℕ) (st : HeaderState) (c : Bytes) (es : List Entry) (src : Bytes) (cp_sum : ℕ)
        → At limit st.tar c es
        → IsBlocks st
        → (is_file_chunk st.tar.next_chunk_type ≡ true → is_file_header st.local_type ≡ true)
        → length src ≤ room
        → cp_sum < length src
        → drop cp_sum src ≡ c ++ archive es
        → 2 * (length src - cp_sum) + weight st.tar.next_chunk_type < fuel
        → Filled limit
            (collects multi_header_chunk st)
            st
            c
            es
            src
            cp_sum
            (fill_headers multi_header_chunk header_room room fuel st src (length src) cp_sum)
    unfolding fill_headers
    fill_headers-Filled zero st c es src cp_sum a b local narrow before at f = absurd (omega arith)
    fill_headers-Filled (suc fuel) st c es src cp_sum a b local narrow before at f =
        elim (Bool-cases (fills_headers multi_header_chunk st)) [
          | inr stops ↦
              subst (Filled limit (collects multi_header_chunk st) st c es src cp_sum)
                (sym (
                  fill_headers-stop multi_header_chunk header_room room fuel st src (length src)
                    cp_sum stops))
                (record {
                  stops = record {
                    pushed = [];
                    upto = cp_sum;
                    state = st;
                    due = c;
                    entries = es;
                    run = refl;
                    at = a;
                    src = at;
                    from = omega arith;
                    within = omega arith;
                    pieces = λ xs x. x;
                    no_file = stops_at st c a.pending local stops;
                  };
                  collected = refl;
                  no_header = refl;
                  moved = rw stops (λ z. absurd (ground arith));
                })
          | inl fills ↦
              let left : length (c ++ archive es) ≡ length src - cp_sum =
                ap length (sym at) ∙ length-drop cp_sum src in
              let goes : Goes limit header_room room st c es cp_sum =
                next_round st c es cp_sum a b local (omega (arith, left)) (omega (arith, left))
                  fills in
              let r = goes.round in
              let exact : sub64 (length src) cp_sum ≡ length (c ++ archive es) =
                sub64_exact (length src) cp_sum (omega arith) (omega arith) ∙ sym left in
              let run : cut_point_tar_fast st.tar (drop cp_sum src) (sub64 (length src) cp_sum)
                  ≡ some (goes.cut, goes.tar) =
                ap (λ b. cut_point_tar_fast st.tar b (sub64 (length src) cp_sum)) at
                ∙ ap (cut_point_tar_fast st.tar (c ++ archive es)) exact
                ∙ goes.run in
              let result =
                ap (λ b. header_round header_room room st goes.tar b cp_sum goes.cut) at
                ∙ goes.result in
              let within : cp_sum + r.cp ≤ length src = omega (arith, goes.went.within, left) in
              let (advance, less) =
                shorter st r (length src - cp_sum) goes.progress (omega arith) in
              subst (Filled limit (collects multi_header_chunk st) st c es src cp_sum)
                (sym (
                  fill_headers-suc multi_header_chunk header_room room fuel st src (length src)
                    cp_sum goes.cut goes.tar r fills run (omega (arith, goes.small)) result))
                (after_round-Filled fuel st c es src cp_sum r _ (moves st r goes.progress) goes.went
                  at within before advance
                  (λ more.
                    fill_headers-Filled fuel r.state goes.went.due goes.went.entries src
                      (cp_sum + r.cp) goes.went.at (IsBlocks-grow st r.state b goes.grown)
                      goes.after_header narrow more
                      (drop-add cp_sum r.cp src ∙ ap (drop r.cp) at ∙ goes.went.src)
                      (omega (arith, less))))
        ]
