-- ===== src/Segment/Counted.antt =====
-- The first loop of CutPointTarHeader collects at least one header, and no more than asked for.
use bi_search.Base.{
  ℕ, zero, suc, ◌+◌, ◌-◌, ◌*◌, ◌^◌, ◌≤◌, ◌<◌, ◌≡◌, ◌⊎◌, refl, sym, ap, ◌∙◌, subst, inl, inr, Bool,
  true, false, some, List, ◌++◌, arith, Bytes, ◌==◌, length, drop, drop-add, length-drop,
  Bool-cases, ==→ne,
}
use bi_search.Chunking.{sub64}
use bi_search.Chunking.Complete.{sub64_exact}
use bi_search.Types.{Chunk}
use bi_search.Tar.{is_file_header, is_file_chunk, file_header, cut_point_tar_fast}
use bi_search.Tar.Archive.{Entry, archive}
use bi_search.Segment.{
  HeaderState, Round, Cutting, finished, undefined, running, push_all, fills_headers,
  back_to_header, fill_headers, header_round,
}
use bi_search.Segment.Due.{At, Goes}
use bi_search.Segment.Filling.{
  collects, fills_at_header, after_round, fill_headers-suc, fill_headers-stop,
}
use bi_search.Segment.Collect.{IsBlocks-grow, next_round, shorter}
use bi_search.Segment.Rests.{IsBlocks}
use bi_search.Mtar.Selected.{weight}

-- Whole headers, at least `size` bytes and at most `bound`; more than `size` where `on`.
pub record HeadCount (bound size : ℕ) (on : Bool) (st : HeaderState) : Type 0 where
  pub blocks : IsBlocks st
  pub few : length st.header_buffer ≤ bound
  pub grows : size ≤ length st.header_buffer
  pub more : on ≡ true → size < length st.header_buffer

abbrev pub Counts : ℕ → ℕ → Bool → Cutting → Type 0
Counts bound size on (finished cs n st) = HeadCount bound size on st
Counts bound size on undefined = Unit {0}
Counts bound size on running = Unit {0}

push_all-Counts :
    (cs : List Chunk) (o : Cutting) (bound size size' : ℕ) (on on' : Bool)
    → size ≤ size'
    → (on ≡ true → size < size')
    → Counts bound size' on' o
    → Counts bound size on (push_all cs o)
push_all-Counts cs (finished ds n st) bound size size' on on' less strictly k = record {
  blocks = k.blocks;
  few = k.few;
  grows = omega (arith, k.grows);
  more = λ z. omega (arith, strictly z, k.grows);
}
push_all-Counts cs undefined bound size size' on on' less strictly k = tt
push_all-Counts cs running bound size size' on on' less strictly k = tt

module _ (limit multi_header_chunk header_room room : ℕ)
    (enough_room : multi_header_chunk * 512 ≤ header_room) (word : room < 2 ^ 32) where
  -- What a round does to the count.
  grown_by :
      (st st' : HeaderState) (b : IsBlocks st)
      → fills_headers multi_header_chunk st ≡ true
      → (((is_file_header st.tar.next_chunk_type ≡ false)
            × (length st'.header_buffer ≡ length st.header_buffer))
          ⊎ ((st.tar.next_chunk_type ≡ file_header)
              × (length st'.header_buffer ≡ length st.header_buffer + 512)))
      → length st.header_buffer ≤ multi_header_chunk * 512
      → (length st'.header_buffer ≤ multi_header_chunk * 512)
        × (length st.header_buffer ≤ length st'.header_buffer)
        × (collects multi_header_chunk st ≡ true
            → length st.header_buffer < length st'.header_buffer)
  grown_by st st' b fills (inl (plain, same)) few =
      let clash : collects multi_header_chunk st ≡ false = rw (fills, plain) refl in
      (omega arith, omega arith, λ z. absurd (ground arith))
  grown_by st st' b fills (inr (at, more)) few =
      let room = fills_at_header multi_header_chunk st b.blocks at b.whole fills in
      (omega (arith, room), omega arith, λ z. omega arith)

  after_round-Counts :
      (fuel : ℕ) (st : HeaderState) (src : Bytes) (cp_sum : ℕ) (r : Round)
      → IsBlocks r.state
      → (length r.state.header_buffer ≤ multi_header_chunk * 512)
        × (length st.header_buffer ≤ length r.state.header_buffer)
        × (collects multi_header_chunk st ≡ true
            → length st.header_buffer < length r.state.header_buffer)
      → cp_sum + r.cp ≤ length src
      → cp_sum < length src
      → ((r.advanced ≡ true) ⊎ ((r.advanced ≡ false) × (r.cp ≡ 0)))
      → (cp_sum + r.cp < length src
          → Counts
              (multi_header_chunk * 512)
              (length r.state.header_buffer)
              (collects multi_header_chunk r.state)
              (fill_headers multi_header_chunk header_room room fuel r.state src
                (length src)
                (cp_sum + r.cp)))
      → Counts
          (multi_header_chunk * 512)
          (length st.header_buffer)
          (collects multi_header_chunk st)
          (after_round multi_header_chunk header_room room fuel r src (length src) cp_sum)
  unfolding back_to_header
  after_round-Counts fuel st src cp_sum r blocks (few, grows, strictly) within before (inl advanced)
        ih =
      elim (Bool-cases (cp_sum + r.cp == length src)) [
        | inl finish ↦
            rw (advanced, finish)
              (record {
                blocks = record { blocks = blocks.blocks; whole = blocks.whole };
                few = few;
                grows = grows;
                more = strictly;
              })
        | inr on ↦
            rw (advanced, on)
              (push_all-Counts r.pushed _ _ _ _ _ _ grows strictly
                (ih (omega (arith, ==→ne _ _ on))))
      ]
  after_round-Counts fuel st src cp_sum r blocks (few, grows, strictly) within before
        (inr (again, none_cut)) ih =
      rw again (push_all-Counts r.pushed _ _ _ _ _ _ grows strictly (ih (omega (arith, none_cut))))

  pub fill_headers-Counts :
      (fuel : ℕ) (st : HeaderState) (c : Bytes) (es : List Entry) (src : Bytes) (cp_sum : ℕ)
      → At limit st.tar c es
      → IsBlocks st
      → length st.header_buffer ≤ multi_header_chunk * 512
      → (is_file_chunk st.tar.next_chunk_type ≡ true → is_file_header st.local_type ≡ true)
      → length src ≤ room
      → cp_sum < length src
      → drop cp_sum src ≡ c ++ archive es
      → 2 * (length src - cp_sum) + weight st.tar.next_chunk_type < fuel
      → Counts
          (multi_header_chunk * 512)
          (length st.header_buffer)
          (collects multi_header_chunk st)
          (fill_headers multi_header_chunk header_room room fuel st src (length src) cp_sum)
  fill_headers-Counts zero st c es src cp_sum a b few local narrow before at f =
      absurd (omega arith)
  fill_headers-Counts (suc fuel) st c es src cp_sum a b few local narrow before at f =
      elim (Bool-cases (fills_headers multi_header_chunk st)) [
        | inr stops ↦
            subst
              (Counts (multi_header_chunk * 512) (length st.header_buffer)
                (collects multi_header_chunk st))
              (sym (
                fill_headers-stop multi_header_chunk header_room room fuel st src (length src)
                  cp_sum stops))
              (record {
                blocks = b;
                few = few;
                grows = omega arith;
                more = rw stops (λ z. absurd (ground arith));
              })
        | inl fills ↦
            let left : length (c ++ archive es) ≡ length src - cp_sum =
              ap length (sym at) ∙ length-drop cp_sum src in
            let goes : Goes limit header_room room st c es cp_sum =
              next_round limit multi_header_chunk header_room room enough_room word st c es cp_sum a
                b local (omega (arith, left)) (omega (arith, left)) fills in
            let r = goes.round in
            let exact : sub64 (length src) cp_sum ≡ length (c ++ archive es) =
              sub64_exact (length src) cp_sum (omega arith) (omega arith) ∙ sym left in
            let run : cut_point_tar_fast st.tar (drop cp_sum src) (sub64 (length src) cp_sum)
                ≡ some (goes.cut, goes.tar) =
              ap (λ b. cut_point_tar_fast st.tar b (sub64 (length src) cp_sum)) at
              ∙ ap (cut_point_tar_fast st.tar (c ++ archive es)) exact
              ∙ goes.run in
            let result =
              ap (λ b. header_round header_room room st goes.tar b cp_sum goes.cut) at
              ∙ goes.result in
            let within : cp_sum + r.cp ≤ length src = omega (arith, goes.went.within, left) in
            let (advance, less) =
              shorter limit multi_header_chunk header_room room enough_room word st r
                (length src - cp_sum) goes.progress (omega arith) in
            let blocks =
              IsBlocks-grow limit multi_header_chunk header_room room enough_room word st r.state b
                goes.grown in
            let count = grown_by st r.state b fills goes.grown few in
            subst
              (Counts (multi_header_chunk * 512) (length st.header_buffer)
                (collects multi_header_chunk st))
              (sym (
                fill_headers-suc multi_header_chunk header_room room fuel st src (length src) cp_sum
                  goes.cut goes.tar r fills run (omega (arith, goes.small)) result))
              (after_round-Counts fuel st src cp_sum r blocks count within before advance (λ more.
                fill_headers-Counts fuel r.state goes.went.due goes.went.entries src (cp_sum + r.cp)
                  goes.went.at blocks count.0 goes.after_header narrow more
                  (drop-add cp_sum r.cp src ∙ ap (drop r.cp) at ∙ goes.went.src)
                  (omega (arith, less))))
      ]
