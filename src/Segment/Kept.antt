-- ===== src/Segment/Kept.antt =====
-- The second loop of CutPointTarHeader leaves headerBuffer as it is.
use bi_search.Base.{
  ℕ, zero, suc, ◌+◌, ◌%◌, ◌^◌, ◌≡◌, refl, inl, inr, true, false, List, [], ◌∷◌, Bytes,
  if◌then◌else◌, ltb, ◌==◌, drop, copy, Bool-cases, Option-cases,
}
use bi_search.Chunking.{sub64}
use bi_search.Types.{Chunk}
use bi_search.Tar.{cut_point_tar_fast}
use bi_search.Segment.{
  HeaderState, Cutting, finished, undefined, running, push_all, cut_contents, new_chunk,
}
use bi_search.Segment.Contents.{goes_on}

abbrev pub Keeps : Cutting → Bytes → Type 0
Keeps (finished cs n st) b = st.header_buffer ≡ b
Keeps undefined b = Unit {0}
Keeps running b = Unit {0}

push_all-Keeps : (cs : List Chunk) (o : Cutting) (b : Bytes) → Keeps o b → Keeps (push_all cs o) b
push_all-Keeps cs (finished ds n st) b k = k
push_all-Keeps cs undefined b k = tt
push_all-Keeps cs running b k = tt

module _ (room : ℕ) where
  -- What the code does with a cut, before a rest `o` of the loop.
  after_cut :
      (pushed : List Chunk) (st' : HeaderState) (len upto : ℕ) (o : Cutting)
      → Keeps o st'.header_buffer
      → Keeps
          (if ltb room upto
            then undefined
            else if upto == len
            then finished pushed upto st'
            else push_all pushed o)
          st'.header_buffer
  after_cut pushed st' len upto o k = elim (Bool-cases (ltb room upto)) [
    | inl over ↦ rw over tt
    | inr fits ↦ elim (Bool-cases (upto == len)) [
      | inl last ↦ rw (fits, last) refl
      | inr more ↦ rw (fits, more) (push_all-Keeps pushed o st'.header_buffer k)
    ]
  ]

  pub cut_contents-Keeps :
      (fuel : ℕ) (st : HeaderState) (src : Bytes) (len cp_sum : ℕ)
      → Keeps (cut_contents room fuel st src len cp_sum) st.header_buffer
  unfolding cut_contents
  cut_contents-Keeps zero st src len cp_sum = tt
  cut_contents-Keeps (suc fuel) st src len cp_sum = elim (Bool-cases (goes_on st cp_sum)) [
    | inr stops ↦ rw (cut_contents, stops) refl
    | inl on ↦
        elim (Option-cases (cut_point_tar_fast st.tar (drop cp_sum src) (sub64 len cp_sum))) [
          | inl nothing ↦ rw (cut_contents, on, nothing) tt
          | inr (r, run) ↦
              let st' = record st { tar = r.1; local_type = st.tar.next_chunk_type } in
              let upto = cp_sum + r.0 % 2 ^ 32 in
              rw (cut_contents, on, run)
                (after_cut
                  (new_chunk (copy (r.0 % 2 ^ 32) (drop cp_sum src)) true 0 false true ∷ []) st' len
                  upto (cut_contents room fuel st' src len upto)
                  (cut_contents-Keeps fuel st' src len upto))
        ]
  ]
