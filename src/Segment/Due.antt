-- ===== src/Segment/Due.antt =====
-- What is due in the first loop of CutPointTarHeader, and what one of its rounds does.
use bi_search.Base.{
  ℕ, ◌+◌, ◌≤◌, ◌<◌, ◌≡◌, ◌⊎◌, refl, sym, ap, ◌∙◌, inl, inr, true, false, some, List, [], ◌∷◌, ◌++◌,
  arith, Bytes, length, drop, copy, Bool-cases, le→ltb, ne→==,
}
use bi_search.Tar.{
  FileType, file_chunk, file_header, is_file_header, is_file_chunk, TarState, cut_point_tar_fast,
}
use bi_search.Tar.Archive.{Entry, AllEntries, archive, headers}
use bi_search.Tar.Pending.{IsQuiet, Pending, at_header, in_file, in_big}
use bi_search.Segment.{HeaderState, Round, header_round, chunk_name, new_chunk}
use bi_search.Segment.Layout.{header_pieces, data_pieces, Follow}

pub length_zero : (xs : Bytes) → length xs ≡ 0 → xs ≡ []
length_zero [] e = refl
length_zero (x ∷ xs) e = absurd (omega arith)

-- A content that is due is no header.
pub file_after_header :
    (kind local : FileType)
    → kind ≡ file_header
    → is_file_chunk kind ≡ true
    → is_file_header local ≡ true
unfolding is_file_chunk
file_after_header kind local e z =
    let clash : true ≡ false = sym z ∙ ap is_file_chunk e in absurd (ground arith)

module _ (limit : ℕ) where
  -- The content `c` is due before the entries.
  pub record At (s : TarState) (c : Bytes) (es : List Entry) : Type 0 where
    pub pending : Pending s c
    pub quiet : IsQuiet s
    pub valid : AllEntries es
    pub same : s.big_limit ≡ limit

  abbrev pub cleared : TarState → TarState
  cleared s = record s { is_long_name_chunk1 = false; is_long_name_chunk2 = false }

  cleared-Pending : (s : TarState) (c : Bytes) → Pending s c → Pending (cleared s) c
  cleared-Pending s c (at_header a e) = at_header a e
  cleared-Pending s c (in_file a e) = in_file a e
  cleared-Pending s c (in_big a b e) = in_big a b e

  pub cleared-At : (s : TarState) (c : Bytes) (es : List Entry) → At s c es → At (cleared s) c es
  cleared-At s c es a = record {
    pending = cleared-Pending s c a.pending;
    quiet = record { no_first = refl };
    valid = a.valid;
    same = a.same;
  }

  -- Naming a chunk leaves what is due.
  pub chunk_name-At :
      (s : TarState) (c : Bytes) (es : List Entry)
      → At s c es
      → At (chunk_name s).1 c es × ((chunk_name s).1.next_chunk_type ≡ s.next_chunk_type)
  unfolding chunk_name
  chunk_name-At s c es a = elim (Bool-cases s.is_long_name_chunk2) [
    | inl second ↦ rw (a.quiet.no_first, second) (cleared-At s c es a, refl)
    | inr plain ↦ rw (a.quiet.no_first, plain) (cleared-At s c es a, refl)
  ]

  -- A round of the loop, from the entries `es` with `c` due.
  pub record Went (st : HeaderState) (c : Bytes) (es : List Entry) (r : Round) : Type 0 where
    pub due : Bytes
    pub entries : List Entry
    pub at : At r.state.tar due entries
    pub src : drop r.cp (c ++ archive es) ≡ due ++ archive entries
    pub within : r.cp ≤ length (c ++ archive es)
    pub collected : r.state.header_buffer ++ headers entries ≡ st.header_buffer ++ headers es
    pub no_header : header_pieces r.pushed ≡ []
    pub pieces :
        (xs : List Bytes)
        → Follow limit r.state.tar.next_chunk_type due entries xs
        → Follow limit st.tar.next_chunk_type c es (data_pieces r.pushed ++ xs)

  module _ (header_room room : ℕ) where
    pub round_of_header :
        (st : HeaderState) (s' : TarState) (src h : Bytes) (cp_sum cp : ℕ)
        → st.tar.next_chunk_type ≡ file_header
        → length st.header_buffer + cp ≤ header_room
        → cp_sum + cp ≤ room
        → copy cp src ≡ h
        → header_round header_room room st s' src cp_sum cp
          ≡ some (record {
            pushed = [];
            cp = cp;
            state = record {
              tar = s';
              local_type = file_header;
              header_buffer = st.header_buffer ++ h;
            };
            advanced = true;
          })
    unfolding header_round is_file_header
    round_of_header st s' src h cp_sum cp at fits_buffer fits first =
        rw (header_round, at, le→ltb _ _ fits_buffer, le→ltb _ _ fits, first) refl

    pub round_of_nothing :
        (st : HeaderState) (s' : TarState) (src : Bytes) (cp_sum : ℕ)
        → st.tar.next_chunk_type ≡ file_chunk
        → header_round header_room room st s' src cp_sum 0
          ≡ some (record {
            pushed = [];
            cp = 0;
            state = record { tar = s'; local_type = file_chunk; header_buffer = st.header_buffer };
            advanced = false;
          })
    unfolding header_round is_file_header
    round_of_nothing st s' src cp_sum at = rw (header_round, at) refl

    pub round_of_content :
        (st : HeaderState) (s' : TarState) (src h : Bytes) (cp_sum cp : ℕ)
        → st.tar.next_chunk_type ≡ file_chunk
        → 0 < cp
        → cp_sum + cp ≤ room
        → copy cp src ≡ h
        → header_round header_room room st s' src cp_sum cp
          ≡ some (record {
            pushed = new_chunk h s'.name_exist (chunk_name s').0 false false ∷ [];
            cp = cp;
            state = record {
              tar = (chunk_name s').1;
              local_type = file_chunk;
              header_buffer = st.header_buffer;
            };
            advanced = true;
          })
    unfolding header_round is_file_header
    round_of_content st s' src h cp_sum cp at some_bytes fits first =
        rw (header_round, at, ne→== cp 0 (λ z. omega (arith, z)), le→ltb _ _ fits, first) refl

    -- A round at `c` and `es`, run on what is left of the buffer.
    pub record Goes (st : HeaderState) (c : Bytes) (es : List Entry) (cp_sum : ℕ) : Type 0 where
      pub cut : ℕ
      pub tar : TarState
      pub round : Round
      pub run :
          cut_point_tar_fast st.tar (c ++ archive es) (length (c ++ archive es)) ≡ some (cut, tar)
      pub small : cut ≡ round.cp
      pub result : header_round header_room room st tar (c ++ archive es) cp_sum cut ≡ some round
      pub went : Went st c es round
      pub progress :
          ((round.advanced ≡ true) × (0 < round.cp))
          ⊎ ((round.advanced ≡ false)
              × (round.cp ≡ 0)
              × (round.state.tar.next_chunk_type ≡ file_header)
              × (st.tar.next_chunk_type ≡ file_chunk))
      pub grown :
          ((is_file_header st.tar.next_chunk_type ≡ false)
            × (length round.state.header_buffer ≡ length st.header_buffer))
          ⊎ ((st.tar.next_chunk_type ≡ file_header)
              × (length round.state.header_buffer ≡ length st.header_buffer + 512))
      -- A content follows its header at once.
      pub after_header :
          is_file_chunk round.state.tar.next_chunk_type ≡ true
          → is_file_header round.state.local_type ≡ true
