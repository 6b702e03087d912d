-- ===== src/Tar/Pending.antt =====
-- What is due after the header of an entry, as CutPointTarFast reads it.
use bi_search.Base.{
  ℕ, ◌-◌, ◌^◌, ◌<◌, ◌≡◌, ◌≢◌, refl, sym, ap, ◌∙◌, inl, inr, true, false, some, [], ◌∷◌, arith,
  Bytes, length, leb, ◌==◌, Bool-cases, ==→eq, ==→ne, ne→==,
}
use bi_search.Config.{regtype, aregtype, xhdtype, gnutype_longname}
use bi_search.Tar.{
  is_big, file_chunk, file_header, big_chunk, TarState, header_octal, type_flag, rounded_up, named,
  header_type,
}
use bi_search.Tar.Names.{last_slash, c_string, find_name}
use bi_search.Tar.Paths.{extract_path_fits}
use bi_search.Tar.Archive.{Entry, IsEntry}

-- The content `c` is due, and no long name is.
pub record IsQuiet (s : TarState) : Type 0 where
  pub no_first : s.is_long_name_chunk1 ≡ false

pub data Pending (s : TarState) (c : Bytes) : Type 0 where
  at_header : s.next_chunk_type ≡ file_header → c ≡ [] → Pending s c
  in_file : s.next_chunk_type ≡ file_chunk → length c ≡ rounded_up s.next_chunk_size → Pending s c
  in_big :
      s.next_chunk_type ≡ big_chunk
      → s.big_chunk_offset < s.big_chunk_size
      → length c ≡ s.big_chunk_size - s.big_chunk_offset
      → Pending s c

-- After the header of an entry its content is due. Only a large one is cut as a big file.
pub record After (s s' : TarState) (e : Entry) : Type 0 where
  pub pending : Pending s' e.content
  pub quiet : IsQuiet s'
  pub limit : s'.big_limit ≡ s.big_limit
  pub large : is_big s'.next_chunk_type ≡ true → s.big_limit < header_octal e.header

positive : (n : ℕ) → 0 < n → n < 2 ^ 33 → 0 < rounded_up n
unfolding rounded_up
positive n h k = omega arith

leb→lt : (a b : ℕ) → leb a b ≡ false → b < a
leb→lt a b h = ground arith

nothing_due : rounded_up 0 ≡ 0
unfolding rounded_up
nothing_due = omega arith

length_zero : (xs : Bytes) → length xs ≡ 0 → xs ≡ []
length_zero [] e = refl
length_zero (x ∷ xs) e = absurd (omega arith)

named_fits :
    (s : TarState) (src : Bytes)
    → ((i : ℕ) → last_slash (c_string src) ≡ some i → i < 100)
    → (p : ℕ → ℕ) × (named s src ≡ some (record s { name = find_name s.name src; path = p }))
unfolding named
named_fits s src h = let (p, e) = extract_path_fits s.path src h in (p, rw (named, e) refl)

pub header_type-Pending :
    (s : TarState) (e : Entry) (src : Bytes)
    → IsEntry e
    → IsQuiet s
    → s.next_chunk_type ≡ file_header
    → ((i : ℕ) → last_slash (c_string src) ≡ some i → i < 100)
    → type_flag src ≡ type_flag e.header
    → s.next_chunk_size ≡ header_octal e.header
    → (s' : TarState) × (header_type s src ≡ some s') × After s s' e
unfolding header_type is_big
header_type-Pending s e src v q at fits flag size = elim (Bool-cases (type_flag src == regtype)) [
  | inl regular ↦
      let reg : type_flag e.header ≡ regtype = sym flag ∙ ==→eq _ _ regular in
      let content : length e.content ≡ rounded_up (header_octal e.header) =
        v.content ∙ (rw (reg) refl) in
      elim (Bool-cases (leb s.next_chunk_size s.big_limit)) [
        | inl small ↦
            let (p, named_eq) = named_fits (record s { next_chunk_type = file_chunk }) src fits in
            (
              record s { next_chunk_type = file_chunk; name = find_name s.name src; path = p },
              rw (header_type, regular, small) named_eq,
              record {
                pending = in_file refl (content ∙ ap rounded_up (sym size));
                quiet = record { no_first = q.no_first };
                limit = refl;
                large = λ z. absurd (ground arith);
              },
            )
        | inr large ↦ (
          record s {
            next_chunk_type = big_chunk;
            name_exist = true;
            big_chunk_size = rounded_up s.next_chunk_size;
            big_chunk_offset = 0;
          },
          rw (header_type, regular, large) refl,
          record {
            pending =
                in_big refl
                  (positive s.next_chunk_size (omega (arith, leb→lt _ _ large))
                    (omega (arith, size, v.size reg)))
                  (content ∙ ap rounded_up (sym size) ∙ omega arith);
            quiet = record { no_first = q.no_first };
            limit = refl;
            large = λ z. omega (arith, leb→lt _ _ large, size);
          },
        )
      ]
  | inr other ↦
      let not_reg : type_flag e.header ≢ regtype = λ z. ==→ne _ _ other (flag ∙ z) in
      let content : length e.content ≡ 0 = v.content ∙ (rw (ne→== _ _ not_reg) refl) in
      elim (Bool-cases (type_flag src == aregtype)) [
        | inl old ↦
            let (p, named_eq) =
              named_fits (record s { next_chunk_type = file_chunk; next_chunk_size = 0 }) src
                fits in
            (
              record s {
                next_chunk_type = file_chunk;
                next_chunk_size = 0;
                name = find_name s.name src;
                path = p;
              },
              rw (header_type, other, old) named_eq,
              record {
                pending = in_file refl (content ∙ sym nothing_due);
                quiet = record { no_first = q.no_first };
                limit = refl;
                large = λ z. absurd (ground arith);
              },
            )
        | inr none_of_these ↦
            let not_x : (type_flag src == xhdtype) ≡ false =
              ne→== _ _ (λ z. v.not_extended (sym flag ∙ z)) in
            let not_l : (type_flag src == gnutype_longname) ≡ false =
              ne→== _ _ (λ z. v.not_long (sym flag ∙ z)) in
            (
              s,
              rw (header_type, other, none_of_these, not_x, not_l) refl,
              record {
                pending = at_header at (length_zero e.content content);
                quiet = q;
                limit = refl;
                large = rw at (λ z. absurd (ground arith));
              },
            )
      ]
]
