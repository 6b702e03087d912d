-- ===== src/Rebuild/Header.antt =====
-- What restoreHeaderFile reads of a header, in step with what chunking did with it.
use bi_search.Base.{
  ℕ, zero, suc, ◌+◌, ◌-◌, ◌≤◌, ◌<◌, ◌≡◌, ◌⊎◌, dec_le, refl, sym, ◌∙◌, inl, inr, true, [], ◌∷◌,
  arith, Bytes, Memory, leb, ◌==◌, length, get_or, take, drop, write_at, read_at, Bool-cases,
  leb→le, le→leb, ==→eq, ne→==, lt→ltb,
}
use bi_search.Config.{regtype, aregtype, container_max_size}
use bi_search.Tar.{file_chunk, file_header, big_chunk, header_octal, type_flag, rounded_up}
use bi_search.Tar.Archive.{Entry, IsEntry}
use bi_search.Rebuild.{RestoreTar, restore_sized, restore_header, plain_loop}

take_one :
    (off : ℕ) (bs : Bytes) (n : ℕ)
    → off < length bs
    → take (suc n) (drop off bs) ≡ get_or bs off 0 ∷ take n (drop (off + 1) bs)
take_one off [] n h = absurd (omega arith)
take_one zero (b ∷ bs) n h = refl
take_one (suc off) (b ∷ bs) n h =
    let e : suc off + 1 ≡ suc (off + 1) = omega arith in rw e (take_one off bs n (omega arith))

write_at_start :
    (d : Memory) (bs : Bytes) (i : ℕ) → i < length bs → write_at d 0 bs i ≡ get_or bs i 0
unfolding write_at
write_at_start d bs i h =
    let same : i - 0 ≡ i = omega arith in
    rw (le→leb 0 i (omega arith), lt→ltb i (0 + length bs) (omega arith), same) refl

-- Reading what was copied to the start of a buffer.
pub read_at_copied :
    (d : Memory) (bs : Bytes) (off n : ℕ)
    → off + n ≤ length bs
    → read_at (write_at d 0 bs) off n ≡ take n (drop off bs)
unfolding read_at
read_at_copied d bs off zero h = refl
read_at_copied d bs off (suc n) h =
    rw (write_at_start d bs off (omega arith), read_at_copied d bs (off + 1) n (omega arith))
      (sym (take_one off bs n (omega arith)))

-- A header of type AREGTYPE, as the zero blocks at the end of an archive, has no digits.
abbrev pub NoDigits : Entry → Type 0
NoDigits e = type_flag e.header ≡ aregtype → plain_loop 11 0 (drop 124 e.header) ≡ 0

-- What a header says of its content.
pub data Says (e : Entry) (s : RestoreTar) : Type 0 where
  no_content :
      length e.content ≡ 0 → (s.next_chunk_size ≡ 0) ⊎ (s.next_chunk_type ≡ file_header) → Says e s
  one_chunk :
      s.next_chunk_type ≡ file_chunk
      → 0 < s.next_chunk_size
      → 0 < length e.content
      → header_octal e.header ≤ container_max_size
      → Says e s
  parts :
      s.next_chunk_type ≡ big_chunk
      → 0 < s.next_chunk_size
      → s.big_chunk_size ≡ length e.content
      → 0 < length e.content
      → Says e s

restored_regular :
    (s : RestoreTar) (e : Entry)
    → IsEntry e
    → type_flag e.header ≡ regtype
    → s.next_chunk_size ≡ header_octal e.header
    → Says e (restore_sized s)
unfolding restore_sized rounded_up
restored_regular s e v reg size =
    let content : length e.content ≡ rounded_up (header_octal e.header) = v.content ∙ rw reg refl in
    elim (dec_le (header_octal e.header) 0) [
      | yes empty ↦
          let small : leb s.next_chunk_size container_max_size ≡ true = le→leb _ _ (omega arith) in
          rw (restore_sized, small) (no_content (omega arith) (inl (omega arith)))
      | no some_bytes ↦ elim (Bool-cases (leb s.next_chunk_size container_max_size)) [
        | inl small ↦
            rw (restore_sized, small)
              (one_chunk refl (omega arith) (omega (arith, v.size reg))
                (omega (arith, leb→le _ _ small)))
        | inr large ↦
            rw (restore_sized, large)
              (parts refl (omega arith) (omega (arith, content, size)) (omega (arith, v.size reg)))
      ]
    ]

-- For every entry the header says what its content is.
pub restore_header-Says :
    (s : RestoreTar) (e : Entry)
    → IsEntry e
    → NoDigits e
    → s.next_chunk_type ≡ file_header
    → Says e (restore_header s e.header)
unfolding restore_header
restore_header-Says s e v plain at = elim (Bool-cases (type_flag e.header == regtype)) [
  | inl regular ↦
      rw (restore_header, regular)
        (restored_regular (record s { next_chunk_size = header_octal e.header }) e v
          (==→eq _ _ regular) refl)
  | inr other ↦
      let content : length e.content ≡ 0 = v.content ∙ rw other refl in
      elim (Bool-cases (type_flag e.header == aregtype)) [
        | inl old ↦
            rw (restore_header, other, old, plain (==→eq _ _ old)) (no_content content (inl refl))
        | inr not_old ↦
            let not_x = ne→== _ _ v.not_extended in
            let not_l = ne→== _ _ v.not_long in
            rw (restore_header, other, not_old, not_x, not_l) (no_content content (inr at))
      ]
]
