-- ===== src/Tar/Entries.antt =====
-- CutPointTarFast over an archive: each call takes a header, or a part of the content that is due.
use bi_search.Base.{
  ℕ, ◌+◌, ◌-◌, ◌≤◌, ◌<◌, ◌≡◌, refl, sym, ap, ◌∙◌, inl, inr, true, false, some, ◌++◌, arith, Bytes,
  length, drop, drop_all, length-drop, ltb, if◌then◌else◌, Bool-cases, le→leb, ltb→lt,
}
use bi_search.Config.{fixed_max}
use bi_search.Cdc.{cut_point_fast_cdc, chunker_init}
use bi_search.Chunking.{cut_point}
use bi_search.Chunking.Windows.{fastcdc_range}
use bi_search.Tar.{
  is_file_chunk, file_chunk, file_header, big_chunk, TarState, header_octal, rounded_up, cut_header,
  cut_file, cut_big, after_file, cut_point_tar_fast,
}
use bi_search.Tar.Names.{last_slash, c_string}
use bi_search.Tar.Paths.{c_string-append}
use bi_search.Tar.Headers.{header_octal-append, type_flag-append}
use bi_search.Tar.Archive.{Entry, IsEntry}
use bi_search.Tar.Pending.{IsQuiet, Pending, After, header_type-Pending, at_header, in_big}

big_cut :
    (src : Bytes) (left : ℕ)
    → 0 < left
    → (0 < cut_point_fast_cdc chunker_init src left)
      × (cut_point_fast_cdc chunker_init src left ≤ left)
      × (cut_point_fast_cdc chunker_init src left ≤ 16384)
big_cut src left h = unfold cut_point in (fastcdc_range src left h)

module _ (s : TarState) (q : IsQuiet s) where
  -- A header is cut whole, and then its entry's content is due.
  pub cut_header-Pending :
      (e : Entry) (rest : Bytes) (len : ℕ)
      → IsEntry e
      → s.next_chunk_type ≡ file_header
      → 512 ≤ len
      → (s' : TarState) × (cut_point_tar_fast s (e.header ++ rest) len ≡ some (512, s'))
        × After s s' e
  unfolding cut_point_tar_fast cut_header
  cut_header-Pending e rest len v at enough =
      let src = e.header ++ rest in
      let same : c_string src ≡ c_string e.header =
        c_string-append e.header rest (omega (arith, v.ends, v.block)) in
      let short : (i : ℕ) → last_slash (c_string src) ≡ some i → i < 100 =
        λ i at_last. v.name i (ap last_slash (sym same) ∙ at_last) in
      let (s', run, after) =
        header_type-Pending (record s { next_chunk_size = header_octal src }) e src v
          (record { no_first = q.no_first }) at short (type_flag-append e.header rest v.block)
          (header_octal-append e.header rest v.block) in
      (
        s',
        rw (cut_point_tar_fast, at, cut_header, run, le→leb 512 len enough) refl,
        record {
          pending = after.pending;
          quiet = after.quiet;
          limit = after.limit;
          large = after.large;
        },
      )

  -- The content of a small file is cut whole.
  pub cut_file-Pending :
      (c : Bytes) (len : ℕ) (src : Bytes)
      → s.next_chunk_type ≡ file_chunk
      → length c ≡ rounded_up s.next_chunk_size
      → length c ≤ len
      → (s' : TarState) × (cut_point_tar_fast s src len ≡ some (length c, s'))
        × (s'.next_chunk_type ≡ file_header)
        × IsQuiet s'
        × (s'.big_limit ≡ s.big_limit)
  unfolding cut_point_tar_fast cut_file after_file
  cut_file-Pending c len src at due fits =
      let whole : (if ltb (rounded_up s.next_chunk_size) len
            then rounded_up s.next_chunk_size
            else len)
          ≡ length c =
        ground arith in
      (
        after_file s,
        rw (cut_point_tar_fast, at, cut_file, q.no_first, whole) refl,
        refl,
        record { no_first = q.no_first },
        refl,
      )

  cut_at_big :
      (src : Bytes) (len : ℕ)
      → s.next_chunk_type ≡ big_chunk
      → cut_point_tar_fast s src len ≡ some (cut_big s src)
  unfolding cut_point_tar_fast
  cut_at_big src len at = rw at refl

  cut_big_more :
      (src : Bytes)
      → ltb fixed_max (s.big_chunk_size - s.big_chunk_offset) ≡ true
      → cut_big s src ≡ (
        cut_point_fast_cdc chunker_init src (s.big_chunk_size - s.big_chunk_offset),
        record s {
          big_chunk_offset =
              s.big_chunk_offset
              + cut_point_fast_cdc chunker_init src (s.big_chunk_size - s.big_chunk_offset);
        },
      )
  unfolding cut_big
  cut_big_more src more = rw more refl

  -- A big file is cut at most to its end, and by something while there is more than the maximum.
  pub cut_big-Pending :
      (c : Bytes) (len : ℕ) (src : Bytes)
      → s.next_chunk_type ≡ big_chunk
      → s.big_chunk_offset < s.big_chunk_size
      → length c ≡ s.big_chunk_size - s.big_chunk_offset
      → (n : ℕ) × (s' : TarState) × (cut_point_tar_fast s src len ≡ some (n, s'))
        × (n ≤ length c)
        × Pending s' (drop n c)
        × (0 < n)
        × IsQuiet s'
        × (s'.big_limit ≡ s.big_limit)
        × (is_file_chunk s'.next_chunk_type ≡ false)
  unfolding cut_point_tar_fast cut_big is_file_chunk
  cut_big-Pending c len src at within due =
      elim (Bool-cases (ltb fixed_max (s.big_chunk_size - s.big_chunk_offset))) [
        | inl more ↦
            let left = s.big_chunk_size - s.big_chunk_offset in
            let n = cut_point_fast_cdc chunker_init src left in
            let (some_bytes, within_left, at_most) =
              big_cut src left (omega (arith, ltb→lt _ _ more)) in
            (
              n,
              record s { big_chunk_offset = s.big_chunk_offset + n },
              cut_at_big src len at ∙ ap some (cut_big_more src more),
              omega arith,
              in_big at (omega (arith, ltb→lt _ _ more)) (length-drop n c ∙ omega arith),
              some_bytes,
              record { no_first = q.no_first },
              refl,
              rw at refl,
            )
        | inr less ↦
            let left = s.big_chunk_size - s.big_chunk_offset in
            (
              left,
              record s { next_chunk_type = file_header },
              rw (cut_point_tar_fast, at, cut_big, less) refl,
              omega arith,
              at_header refl (drop_all left c (omega arith)),
              omega arith,
              record { no_first = q.no_first },
              refl,
              refl,
            )
      ]
