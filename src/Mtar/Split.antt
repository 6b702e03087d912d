-- ===== src/Mtar/Split.antt =====
-- Chunker::MTar writes the contents of an archive, then its headers.
use native.Mathlib.Nat.{mod-eq_of_lt}
use bi_search.Base.{
  or_true, dec_lt, ℕ, zero, suc, ◌+◌, ◌-◌, ◌*◌, ◌%◌, ◌^◌, ◌≤◌, ◌<◌, ◌≡◌, ◌≢◌, refl, sym, ap, ◌∙◌,
  inl, inr, Bool, true, false, ◌||◌, some, List, [], ◌∷◌, ◌++◌, arith, Bytes, ltb, leb, ◌==◌,
  length, take, drop, copy, take_all, drop-add, length-drop, length-append, copy-prefix, Bool-cases,
  lt→ltb, le→ltb, ==→eq, ==→ne, ne→==,
}
use bi_search.Config.{read_file_size, container_max_size}
use bi_search.Chunking.{sub64, window_size, buffer_size}
use bi_search.Chunking.Complete.{sub64_exact}
use bi_search.Tar.{FileType, file_header, is_file_header, TarState, cut_point_tar_fast}
use bi_search.Tar.Archive.{Entry, AllEntries, archive, headers, contents}
use bi_search.Tar.Pending.{IsQuiet, Pending, at_header}
use bi_search.Mtar.{
  Pass, done, undefined, running, prepend, wanted, split_window, split_pass, le64, mtar, reset,
  split_fuel,
}
use bi_search.Mtar.Selected.{kept, weight, Advance, cut_point_tar_fast-Advance}

-- Where nothing is left to read, nothing is left to write.
kept_nothing :
    (headers : Bool) (c : Bytes) (es : List Entry)
    → AllEntries es
    → length (c ++ archive es) ≡ 0
    → kept headers c es ≡ []
kept_nothing headers (x ∷ c) es vs e = absurd (omega arith)
kept_nothing true [] [] vs e = refl
kept_nothing false [] [] vs e = refl
kept_nothing headers [] (h ∷ es) (v, vs) e =
    absurd (omega (arith, length-append h.header (h.content ++ archive es), v.block))

wanted-nil : (headers : Bool) (kind : FileType) → wanted headers kind [] ≡ []
unfolding wanted
wanted-nil true kind = elim (Bool-cases (is_file_header kind)) [
  | inl y ↦ rw y refl
  | inr n ↦ rw n refl
]
wanted-nil false kind = elim (Bool-cases (is_file_header kind)) [
  | inl y ↦ rw y refl
  | inr n ↦ rw n refl
]

prepend-nil : (p : Pass) → prepend [] p ≡ p
prepend-nil (done x off s) = refl
prepend-nil undefined = refl
prepend-nil running = refl

module _ (headers : Bool) (room : ℕ) where
  -- One round of the inner loop.
  split_window-suc :
      (fuel n : ℕ) (s s' : TarState) (buffer : Bytes) (off : ℕ)
      → cut_point_tar_fast s (drop off buffer) (sub64 (length buffer) off) ≡ some (n, s')
      → n < 2 ^ 32
      → off < length buffer
      → off + n ≤ room
      → split_window headers room (suc fuel) s buffer true off
        ≡ prepend
            (wanted headers s.next_chunk_type (copy n (drop off buffer)))
            (split_window headers room fuel s' buffer true (off + n))
  unfolding split_window copy
  split_window-suc fuel n s s' buffer off run small more fits =
      let exact : n % 2 ^ 32 ≡ n = mod-eq_of_lt small in
      let go_on : (leb container_max_size (sub64 (length buffer) off) || ltb off (length buffer))
          ≡ true =
        ap (λ b. leb container_max_size (sub64 (length buffer) off) || b)
          (lt→ltb off (length buffer) more)
        ∙ or_true _ in
      elim (Bool-cases (n == 0)) [
        | inl zero_cut ↦
            let none_cut : n ≡ 0 = ==→eq n 0 zero_cut in
            rw (split_window, go_on, run, exact, zero_cut)
              (rw none_cut (rw (wanted-nil headers s.next_chunk_type) (sym (prepend-nil _))))
        | inr some_cut ↦
            rw (split_window, go_on, run, exact, some_cut, le→ltb room (off + n) fits) refl
      ]

  -- From any place of the archive in the buffer to its end.
  split_window-archive :
      (fuel : ℕ) (s : TarState) (buffer : Bytes) (off : ℕ) (c : Bytes) (es : List Entry)
      → room < 2 ^ 32
      → length buffer ≤ room
      → off ≤ length buffer
      → drop off buffer ≡ c ++ archive es
      → IsQuiet s
      → Pending s c
      → AllEntries es
      → 2 * (length buffer - off) + weight s.next_chunk_type < fuel
      → (s' : TarState) × (split_window headers room fuel s buffer true off
          ≡ done (kept headers c es) (length buffer) s')
        × IsQuiet s'
  unfolding split_window
  split_window-archive zero s buffer off c es small room_for within at q p vs f =
      absurd (omega arith)
  split_window-archive (suc fuel) s buffer off c es small room_for within at q p vs f =
      let src = c ++ archive es in
      let left : length src ≡ length buffer - off = ap length (sym at) ∙ length-drop off buffer in
      let exact : sub64 (length buffer) off ≡ length src =
        sub64_exact (length buffer) off within (omega arith) ∙ sym left in
      elim (dec_lt off (length buffer)) [
        | yes more ↦
            let cut : Advance s c es =
              cut_point_tar_fast-Advance s q c es vs p (omega (arith, left)) in
            let fits : cut.size ≤ length buffer - off = omega (arith, cut.fits, left) in
            let run : cut_point_tar_fast s (drop off buffer) (sub64 (length buffer) off)
                ≡ some (cut.size, cut.next) =
              ap (λ b. cut_point_tar_fast s b (sub64 (length buffer) off)) at
              ∙ ap (cut_point_tar_fast s src) exact
              ∙ cut.run in
            let further : drop (off + cut.size) buffer ≡ cut.due ++ archive cut.entries =
              drop-add off cut.size buffer ∙ ap (drop cut.size) at ∙ cut.rest in
            let (s', ih, quiet) =
              split_window-archive fuel cut.next buffer (off + cut.size) cut.due cut.entries small
                room_for (omega arith) further cut.quiet cut.pending cut.valid
                (omega (arith, cut.shorter, left)) in
            let piece : copy cut.size (drop off buffer) ≡ take cut.size src =
              ap (copy cut.size) at ∙ copy-prefix cut.size src cut.fits in
            (
              s',
              split_window-suc fuel cut.size s cut.next buffer off run (omega arith) more
                    (omega arith)
                  ∙ ap
                      (prepend (wanted headers s.next_chunk_type (copy cut.size (drop off buffer))))
                      ih
                  ∙ ap
                      (λ b.
                        done
                          (wanted headers s.next_chunk_type b ++ kept headers cut.due cut.entries)
                          (length buffer) s')
                      piece
                  ∙ ap (λ x. done x (length buffer) s') (cut.written headers),
              quiet,
            )
        | no finished ↦
            let at_end : off ≡ length buffer = omega (arith, finished) in
            let none_left : length src ≡ 0 = omega (arith, left) in
            let stop : (leb container_max_size (sub64 (length buffer) off)
                  || ltb off (length buffer))
                ≡ false =
              rw (exact, none_left, le→ltb off (length buffer) (omega arith)) refl in
            (s, rw (split_window, stop, kept_nothing headers c es vs none_left, at_end) refl, q)
      ]

  -- A file that is read at once is one window.
  split_pass-window :
      (size inner fuel off : ℕ) (s s' : TarState) (file x : Bytes)
      → size ≤ room
      → length file < size
      → length file ≢ 0
      → split_window headers room inner s file true 0 ≡ done x off s'
      → split_pass headers room size inner (suc fuel) s file 0 ≡ done x off s'
  unfolding split_pass
  split_pass-window size inner fuel off s s' file x room_for short some_left run =
      let whole : take size (drop 0 file) ≡ file = take_all size file (omega arith) in
      let ended : ltb (length file) size ≡ true = lt→ltb _ _ short in
      let last : ltb (length (take size (drop 0 file))) size ≡ true =
        ap (λ b. ltb (length b) size) whole ∙ ended in
      let total : 0 + off ≡ off = omega arith in
      rw (split_pass, last, le→ltb room size room_for, whole, ne→== _ _ some_left, run, last, total)
        refl

  -- A pass over an archive that is read at once.
  split_pass-archive :
      (size inner fuel : ℕ) (s : TarState) (es : List Entry)
      → room < 2 ^ 32
      → size ≤ room
      → IsQuiet s
      → s.next_chunk_type ≡ file_header
      → AllEntries es
      → length (archive es) < size
      → 2 * length (archive es) < inner
      → (s' : TarState) × (split_pass headers room size inner (suc fuel) s (archive es) 0
          ≡ done (kept headers [] es) (length (archive es)) s')
        × IsQuiet s'
  unfolding split_pass
  split_pass-archive size inner fuel s es small room_for q at vs short enough =
      let file = archive es in
      let whole : take size (drop 0 file) ≡ file = take_all size file (omega arith) in
      elim (Bool-cases (length file == 0)) [
        | inl empty ↦
            let none_left : length file ≡ 0 = ==→eq _ _ empty in
            (
              s,
              rw
                  (
                    split_pass,
                    whole,
                    le→ltb room size room_for,
                    empty,
                    kept_nothing headers [] es vs none_left,
                    none_left,
                  )
                  refl,
              q,
            )
        | inr some_left ↦
            let (s', run, quiet) =
              split_window-archive inner s file 0 [] es small (omega arith) (omega arith) refl q
                (at_header at refl) vs (omega (arith, ap weight at)) in
            (
              s',
              split_pass-window size inner fuel (length file) s s' file _ room_for short
                  (==→ne _ _ some_left) run,
              quiet,
            )
      ]

-- With MULTI_HEADER_CHUNK at most 16 and a state in which a header is next and no long name is due,
-- of an archive of at most 192 MiB less a byte MTar writes the size of the contents, the contents
-- and the headers, and the next file starts at a header again. The archive is any list of entries
-- with headers of 512 bytes, among them the blocks of zeros at its end: only a regular file has
-- content, of less than 8 GiB and in whole blocks; each header has a NUL, and no '/' between the
-- name field and the first one; there are no long names and no extended headers.
pub mtar-archive :
    (multi_header_chunk : ℕ) (s : TarState) (es : List Entry)
    → multi_header_chunk ≤ 16
    → IsQuiet s
    → s.next_chunk_type ≡ file_header
    → AllEntries es
    → length (archive es) < read_file_size
    → (s' : TarState) × (mtar multi_header_chunk s (archive es)
        ≡ some (le64 (length (contents es)) ++ (contents es ++ headers es), s'))
      × IsQuiet s'
      × (s'.next_chunk_type ≡ file_header)
unfolding mtar
mtar-archive m s es bound q at vs short =
    let (s1, first, q1) =
      split_pass-archive false buffer_size read_file_size split_fuel (length (archive es)) s es
        (omega arith) (omega arith) q at vs short (omega arith) in
    let (s2, second, q2) =
      split_pass-archive true buffer_size (window_size m) split_fuel (length (archive es))
        (reset s1) es (omega arith) (omega arith) (record { no_first = q1.no_first }) refl vs
        (omega arith) (omega arith) in
    (reset s2, rw (mtar, first, second) refl, record { no_first = q2.no_first }, refl)
