-- ===== src/Mtar/Selected.antt =====
-- One cut of an archive, for the loops of Chunker::MTar: what a pass writes of it is what the
-- archive's specification has there.
use bi_search.Base.{
  ℕ, ◌+◌, ◌-◌, ◌*◌, ◌≤◌, ◌<◌, ◌≡◌, ◌⊎◌, refl, sym, subst, ap, ◌∙◌, inl, inr, Bool, true, false,
  some, List, [], ◌∷◌, ◌++◌, arith, Bytes, length, take, drop, drop_all, length-append,
  append_assoc, drop-append, take-append, take-append_left, drop-append_left, take-append-drop,
}
use bi_search.Tar.{
  FileType, file_chunk, file_header, big_chunk, is_file_header, TarState, cut_point_tar_fast,
}
use bi_search.Tar.Archive.{Entry, AllEntries, archive, headers, contents}
use bi_search.Tar.Entries.{cut_header-Pending, cut_file-Pending, cut_big-Pending}
use bi_search.Tar.Pending.{IsQuiet, Pending, at_header, in_file, in_big}
use bi_search.Mtar.{wanted}

-- What a pass still has to write.
abbrev pub kept : Bool → Bytes → List Entry → Bytes
kept true c es = headers es
kept false c es = c ++ contents es

-- A cut of 0 is followed by a header.
abbrev pub weight : FileType → ℕ
weight file_header = 0
weight file_chunk = 1
weight big_chunk = 1

-- A cut at content `c` before the entries `es`.
pub record Advance (s : TarState) (c : Bytes) (es : List Entry) : Type 0 where
  pub size : ℕ
  pub next : TarState
  pub due : Bytes
  pub entries : List Entry
  pub run : cut_point_tar_fast s (c ++ archive es) (length (c ++ archive es)) ≡ some (size, next)
  pub fits : size ≤ length (c ++ archive es)
  pub rest : drop size (c ++ archive es) ≡ due ++ archive entries
  pub pending : Pending next due
  pub quiet : IsQuiet next
  pub valid : AllEntries entries
  pub written :
      (headers : Bool)
      → wanted headers s.next_chunk_type (take size (c ++ archive es)) ++ kept headers due entries
        ≡ kept headers c es
  pub shorter :
      2 * (length (c ++ archive es) - size) + weight next.next_chunk_type
      < 2 * length (c ++ archive es) + weight s.next_chunk_type

pub written_header :
    (h c : Bytes) (es : List Entry) (v : Bytes) (headers : Bool)
    → wanted headers file_header h ++ kept headers c es
      ≡ kept headers [] (record { header = h; content = c } ∷ es)
unfolding wanted
written_header h c es v true = refl
written_header h c es v false = refl

-- Of content cut at `n`, the contents take the first part.
written_content :
    (kind : FileType) (n : ℕ) (c : Bytes) (es : List Entry) (headers : Bool)
    → is_file_header kind ≡ false
    → wanted headers kind (take n c) ++ kept headers (drop n c) es ≡ kept headers c es
unfolding wanted
written_content kind n c es true plain = rw plain refl
written_content kind n c es false plain = rw plain (
    sym (append_assoc (take n c) (drop n c) (contents es))
    ∙ ap (λ b. b ++ contents es) (take-append-drop n c))

pub weight_at_most_one : (kind : FileType) → weight kind ≤ 1
weight_at_most_one file_header = omega arith
weight_at_most_one file_chunk = omega arith
weight_at_most_one big_chunk = omega arith

module _ (s : TarState) (q : IsQuiet s) where
  cut_at_header :
      (e : Entry) (es : List Entry)
      → AllEntries (e ∷ es)
      → s.next_chunk_type ≡ file_header
      → Advance s [] (e ∷ es)
  cut_at_header e es (v, vs) at =
      let rest = e.content ++ archive es in
      let src = e.header ++ rest in
      let long : length src ≡ 512 + length rest =
        omega (arith, length-append e.header rest, v.block) in
      let (s', run, after) =
        cut_header-Pending s q e rest (length src) v at (omega (arith, long)) in
      let whole : take 512 src ≡ e.header =
        ap (λ k. take k src) (sym v.block) ∙ take-append e.header rest in
      record {
        size = 512;
        next = s';
        due = e.content;
        entries = es;
        run = run;
        fits = omega (arith, long);
        rest = ap (λ k. drop k src) (sym v.block) ∙ drop-append e.header rest;
        pending = after.pending;
        quiet = after.quiet;
        valid = vs;
        written = λ headers. rw (at, whole) (written_header e.header e.content es [] headers);
        shorter = omega (arith, long, weight_at_most_one s'.next_chunk_type);
      }

  -- A cut of `n` bytes of the content that is due.
  cut_of_content :
      (n : ℕ) (s' : TarState) (c : Bytes) (es : List Entry)
      → AllEntries es
      → is_file_header s.next_chunk_type ≡ false
      → weight s.next_chunk_type ≡ 1
      → cut_point_tar_fast s (c ++ archive es) (length (c ++ archive es)) ≡ some (n, s')
      → n ≤ length c
      → Pending s' (drop n c)
      → IsQuiet s'
      → ((0 < n) ⊎ (s'.next_chunk_type ≡ file_header))
      → Advance s c es
  cut_of_content n s' c es vs plain heavy run within due quiet progress =
      let src = c ++ archive es in
      let long : length src ≡ length c + length (archive es) = length-append c (archive es) in
      let less : 2 * (length src - n) + weight s'.next_chunk_type
          < 2 * length src + weight s.next_chunk_type =
        elim progress [
          | inl some_bytes ↦ omega (arith, long, heavy, weight_at_most_one s'.next_chunk_type)
          | inr back ↦ omega (arith, long, heavy, ap weight back)
        ] in
      record {
        size = n;
        next = s';
        due = drop n c;
        entries = es;
        run = run;
        fits = omega (arith, long);
        rest = drop-append_left n c (archive es) within;
        pending = due;
        quiet = quiet;
        valid = vs;
        written = λ headers.
            rw (take-append_left n c (archive es) within)
              (written_content s.next_chunk_type n c es headers plain);
        shorter = less;
      }

  -- Whatever is due, CutPointTarFast cuts the archive in step with its entries.
  pub cut_point_tar_fast-Advance :
      (c : Bytes) (es : List Entry)
      → AllEntries es
      → Pending s c
      → 0 < length (c ++ archive es)
      → Advance s c es
  unfolding is_file_header
  cut_point_tar_fast-Advance c [] vs (at_header at nil) some_left =
      let none_left : 0 < 0 = subst (λ b. 0 < length (b ++ archive [])) nil some_left in
      absurd (omega (arith, none_left))
  cut_point_tar_fast-Advance c (e ∷ es) vs (at_header at nil) some_left =
      subst (λ b. Advance s b (e ∷ es)) (sym nil) (cut_at_header e es vs at)
  cut_point_tar_fast-Advance c es vs (in_file at due) some_left =
      let (s', run, back, quiet, limit) =
        cut_file-Pending s q c (length (c ++ archive es)) (c ++ archive es) at due
          (omega (arith, length-append c (archive es))) in
      cut_of_content (length c) s' c es vs (rw at refl) (rw at refl) run (omega arith)
        (at_header back (drop_all (length c) c (omega arith))) quiet (inr back)
  cut_point_tar_fast-Advance c es vs (in_big at within due) some_left =
      let (n, s', run, below, pending, some_bytes, quiet, limit, no_file) =
        cut_big-Pending s q c (length (c ++ archive es)) (c ++ archive es) at within due in
      cut_of_content n s' c es vs (rw at refl) (rw at refl) run below pending quiet (inl some_bytes)
