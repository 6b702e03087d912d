-- ===== src/Mtar/Merge.antt =====
-- dataWrite::MTar2Tar puts the content of each entry back behind its header.
use bi_search.Base.{
  ℕ, zero, suc, ◌+◌, ◌-◌, ◌^◌, ◌≤◌, ◌<◌, ◌≡◌, ◌≢◌, refl, sym, ap, ◌∙◌, inl, inr, Bool, true, false,
  ◌&&◌, List, [], ◌∷◌, ◌++◌, arith, min, Bytes, if◌then◌else◌, ltb, leb, ◌==◌, length, get_or, take,
  drop, drop-add, take-add, length-drop, length-append, append_assoc, drop-append, take-append,
  take-append_left, Bool-cases, lt→ltb, le→ltb, ltb→lt, ltb→le, ==→eq, ==→ne, ne→==,
}
use bi_search.Config.{regtype, xhdtype, gnutype_longname}
use bi_search.Tar.{header_octal, octal_loop, type_flag, rounded_up}
use bi_search.Tar.Names.{char_value}
use bi_search.Tar.Archive.{Entry, IsEntry, archive, headers, contents}
use bi_search.Mtar.{size_digits, copy_blocks, zeros, padding, merge_content, merge_headers}

-- The characters '0' to '7'.
abbrev pub all_octal : ℕ → Bytes → Bool
all_octal zero digits = true
all_octal (suc k) digits =
    if leb 48 (get_or digits 0 0) && leb (get_or digits 0 0) 55
    then all_octal k (drop 1 digits)
    else false

-- An entry that, if it is a regular file, has its size written in octal digits and its content
-- filled up with zeros.
pub record IsPadded (e : Entry) : Type 0 where
  pub valid : IsEntry e
  pub octal : type_flag e.header ≡ regtype → all_octal 11 (drop 124 e.header) ≡ true
  pub filled :
      type_flag e.header ≡ regtype
      → e.content
        ≡ take (header_octal e.header) e.content ++ zeros (padding (header_octal e.header))

abbrev pub AllPadded : List Entry → Type 0
AllPadded [] = Unit {0}
AllPadded (e ∷ es) = IsPadded e × AllPadded es

-- On octal digits both programs read the same size.
size_digits-octal_loop :
    (k acc : ℕ) (digits : Bytes)
    → all_octal k digits ≡ true
    → size_digits k acc digits ≡ octal_loop k acc digits
unfolding size_digits octal_loop char_value
size_digits-octal_loop zero acc digits o = refl
size_digits-octal_loop (suc k) acc digits o =
    let rest : all_octal k (drop 1 digits) ≡ true = ground arith in
    let no_blank : (get_or digits 0 0 == 32) ≡ false = ne→== _ _ (λ z. ground arith) in
    let plain : ltb (get_or digits 0 0) 128 ≡ true = lt→ltb _ _ (ground arith) in
    rw (no_blank, plain) (size_digits-octal_loop k _ (drop 1 digits) rest)

-- Enough rounds copy all that is asked for.
copy_blocks_all :
    (fuel block remaining : ℕ) (source : Bytes)
    → remaining ≤ fuel
    → 0 < block
    → remaining ≤ length source
    → copy_blocks fuel block remaining source ≡ (take remaining source, true)
unfolding copy_blocks
copy_blocks_all zero block remaining source f b h =
    let nothing : remaining ≡ 0 = omega arith in rw nothing refl
copy_blocks_all (suc fuel) block remaining source f b h = elim (Bool-cases (remaining == 0)) [
  | inl finished ↦
      let nothing : remaining ≡ 0 = ==→eq _ _ finished in rw (copy_blocks, nothing) refl
  | inr unfinished ↦
      let n = min block remaining in
      let some_left : remaining ≢ 0 = ==→ne _ _ unfinished in
      let ih =
        copy_blocks_all fuel block (remaining - n) (drop n source) (omega (arith, some_left)) b
          (omega (arith, length-drop n source)) in
      let enough : ltb (length source) n ≡ false = le→ltb _ _ (omega arith) in
      let total : n + (remaining - n) ≡ remaining = omega arith in
      rw (copy_blocks, unfinished, enough, ih)
        (ap (λ b. (b, true))
          (sym (take-add n (remaining - n) source) ∙ ap (λ k. take k source) total))
]

content_of_regular :
    (n : ℕ) (content source : Bytes)
    → n < 2 ^ 33
    → length content ≡ rounded_up n
    → content ≡ take n content ++ zeros (padding n)
    → (n ≤ length content)
      × (n + padding n ≡ length content)
      × (take n (content ++ source) ++ zeros (padding n) ≡ content)
unfolding rounded_up padding
content_of_regular n content source h e filled =
    let within : n ≤ length content = omega (arith, e) in
    (
      within,
      omega (arith, e),
      ap (λ b. b ++ zeros (padding n)) (take-append_left n content source within) ∙ sym filled,
    )

nothing_merged :
    (content : Bytes) (offset : ℕ)
    → length content ≡ 0
    → ◌≡◌ {A = Bytes × ℕ × Bool} ([], offset, true) (content, offset + length content, true)
nothing_merged [] offset e = ap (λ n. ([], n, true)) (omega arith)
nothing_merged (x ∷ content) offset e = absurd (omega arith)

-- Of the contents from `offset` on, the first is the entry's.
merge_content-Entry :
    (e : Entry) (source tail : Bytes) (offset : ℕ)
    → IsPadded e
    → drop offset source ≡ e.content ++ tail
    → merge_content e.header source offset ≡ (e.content, offset + length e.content, true)
unfolding merge_content header_octal
merge_content-Entry e source tail offset v at =
    let header = e.header in
    let not_x : (type_flag header == xhdtype) ≡ false = ne→== _ _ v.valid.not_extended in
    let not_l : (type_flag header == gnutype_longname) ≡ false = ne→== _ _ v.valid.not_long in
    elim (Bool-cases (type_flag header == regtype)) [
      | inl regular ↦
          let reg : type_flag header ≡ regtype = ==→eq _ _ regular in
          let digits : size_digits 11 0 (drop 124 header) ≡ header_octal header =
            size_digits-octal_loop 11 0 (drop 124 header) (v.octal reg) in
          let n = header_octal header in
          let rounded : length e.content ≡ rounded_up n = v.valid.content ∙ rw reg refl in
          let (within, whole, joined) =
            content_of_regular n e.content tail (v.valid.size reg) rounded (v.filled reg) in
          elim (Bool-cases (ltb 0 n)) [
            | inl some_bytes ↦
                let copied : copy_blocks n (min 4096 n) n (e.content ++ tail)
                    ≡ (take n (e.content ++ tail), true) =
                  copy_blocks_all n (min 4096 n) n (e.content ++ tail) (omega arith)
                    (omega (arith, ltb→lt _ _ some_bytes))
                    (omega (arith, length-append e.content tail)) in
                rw
                  (
                    merge_content, digits, not_x, not_l, regular, some_bytes, at, copied, joined,
                    whole,
                  )
                  refl
            | inr none_there ↦
                let nothing : length e.content ≡ 0 = omega (arith, ltb→le _ _ none_there) in
                rw (merge_content, digits, not_x, not_l, regular, none_there)
                  (nothing_merged e.content offset nothing)
          ]
      | inr other ↦
          let nothing : length e.content ≡ 0 = v.valid.content ∙ rw other refl in
          rw (merge_content, not_x, not_l, other) (nothing_merged e.content offset nothing)
    ]

merge_headers-suc :
    (fuel left : ℕ) (list source content : Bytes) (offset offset' : ℕ)
    → 0 < left
    → 512 ≤ length list
    → merge_content (take 512 list) source offset ≡ (content, offset', true)
    → merge_headers (suc fuel) left list source offset
      ≡ take 512 list ++ (content ++ merge_headers fuel (left - 512) (drop 512 list) source offset')
unfolding merge_headers
merge_headers-suc fuel left list source content offset offset' some_left block run =
    let on : (left == 0) ≡ false = ne→== left 0 (λ z. omega (arith, z)) in
    rw (merge_headers, run, on, le→ltb _ _ block) refl

-- The headers of an archive, each followed by its content, are the archive.
pub merge_headers-archive :
    (fuel : ℕ) (es : List Entry) (source tail : Bytes) (offset : ℕ)
    → AllPadded es
    → drop offset source ≡ contents es ++ tail
    → length (headers es) < fuel
    → merge_headers fuel (length (headers es)) (headers es) source offset ≡ archive es
unfolding merge_headers
merge_headers-archive zero es source tail offset vs at f = absurd (omega arith)
merge_headers-archive (suc fuel) [] source tail offset vs at f = refl
merge_headers-archive (suc fuel) (e ∷ es) source tail offset (v, vs) at f =
    let list = e.header ++ headers es in
    let long : length list ≡ 512 + length (headers es) =
      omega (arith, length-append e.header (headers es), v.valid.block) in
    let first : take 512 list ≡ e.header =
      ap (λ k. take k list) (sym v.valid.block) ∙ take-append e.header (headers es) in
    let others : drop 512 list ≡ headers es =
      ap (λ k. drop k list) (sym v.valid.block) ∙ drop-append e.header (headers es) in
    let apart : drop offset source ≡ e.content ++ (contents es ++ tail) =
      at ∙ append_assoc e.content (contents es) tail in
    let behind : drop (offset + length e.content) source ≡ contents es ++ tail =
      drop-add offset (length e.content) source
      ∙ ap (drop (length e.content)) apart
      ∙ drop-append e.content (contents es ++ tail) in
    let run : merge_content (take 512 list) source offset
        ≡ (e.content, offset + length e.content, true) =
      ap (λ h. merge_content h source offset) first
      ∙ merge_content-Entry e source (contents es ++ tail) offset v apart in
    let less : length list - 512 ≡ length (headers es) = omega (arith, long) in
    merge_headers-suc fuel (length list) list source e.content offset _ (omega (arith, long))
      (omega (arith, long)) run
    ∙ rw
        (
          first,
          less,
          others,
          merge_headers-archive fuel es source tail (offset + length e.content) vs behind
              (omega (arith, long)),
        )
        refl
