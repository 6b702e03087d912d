-- ===== src/Mtar/RoundTrip.antt =====
-- MTar2Tar gives back the archive that MTar took apart.
use bi_search.Base.{
  ℕ, suc, ◌+◌, ◌^◌, ◌≤◌, ◌<◌, ◌≡◌, refl, ap, ◌∙◌, some, List, [], ◌∷◌, ◌++◌, arith, Bytes, length,
  drop, length-append, drop-append, le→ltb,
}
use bi_search.Config.{read_file_size}
use bi_search.Chunking.{sub64}
use bi_search.Tar.{TarState, file_header}
use bi_search.Tar.Archive.{Entry, AllEntries, archive, headers, contents}
use bi_search.Tar.Pending.{IsQuiet}
use bi_search.Mtar.{le64, le64_value, mtar, mtar2tar, merge_headers}
use bi_search.Mtar.Split.{mtar-archive}
use bi_search.Mtar.Merge.{AllPadded, merge_headers-archive}

le64_value-le64 : (n : ℕ) (r : Bytes) → n < 2 ^ 64 → le64_value (le64 n ++ r) ≡ n
unfolding le64 le64_value
le64_value-le64 n r h = omega arith

length-archive :
    (es : List Entry) → length (archive es) ≡ length (contents es) + length (headers es)
length-archive [] = omega arith
length-archive (e ∷ es) = omega (
  arith,
  length-archive es,
  length-append e.header (e.content ++ archive es),
  length-append e.content (archive es),
  length-append e.content (contents es),
  length-append e.header (headers es),
)

all_entries : (es : List Entry) → AllPadded es → AllEntries es
all_entries [] vs = tt
all_entries (e ∷ es) (v, vs) = (v.valid, all_entries es vs)

drop-le64 : (n : ℕ) (r : Bytes) → drop 8 (le64 n ++ r) ≡ r
unfolding le64
drop-le64 n r = refl

length-le64 : (n : ℕ) (r : Bytes) → length (le64 n ++ r) ≡ 8 + length r
unfolding le64
length-le64 n r = omega arith

mtar2tar_parts :
    (file : Bytes) (data_size header_size : ℕ)
    → le64_value file ≡ data_size
    → sub64 (sub64 (length file) 8) data_size ≡ header_size
    → 8 ≤ length file
    → mtar2tar file
      ≡ some (
          merge_headers
            (suc (length file))
            header_size
            (drop data_size (drop 8 file))
            (drop 8 file)
            0)
unfolding mtar2tar
mtar2tar_parts file data_size header_size size left enough =
    rw (mtar2tar, le→ltb _ _ enough, size, left) refl

-- A mtar file that holds the size of the contents, the contents and the headers.
mtar2tar-archive :
    (es : List Entry)
    → AllPadded es
    → length (archive es) < read_file_size
    → mtar2tar (le64 (length (contents es)) ++ (contents es ++ headers es)) ≡ some (archive es)
mtar2tar-archive es vs short =
    let body = contents es ++ headers es in
    let total = length-archive es in
    let long : length body ≡ length (contents es) + length (headers es) =
      length-append (contents es) (headers es) in
    let eight = length-le64 (length (contents es)) body in
    let behind : drop (length (contents es)) body ≡ headers es =
      drop-append (contents es) (headers es) in
    mtar2tar_parts (le64 (length (contents es)) ++ body) (length (contents es))
      (length (headers es)) (le64_value-le64 (length (contents es)) body (omega arith))
      (omega (arith, eight, long)) (omega (arith, eight))
    ∙ rw (drop-le64 (length (contents es)) body, behind, eight)
        (ap some (
          merge_headers-archive (suc (8 + length body)) es body (headers es) 0 vs refl
            (omega (arith, long))))

-- With MULTI_HEADER_CHUNK at most 16 and a state in which a header is next and no long name is due,
-- MTar ends on an archive of at most 192 MiB less a byte, MTar2Tar of what it wrote gives the
-- archive back, and the next file starts at a header again. The archive is any list of entries with
-- headers of 512 bytes, among them the blocks of zeros at its end: only a regular file has content,
-- of less than 8 GiB and in whole blocks; each header has a NUL, and no '/' between the name field
-- and the first one; there are no long names and no extended headers. The sizes of regular files
-- are octal digits and their contents are filled up with zeros.
pub mtar2tar-mtar :
    (multi_header_chunk : ℕ) (s : TarState) (es : List Entry)
    → multi_header_chunk ≤ 16
    → IsQuiet s
    → s.next_chunk_type ≡ file_header
    → AllPadded es
    → length (archive es) < read_file_size
    → (file : Bytes) × (s' : TarState) × (mtar multi_header_chunk s (archive es) ≡ some (file, s'))
      × (mtar2tar file ≡ some (archive es))
      × (s'.next_chunk_type ≡ file_header)
mtar2tar-mtar m s es bound q at vs short =
    let (s', run, quiet, back) = mtar-archive m s es bound q at (all_entries es vs) short in
    (_, s', run, mtar2tar-archive es vs short, back)
