-- ===== src/Mtar.antt =====
-- The MTAR format. src/chunking/chunker.cc, Chunker::MTar: a tar archive is rewritten as the size
-- of its contents, its contents and its headers; src/datawrite/datawrite.cc, dataWrite::MTar2Tar:
-- the way back. The paths of the files are not modelled.
pub mod Selected
pub mod Split
pub mod Merge
pub mod RoundTrip
mod Tests
use bi_search.Base.{
  ℕ, zero, suc, ◌+◌, ◌-◌, ◌*◌, ◌/◌, ◌%◌, ◌^◌, min, Bool, true, false, not, ◌&&◌, ◌||◌, Option, none,
  some, List, [], ◌∷◌, ◌++◌, Bytes, if◌then◌else◌, ltb, leb, ◌==◌, length, get_or, take, drop, copy,
}
use bi_search.Config.{read_file_size, container_max_size, regtype, xhdtype, gnutype_longname}
use bi_search.Chunking.{sub64, window_size, buffer_size}
use bi_search.Tar.Names.{char_value}
use bi_search.Tar.{FileType, file_header, is_file_header, TarState, cut_point_tar_fast, type_flag}

-- How a loop of MTar ends: with what it wrote, the offset and the state; in undefined behaviour;
-- or still running when the fuel is used up.
pub data Pass : Type 0 where
  done : Bytes → ℕ → TarState → Pass
  undefined : Pass
  running : Pass

abbrev pub prepend : Bytes → Pass → Pass
prepend x (done y off s) = done (x ++ y) off s
prepend x undefined = undefined
prepend x running = running

-- What a pass writes of a piece: the second pass wants the headers, the first one the rest.
unfoldable pub wanted : Bool → FileType → Bytes → Bytes
unfolding is_file_header
wanted headers kind piece =
    if headers
    then (if is_file_header kind then piece else [])
    else if is_file_header kind
    then []
    else piece

module _ (headers : Bool) (room : ℕ) where
  -- The inner loop. A cut of 0 writes nothing and leaves the offset.
  unfoldable pub split_window : ℕ → TarState → Bytes → Bool → ℕ → Pass
  unfolding wanted
  split_window zero s buffer ended off = running
  split_window (suc fuel) s buffer ended off =
      let left = sub64 (length buffer) off in
      let body : Pass = elim (cut_point_tar_fast s (drop off buffer) left) [
        | none ↦ undefined
        | some (cut, s') ↦
            let cp = cut % 2 ^ 32 in
            let rest = split_window fuel s' buffer ended (off + cp) in
            if cp == 0
            then rest
            else if ltb room (off + cp)
            then undefined
            else prepend (wanted headers s.next_chunk_type (copy cp (drop off buffer))) rest
      ] in
      if leb container_max_size left || (ended && ltb off (length buffer))
      then body
      else done [] off s

  -- The outer loop, reading `cap` bytes at a time into the cleared buffer.
  unfoldable pub split_pass : ℕ → ℕ → ℕ → TarState → Bytes → ℕ → Pass
  unfolding split_window
  split_pass cap inner_fuel zero s file total = running
  split_pass cap inner_fuel (suc fuel) s file total =
      let buffer = take cap (drop total file) in
      let ended = ltb (length buffer) cap in
      let after : Pass → Pass = λ p. elim p [
        | done x off s' ↦
            let rest = split_pass cap inner_fuel fuel s' file (total + off) in
            if ended then done x (total + off) s' else prepend x rest
        | undefined ↦ undefined
        | running ↦ running
      ] in
      if ltb room cap
      then undefined
      else if length buffer == 0
      then done [] total s
      else after (split_window inner_fuel s buffer ended 0)

-- A uint64_t in a file.
unfoldable pub le64 : ℕ → Bytes
le64 n =
    (n % 256)
    ∷ (n / 2 ^ 8 % 256)
    ∷ (n / 2 ^ 16 % 256)
    ∷ (n / 2 ^ 24 % 256)
    ∷ (n / 2 ^ 32 % 256)
    ∷ (n / 2 ^ 40 % 256)
    ∷ (n / 2 ^ 48 % 256)
    ∷ (n / 2 ^ 56 % 256)
    ∷ []

-- Each round of an inner loop takes a byte, or is a cut of 0 before a header.
abbrev pub split_fuel : ℕ
split_fuel = 2 * buffer_size + 3

abbrev pub reset : TarState → TarState
reset s = record s { next_chunk_type = file_header }

-- MTar of one file.
unfoldable pub mtar : ℕ → TarState → Bytes → Option (Bytes × TarState)
unfolding split_pass le64
mtar multi_header_chunk s file =
    elim (split_pass false buffer_size read_file_size split_fuel (suc (length file)) s file 0) [
      | done contents off s1 ↦
          elim (split_pass true buffer_size (window_size multi_header_chunk) split_fuel
            (suc (length file)) (reset s1) file 0) [
              | done headers off' s2 ↦
                  some (le64 (length contents) ++ (contents ++ headers), reset s2)
              | undefined ↦ none
              | running ↦ none
            ]
      | undefined ↦ none
      | running ↦ none
    ]

unfoldable pub le64_value : Bytes → ℕ
le64_value bytes =
    get_or bytes 0 0
    + get_or bytes 1 0 * 2 ^ 8
    + get_or bytes 2 0 * 2 ^ 16
    + get_or bytes 3 0 * 2 ^ 24
    + get_or bytes 4 0 * 2 ^ 32
    + get_or bytes 5 0 * 2 ^ 40
    + get_or bytes 6 0 * 2 ^ 48
    + get_or bytes 7 0 * 2 ^ 56

-- The size of a header in MTar2Tar: eleven `char`s, as far as no blank stands there.
unfoldable pub size_digits : ℕ → ℕ → Bytes → ℕ
unfolding char_value
size_digits zero acc digits = acc
size_digits (suc k) acc digits =
    let rest =
      size_digits k ((acc * 8 + char_value (get_or digits 0 0) + 2 ^ 64 - 48) % 2 ^ 64)
        (drop 1 digits) in
    if get_or digits 0 0 == 32 then acc else rest

-- The copy loop over 4096-byte buffers: what it writes, and whether every read was good.
unfoldable pub copy_blocks : ℕ → ℕ → ℕ → Bytes → Bytes × Bool
copy_blocks zero block remaining source = ([], true)
copy_blocks (suc fuel) block remaining source =
    let n = min block remaining in
    let (rest, good) = copy_blocks fuel block (remaining - n) (drop n source) in
    if remaining == 0
    then ([], true)
    else if ltb (length source) n
    then ([], false)
    else (take n source ++ rest, good)

abbrev pub zeros : ℕ → Bytes
zeros zero = []
zeros (suc n) = 0 ∷ zeros n

unfoldable pub padding : ℕ → ℕ
padding size = (512 - size % 512) % 512

-- What MTar2Tar writes behind a header, the bytes of content that it has used up, and whether the
-- stream is still good. `source` is the mtar file from its first content on.
unfoldable pub merge_content : Bytes → Bytes → ℕ → Bytes × ℕ × Bool
unfolding size_digits copy_blocks padding
merge_content header source offset =
    let flag = type_flag header in
    let size = size_digits 11 0 (drop 124 header) in
    let blocks = (size + 511) / 512 * 512 in
    let data_part = drop offset source in
    let (written, good) = copy_blocks size (min 4096 size) size data_part in
    if (flag == gnutype_longname) || (flag == xhdtype)
    then (if ltb 0 size && ltb size 512
        then (copy blocks data_part, offset + blocks, leb blocks (length data_part))
        else ([], offset, true))
    else if flag == regtype
    then (if ltb 0 size
        then (written ++ zeros (padding size), offset + (size + padding size), good)
        else ([], offset, true))
    else ([], offset, true)

-- The loop over the headers; `left` bytes of them are to come. A read that is not good ends it,
-- and so does the next one once the stream has failed.
unfoldable pub merge_headers : ℕ → ℕ → Bytes → Bytes → ℕ → Bytes
unfolding merge_content
merge_headers zero left headers source offset = []
merge_headers (suc fuel) left headers source offset =
    let (content, offset', good) = merge_content (take 512 headers) source offset in
    let rest = merge_headers fuel (left - 512) (drop 512 headers) source offset' in
    if left == 0
    then []
    else if ltb (length headers) 512
    then []
    else take 512 headers ++ (content ++ (if good then rest else []))

-- MTar2Tar, from the bytes of the mtar file to those of the tar file; `none` where it gives up
-- before it writes.
unfoldable pub mtar2tar : Bytes → Option Bytes
unfolding merge_headers le64_value
mtar2tar file =
    let data_size = le64_value file in
    let header_size = sub64 (sub64 (length file) 8) data_size in
    let source = drop 8 file in
    if ltb (length file) 8
    then none
    else some (merge_headers (suc (length file)) header_size (drop data_size source) source 0)
