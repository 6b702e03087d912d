-- ===== src/Tar.antt =====
-- src/chunking/chunker.cc, Chunker::CutPointTarFast: where the next header or content of a tar
-- archive ends, with the members of class Chunker that it keeps between calls. `src` is the read
-- buffer from the next byte on, and bytes past the list are 0, as in the cleared buffer.
pub mod Names
pub mod Archive
pub mod Paths
pub mod Headers
pub mod Octal
pub mod Pending
pub mod Entries
pub mod Samples
mod Tests
use bi_search.Base.{
  ℕ, zero, suc, ◌+◌, ◌-◌, ◌*◌, ◌/◌, ◌%◌, ◌^◌, Bool, true, false, ◌||◌, Option, none, some, List, [],
  ◌∷◌, Bytes, Memory, if◌then◌else◌, ltb, leb, ◌==◌, get_or, drop, copy,
}
use bi_search.Config.{regtype, aregtype, xhdtype, gnutype_longname, fixed_max}
use bi_search.Cdc.{cut_point_fast_cdc, chunker_init}
use Names.{find_name, extract_path, find_long_name}

-- enum FILE_TYPE_OPTION
pub data FileType : Type 0 where
  file_chunk file_header big_chunk : FileType

unfoldable pub is_file_header : FileType → Bool
is_file_header file_header = true
is_file_header _ = false

unfoldable pub is_big : FileType → Bool
is_big big_chunk = true
is_big _ = false

unfoldable pub is_file_chunk : FileType → Bool
is_file_chunk file_chunk = true
is_file_chunk _ = false

-- The members that CutPointTarFast and CutPointTarHeader keep. `big_limit` is BigChunkSize.
pub record TarState : Type 0 where
  pub next_chunk_type : FileType
  pub next_chunk_size : ℕ
  pub big_chunk_size : ℕ
  pub big_chunk_offset : ℕ
  pub big_limit : ℕ
  pub name_exist : Bool
  pub is_long_name_chunk1 : Bool
  pub is_long_name_chunk2 : Bool
  pub name : Memory
  pub path : Memory
  pub long_name : Memory

-- The eleven digits of the size, with uint64_t arithmetic.
unfoldable pub octal_loop : ℕ → ℕ → Bytes → ℕ
octal_loop zero acc digits = acc
octal_loop (suc k) acc digits =
    octal_loop k ((acc * 8 + get_or digits 0 0 + 2 ^ 64 - 48) % 2 ^ 64) (drop 1 digits)

unfoldable pub header_octal : Bytes → ℕ
unfolding octal_loop
header_octal src = octal_loop 11 0 (drop 124 src)

unfoldable pub type_flag : Bytes → ℕ
type_flag src = get_or src 156 0

-- (size + 511) / 512 * 512
unfoldable pub rounded_up : ℕ → ℕ
rounded_up n = (n + 511) % 2 ^ 64 / 512 * 512

-- FindName and ExtractPath for the content that follows. `none`: ExtractPath writes past `path`.
unfoldable pub named : TarState → Bytes → Option TarState
unfolding find_name extract_path
named s src = elim (extract_path s.path src) [
  | none ↦ none
  | some path ↦ some (record s { name = find_name s.name src; path = path })
]

-- What the three tests of the type flag do, after the size is read into `next_chunk_size`.
unfoldable pub header_type : TarState → Bytes → Option TarState
unfolding type_flag rounded_up named
header_type s src =
    let size = s.next_chunk_size in
    if type_flag src == regtype
    then (if leb size s.big_limit
        then named (record s { next_chunk_type = file_chunk }) src
        else some (record s {
          next_chunk_type = big_chunk;
          name_exist = true;
          big_chunk_size = rounded_up size;
          big_chunk_offset = 0;
        }))
    else if type_flag src == aregtype
    then
        -- The size is set to 0, which is no more than BigChunkSize.
        named (record s { next_chunk_type = file_chunk; next_chunk_size = 0 }) src
    else if (type_flag src == xhdtype) || (type_flag src == gnutype_longname)
    then named (record s { next_chunk_type = file_chunk; is_long_name_chunk1 = true }) src
    else some s

unfoldable pub cut_header : TarState → Bytes → ℕ → Option (ℕ × TarState)
unfolding header_type header_octal
cut_header s src len = elim (header_type (record s { next_chunk_size = header_octal src }) src) [
  | none ↦ none
  | some s' ↦ some (if leb 512 len then 512 else len, s')
]

unfoldable pub after_file : TarState → TarState
after_file s = record s { next_chunk_type = file_header; next_chunk_size = 512 }

unfoldable pub cut_file : TarState → Bytes → ℕ → Option (ℕ × TarState)
unfolding rounded_up after_file find_long_name
cut_file s src len =
    let rounded = rounded_up s.next_chunk_size in
    let cp = if ltb rounded len then rounded else len in
    if s.is_long_name_chunk1
    then (elim (find_long_name s.long_name src s.next_chunk_size) [
      | none ↦ none
      | some long_name ↦ some (cp, record (after_file s) { long_name = long_name })
    ])
    else some (cp, after_file s)

-- A big file is cut by FastCDC until no more than the maximum chunk size is left.
unfoldable pub cut_big : TarState → Bytes → ℕ × TarState
cut_big s src =
    let left = s.big_chunk_size - s.big_chunk_offset in
    let cp = cut_point_fast_cdc chunker_init src left in
    if ltb fixed_max left
    then (cp, record s { big_chunk_offset = s.big_chunk_offset + cp })
    else (left, record s { next_chunk_type = file_header })

-- `none`: a write past the end of `path` or `LongName`, or a copy of a reversed range.
unfoldable pub cut_point_tar_fast : TarState → Bytes → ℕ → Option (ℕ × TarState)
unfolding cut_header cut_file cut_big
cut_point_tar_fast s src len = elim s.next_chunk_type [
  | file_header ↦ cut_header s src len
  | file_chunk ↦ cut_file s src len
  | big_chunk ↦ some (cut_big s src)
]
