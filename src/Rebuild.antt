-- ===== src/Rebuild.antt =====
-- src/datawrite/datawrite.cc, dataWrite::restoreHeaderFile: a tar file is put together from the
-- header chunks of one recipe and the content chunks of the other, with the copy of CutPointTarFast
-- that class dataWrite has. The name of the output file is not modelled. xd3_decode and the
-- decompressors are parameters, as for restoreFile.
pub mod Header
pub mod Contents
pub mod Supply
pub mod Rounds
pub mod Whole
pub mod RoundTrip
mod Tests
use Prim.Native.String.{String}
use bi_search.Base.{
  ℕ, zero, suc, ◌+◌, ◌-◌, ◌*◌, ◌/◌, ◌%◌, ◌^◌, Bool, true, false, ◌&&◌, ◌||◌, Option, none, some,
  List, [], ◌∷◌, ◌++◌, Bytes, Memory, if◌then◌else◌, ltb, leb, ◌==◌, length, get_or, drop, copy,
  write_at, read_at,
}
use bi_search.Config.{
  regtype, aregtype, xhdtype, gnutype_longname, container_max_size, header_size, fixed_max,
}
use bi_search.Cdc.{cut_point_fast_cdc, chunker_init}
use bi_search.Store.{DataWrite}
use bi_search.Tar.{
  FileType, file_chunk, file_header, big_chunk, is_big, is_file_chunk, header_octal, type_flag,
  rounded_up,
}
use bi_search.Restore.{restored_chunk}

-- The members that the cut points of class dataWrite keep.
pub record RestoreTar : Type 0 where
  pub next_chunk_type : FileType
  pub next_chunk_size : ℕ
  pub big_chunk_size : ℕ
  pub big_chunk_offset : ℕ

-- The digits of an AREGTYPE header, from which '0' is not taken away.
unfoldable pub plain_loop : ℕ → ℕ → Bytes → ℕ
plain_loop zero acc digits = acc
plain_loop (suc k) acc digits =
    plain_loop k ((acc * 8 + get_or digits 0 0) % 2 ^ 64) (drop 1 digits)

-- A file of the size just read.
unfoldable pub restore_sized : RestoreTar → RestoreTar
unfolding rounded_up
restore_sized s =
    if leb s.next_chunk_size container_max_size
    then record s { next_chunk_type = file_chunk }
    else record s {
      next_chunk_type = big_chunk;
      big_chunk_size = rounded_up s.next_chunk_size;
      big_chunk_offset = 0;
    }

-- What a header says of the content behind it.
unfoldable pub restore_header : RestoreTar → Bytes → RestoreTar
unfolding restore_sized header_octal type_flag plain_loop
restore_header s src =
    let sized = record s { next_chunk_size = header_octal src } in
    if type_flag src == regtype
    then restore_sized sized
    else if type_flag src == aregtype
    then restore_sized (record s { next_chunk_size = plain_loop 11 0 (drop 124 src) })
    else if (type_flag src == xhdtype) || (type_flag src == gnutype_longname)
    then record sized { next_chunk_type = file_chunk }
    else sized

-- The copy of CutPointTarFast, where `len` and the results are uint32_t.
unfoldable pub restore_cut_point : RestoreTar → Bytes → ℕ → ℕ × RestoreTar
unfolding restore_header
restore_cut_point s src len = elim s.next_chunk_type [
  | file_header ↦ (if leb 512 len then 512 else len, restore_header s src)
  | file_chunk ↦
      let rounded = rounded_up s.next_chunk_size % 2 ^ 32 in
      (
        if ltb rounded len then rounded else len,
        record s { next_chunk_type = file_header; next_chunk_size = 512 },
      )
  | big_chunk ↦
      let left = s.big_chunk_size - s.big_chunk_offset in
      let cp = cut_point_fast_cdc chunker_init src (left % 2 ^ 32) in
      if ltb fixed_max left
      then (cp, record s { big_chunk_offset = s.big_chunk_offset + cp })
      else (left % 2 ^ 32, record s { next_chunk_type = file_header })
]

-- The members and locals of restoreHeaderFile: MultiHeaderBuffer with its size and offset, and
-- what is left of the two recipes.
pub record Rebuild : Type 0 where
  pub data_write : DataWrite
  pub tar : RestoreTar
  pub multi_header_buffer : Memory
  pub multi_header_chunk_size : ℕ
  pub multi_header_offset : ℕ
  pub headers_left : List ℕ
  pub data_left : List ℕ

-- MultiHeaderBuffer has room for 16 headers.
abbrev pub multi_header_room : ℕ
multi_header_room = 16 * 512

-- How the loop ends: with the bytes written; in an error or in undefined behaviour; or still
-- running when the fuel is used up.
pub data Rebuilt : Type 0 where
  rebuilt : Bytes → Rebuild → Rebuilt
  failed : Rebuilt
  running : Rebuilt

abbrev pub written_first : Bytes → Rebuilt → Rebuilt
written_first x (rebuilt y r) = rebuilt (x ++ y) r
written_first x failed = failed
written_first x running = running

abbrev pub is_empty : List ℕ → Bool
is_empty [] = true
is_empty (x ∷ xs) = false

-- The reset behind the loop.
unfoldable pub back_to_file_header : Rebuilt → Rebuilt
back_to_file_header (rebuilt x r) =
    rebuilt x (record r { tar = record r.tar { next_chunk_type = file_header } })
back_to_file_header failed = failed
back_to_file_header running = running

module _ (lz4_decompress_safe inflate_decompress : Bytes → Bytes)
    (xd3_decode : Bytes → Bytes → Bytes) where
  -- A chunk of a recipe, decoded.
  abbrev pub fetched : DataWrite → ℕ → Option (Bytes × DataWrite)
  fetched st id = restored_chunk lz4_decompress_safe inflate_decompress xd3_decode st id

  -- The next header chunk, where there is one. `none`: it does not fit, or is not in the store.
  unfoldable pub load_headers : Rebuild → Option Rebuild
  load_headers r = elim r.headers_left [
    | [] ↦ some r
    | id ∷ ids ↦ elim (fetched r.data_write id) [
      | none ↦ none
      | some (bytes, st) ↦
          if ltb multi_header_room (length bytes)
          then none
          else some (record r {
            data_write = st;
            multi_header_buffer = write_at r.multi_header_buffer 0 bytes;
            multi_header_chunk_size = length bytes;
            multi_header_offset = 0;
            headers_left = ids;
          })
    ]
  ]

  unfoldable pub supplement : Rebuild → Option Rebuild
  unfolding load_headers
  supplement r =
      if r.multi_header_chunk_size == r.multi_header_offset then load_headers r else some r

  -- The content chunks of a big file; `left` bytes are due. `none`: the recipe is through.
  unfoldable pub restored_big : ℕ → DataWrite → List ℕ → Option (Bytes × DataWrite × List ℕ)
  restored_big left st [] = if left == 0 then some ([], st, []) else none
  restored_big left st (id ∷ ids) =
      let rest : Option (Bytes × DataWrite × List ℕ) = elim (fetched st id) [
        | none ↦ none
        | some (bytes, st') ↦
            elim (restored_big ((left + 2 ^ 64 - length bytes) % 2 ^ 64) st' ids) [
              | none ↦ none
              | some (more, st'', left') ↦ some (bytes ++ more, st'', left')
            ]
      ] in
      if left == 0 then some ([], st, id ∷ ids) else rest

  -- The content behind a header: nothing, one chunk, or the chunks of a big file.
  unfoldable pub restored_content : Rebuild → Option (Bytes × Rebuild)
  unfolding restored_big is_file_chunk is_big
  restored_content r =
      if (r.tar.next_chunk_size == 0) || is_empty r.data_left
      then some ([], r)
      else if is_file_chunk r.tar.next_chunk_type
      then (elim r.data_left [
        | [] ↦ some ([], r)
        | id ∷ ids ↦ elim (fetched r.data_write id) [
          | none ↦ none
          | some (bytes, st) ↦ some (bytes, record r { data_write = st; data_left = ids })
        ]
      ])
      else if is_big r.tar.next_chunk_type
      then (elim (restored_big r.tar.big_chunk_size r.data_write r.data_left) [
        | none ↦ none
        | some (bytes, st, ids) ↦ some (bytes, record r { data_write = st; data_left = ids })
      ])
      else some ([], r)

  -- A header: it is written, and says what is due.
  unfoldable pub take_header : Rebuild → Bytes × Rebuild
  unfolding restore_cut_point
  take_header r =
      let src = read_at r.multi_header_buffer r.multi_header_offset header_size in
      let s = record r.tar { next_chunk_type = file_header } in
      let (cp, s') =
        restore_cut_point s src ((r.multi_header_chunk_size - r.multi_header_offset) % 2 ^ 32) in
      (src, record r { tar = s'; multi_header_offset = r.multi_header_offset + header_size })

  -- The loop.
  unfoldable pub rebuild : ℕ → Rebuild → Rebuilt
  unfolding supplement take_header restored_content
  rebuild zero r = running
  rebuild (suc fuel) r =
      let body : Rebuilt = elim (supplement r) [
        | none ↦ failed
        | some r1 ↦
            let (header, r2) = take_header r1 in
            let content : Rebuilt = elim (restored_content r2) [
              | none ↦ failed
              | some (bytes, r3) ↦ written_first (header ++ bytes) (rebuild fuel r3)
            ] in
            if leb r1.multi_header_chunk_size r1.multi_header_offset
            then rebuilt [] r1
            else if ltb multi_header_room (r1.multi_header_offset + header_size)
            then failed
            else content
      ] in
      if is_empty r.headers_left
        && (is_empty r.data_left && (r.multi_header_chunk_size == r.multi_header_offset))
      then rebuilt [] r
      else body

  -- restoreHeaderFile. Each round takes a header.
  unfoldable pub restore_header_file : ℕ → Rebuild → String → Rebuilt
  unfolding rebuild back_to_file_header
  restore_header_file fuel r name = back_to_file_header (
      rebuild fuel (record r {
        headers_left = r.data_write.recipe_map_header name;
        data_left = r.data_write.recipe_map name;
      }))
