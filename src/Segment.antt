-- ===== src/Segment.antt =====
-- src/chunking/chunker.cc, Chunker::CutPointTarHeader: the headers of some entries are collected
-- to one chunk, and their contents are chunks of their own; a big file is cut into chunks by
-- itself. Segment.chunking is Chunker::Chunking for TAR_MultiHeader. blockTypeMask, which nothing
-- reads, is left out.
pub mod Layout
pub mod Due
pub mod Headers
pub mod Filling
pub mod Rests
pub mod Collect
pub mod Counted
pub mod Contents
pub mod Kept
pub mod Streams
pub mod Windows
pub mod Separated
mod Tests
use bi_search.Base.{
  ℕ, zero, suc, ◌+◌, ◌-◌, ◌*◌, ◌%◌, ◌^◌, Bool, true, false, not, ◌&&◌, ◌||◌, Option, none, some,
  List, [], ◌∷◌, ◌++◌, Bytes, if◌then◌else◌, ltb, leb, ◌==◌, length, take, drop, copy,
}
use bi_search.Config.{container_max_size, max_chunk_size}
use bi_search.Types.{Chunk, no_delta}
use bi_search.Chunking.{sub64, buffer_size, window_size, cut_quota}
use bi_search.Tar.{
  FileType, file_header, is_file_header, is_big, is_file_chunk, TarState, cut_point_tar_fast,
}
use bi_search.Tar.Names.{hash_name_to_uint64, hash_long_name_to_uint64}

-- The members: what CutPointTarFast keeps, localType, and headerBuffer's HeaderCp bytes.
pub record HeaderState : Type 0 where
  pub tar : TarState
  pub local_type : FileType
  pub header_buffer : Bytes

-- A chunk as it is pushed. What the code leaves unset is 0 or none.
unfoldable pub new_chunk : Bytes → Bool → ℕ → Bool → Bool → Chunk
new_chunk bytes name_exist name header_flag cdc_flag = record {
  chunk_id = 0;
  chunk_size = length bytes;
  save_size = 0;
  offset = 0;
  container_id = 0;
  chunk_ptr = bytes;
  name = name;
  basechunk_id = none;
  delta_flag = no_delta;
  load_from_disk = false;
  header_flag = header_flag;
  name_exist = name_exist;
  cdc_flag = cdc_flag;
}

-- The name of a content's chunk: two chunks follow a long name's header.
unfoldable pub chunk_name : TarState → ℕ × TarState
chunk_name s =
    if not s.is_long_name_chunk1 && not s.is_long_name_chunk2
    then (hash_name_to_uint64 s.name, s)
    else if s.is_long_name_chunk1
    then (
      (hash_long_name_to_uint64 s.long_name + 2 ^ 64 - 1) % 2 ^ 64,
      record s { is_long_name_chunk1 = false; is_long_name_chunk2 = true },
    )
    else (hash_long_name_to_uint64 s.long_name, record s { is_long_name_chunk2 = false })

-- How a loop ends: with the chunks pushed, the offset and the state; in undefined behaviour; or
-- still running when the fuel is used up.
pub data Cutting : Type 0 where
  finished : List Chunk → ℕ → HeaderState → Cutting
  undefined : Cutting
  running : Cutting

abbrev pub push_all : List Chunk → Cutting → Cutting
push_all cs (finished ds off st) = finished (cs ++ ds) off st
push_all cs undefined = undefined
push_all cs running = running

-- One round of a loop: `advanced` is false where it starts over by `continue`.
pub record Round : Type 0 where
  pub pushed : List Chunk
  pub cp : ℕ
  pub state : HeaderState
  pub advanced : Bool

unfoldable pub back_to_header : HeaderState → HeaderState
back_to_header st = record st { tar = record st.tar { next_chunk_type = file_header } }

-- The chunk of the collected headers, and the reset of HeaderCp.
unfoldable pub push_headers : Cutting → Cutting
unfolding new_chunk
push_headers (finished cs n st) =
    finished
      (cs ++ new_chunk st.header_buffer true (hash_name_to_uint64 st.tar.path) true false ∷ []) n
      (record st { header_buffer = [] })
push_headers undefined = undefined
push_headers running = running

unfoldable pub clear_long_names : Cutting → Cutting
clear_long_names (finished cs n st) =
    finished cs n (record st {
      tar = record st.tar { is_long_name_chunk1 = false; is_long_name_chunk2 = false };
    })
clear_long_names undefined = undefined
clear_long_names running = running

-- `header_room` is the size of headerBuffer, `room` the bytes of readFileBuffer from src on.
module _ (header_room room : ℕ) where
  -- The body of the first loop after CutPointTarFast. A content is cut within its bytes.
  unfoldable pub header_round : HeaderState → TarState → Bytes → ℕ → ℕ → Option Round
  unfolding is_file_header new_chunk chunk_name
  header_round st s' rest cp_sum cp =
      let kind = st.tar.next_chunk_type in
      let collected = st.header_buffer ++ copy cp rest in
      let (name, s'') = chunk_name s' in
      if is_file_header kind
      then (if ltb header_room (length st.header_buffer + cp) || ltb room (cp_sum + cp)
          then none
          else some (record {
            pushed = [];
            cp = cp;
            state = record { tar = s'; local_type = kind; header_buffer = collected };
            advanced = true;
          }))
      else if cp == 0
      then some (record {
        pushed = [];
        cp = 0;
        state = record st { tar = s'; local_type = kind };
        advanced = false;
      })
      else if ltb room (cp_sum + cp)
      then none
      else some (record {
        pushed = new_chunk (copy cp rest) s'.name_exist name false false ∷ [];
        cp = cp;
        state = record st { tar = s''; local_type = kind };
        advanced = true;
      })

module _ (multi_header_chunk : ℕ) where
  -- The condition of the first loop.
  unfoldable pub fills_headers : HeaderState → Bool
  unfolding is_file_header is_file_chunk is_big
  fills_headers st =
      (ltb (length st.header_buffer) (multi_header_chunk * 512)
        || (is_file_header st.local_type && is_file_chunk st.tar.next_chunk_type))
      && not (is_big st.tar.next_chunk_type)

module _ (multi_header_chunk header_room room : ℕ) where
  unfoldable pub fill_headers : ℕ → HeaderState → Bytes → ℕ → ℕ → Cutting
  unfolding header_round fills_headers back_to_header
  fill_headers zero st src len cp_sum = running
  fill_headers (suc fuel) st src len cp_sum =
      let body : Cutting = elim (cut_point_tar_fast st.tar (drop cp_sum src) (sub64 len cp_sum)) [
        | none ↦ undefined
        | some (cut, s') ↦
            elim (header_round header_room room st s' (drop cp_sum src) cp_sum (cut % 2 ^ 32)) [
              | none ↦ undefined
              | some r ↦
                  let rest = fill_headers fuel r.state src len (cp_sum + r.cp) in
                  if r.advanced && (cp_sum + r.cp == len)
                  then finished r.pushed (cp_sum + r.cp) (back_to_header r.state)
                  else push_all r.pushed rest
            ]
      ] in
      if fills_headers multi_header_chunk st then body else finished [] cp_sum st

module _ (room : ℕ) where
  -- The second loop, which cuts a big file until enough is cut.
  unfoldable pub cut_contents : ℕ → HeaderState → Bytes → ℕ → ℕ → Cutting
  unfolding is_file_header new_chunk
  cut_contents zero st src len cp_sum = running
  cut_contents (suc fuel) st src len cp_sum =
      let body : Cutting = elim (cut_point_tar_fast st.tar (drop cp_sum src) (sub64 len cp_sum)) [
        | none ↦ undefined
        | some (cut, s') ↦
            let cp = cut % 2 ^ 32 in
            let st' = record st { tar = s'; local_type = st.tar.next_chunk_type } in
            let pushed = new_chunk (copy cp (drop cp_sum src)) true 0 false true ∷ [] in
            let rest = cut_contents fuel st' src len (cp_sum + cp) in
            if ltb room (cp_sum + cp)
            then undefined
            else if cp_sum + cp == len
            then finished pushed (cp_sum + cp) st'
            else push_all pushed rest
      ] in
      if not (is_file_header st.tar.next_chunk_type)
        && ltb cp_sum (container_max_size - max_chunk_size)
      then body
      else finished [] cp_sum st

module _ (multi_header_chunk header_room room : ℕ) where
  unfoldable pub cut_point_tar_header : ℕ → HeaderState → Bytes → ℕ → Cutting
  unfolding fill_headers cut_contents push_headers clear_long_names
  cut_point_tar_header fuel st src len =
      if is_file_header st.tar.next_chunk_type
      then push_headers (fill_headers multi_header_chunk header_room room fuel st src len 0)
      else clear_long_names (cut_contents room fuel st src len 0)

-- `room` is now the size of readFileBuffer.
module _ (multi_header_chunk header_room room quota : ℕ) where
  -- The inner loop of Chunking.
  unfoldable pub cut_segments : ℕ → ℕ → HeaderState → Bytes → Bool → ℕ → Cutting
  unfolding cut_point_tar_header
  cut_segments inner zero st buffer ended off = running
  cut_segments inner (suc fuel) st buffer ended off =
      let left = sub64 (length buffer) off in
      let body : Cutting =
        elim (cut_point_tar_header multi_header_chunk header_room (room - off) inner st
          (drop off buffer) left) [
            | finished cs n st' ↦ push_all cs (cut_segments inner fuel st' buffer ended (off + n))
            | undefined ↦ undefined
            | running ↦ running
          ] in
      if leb quota left || (ended && ltb off (length buffer)) then body else finished [] off st

  -- The outer loop.
  unfoldable pub chunking_tar : ℕ → ℕ → ℕ → ℕ → HeaderState → Bytes → ℕ → Cutting
  unfolding cut_segments
  chunking_tar cap inner middle zero st file total = running
  chunking_tar cap inner middle (suc fuel) st file total =
      let buffer = take cap (drop total file) in
      let ended = ltb (length buffer) cap in
      let after : Cutting → Cutting = λ o. elim o [
        | finished cs off st' ↦
            let rest = chunking_tar cap inner middle fuel st' file (total + off) in
            if ended then finished cs (total + off) st' else push_all cs rest
        | undefined ↦ undefined
        | running ↦ running
      ] in
      if ltb room cap
      then undefined
      else if length buffer == 0
      then finished [] total st
      else after (cut_segments inner middle st buffer ended 0)

-- headerBuffer is allocated for 16 headers and one more.
abbrev pub header_buffer_size : ℕ
header_buffer_size = 512 * 17

-- Each round of an inner loop takes a byte or goes from an empty content to a header, each call
-- of CutPointTarHeader takes a byte, and so does each window.
unfoldable pub tar_chunking : ℕ → HeaderState → Bytes → Cutting
unfolding chunking_tar
tar_chunking multi_header_chunk st file =
    chunking_tar multi_header_chunk header_buffer_size buffer_size (cut_quota multi_header_chunk)
      (window_size multi_header_chunk) (2 * buffer_size + 3) (suc buffer_size) (suc (length file))
      st file 0
