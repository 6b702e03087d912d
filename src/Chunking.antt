-- ===== src/Chunking.antt =====
-- src/chunking/chunker.cc, Chunker::Chunking for the chunk types whose cut keeps no state
-- (FIXED_SIZE, FASTCDC, GEARCDC): the file is read in windows of `cap` bytes into a zeroed
-- buffer, cut while a window holds at least `quota` bytes or the file has ended, and read on
-- from the first byte that is not cut yet.
pub mod Splits
pub mod Complete
pub mod Windows
pub mod FixedSize
mod Tests
use bi_search.Base.{
  ℕ, zero, suc, ◌+◌, ◌-◌, ◌*◌, ◌%◌, ◌^◌, Bool, true, false, ◌&&◌, ◌||◌, List, [], ◌∷◌, ◌++◌, Bytes,
  if◌then◌else◌, ltb, leb, ◌==◌, length, take, drop, copy,
}
use bi_search.Config.{read_file_size, container_max_size, fixed_avg}
use bi_search.Cdc.{cut_point_fast_cdc, cut_point_gear, chunker_init}

-- enum ChunkTypeNum, the members without a state.
pub data ChunkType : Type 0 where
  fixed_size fastcdc gearcdc : ChunkType

-- size_t subtraction.
abbrev pub sub64 : ℕ → ℕ → ℕ
sub64 a b = (a + 2 ^ 64 - b) % 2 ^ 64

-- The bytes asked of the stream, and the bytes that must be at hand to go on cutting. The product
-- is an int in the source; it overflows from a MULTI_HEADER_CHUNK of 512 on.
abbrev pub window_size : ℕ → ℕ
window_size multi_header_chunk = read_file_size + multi_header_chunk * container_max_size

abbrev pub cut_quota : ℕ → ℕ
cut_quota multi_header_chunk = container_max_size * multi_header_chunk

-- The switch over chunkType.
unfoldable pub cut_point : ChunkType → Bytes → ℕ → ℕ
cut_point fixed_size src len = fixed_avg
cut_point fastcdc src len = cut_point_fast_cdc chunker_init src len
cut_point gearcdc src len = cut_point_gear src len

-- How a loop ends: with the chunks that it pushed and the offset that it reached, by a read past
-- the buffer, or still running when the fuel is used up.
pub data Outcome : Type 0 where
  finished : List Bytes → ℕ → Outcome
  overrun : Outcome
  running : Outcome

abbrev pub push : Bytes → Outcome → Outcome
push c (finished cs off) = finished (c ∷ cs) off
push c overrun = overrun
push c running = running

abbrev pub append : List Bytes → Outcome → Outcome
append [] o = o
append (c ∷ cs) o = push c (append cs o)

-- The constructor allocates the read buffer while MULTI_HEADER_CHUNK is still 16.
abbrev pub buffer_size : ℕ
buffer_size = window_size 16

module _ (cut : Bytes → ℕ → ℕ) (quota room : ℕ) where
  -- The inner `while`, from `localOffset = off`. memcpy of `cp` bytes reads the buffer up to
  -- off + cp, which must not pass the `room` bytes that it has.
  unfoldable pub cut_window : ℕ → Bytes → Bool → ℕ → Outcome
  cut_window zero buffer ended off = running
  cut_window (suc fuel) buffer ended off =
      let left = sub64 (length buffer) off in
      let cp = cut (drop off buffer) left in
      let again = cut_window fuel buffer ended off in
      let next = cut_window fuel buffer ended (off + cp) in
      let body =
        if cp == 0
        then again
        else if ltb room (off + cp)
        then overrun
        else push (copy cp (drop off buffer)) next in
      if leb quota left || (ended && ltb off (length buffer)) then body else finished [] off

module _ (cut : Bytes → ℕ → ℕ) (quota cap room : ℕ) where
  -- The outer `while (!end)`, from `totalOffset = total`. memset clears `cap` bytes of the buffer.
  unfoldable pub chunking : ℕ → ℕ → Bytes → ℕ → Outcome
  unfolding cut_window
  chunking inner_fuel zero file total = running
  chunking inner_fuel (suc fuel) file total =
      let buffer = take cap (drop total file) in
      let ended = ltb (length buffer) cap in
      let after : Outcome → Outcome = λ o. elim o [
        | finished cs off ↦
            let rest = chunking inner_fuel fuel file (total + off) in
            if ended then finished cs (total + off) else append cs rest
        | overrun ↦ overrun
        | running ↦ running
      ] in
      if ltb room cap
      then overrun
      else if length buffer == 0
      then finished [] total
      else after (cut_window cut quota room inner_fuel buffer ended 0)
