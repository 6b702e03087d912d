-- ===== src/Types.antt =====
-- include/struct.h and the enums of include/define.h: chunks and containers.
use bi_search.Base.{ℕ, Bool, true, false, Option, Bytes, Memory}

-- enum DELTA_TYPE
pub data DeltaType : Type 0 where
  no_delta no_lz4 delta finesse_to_base finesse_delta local_delta : DeltaType

unfoldable pub is_no_delta : DeltaType → Bool
is_no_delta no_delta = true
is_no_delta _ = false

-- deltaFlag == NO_DELTA || deltaFlag == NO_LZ4: not a delta.
unfoldable pub is_whole : DeltaType → Bool
is_whole no_delta = true
is_whole no_lz4 = true
is_whole _ = false

-- Chunk_t. `chunk_ptr` is what the pointer points to, [] for nullptr; `none` is a base of -1.
pub record Chunk : Type 0 where
  pub chunk_id : ℕ
  pub chunk_size : ℕ
  pub save_size : ℕ
  pub offset : ℕ
  pub container_id : ℕ
  pub chunk_ptr : Bytes
  pub name : ℕ
  pub basechunk_id : Option ℕ
  pub delta_flag : DeltaType
  pub load_from_disk : Bool
  pub header_flag : Bool
  pub name_exist : Bool
  pub cdc_flag : Bool

-- Container_t. `content` is the array `data`.
pub record Container : Type 0 where
  pub size : ℕ
  pub chunk_num : ℕ
  pub container_id : ℕ
  pub content : Memory
