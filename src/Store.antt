-- ===== src/Store.antt =====
-- src/datawrite/datawrite.cc, include/datawrite.h: the chunk store. Chunks are packed into a
-- container in memory, which is written to ./Containers/<id> when the next chunk does not fit.
-- The `int` and `uint64_t` sizes are far below their ranges: a container has 4 MB.
pub mod Fetch
pub mod Stored
pub mod Roll
pub mod Insert
pub mod Deliver
pub mod Locate
pub mod Read
pub mod RoundTrip
pub mod Tests
use Prim.Native.String.{String}
use text.Mathlib.Text.{◌==◌ as str_eq}
use bi_search.Base.{
  ℕ, suc, ◌+◌, Bool, true, Option, none, some, List, [], ◌∷◌, ◌++◌, Bytes, Memory, if◌then◌else◌,
  ltb, ◌==◌, copy, read_at, write_at, get_elem?,
}
use bi_search.Config.{container_max_size}
use bi_search.Types.{DeltaType, is_no_delta, Chunk, Container}
use bi_search.Cache.{ReadCache, read_cache}
use bi_search.Cache

-- A container file: the eight bytes of the size, then the data.
pub record ContainerFile : Type 0 where
  pub size : ℕ
  pub payload : Bytes

-- class dataWrite and the file's static variables. `containers` are the files of ./Containers,
-- `can_open` says for which of them the stream opens.
pub record DataWrite : Type 0 where
  pub chunk_num : ℕ
  pub container_size : ℕ
  pub filename : String
  pub load_container_times : ℕ
  pub cache_hit_times : ℕ
  pub recipe_map : String → List ℕ
  pub recipe_map_header : String → List ℕ
  pub container_cache : ReadCache
  pub lz4_safe_chunk_buffer : Memory
  pub lz4_compress : Bool
  pub chunklist : List Chunk
  pub container_num : ℕ
  pub cur_container : Container
  pub cur_offset : ℕ
  pub containers : ℕ → Option ContainerFile
  pub can_open : ℕ → Bool

-- dataWrite::dataWrite(). The arguments: what the allocated memory holds, and the files.
unfoldable pub new_data_write :
    (ℕ → Memory) → Memory → Memory → (ℕ → Option ContainerFile) → (ℕ → Bool) → DataWrite
new_data_write pool buffer content files opens = record {
  chunk_num = 0;
  container_size = 0;
  filename = "";
  load_container_times = 0;
  cache_hit_times = 0;
  recipe_map = λ name. [];
  recipe_map_header = λ name. [];
  container_cache = read_cache pool;
  lz4_safe_chunk_buffer = buffer;
  lz4_compress = true;
  chunklist = [];
  container_num = 0;
  cur_container = record { size = 0; chunk_num = 0; container_id = 0; content = content };
  cur_offset = 0;
  containers = files;
  can_open = opens;
}

-- The files after a write to one of them.
unfoldable pub written : (ℕ → Option ContainerFile) → ℕ → ContainerFile → ℕ → Option ContainerFile
written files id f k = if k == id then some f else files k

-- The current container, to its file. A stream that does not open loses it.
unfoldable pub write_container : DataWrite → DataWrite
unfolding written
write_container st =
    let c = st.cur_container in
    if st.can_open c.container_id
    then (record st {
      containers =
          written st.containers c.container_id
            (record { size = c.size; payload = read_at c.content 0 c.size });
    })
    else st

-- Writes the full container and starts the next one.
unfoldable pub roll_container : DataWrite → DataWrite
unfolding write_container
roll_container st = record (write_container st) {
  container_num = st.container_num + 1;
  container_size = 0;
  cur_offset = 0;
  cur_container = record (st.cur_container) {
    size = 0;
    container_id = st.container_num + 1;
    chunk_num = 0;
  };
}

-- The chunk's `tmp_size` bytes go behind the others of the container.
unfoldable pub append_chunk : DataWrite → Chunk → ℕ → Bytes → DataWrite
append_chunk st chunk tmp_size src = record st {
  cur_container = record (st.cur_container) {
    size = st.cur_container.size + tmp_size;
    content = write_at st.cur_container.content st.cur_offset (copy tmp_size src);
  };
  cur_offset = st.cur_offset + tmp_size;
  chunklist =
      st.chunklist
      ++ record chunk { container_id = st.container_num; offset = st.cur_offset; chunk_ptr = [] }
        ∷ [];
}

unfoldable pub count_chunk : DataWrite → Chunk → DataWrite
count_chunk st chunk = record st {
  chunk_num = st.chunk_num + 1;
  container_size = st.container_size + chunk.save_size;
  cur_container = record (st.cur_container) { chunk_num = st.cur_container.chunk_num + 1 };
}

-- What both versions of Chunk_Insert do with the size and the bytes that they store.
unfoldable pub place : DataWrite → Chunk → ℕ → Bytes → DataWrite
unfolding count_chunk roll_container append_chunk
place st chunk tmp_size src =
    let counted = count_chunk st chunk in
    let ready =
      if ltb container_max_size (counted.cur_container.size + tmp_size)
      then roll_container counted
      else counted in
    append_chunk ready chunk tmp_size src

unfoldable pub stored_size : Chunk → ℕ
unfolding is_no_delta
stored_size c = if is_no_delta c.delta_flag then c.chunk_size else c.save_size

-- Chunk_Insert(chunk)
unfoldable pub chunk_insert : DataWrite → Chunk → DataWrite
unfolding place stored_size
chunk_insert st chunk = place st chunk (stored_size chunk) chunk.chunk_ptr

-- Chunk_Insert(chunk, lz4Buffer)
unfoldable pub chunk_insert_lz4 : DataWrite → Chunk → Bytes → DataWrite
unfolding place
chunk_insert_lz4 st chunk lz4_buffer = place st chunk chunk.save_size lz4_buffer

-- RecipeMap[filename].push_back(chunkID)
unfoldable pub pushed : (String → List ℕ) → String → ℕ → String → List ℕ
pushed m name id k = if str_eq name k then m k ++ id ∷ [] else m k

unfoldable pub recipe_insert : DataWrite → ℕ → DataWrite
unfolding pushed
recipe_insert st id = record st { recipe_map = pushed st.recipe_map st.filename id }

unfoldable pub recipe_header_insert : DataWrite → ℕ → DataWrite
unfolding pushed
recipe_header_insert st id = record st {
  recipe_map_header = pushed st.recipe_map_header st.filename id;
}

unfoldable pub set_filename : DataWrite → String → DataWrite
set_filename st name = record st { filename = name }

-- A negative or too large index reads past the vector: `none`.
unfoldable pub get_chunk_meta_info : DataWrite → ℕ → Option Chunk
get_chunk_meta_info st id = get_elem? st.chunklist id

unfoldable pub process_last_container : DataWrite → DataWrite
unfolding write_container
process_last_container st = if st.cur_container.size == 0 then st else write_container st

unfoldable pub clear_all_cache : DataWrite → DataWrite
clear_all_cache st = record st { container_cache = Cache.clear_all_cache st.container_cache }
