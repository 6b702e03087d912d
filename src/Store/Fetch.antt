-- ===== src/Store/Fetch.antt =====
-- dataWrite::Get_Chunk_Info: a chunk's bytes from the read cache, its container's file or the
-- container in memory. The two decompressors are parameters: the LZ4 library's
-- LZ4_decompress_safe and zlib's inflate, each as the bytes that it writes.
use bi_search.Base.{
  ℕ, ◌+◌, Bool, true, false, not, Option, none, some, [], Bytes, Memory, if◌then◌else◌, ◌==◌, copy,
  read_at, write_at, get_elem?, get_or, set,
}
use bi_search.Types.{Chunk, is_no_delta}
use bi_search.Cache.{insert_to_cache, exists_in_cache, read_from_cache}
use bi_search.Store.{DataWrite, stored_size}

-- A list of bytes as memory.
abbrev pub memory_of : Bytes → Memory
memory_of bs i = get_or bs i 0

module _ (lz4_decompress_safe inflate_decompress : Bytes → Bytes) where
  abbrev pub decompress : Bool → Bytes → Bytes
  decompress lz4 bs = if lz4 then lz4_decompress_safe bs else inflate_decompress bs

  -- lz4SafeChunkBuffer after the chunk, in `container`, is decompressed into it.
  unfoldable pub decoded : DataWrite → Chunk → Memory → Memory
  decoded st c container =
      write_at st.lz4_safe_chunk_buffer 0
        (decompress st.lz4_compress (read_at container c.offset c.save_size))

  -- The chunk as it is found in `container`: a base chunk is decompressed, any other is taken as
  -- it is. `fresh` says whether the bytes of a chunk of the second kind are copied out.
  unfoldable pub deliver : DataWrite → ℕ → Chunk → Memory → Bool → Chunk × DataWrite
  unfolding decoded is_no_delta stored_size
  deliver st id c container fresh =
      let buffer =
        if is_no_delta c.delta_flag then decoded st c container else st.lz4_safe_chunk_buffer in
      let ptr =
        if is_no_delta c.delta_flag
        then read_at buffer 0 (stored_size c)
        else read_at container c.offset (stored_size c) in
      let loaded = if is_no_delta c.delta_flag then true else fresh in
      let c' = record c { chunk_ptr = ptr; load_from_disk = loaded } in
      (c', record st { chunklist = set st.chunklist id c'; lz4_safe_chunk_buffer = buffer })

  -- The first branch: the container is cached.
  unfoldable pub from_cache : DataWrite → ℕ → Chunk → Option (Chunk × DataWrite)
  unfolding deliver
  from_cache st id c = elim (read_from_cache st.container_cache c.container_id) [
    | none ↦ none
    | some (m, cache) ↦ some (
        deliver (record st { container_cache = cache; cache_hit_times = st.cache_hit_times + 1 }) id
          c m false)
  ]

  -- The second branch: the container is in a file, and is cached then. Where the file does not
  -- open the buffer stays as malloc left it, here [].
  unfoldable pub from_file : DataWrite → ℕ → Chunk → Option (Chunk × DataWrite)
  unfolding deliver
  from_file st id c =
      let counted = record st { load_container_times = st.load_container_times + 1 } in
      elim (st.containers c.container_id) [
        | none ↦
            let c' = record c { chunk_ptr = []; load_from_disk = true } in
            some (c', record counted { chunklist = set st.chunklist id c' })
        | some f ↦
            let container = copy f.size f.payload in
            elim (insert_to_cache st.container_cache c.container_id container f.size) [
              | none ↦ none
              | some cache ↦ some (
                  deliver (record counted { container_cache = cache }) id c (memory_of container)
                    true)
            ]
      ]

  -- The third branch: the container is the current one.
  unfoldable pub from_memory : DataWrite → ℕ → Chunk → Option (Chunk × DataWrite)
  unfolding deliver
  from_memory st id c = some (deliver st id c st.cur_container.content false)

  -- `none`: an index past the vector, or an exception of the cache.
  unfoldable pub get_chunk_info : DataWrite → ℕ → Option (Chunk × DataWrite)
  unfolding from_cache from_file from_memory
  get_chunk_info st id = elim (get_elem? st.chunklist id) [
    | none ↦ none
    | some c ↦
        if exists_in_cache st.container_cache c.container_id
        then from_cache st id c
        else if not (c.container_id == st.container_num)
        then from_file st id c
        else from_memory st id c
  ]
