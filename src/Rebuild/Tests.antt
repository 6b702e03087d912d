-- ===== src/Rebuild/Tests.antt =====
-- Restoring a directory, a file in it and the blocks that end an archive from a chunk of headers and
-- a chunk of content.
use bi_search.Base.{
  ap, append-nil, length-append, ◌≡◌, refl, sym, subst, ◌∙◌, true, false, none, List, [], ◌∷◌, ◌++◌,
  arith, Bytes, Memory, length, copy,
}
use bi_search.Types.{Chunk, no_lz4, is_no_delta, is_whole}
use bi_search.Config.{container_max_size}
use bi_search.Cache.{read_cache}
use bi_search.Cache.Coherent.{read_cache-IsCoherent}
use bi_search.Store.{DataWrite, chunk_insert}
use bi_search.Store.Stored.{Blob, IsValid, AllStored, Frame, contents}
use bi_search.Store.Insert.{blob_of, chunk_insert-IsValid}
use bi_search.Restore.Originals.{Serves, whole}
use bi_search.Tar.{file_header, type_flag}
use bi_search.Tar.Samples.{
  new_tar, directory, small_file, end_block, sample, end_block-IsEntry, sample-AllEntries,
}
use bi_search.Tar.Archive.{Entry, archive, headers}
use bi_search.Segment.{HeaderState, finished, tar_chunking}
use bi_search.Segment.Separated.{tar_chunking-archive}
use bi_search.Rebuild.RoundTrip.{restore_header_file-tar_chunking}
use bi_search.Segment.Layout.{
  AllHeaderChunks, header_bytes, header_pieces, data_pieces, join, join-header_pieces, none_left,
  part, parts_nil, LaidOut, none_laid, laid,
}
use bi_search.Rebuild.{plain_loop, Rebuild, rebuilt, restore_header_file}
use bi_search.Rebuild.Header.{NoDigits}
use bi_search.Rebuild.Contents.{Lists, no_chunks, next_chunk}
use bi_search.Rebuild.Rounds.{IsUsedUp}
use bi_search.Rebuild.Whole.{restore_header_file-archive}

abbrev same : Bytes → Bytes
same bs = bs

abbrev no_delta_code : Bytes → Bytes → Bytes
no_delta_code d base = []

abbrev plain_chunk : Bytes → Chunk
plain_chunk bytes = record {
  chunk_id = 0;
  chunk_size = length bytes;
  save_size = length bytes;
  offset = 0;
  container_id = 0;
  chunk_ptr = bytes;
  name = 0;
  basechunk_id = none;
  delta_flag = no_lz4;
  load_from_disk = false;
  header_flag = false;
  name_exist = false;
  cdc_flag = false;
}

abbrev four_headers : Bytes
four_headers = headers sample

abbrev no_memory : Memory
no_memory i = 0

-- Each file has the chunk 0 of headers and the chunk 1 of content.
abbrev empty : DataWrite
empty = record {
  chunk_num = 0;
  container_size = 0;
  filename = "a.tar";
  load_container_times = 0;
  cache_hit_times = 0;
  recipe_map = λ s. 1 ∷ [];
  recipe_map_header = λ s. 0 ∷ [];
  container_cache = read_cache (λ i. no_memory);
  lz4_safe_chunk_buffer = no_memory;
  lz4_compress = true;
  chunklist = [];
  container_num = 0;
  cur_container = record { size = 0; chunk_num = 0; container_id = 0; content = no_memory };
  cur_offset = 0;
  containers = λ k. none;
  can_open = λ k. true;
}

empty-IsValid : IsValid empty
unfolding read_cache
empty-IsValid = record {
  filled = refl;
  numbered = refl;
  fits = omega arith;
  cache = read_cache-IsCoherent (contents empty.containers) (λ i. no_memory);
  cached = tt;
  filed = λ k h. absurd (omega arith);
  opens = λ k. refl;
}

abbrev one_stored : DataWrite
one_stored = chunk_insert empty (plain_chunk four_headers)

abbrev both_stored : DataWrite
both_stored = chunk_insert one_stored (plain_chunk small_file.content)

abbrev blobs : List Blob
blobs =
    blob_of (plain_chunk four_headers) four_headers
    ∷ blob_of (plain_chunk small_file.content) small_file.content
    ∷ []

one_held :
    IsValid one_stored
    × AllStored one_stored one_stored.chunklist
        (blob_of (plain_chunk four_headers) four_headers ∷ [])
    × Frame empty one_stored
unfolding copy is_no_delta
one_held =
    chunk_insert-IsValid empty (plain_chunk four_headers) [] refl empty-IsValid tt (omega arith)

both_held :
    IsValid both_stored
    × AllStored both_stored both_stored.chunklist blobs
    × Frame one_stored both_stored
unfolding copy is_no_delta
both_held =
    chunk_insert-IsValid one_stored (plain_chunk small_file.content)
      (blob_of (plain_chunk four_headers) four_headers ∷ []) refl one_held.0 one_held.1
      (omega arith)

both_stored-Serves : Serves true blobs both_stored
both_stored-Serves = record {
  valid = both_held.0;
  all = both_held.1;
  codec = both_held.2.codec ∙ one_held.2.codec;
}

abbrev new_rebuild : Rebuild
new_rebuild = record {
  data_write = both_stored;
  tar = record {
    next_chunk_type = file_header;
    next_chunk_size = 0;
    big_chunk_size = 0;
    big_chunk_offset = 0;
  };
  multi_header_buffer = no_memory;
  multi_header_chunk_size = 0;
  multi_header_offset = 0;
  headers_left = [];
  data_left = [];
}

directory-NoDigits : NoDigits directory
unfolding type_flag
directory-NoDigits e = absurd (omega (arith, e))

small_file-NoDigits : NoDigits small_file
unfolding type_flag
small_file-NoDigits e = absurd (omega (arith, e))

end_block-NoDigits : NoDigits end_block
unfolding plain_loop
end_block-NoDigits e = refl

header_recipe :
    Lists same same no_delta_code true blobs
      (both_stored.recipe_map_header "a.tar")
      (four_headers ∷ [])
unfolding is_no_delta is_whole
header_recipe =
    subst (λ m. Lists same same no_delta_code true blobs (m "a.tar") (four_headers ∷ []))
      (sym (both_held.2.header_recipes ∙ one_held.2.header_recipes))
      (next_chunk {b = blob_of (plain_chunk four_headers) four_headers} refl (whole refl refl refl)
        no_chunks)

data_recipe :
    Lists same same no_delta_code true blobs
      (both_stored.recipe_map "a.tar")
      (small_file.content ∷ [])
unfolding is_no_delta is_whole
data_recipe =
    subst (λ m. Lists same same no_delta_code true blobs (m "a.tar") (small_file.content ∷ []))
      (sym (both_held.2.recipes ∙ one_held.2.recipes))
      (next_chunk {b = blob_of (plain_chunk small_file.content) small_file.content} refl
        (whole refl refl refl) no_chunks)

contents_laid : LaidOut container_max_size sample (small_file.content ∷ [])
contents_laid =
    laid {ys = []} (record { parts = none_left; one = λ h. refl })
      (laid {ys = small_file.content ∷ []}
        (record { parts = part (omega arith) none_left; one = λ h. refl })
        (laid {ys = []} (record { parts = none_left; one = λ h. refl })
          (laid {ys = []} (record { parts = none_left; one = λ h. refl }) none_laid)))

restore_header_file-archive_example :
    (r' : Rebuild) × (restore_header_file same same no_delta_code 5 new_rebuild "a.tar"
      ≡ rebuilt (archive sample) r')
    × Serves true blobs r'.data_write
    × Frame both_stored r'.data_write
    × IsUsedUp r'
restore_header_file-archive_example =
    restore_header_file-archive same same no_delta_code true blobs new_rebuild "a.tar" sample
      (four_headers ∷ []) (small_file.content ∷ []) (record { used = refl; fits = omega arith })
      both_stored-Serves header_recipe data_recipe
      (record { count = 4; some_headers = omega arith; few = omega arith; whole = refl }, tt) refl
      contents_laid sample-AllEntries
      (directory-NoDigits, (small_file-NoDigits, (end_block-NoDigits, (end_block-NoDigits, tt))))

-- A block of zeros alone: it is the only chunk.
abbrev alone : List Entry
alone = end_block ∷ []

abbrev new_header_state : HeaderState
new_header_state = record { tar = new_tar; local_type = file_header; header_buffer = [] }

alone_chunked :
    (cs : List Chunk) × (st' : HeaderState) × (tar_chunking 16 new_header_state (archive alone)
      ≡ finished cs (length (archive alone)) st')
    × (header_bytes cs ≡ headers alone)
    × AllHeaderChunks (header_pieces cs)
    × LaidOut container_max_size alone (data_pieces cs)
alone_chunked =
    tar_chunking-archive 16 new_header_state alone (omega arith) (omega arith) refl refl
      (record { no_first = refl }) (end_block-IsEntry, tt) (omega arith)

one_piece : (hs : List Bytes) → AllHeaderChunks hs → length (join hs) ≡ 512 → hs ≡ join hs ∷ []
one_piece [] vs e = absurd (omega (arith, e))
one_piece (h ∷ []) vs e = ap (λ b. b ∷ []) (sym (append-nil h))
one_piece (h ∷ k ∷ hs) vs e = absurd (
    omega (
      arith,
      e,
      length-append h (k ++ join hs),
      length-append k (join hs),
      vs.0.whole,
      vs.0.some_headers,
      vs.1.0.whole,
      vs.1.0.some_headers,
    ))

no_pieces : (xs : List Bytes) → LaidOut container_max_size alone xs → xs ≡ []
no_pieces _ (laid {ys = ys} chunked none_laid) =
    append-nil ys ∙ parts_nil container_max_size chunked.parts refl

alone_headers : header_pieces alone_chunked.0 ≡ end_block.header ∷ []
alone_headers =
    let whole : join (header_pieces alone_chunked.0) ≡ end_block.header =
      join-header_pieces alone_chunked.0 ∙ alone_chunked.3 in
    one_piece (header_pieces alone_chunked.0) alone_chunked.4 (ap length whole)
    ∙ ap (λ b. b ∷ []) whole

abbrev alone_stored : DataWrite
alone_stored = chunk_insert (record empty { recipe_map = λ s. [] }) (plain_chunk end_block.header)

abbrev alone_blobs : List Blob
alone_blobs = blob_of (plain_chunk end_block.header) end_block.header ∷ []

alone_held :
    IsValid alone_stored
    × AllStored alone_stored alone_stored.chunklist alone_blobs
    × Frame (record empty { recipe_map = λ s. [] }) alone_stored
unfolding copy is_no_delta read_cache
alone_held =
    chunk_insert-IsValid (record empty { recipe_map = λ s. [] }) (plain_chunk end_block.header) []
      refl
      (record {
        filled = refl;
        numbered = refl;
        fits = omega arith;
        cache = read_cache-IsCoherent (contents empty.containers) (λ i. no_memory);
        cached = tt;
        filed = λ k h. absurd (omega arith);
        opens = λ k. refl;
      })
      tt (omega arith)

alone_recipe :
    Lists same same no_delta_code true alone_blobs
      (alone_stored.recipe_map_header "a.tar")
      (header_pieces alone_chunked.0)
unfolding is_no_delta is_whole
alone_recipe =
    subst (Lists same same no_delta_code true alone_blobs (alone_stored.recipe_map_header "a.tar"))
      (sym alone_headers)
      (subst
        (λ m. Lists same same no_delta_code true alone_blobs (m "a.tar") (end_block.header ∷ []))
        (sym alone_held.2.header_recipes)
        (next_chunk {b = blob_of (plain_chunk end_block.header) end_block.header} refl
          (whole refl refl refl) no_chunks))

alone_data :
    Lists same same no_delta_code true alone_blobs
      (alone_stored.recipe_map "a.tar")
      (data_pieces alone_chunked.0)
alone_data =
    subst (Lists same same no_delta_code true alone_blobs (alone_stored.recipe_map "a.tar"))
      (sym (no_pieces (data_pieces alone_chunked.0) alone_chunked.5))
      (subst (λ m. Lists same same no_delta_code true alone_blobs (m "a.tar") [])
        (sym alone_held.2.recipes) no_chunks)

restore_header_file-tar_chunking_example :
    (r' : Rebuild) × (restore_header_file same same no_delta_code 2
        (record new_rebuild { data_write = alone_stored })
        "a.tar"
      ≡ rebuilt (archive alone) r')
    × Serves true alone_blobs r'.data_write
    × Frame alone_stored r'.data_write
    × IsUsedUp r'
restore_header_file-tar_chunking_example =
    restore_header_file-tar_chunking same same no_delta_code true alone_blobs 16 new_header_state
      alone_chunked.1 alone alone_chunked.0 (length (archive alone)) (omega arith) (omega arith)
      refl refl refl (record { no_first = refl }) (end_block-IsEntry, tt) (end_block-NoDigits, tt)
      (omega arith) alone_chunked.2 (record new_rebuild { data_write = alone_stored }) "a.tar"
      (record { used = refl; fits = omega arith })
      (record { valid = alone_held.0; all = alone_held.1; codec = alone_held.2.codec }) alone_recipe
      alone_data
