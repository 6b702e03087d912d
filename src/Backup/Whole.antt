-- ===== src/Backup/Whole.antt =====
-- Backing up files and restoring them.
use Prim.Native.String.{String}
use bi_search.Base.{
  ℕ, ◌≤◌, ◌<◌, ◌≡◌, refl, sym, subst, Bool, true, Option, some, List, [], ◌∷◌, Bytes, Memory,
  length,
}
use bi_search.Store.{DataWrite, ContainerFile, new_data_write, set_filename, clear_all_cache}
use bi_search.Store.Stored.{Blob}
use bi_search.Restore.{restore_file}
use bi_search.Restore.Originals.{Serves, Spells}
use bi_search.Restore.Files.{restored_lem}
use bi_search.Dedup.{Dedup, new_dedup}
use bi_search.Dedup.Invariant.{backed_up, IsDeduped}
use bi_search.Dedup.Backup.{process_trace-IsDeduped, new_dedup-IsDeduped}
use bi_search.Backup.{back_up, back_up_all, restore_all}
use bi_search.Backup.Steps.{
  clear_all_cache-Serves, set_filename-IsDeduped, clear_all_cache-IsDeduped,
}
use bi_search.Backup.Pieces.{PiecesOf, file_chunks_lem}

-- What each name stands for after the files of the list.
abbrev pub after : (String → Bytes) → List (String × Bytes) → String → Bytes
after files [] = files
after files ((name, file) ∷ rest) = after (backed_up files name file) rest

abbrev pub bytes_of : (String → Bytes) → List String → List Bytes
bytes_of files [] = []
bytes_of files (name ∷ names) = files name ∷ bytes_of files names

-- The predicate holds of every piece of every file.
abbrev pub AllPieces : (Bytes → Type 0) → List (String × Bytes) → Type 0
AllPieces Seen [] = Unit {0}
AllPieces Seen ((name, file) ∷ rest) = PiecesOf file Seen × AllPieces Seen rest

module _ (lz4_decompress_safe inflate_decompress : Bytes → Bytes)
    (xd3_decode : Bytes → Bytes → Bytes) (hash : Bytes → Bytes) (Seen : Bytes → Type 0)
    (lz4_compress_fast : Bytes → Bytes)
    (no_collision : (x y : Bytes) → Seen x → Seen y → hash x ≡ hash y → x ≡ y)
    (lz4_fits : (x : Bytes) → length (lz4_compress_fast x) ≤ length x)
    (lz4_inverse : (x : Bytes)
      → 0 < length (lz4_compress_fast x)
      → lz4_decompress_safe (lz4_compress_fast x) ≡ x)
    (multi_header_chunk : ℕ) (some_headers : 0 < multi_header_chunk)
    (few_headers : multi_header_chunk ≤ 16) where
  abbrev Kept : Dedup → List Blob → (String → Bytes) → Type 0
  Kept = IsDeduped lz4_decompress_safe inflate_decompress xd3_decode hash Seen

  back_up-IsDeduped :
      (d : Dedup) (blobs : List Blob) (files : String → Bytes) (name : String) (file : Bytes)
      → Kept d blobs files
      → PiecesOf file Seen
      → (d' : Dedup) × (blobs' : List Blob) × (back_up hash lz4_compress_fast multi_header_chunk d
            name file
          ≡ some d')
        × Kept d' blobs' (backed_up files name file)
  unfolding back_up set_filename
  back_up-IsDeduped d blobs files name file v pieces =
      let (chunks, cut_up, incoming, whole) =
        file_chunks_lem Seen file pieces multi_header_chunk some_headers few_headers in
      let named =
        set_filename-IsDeduped lz4_decompress_safe inflate_decompress xd3_decode hash Seen d blobs
          files name v in
      let (d', blobs', run, v', _) =
        process_trace-IsDeduped lz4_decompress_safe inflate_decompress xd3_decode hash Seen
          lz4_compress_fast no_collision lz4_fits lz4_inverse
          (record d { data_write = set_filename d.data_write name }) blobs files chunks named
          incoming in
      (
        record d' { data_write = clear_all_cache d'.data_write },
        blobs',
        rw (back_up, cut_up, run) refl,
        clear_all_cache-IsDeduped lz4_decompress_safe inflate_decompress xd3_decode hash Seen d'
            blobs' (backed_up files name file)
            (subst (λ x. Kept d' blobs' (backed_up files name x)) whole v'),
      )

  back_up_all-IsDeduped :
      (d : Dedup) (blobs : List Blob) (files : String → Bytes) (list : List (String × Bytes))
      → Kept d blobs files
      → AllPieces Seen list
      → (d' : Dedup) × (blobs' : List Blob) × (back_up_all hash lz4_compress_fast multi_header_chunk
            d list
          ≡ some d')
        × Kept d' blobs' (after files list)
  unfolding back_up_all
  back_up_all-IsDeduped d blobs files [] v p = (d, blobs, refl, v)
  back_up_all-IsDeduped d blobs files ((name, file) ∷ rest) v p =
      let (d1, blobs1, run, v1) = back_up-IsDeduped d blobs files name file v p.0 in
      let (d2, blobs2, run2, v2) =
        back_up_all-IsDeduped d1 blobs1 (backed_up files name file) rest v1 p.1 in
      (d2, blobs2, rw (back_up_all, run) run2, v2)

  -- Files that the recipes spell are restored one after the other.
  restore_all_lem :
      (st : DataWrite) (blobs : List Blob) (files : String → Bytes) (names : List String)
      → Serves true blobs st
      → ((k : String)
          → Spells lz4_decompress_safe inflate_decompress xd3_decode true blobs
              (st.recipe_map k)
              (files k))
      → restore_all lz4_decompress_safe inflate_decompress xd3_decode st names
        ≡ some (bytes_of files names)
  unfolding restore_all restore_file clear_all_cache
  restore_all_lem st blobs files [] s spelled = refl
  restore_all_lem st blobs files (name ∷ names) s spelled =
      let (st', back, s', frame) =
        restored_lem lz4_decompress_safe inflate_decompress xd3_decode true blobs st
          (st.recipe_map name) (files name) s (spelled name) in
      let rest =
        restore_all_lem (clear_all_cache st') blobs files names
          (clear_all_cache-Serves st' blobs s')
          (λ k.
            subst
              (λ m.
                Spells lz4_decompress_safe inflate_decompress xd3_decode true blobs (m k) (files k))
              (sym frame.recipes) (spelled k)) in
      rw (restore_all, back, rest) refl

  -- A new program, whose container files all open, backs up any list of files to the end, with
  -- FastCDC chunking, MULTI_HEADER_CHUNK from 1 to 16 and deduplication. After that it restores any
  -- list of names, each as the bytes of the files of that name in the order of the backup, one
  -- after the other, and as nothing if there is none. The hash does not collide on pieces of the
  -- files, and the compressor never makes a chunk longer and is undone by the decompressor.
  pub restore_all-back_up_all :
      (pool : ℕ → Memory) (buffer content : Memory) (old : ℕ → Option ContainerFile)
      (opens : ℕ → Bool) (list : List (String × Bytes)) (names : List String)
      → ((k : ℕ) → opens k ≡ true)
      → AllPieces Seen list
      → (d : Dedup) × (back_up_all hash lz4_compress_fast multi_header_chunk
            (new_dedup (new_data_write pool buffer content old opens))
            list
          ≡ some d)
        × (restore_all lz4_decompress_safe inflate_decompress xd3_decode d.data_write names
            ≡ some (bytes_of (after (λ k. []) list) names))
  restore_all-back_up_all pool buffer content old opens list names all_open pieces =
      let (d, blobs, run, v) =
        back_up_all-IsDeduped (new_dedup (new_data_write pool buffer content old opens)) []
          (λ k. []) list
          (new_dedup-IsDeduped lz4_decompress_safe inflate_decompress xd3_decode hash Seen pool
            buffer content old opens all_open)
          pieces in
      (d, run, restore_all_lem d.data_write blobs (after (λ k. []) list) names v.serves v.recipes)
