-- ===== src/Segment/Separated.antt =====
-- TAR_MultiHeader chunking separates the headers of an archive from the contents.
use bi_search.Base.{
  ℕ, suc, ◌+◌, ◌*◌, ◌^◌, ◌≤◌, ◌<◌, ◌≡◌, ◌≢◌, refl, sym, ap, ◌∙◌, subst, inl, inr, true, List, [],
  arith, Bytes, ltb, ◌==◌, length, take, drop, take_all, length-take, Bool-cases, lt→ltb, le→ltb,
  ne→==, ==→ne, ==→eq,
}
use bi_search.Chunking.{buffer_size, window_size, cut_quota}
use bi_search.Types.{Chunk}
use bi_search.Tar.{file_header, is_file_chunk}
use bi_search.Tar.Archive.{Entry, AllEntries, archive, headers}
use bi_search.Tar.Pending.{IsQuiet, at_header}
use bi_search.Segment.{
  HeaderState, finished, cut_segments, chunking_tar, tar_chunking, header_buffer_size,
}
use bi_search.Segment.Layout.{
  header_bytes, header_pieces, AllHeaderChunks, data_pieces, Follow, LaidOut, laid_rest,
}
use bi_search.Segment.Streams.{Between}
use bi_search.Segment.Windows.{nothing_left, rest_end, Separates, cut_segments-Separates}

module _ (limit multi_header_chunk header_room room quota : ℕ)
    (some_headers : 0 < multi_header_chunk) (few_headers : multi_header_chunk ≤ 16)
    (enough_room : multi_header_chunk * 512 ≤ header_room) (word : room < 2 ^ 32) where
  chunking_tar-window :
      (size inner middle fuel off : ℕ) (st st' : HeaderState) (file : Bytes) (cs : List Chunk)
      → size ≤ room
      → length file < size
      → length file ≢ 0
      → cut_segments multi_header_chunk header_room room quota inner middle st file true 0
        ≡ finished cs off st'
      → chunking_tar multi_header_chunk header_room room quota size inner middle
          (suc fuel)
          st
          file
          0
        ≡ finished cs off st'
  unfolding chunking_tar
  chunking_tar-window size inner middle fuel off st st' file cs room_for short some_left run =
      let whole : take size (drop 0 file) ≡ file = take_all size file (omega arith) in
      let ended : ltb (length file) size ≡ true = lt→ltb _ _ short in
      let last : ltb (length (take size (drop 0 file))) size ≡ true =
        ap (λ b. ltb (length b) size) whole ∙ ended in
      let total : 0 + off ≡ off = omega arith in
      rw
        (
          chunking_tar,
          last,
          le→ltb room size room_for,
          whole,
          ne→== _ _ some_left,
          run,
          last,
          total,
        )
        refl

  chunking_tar-empty :
      (size inner middle fuel : ℕ) (st : HeaderState) (file : Bytes)
      → size ≤ room
      → length file ≡ 0
      → chunking_tar multi_header_chunk header_room room quota size inner middle
          (suc fuel)
          st
          file
          0
        ≡ finished [] (length file) st
  unfolding chunking_tar
  chunking_tar-empty size inner middle fuel st file room_for none_left =
      let nothing : length (take size (drop 0 file)) ≡ 0 = omega (arith, length-take size file) in
      rw (chunking_tar, le→ltb room size room_for, nothing, none_left) refl

  chunking_tar-Separates :
      (size inner middle fuel : ℕ) (st : HeaderState) (es : List Entry)
      → Between limit st [] es
      → st.tar.next_chunk_type ≡ file_header
      → size ≤ room
      → 0 < quota
      → length (archive es) < size
      → 2 * length (archive es) + 1 < inner
      → length (archive es) < middle
      → Separates limit file_header [] es (length (archive es)) (
          chunking_tar multi_header_chunk header_room room quota size inner middle
            (suc fuel)
            st
            (archive es)
            0)
  chunking_tar-Separates size inner middle fuel st es b at room_for some_quota short deep wide =
      let file = archive es in
      elim (Bool-cases (length file == 0)) [
        | inl empty ↦
            let none_left : length file ≡ 0 = ==→eq _ _ empty in
            let (nil_c, nil_es) = nothing_left [] es b.at.valid none_left in
            record {
              pushed = [];
              heads = tt;
              state = st;
              run = chunking_tar-empty size inner middle fuel st file room_for none_left;
              headers = ap headers (sym nil_es);
              pieces = rest_end limit file_header [] es nil_c nil_es;
            }
        | inr some_left ↦
            let all =
              cut_segments-Separates limit multi_header_chunk header_room room quota some_headers
                few_headers enough_room word inner middle st [] es file 0 b refl (omega arith)
                (omega arith) some_quota deep (omega arith) in
            record {
              pushed = all.pushed;
              heads = all.heads;
              state = all.state;
              run =
                  chunking_tar-window size inner middle fuel (length file) st all.state file
                    all.pushed room_for short (==→ne _ _ some_left) all.run;
              headers = all.headers;
              pieces = subst (λ k. Follow limit k [] es (data_pieces all.pushed)) at all.pieces;
            }
      ]

-- With MULTI_HEADER_CHUNK from 1 to 16, an empty headerBuffer and a state in which a header is next
-- and no long name is due, TAR_MultiHeader chunking of an archive that fits the read buffer with a
-- byte to spare ends at its end, without any write past a buffer. The header chunks are the headers
-- in order, 1 to 16 in each; the other chunks are the contents in order, a content whose header
-- gives at most BigChunkSize bytes as one chunk, a larger one in parts that are not empty. The
-- archive is any list of entries with headers of 512 bytes, among them the blocks of zeros at its
-- end: only a regular file has content, of less than 8 GiB and in whole blocks; each header has a
-- NUL, and no '/' between the name field and the first one; there are no long names and no extended
-- headers.
pub tar_chunking-archive :
    (multi_header_chunk : ℕ) (st : HeaderState) (es : List Entry)
    → 0 < multi_header_chunk
    → multi_header_chunk ≤ 16
    → st.header_buffer ≡ []
    → st.tar.next_chunk_type ≡ file_header
    → IsQuiet st.tar
    → AllEntries es
    → length (archive es) < window_size multi_header_chunk
    → (cs : List Chunk) × (st' : HeaderState) × (tar_chunking multi_header_chunk st (archive es)
        ≡ finished cs (length (archive es)) st')
      × (header_bytes cs ≡ headers es)
      × AllHeaderChunks (header_pieces cs)
      × LaidOut st.tar.big_limit es (data_pieces cs)
unfolding tar_chunking is_file_chunk
tar_chunking-archive m st es some_headers bound empty at quiet vs short =
    let b : Between st.tar.big_limit st [] es = record {
      at = record { pending = at_header at refl; quiet = quiet; valid = vs; same = refl };
      empty = empty;
      no_file = rw at refl;
    } in
    let all =
      chunking_tar-Separates st.tar.big_limit m header_buffer_size buffer_size (cut_quota m)
        some_headers bound (omega arith) (omega arith) (window_size m) (2 * buffer_size + 3)
        (suc buffer_size) (length (archive es)) st es b at (omega arith) (omega arith) short
        (omega arith) (omega arith) in
    (
      all.pushed,
      all.state,
      all.run,
      all.headers,
      all.heads,
      laid_rest st.tar.big_limit file_header es (data_pieces all.pushed) all.pieces,
    )
