-- ===== src/Rebuild/Whole.antt =====
-- restoreHeaderFile puts an archive together from its header chunks and its content chunks.
use Prim.Native.String.{String}
use bi_search.Base.{
  ℕ, zero, suc, ◌+◌, ◌-◌, ◌≤◌, ◌<◌, ◌≡◌, refl, sym, ap, ◌∙◌, Bool, some, List, [], ◌∷◌, ◌++◌,
  append_assoc, arith, Bytes, Memory, length, length-append, take, drop, drop_all, drop-add,
  drop-append_left, take-append_left, take-append, drop-append, length-drop, read_at,
}
use bi_search.Config.{container_max_size}
use bi_search.Store.Stored.{Blob, Frame, Frame-trans}
use bi_search.Tar.{file_header}
use bi_search.Tar.Archive.{Entry, AllEntries, archive, headers}
use bi_search.Restore.Originals.{Serves}
use bi_search.Segment.Layout.{LaidOut, none_laid, laid}
use bi_search.Rebuild.{
  Rebuild, rebuilt, written_first, take_header, restored_content, restore_header, rebuild,
  restore_header_file, back_to_file_header,
}
use bi_search.Rebuild.Header.{NoDigits, Says, restore_header-Says}
use bi_search.Rebuild.Contents.{Lists, Goes, restored_content-Goes}
use bi_search.Segment.Layout.{AllHeaderChunks, join}
use bi_search.Rebuild.Supply.{Loaded, Ready, Loaded-Ready}
use bi_search.Rebuild.Rounds.{
  IsUsedUp, take_header_run, rebuild-suc, small_content, rebuild_end, rebuild_end-IsUsedUp,
}

abbrev pub AllNoDigits : List Entry → Type 0
AllNoDigits [] = Unit {0}
AllNoDigits (e ∷ es) = NoDigits e × AllNoDigits es

abbrev filler : ℕ → Bytes
filler zero = []
filler (suc n) = 0 ∷ filler n

length-filler : (n : ℕ) → length (filler n) ≡ n
length-filler zero = refl
length-filler (suc n) = ap suc (length-filler n)

module _ (lz4_decompress_safe inflate_decompress : Bytes → Bytes)
    (xd3_decode : Bytes → Bytes → Bytes) where
  module _ (lz4 : Bool) (blobs : List Blob) where
    -- The first header that is left.
    first_header :
        (cur rest h hs : Bytes)
        → cur ++ rest ≡ h ++ hs
        → length h ≡ 512
        → 512 ≤ length cur
        → (take 512 cur ≡ h) × (drop 512 cur ++ rest ≡ hs)
    first_header cur rest h hs e block enough = (
      sym (take-append_left 512 cur rest enough)
          ∙ ap (take 512) e
          ∙ ap (λ k. take k (h ++ hs)) (sym block)
          ∙ take-append h hs,
      sym (drop-append_left 512 cur rest enough)
          ∙ ap (drop 512) e
          ∙ ap (λ k. drop k (h ++ hs)) (sym block)
          ∙ drop-append h hs,
    )

    rebuild-archive :
        (fuel : ℕ) (r : Rebuild) (es : List Entry) (xs : List Bytes)
        → Loaded lz4_decompress_safe inflate_decompress xd3_decode lz4 blobs r es xs
        → AllEntries es
        → AllNoDigits es
        → LaidOut container_max_size es xs
        → length es < fuel
        → (r' : Rebuild) × (rebuild lz4_decompress_safe inflate_decompress xd3_decode fuel r
            ≡ rebuilt (archive es) r')
          × Serves lz4 blobs r'.data_write
          × Frame r.data_write r'.data_write
          × IsUsedUp r'
    rebuild-archive zero r es xs l vs ns out f = absurd (omega arith)
    rebuild-archive (suc fuel) r [] _ l vs ns none_laid f = (
      r,
      rebuild_end lz4_decompress_safe inflate_decompress xd3_decode lz4 blobs fuel r l,
      l.serves,
      record { codec = refl; name = refl; recipes = refl; header_recipes = refl },
      rebuild_end-IsUsedUp lz4_decompress_safe inflate_decompress xd3_decode lz4 blobs r l,
    )
    rebuild-archive (suc fuel) r (e ∷ es) _ l (v, vs) (n, ns)
          (laid {ys = ys} {zs = zs} chunked rest) f =
        let ready : Ready lz4_decompress_safe inflate_decompress xd3_decode lz4 blobs r (e ∷ es)
            (ys ++ zs) =
          Loaded-Ready lz4_decompress_safe inflate_decompress xd3_decode lz4 blobs r (e ∷ es)
            (ys ++ zs) l (omega (arith, length-append e.header (headers es), v.block)) in
        let r1 = ready.next in
        let l1 = ready.loaded in
        let off = r1.multi_header_offset in
        let enough : 512 ≤ length (drop off l1.current) =
          omega (arith, length-drop off l1.current, ready.at_hand) in
        let (header, behind) =
          first_header (drop off l1.current) (join l1.chunks) e.header (headers es) l1.stream
            v.block enough in
        let s' = restore_header (record r1.tar { next_chunk_type = file_header }) e.header in
        let r2 = record r1 { tar = s'; multi_header_offset = off + 512 } in
        let taken =
          take_header_run lz4_decompress_safe inflate_decompress xd3_decode r1 e.header
            (l1.reads off 512 (omega arith) ready.at_hand ∙ header) in
        let says : Says e s' =
          restore_header-Says (record r1.tar { next_chunk_type = file_header }) e v n refl in
        let goes : Goes lz4_decompress_safe inflate_decompress xd3_decode lz4 blobs r2 e zs =
          restored_content-Goes lz4_decompress_safe inflate_decompress xd3_decode lz4 blobs r2 e ys
            zs l1.serves (small_content e v) says chunked l1.contents in
        let r3 = record r2 { data_write = goes.store; data_left = goes.ids } in
        let l3 : Loaded lz4_decompress_safe inflate_decompress xd3_decode lz4 blobs r3 es zs =
          record {
            current = l1.current;
            chunks = l1.chunks;
            reads = λ o m from k. l1.reads o m (omega arith) k;
            size = l1.size;
            fits = l1.fits;
            within = ready.at_hand;
            blocks = l1.blocks - 1;
            aligned = omega (arith, l1.aligned, ready.at_hand);
            whole = l1.whole;
            ids = l1.ids;
            contents = goes.left;
            stream = ap (λ b. b ++ join l1.chunks) (drop-add off 512 l1.current) ∙ behind;
            serves = goes.serves;
          } in
        let (r', run, serves, frame, used) =
          rebuild-archive fuel r3 es zs l3 vs ns rest (omega arith) in
        let content : restored_content lz4_decompress_safe inflate_decompress xd3_decode
              (take_header lz4_decompress_safe inflate_decompress xd3_decode r1).1
            ≡ some (e.content, r3) =
          ap (λ t. restored_content lz4_decompress_safe inflate_decompress xd3_decode t.1) taken
          ∙ goes.run in
        (
          r',
          rebuild-suc lz4_decompress_safe inflate_decompress xd3_decode fuel r r1 r3 e.content
                ready.more ready.run (omega (arith, ready.at_hand, l1.size))
                (omega (arith, ready.at_hand, l1.fits)) content
              ∙ ap
                  (λ t.
                    written_first (t.0 ++ e.content)
                      (rebuild lz4_decompress_safe inflate_decompress xd3_decode fuel r3))
                  taken
              ∙ ap (written_first (e.header ++ e.content)) run
              ∙ ap (λ b. rebuilt b r') (append_assoc e.header e.content (archive es)),
          serves,
          Frame-trans ready.frame (Frame-trans goes.frame frame),
          used,
        )

    -- Before a file is restored all its headers are to come.
    used_up-Loaded :
        (r : Rebuild) (es : List Entry) (hs xs : List Bytes)
        → IsUsedUp r
        → Serves lz4 blobs r.data_write
        → AllHeaderChunks hs
        → join hs ≡ headers es
        → Lists lz4_decompress_safe inflate_decompress xd3_decode lz4 blobs r.headers_left hs
        → Lists lz4_decompress_safe inflate_decompress xd3_decode lz4 blobs r.data_left xs
        → Loaded lz4_decompress_safe inflate_decompress xd3_decode lz4 blobs r es xs
    unfolding read_at
    used_up-Loaded r es hs xs u s vs stream lh ld =
        let size = r.multi_header_chunk_size in
        let long = length-filler size in
        record {
          current = filler size;
          chunks = hs;
          reads = λ off n from k.
              nothing_read r.multi_header_buffer (filler size) off n (omega (arith, u.used, long));
          size = sym long;
          fits = omega (arith, long, u.fits);
          within = omega (arith, long, u.used);
          blocks = 0;
          aligned = omega (arith, long, u.used);
          whole = vs;
          ids = lh;
          contents = ld;
          stream =
              ap (λ b. b ++ join hs)
                (drop_all r.multi_header_offset (filler size) (omega (arith, long, u.used)))
              ∙ stream;
          serves = s;
        }
      where
        nothing_read :
            (d : Memory) (cur : Bytes) (off n : ℕ) → n ≡ 0 → read_at d off n ≡ take n (drop off cur)
        nothing_read d cur off n e = rw e refl

    -- From the header chunks and the content chunks of an archive, as TAR_MultiHeader chunking
    -- makes them with a BigChunkSize of 4 MiB, 1 to 16 headers in each header chunk,
    -- restoreHeaderFile ends and writes the archive, when nothing of a file before is unread; the
    -- store stays well formed with the same recipes, and the next file can be restored. The archive
    -- is any list of entries with headers of 512 bytes, among them the blocks of zeros at its end:
    -- only a regular file has content, of less than 8 GiB and in whole blocks; each header has a
    -- NUL, and no '/' between the name field and the first one; there are no long names and no
    -- extended headers. A header of type AREGTYPE, as a block of zeros, has zeros and no digits for
    -- its size.
    pub restore_header_file-archive :
        (r : Rebuild) (name : String) (es : List Entry) (hs xs : List Bytes)
        → IsUsedUp r
        → Serves lz4 blobs r.data_write
        → Lists lz4_decompress_safe inflate_decompress xd3_decode lz4 blobs
            (r.data_write.recipe_map_header name)
            hs
        → Lists lz4_decompress_safe inflate_decompress xd3_decode lz4 blobs
            (r.data_write.recipe_map name)
            xs
        → AllHeaderChunks hs
        → join hs ≡ headers es
        → LaidOut container_max_size es xs
        → AllEntries es
        → AllNoDigits es
        → (r' : Rebuild) × (restore_header_file lz4_decompress_safe inflate_decompress xd3_decode
              (suc (length es))
              r
              name
            ≡ rebuilt (archive es) r')
          × Serves lz4 blobs r'.data_write
          × Frame r.data_write r'.data_write
          × IsUsedUp r'
    unfolding restore_header_file back_to_file_header
    restore_header_file-archive r name es hs xs u s lh ld vs stream laid_out entries plain =
        let start = record r {
          headers_left = r.data_write.recipe_map_header name;
          data_left = r.data_write.recipe_map name;
        } in
        let (r', run, serves, frame, used) =
          rebuild-archive (suc (length es)) start es xs
            (used_up-Loaded start es hs xs (record { used = u.used; fits = u.fits }) s vs stream lh
              ld)
            entries plain laid_out (omega arith) in
        (
          record r' { tar = record r'.tar { next_chunk_type = file_header } },
          ap back_to_file_header run,
          serves,
          frame,
          record { used = used.used; fits = used.fits },
        )
