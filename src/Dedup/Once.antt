-- ===== src/Dedup/Once.antt =====
-- What deduplication is for: no bytes are stored twice, and a stream that comes again stores nothing.
use Prim.Native.String.{String}
use mathlib.Core.Option.{some-injective}
use bi_search.Base.{ℕ, ◌≤◌, ◌<◌, ◌≡◌, sym, ap, ◌∙◌, true, some, List, Bytes, length, get_elem?}
use bi_search.Types.{Chunk}
use bi_search.Store.Stored.{Blob}
use bi_search.Store.Deliver.{unpacked}
use bi_search.Restore.Originals.{Serves}
use bi_search.Dedup.{Dedup, fp_find, process_trace}
use bi_search.Dedup.Invariant.{IsDeduped}
use bi_search.Dedup.Trace.{AllIncoming}
use bi_search.Dedup.Backup.{process_trace-IsDeduped}
use bi_search.Dedup.Rounds.{IsSameStore, process_trace-AllKnown, process_trace-IsSameStore}

module _ (lz4_decompress_safe inflate_decompress : Bytes → Bytes) where
  abbrev original : Blob → Bytes
  original b = unpacked lz4_decompress_safe inflate_decompress true b

  -- No two stored chunks have the same bytes.
  abbrev pub AllDistinct : List Blob → Type 0
  AllDistinct blobs =
      (i j : ℕ) (b c : Blob)
      → get_elem? blobs i ≡ some b
      → get_elem? blobs j ≡ some c
      → original b ≡ original c
      → i ≡ j

module _ (lz4_decompress_safe inflate_decompress : Bytes → Bytes)
    (xd3_decode : Bytes → Bytes → Bytes) (hash : Bytes → Bytes) (Seen : Bytes → Type 0)
    (lz4_compress_fast : Bytes → Bytes)
    (no_collision : (x y : Bytes) → Seen x → Seen y → hash x ≡ hash y → x ≡ y)
    (lz4_fits : (x : Bytes) → length (lz4_compress_fast x) ≤ length x)
    (lz4_inverse : (x : Bytes)
      → 0 < length (lz4_compress_fast x)
      → lz4_decompress_safe (lz4_compress_fast x) ≡ x) where
  AllFound-AllDistinct :
      (d : Dedup) (blobs : List Blob) (files : String → Bytes)
      → IsDeduped lz4_decompress_safe inflate_decompress xd3_decode hash Seen d blobs files
      → AllDistinct lz4_decompress_safe inflate_decompress blobs
  AllFound-AllDistinct d blobs files v i j b c at at' same =
      some-injective i j
        (sym (v.found i b at) ∙ ap (λ x. fp_find d.fp_index (hash x)) same ∙ v.found j c at')

  -- Deduplication of a stream of chunks runs through, and then no bytes are stored twice: two
  -- stored chunks with the same bytes are one, and uniquechunkNum is the number of stored chunks.
  -- Assumes a state that deduplication keeps, chunks of at most a container that are no header
  -- chunks, no hash collision among them, and a codec that undoes its compression and never makes a
  -- chunk longer.
  pub process_trace_once :
      (d : Dedup) (blobs : List Blob) (files : String → Bytes) (cs : List Chunk)
      → IsDeduped lz4_decompress_safe inflate_decompress xd3_decode hash Seen d blobs files
      → AllIncoming Seen cs
      → (d' : Dedup) × (blobs' : List Blob) × (process_trace hash lz4_compress_fast d cs ≡ some d')
        × Serves true blobs' d'.data_write
        × (d'.uniquechunk_num ≡ length blobs')
        × AllDistinct lz4_decompress_safe inflate_decompress blobs'
  process_trace_once d blobs files cs v a =
      let (d', blobs', run, v', _) =
        process_trace-IsDeduped lz4_decompress_safe inflate_decompress xd3_decode hash Seen
          lz4_compress_fast no_collision lz4_fits lz4_inverse d blobs files cs v a in
      (d', blobs', run, v'.serves, v'.counted, AllFound-AllDistinct d' blobs' _ v')

  -- A stream of chunks that is deduplicated a second time runs through again and stores nothing:
  -- the index, the list of chunks, the containers and the counters of unique chunks are what they
  -- were after the first time. Assumes a state that deduplication keeps, chunks of at most a
  -- container that are no header chunks, no hash collision among them, and a codec that undoes its
  -- compression and never makes a chunk longer.
  pub process_trace_again :
      (d : Dedup) (blobs : List Blob) (files : String → Bytes) (cs : List Chunk)
      → IsDeduped lz4_decompress_safe inflate_decompress xd3_decode hash Seen d blobs files
      → AllIncoming Seen cs
      → (d1 : Dedup) × (d2 : Dedup) × (process_trace hash lz4_compress_fast d cs ≡ some d1)
        × (process_trace hash lz4_compress_fast d1 cs ≡ some d2)
        × IsSameStore d1 d2
  process_trace_again d blobs files cs v a =
      let (d1, blobs1, run1, v1, _) =
        process_trace-IsDeduped lz4_decompress_safe inflate_decompress xd3_decode hash Seen
          lz4_compress_fast no_collision lz4_fits lz4_inverse d blobs files cs v a in
      let (d2, blobs2, run2, v2, _) =
        process_trace-IsDeduped lz4_decompress_safe inflate_decompress xd3_decode hash Seen
          lz4_compress_fast no_collision lz4_fits lz4_inverse d1 blobs1 _ cs v1 a in
      (
        d1,
        d2,
        run1,
        run2,
        process_trace-IsSameStore hash lz4_compress_fast d1 d2 cs
            (process_trace-AllKnown hash lz4_compress_fast d d1 cs run1) run2,
      )
