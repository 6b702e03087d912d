-- ===== src/Backup/Pieces.antt =====
-- The chunks of a file are pieces of it, of a size that the store takes.
use bi_search.Base.{
  ℕ, suc, ◌+◌, ◌≤◌, ◌<◌, ◌≡◌, refl, sym, ap, ◌∙◌, subst, some, List, [], ◌∷◌, ◌++◌, arith, Bytes,
  length, take, drop, drop-add,
}
use bi_search.Types.{Chunk}
use bi_search.Chunking.{buffer_size}
use bi_search.Chunking.Splits.{Splits, none_left, piece, concat}
use bi_search.Chunking.Windows.{AllWithin, chunking-fastcdc}
use bi_search.Dedup.Trace.{AllIncoming}
use bi_search.Dedup.Backup.{joined}
use bi_search.Backup.{pushed_chunk, pushed_chunks, file_chunks}

-- The predicate holds of every piece of the file.
abbrev pub PiecesOf : Bytes → (Bytes → Type 0) → Type 0
PiecesOf file Seen = (off n : ℕ) → Seen (take n (drop off file))

joined_chunks : (cs : List Bytes) → joined (pushed_chunks cs) ≡ concat cs
unfolding pushed_chunks pushed_chunk
joined_chunks [] = refl
joined_chunks (c ∷ cs) = ap (◌++◌ c) (joined_chunks cs)

module _ (Seen : Bytes → Type 0) (file : Bytes) (pieces : PiecesOf file Seen) where
  pushed_chunks-AllIncoming :
      {Allowed : Bytes → ℕ → Type 0} {r r' : Bytes} {cs : List Bytes} (off : ℕ)
      → Splits Allowed r cs r'
      → r ≡ drop off file
      → AllWithin 16384 cs
      → AllIncoming Seen (pushed_chunks cs)
  unfolding pushed_chunks pushed_chunk
  pushed_chunks-AllIncoming off none_left e w = tt
  pushed_chunks-AllIncoming {r = r} off (piece c p q a s) e w = (
    record {
      size = refl;
      fits = omega (arith, w.0);
      header = refl;
      seen = subst (λ z. Seen (take c z)) (sym e) (pieces off c);
    },
    pushed_chunks-AllIncoming (off + c) s (ap (drop c) e ∙ sym (drop-add off c file)) w.1,
  )

  pub file_chunks_lem :
      (multi_header_chunk : ℕ)
      → 0 < multi_header_chunk
      → multi_header_chunk ≤ 16
      → (cs : List Chunk) × (file_chunks multi_header_chunk file ≡ some cs)
        × AllIncoming Seen cs
        × (joined cs ≡ file)
  unfolding file_chunks
  file_chunks_lem m p q =
      let (cs, run, whole, within, splits) =
        chunking-fastcdc m file (suc (length file)) (suc buffer_size) p q (omega arith)
          (omega arith) in
      (
        pushed_chunks cs,
        rw (file_chunks, run) refl,
        pushed_chunks-AllIncoming 0 splits refl within,
        joined_chunks cs ∙ whole,
      )
