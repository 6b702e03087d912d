-- ===== src/Dedup/Tests.antt =====
-- Deduplication of small files with a codec for runs: equal bytes are their number and the byte.
use bi_search.Base.{
  ℕ, zero, suc, ◌≤◌, ◌<◌, ◌≡◌, refl, ap, ◌∙◌, Bool, true, false, ◌&&◌, none, some, List, [], ◌∷◌,
  arith, Bytes, Memory, length, ◌==◌, if◌then◌else◌, Bool-cases, inl, inr,
}
use bi_search.Types.{Chunk, no_delta}
use bi_search.Store.{DataWrite, new_data_write}
use bi_search.Store.Stored.{Blob}
use bi_search.Restore.{restore_file}
use bi_search.Dedup.{Dedup, new_dedup, process_trace}
use bi_search.Dedup.Invariant.{backed_up, IsDeduped}
use bi_search.Dedup.Trace.{AllIncoming}
use bi_search.Restore.Originals.{Serves}
use bi_search.Dedup.Rounds.{IsSameStore}
use bi_search.Dedup.Once.{AllDistinct, process_trace_once, process_trace_again}
use bi_search.Dedup.Backup.{
  joined, new_dedup-IsDeduped, process_trace-IsDeduped, restore_file-process_trace,
}

abbrev repeated : ℕ → ℕ → Bytes
repeated zero x = []
repeated (suc n) x = x ∷ repeated n x

abbrev all_equal : ℕ → Bytes → Bool
all_equal h [] = true
all_equal h (x ∷ xs) = (x == h) && all_equal h xs

abbrev pub run : Bytes → Bytes
run (x ∷ y ∷ xs) = if all_equal x (y ∷ xs) then length (x ∷ y ∷ xs) ∷ x ∷ [] else []
run _ = []

abbrev pub unrun : Bytes → Bytes
unrun (n ∷ x ∷ []) = repeated n x
unrun _ = []

repeated-length : (h : ℕ) (xs : Bytes) → all_equal h xs ≡ true → repeated (length xs) h ≡ xs
repeated-length h [] e = refl
repeated-length h (x ∷ xs) e = ground (arith, repeated-length h xs)

pub run_fits : (x : Bytes) → length (run x) ≤ length x
run_fits [] = omega arith
run_fits (x ∷ []) = omega arith
run_fits (x ∷ y ∷ xs) = ground arith

pub unrun-run : (x : Bytes) → 0 < length (run x) → unrun (run x) ≡ x
unrun-run [] h = absurd (omega arith)
unrun-run (x ∷ []) h = absurd (omega arith)
unrun-run (x ∷ y ∷ xs) h = elim (Bool-cases (all_equal x (y ∷ xs))) [
  | inl same ↦
      let shape : run (x ∷ y ∷ xs) ≡ length (x ∷ y ∷ xs) ∷ x ∷ [] = rw same refl in
      ap unrun shape ∙ ap (λ zs. x ∷ zs) (repeated-length x (y ∷ xs) same)
  | inr other ↦ absurd (ground arith)
]

abbrev pub no_inflate : Bytes → Bytes
no_inflate bs = []

abbrev pub no_delta_decoder : Bytes → Bytes → Bytes
no_delta_decoder delta base = []

abbrev pub itself : Bytes → Bytes
itself bs = bs

abbrev pub AnyBytes : Bytes → Type 0
AnyBytes bs = Unit {0}

abbrev pub no_memory : Memory
no_memory i = 0

abbrev incoming : Bytes → Chunk
incoming bytes = record {
  chunk_id = 0;
  chunk_size = length bytes;
  save_size = 0;
  offset = 0;
  container_id = 0;
  chunk_ptr = bytes;
  name = 0;
  basechunk_id = none;
  delta_flag = no_delta;
  load_from_disk = false;
  header_flag = false;
  name_exist = true;
  cdc_flag = false;
}

-- A run, a chunk that does not compress, and the run again.
abbrev three : List Chunk
three =
    incoming (8 ∷ 8 ∷ 8 ∷ 8 ∷ []) ∷ incoming (1 ∷ 2 ∷ 3 ∷ []) ∷ incoming (8 ∷ 8 ∷ 8 ∷ 8 ∷ []) ∷ []

abbrev pub fresh : Dedup
fresh = new_dedup (new_data_write (λ i. no_memory) no_memory no_memory (λ k. none) (λ k. true))

three-AllIncoming : AllIncoming AnyBytes three
three-AllIncoming = (
  record { size = refl; fits = omega arith; header = refl; seen = tt },
  (
    record { size = refl; fits = omega arith; header = refl; seen = tt },
    (record { size = refl; fits = omega arith; header = refl; seen = tt }, tt),
  ),
)

fresh-IsDeduped : IsDeduped unrun no_inflate no_delta_decoder itself AnyBytes fresh [] (λ k. [])
fresh-IsDeduped =
    new_dedup-IsDeduped unrun no_inflate no_delta_decoder itself AnyBytes (λ i. no_memory) no_memory
      no_memory (λ k. none) (λ k. true) (λ k. refl)

process_trace-IsDeduped_example :
    (d' : Dedup) × (blobs' : List Blob) × (process_trace itself run fresh three ≡ some d')
    × IsDeduped unrun no_inflate no_delta_decoder itself AnyBytes d' blobs'
        (backed_up (λ k. []) fresh.data_write.filename (joined three))
    × (d'.data_write.filename ≡ fresh.data_write.filename)
process_trace-IsDeduped_example =
    process_trace-IsDeduped unrun no_inflate no_delta_decoder itself AnyBytes run (λ x y p q e. e)
      run_fits unrun-run fresh [] (λ k. []) three fresh-IsDeduped three-AllIncoming

restore_file-process_trace_example :
    (d' : Dedup) × (st : DataWrite) × (process_trace itself run fresh three ≡ some d')
    × (restore_file unrun no_inflate no_delta_decoder d'.data_write ""
        ≡ some (backed_up (λ k. []) fresh.data_write.filename (joined three) "", st))
restore_file-process_trace_example =
    restore_file-process_trace unrun no_inflate no_delta_decoder itself AnyBytes run
      (λ x y p q e. e) run_fits unrun-run fresh [] (λ k. []) three "" fresh-IsDeduped
      three-AllIncoming

process_trace_once_example :
    (d' : Dedup) × (blobs' : List Blob) × (process_trace itself run fresh three ≡ some d')
    × Serves true blobs' d'.data_write
    × (d'.uniquechunk_num ≡ length blobs')
    × AllDistinct unrun no_inflate blobs'
process_trace_once_example =
    process_trace_once unrun no_inflate no_delta_decoder itself AnyBytes run (λ x y p q e. e)
      run_fits unrun-run fresh [] (λ k. []) three fresh-IsDeduped three-AllIncoming

process_trace_again_example :
    (d1 : Dedup) × (d2 : Dedup) × (process_trace itself run fresh three ≡ some d1)
    × (process_trace itself run d1 three ≡ some d2)
    × IsSameStore d1 d2
process_trace_again_example =
    process_trace_again unrun no_inflate no_delta_decoder itself AnyBytes run (λ x y p q e. e)
      run_fits unrun-run fresh [] (λ k. []) three fresh-IsDeduped three-AllIncoming
