-- ===== src/Backup/Tests.antt =====
-- Three small files, two of them under one name.
use Prim.Native.String.{String}
use bi_search.Base.{◌≡◌, refl, true, none, some, List, [], ◌∷◌, arith, Bytes}
use bi_search.Dedup.{Dedup}
use bi_search.Dedup.Tests.{
  run, unrun, no_inflate, no_delta_decoder, itself, AnyBytes, no_memory, run_fits, unrun-run, fresh,
}
use bi_search.Backup.{back_up_all, restore_all}
use bi_search.Backup.Whole.{after, bytes_of, restore_all-back_up_all}

abbrev versions : List (String × Bytes)
versions =
    ("a.tar", 8 ∷ 8 ∷ 8 ∷ 8 ∷ []) ∷ ("b.tar", 1 ∷ 2 ∷ 3 ∷ []) ∷ ("a.tar", 8 ∷ 8 ∷ 8 ∷ 8 ∷ []) ∷ []

versions_together : after (λ k. []) versions "a.tar" ≡ 8 ∷ 8 ∷ 8 ∷ 8 ∷ 8 ∷ 8 ∷ 8 ∷ 8 ∷ []
versions_together = refl

restore_all-back_up_all_example :
    (d : Dedup) × (back_up_all itself run 16 fresh versions ≡ some d)
    × (restore_all unrun no_inflate no_delta_decoder d.data_write ("b.tar" ∷ "a.tar" ∷ [])
        ≡ some (bytes_of (after (λ k. []) versions) ("b.tar" ∷ "a.tar" ∷ [])))
restore_all-back_up_all_example =
    restore_all-back_up_all unrun no_inflate no_delta_decoder itself AnyBytes run (λ x y p q e. e)
      run_fits unrun-run 16 (omega arith) (omega arith) (λ i. no_memory) no_memory no_memory
      (λ k. none) (λ k. true) versions ("b.tar" ∷ "a.tar" ∷ []) (λ k. refl)
      ((λ off n. tt), ((λ off n. tt), ((λ off n. tt), tt)))
