-- ===== src/Dedup/Rounds.antt =====
-- The rounds of Dedup::ProcessTrace: with a new chunk the index grows, with a known one nothing but
-- the recipe does.
use mathlib.Core.Option.{some-injective}
use bi_search.Base.{
  ℕ, ◌≡◌, refl, sym, ap, ◌∙◌, subst, inl, inr, none, some, List, [], ◌∷◌, arith, Bytes, length,
  Option-cases, ◌==◌, ◌+◌, Bool-cases,
}
use bi_search.Types.{Chunk}
use bi_search.Store.{recipe_insert, recipe_header_insert}
use bi_search.Store.{get_chunk_meta_info}
use bi_search.Dedup.{
  Dedup, assign_container, insert_unique, list_chunk, fp_find, fp_insert, process_chunk,
  process_trace, compressed,
}
use bi_search.Dedup.Invariant.{fp_find-fp_insert, fp_find-fp_insert_other}

-- Nothing new is indexed, counted or stored; only recipes have grown.
pub record IsSameStore (d d' : Dedup) : Type 0 where
  pub index : d'.fp_index ≡ d.fp_index
  pub count : d'.uniquechunk_num ≡ d.uniquechunk_num
  pub size : d'.uniquechunk_size ≡ d.uniquechunk_size
  pub chunks : d'.data_write.chunklist ≡ d.data_write.chunklist
  pub number : d'.data_write.container_num ≡ d.data_write.container_num
  pub current : d'.data_write.cur_container ≡ d.data_write.cur_container
  pub files : d'.data_write.containers ≡ d.data_write.containers

IsSameStore-refl : (d : Dedup) → IsSameStore d d
IsSameStore-refl d = record {
  index = refl;
  count = refl;
  size = refl;
  chunks = refl;
  number = refl;
  current = refl;
  files = refl;
}

IsSameStore-trans : (d d' d'' : Dedup) → IsSameStore d d' → IsSameStore d' d'' → IsSameStore d d''
IsSameStore-trans d d' d'' s t = record {
  index = t.index ∙ s.index;
  count = t.count ∙ s.count;
  size = t.size ∙ s.size;
  chunks = t.chunks ∙ s.chunks;
  number = t.number ∙ s.number;
  current = t.current ∙ s.current;
  files = t.files ∙ s.files;
}

list_chunk-IsSameStore : (d : Dedup) (c : Chunk) → IsSameStore d (list_chunk d c)
unfolding list_chunk recipe_insert recipe_header_insert
list_chunk-IsSameStore d c = elim (Bool-cases c.header_flag) [
  | inl header ↦ rw header (record {
    index = refl;
    count = refl;
    size = refl;
    chunks = refl;
    number = refl;
    current = refl;
    files = refl;
  })
  | inr other ↦ rw other (record {
    index = refl;
    count = refl;
    size = refl;
    chunks = refl;
    number = refl;
    current = refl;
    files = refl;
  })
]

module _ (hash lz4_compress_fast : Bytes → Bytes) where
  -- A round of the loop, with a new chunk or with one that is known.
  data Round (d : Dedup) (c : Chunk) (d' : Dedup) : Type 0 where
    new :
        fp_find d.fp_index (hash c.chunk_ptr) ≡ none
        → d'.fp_index ≡ fp_insert d.fp_index (hash c.chunk_ptr) d.uniquechunk_num
        → Round d c d'
    known :
        {id : ℕ} → fp_find d.fp_index (hash c.chunk_ptr) ≡ some id → IsSameStore d d' → Round d c d'

  insert_unique-fp_index :
      (d : Dedup) (c : Chunk)
      → (insert_unique hash lz4_compress_fast d c).0.fp_index
        ≡ fp_insert d.fp_index (hash c.chunk_ptr) d.uniquechunk_num
  unfolding insert_unique assign_container compressed
  insert_unique-fp_index d c = elim (Bool-cases (length (lz4_compress_fast c.chunk_ptr) == 0)) [
    | inl nothing_won ↦ rw nothing_won refl
    | inr some_won ↦ rw some_won refl
  ]

  process_chunk-Round :
      (d d' : Dedup) (c : Chunk) → process_chunk hash lz4_compress_fast d c ≡ some d' → Round d c d'
  unfolding process_chunk
  process_chunk-Round d d' c run = elim (Option-cases (fp_find d.fp_index (hash c.chunk_ptr))) [
    | inl fresh ↦
        let d1 = (insert_unique hash lz4_compress_fast d c).0 in
        let c1 = (insert_unique hash lz4_compress_fast d c).1 in
        let got : process_chunk hash lz4_compress_fast d c ≡ some (list_chunk d1 c1) =
          rw (process_chunk, fresh) refl in
        let same : list_chunk d1 c1 ≡ d' = some-injective (list_chunk d1 c1) d' (sym got ∙ run) in
        new fresh (
          ap (λ e. e.fp_index) (sym same)
          ∙ (list_chunk-IsSameStore d1 c1).index
          ∙ insert_unique-fp_index d c)
    | inr (id, found) ↦ elim (Option-cases (get_chunk_meta_info d.data_write id)) [
      | inl missing ↦
          let got : process_chunk hash lz4_compress_fast d c ≡ none =
            rw (process_chunk, found, missing) refl in
          let clash : none ≡ some d' = sym got ∙ run in absurd (ground arith)
      | inr (e, stored) ↦
          let d1 = record d { dedup_reduct = d.dedup_reduct + e.chunk_size } in
          let got : process_chunk hash lz4_compress_fast d c ≡ some (list_chunk d1 e) =
            rw (process_chunk, found, stored) refl in
          let same : list_chunk d1 e ≡ d' = some-injective (list_chunk d1 e) d' (sym got ∙ run) in
          let listed = list_chunk-IsSameStore d1 e in
          known found (
            subst (IsSameStore d) same (record {
              index = listed.index;
              count = listed.count;
              size = listed.size;
              chunks = listed.chunks;
              number = listed.number;
              current = listed.current;
              files = listed.files;
            }))
    ]
  ]

  abbrev pub AllKnown : Dedup → List Chunk → Type 0
  AllKnown d [] = Unit {0}
  AllKnown d (c ∷ cs) =
      ((id : ℕ) × (fp_find d.fp_index (hash c.chunk_ptr) ≡ some id)) × AllKnown d cs

  -- The index forgets nothing, and after its round a chunk is in it.
  Round-keeps :
      (d d' : Dedup) (c : Chunk) (fp : Bytes) (id : ℕ)
      → Round d c d'
      → fp_find d.fp_index fp ≡ some id
      → fp_find d'.fp_index fp ≡ some id
  Round-keeps d d' c fp id (new fresh index) found =
      ap (λ i. fp_find i fp) index
      ∙ fp_find-fp_insert_other d.fp_index (hash c.chunk_ptr) fp d.uniquechunk_num id fresh found
  Round-keeps d d' c fp id (known old same) found = ap (λ i. fp_find i fp) same.index ∙ found

  Round-knows :
      (d d' : Dedup) (c : Chunk)
      → Round d c d'
      → (id : ℕ) × (fp_find d'.fp_index (hash c.chunk_ptr) ≡ some id)
  Round-knows d d' c (new fresh index) = (
    d.uniquechunk_num,
    ap (λ i. fp_find i (hash c.chunk_ptr)) index
        ∙ fp_find-fp_insert d.fp_index (hash c.chunk_ptr) d.uniquechunk_num,
  )
  Round-knows d d' c (known {id} old same) =
      (id, ap (λ i. fp_find i (hash c.chunk_ptr)) same.index ∙ old)

  -- A stream that runs through runs its first chunk and then the others.
  process_trace-rounds :
      (d d' : Dedup) (c : Chunk) (cs : List Chunk)
      → process_trace hash lz4_compress_fast d (c ∷ cs) ≡ some d'
      → (d1 : Dedup) × Round d c d1 × (process_trace hash lz4_compress_fast d1 cs ≡ some d')
  unfolding process_trace
  process_trace-rounds d d' c cs run =
      elim (Option-cases (process_chunk hash lz4_compress_fast d c)) [
        | inl stuck ↦
            let got : process_trace hash lz4_compress_fast d (c ∷ cs) ≡ none =
              rw (process_trace, stuck) refl in
            let clash : none ≡ some d' = sym got ∙ run in absurd (ground arith)
        | inr (d1, first) ↦
            let got : process_trace hash lz4_compress_fast d (c ∷ cs)
                ≡ process_trace hash lz4_compress_fast d1 cs =
              rw (process_trace, first) refl in
            (d1, process_chunk-Round d d1 c first, sym got ∙ run)
      ]

  process_trace-done : (d d' : Dedup) → process_trace hash lz4_compress_fast d [] ≡ some d' → d ≡ d'
  unfolding process_trace
  process_trace-done d d' run = some-injective d d' run

  process_trace-keeps :
      (d d' : Dedup) (cs : List Chunk) (fp : Bytes) (id : ℕ)
      → process_trace hash lz4_compress_fast d cs ≡ some d'
      → fp_find d.fp_index fp ≡ some id
      → fp_find d'.fp_index fp ≡ some id
  process_trace-keeps d d' [] fp id run found =
      ap (λ e. fp_find e.fp_index fp) (sym (process_trace-done d d' run)) ∙ found
  process_trace-keeps d d' (c ∷ cs) fp id run found =
      let (d1, round, rest) = process_trace-rounds d d' c cs run in
      process_trace-keeps d1 d' cs fp id rest (Round-keeps d d1 c fp id round found)

  pub process_trace-AllKnown :
      (d d' : Dedup) (cs : List Chunk)
      → process_trace hash lz4_compress_fast d cs ≡ some d'
      → AllKnown d' cs
  process_trace-AllKnown d d' [] run = tt
  process_trace-AllKnown d d' (c ∷ cs) run =
      let (d1, round, rest) = process_trace-rounds d d' c cs run in
      let (id, found) = Round-knows d d1 c round in
      (
        (id, process_trace-keeps d1 d' cs (hash c.chunk_ptr) id rest found),
        process_trace-AllKnown d1 d' cs rest,
      )

  AllKnown-index :
      (d d' : Dedup) (cs : List Chunk) → d'.fp_index ≡ d.fp_index → AllKnown d cs → AllKnown d' cs
  AllKnown-index d d' [] e k = tt
  AllKnown-index d d' (c ∷ cs) e k =
      ((k.0.0, ap (λ i. fp_find i (hash c.chunk_ptr)) e ∙ k.0.1), AllKnown-index d d' cs e k.1)

  pub process_trace-IsSameStore :
      (d d' : Dedup) (cs : List Chunk)
      → AllKnown d cs
      → process_trace hash lz4_compress_fast d cs ≡ some d'
      → IsSameStore d d'
  process_trace-IsSameStore d d' [] k run =
      subst (IsSameStore d) (process_trace-done d d' run) (IsSameStore-refl d)
  process_trace-IsSameStore d d' (c ∷ cs) k run =
      let (d1, round, rest) = process_trace-rounds d d' c cs run in
      let same = known_round d d1 c k.0.0 round k.0.1 in
      IsSameStore-trans d d1 d' same
        (process_trace-IsSameStore d1 d' cs (AllKnown-index d d1 cs same.index k.1) rest)
    where
      known_round :
          (d d1 : Dedup) (c : Chunk) (id : ℕ)
          → Round d c d1
          → fp_find d.fp_index (hash c.chunk_ptr) ≡ some id
          → IsSameStore d d1
      known_round d d1 c id (new fresh index) found =
          let clash : none ≡ some id = sym fresh ∙ found in absurd (ground arith)
      known_round d d1 c id (known old same) found = same
