-- ===== src/Segment/Layout.antt =====
-- The specification of TAR_MultiHeader chunking: the header chunks hold the headers in order, and
-- the other chunks the contents, a file of at most the limit in one chunk and a larger one in
-- parts that are not empty.
use bi_search.Base.{
  ◌*◌, ℕ, ◌≤◌, ◌<◌, ◌≡◌, refl, sym, ap, ◌∙◌, subst, inl, inr, true, false, List, [], ◌∷◌, ◌++◌,
  append_assoc, arith, Bytes, if◌then◌else◌, length, take, drop, take-append-drop, take_all,
  drop_all, length-take, length-drop, length-append, Bool-cases,
}
use bi_search.Types.{Chunk}
use bi_search.Tar.{FileType, file_header, is_big, header_octal}
use bi_search.Tar.Archive.{Entry}

-- The bytes of the header chunks.
abbrev pub header_bytes : List Chunk → Bytes
header_bytes [] = []
header_bytes (c ∷ cs) = (if c.header_flag then c.chunk_ptr else []) ++ header_bytes cs

-- The other chunks.
abbrev pub data_pieces : List Chunk → List Bytes
data_pieces [] = []
data_pieces (c ∷ cs) = (if c.header_flag then [] else c.chunk_ptr ∷ []) ++ data_pieces cs

-- The header chunks, one by one.
abbrev pub header_pieces : List Chunk → List Bytes
header_pieces [] = []
header_pieces (c ∷ cs) = (if c.header_flag then c.chunk_ptr ∷ [] else []) ++ header_pieces cs

abbrev pub join : List Bytes → Bytes
join [] = []
join (h ∷ hs) = h ++ join hs

-- One to sixteen headers.
pub record IsHeaderChunk (h : Bytes) : Type 0 where
  pub count : ℕ
  pub some_headers : 0 < count
  pub few : count ≤ 16
  pub whole : length h ≡ 512 * count

abbrev pub AllHeaderChunks : List Bytes → Type 0
AllHeaderChunks [] = Unit {0}
AllHeaderChunks (h ∷ hs) = IsHeaderChunk h × AllHeaderChunks hs

pub AllHeaderChunks-append :
    (hs ks : List Bytes) → AllHeaderChunks hs → AllHeaderChunks ks → AllHeaderChunks (hs ++ ks)
AllHeaderChunks-append [] ks vs ws = ws
AllHeaderChunks-append (h ∷ hs) ks (v, vs) ws = (v, AllHeaderChunks-append hs ks vs ws)

pub header_pieces-append :
    (cs ds : List Chunk) → header_pieces (cs ++ ds) ≡ header_pieces cs ++ header_pieces ds
header_pieces-append [] ds = refl
header_pieces-append (c ∷ cs) ds =
    let first : List Bytes = if c.header_flag then c.chunk_ptr ∷ [] else [] in
    ap (λ r. first ++ r) (header_pieces-append cs ds)
    ∙ sym (append_assoc first (header_pieces cs) (header_pieces ds))

pub join-header_pieces : (cs : List Chunk) → join (header_pieces cs) ≡ header_bytes cs
join-header_pieces [] = refl
join-header_pieces (c ∷ cs) = elim (Bool-cases c.header_flag) [
  | inl header ↦ rw header (ap (λ r. c.chunk_ptr ++ r) (join-header_pieces cs))
  | inr content ↦ rw content (join-header_pieces cs)
]

pub header_bytes-append :
    (cs ds : List Chunk) → header_bytes (cs ++ ds) ≡ header_bytes cs ++ header_bytes ds
header_bytes-append [] ds = refl
header_bytes-append (c ∷ cs) ds =
    let first = if c.header_flag then c.chunk_ptr else [] in
    ap (λ r. first ++ r) (header_bytes-append cs ds)
    ∙ sym (append_assoc first (header_bytes cs) (header_bytes ds))

pub data_pieces-append :
    (cs ds : List Chunk) → data_pieces (cs ++ ds) ≡ data_pieces cs ++ data_pieces ds
data_pieces-append [] ds = refl
data_pieces-append (c ∷ cs) ds =
    let first = if c.header_flag then [] else c.chunk_ptr ∷ [] in
    ap (λ r. first ++ r) (data_pieces-append cs ds)
    ∙ sym (append_assoc first (data_pieces cs) (data_pieces ds))

-- The bytes, one part after the other, and no part is empty.
pub data PartsOf : Bytes → List Bytes → Type 0 where
  none_left : PartsOf [] []
  part : {x c : Bytes} {xs : List Bytes} → 0 < length x → PartsOf c xs → PartsOf (x ++ c) (x ∷ xs)

abbrev pub whole : Bytes → List Bytes
whole [] = []
whole (x ∷ c) = (x ∷ c) ∷ []

-- The chunks of a content that is due.
pub record DueParts (kind : FileType) (c : Bytes) (ys : List Bytes) : Type 0 where
  pub parts : PartsOf c ys
  pub one : is_big kind ≡ false → ys ≡ whole c

module _ (limit : ℕ) where
  pub record Chunked (e : Entry) (ys : List Bytes) : Type 0 where
    pub parts : PartsOf e.content ys
    pub one : header_octal e.header ≤ limit → ys ≡ whole e.content

  -- The chunks of the contents of the entries.
  pub data LaidOut : List Entry → List Bytes → Type 0 where
    none_laid : LaidOut [] []
    laid :
        {e : Entry} {es : List Entry} {ys zs : List Bytes}
        → Chunked e ys
        → LaidOut es zs
        → LaidOut (e ∷ es) (ys ++ zs)

  -- The chunks from the content that is due on.
  pub data Follow (kind : FileType) (c : Bytes) (es : List Entry) : List Bytes → Type 0 where
    rest : {ys zs : List Bytes} → DueParts kind c ys → LaidOut es zs → Follow kind c es (ys ++ zs)

  nothing_due : (kind : FileType) → DueParts kind [] []
  nothing_due kind = record { parts = none_left; one = λ z. refl }

  pub rest_laid :
      (kind : FileType) {es : List Entry} {xs : List Bytes} → LaidOut es xs → Follow kind [] es xs
  rest_laid kind l = rest (nothing_due kind) l

  -- Behind a header its content is due.
  pub rest_header :
      (kind : FileType) (e : Entry) (es : List Entry) (xs : List Bytes)
      → (is_big kind ≡ true → limit < header_octal e.header)
      → Follow kind e.content es xs
      → Follow file_header [] (e ∷ es) xs
  rest_header kind e es _ large (rest {ys} due l) =
      let one : header_octal e.header ≤ limit → ys ≡ whole e.content = λ small.
        elim (Bool-cases (is_big kind)) [
          | inl big ↦ absurd (omega (arith, large big))
          | inr no_big ↦ due.one no_big
        ] in
      rest_laid file_header (laid (record { parts = due.parts; one = one }) l)

  pub parts_nil : {ys : List Bytes} {c : Bytes} → PartsOf c ys → length c ≡ 0 → ys ≡ []
  parts_nil none_left e = refl
  parts_nil (part {x} {c} some_bytes p) e = absurd (omega (arith, length-append x c))

  -- Nothing of a content is due whatever the type.
  pub rest_nil :
      (kind kind' : FileType) (c : Bytes) (es : List Entry) (xs : List Bytes)
      → length c ≡ 0
      → Follow kind c es xs
      → Follow kind' [] es xs
  rest_nil kind kind' c es _ e (rest {ys} {zs} due l) =
      subst (λ b. Follow kind' [] es (b ++ zs)) (sym (parts_nil due.parts e)) (rest_laid kind' l)

  pub laid_rest :
      (kind : FileType) (es : List Entry) (xs : List Bytes) → Follow kind [] es xs → LaidOut es xs
  laid_rest kind es _ (rest {ys} {zs} due l) =
      subst (λ b. LaidOut es (b ++ zs)) (sym (parts_nil due.parts refl)) l

  pub whole_some : (c : Bytes) → 0 < length c → whole c ≡ c ∷ []
  whole_some [] h = absurd (omega arith)
  whole_some (x ∷ c) h = refl

  -- A chunk of `n` bytes is cut off the content that is due.
  pub rest_content :
      (kind kind' : FileType) (n : ℕ) (c : Bytes) (es : List Entry) (xs : List Bytes)
      → 0 < n
      → n ≤ length c
      → (is_big kind ≡ false → n ≡ length c)
      → Follow kind' (drop n c) es xs
      → Follow kind c es (take n c ∷ xs)
  rest_content kind kind' n c es _ some_bytes within all (rest {ys} {zs} due l) =
      let parts : PartsOf c (take n c ∷ ys) =
        subst (λ b. PartsOf b (take n c ∷ ys)) (take-append-drop n c)
          (part (omega (arith, length-take n c)) due.parts) in
      let one : is_big kind ≡ false → take n c ∷ ys ≡ whole c = λ z.
        let last : ys ≡ [] = parts_nil due.parts (omega (arith, length-drop n c, all z)) in
        let piece : take n c ≡ c = take_all n c (omega (arith, all z)) in
        rw (last, piece) (sym (whole_some c (omega arith))) in
      rest (record { parts = parts; one = one }) l

  -- A content that is one chunk.
  pub rest_whole :
      (kind kind' : FileType) (c : Bytes) (es : List Entry) (xs : List Bytes)
      → 0 < length c
      → Follow kind' [] es xs
      → Follow kind c es (c ∷ xs)
  rest_whole kind kind' c es xs some_bytes r =
      subst (λ b. Follow kind c es (b ∷ xs)) (take_all (length c) c (omega arith))
        (rest_content kind kind' (length c) c es xs some_bytes (omega arith) (λ z. refl)
          (subst (λ b. Follow kind' b es xs) (sym (drop_all (length c) c (omega arith))) r))
