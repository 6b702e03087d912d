-- ===== src/Store/Stored.antt =====
-- What it means that a store holds a chunk's bytes, and that it is well formed.
use bi_search.Base.{
  ℕ, zero, suc, ◌+◌, ◌≤◌, ◌<◌, ◌≡◌, refl, sym, ◌∙◌, subst, Bool, true, Option, none, some, List, [],
  ◌∷◌, ◌++◌, arith, Bytes, length, read_at, copy, get_elem?, set,
}
use bi_search.Config.{container_max_size}
use mathlib.Core.Option.{some-injective}
use bi_search.Types.{Chunk, DeltaType}
use bi_search.Cache.Slots.{KeysBelow}
use bi_search.Cache.Coherent.{IsCoherent}
use bi_search.Store.{DataWrite, ContainerFile}
use bi_search.Store.Fetch.{memory_of}

-- The bytes of a container file, none where there is no file.
abbrev pub contents : (ℕ → Option ContainerFile) → ℕ → Bytes
contents files k = elim (files k) [ none ↦ [] | some f ↦ copy f.size f.payload ]

-- The chunk's bytes are in the current container, or in the file of an earlier one.
pub data Stored (st : DataWrite) (c : Chunk) (bs : Bytes) : Type 0 where
  in_memory :
      c.container_id ≡ st.container_num
      → c.offset + length bs ≤ st.cur_offset
      → read_at st.cur_container.content c.offset (length bs) ≡ bs
      → Stored st c bs
  in_file :
      c.container_id < st.container_num
      → c.offset + length bs ≤ length (contents st.containers c.container_id)
      → read_at (memory_of (contents st.containers c.container_id)) c.offset (length bs) ≡ bs
      → Stored st c bs

-- What a client knows of a stored chunk: its number, its bytes, how they are kept, its
-- size before that, whether it is a chunk of headers, and its base.
pub record Blob : Type 0 where
  pub chunk_id : ℕ
  pub bytes : Bytes
  pub flag : DeltaType
  pub size : ℕ
  pub header : Bool
  pub base : Option ℕ

-- The entry of the chunk list agrees with the blob, and the store has its bytes.
pub record Entry (st : DataWrite) (c : Chunk) (b : Blob) : Type 0 where
  pub stored : Stored st c b.bytes
  pub save_size : length b.bytes ≡ c.save_size
  pub flag : c.delta_flag ≡ b.flag
  pub chunk_id : c.chunk_id ≡ b.chunk_id
  pub size : c.chunk_size ≡ b.size
  pub header : c.header_flag ≡ b.header
  pub base : c.basechunk_id ≡ b.base

-- The list of chunks and the list of blobs, entry by entry.
abbrev pub AllStored : DataWrite → List Chunk → List Blob → Type 0
AllStored st [] [] = Unit {0}
AllStored st [] (b ∷ bs) = ⊥
AllStored st (c ∷ cs) [] = ⊥
AllStored st (c ∷ cs) (b ∷ bs) = Entry st c b × AllStored st cs bs

pub record IsValid (st : DataWrite) : Type 0 where
  pub filled : st.cur_container.size ≡ st.cur_offset
  pub numbered : st.cur_container.container_id ≡ st.container_num
  pub fits : st.cur_offset ≤ container_max_size
  pub cache : IsCoherent (contents st.containers) st.container_cache
  pub cached : KeysBelow st.container_num st.container_cache.lru.keys
  pub filed : (k : ℕ) → k < st.container_num → (f : ContainerFile) × (st.containers k ≡ some f)
  pub opens : (k : ℕ) → st.can_open k ≡ true

-- What storing and fetching leave alone.
pub record Frame (st st' : DataWrite) : Type 0 where
  pub codec : st'.lz4_compress ≡ st.lz4_compress
  pub name : st'.filename ≡ st.filename
  pub recipes : st'.recipe_map ≡ st.recipe_map
  pub header_recipes : st'.recipe_map_header ≡ st.recipe_map_header

pub Frame-trans : {st st' st'' : DataWrite} → Frame st st' → Frame st' st'' → Frame st st''
Frame-trans f g = record {
  codec = g.codec ∙ f.codec;
  name = g.name ∙ f.name;
  recipes = g.recipes ∙ f.recipes;
  header_recipes = g.header_recipes ∙ f.header_recipes;
}

pub Entry-mono :
    {st st' : DataWrite} {c c' : Chunk} {b : Blob}
    → (Stored st c b.bytes → Stored st' c' b.bytes)
    → c'.save_size ≡ c.save_size
    → c'.delta_flag ≡ c.delta_flag
    → c'.chunk_id ≡ c.chunk_id
    → c'.chunk_size ≡ c.chunk_size
    → c'.header_flag ≡ c.header_flag
    → c'.basechunk_id ≡ c.basechunk_id
    → Entry st c b
    → Entry st' c' b
Entry-mono keeps saved flag id size header base e = record {
  stored = keeps e.stored;
  save_size = e.save_size ∙ sym saved;
  flag = flag ∙ e.flag;
  chunk_id = id ∙ e.chunk_id;
  size = size ∙ e.size;
  header = header ∙ e.header;
  base = base ∙ e.base;
}

pub AllStored-append :
    (st : DataWrite) (cs : List Chunk) (bs : List Blob) {c : Chunk} {b : Blob}
    → AllStored st cs bs
    → Entry st c b
    → AllStored st (cs ++ c ∷ []) (bs ++ b ∷ [])
AllStored-append st [] [] a e = (e, tt)
AllStored-append st [] (b ∷ bs) a e = absurd a
AllStored-append st (c ∷ cs) [] a e = absurd a
AllStored-append st (c ∷ cs) (b ∷ bs) a e = (a.0, AllStored-append st cs bs a.1 e)

-- A step that keeps each chunk's bytes keeps them all.
pub AllStored-mono :
    (st st' : DataWrite) (keeps : (c : Chunk) (b : Bytes) → Stored st c b → Stored st' c b)
    (cs : List Chunk) (bs : List Blob)
    → AllStored st cs bs
    → AllStored st' cs bs
AllStored-mono st st' keeps [] [] a = tt
AllStored-mono st st' keeps [] (b ∷ bs) a = a
AllStored-mono st st' keeps (c ∷ cs) [] a = a
AllStored-mono st st' keeps (c ∷ cs) (b ∷ bs) a = (
  Entry-mono (keeps c b.bytes) refl refl refl refl refl refl a.0,
  AllStored-mono st st' keeps cs bs a.1,
)

-- The entry of an index.
pub AllStored-get :
    (st : DataWrite) (cs : List Chunk) (bs : List Blob) (id : ℕ) {b : Blob}
    → AllStored st cs bs
    → get_elem? bs id ≡ some b
    → (c : Chunk) × (get_elem? cs id ≡ some c) × Entry st c b
AllStored-get st [] [] id a e = absurd (ground arith)
AllStored-get st [] (b ∷ bs) id a e = absurd a
AllStored-get st (c ∷ cs) [] id a e = absurd a
AllStored-get st (c ∷ cs) (b ∷ bs) zero {b = d} a e =
    let same : b ≡ d = some-injective b d e in (c, refl, subst (Entry st c) same a.0)
AllStored-get st (c ∷ cs) (b ∷ bs) (suc id) a e = AllStored-get st cs bs id a.1 e

-- An entry may be replaced by one that agrees with the same blob.
pub AllStored-set :
    (st : DataWrite) (cs : List Chunk) (bs : List Blob) (id : ℕ) {c c' : Chunk}
    → AllStored st cs bs
    → get_elem? cs id ≡ some c
    → ((b : Blob) → Entry st c b → Entry st c' b)
    → AllStored st (set cs id c') bs
AllStored-set st [] [] id a e h = tt
AllStored-set st [] (b ∷ bs) id a e h = a
AllStored-set st (c ∷ cs) [] zero a e h = a
AllStored-set st (c ∷ cs) [] (suc id) a e h = a
AllStored-set st (d ∷ cs) (b ∷ bs) zero {c} a e h =
    let same : d ≡ c = some-injective d c e in (h b (subst (λ x. Entry st x b) same a.0), a.1)
AllStored-set st (d ∷ cs) (b ∷ bs) (suc id) a e h = (a.0, AllStored-set st cs bs id a.1 e h)
