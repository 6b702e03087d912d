-- ===== src/Store/Roll.antt =====
-- Rolling over to the next container keeps the store well formed and every chunk's bytes.
use bi_search.Base.{
  ℕ, zero, suc, ◌+◌, ◌≤◌, ◌<◌, ◌≡◌, refl, ap, ◌∙◌, inl, inr, false, some, arith, Bytes, Memory,
  length, read_at, copy, length-read_at, copy_all, ltb, ◌==◌, if◌then◌else◌, ==_self, ne→==, ltb→le,
  Bool-cases, read_at_congr, ==→ne, subst, get_or,
}
use bi_search.Config.{container_max_size}
use bi_search.Types.{Chunk}
use bi_search.Cache.Slots.{KeysBelow-mono}
use bi_search.Cache.Coherent.{IsCoherent-congr}
use bi_search.Store.{DataWrite, ContainerFile, written, roll_container, count_chunk}
use bi_search.Store.Fetch.{memory_of}
use bi_search.Store.Stored.{Stored, in_memory, in_file, contents, IsValid, Frame}

pub count_chunk-IsValid : (st : DataWrite) (c : Chunk) → IsValid st → IsValid (count_chunk st c)
unfolding count_chunk
count_chunk-IsValid st c v = record {
  filled = v.filled;
  numbered = v.numbered;
  fits = v.fits;
  cache = v.cache;
  cached = v.cached;
  filed = v.filed;
  opens = v.opens;
}

pub count_chunk-Stored :
    (st : DataWrite) (d : Chunk) (c : Chunk) (b : Bytes)
    → Stored st c b
    → Stored (count_chunk st d) c b
unfolding count_chunk
count_chunk-Stored st d c b (in_memory n o r) = in_memory n o r
count_chunk-Stored st d c b (in_file n o r) = in_file n o r

-- A stretch of memory, saved as bytes, reads back as that memory.
get_or-read_at : (m : Memory) (p n i : ℕ) → i < n → get_or (read_at m p n) i 0 ≡ m (p + i)
unfolding read_at
get_or-read_at m p zero i h = absurd (omega arith)
get_or-read_at m p (suc n) zero h = ap m (omega arith)
get_or-read_at m p (suc n) (suc i) h =
    let e : p + 1 + i ≡ p + suc i = omega arith in
    get_or-read_at m (p + 1) n i (omega arith) ∙ ap m e

pub read_at-saved :
    (m : Memory) (n off len : ℕ)
    → off + len ≤ n
    → read_at (memory_of (read_at m 0 n)) off len ≡ read_at m off len
read_at-saved m n off len h =
    read_at_congr _ m off len (λ i lo hi. get_or-read_at m 0 n i (omega arith) ∙ ap m (omega arith))

saved : DataWrite → ContainerFile
saved st = record {
  size = st.cur_offset;
  payload = read_at st.cur_container.content 0 st.cur_offset;
}

-- What rolling over does to a well-formed store.
rolled : DataWrite → DataWrite
unfolding saved
rolled st = record st {
  containers = written st.containers st.container_num (saved st);
  container_num = st.container_num + 1;
  container_size = 0;
  cur_offset = 0;
  cur_container = record (st.cur_container) {
    size = 0;
    container_id = st.container_num + 1;
    chunk_num = 0;
  };
}

roll_container-rolled : (st : DataWrite) → IsValid st → roll_container st ≡ rolled st
unfolding roll_container rolled
roll_container-rolled st v =
    let f = v.filled in
    let n = v.numbered in let o = v.opens st.cur_container.container_id in rw (o, f, n)

contents-saved :
    (st : DataWrite)
    → contents (written st.containers st.container_num (saved st)) st.container_num
      ≡ read_at st.cur_container.content 0 st.cur_offset
unfolding written saved
contents-saved st =
    rw (contents, ==_self st.container_num)
      (subst
        (λ n.
          copy n (read_at st.cur_container.content 0 st.cur_offset)
          ≡ read_at st.cur_container.content 0 st.cur_offset)
        (length-read_at st.cur_container.content 0 st.cur_offset)
        (copy_all (read_at st.cur_container.content 0 st.cur_offset)))

contents-older :
    (st : DataWrite) (k : ℕ)
    → k < st.container_num
    → contents st.containers k ≡ contents (written st.containers st.container_num (saved st)) k
unfolding written
contents-older st k h =
    let e : (k == st.container_num) ≡ false = ne→== k st.container_num (omega arith) in
    rw (contents, e)

rolled-IsValid : (st : DataWrite) → IsValid st → IsValid (rolled st)
unfolding rolled written
rolled-IsValid st v = record {
  filled = refl;
  numbered = refl;
  fits = omega arith;
  cache =
      IsCoherent-congr (contents st.containers) _ st.container_num st.container_cache
        (contents-older st) v.cached v.cache;
  cached = KeysBelow-mono st.container_num (st.container_num + 1) _ (omega arith) v.cached;
  filed = filed';
  opens = v.opens;
}
  where
    filed' :
        (k : ℕ)
        → k < st.container_num + 1
        → (f : ContainerFile) × (written st.containers st.container_num (saved st) k ≡ some f)
    filed' k h = elim (Bool-cases (k == st.container_num)) [
      | inl same ↦ (saved st, rw same)
      | inr other ↦ rw other (v.filed k (omega (arith, ==→ne k st.container_num other)))
    ]

rolled-Stored : (st : DataWrite) → (c : Chunk) (b : Bytes) → Stored st c b → Stored (rolled st) c b
unfolding rolled
rolled-Stored st c b (in_memory n o r) =
    in_file (omega arith)
      (rw (n, contents-saved st)
        (omega (arith, length-read_at st.cur_container.content 0 st.cur_offset)))
      (rw (n, contents-saved st)
        (read_at-saved st.cur_container.content st.cur_offset c.offset (length b) o ∙ r))
rolled-Stored st c b (in_file n o r) =
    in_file (omega arith) (rw (← contents-older st c.container_id n) o)
      (rw (← contents-older st c.container_id n) r)

-- Rolling over leaves room for a whole container, and loses nothing.
unfoldable pub ready : DataWrite → ℕ → DataWrite
ready st tmp_size =
    if ltb container_max_size (st.cur_container.size + tmp_size) then roll_container st else st

pub record IsReady (st st' : DataWrite) (tmp_size : ℕ) : Type 0 where
  pub valid : IsValid st'
  pub room : st'.cur_offset + tmp_size ≤ container_max_size
  pub keeps : (c : Chunk) (b : Bytes) → Stored st c b → Stored st' c b
  pub same : st'.chunklist ≡ st.chunklist
  pub frame : Frame st st'

pub ready-IsReady :
    (st : DataWrite) (tmp_size : ℕ)
    → IsValid st
    → tmp_size ≤ container_max_size
    → IsReady st (ready st tmp_size) tmp_size
unfolding ready
ready-IsReady st tmp_size v h =
    elim (Bool-cases (ltb container_max_size (st.cur_container.size + tmp_size))) [
      | inl over ↦
          rw (over, roll_container-rolled st v)
            (record {
              valid = rolled-IsValid st v;
              room = new_room;
              keeps = rolled-Stored st;
              same = new_list;
              frame = new_frame;
            })
      | inr under ↦ rw under (record {
        valid = v;
        room = omega (arith, v.filled, ltb→le _ _ under);
        keeps = λ c b s. s;
        same = refl;
        frame = record { codec = refl; name = refl; recipes = refl; header_recipes = refl };
      })
    ]
  where
    new_room : (rolled st).cur_offset + tmp_size ≤ container_max_size
    new_room = unfold rolled in omega arith

    new_list : (rolled st).chunklist ≡ st.chunklist
    new_list = unfold rolled in refl

    new_frame : Frame st (rolled st)
    new_frame =
        unfold rolled in record { codec = refl; name = refl; recipes = refl; header_recipes = refl }
