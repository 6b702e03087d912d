-- ===== src/Store/Locate.antt =====
-- Where a chunk's bytes are: in the cache, in its container's file, or in the current container.
use bi_search.Base.{
  ℕ, ◌<◌, ◌≡◌, sym, ◌∙◌, ◌≢◌, inl, inr, true, arith, Bytes, Memory, length, read_at, Option-cases,
  subst,
}
use bi_search.Types.{Chunk}
use bi_search.Cache.Index.{contains, lookup}
use bi_search.Cache.{ReadCache, exists_in_cache}
use bi_search.Cache.Slots.{KeysBelow, key_below}
use bi_search.Cache.Coherent.{IsCoherent}
use bi_search.Store.{DataWrite}
use bi_search.Store.Fetch.{memory_of}
use bi_search.Store.Roll.{read_at-saved}
use bi_search.Store.Stored.{Stored, in_memory, in_file, contents, IsValid}

-- The current container does not count among the cached ones.
pub cached_below :
    (st : DataWrite) (k : ℕ)
    → IsValid st
    → exists_in_cache st.container_cache k ≡ true
    → k < st.container_num
unfolding exists_in_cache contains
cached_below st k v e = elim (Option-cases (lookup k st.container_cache.lru.keys)) [
  | inl missing ↦ absurd (ground arith)
  | inr (slot, hit) ↦ key_below st.container_num k st.container_cache.lru.keys slot v.cached hit
]

-- The counters and the cache have no part in where a chunk is.
pub recached :
    (st : DataWrite) (cache : ReadCache) (hits loads : ℕ) (c : Chunk) (bs : Bytes)
    → Stored st c bs
    → Stored
        (record st {
          container_cache = cache;
          cache_hit_times = hits;
          load_container_times = loads;
        })
        c
        bs
recached st cache hits loads c bs (in_memory n o r) = in_memory n o r
recached st cache hits loads c bs (in_file n o r) = in_file n o r

pub recached-IsValid :
    (st : DataWrite) (cache : ReadCache) (hits loads : ℕ)
    → IsValid st
    → IsCoherent (contents st.containers) cache
    → KeysBelow st.container_num cache.lru.keys
    → IsValid (record st {
      container_cache = cache;
      cache_hit_times = hits;
      load_container_times = loads;
    })
recached-IsValid st cache hits loads v coherent below = record {
  filled = v.filled;
  numbered = v.numbered;
  fits = v.fits;
  cache = coherent;
  cached = below;
  filed = v.filed;
  opens = v.opens;
}

-- Where a chunk of an earlier container is found in its file, and in memory that begins with it.
pub filed_at :
    (st : DataWrite) (c : Chunk) (bs : Bytes) (m : Memory)
    → Stored st c bs
    → c.container_id < st.container_num
    → read_at m 0 (length (contents st.containers c.container_id))
      ≡ contents st.containers c.container_id
    → read_at m c.offset (length bs) ≡ bs
filed_at st c bs m (in_memory n o r) below whole = absurd (omega arith)
filed_at st c bs m (in_file n o r) below whole =
    sym (read_at-saved m _ c.offset (length bs) o)
    ∙ subst (λ xs. read_at (memory_of xs) c.offset (length bs) ≡ bs) (sym whole) r

pub in_own_file :
    (st : DataWrite) (c : Chunk) (bs : Bytes)
    → Stored st c bs
    → c.container_id < st.container_num
    → read_at (memory_of (contents st.containers c.container_id)) c.offset (length bs) ≡ bs
in_own_file st c bs (in_memory n o r) below = absurd (omega arith)
in_own_file st c bs (in_file n o r) below = r

pub in_current :
    (st : DataWrite) (c : Chunk) (bs : Bytes)
    → Stored st c bs
    → c.container_id ≡ st.container_num
    → read_at st.cur_container.content c.offset (length bs) ≡ bs
in_current st c bs (in_memory n o r) e = r
in_current st c bs (in_file n o r) e = absurd (omega arith)

pub not_current :
    (st : DataWrite) (c : Chunk) (bs : Bytes)
    → Stored st c bs
    → c.container_id ≢ st.container_num
    → c.container_id < st.container_num
not_current st c bs (in_memory n o r) e = absurd (e n)
not_current st c bs (in_file n o r) e = n
