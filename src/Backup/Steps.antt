-- ===== src/Backup/Steps.antt =====
-- Naming the next file and emptying the read cache leave the backup as it is.
use Prim.Native.String.{String}
use bi_search.Base.{true, List, Bytes}
use bi_search.Types.{Chunk}
use bi_search.Cache.{ReadCache}
use bi_search.Cache.Coherent.{clear_all_cache-IsCoherent}
use bi_search.Cache
use bi_search.Cache.Index
use bi_search.Store.{DataWrite, set_filename, clear_all_cache}
use bi_search.Store.Stored.{Blob, Stored, in_memory, in_file, AllStored-mono, contents}
use bi_search.Restore.Originals.{Serves}
use bi_search.Dedup.{Dedup}
use bi_search.Dedup.Invariant.{IsDeduped}

renamed :
    (st : DataWrite) (name : String) (c : Chunk) (bs : Bytes)
    → Stored st c bs
    → Stored (record st { filename = name }) c bs
renamed st name c bs (in_memory n o r) = in_memory n o r
renamed st name c bs (in_file n o r) = in_file n o r

cleared :
    (st : DataWrite) (cache : ReadCache) (c : Chunk) (bs : Bytes)
    → Stored st c bs
    → Stored (record st { container_cache = cache }) c bs
cleared st cache c bs (in_memory n o r) = in_memory n o r
cleared st cache c bs (in_file n o r) = in_file n o r

set_filename-Serves :
    (st : DataWrite) (name : String) (blobs : List Blob)
    → Serves true blobs st
    → Serves true blobs (set_filename st name)
unfolding set_filename
set_filename-Serves st name blobs s = record {
  valid = record {
    filled = s.valid.filled;
    numbered = s.valid.numbered;
    fits = s.valid.fits;
    cache = s.valid.cache;
    cached = s.valid.cached;
    filed = s.valid.filed;
    opens = s.valid.opens;
  };
  all = AllStored-mono st _ (renamed st name) st.chunklist blobs s.all;
  codec = s.codec;
}

pub clear_all_cache-Serves :
    (st : DataWrite) (blobs : List Blob)
    → Serves true blobs st
    → Serves true blobs (clear_all_cache st)
unfolding clear_all_cache Cache.clear_all_cache Index.clear
clear_all_cache-Serves st blobs s = record {
  valid = record {
    filled = s.valid.filled;
    numbered = s.valid.numbered;
    fits = s.valid.fits;
    cache =
        unfold Cache.clear_all_cache in
        clear_all_cache-IsCoherent (contents st.containers) st.container_cache s.valid.cache;
    cached = tt;
    filed = s.valid.filed;
    opens = s.valid.opens;
  };
  all = AllStored-mono st _ (cleared st _) st.chunklist blobs s.all;
  codec = s.codec;
}

module _ (lz4_decompress_safe inflate_decompress : Bytes → Bytes)
    (xd3_decode : Bytes → Bytes → Bytes) (hash : Bytes → Bytes) (Seen : Bytes → Type 0) where
  abbrev Kept : Dedup → List Blob → (String → Bytes) → Type 0
  Kept = IsDeduped lz4_decompress_safe inflate_decompress xd3_decode hash Seen

  pub set_filename-IsDeduped :
      (d : Dedup) (blobs : List Blob) (files : String → Bytes) (name : String)
      → Kept d blobs files
      → Kept (record d { data_write = set_filename d.data_write name }) blobs files
  unfolding set_filename
  set_filename-IsDeduped d blobs files name v = record {
    serves = unfold set_filename in set_filename-Serves d.data_write name blobs v.serves;
    plain = v.plain;
    counted = v.counted;
    indexed = v.indexed;
    found = v.found;
    recipes = v.recipes;
  }

  pub clear_all_cache-IsDeduped :
      (d : Dedup) (blobs : List Blob) (files : String → Bytes)
      → Kept d blobs files
      → Kept (record d { data_write = clear_all_cache d.data_write }) blobs files
  unfolding clear_all_cache
  clear_all_cache-IsDeduped d blobs files v = record {
    serves = unfold clear_all_cache in clear_all_cache-Serves d.data_write blobs v.serves;
    plain = v.plain;
    counted = v.counted;
    indexed = v.indexed;
    found = v.found;
    recipes = v.recipes;
  }
