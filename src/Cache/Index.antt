-- ===== src/Cache/Index.antt =====
-- include/lruCache.h: lru11::Cache<string, uint32_t>. Keys are container numbers (the program
-- uses their decimal texts) and values slot indices. `keys` is keys_, most recent entry first;
-- the map cache_ holds an iterator to each of its nodes, so a find in the map is a search by key.
use bi_search.Base.{
  ℕ, zero, suc, ◌+◌, Bool, true, false, ◌||◌, Option, none, some, List, [], ◌∷◌, if◌then◌else◌, ltb,
  ◌==◌, length,
}

abbrev pub Entries : Type 0
Entries = List (ℕ × ℕ)

pub record Lru : Type 0 where
  pub keys : Entries
  pub max_size : ℕ
  pub elasticity : ℕ

unfoldable pub lookup : ℕ → Entries → Option ℕ
lookup k [] = none
lookup k ((j, v) ∷ l) = if j == k then some v else lookup k l

-- Takes the node with the key out of the list.
unfoldable pub without : ℕ → Entries → Entries
without k [] = []
without k ((j, v) ∷ l) = if j == k then l else (j, v) ∷ without k l

-- keys_.pop_back()
unfoldable pub pop_back : Entries → Entries
pop_back [] = []
pop_back (e ∷ []) = []
pop_back (e ∷ f ∷ l) = e ∷ pop_back (f ∷ l)

-- keys_.back()
unfoldable pub back : Entries → Option (ℕ × ℕ)
back [] = none
back (e ∷ []) = some e
back (e ∷ f ∷ l) = back (f ∷ l)

-- while (cache_.size() > maxSize_): one entry goes in each round, so the number of entries is
-- fuel enough.
unfoldable pub prune_loop : ℕ → ℕ → Entries → Entries
prune_loop max_size zero l = l
prune_loop max_size (suc fuel) l =
    let rest = prune_loop max_size fuel (pop_back l) in if ltb max_size (length l) then rest else l

unfoldable pub prune : Lru → Lru
unfolding prune_loop
prune c =
    if (c.max_size == 0) || ltb (length c.keys) (c.max_size + c.elasticity)
    then c
    else record c { keys = prune_loop c.max_size (length c.keys) c.keys }

unfoldable pub size : Lru → ℕ
size c = length c.keys

unfoldable pub contains : Lru → ℕ → Bool
contains c k = elim (lookup k c.keys) [ none ↦ false | some _ ↦ true ]

unfoldable pub clear : Lru → Lru
clear c = record c { keys = [] }

unfoldable pub insert : Lru → ℕ → ℕ → Lru
unfolding prune
insert c k v = elim (lookup k c.keys) [
  | some _ ↦ record c { keys = (k, v) ∷ without k c.keys }
  | none ↦ prune (record c { keys = (k, v) ∷ c.keys })
]

-- `none` is the exception KeyNotFound.
unfoldable pub get : Lru → ℕ → Option (ℕ × Lru)
get c k = elim (lookup k c.keys) [
  | none ↦ none
  | some v ↦ some (v, record c { keys = (k, v) ∷ without k c.keys })
]

-- The slot of the least recent entry. On an empty list keys_.back() has no value.
unfoldable pub prune_value : Lru → Option ℕ
prune_value c = elim (back c.keys) [ none ↦ none | some e ↦ lookup e.0 c.keys ]
