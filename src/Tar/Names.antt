-- ===== src/Tar/Names.antt =====
-- src/chunking/chunker.cc: the names that CutPointTarFast takes out of a header (FindName,
-- ExtractPath) and out of a long name's content (FindLongName), and the hashes of names. The
-- arrays name, path and LongName are memory; what a call does not write stays from before.
use bi_search.Base.{
  ℕ, zero, suc, ◌+◌, ◌-◌, ◌*◌, ◌%◌, ◌^◌, Option, none, some, [], ◌∷◌, ◌++◌, Bytes, Memory,
  if◌then◌else◌, ltb, ◌==◌, length, take, copy, write_at,
}

-- '/'
abbrev pub slash : ℕ
slash = 47

-- std::find for '/' in a range: the part after the first one.
unfoldable pub after_slash : Bytes → Option Bytes
after_slash [] = none
after_slash (x ∷ xs) = if x == slash then some xs else after_slash xs

-- FindName: the name field behind its first '/', or all of it.
unfoldable pub find_name : Memory → Bytes → Memory
unfolding after_slash
find_name name src = elim (after_slash (copy 100 src)) [
  | none ↦ write_at name 0 (copy 100 src)
  | some rest ↦ write_at name 0 rest
]

-- A C string: the bytes before the first NUL.
unfoldable pub c_string : Bytes → Bytes
c_string [] = []
c_string (x ∷ xs) = if x == 0 then [] else x ∷ c_string xs

-- strchr(s, '/'): the string from its first '/' on.
unfoldable pub from_slash : Bytes → Option Bytes
from_slash [] = none
from_slash (x ∷ xs) = if x == slash then some (x ∷ xs) else from_slash xs

-- strrchr(s, '/'): the index of the last '/'.
unfoldable pub last_slash : Bytes → Option ℕ
last_slash [] = none
last_slash (x ∷ xs) = elim (last_slash xs) [
  | some i ↦ some (suc i)
  | none ↦ if x == slash then some 0 else none
]

unfoldable pub slash_count : Bytes → ℕ
slash_count [] = 0
slash_count (x ∷ xs) = (if x == slash then 1 else 0) + slash_count xs

-- strncpy of a prefix and its NUL into path, which has 101 bytes.
unfoldable pub set_path : Memory → Bytes → Option Memory
set_path path bytes =
    if ltb 100 (length bytes) then none else some (write_at path 0 (bytes ++ 0 ∷ []))

-- ExtractPath: from the first '/' to the last one, or, when more than two stand before the last,
-- to the last but one. The strcpy branches are for strings without a '/', which do not occur.
unfoldable pub extract_path : Memory → Bytes → Option Memory
unfolding c_string from_slash last_slash slash_count set_path
extract_path path full = elim (from_slash (c_string full)) [
  | none ↦ some path
  | some remainder ↦ elim (last_slash remainder) [
    | none ↦ set_path path remainder
    | some last ↦
        if ltb 2 (slash_count (take last remainder))
        then (elim (last_slash (take last remainder)) [
          | none ↦ set_path path remainder
          | some second_last ↦ set_path path (take second_last remainder)
        ])
        else set_path path (take last remainder)
  ]
]

-- FindLongName: std::find never gives nullptr, so where the range has no '/' the copy starts
-- behind its end (`none`). LongName has 8197 bytes.
unfoldable pub find_long_name : Memory → Bytes → ℕ → Option Memory
unfolding after_slash
find_long_name long_name src rounded_up = elim (after_slash (copy rounded_up src)) [
  | none ↦ none
  | some rest ↦ if ltb 8197 (length rest) then none else some (write_at long_name 0 rest)
]

-- A `char` as a uint64_t: signed, so that its sign is extended.
unfoldable pub char_value : ℕ → ℕ
char_value b = if ltb b 128 then b else b + 2 ^ 64 - 256

-- for (i = 0; i < limit && name[i] != '\0'; ++i) hash = hash * factor + name[i], on `bits` bits.
unfoldable pub hash_loop : ℕ → ℕ → ℕ → ℕ → Memory → ℕ → ℕ
unfolding char_value
hash_loop zero factor modulus i name hash = hash
hash_loop (suc rounds) factor modulus i name hash =
    let rest =
      hash_loop rounds factor modulus (i + 1) name
        ((hash * factor + char_value (name i)) % modulus) in
    if name i == 0 then hash else rest

abbrev prime : ℕ
prime = 1099511628211

unfoldable pub hash_name_to_uint16 : Memory → ℕ
unfolding hash_loop
hash_name_to_uint16 name = hash_loop 101 31 (2 ^ 16) 0 name 0

unfoldable pub hash_name_to_uint64 : Memory → ℕ
unfolding hash_loop
hash_name_to_uint64 name = hash_loop 101 prime (2 ^ 64) 0 name 0

unfoldable pub hash_long_name_to_uint64 : Memory → ℕ
unfolding hash_loop
hash_long_name_to_uint64 name = hash_loop 8197 prime (2 ^ 64) 0 name 0
