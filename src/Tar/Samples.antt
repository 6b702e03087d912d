-- ===== src/Tar/Samples.antt =====
-- Sample entries: a directory `d`, in it a file of five bytes, and the blocks of zeros that end an
-- archive.
use bi_search.Base.{List, ℕ, zero, suc, ◌-◌, refl, false, [], ◌∷◌, ◌++◌, arith, Bytes, length}
use mathlib.Core.Option.{some-injective}
use bi_search.Tar.{TarState, file_header, header_octal, octal_loop, type_flag, rounded_up}
use bi_search.Tar.Names.{c_string, last_slash}
use bi_search.Tar.Octal.{octal_digits}
use bi_search.Tar.Archive.{Entry, IsEntry, AllEntries}

abbrev pub fill : ℕ → ℕ → Bytes
fill zero b = []
fill (suc n) b = b ∷ fill n b

-- A header with a name, a size and a type, and nothing else.
abbrev pub header_of : Bytes → ℕ → ℕ → Bytes
header_of name size flag =
    name
    ++ (fill (124 - length name) 0 ++ (octal_digits 11 size ++ (fill 21 0 ++ (flag ∷ fill 355 0))))

abbrev pub directory : Entry
directory = record { header = header_of (100 ∷ 47 ∷ []) 0 53; content = [] }

abbrev pub small_file : Entry
small_file = record {
  header = header_of (100 ∷ 47 ∷ 102 ∷ []) 5 48;
  content = fill 5 65 ++ fill 507 0;
}

abbrev pub end_block : Entry
end_block = record { header = fill 512 0; content = [] }

-- An archive as tar ends it.
abbrev pub sample : List Entry
sample = directory ∷ small_file ∷ end_block ∷ end_block ∷ []

-- The members before the first cut.
abbrev pub new_tar : TarState
new_tar = record {
  next_chunk_type = file_header;
  next_chunk_size = 0;
  big_chunk_size = 0;
  big_chunk_offset = 0;
  big_limit = 4194304;
  name_exist = false;
  is_long_name_chunk1 = false;
  is_long_name_chunk2 = false;
  name = λ i. 0;
  path = λ i. 0;
  long_name = λ i. 0;
}

pub directory-IsEntry : IsEntry directory
unfolding c_string last_slash header_octal octal_loop type_flag rounded_up
directory-IsEntry = record {
  block = refl;
  ends = omega arith;
  name = λ i e. omega (arith, some-injective 1 i e);
  size = λ e. omega arith;
  content = refl;
  not_extended = λ e. omega (arith, e);
  not_long = λ e. omega (arith, e);
}

pub small_file-IsEntry : IsEntry small_file
unfolding c_string last_slash header_octal octal_loop type_flag rounded_up
small_file-IsEntry = record {
  block = refl;
  ends = omega arith;
  name = λ i e. omega (arith, some-injective 1 i e);
  size = λ e. omega arith;
  content = refl;
  not_extended = λ e. omega (arith, e);
  not_long = λ e. omega (arith, e);
}

pub end_block-IsEntry : IsEntry end_block
unfolding c_string last_slash type_flag
end_block-IsEntry = record {
  block = refl;
  ends = omega arith;
  name = λ i e. absurd (ground arith);
  size = λ e. absurd (omega (arith, e));
  content = refl;
  not_extended = λ e. omega (arith, e);
  not_long = λ e. omega (arith, e);
}

pub sample-AllEntries : AllEntries sample
sample-AllEntries =
    (directory-IsEntry, (small_file-IsEntry, (end_block-IsEntry, (end_block-IsEntry, tt))))
