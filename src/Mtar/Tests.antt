-- ===== src/Mtar/Tests.antt =====
-- Runs of MTar and MTar2Tar.
use bi_search.Base.{◌<◌, ◌≡◌, refl, some, ◌++◌, arith, Bytes, length}
use bi_search.Tar.{TarState, file_header, header_octal, octal_loop, type_flag, rounded_up}
use bi_search.Tar.Names.{c_string}
use bi_search.Tar.Samples.{
  directory, small_file, end_block, sample, new_tar, directory-IsEntry, small_file-IsEntry,
  end_block-IsEntry, sample-AllEntries,
}
use bi_search.Tar.Archive.{archive, headers, contents}
use bi_search.Tar.Pending.{IsQuiet}
use bi_search.Mtar.{mtar, mtar2tar, padding, le64}
use bi_search.Mtar.Split.{mtar-archive}
use bi_search.Mtar.Merge.{IsPadded}
use bi_search.Mtar.RoundTrip.{mtar2tar-mtar}

directory-IsPadded : IsPadded directory
unfolding c_string header_octal octal_loop type_flag rounded_up padding
directory-IsPadded = record {
  valid = directory-IsEntry;
  octal = λ e. refl;
  filled = λ e. absurd (omega (arith, e));
}

small_file-IsPadded : IsPadded small_file
unfolding c_string header_octal octal_loop type_flag rounded_up padding
small_file-IsPadded = record { valid = small_file-IsEntry; octal = λ e. refl; filled = λ e. refl }

end_block-IsPadded : IsPadded end_block
unfolding type_flag
end_block-IsPadded = record {
  valid = end_block-IsEntry;
  octal = λ e. absurd (omega (arith, e));
  filled = λ e. absurd (omega (arith, e));
}

short : length (archive sample) < 201326592
short = omega arith

mtar2tar-mtar_example :
    (file : Bytes) × (s' : TarState) × (mtar 16 new_tar (archive sample) ≡ some (file, s'))
    × (mtar2tar file ≡ some (archive sample))
    × (s'.next_chunk_type ≡ file_header)
mtar2tar-mtar_example =
    mtar2tar-mtar 16 new_tar sample (omega arith) (record { no_first = refl }) refl
      (directory-IsPadded, (small_file-IsPadded, (end_block-IsPadded, (end_block-IsPadded, tt))))
      short

mtar-archive_example :
    (s' : TarState) × (mtar 1 new_tar (archive sample)
      ≡ some (le64 (length (contents sample)) ++ (contents sample ++ headers sample), s'))
    × IsQuiet s'
    × (s'.next_chunk_type ≡ file_header)
mtar-archive_example =
    mtar-archive 1 new_tar sample (omega arith) (record { no_first = refl }) refl sample-AllEntries
      short
