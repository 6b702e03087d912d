-- ===== src/Config.antt =====
-- include/define.h, include/chunker.h and include/tarType.h: the sizes and codes of the program.
pub mod Gear
use bi_search.Base.{ℕ, ◌*◌}
pub use Gear.{gear}

abbrev pub read_file_size : ℕ
read_file_size = 192 * 1024 * 1024

abbrev pub container_max_size : ℕ
container_max_size = 4194304

abbrev pub container_cache_size : ℕ
container_cache_size = 64

abbrev pub mask_gear : ℕ
mask_gear = 0x1fff

abbrev pub header_size : ℕ
header_size = 512

abbrev pub max_chunk_size : ℕ
max_chunk_size = 16384

-- The members of class Chunker (and of dataWrite) that no code changes.
abbrev pub fixed_min : ℕ
fixed_min = 4096

abbrev pub fixed_avg : ℕ
fixed_avg = 8192

abbrev pub fixed_max : ℕ
fixed_max = 16384

-- Type flags of a tar header: '0', NUL, 'x' and 'L'.
abbrev pub regtype : ℕ
regtype = 48

abbrev pub aregtype : ℕ
aregtype = 0

abbrev pub xhdtype : ℕ
xhdtype = 120

abbrev pub gnutype_longname : ℕ
gnutype_longname = 76
