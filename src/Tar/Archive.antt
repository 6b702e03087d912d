-- ===== src/Tar/Archive.antt =====
-- The specification of an archive: entries of a header of 512 bytes and a content in whole blocks.
use bi_search.Base.{
  some, ℕ, ◌<◌, ◌^◌, ◌≡◌, ◌≢◌, List, [], ◌∷◌, ◌++◌, Bytes, if◌then◌else◌, ◌==◌, length,
}
use bi_search.Config.{regtype, xhdtype, gnutype_longname}
use bi_search.Tar.{header_octal, type_flag, rounded_up}
use bi_search.Tar.Names.{c_string, last_slash}

pub record Entry : Type 0 where
  pub header : Bytes
  pub content : Bytes

abbrev pub archive : List Entry → Bytes
archive [] = []
archive (e ∷ es) = e.header ++ (e.content ++ archive es)

abbrev pub headers : List Entry → Bytes
headers [] = []
headers (e ∷ es) = e.header ++ headers es

abbrev pub contents : List Entry → Bytes
contents [] = []
contents (e ∷ es) = e.content ++ contents es

-- The bytes of content that belong to a header: only a regular file has any here.
abbrev pub content_size : Bytes → ℕ
content_size header = if type_flag header == regtype then rounded_up (header_octal header) else 0

-- An entry as tar writes it, that is no long name and no extended header. A NUL stands somewhere in
-- its header, a name of a hundred bytes having none of its own, and no '/' between the name field
-- and that NUL; the size of a regular file is less than 8 GiB. A block of zeros is an entry too.
pub record IsEntry (e : Entry) : Type 0 where
  pub block : length e.header ≡ 512
  pub ends : length (c_string e.header) < 512
  pub name : (i : ℕ) → last_slash (c_string e.header) ≡ some i → i < 100
  pub size : type_flag e.header ≡ regtype → header_octal e.header < 2 ^ 33
  pub content : length e.content ≡ content_size e.header
  pub not_extended : type_flag e.header ≢ xhdtype
  pub not_long : type_flag e.header ≢ gnutype_longname

abbrev pub AllEntries : List Entry → Type 0
AllEntries [] = Unit {0}
AllEntries (e ∷ es) = IsEntry e × AllEntries es
