-- ===== src/Source/Tarball.antt =====
-- `Tarball`, `inspect` and `private_copy_in` of src/source.rs. A path is the list of its parts; the
-- files, and which operations on them succeed, are arguments.
pub mod PrivateCopy
use kernel_pop.Prelude.{
  ℕ, Bool, true, false, not, Option, none, some, [], ◌∷◌, ◌++◌, ◌&&◌, ◌||◌, ◌==◌, if◌then◌else◌,
  List, Result, ok, err, ◌>>=◌, ◌>>◌, context, guard, or_option, map_option,
}
use kernel_pop.Text.{Text, codes, text_eq, strip_suffix, ends_with}
use kernel_pop.Source.Version.{Compression, SourceVersion, from_magic}
use kernel_pop.Source.Makefile.{MakefileError, parse_makefile}
use kernel_pop.Source.Archive.{Entry, ArchiveError, find_makefile}

abbrev pub FilePath : Type 0
FilePath = List Text

pub record Tarball : Type 0 where
  pub path : FilePath
  pub origin : FilePath
  pub compression : Compression
  pub version : SourceVersion
  pub top_dir : Text

-- `file_name`: the last part, where it is a name
unfoldable pub file_name : FilePath → Option Text
unfolding text_eq
file_name [] = none
file_name (p ∷ []) = if text_eq p (codes "..") then none else some p
file_name (p ∷ q ∷ ps) = file_name (q ∷ ps)

unfoldable pub with_file_name : Text → FilePath → FilePath
with_file_name name [] = name ∷ []
with_file_name name (p ∷ []) = name ∷ []
with_file_name name (p ∷ q ∷ ps) = p ∷ with_file_name name (q ∷ ps)

-- the name without the ending of the compression
abbrev pub stem_of : Text → Option Text
stem_of name = or_option (strip_suffix (codes ".xz") name) (strip_suffix (codes ".gz") name)

unfoldable pub sibling_signature : (FilePath → Bool) → Tarball → Option FilePath
unfolding file_name strip_suffix ends_with with_file_name
sibling_signature is_file t = elim (file_name t.origin) [
  | none ↦ none
  | some name ↦ elim (stem_of name) [
    | none ↦ none
    | some stem ↦
        let sig = with_file_name (stem ++ codes ".sign") t.origin in
        if not (ends_with (codes ".tar") stem) then none else if is_file sig then some sig else none
  ]
]

-- A file that can be opened: its first six bytes, where they can be read, and the entries that the
-- tar reader yields behind the decompressor, where that starts.
pub record TarFile : Type 0 where
  pub head : Option (List ℕ)
  pub entries : Option (List (Option Entry))

pub data InspectError : Type 0 where
  not_opened not_read not_compressed no_decompressor : InspectError
  not_a_kernel : ArchiveError → InspectError
  no_version : MakefileError → InspectError

abbrev pub from_archive : Result ArchiveError (Text × Text) → Result InspectError (Text × Text)
from_archive (ok found) = ok found
from_archive (err e) = err (not_a_kernel e)

abbrev pub from_makefile : Result MakefileError SourceVersion → Result InspectError SourceVersion
from_makefile (ok v) = ok v
from_makefile (err e) = err (no_version e)

unfoldable pub inspect : Option TarFile → FilePath → Result InspectError Tarball
inspect file path = do
  f ← context not_opened file
  head ← context not_read f.head
  compression ← context not_compressed (from_magic head)
  entries ← context no_decompressor f.entries
  found ← from_archive (find_makefile entries)
  version ← from_makefile (parse_makefile found.1)
  ok (record {
    path = path;
    origin = path;
    compression = compression;
    version = version;
    top_dir = found.0;
  })

-- `starts_with` of two paths
unfoldable pub is_under : FilePath → FilePath → Bool
unfolding text_eq
is_under [] path = true
is_under (d ∷ ds) [] = false
is_under (d ∷ ds) (p ∷ ps) = text_eq d p && is_under ds ps

-- What the copy meets: the canonical paths of the tarball and of the directory, where they can be
-- found, which operations succeed, and the file that the copy then is.
pub record Disk : Type 0 where
  pub canonical_source : Option FilePath
  pub canonical_dir : Option FilePath
  pub dir_exists : Bool
  pub can_clear : Bool
  pub can_create : Bool
  pub can_restrict_dir : Bool
  pub can_copy : Bool
  pub can_restrict_copy : Bool
  pub copied : Option TarFile

pub data CopyError : Type 0 where
  is_private_copy not_cleared not_created not_restricted no_name not_copied changed : CopyError
  not_inspected : InspectError → CopyError

abbrev pub from_inspect : Result InspectError Tarball → Result CopyError Tarball
from_inspect (ok t) = ok t
from_inspect (err e) = err (not_inspected e)

abbrev pub is_inside : Option FilePath → Option FilePath → Bool
is_inside none dir = false
is_inside (some source) none = false
is_inside (some source) (some dir) = is_under dir source

unfoldable pub same_version : SourceVersion → SourceVersion → Bool
unfolding text_eq
same_version v w =
    (v.version == w.version && v.patchlevel == w.patchlevel)
    && (v.sublevel == w.sublevel && text_eq v.extraversion w.extraversion)

unfoldable pub private_copy_in : Disk → Tarball → FilePath → Result CopyError Tarball
unfolding file_name text_eq
private_copy_in disk t dir = do
  guard (not (is_inside disk.canonical_source disk.canonical_dir)) is_private_copy
  guard (not disk.dir_exists || disk.can_clear) not_cleared
  guard disk.can_create not_created
  guard disk.can_restrict_dir not_restricted
  name ← context no_name (file_name t.origin)
  guard disk.can_copy not_copied
  guard disk.can_restrict_copy not_restricted
  c ← from_inspect (inspect disk.copied (dir ++ (name ∷ [])))
  guard (same_version c.version t.version && text_eq c.top_dir t.top_dir) changed
  ok (record c { origin = t.origin })
