-- ===== src/Source/Archive.antt =====
-- What a source tarball may hold: `find_makefile` and `check_single_top_dir` of src/source.rs.
-- The tar reader and the `tar` program are not part of this code: the entries that they report are
-- the argument.
pub mod Safety
pub mod Search
use kernel_pop.Prelude.{
  ℕ, Bool, true, false, not, Option, none, some, [], ◌∷◌, ◌&&◌, ◌||◌, ◌++◌, ◌==◌, if◌then◌else◌,
  List, Result, ok, err, ◌>>=◌, ◌>>◌, any, context, or_default, length,
}
use kernel_pop.Text.{Text, codes, text_eq, split_char, starts_with, strip_prefix, lines}

-- a component of a member's path, as `Path::components` gives it
pub data Component : Type 0 where
  normal : Text → Component
  cur_dir parent_dir root_dir prefix : Component

-- the types of a member that the code tells apart
pub data EntryType : Type 0 where
  pax_global pax_local regular other : EntryType

pub record Entry : Type 0 where
  pub kind : EntryType
  -- none: the name cannot be read
  pub path : Option (List Component)
  -- what its data holds, up to 4 MiB; none: it cannot be read as text
  pub text : Option Text

pub data ArchiveError : Type 0 where
  damaged unreadable_name unsafe_name unreadable_makefile no_makefile not_listed : ArchiveError
  two_top_dirs : Text → Text → ArchiveError
  outside_top_dir : Text → ArchiveError
  unsafe_member : Text → ArchiveError

abbrev pub is_pax : EntryType → Bool
is_pax pax_global = true
is_pax pax_local = true
is_pax regular = false
is_pax other = false

abbrev pub is_file : EntryType → Bool
is_file regular = true
is_file pax_global = false
is_file pax_local = false
is_file other = false

-- the components of a name; a "." is left out, and anything but a plain name is refused
unfoldable pub plain_parts : List Component → Result ArchiveError (List Text)
plain_parts [] = ok []
plain_parts (normal [] ∷ cs) = plain_parts cs
plain_parts (normal (c ∷ s) ∷ cs) = do ps ← plain_parts cs; ok ((c ∷ s) ∷ ps)
plain_parts (cur_dir ∷ cs) = plain_parts cs
plain_parts (parent_dir ∷ cs) = err unsafe_name
plain_parts (root_dir ∷ cs) = err unsafe_name
plain_parts (prefix ∷ cs) = err unsafe_name

abbrev pub is_makefile : List Text → Bool
is_makefile [] = false
is_makefile (a ∷ []) = false
is_makefile (a ∷ b ∷ []) = text_eq b (codes "Makefile")
is_makefile (a ∷ b ∷ c ∷ ps) = false

-- the top-level directory so far, against the first component of one more member
unfoldable pub same_top : Option Text → Text → Result ArchiveError Text
unfolding text_eq
same_top none first = ok first
same_top (some t) first = if text_eq t first then ok t else err (two_top_dirs t first)

abbrev pub makefile_text : Text → Option Text → Result ArchiveError (Text × Text)
makefile_text first none = err unreadable_makefile
makefile_text first (some text) = ok (first, text)

-- One member of the archive, with what the loop does behind it. An entry that is `none` is one at
-- which the archive is damaged.
unfoldable pub visit :
    Option Text
    → EntryType
    → Option Text
    → List Text
    → (Option Text → Result ArchiveError (Text × Text))
    → Result ArchiveError (Text × Text)
unfolding same_top
visit top kind text [] rest = rest top
visit top kind text (first ∷ ps) rest = do
  t ← same_top top first
  if is_makefile (first ∷ ps) && is_file kind then makefile_text first text else rest (some t)

unfoldable pub visit_entry :
    Option Text
    → Entry
    → (Option Text → Result ArchiveError (Text × Text))
    → Result ArchiveError (Text × Text)
unfolding visit plain_parts
visit_entry top e rest = if is_pax e.kind then rest top else do
  cs ← context unreadable_name e.path
  ps ← plain_parts cs
  visit top e.kind e.text ps rest

unfoldable pub find_makefile_from :
    Option Text → List (Option Entry) → Result ArchiveError (Text × Text)
unfolding visit_entry
find_makefile_from top [] = err no_makefile
find_makefile_from top (none ∷ es) = err damaged
find_makefile_from top (some e ∷ es) = visit_entry top e (λ t. find_makefile_from t es)

unfoldable pub find_makefile : List (Option Entry) → Result ArchiveError (Text × Text)
unfolding find_makefile_from
find_makefile es = find_makefile_from none es

-- a line of `tar -tf`, without the "./" that may stand first
unfoldable pub member_name : Text → Text
unfolding strip_prefix
member_name line = or_default line (strip_prefix (codes "./") line)

unfoldable pub check_member : Text → Text → Result ArchiveError (Unit {0})
unfolding text_eq starts_with split_char
check_member top name =
    if not (text_eq name top)
      && (not (text_eq name (top ++ codes "/")) && not (starts_with (top ++ codes "/") name))
    then err (outside_top_dir name)
    else if any (λ c. text_eq c (codes "..")) (split_char b'/' name)
    then err (unsafe_member name)
    else ok tt

unfoldable pub check_members : Text → List Text → Result ArchiveError (Unit {0})
unfolding check_member member_name
check_members top [] = ok tt
check_members top (line ∷ ls) = check_member top (member_name line) >> check_members top ls

-- `listing` is what `tar -tf` prints; none: it fails
unfoldable pub check_single_top_dir : Text → Option Text → Result ArchiveError (Unit {0})
unfolding check_members lines
check_single_top_dir top none = err not_listed
check_single_top_dir top (some listing) = check_members top (lines listing)
