-- ===== src/Source/Makefile.antt =====
-- `parse_makefile` of src/source.rs: the version that a tree's top-level Makefile declares.
pub mod RoundTrip
pub mod Accepted
use kernel_pop.Prelude.{
  ℕ, ◌≡◌, Bool, not, Option, none, some, [], ◌∷◌, ◌&&◌, ◌||◌, ◌==◌, if◌then◌else◌, List, Result, ok,
  err, ◌>>=◌, ◌>>◌, guard, context, all, find_map, or_default,
}
use kernel_pop.Text.{
  Text, codes, is_alphanumeric, contains_char, text_eq, trim, split_once, lines, parse_unsigned,
  u32_max,
}
use kernel_pop.Source.Version.{SourceVersion}

pub data MakefileError : Type 0 where
  no_line : Text → MakefileError
  not_a_number : Text → Text → MakefileError
  bad_extraversion : Text → MakefileError

-- the value that one line gives to `name`; a ":=" or "?=" assignment gives none
unfoldable pub field_of : Text → Text → Option Text
unfolding text_eq trim split_once
field_of name l = elim (split_once (b'=' ∷ []) l) [
  | none ↦ none
  | some (k, v) ↦
      if text_eq (trim k) name && (not (contains_char b':' k) && not (contains_char b'?' k))
      then some (trim v)
      else none
]

-- the first line that gives a value counts
unfoldable pub field : Text → Text → Option Text
unfolding field_of find_map lines
field name text = find_map (field_of name) (lines text)

unfoldable pub number : Text → Text → Result MakefileError ℕ
number name text = do
  v ← context (no_line name) (field name text)
  context (not_a_number name v) (parse_unsigned u32_max v)

-- the characters that a kernel version can use
abbrev pub version_char : ℕ → Bool
version_char c = is_alphanumeric c || contains_char c (codes "._+-")

unfoldable pub parse_makefile : Text → Result MakefileError SourceVersion
parse_makefile text = do
  let extra = or_default [] (field (codes "EXTRAVERSION") text)
  guard (all version_char extra) (bad_extraversion extra)
  v ← number (codes "VERSION") text
  p ← number (codes "PATCHLEVEL") text
  s ← number (codes "SUBLEVEL") text
  ok (record { version = v; patchlevel = p; sublevel = s; extraversion = extra })
