-- ===== src/Build/Texts.antt =====
-- The texts that src/build.rs reads and writes: package lists, configurations, module lists, and the
-- output of make.
pub mod Quoted
use kernel_pop.Prelude.{
  ℕ, ◌+◌, ◌*◌, Bool, true, false, not, Option, none, some, [], ◌∷◌, ◌++◌, ◌&&◌, ◌||◌, ◌==◌,
  if◌then◌else◌, List, any, all, keep, filter_map, find_map, length, ltb, or_default,
}
use mathlib.Core.List.{map}
use kernel_pop.Text.{
  Text, codes, lines, split_once, split_char, split_whitespace, starts_with, ends_with,
  strip_prefix, text_eq, trim, contains, trim_start,
}

-- the first part of `split`
abbrev pub first_part : Text → List Text → Text
first_part d [] = d
first_part d (p ∷ ps) = p

-- the package of a line "<package> <status>", if it is installed
unfoldable pub installed_in : Text → Option Text
unfolding split_once trim starts_with split_char
installed_in l = elim (split_once (codes " ") l) [
  | none ↦ none
  | some (pkg, st) ↦
      if starts_with (codes "ii") (trim st)
      then some (first_part pkg (split_char b':' pkg))
      else none
]

-- `deps` is BUILD_DEPS
unfoldable pub missing_from_dpkg_query : List Text → Text → List Text
missing_from_dpkg_query deps output =
    let installed = filter_map installed_in (lines output) in
    keep (λ p. not (any (text_eq p) installed)) deps

unfoldable pub config_value : Text → Text → Option Text
unfolding strip_prefix lines find_map
config_value config name =
    find_map (strip_prefix (codes "CONFIG_" ++ (name ++ codes "="))) (lines config)

unfoldable pub module_count : Text → ℕ
unfolding starts_with ends_with lines
module_count config =
    length (keep (λ l. starts_with (codes "CONFIG_") l && ends_with (codes "=m") l) (lines config))

-- the error behind "*** "
abbrev pub error_of : Text → Option Text
error_of l = elim (split_once (codes "*** ") l) [ none ↦ none | some (_, e) ↦ some e ]

unfoldable pub is_archive_error : Text → Bool
unfolding starts_with contains strip_prefix split_once ends_with
is_archive_error e =
    (starts_with (codes "[") e && contains (codes "] Error ") e)
    || elim (strip_prefix (codes "No rule to make target '") e) [
      | none ↦ false
      | some r ↦ elim (split_once (codes "'") r) [
        | none ↦ false
        | some (t, _) ↦ ends_with (codes ".a") t
      ]
    ]

unfoldable pub only_archive_errors : Text → Bool
unfolding split_once filter_map is_archive_error lines
only_archive_errors stderr = all is_archive_error (filter_map error_of (lines stderr))

abbrev pub is_object : Text → Bool
is_object f = ends_with (codes ".o") f && not (ends_with (codes ".mod.o") f)

abbrev pub is_tool : Text → Bool
is_tool w = text_eq w (codes "CC") || text_eq w (codes "AS")

-- the words behind CC or AS, and those behind "[M]"
unfoldable pub object_words : List Text → Bool
unfolding text_eq ends_with
object_words [] = false
object_words (f ∷ []) = not (text_eq f (codes "[M]")) && is_object f
object_words (m ∷ f ∷ []) = text_eq m (codes "[M]") && is_object f
object_words (m ∷ f ∷ x ∷ ws) = false

unfoldable pub is_object_line : Text → Bool
unfolding object_words text_eq split_whitespace
is_object_line l = elim (split_whitespace l) [ [] ↦ false | w ∷ ws ↦ is_tool w && object_words ws ]

unfoldable pub is_packaging_line : Text → Bool
unfolding starts_with
is_packaging_line l =
    starts_with (codes "dpkg-deb: building package") l
    || starts_with (codes "INSTALL debian/") (trim_start l)

unfoldable pub normalize_module : Text → Text
normalize_module name = map (λ c. if c == b'-' then b'_' else c) (trim name)

abbrev pub first_word : Text → Option Text
first_word l = elim (split_whitespace l) [ [] ↦ none | w ∷ ws ↦ some w ]

unfoldable pub parse_proc_modules : Text → List Text
unfolding normalize_module
parse_proc_modules text = map normalize_module (filter_map first_word (lines text))

abbrev pub lsmod_head : Text
lsmod_head = codes "Module                  Size  Used by\n"

unfoldable pub lsmod_lines : List Text → Text
lsmod_lines [] = []
lsmod_lines (m ∷ ms) = m ++ (codes " 0 0\n" ++ lsmod_lines ms)

unfoldable pub lsmod_text : List Text → Text
unfolding lsmod_lines
lsmod_text modules = lsmod_head ++ lsmod_lines modules

-- `s.replace('\'', "'\\''")`
unfoldable pub escape_quotes : Text → Text
escape_quotes [] = []
escape_quotes (c ∷ t) = if c == b'\'' then codes "'\\''" ++ escape_quotes t else c ∷ escape_quotes t

unfoldable pub shell_quote : Text → Text
unfolding escape_quotes
shell_quote s = codes "'" ++ (escape_quotes s ++ codes "'")
