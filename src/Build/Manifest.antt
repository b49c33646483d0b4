-- ===== src/Build/Manifest.antt =====
-- The SHA256SUMS manifest and the release string of src/build.rs.
pub mod RoundTrip
pub mod Safe
use Prim.Native.Nat.{Ordering}
use kernel_pop.Prelude.{
  ℕ, Bool, true, false, not, Option, none, some, [], ◌∷◌, ◌&&◌, ◌||◌, ◌++◌, ◌==◌, if◌then◌else◌,
  List, length, all, keep, Result, ok, err, guard, context, ◌>>=◌, ◌>>◌,
}
use mathlib.Core.List.{map}
use kernel_pop.Text.{
  Text, codes, is_alphanumeric, is_hexdigit, ascii_lower, contains, contains_char, starts_with,
  ends_with, split_once, lines, trim, text_eq,
}
use kernel_pop.System.Versions.{lex}

abbrev pub release_char : ℕ → Bool
release_char c = is_alphanumeric c || contains_char c (codes "._+-")

abbrev pub starts_alphanumeric : Text → Bool
starts_alphanumeric [] = false
starts_alphanumeric (c ∷ t) = is_alphanumeric c

unfoldable pub valid_release : Text → Bool
unfolding contains
valid_release s = starts_alphanumeric s && (all release_char s && not (contains (codes "..") s))

-- `BTreeMap<String, String>`: the entries in the order of their keys (UTF-8 keeps the order of the
-- code points)
abbrev pub Manifest : Type 0
Manifest = List (Text × Text)

unfoldable pub insert : Text → Text → Manifest → Manifest
unfolding lex
insert name hash [] = (name, hash) ∷ []
insert name hash ((n, h) ∷ m) = elim (lex name n) [
  | Ordering.lt ↦ (name, hash) ∷ (n, h) ∷ m
  | Ordering.eq ↦ (n, hash) ∷ m
  | Ordering.gt ↦ (n, h) ∷ insert name hash m
]

pub data ManifestError : Type 0 where
  bad_line bad_hash bad_name : Text → ManifestError
  no_packages : ManifestError

abbrev pub is_hash : Text → Bool
is_hash hash = length hash == 64 && all is_hexdigit hash

unfoldable pub is_deb_name : Text → Bool
unfolding starts_with ends_with
is_deb_name name =
    not (contains_char b'/' name)
    && (not (starts_with (codes ".") name) && ends_with (codes ".deb") name)

-- one line that is not blank
unfoldable pub parse_entry : Text → Result ManifestError (Text × Text)
parse_entry line = do
  (hash, name) ← context (bad_line line) (split_once (codes "  ") line)
  guard (is_hash hash) (bad_hash line)
  guard (is_deb_name name) (bad_name line)
  ok (name, map ascii_lower hash)

unfoldable pub parse_entries : Manifest → List Text → Result ManifestError Manifest
parse_entries m [] = ok m
parse_entries m (l ∷ ls) = do (name, hash) ← parse_entry l; parse_entries (insert name hash m) ls

abbrev pub non_empty : Manifest → Result ManifestError Manifest
non_empty [] = err no_packages
non_empty (e ∷ m) = ok (e ∷ m)

unfoldable pub parse_manifest : Text → Result ManifestError Manifest
parse_manifest text =
    parse_entries [] (keep (λ l. not (text_eq (trim l) [])) (lines text)) >>= non_empty

unfoldable pub manifest_text : Manifest → Text
manifest_text [] = []
manifest_text ((name, hash) ∷ m) = (hash ++ (codes "  " ++ name)) ++ 10 ∷ manifest_text m
