-- ===== src/System/Versions.antt =====
-- The order of kernel versions in src/system.rs: `version_key` and `compare_to_running`.
pub mod Order
pub mod Candidates
pub mod Relation
use Prim.Native.Nat.{compare, Ordering}
use kernel_pop.Prelude.{
  ℕ, ◌+◌, Bool, true, false, not, Option, none, some, [], ◌∷◌, ◌&&◌, ◌||◌, ◌++◌, ◌==◌,
  if◌then◌else◌, List, filter_map, or_default, ltb, length,
}
use kernel_pop.Text.{
  Text, codes, is_digit, split_by, strip_prefix, parse_unsigned, u32_max, split_char,
}

-- the text up to the first character that fails the test, and the rest
unfoldable pub span : (ℕ → Bool) → Text → Text × Text
span p [] = ([], [])
span p (c ∷ t) = let (a, b) = span p t in if p c then (c ∷ a, b) else ([], c ∷ t)

-- the numbers between characters that are no digits; one that does not fit is left out
unfoldable pub numbers : Text → List ℕ
unfolding split_by parse_unsigned filter_map
numbers t = filter_map (parse_unsigned u32_max) (split_by (λ c. not (is_digit c)) t)

abbrev pub release_char : ℕ → Bool
release_char c = is_digit c || c == b'.'

-- the key behind the release: 0 and N for "-rcN", 1 for anything else
unfoldable pub rest_key : Text → Option (Text × Text) → List ℕ
unfolding numbers
rest_key rest none = 1 ∷ numbers rest
rest_key rest (some ([], after)) = 1 ∷ numbers rest
rest_key rest (some (c ∷ n, after)) =
    0 ∷ or_default 0 (parse_unsigned u32_max (c ∷ n)) ∷ numbers after

-- the number and the rest behind "-rc"
unfoldable pub rc_part : Text → Option (Text × Text)
unfolding strip_prefix span
rc_part rest = elim (strip_prefix (codes "-rc") rest) [
  | none ↦ none
  | some r ↦ some (span is_digit r)
]

unfoldable pub version_key : Text → List ℕ
unfolding numbers rest_key rc_part span
version_key version =
    let (release, rest) = span release_char version in
    numbers release ++ rest_key rest (rc_part rest)

-- `Vec<u32>` in its lexicographic order
unfoldable pub lex : List ℕ → List ℕ → Ordering
lex [] [] = Ordering.eq
lex [] (y ∷ ys) = Ordering.lt
lex (x ∷ xs) [] = Ordering.gt
lex (x ∷ xs) (y ∷ ys) = elim (compare x y) [
  | Ordering.lt ↦ Ordering.lt
  | Ordering.eq ↦ lex xs ys
  | Ordering.gt ↦ Ordering.gt
]

pub data VersionRelation : Type 0 where
  newer same older unknown : VersionRelation

-- the numbers of the dotted head; "7.1" is padded to three
unfoldable pub dotted : Text → List ℕ
unfolding split_char parse_unsigned filter_map span
dotted t =
    let (head, _) = span release_char t in
    filter_map (parse_unsigned u32_max) (split_char b'.' head)

unfoldable pub pad : List ℕ → List ℕ
pad [] = 0 ∷ 0 ∷ 0 ∷ []
pad (a ∷ []) = a ∷ 0 ∷ 0 ∷ []
pad (a ∷ b ∷ []) = a ∷ b ∷ 0 ∷ []
pad (a ∷ b ∷ c ∷ r) = a ∷ b ∷ c ∷ r

abbrev pub relation_of : Ordering → VersionRelation
relation_of Ordering.gt = newer
relation_of Ordering.eq = same
relation_of Ordering.lt = older

unfoldable pub relate : List ℕ → List ℕ → VersionRelation
unfolding pad lex
relate [] cv = unknown
relate (r ∷ rv) [] = unknown
relate (r ∷ rv) (c ∷ cv) = relation_of (lex (pad (c ∷ cv)) (pad (r ∷ rv)))

unfoldable pub compare_to_running : Text → Text → VersionRelation
unfolding dotted relate
compare_to_running running candidate = relate (dotted running) (dotted candidate)
