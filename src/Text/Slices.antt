-- ===== src/Text/Slices.antt =====
-- Prefixes, suffixes and searches: `starts_with`, `strip_prefix`, `ends_with`, `strip_suffix`,
-- `contains`, `split_once`, `trim`.
use kernel_pop.Prelude.{
  ℕ, Bool, Option, none, some, [], ◌∷◌, ◌==◌, if◌then◌else◌, is_some, map_option, rev, any,
}
use kernel_pop.Text.Chars.{Text, is_whitespace}

-- `text.strip_prefix(p)`; the needle comes first in all of these.
unfoldable pub strip_prefix : Text → Text → Option Text
strip_prefix [] t = some t
strip_prefix (c ∷ p) [] = none
strip_prefix (c ∷ p) (d ∷ t) = if c == d then strip_prefix p t else none

unfoldable pub starts_with : Text → Text → Bool
unfolding strip_prefix
starts_with p t = is_some (strip_prefix p t)

unfoldable pub strip_suffix : Text → Text → Option Text
unfolding strip_prefix
strip_suffix q t = map_option rev (strip_prefix (rev q) (rev t))

unfoldable pub ends_with : Text → Text → Bool
unfolding strip_prefix
ends_with q t = is_some (strip_prefix (rev q) (rev t))

-- the text before the first occurrence of `p`, and the text behind it
unfoldable pub split_once : Text → Text → Option (Text × Text)
unfolding strip_prefix
split_once p [] = map_option (λ r. ([], r)) (strip_prefix p [])
split_once p (c ∷ t) = elim (strip_prefix p (c ∷ t)) [
  | some r ↦ some ([], r)
  | none ↦ map_option (λ (b, r). (c ∷ b, r)) (split_once p t)
]

unfoldable pub contains : Text → Text → Bool
unfolding split_once
contains p t = is_some (split_once p t)

abbrev pub contains_char : ℕ → Text → Bool
contains_char c = any (λ d. d == c)

unfoldable pub trim_start : Text → Text
trim_start [] = []
trim_start (c ∷ t) = let rest = trim_start t in if is_whitespace c then rest else c ∷ t

unfoldable pub trim_end : Text → Text
unfolding trim_start
trim_end t = rev (trim_start (rev t))

unfoldable pub trim : Text → Text
unfolding trim_end
trim t = trim_end (trim_start t)
