-- ===== src/Text/Pieces.antt =====
-- Splitting and joining: `split`, `lines`, `split_whitespace`, `join`.
use kernel_pop.Prelude.{ℕ, Bool, true, false, List, [], ◌∷◌, ◌++◌, ◌==◌, if◌then◌else◌, rev}
use kernel_pop.Text.Chars.{Text, is_whitespace}

-- `text.split(test)`; there is always a part, and `cur` is the one begun, in reverse.
unfoldable pub split_by_onto : (ℕ → Bool) → Text → Text → List Text
split_by_onto p cur [] = rev cur ∷ []
split_by_onto p cur (c ∷ t) = elim (p c) [
  | true ↦ rev cur ∷ split_by_onto p [] t
  | false ↦ split_by_onto p (c ∷ cur) t
]

unfoldable pub split_by : (ℕ → Bool) → Text → List Text
unfolding split_by_onto
split_by p t = split_by_onto p [] t

unfoldable pub split_char : ℕ → Text → List Text
unfolding split_by
split_char c t = split_by (λ d. d == c) t

abbrev pub drop_empty : List Text → List Text
drop_empty [] = []
drop_empty ([] ∷ ts) = drop_empty ts
drop_empty ((c ∷ t) ∷ ts) = (c ∷ t) ∷ drop_empty ts

unfoldable pub split_whitespace : Text → List Text
unfolding split_by
split_whitespace t = drop_empty (split_by is_whitespace t)

-- a line ending is "\n" or "\r\n"; what is begun is in reverse
abbrev pub end_line : Text → Text
end_line [] = []
end_line (c ∷ cur) = if c == 13 then rev cur else rev (c ∷ cur)

abbrev pub last_line : Text → List Text
last_line [] = []
last_line (d ∷ cur) = rev (d ∷ cur) ∷ []

-- the last line needs no ending, and a "\r" that ends the text stays
unfoldable pub lines_onto : Text → Text → List Text
lines_onto cur [] = last_line cur
lines_onto cur (c ∷ t) = elim (c == 10) [
  | true ↦ end_line cur ∷ lines_onto [] t
  | false ↦ lines_onto (c ∷ cur) t
]

unfoldable pub lines : Text → List Text
unfolding lines_onto
lines t = lines_onto [] t

unfoldable pub join : Text → List Text → Text
join sep [] = []
join sep (t ∷ []) = t
join sep (t ∷ u ∷ ts) = t ++ sep ++ join sep (u ∷ ts)
