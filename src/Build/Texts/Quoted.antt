-- ===== src/Build/Texts/Quoted.antt =====
-- `shell_quote` of src/build.rs, against the quoting of a POSIX shell.
use kernel_pop.Prelude.{
  Bool, true, false, Option, none, some, [], ◌∷◌, ◌++◌, ◌==◌, if◌then◌else◌, map_option, ◌≡◌, refl,
  arith, Bool-cases, inl, inr, ◌∙◌,
}
use kernel_pop.Text.{Text, codes}
use kernel_pop.Build.Texts.{escape_quotes, shell_quote}

-- What a POSIX shell makes of one word: between quotes each character stands for itself, outside
-- them a backslash takes the next character as it is. None: a quote is not closed, or a white space
-- or another character with a meaning of its own ends the word.
unfoldable pub sh_word : Bool → Text → Option Text
sh_word true [] = none
sh_word true (c ∷ t) =
    let closed = sh_word false t in
    let quoted = sh_word true t in if c == b'\'' then closed else map_option (λ s. c ∷ s) quoted
sh_word false [] = some []
sh_word false (c ∷ []) = none
sh_word false (c ∷ d ∷ t) =
    let opened = sh_word true (d ∷ t) in
    let escaped = sh_word false t in
    if c == b'\'' then opened else if c == b'\\' then map_option (λ s. d ∷ s) escaped else none

open_quote : (t : Text) → sh_word false (b'\'' ∷ (t ++ codes "'")) ≡ sh_word true (t ++ codes "'")
unfolding sh_word
open_quote [] = refl
open_quote (c ∷ t) = refl

escape_quotes-sh_word : (s : Text) → sh_word true (escape_quotes s ++ codes "'") ≡ some s
unfolding sh_word escape_quotes
escape_quotes-sh_word [] = refl
escape_quotes-sh_word (c ∷ s) = elim (Bool-cases (c == b'\'')) [
  | inl quote ↦ ground (arith, quote, open_quote (escape_quotes s), escape_quotes-sh_word s)
  | inr plain ↦ ground (arith, plain, escape_quotes-sh_word s)
]

-- A shell reads a quoted text as that text, whatever it holds.
pub shell_quote-sh_word : (s : Text) → sh_word false (shell_quote s) ≡ some s
unfolding shell_quote
shell_quote-sh_word s = open_quote (escape_quotes s) ∙ escape_quotes-sh_word s
