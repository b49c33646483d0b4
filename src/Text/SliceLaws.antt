-- ===== src/Text/SliceLaws.antt =====
-- Prefixes, first occurrences and trimming.
use kernel_pop.Prelude.{
  ℕ, ◌≡◌, ◌≢◌, rev_onto, refl, sym, ap, ◌∙◌, true, false, [], ◌∷◌, ◌++◌, arith, All, All-map,
  Option-cases, inl, inr, rev, some, none,
}
use mathlib.Core.List.{cons-ne-nil}
use mathlib.Core.Bool.{false≢true}
use kernel_pop.Text.Chars.{Text, is_whitespace}
use kernel_pop.Text.Slices.{strip_prefix, starts_with, split_once, trim, trim_start, trim_end}
use kernel_pop.Text.Numbers.{decimal}
use kernel_pop.Text.DecimalRoundTrip.{IsDigit, decimal-All}
use kernel_pop.Text.LineLaws.{Lacks, All-rev_onto, rev-rev}

pub strip_prefix-append : (p t : Text) → strip_prefix p (p ++ t) ≡ some t
unfolding strip_prefix
strip_prefix-append [] t = refl
strip_prefix-append (c ∷ p) t = ground (arith, strip_prefix-append p t)

-- What is left behind a prefix, put behind the prefix, is the text.
pub append-strip_prefix : (p t : Text) {r : Text} → strip_prefix p t ≡ some r → t ≡ p ++ r
unfolding strip_prefix
append-strip_prefix [] t h = ground arith
append-strip_prefix (c ∷ p) [] h = ground arith
append-strip_prefix (c ∷ p) (d ∷ t) {r} h = ground (arith, append-strip_prefix p t {r = r})

pub starts_with-append : (p t : Text) → starts_with p t ≡ true → (r : Text) × (t ≡ p ++ r)
unfolding starts_with
starts_with-append p t h = elim (Option-cases (strip_prefix p t)) [
  | inl e ↦ absurd (false≢true (sym (rw e) ∙ h))
  | inr (r, e) ↦ (r, append-strip_prefix p t e)
]

-- A text is cut at the first place of a character.
pub split_once-append :
    (c : ℕ) (a b : Text) → Lacks c a → split_once (c ∷ []) (a ++ c ∷ b) ≡ some (a, b)
unfolding split_once
split_once-append c [] b h = ground arith
split_once-append c (d ∷ a) b h = ground (arith, split_once-append c a b)

pub split_once-Lacks : (c : ℕ) (t : Text) → Lacks c t → split_once (c ∷ []) t ≡ none
unfolding split_once
split_once-Lacks c [] h = refl
split_once-Lacks c (d ∷ t) h = ground (arith, split_once-Lacks c t)

abbrev pub NoSpace : Text → Type 0
NoSpace = All (λ c. is_whitespace c ≡ false)

trim_start-NoSpace : (t : Text) → NoSpace t → trim_start t ≡ t
unfolding trim_start
trim_start-NoSpace [] h = refl
trim_start-NoSpace (c ∷ t) (h, k) = rw h

pub trim-NoSpace : (t : Text) → NoSpace t → trim t ≡ t
unfolding trim
trim-NoSpace t h =
    ap trim_end (trim_start-NoSpace t h)
    ∙ ap rev (trim_start-NoSpace (rev t) (All-rev_onto (λ c. is_whitespace c ≡ false) t [] h tt))
    ∙ rev-rev t

-- A space before a text without white space is trimmed away.
pub trim_space : (t : Text) → NoSpace t → trim (32 ∷ t) ≡ t
unfolding trim
trim_space t h = trim-NoSpace t h

digit-space : (c : ℕ) → IsDigit c → is_whitespace c ≡ false
digit-space c h = ground arith

pub decimal-NoSpace : (n : ℕ) → NoSpace (decimal n)
decimal-NoSpace n = All-map _ _ (decimal n) digit-space (decimal-All n)

trim_start-rev_onto : (t ys : Text) → trim_start ys ≢ [] → trim_start (rev_onto t ys) ≢ []
unfolding trim_start
trim_start-rev_onto [] ys h = h
trim_start-rev_onto (d ∷ t) ys h = trim_start-rev_onto t (d ∷ ys) (ground arith)

rev_onto-ne-nil : (t ys : Text) → ys ≢ [] → rev_onto t ys ≢ []
rev_onto-ne-nil [] ys h = h
rev_onto-ne-nil (d ∷ t) ys h = rev_onto-ne-nil t (d ∷ ys) (cons-ne-nil d ys)

rev-ne-nil : (t : Text) → t ≢ [] → rev t ≢ []
rev-ne-nil [] h = h
rev-ne-nil (d ∷ t) h = rev_onto-ne-nil t (d ∷ []) (cons-ne-nil d [])

trim_start-head : (c : ℕ) (t : Text) → is_whitespace c ≡ false → trim_start (c ∷ t) ≡ c ∷ t
unfolding trim_start
trim_start-head c t h = rw h

trim_end-ne-nil : (c : ℕ) (t : Text) → is_whitespace c ≡ false → trim_end (c ∷ t) ≢ []
unfolding trim_end
trim_end-ne-nil c t h =
    rev-ne-nil (trim_start (rev (c ∷ t)))
      (trim_start-rev_onto t (c ∷ []) (λ e. cons-ne-nil c [] (sym (trim_start-head c [] h) ∙ e)))

-- A text that begins with more than white space is not blank.
pub trim-ne-nil : (c : ℕ) (t : Text) → is_whitespace c ≡ false → trim (c ∷ t) ≢ []
unfolding trim
trim-ne-nil c t h e = trim_end-ne-nil c t h (sym (ap trim_end (trim_start-head c t h)) ∙ e)
