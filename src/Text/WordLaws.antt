-- ===== src/Text/WordLaws.antt =====
-- Words: text that is written with single spaces is split into the same words.
use kernel_pop.Prelude.{ℕ, ◌≡◌, ◌≢◌, refl, ap, ◌∙◌, true, [], ◌∷◌, ◌++◌, rev, rev_onto}
use kernel_pop.Text.Chars.{Text, is_whitespace}
use kernel_pop.Text.Pieces.{split_by_onto, split_by, split_whitespace, drop_empty}
use kernel_pop.Text.SliceLaws.{NoSpace}
use kernel_pop.Text.LineLaws.{rev-rev}

split_by_onto-append :
    (cur a b : Text) (c : ℕ)
    → NoSpace a
    → is_whitespace c ≡ true
    → split_by_onto is_whitespace cur (a ++ c ∷ b) ≡ rev (rev_onto a cur) ∷ split_by is_whitespace b
unfolding split_by
split_by_onto-append cur [] b c h w = rw (w, split_by_onto)
split_by_onto-append cur (d ∷ a) b c (h, k) w =
    rw (h, split_by_onto) (split_by_onto-append (d ∷ cur) a b c k w)

split_by_onto-last :
    (cur a : Text) → NoSpace a → split_by_onto is_whitespace cur a ≡ rev (rev_onto a cur) ∷ []
unfolding split_by
split_by_onto-last cur [] h = refl
split_by_onto-last cur (d ∷ a) (h, k) = rw (h, split_by_onto) (split_by_onto-last (d ∷ cur) a k)

-- The first word, if a text starts with one.
pub split_whitespace-append :
    (x : ℕ) (a b : Text) (c : ℕ)
    → NoSpace (x ∷ a)
    → is_whitespace c ≡ true
    → split_whitespace ((x ∷ a) ++ c ∷ b) ≡ (x ∷ a) ∷ split_whitespace b
unfolding split_whitespace split_by
split_whitespace-append x a b c h w = ap drop_empty (
    split_by_onto-append [] (x ∷ a) b c h w
    ∙ ap (λ t. t ∷ split_by is_whitespace b) (rev-rev (x ∷ a)))

-- A text that is one word.
pub split_whitespace-word :
    (x : ℕ) (a : Text) → NoSpace (x ∷ a) → split_whitespace (x ∷ a) ≡ (x ∷ a) ∷ []
unfolding split_whitespace split_by
split_whitespace-word x a h =
    ap drop_empty (split_by_onto-last [] (x ∷ a) h ∙ ap (λ t. t ∷ []) (rev-rev (x ∷ a)))

-- The same, for words that are known not to be empty.
pub split_whitespace-next :
    (a b : Text) (c : ℕ)
    → a ≢ []
    → NoSpace a
    → is_whitespace c ≡ true
    → split_whitespace (a ++ c ∷ b) ≡ a ∷ split_whitespace b
split_whitespace-next [] b c ne h w = absurd (ne refl)
split_whitespace-next (x ∷ a) b c ne h w = split_whitespace-append x a b c h w
