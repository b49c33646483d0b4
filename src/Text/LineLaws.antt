-- ===== src/Text/LineLaws.antt =====
-- Lines: text that is written line by line is read line by line.
use kernel_pop.Prelude.{
  all, not, true, ◌==◌, ℕ, ◌≡◌, ◌≢◌, refl, ap, ◌∙◌, List, [], ◌∷◌, ◌++◌, append-nil, arith, All,
  rev, rev_onto, rev_onto-rev_onto,
}
use kernel_pop.Text.Chars.{Text}
use kernel_pop.Text.Pieces.{lines_onto, lines, end_line}

abbrev pub Lacks : ℕ → Text → Type 0
Lacks b = All (λ c. c ≢ b)

pub all-Lacks : (b : ℕ) (t : Text) → all (λ c. not (c == b)) t ≡ true → Lacks b t
all-Lacks b [] h = tt
all-Lacks b (c ∷ t) h = (ground arith, all-Lacks b t (ground arith))

lines_onto-append :
    (cur l rest : Text)
    → Lacks 10 l
    → lines_onto cur (l ++ 10 ∷ rest) ≡ end_line (rev_onto l cur) ∷ lines rest
unfolding lines
lines_onto-append cur [] rest h = refl
lines_onto-append cur (c ∷ l) rest h = ground (arith, lines_onto-append (c ∷ cur) l rest)

end_line-Lacks : (cur : Text) → Lacks 13 cur → end_line cur ≡ rev cur
end_line-Lacks [] h = refl
end_line-Lacks (c ∷ cur) h = ground arith

pub All-rev_onto {ℓ κ} :
    {A : Type ℓ} (P : A → Type κ) (xs ys : List A) → All P xs → All P ys → All P (rev_onto xs ys)
All-rev_onto P [] ys hx hy = hy
All-rev_onto P (x ∷ xs) ys (px, hx) hy = All-rev_onto P xs (x ∷ ys) hx (px, hy)

pub rev-rev {ℓ} : {A : Type ℓ} (xs : List A) → rev (rev xs) ≡ xs
rev-rev xs = rev_onto-rev_onto xs [] [] ∙ append-nil xs

-- The first line of a text is what stands before its first line feed.
pub lines-append :
    (l rest : Text) → Lacks 10 l → Lacks 13 l → lines (l ++ 10 ∷ rest) ≡ l ∷ lines rest
lines-append l rest h k =
    unfold lines in
    lines_onto-append [] l rest h
    ∙ ap (λ m. m ∷ lines_onto [] rest)
        (end_line-Lacks (rev l) (All-rev_onto (λ c. c ≢ 13) l [] k tt) ∙ rev-rev l)
