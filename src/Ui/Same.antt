-- ===== src/Ui/Same.antt =====
-- The equality that Rust derives for finished builds.
use kernel_pop.Prelude.{Bool, true, false, ◌&&◌, List, [], ◌∷◌, ◌≡◌, refl, &&_both}
use kernel_pop.Text.{Text, text_eq, text_eq_sound}
use kernel_pop.Ui.State.{Finished}

abbrev pub same_texts : List Text → List Text → Bool
same_texts [] [] = true
same_texts [] (t ∷ ts) = false
same_texts (s ∷ ss) [] = false
same_texts (s ∷ ss) (t ∷ ts) = text_eq s t && same_texts ss ts

unfoldable pub same_finished : Finished → Finished → Bool
same_finished a b =
    same_texts a.dir b.dir
    && (text_eq a.set.kernelrelease b.set.kernelrelease
        && (same_texts a.set.debs b.set.debs && text_eq a.set.source b.set.source))

pub same_texts_sound : (s t : List Text) → same_texts s t ≡ true → s ≡ t
same_texts_sound [] [] h = refl
same_texts_sound [] (t ∷ ts) h = cc
same_texts_sound (s ∷ ss) [] h = cc
same_texts_sound (s ∷ ss) (t ∷ ts) h =
    let (a, b) = &&_both (text_eq s t) (same_texts ss ts) h in
    rw (text_eq_sound s t a, same_texts_sound ss ts b)

pub same_finished_sound : (a b : Finished) → same_finished a b ≡ true → a ≡ b
unfolding same_finished
same_finished_sound a b h =
    let (h1, r1) = &&_both (same_texts a.dir b.dir) _ h in
    let (h2, r2) = &&_both (text_eq a.set.kernelrelease b.set.kernelrelease) _ r1 in
    let (h3, h4) =
      &&_both (same_texts a.set.debs b.set.debs) (text_eq a.set.source b.set.source) r2 in
    let e1 = same_texts_sound a.dir b.dir h1 in
    let e2 = text_eq_sound a.set.kernelrelease b.set.kernelrelease h2 in
    let e3 = same_texts_sound a.set.debs b.set.debs h3 in
    let e4 = text_eq_sound a.set.source b.set.source h4 in
    λ i. record { dir = e1 i; set = record { kernelrelease = e2 i; debs = e3 i; source = e4 i } }
