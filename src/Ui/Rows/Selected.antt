-- ===== src/Ui/Rows/Selected.antt =====
-- Clicking a row of the release list of src/ui.rs selects the release that the row shows.
use kernel_pop.Prelude.{
  Bool, true, false, ◌||◌, some, List, [], ◌∷◌, any, keep, find, ◌≡◌, refl, sym, ap, ◌∙◌, arith,
  Elem, Elem-keep, inl, inr, Bool-cases,
}
use mathlib.Core.List.{map}
use kernel_pop.Text.{Text, text_eq, text_eq_refl, text_eq_sym}
use kernel_pop.Releases.{Release}
use kernel_pop.Ui.State.{AppState}
use kernel_pop.Ui.Handlers.{select_release}
use kernel_pop.Ui.Answers.{retain_first, releases_listed}
use kernel_pop.Ui.Rows.{ReleaseRow, release_row, matches, populate_list}

or_false : (a b : Bool) → (a || b) ≡ false → (a ≡ false) × (b ≡ false)
or_false a b h = ground arith

-- a version that was seen before is not kept
retain_first-unseen :
    (seen : List Text) (rs : List Release) (x : Release)
    → Elem x (retain_first seen rs)
    → any (text_eq x.version) seen ≡ false
unfolding retain_first
retain_first-unseen seen [] x e = elim e [ ]
retain_first-unseen seen (r ∷ rs) x e = elim (Bool-cases (any (text_eq r.version) seen)) [
  | inl old ↦ retain_first-unseen seen rs x (rw old at e)
  | inr fresh ↦ elim (rw fresh at e) [
    | inl same ↦ ap (λ (y : Release). any (text_eq y.version) seen) same ∙ fresh
    | inr far ↦
        (or_false (text_eq x.version r.version) (any (text_eq x.version) seen)
          (retain_first-unseen (r.version ∷ seen) rs x far)).1
  ]
]

find-retain_first :
    (seen : List Text) (rs : List Release) (x : Release)
    → Elem x (retain_first seen rs)
    → find (λ r. text_eq r.version x.version) (retain_first seen rs) ≡ some x
unfolding retain_first
find-retain_first seen [] x e = elim e [ ]
find-retain_first seen (r ∷ rs) x e = elim (Bool-cases (any (text_eq r.version) seen)) [
  | inl old ↦ rw old (find-retain_first seen rs x (rw old at e))
  | inr fresh ↦ elim (rw fresh at e) [
    | inl same ↦
        let found : text_eq r.version x.version ≡ true =
          ap (λ (y : Release). text_eq r.version y.version) same ∙ text_eq_refl r.version in
        rw (fresh, found) (ap some (sym same))
    | inr far ↦
        let unseen = retain_first-unseen (r.version ∷ seen) rs x far in
        let (differs, _) =
          or_false (text_eq x.version r.version) (any (text_eq x.version) seen) unseen in
        let other : text_eq r.version x.version ≡ false =
          text_eq_sym r.version x.version ∙ differs in
        rw (fresh, other) (find-retain_first (r.version ∷ seen) rs x far)
  ]
]

Elem-map :
    {A B : Type 0} (f : A → B) (y : B) (xs : List A)
    → Elem y (map f xs)
    → (x : A) × Elem x xs × (y ≡ f x)
Elem-map f y [] e = elim e [ ]
Elem-map f y (x ∷ xs) (inl same) = (x, inl refl, same)
Elem-map f y (x ∷ xs) (inr far) = let (z, at, is) = Elem-map f y xs far in (z, inr at, is)

-- Whatever kernel.org lists, also one version twice, and whatever filter is typed: each row that is
-- shown is that of a listed release, and selecting it, by its title, selects that very release.
pub select_release-row :
    (to_lowercase : Text → Text) (listed : List Release) (filter running : Text) (s : AppState)
    (row : ReleaseRow)
    → let after = releases_listed (some listed) s in
      Elem row (populate_list to_lowercase after.releases filter running)
      → (r : Release) × Elem r (releases_listed (some listed) s).releases
        × (row ≡ release_row running r)
        × ((select_release (some row.title) (releases_listed (some listed) s)).selected_release
            ≡ some r)
unfolding populate_list releases_listed select_release release_row
select_release-row to_lowercase listed filter running s row e =
    let shown = keep (matches (to_lowercase filter)) (retain_first [] listed) in
    let (r, at, is) = Elem-map (release_row running) row shown e in
    let (there, _) = Elem-keep (matches (to_lowercase filter)) r (retain_first [] listed) at in
    let title : row.title ≡ r.version = ap (λ (w : ReleaseRow). w.title) is in
    (
      r,
      there,
      is,
      ap (λ t. find (λ q. text_eq q.version t) (retain_first [] listed)) title
          ∙ find-retain_first [] listed r there,
    )
