-- ===== src/Build/Run/Picked.antt =====
-- The packages that a build in src/build.rs keeps, and what it leaves behind.
use mathlib.Core.Path.{subst}
use kernel_pop.Prelude.{
  ok_injective, context-some, All-map, ap, sym, Bool, true, false, not, ◌||◌, if◌then◌else◌, some,
  List, [], ◌∷◌, ◌≡◌, refl, ok, context, guard_passed, >>=-eq-ok, any, All, Elem, ◌⊎◌, inl, inr,
  Bool-cases,
}
use kernel_pop.Text.{Text, text_eq, text_eq_sound}
use kernel_pop.Build.Run.{
  RootEntry, image_name, headers_name, not_a_package, no_image, pick, pick_packages,
}

-- a package of the build root that is the image or the headers of the kernel
abbrev pub IsPicked : Text → List RootEntry → Text × Text → Type 0
IsPicked krel es (name, pkg) =
    ((e : RootEntry) × Elem e es
      × (e.is_deb ≡ true)
      × (e.name ≡ name)
      × (e.package_field ≡ some pkg))
    × ((pkg ≡ image_name krel) ⊎ (pkg ≡ headers_name krel))

IsPicked-cons :
    (krel : Text) (e : RootEntry) (es : List RootEntry) (x : Text × Text)
    → IsPicked krel es x
    → IsPicked krel (e ∷ es) x
IsPicked-cons krel e es (name, pkg) ((f, at_f, deb, n, pk), named) =
    ((f, inr at_f, deb, n, pk), named)

either_name :
    (krel pkg : Text)
    → (text_eq pkg (image_name krel) || text_eq pkg (headers_name krel)) ≡ true
    → (pkg ≡ image_name krel) ⊎ (pkg ≡ headers_name krel)
either_name krel pkg h = elim (Bool-cases (text_eq pkg (image_name krel))) [
  | inl i ↦ inl (text_eq_sound pkg (image_name krel) i)
  | inr i ↦ inr (text_eq_sound pkg (headers_name krel) (rw i at h))
]

pick-IsPicked :
    (krel : Text) (es : List RootEntry) {kept : List (Text × Text)}
    → pick krel es ≡ ok kept
    → All (IsPicked krel es) kept
unfolding pick
pick-IsPicked krel [] h = subst (All (IsPicked krel [])) (ok_injective refl h) tt
pick-IsPicked krel (e ∷ es) h = elim (Bool-cases e.is_deb) [
  | inr other ↦
      All-map (IsPicked krel es) (IsPicked krel (e ∷ es)) _ (IsPicked-cons krel e es)
        (pick-IsPicked krel es (skipped e.is_deb _ _ other h))
  | inl deb ↦
      let h0 = taken e.is_deb _ _ deb h in
      let (pkg, named, h1) = >>=-eq-ok (context (not_a_package e.name) e.package_field) _ h0 in
      let (rest, picked, h2) = >>=-eq-ok (pick krel es) _ h1 in
      let later =
        All-map (IsPicked krel es) (IsPicked krel (e ∷ es)) rest (IsPicked-cons krel e es)
          (pick-IsPicked krel es picked) in
      let there = context-some (not_a_package e.name) e.package_field named in
      subst (All (IsPicked krel (e ∷ es))) (ok_injective refl h2) (
        kept_by (IsPicked krel (e ∷ es))
          (text_eq pkg (image_name krel) || text_eq pkg (headers_name krel)) rest later
          (λ is. ((e, inl refl, deb, refl, there), either_name krel pkg is)))
]
  where
    skipped :
        {A : Type 0} (b : Bool) (x y : A) {z : A} → b ≡ false → (if not b then x else y) ≡ z → x ≡ z
    skipped true x y f g = cc
    skipped false x y f g = g

    taken :
        {A : Type 0} (b : Bool) (x y : A) {z : A} → b ≡ true → (if not b then x else y) ≡ z → y ≡ z
    taken true x y f g = g
    taken false x y f g = cc

    kept_by :
        (P : Text × Text → Type 0) {x : Text × Text} (b : Bool) (rest : List (Text × Text))
        → All P rest
        → (b ≡ true → P x)
        → All P (if b then x ∷ rest else rest)
    kept_by P true rest later here = (here refl, later)
    kept_by P false rest later here = later

-- A build that can be published has the image package of its kernel, and every package that it takes
-- along is a "deb" file of the build root whose Package field names the image or the headers.
pub pick_packages-IsPicked :
    (krel : Text) (es : List RootEntry) {kept : List (Text × Text)}
    → pick_packages krel es ≡ ok kept
    → All (IsPicked krel es) kept × ((name : Text) × Elem (name, image_name krel) kept)
unfolding pick_packages
pick_packages-IsPicked krel es h =
    let (found, picked, h1) = >>=-eq-ok (pick krel es) _ h in
    let (there, h2) =
      guard_passed (any (λ (n, pkg). text_eq pkg (image_name krel)) found)
        (no_image (image_name krel)) h1 in
    let same = ok_injective refl h2 in
    (
      subst (All (IsPicked krel es)) same (pick-IsPicked krel es picked),
      subst (λ ks. (name : Text) × Elem (name, image_name krel) ks) same (any-image found there),
    )
  where
    any-image :
        (ks : List (Text × Text))
        → any (λ (n, pkg). text_eq pkg (image_name krel)) ks ≡ true
        → (name : Text) × Elem (name, image_name krel) ks
    any-image [] f = cc
    any-image ((n, pkg) ∷ ks) f = elim (Bool-cases (text_eq pkg (image_name krel))) [
      | inl i ↦ (n, inl (ap (λ q. (n, q)) (sym (text_eq_sound pkg (image_name krel) i))))
      | inr i ↦ let (m, e) = any-image ks (rw i at f) in (m, inr e)
    ]
