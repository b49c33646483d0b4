-- ===== src/Prelude/Members.antt =====
-- Membership and counting in lists, by recursion.
use Prim.Native.Nat.{ℕ, zero, suc, ◌+◌, ◌≤◌}
use mathlib.Core.Path.{◌≡◌, refl, sym, ap, subst, ◌∙◌}
use mathlib.Core.Logic.{◌⊎◌, inl, inr}
use mathlib.Core.Bool.{Bool, true, not}
use mathlib.Core.Option.{Option, some}
use mathlib.Core.List.{List, [], ◌∷◌}
use native.Mathlib.Omega.{arith}
use kernel_pop.Prelude.Tests.{if◌then◌else◌, Bool-cases, Option-cases}
use kernel_pop.Prelude.Lists.{drop, keep, length, All, filter_map}

abbrev pub Elem : {A : Type 0} → A → List A → Type 0
Elem x [] = ⊥
Elem x (y ∷ ys) = (x ≡ y) ⊎ Elem x ys

module _ {κ} {A : Type 0} (P : A → Type κ) where
  pub All-Elem : (x : A) (xs : List A) → All P xs → Elem x xs → P x
  All-Elem x [] h e = elim e [ ]
  All-Elem x (y ∷ ys) (py, h) (inl e) = subst P (sym e) py
  All-Elem x (y ∷ ys) (py, h) (inr e) = All-Elem x ys h e

  pub Elem-All : (xs : List A) → ((x : A) → Elem x xs → P x) → All P xs
  Elem-All [] f = tt
  Elem-All (x ∷ xs) f = (f x (inl refl), Elem-All xs (λ y e. f y (inr e)))

module _ {A : Type 0} where
  pub Elem-drop : (n : ℕ) (x : A) (xs : List A) → Elem x (drop n xs) → Elem x xs
  Elem-drop zero x xs e = e
  Elem-drop (suc n) x [] e = e
  Elem-drop (suc n) x (y ∷ ys) e = inr (Elem-drop n x ys e)

  pub Elem-keep :
      (p : A → Bool) (x : A) (xs : List A) → Elem x (keep p xs) → Elem x xs × (p x ≡ true)
  Elem-keep p x [] e = elim e [ ]
  Elem-keep p x (y ∷ ys) e = elim (Bool-cases (p y)) [
    | inl h ↦ elim (rw h at e) [
      | inl same ↦ (inl same, ap p same ∙ h)
      | inr later ↦ let (m, k) = Elem-keep p x ys later in (inr m, k)
    ]
    | inr h ↦ let (m, k) = Elem-keep p x ys (rw h at e) in (inr m, k)
  ]

module _ {ℓ} {A : Type ℓ} where
  abbrev pub count : (A → Bool) → List A → ℕ
  count p [] = 0
  count p (x ∷ xs) = let rest = count p xs in if p x then suc rest else rest

module _ {ℓ} {A : Type ℓ} (p : A → Bool) where
  pub count-drop : (n : ℕ) (xs : List A) → count p (drop n xs) ≤ count p xs
  count-drop zero xs = omega arith
  count-drop (suc n) [] = omega arith
  count-drop (suc n) (x ∷ xs) = ground (arith, count-drop n xs)

  -- what is kept and what is not make up the list
  pub length-keep-count : (xs : List A) → length (keep (λ x. not (p x)) xs) + count p xs ≡ length xs
  length-keep-count [] = omega arith
  length-keep-count (x ∷ xs) = ground (arith, length-keep-count xs)

pub count-Elem :
    {A : Type 0} (p : A → Bool) (x : A) (xs : List A) → Elem x xs → p x ≡ true → 1 ≤ count p xs
count-Elem p x [] e h = elim e [ ]
count-Elem p x (y ∷ ys) (inl e) h = ground (arith, ap p e)
count-Elem p x (y ∷ ys) (inr e) h = ground (arith, count-Elem p x ys e h)

module _ {A B : Type 0} (f : A → Option B) where
  pub Elem-filter_map :
      (y : B) (xs : List A) → Elem y (filter_map f xs) → (x : A) × Elem x xs × (f x ≡ some y)
  unfolding filter_map
  Elem-filter_map y [] e = elim e [ ]
  Elem-filter_map y (x ∷ xs) e = elim (Option-cases (f x)) [
    | inl no_value ↦
        let (z, far, came) = Elem-filter_map y xs (rw (no_value, filter_map) at e) in
        (z, inr far, came)
    | inr (z, value) ↦ elim (rw (value, filter_map) at e) [
      | inl same ↦ (x, inl refl, value ∙ ap some (sym same))
      | inr far ↦ let (w, m, came) = Elem-filter_map y xs far in (w, inr m, came)
    ]
  ]

  pub Elem-filter_map-of :
      (x : A) {y : B} (xs : List A) → Elem x xs → f x ≡ some y → Elem y (filter_map f xs)
  unfolding filter_map
  Elem-filter_map-of x [] e h = elim e [ ]
  Elem-filter_map-of x {y} (w ∷ xs) (inl same) h =
      let value : f w ≡ some y = ap f (sym same) ∙ h in rw (value, filter_map) (inl refl)
  Elem-filter_map-of x {y} (w ∷ xs) (inr far) h = elim (Option-cases (f w)) [
    | inl no_value ↦ rw (no_value, filter_map) (Elem-filter_map-of x xs far h)
    | inr (z, value) ↦ rw (value, filter_map) (inr (Elem-filter_map-of x xs far h))
  ]
