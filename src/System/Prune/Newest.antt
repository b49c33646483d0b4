-- ===== src/System/Prune/Newest.antt =====
-- The stable sort behind `prune_candidates` in src/system.rs.
use kernel_pop.Prelude.{
  ℕ, ◌≤◌, suc, zero, Bool, true, false, [], ◌∷◌, List, drop, ◌≡◌, refl, arith, All, All-map,
  Bool-cases, inl, inr, length, count, Elem, Elem-drop, All-Elem, count-Elem,
}
use kernel_pop.System.Prune.{insert, sort}

module _ {A : Type 0} (before_eq : A → A → Bool) where
  count-insert :
      (p : A → Bool) (x : A) (xs : List A) → count p (insert before_eq x xs) ≡ count p (x ∷ xs)
  unfolding insert
  count-insert p x [] = refl
  count-insert p x (y ∷ ys) = ground (arith, count-insert p x ys)

  -- sorting loses and invents nothing
  pub count-sort : (p : A → Bool) (xs : List A) → count p (sort before_eq xs) ≡ count p xs
  unfolding sort
  count-sort p [] = refl
  count-sort p (x ∷ xs) = ground (arith, count-insert p x (sort before_eq xs), count-sort p xs)

  length-insert : (x : A) (xs : List A) → length (insert before_eq x xs) ≡ suc (length xs)
  unfolding insert
  length-insert x [] = refl
  length-insert x (y ∷ ys) = ground (arith, length-insert x ys)

  pub length-sort : (xs : List A) → length (sort before_eq xs) ≡ length xs
  unfolding sort
  length-sort [] = refl
  length-sort (x ∷ xs) = omega (arith, length-insert x (sort before_eq xs), length-sort xs)

  abbrev pub Sorted : List A → Type 0
  Sorted [] = Unit
  Sorted (x ∷ xs) = All (λ y. before_eq x y ≡ true) xs × Sorted xs

  insert-All :
      (P : A → Type 0) (x : A) (xs : List A) → P x → All P xs → All P (insert before_eq x xs)
  unfolding insert
  insert-All P x [] px h = (px, tt)
  insert-All P x (y ∷ ys) px (py, h) = elim (Bool-cases (before_eq x y)) [
    | inl first ↦ rw first (px, (py, h))
    | inr later ↦ rw later (py, insert-All P x ys px h)
  ]

  module _ (total : (x y : A) → before_eq x y ≡ false → before_eq y x ≡ true)
      (trans : (x y z : A)
        → before_eq x y ≡ true
        → before_eq y z ≡ true
        → before_eq x z ≡ true) where
    Sorted-insert : (x : A) (xs : List A) → Sorted xs → Sorted (insert before_eq x xs)
    unfolding insert
    Sorted-insert x [] s = (tt, tt)
    Sorted-insert x (y ∷ ys) (h, s) = elim (Bool-cases (before_eq x y)) [
      | inl first ↦ rw first ((first, All-map _ _ ys (λ z. trans x y z first) h), (h, s))
      | inr later ↦
          rw later
            (insert-All (λ z. before_eq y z ≡ true) x ys (total x y later) h, Sorted-insert x ys s)
    ]

    pub Sorted-sort : (xs : List A) → Sorted (sort before_eq xs)
    unfolding sort
    Sorted-sort [] = tt
    Sorted-sort (x ∷ xs) = Sorted-insert x (sort before_eq xs) (Sorted-sort xs)

  Elem-insert : (z x : A) (xs : List A) → Elem z (insert before_eq x xs) → Elem z (x ∷ xs)
  unfolding insert
  Elem-insert z x [] e = e
  Elem-insert z x (y ∷ ys) e = elim (Bool-cases (before_eq x y)) [
    | inl first ↦ rw first at e
    | inr later ↦ elim (rw later at e) [
      | inl same ↦ inr (inl same)
      | inr rest ↦ elim (Elem-insert z x ys rest) [ inl same ↦ inl same | inr far ↦ inr (inr far) ]
    ]
  ]

  pub Elem-sort : (z : A) (xs : List A) → Elem z (sort before_eq xs) → Elem z xs
  unfolding sort
  Elem-sort z [] e = e
  Elem-sort z (x ∷ xs) e = elim (Elem-insert z x (sort before_eq xs) e) [
    | inl same ↦ inl same
    | inr far ↦ inr (Elem-sort z xs far)
  ]

  Elem-insert-of : (z x : A) (xs : List A) → Elem z (x ∷ xs) → Elem z (insert before_eq x xs)
  unfolding insert
  Elem-insert-of z x [] e = e
  Elem-insert-of z x (y ∷ ys) e = elim (Bool-cases (before_eq x y)) [
    | inl first ↦ rw first e
    | inr later ↦ rw later (elim e [
      | inl same ↦ inr (Elem-insert-of z x ys (inl same))
      | inr (inl same) ↦ inl same
      | inr (inr far) ↦ inr (Elem-insert-of z x ys (inr far))
    ])
  ]

  pub Elem-sort-of : (z : A) (xs : List A) → Elem z xs → Elem z (sort before_eq xs)
  unfolding sort
  Elem-sort-of z [] e = e
  Elem-sort-of z (x ∷ xs) (inl same) = Elem-insert-of z x (sort before_eq xs) (inl same)
  Elem-sort-of z (x ∷ xs) (inr far) =
      Elem-insert-of z x (sort before_eq xs) (inr (Elem-sort-of z xs far))

  -- behind `n` elements of a sorted list, each has at least `n` others before it
  pub lt-count-drop :
      (refl_ : (x : A) → before_eq x x ≡ true) (n : ℕ) (xs : List A) (z : A)
      → Sorted xs
      → Elem z (drop n xs)
      → suc n ≤ count (λ y. before_eq y z) xs
  lt-count-drop refl_ zero xs z s e = count-Elem (λ y. before_eq y z) z xs e (refl_ z)
  lt-count-drop refl_ (suc n) [] z s e = elim e [ ]
  lt-count-drop refl_ (suc n) (x ∷ xs) z (h, s) e = ground (
    arith,
    lt-count-drop refl_ n xs z s e,
    All-Elem (λ y. before_eq x y ≡ true) z xs h (Elem-drop n z xs e),
  )
