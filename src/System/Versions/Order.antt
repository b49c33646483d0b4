-- ===== src/System/Versions/Order.antt =====
-- The lexicographic order of `Vec<u32>`, as src/system.rs uses it.
use Prim.Native.Nat.{Ordering}
use kernel_pop.Prelude.{ℕ, ◌≡◌, refl, arith, Bool, true, false, [], ◌∷◌, ◌++◌, List}
use kernel_pop.System.Versions.{lex}

abbrev pub flip : Ordering → Ordering
flip Ordering.lt = Ordering.gt
flip Ordering.eq = Ordering.eq
flip Ordering.gt = Ordering.lt

pub lex-flip : (xs ys : List ℕ) → lex ys xs ≡ flip (lex xs ys)
unfolding lex
lex-flip [] [] = refl
lex-flip [] (y ∷ ys) = refl
lex-flip (x ∷ xs) [] = refl
lex-flip (x ∷ xs) (y ∷ ys) = ground (arith, lex-flip xs ys)

pub lex-eq : (xs ys : List ℕ) → lex xs ys ≡ Ordering.eq → xs ≡ ys
unfolding lex
lex-eq [] [] h = refl
lex-eq [] (y ∷ ys) h = cc
lex-eq (x ∷ xs) [] h = cc
lex-eq (x ∷ xs) (y ∷ ys) h = ground (arith, lex-eq xs ys)

-- `a ≥ b`
abbrev pub lex_ge : List ℕ → List ℕ → Bool
lex_ge xs ys = elim (lex xs ys) [ Ordering.lt ↦ false | _ ↦ true ]

pub lex_ge_refl : (xs : List ℕ) → lex_ge xs xs ≡ true
unfolding lex
lex_ge_refl [] = refl
lex_ge_refl (x ∷ xs) = ground (arith, lex_ge_refl xs)

pub lex_ge_total : (xs ys : List ℕ) → lex_ge xs ys ≡ false → lex_ge ys xs ≡ true
lex_ge_total xs ys h = ground (arith, lex-flip xs ys)

pub lex_ge_trans :
    (xs ys zs : List ℕ) → lex_ge xs ys ≡ true → lex_ge ys zs ≡ true → lex_ge xs zs ≡ true
unfolding lex
lex_ge_trans [] [] zs h k = k
lex_ge_trans [] (y ∷ ys) zs h k = cc
lex_ge_trans (x ∷ xs) [] [] h k = refl
lex_ge_trans (x ∷ xs) [] (z ∷ zs) h k = cc
lex_ge_trans (x ∷ xs) (y ∷ ys) [] h k = refl
lex_ge_trans (x ∷ xs) (y ∷ ys) (z ∷ zs) h k = ground (arith, lex_ge_trans xs ys zs)

pub lex-append : (ks xs ys : List ℕ) → lex (ks ++ xs) (ks ++ ys) ≡ lex xs ys
unfolding lex
lex-append [] xs ys = refl
lex-append (k ∷ ks) xs ys = ground (arith, lex-append ks xs ys)

pub lex_lt_trans :
    (xs ys zs : List ℕ)
    → lex xs ys ≡ Ordering.lt
    → lex ys zs ≡ Ordering.lt
    → lex xs zs ≡ Ordering.lt
unfolding lex
lex_lt_trans [] [] zs h k = cc
lex_lt_trans [] (y ∷ ys) [] h k = cc
lex_lt_trans [] (y ∷ ys) (z ∷ zs) h k = refl
lex_lt_trans (x ∷ xs) [] zs h k = cc
lex_lt_trans (x ∷ xs) (y ∷ ys) [] h k = cc
lex_lt_trans (x ∷ xs) (y ∷ ys) (z ∷ zs) h k = ground (arith, lex_lt_trans xs ys zs)
