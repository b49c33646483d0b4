-- ===== src/Verify/Address/Signers.antt =====
-- `uid_address` and `is_release_signer` of src/verify.rs.
use kernel_pop.Prelude.{
  ℕ, true, false, Option, none, some, [], ◌∷◌, ◌≡◌, refl, arith, ◌↔◌, ◌⊎◌, inl, inr, any, All, ap,
  or_default, Bool-cases,
}
use mathlib.Core.List.{map}
use mathlib.Core.Path.{subst}
use kernel_pop.Text.{
  Text, codes, text_eq, text_eq_sound, text_eq_refl, contains_char, is_whitespace, ascii_lower,
}
use kernel_pop.Verify.Address.{uid_address, is_release_signer, is_signer_address, inner_of, rfind}

lower_facts :
    (c : ℕ)
    → is_whitespace c ≡ false
    → (is_whitespace (ascii_lower c) ≡ false) × (ascii_lower (ascii_lower c) ≡ ascii_lower c)
lower_facts c h = ground arith

lower-All :
    (t : Text)
    → any is_whitespace t ≡ false
    → All (λ c. (is_whitespace c ≡ false) × (ascii_lower c ≡ c)) (map ascii_lower t)
lower-All [] h = tt
lower-All (c ∷ t) h = (lower_facts c (ground arith), lower-All t (ground arith))

lower-at : (t : Text) → contains_char b'@' t ≡ true → contains_char b'@' (map ascii_lower t) ≡ true
lower-at [] h = h
lower-at (c ∷ t) h = ground (arith, lower-at t)

-- An address that is found has an "@", no white space and no upper-case letter.
pub uid_address-shape :
    (uid : Text) {a : Text}
    → uid_address uid ≡ some a
    → (contains_char b'@' a ≡ true) × All (λ c. (is_whitespace c ≡ false) × (ascii_lower c ≡ c)) a
unfolding uid_address
uid_address-shape uid {a} h =
    let inner = inner_of (rfind b'<' uid) (rfind b'>' uid) uid in
    let at : contains_char b'@' inner ≡ true = ground arith in
    let plain : any is_whitespace inner ≡ false = ground arith in
    let same : map ascii_lower inner ≡ a = ground arith in
    (
      rw (← same) (lower-at inner at),
      subst (All (λ c. (is_whitespace c ≡ false) × (ascii_lower c ≡ c))) same
          (lower-All inner plain),
    )

some-text_eq : (a b : Text) → text_eq a b ≡ true → some a ≡ some b
some-text_eq a b h = ap (λ t. some t) (text_eq_sound a b h)

text_eq-some : (a b : Text) → some a ≡ some b → text_eq a b ≡ true
text_eq-some a b h = subst (λ t. text_eq a t ≡ true) (ap (or_default []) h) (text_eq_refl a)

is_signer_address_iff :
    (a : Text)
    → (is_signer_address a ≡ true) ↔ (
        (some a ≡ some (codes "torvalds@kernel.org")) ⊎ (some a ≡ some (codes "gregkh@kernel.org")))
is_signer_address_iff a = (
  λ h. elim (Bool-cases (text_eq a (codes "torvalds@kernel.org"))) [
    | inl l ↦ inl (some-text_eq a (codes "torvalds@kernel.org") l)
    | inr l ↦ inr (some-text_eq a (codes "gregkh@kernel.org") (ground arith))
  ],
  λ s. elim s [
    | inl l ↦ rw (text_eq-some a (codes "torvalds@kernel.org") l) refl
    | inr l ↦ rw (text_eq-some a (codes "gregkh@kernel.org") l) (ground arith)
  ],
)

signer_of_iff :
    (o : Option Text)
    → (elim o [ none ↦ false | some a ↦ is_signer_address a ] ≡ true)
      ↔ ((o ≡ some (codes "torvalds@kernel.org")) ⊎ (o ≡ some (codes "gregkh@kernel.org")))
signer_of_iff none = ((λ h. cc), λ s. elim s [ inl l ↦ cc | inr l ↦ cc ])
signer_of_iff (some a) = is_signer_address_iff a

-- A user ID is that of a release signer if and only if its address is one of the two.
pub is_release_signer_iff :
    (uid : Text)
    → (is_release_signer uid ≡ true) ↔ (
        (uid_address uid ≡ some (codes "torvalds@kernel.org"))
        ⊎ (uid_address uid ≡ some (codes "gregkh@kernel.org")))
unfolding is_release_signer
is_release_signer_iff uid = signer_of_iff (uid_address uid)
