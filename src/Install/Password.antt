-- ===== src/Install/Password.antt =====
-- The passwords that `validate_mok_password` of src/install.rs accepts.
use kernel_pop.Prelude.{
  ℕ, ◌≤◌, true, length, ◌≡◌, arith, ◌↔◌, ok, All, All-all, all-All, All-map, ap,
}
use kernel_pop.Text.{Text, text_eq, text_eq_sound, text_eq_refl, is_graphic}
use kernel_pop.Install.{validate_mok_password}

graphic_range : (c : ℕ) → is_graphic c ≡ true → (33 ≤ c) × (c ≤ 126)
graphic_range c h = ground arith

range_graphic : (c : ℕ) → (33 ≤ c) × (c ≤ 126) → is_graphic c ≡ true
range_graphic c h = ground arith

-- A password is accepted if and only if it has 8 to 16 characters, each a printable ASCII character
-- other than the space, and was typed the same twice.
pub validate_mok_password_iff :
    (password confirm : Text)
    → (validate_mok_password password confirm ≡ ok tt) ↔ (
        (8 ≤ length password)
        × (length password ≤ 16)
        × All (λ c. (33 ≤ c) × (c ≤ 126)) password
        × (password ≡ confirm))
unfolding validate_mok_password
validate_mok_password_iff password confirm = (
  λ h. (
    ground arith,
    ground arith,
    All-map _ _ password graphic_range (All-all is_graphic password (ground arith)),
    text_eq_sound password confirm (ground arith),
  ),
  λ (low, high, plain, same). ground (
    arith,
    all-All is_graphic password (All-map _ _ password range_graphic plain),
    text_eq_refl password,
    ap (text_eq password) same,
  ),
)
