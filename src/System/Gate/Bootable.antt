-- ===== src/System/Gate/Bootable.antt =====
-- The results of the install gate in src/system.rs.
use Prim.Native.Nat.{max}
use kernel_pop.Prelude.{
  ℕ, ◌+◌, ◌*◌, ◌%◌, ◌≤◌, ◌<◌, ◌^◌, Bool, true, false, Option, none, some, [], ◌∷◌, if◌then◌else◌,
  List, or_default, ◌≡◌, ◌≢◌, refl, arith, ◌⊎◌, ◌↔◌, inl, inr, Elem, All,
}
use kernel_pop.System.Signing.{
  SecureBoot, KernelSigning, KeyEnrollment, TestKey, combine_kernel_signing,
}
use kernel_pop.System.Gate.{
  SystemInfo, install_blocker, install_warnings, largest, estimate_boot_needed, signing_blocker,
  Blocker, is_enabled,
}

-- A signing key that shim will trust at the next boot, from what was observed of it.
abbrev pub IsTrusted : Bool → Option TestKey → Bool → Type 0
IsTrusted present test_key queued =
    (present ≡ true)
    × ((test_key ≡ some TestKey.enrolled) ⊎ (test_key ≡ some TestKey.pending) ⊎ (queued ≡ true))

trusted :
    (present queued : Bool) (test_key : Option TestKey)
    → signing_blocker (combine_kernel_signing present test_key queued) ≡ none
    → IsTrusted present test_key queued
unfolding signing_blocker combine_kernel_signing
trusted false queued test_key h = cc
trusted true queued (some TestKey.enrolled) h = (refl, inl refl)
trusted true queued (some TestKey.pending) h = (refl, inr (inl refl))
trusted true true (some TestKey.not_enrolled) h = (refl, inr (inr refl))
trusted true false (some TestKey.not_enrolled) h = cc
trusted true true (some TestKey.efi_vars_not_mounted) h = (refl, inr (inr refl))
trusted true false (some TestKey.efi_vars_not_mounted) h = cc
trusted true true none h = (refl, inr (inr refl))
trusted true false none h = cc

blocker_none :
    (present queued : Bool) (test_key : Option TestKey)
    → (signing_blocker (combine_kernel_signing present test_key queued) ≡ none)
      ↔ IsTrusted present test_key queued
unfolding signing_blocker combine_kernel_signing
blocker_none present queued test_key = (trusted present queued test_key, λ t. ground arith)

-- the test of Secure Boot in front
gate :
    (sb : SecureBoot) (blocker : Option Blocker) (T : Type 0)
    → (blocker ≡ none) ↔ T
    → ((if is_enabled sb then blocker else none) ≡ none) ↔ ((sb ≢ SecureBoot.enabled) ⊎ T)
gate SecureBoot.enabled blocker T e =
    (λ h. inr (e.0 h), λ d. elim d [ inl off ↦ absurd (off refl) | inr t ↦ e.1 t ])
gate SecureBoot.disabled blocker T e = (λ h. inl (ground arith), λ d. refl)
gate SecureBoot.unknown blocker T e = (λ h. inl (ground arith), λ d. refl)

-- With the signing state that the observations give, an install may start if and only if Secure Boot
-- is not known to be on, or the key is there and enrolled or queued for enrollment.
pub install_blocker_iff :
    (info : SystemInfo) (present queued : Bool) (test_key : Option TestKey)
    → info.kernel_signing ≡ combine_kernel_signing present test_key queued
    → (install_blocker info ≡ none)
      ↔ ((info.secure_boot ≢ SecureBoot.enabled) ⊎ IsTrusted present test_key queued)
unfolding install_blocker
install_blocker_iff info present queued test_key h =
    gate info.secure_boot (signing_blocker info.kernel_signing) _
      (rw h (blocker_none present queued test_key))

-- An install that starts with Secure Boot on and no warning at all finds its key enrolled already, the
-- DKMS key not known to be missing, and room in /boot wherever the free space is known.
pub no_warnings :
    (info : SystemInfo)
    → info.secure_boot ≡ SecureBoot.enabled
    → install_blocker info ≡ none
    → install_warnings info ≡ []
    → (info.kernel_signing ≡ KernelSigning.enrolled)
      × (info.dkms_key ≢ some KeyEnrollment.not_enrolled)
      × ((f : ℕ) → info.free_boot_bytes ≡ some f → info.boot_needed_bytes ≤ f)
unfolding install_blocker install_warnings
no_warnings info on allowed quiet = (ground arith, ground arith, λ f free. ground arith)

le-largest :
    (ns : List ℕ) (bound : ℕ) {m : ℕ}
    → All (λ n. n < bound) ns
    → largest ns ≡ some m
    → (m < bound) × ((n : ℕ) → Elem n ns → n ≤ m)
unfolding largest
le-largest [] bound h e = cc
le-largest (x ∷ []) bound {m} (hx, h) e =
    (ground arith, λ n el. elim el [ inl same ↦ ground arith | inr far ↦ elim far [ ] ])
le-largest (x ∷ y ∷ ns) bound {m} (hx, h) e =
    let (below, covers) = le-largest (y ∷ ns) bound h refl in
    (
      ground arith,
      λ n el. elim el [ inl same ↦ ground arith | inr far ↦ ground (arith, covers n far) ],
    )

max-of : (ns : List ℕ) (n : ℕ) → Elem n ns → (m : ℕ) × (largest ns ≡ some m)
unfolding largest
max-of [] n e = elim e [ ]
max-of (x ∷ ns) n e = (max x (or_default 0 (largest ns)), refl)

pub estimate_boot_needed-some :
    (vs is : List ℕ) (v i : ℕ)
    → Elem v vs
    → Elem i is
    → (needed : ℕ) × (estimate_boot_needed vs is ≡ some needed)
unfolding estimate_boot_needed
estimate_boot_needed-some vs is v i ev ei =
    let (a, ma) = max-of vs v ev in
    let (b, mb) = max-of is i ei in ((a + 2 * b) % 2 ^ 64, ground (arith, ma, mb))

-- With files smaller than 2^62 bytes, the estimate covers each installed kernel with twice each
-- installed initramfs, and does not wrap around.
pub estimate_boot_needed-covers :
    (vmlinuz_sizes initrd_sizes : List ℕ) {needed : ℕ}
    → All (λ n. n < 2 ^ 62) vmlinuz_sizes
    → All (λ n. n < 2 ^ 62) initrd_sizes
    → estimate_boot_needed vmlinuz_sizes initrd_sizes ≡ some needed
    → (v i : ℕ) → Elem v vmlinuz_sizes
    → Elem i initrd_sizes
    → v + 2 * i ≤ needed
unfolding estimate_boot_needed
estimate_boot_needed-covers vs is {needed} hv hi h v i ev ei =
    let (a, ma) = max-of vs v ev in
    let (b, mb) = max-of is i ei in
    let (below_a, covers_a) = le-largest vs (2 ^ 62) hv ma in
    let (below_b, covers_b) = le-largest is (2 ^ 62) hi mb in
    ground (arith, covers_a v ev, covers_b i ei)
