-- ===== src/System/Gate.antt =====
-- Whether a kernel may be installed: `install_blocker`, `install_warnings` and the space in /boot in
-- src/system.rs.
pub mod Bootable
use Prim.Native.Nat.{max}
use kernel_pop.Prelude.{
  ℕ, ◌+◌, ◌*◌, ◌%◌, ◌^◌, Bool, true, false, not, Option, none, some, [], ◌∷◌, ◌&&◌, ◌||◌, ◌++◌,
  ◌==◌, if◌then◌else◌, List, ltb, or_default,
}
use kernel_pop.System.Signing.{SecureBoot, KernelSigning, KeyEnrollment}

-- the fields that the gate reads
pub record SystemInfo : Type 0 where
  pub free_boot_bytes : Option ℕ
  pub secure_boot : SecureBoot
  pub kernel_signing : KernelSigning
  pub dkms_key : Option KeyEnrollment
  pub boot_needed_bytes : ℕ

-- `free.is_some_and(|f| f < needed)`
abbrev pub less_free : Option ℕ → ℕ → Bool
less_free none needed = false
less_free (some f) needed = ltb f needed

unfoldable pub boot_low : SystemInfo → Bool
boot_low info = less_free info.free_boot_bytes info.boot_needed_bytes

-- `iter().max()`
unfoldable pub largest : List ℕ → Option ℕ
largest [] = none
largest (n ∷ ns) = some (max n (or_default 0 (largest ns)))

unfoldable pub estimate_boot_needed : List ℕ → List ℕ → Option ℕ
unfolding largest
estimate_boot_needed vmlinuz_sizes initrd_sizes = elim (largest vmlinuz_sizes) [
  | none ↦ none
  | some v ↦ elim (largest initrd_sizes) [ none ↦ none | some i ↦ some ((v + 2 * i) % 2 ^ 64) ]
]

-- the reason that `install_blocker` gives, one for each of its texts
pub data Blocker : Type 0 where
  signing_not_set_up key_not_enrolled efi_vars_not_mounted enrollment_unknown : Blocker

unfoldable pub signing_blocker : KernelSigning → Option Blocker
signing_blocker KernelSigning.enrolled = none
signing_blocker KernelSigning.enrollment_pending = none
signing_blocker KernelSigning.no_key = some Blocker.signing_not_set_up
signing_blocker KernelSigning.key_not_enrolled = some Blocker.key_not_enrolled
signing_blocker KernelSigning.efi_vars_not_mounted = some Blocker.efi_vars_not_mounted
signing_blocker KernelSigning.unknown = some Blocker.enrollment_unknown

abbrev pub is_enabled : SecureBoot → Bool
is_enabled SecureBoot.enabled = true
is_enabled SecureBoot.disabled = false
is_enabled SecureBoot.unknown = false

unfoldable pub install_blocker : SystemInfo → Option Blocker
unfolding signing_blocker
install_blocker info =
    if is_enabled info.secure_boot then signing_blocker info.kernel_signing else none

pub data Warning : Type 0 where
  confirm_enrollment dkms_key_not_enrolled : Warning
  boot_space : ℕ → ℕ → Warning

abbrev pub is_pending : KernelSigning → Bool
is_pending KernelSigning.enrollment_pending = true
is_pending KernelSigning.no_key = false
is_pending KernelSigning.key_not_enrolled = false
is_pending KernelSigning.enrolled = false
is_pending KernelSigning.efi_vars_not_mounted = false
is_pending KernelSigning.unknown = false

abbrev pub is_not_enrolled : Option KeyEnrollment → Bool
is_not_enrolled none = false
is_not_enrolled (some KeyEnrollment.not_enrolled) = true
is_not_enrolled (some KeyEnrollment.enrolled) = false
is_not_enrolled (some KeyEnrollment.pending) = false
is_not_enrolled (some KeyEnrollment.efi_vars_not_mounted) = false
is_not_enrolled (some KeyEnrollment.unknown) = false

abbrev pub space_warning : Option ℕ → SystemInfo → List Warning
space_warning none info = []
space_warning (some f) info = if boot_low info then boot_space f info.boot_needed_bytes ∷ [] else []

unfoldable pub install_warnings : SystemInfo → List Warning
unfolding boot_low
install_warnings info =
    (if is_enabled info.secure_boot && is_pending info.kernel_signing
      then confirm_enrollment ∷ []
      else [])
    ++ (if is_enabled info.secure_boot && is_not_enrolled info.dkms_key
        then dkms_key_not_enrolled ∷ []
        else [])
    ++ space_warning info.free_boot_bytes info
