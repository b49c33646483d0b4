-- ===== src/System/Health.antt =====
-- The health of the installed kernels in src/system.rs, and what their boot entries are found to be.
pub mod Summary
use kernel_pop.Prelude.{
  ℕ, Bool, true, false, not, Option, none, some, [], ◌∷◌, ◌++◌, ◌&&◌, ◌||◌, ◌==◌, if◌then◌else◌,
  List, any, all,
}
use kernel_pop.Text.{
  Text, codes, lines, text_eq, starts_with, ends_with, strip_prefix, trim, is_digit, contains,
}
use kernel_pop.System.Prune.{
  InstalledKernel, BootEntry, present, missing, not_kept, KernelSignature, kernel_pop_key, distro,
  unsigned,
}

abbrev pub is_missing : BootEntry → Bool
is_missing missing = true
is_missing present = false
is_missing not_kept = false

unfoldable pub healthy : InstalledKernel → Bool
healthy k = k.has_initrd && (k.has_modules && not (is_missing k.boot_entry))

pub data HealthProblem : Type 0 where
  no_initramfs no_modules not_in_menu : HealthProblem

-- the problems that the banner names, and whether it says not to reboot
pub record Banner : Type 0 where
  pub problems : List HealthProblem
  pub do_not_reboot : Bool

abbrev pub when : Bool → HealthProblem → List HealthProblem
when b p = if b then p ∷ [] else []

abbrev pub banner_of : List HealthProblem → Bool → Option Banner
banner_of [] advice = none
banner_of (p ∷ ps) advice = some (record { problems = p ∷ ps; do_not_reboot = advice })

unfoldable pub health_summary : List InstalledKernel → Option Banner
health_summary kernels =
    banner_of
      (when (any (λ k. not k.has_initrd) kernels) no_initramfs
        ++ (when (any (λ k. not k.has_modules) kernels) no_modules
            ++ when (any (λ k. is_missing k.boot_entry) kernels) not_in_menu))
      (any (λ k. not k.has_initrd || not k.has_modules) kernels)

unfoldable pub classify_signature : Bool → Bool → KernelSignature
classify_signature true distro_key = kernel_pop_key
classify_signature false true = distro
classify_signature false false = unsigned

-- where a symbolic link points: the last name of its target
pub record Links : Type 0 where
  pub has_vmlinuz : Bool
  pub vmlinuz : Option Text
  pub vmlinuz_old : Option Text

pub data Slot : Type 0 where
  current previous : Slot

abbrev pub points_at : Option Text → Text → Bool
points_at none version = false
points_at (some name) version = text_eq name (codes "vmlinuz-" ++ version)

unfoldable pub kernelstub_slot : Text → Links → Links → Option Slot
unfolding text_eq
kernelstub_slot version root boot =
    let base = if root.has_vmlinuz then root else boot in
    if points_at base.vmlinuz version
    then some current
    else if points_at base.vmlinuz_old version
    then some previous
    else none

-- a directory of the ESP: its entries, each with its slots that are there, or no permission
pub data EfiDir : Type 0 where
  forbidden absent : EfiDir
  listing : List (Text × (Slot → Bool)) → EfiDir

abbrev pub keeps_slot : Slot → EfiDir → Bool
keeps_slot s forbidden = true
keeps_slot s absent = false
keeps_slot s (listing entries) = any (λ (n, has). starts_with (codes "Pop_OS-") n && has s) entries

abbrev pub present_if : Bool → BootEntry
present_if b = if b then present else missing

unfoldable pub kernelstub_entry : Text → Links → Links → List EfiDir → BootEntry
unfolding starts_with
kernelstub_entry version root boot efi_dirs = elim (kernelstub_slot version root boot) [
  | none ↦ not_kept
  | some s ↦ present_if (any (keeps_slot s) efi_dirs)
]

-- a file that may be unreadable
unfoldable pub grub_cfg_mentions : Option Text → Text → Bool
unfolding contains
grub_cfg_mentions none version = true
grub_cfg_mentions (some cfg) version = contains (codes "vmlinuz-" ++ version) cfg
