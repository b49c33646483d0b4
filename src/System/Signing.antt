-- ===== src/System/Signing.antt =====
-- Key enrollment, signatures and Secure Boot in src/system.rs, from the output of the programs that
-- report them.
pub mod Pending
pub mod Marker
use kernel_pop.Prelude.{
  ℕ, Bool, true, false, not, Option, none, some, [], ◌∷◌, ◌&&◌, ◌||◌, ◌++◌, ◌==◌, if◌then◌else◌,
  List, filter_map, keep, or_default, length, find, map_option, is_some, or_option,
}
use mathlib.Core.List.{map}
use kernel_pop.Text.{
  Text, codes, is_hexdigit, ascii_lower, contains, strip_prefix, starts_with, trim, lines,
  parse_unsigned, u64_max, split_once, split_whitespace, split_char, text_eq, ℤ, parse_i64, ℤ_eq,
}

pub data SecureBoot : Type 0 where
  enabled disabled unknown : SecureBoot

pub data KernelSigning : Type 0 where
  no_key key_not_enrolled enrollment_pending enrolled efi_vars_not_mounted unknown : KernelSigning

unfoldable pub key_present : KernelSigning → Bool
key_present KernelSigning.no_key = false
key_present KernelSigning.key_not_enrolled = true
key_present KernelSigning.enrollment_pending = true
key_present KernelSigning.enrolled = true
key_present KernelSigning.efi_vars_not_mounted = true
key_present KernelSigning.unknown = true

pub data TestKey : Type 0 where
  enrolled pending not_enrolled efi_vars_not_mounted : TestKey

pub data KeyEnrollment : Type 0 where
  enrolled pending not_enrolled efi_vars_not_mounted unknown : KeyEnrollment

unfoldable pub parse_mokutil_test_key : Text → Bool → Option TestKey
unfolding contains
parse_mokutil_test_key text efi_firmware =
    if contains (codes "EFI variables are not supported") text
    then (if efi_firmware then some TestKey.efi_vars_not_mounted else none)
    else if contains (codes "is not enrolled") text
    then some TestKey.not_enrolled
    else if contains (codes "is already in the enrollment request") text
    then some TestKey.pending
    else if contains (codes "is already enrolled") text
    then some TestKey.enrolled
    else none

-- lowercase hex digits only
unfoldable pub normalize_fingerprint : Text → Text
normalize_fingerprint s = map ascii_lower (keep is_hexdigit s)

unfoldable pub parse_openssl_fingerprint : Text → Option Text
unfolding contains split_once normalize_fingerprint lines
parse_openssl_fingerprint text =
    elim (find (λ l. contains (codes "fingerprint=") (map ascii_lower l)) (lines text)) [
      | none ↦ none
      | some line ↦ elim (split_once (codes "=") line) [
        | none ↦ none
        | some (_, value) ↦
            let fp = normalize_fingerprint value in if length fp == 40 then some fp else none
      ]
    ]

-- the size that the first line records
unfoldable pub recorded_size : Text → Option ℕ
unfolding strip_prefix trim parse_unsigned
recorded_size l = elim (strip_prefix (codes "moknew-size ") (trim l)) [
  | none ↦ none
  | some n ↦ parse_unsigned u64_max (trim n)
]

abbrev pub same_size : Option ℕ → Option ℕ → Bool
same_size (some a) (some b) = a == b
same_size (some a) none = false
same_size none b = false

unfoldable pub fingerprints : List Text → List Text
unfolding normalize_fingerprint
fingerprints ls = keep (λ f. length f == 40) (map normalize_fingerprint ls)

unfoldable pub pending_lines : List Text → Option ℕ → List Text
unfolding recorded_size fingerprints
pending_lines [] moknew_size = []
pending_lines (l ∷ ls) moknew_size =
    if same_size (recorded_size l) moknew_size then fingerprints ls else []

unfoldable pub parse_pending_list : Text → Option ℕ → List Text
unfolding lines pending_lines
parse_pending_list text moknew_size = pending_lines (lines text) moknew_size

unfoldable pub combine_kernel_signing : Bool → Option TestKey → Bool → KernelSigning
combine_kernel_signing false test_key queued = KernelSigning.no_key
combine_kernel_signing true (some TestKey.enrolled) queued = KernelSigning.enrolled
combine_kernel_signing true (some TestKey.pending) queued = KernelSigning.enrollment_pending
combine_kernel_signing true (some TestKey.not_enrolled) true = KernelSigning.enrollment_pending
combine_kernel_signing true (some TestKey.not_enrolled) false = KernelSigning.key_not_enrolled
combine_kernel_signing true (some TestKey.efi_vars_not_mounted) true =
    KernelSigning.enrollment_pending
combine_kernel_signing true (some TestKey.efi_vars_not_mounted) false =
    KernelSigning.efi_vars_not_mounted
combine_kernel_signing true none true = KernelSigning.enrollment_pending
combine_kernel_signing true none false = KernelSigning.unknown

unfoldable pub combine_key_enrollment : Option TestKey → Bool → KeyEnrollment
combine_key_enrollment (some TestKey.enrolled) queued = KeyEnrollment.enrolled
combine_key_enrollment (some TestKey.pending) queued = KeyEnrollment.pending
combine_key_enrollment (some TestKey.not_enrolled) true = KeyEnrollment.pending
combine_key_enrollment (some TestKey.not_enrolled) false = KeyEnrollment.not_enrolled
combine_key_enrollment (some TestKey.efi_vars_not_mounted) true = KeyEnrollment.pending
combine_key_enrollment (some TestKey.efi_vars_not_mounted) false =
    KeyEnrollment.efi_vars_not_mounted
combine_key_enrollment none true = KeyEnrollment.pending
combine_key_enrollment none false = KeyEnrollment.unknown

abbrev pub same_time : Option ℤ → ℤ → Bool
same_time none m = false
same_time (some t) m = ℤ_eq t m

-- exactly a size and a modification time
abbrev pub marker_words : List Text → ℕ → ℤ → Bool
marker_words [] size mtime = false
marker_words (a ∷ []) size mtime = false
marker_words (a ∷ b ∷ []) size mtime =
    same_size (parse_unsigned u64_max a) (some size) && same_time (parse_i64 b) mtime
marker_words (a ∷ b ∷ c ∷ ws) size mtime = false

unfoldable pub marker_matches : Text → ℕ → ℤ → Bool
marker_matches marker size mtime = marker_words (split_whitespace marker) size mtime

-- one line of `dpkg-query`: status, package, source package
abbrev pub distro_fields : List Text → Option Text
distro_fields (status ∷ pkg ∷ source ∷ rest) = elim (strip_prefix (codes "linux-image-") pkg) [
  | none ↦ none
  | some version ↦
      if text_eq (trim status) (codes "ii")
        && ((text_eq (trim source) (codes "linux-signed")
              || starts_with (codes "linux-signed-") (trim source))
            && not (starts_with (codes "unsigned-") version))
      then some version
      else none
]
distro_fields other = none

unfoldable pub parse_distro_signed : Text → List Text
unfolding strip_prefix text_eq trim starts_with lines split_char filter_map
parse_distro_signed text = filter_map (λ l. distro_fields (split_char 9 l)) (lines text)

unfoldable pub parse_secureboot_efivar : List ℕ → SecureBoot
parse_secureboot_efivar (a ∷ b ∷ c ∷ d ∷ e ∷ rest) =
    if e == 1
    then SecureBoot.enabled
    else if e == 0
    then SecureBoot.disabled
    else SecureBoot.unknown
parse_secureboot_efivar short = SecureBoot.unknown

unfoldable pub parse_mokutil_sb_state : Text → SecureBoot
unfolding contains
parse_mokutil_sb_state text =
    if contains (codes "validation is disabled") text || contains (codes "SecureBoot disabled") text
    then SecureBoot.disabled
    else if contains (codes "SecureBoot enabled") text
    then SecureBoot.enabled
    else SecureBoot.unknown

unfoldable pub combine_secure_boot : SecureBoot → Option SecureBoot → SecureBoot
combine_secure_boot efi (some SecureBoot.disabled) = SecureBoot.disabled
combine_secure_boot SecureBoot.unknown (some m) = m
combine_secure_boot SecureBoot.enabled (some m) = SecureBoot.enabled
combine_secure_boot SecureBoot.disabled (some m) = SecureBoot.disabled
combine_secure_boot efi none = efi
