-- ===== src/System/Signing/Pending.antt =====
-- `parse_pending_list` and the two combinations of key observations in src/system.rs.
use kernel_pop.Prelude.{
  ℕ, Bool, true, Option, none, some, [], ◌∷◌, ◌==◌, if◌then◌else◌, List, ◌≡◌, ◌≢◌, refl, arith, All,
  length, inl, inr, Bool-cases,
}
use kernel_pop.Text.{Text, is_hexdigit, ascii_lower, lines}
use kernel_pop.System.Signing.{
  normalize_fingerprint, recorded_size, same_size, fingerprints, pending_lines, parse_pending_list,
  TestKey, KernelSigning, KeyEnrollment, combine_kernel_signing, combine_key_enrollment,
}

-- forty lower-case hex digits
abbrev pub IsFingerprint : Text → Type 0
IsFingerprint f = (length f ≡ 40) × All (λ c. (is_hexdigit c ≡ true) × (ascii_lower c ≡ c)) f

hex_lower :
    (c : ℕ)
    → is_hexdigit c ≡ true
    → (is_hexdigit (ascii_lower c) ≡ true) × (ascii_lower (ascii_lower c) ≡ ascii_lower c)
hex_lower c h = ground arith

normalized :
    (s : Text) → All (λ c. (is_hexdigit c ≡ true) × (ascii_lower c ≡ c)) (normalize_fingerprint s)
unfolding normalize_fingerprint
normalized [] = tt
normalized (c ∷ s) = elim (Bool-cases (is_hexdigit c)) [
  | inl h ↦ rw h (hex_lower c h, normalized s)
  | inr h ↦ rw h (normalized s)
]

fingerprints-All : (ls : List Text) → All IsFingerprint (fingerprints ls)
unfolding fingerprints
fingerprints-All [] = tt
fingerprints-All (l ∷ ls) = elim (Bool-cases (length (normalize_fingerprint l) == 40)) [
  | inl h ↦ rw h ((ground arith, normalized l), fingerprints-All ls)
  | inr h ↦ rw h (fingerprints-All ls)
]

pending_lines-All : (ls : List Text) (size : Option ℕ) → All IsFingerprint (pending_lines ls size)
unfolding pending_lines
pending_lines-All [] size = tt
pending_lines-All (l ∷ ls) size = elim (Bool-cases (same_size (recorded_size l) size)) [
  | inl h ↦ rw h (fingerprints-All ls)
  | inr h ↦ rw h tt
]

same_size-eq : (a b : Option ℕ) → same_size a b ≡ true → (n : ℕ) × (a ≡ some n) × (b ≡ some n)
same_size-eq (some a) (some b) h = (a, refl, ground arith)
same_size-eq (some a) none h = cc
same_size-eq none b h = cc

stale :
    (ls : List Text) (size : Option ℕ)
    → pending_lines ls size ≢ []
    → (l : Text) × (rest : List Text) × (n : ℕ) × (ls ≡ l ∷ rest)
      × (recorded_size l ≡ some n)
      × (size ≡ some n)
unfolding pending_lines
stale [] size h = absurd (h refl)
stale (l ∷ ls) size h = elim (Bool-cases (same_size (recorded_size l) size)) [
  | inl e ↦ let (n, p, q) = same_size-eq (recorded_size l) size e in (l, ls, n, refl, p, q)
  | inr e ↦ absurd (h (rw e))
]

-- A list of waiting keys names keys only while MokNew has exactly the size that its first line
-- records, and what it names are fingerprints in normal form.
pub parse_pending_list-fresh :
    (text : Text) (size : Option ℕ)
    → All IsFingerprint (parse_pending_list text size)
      × (parse_pending_list text size ≢ []
          → (l : Text) × (rest : List Text) × (n : ℕ) × (lines text ≡ l ∷ rest)
            × (recorded_size l ≡ some n)
            × (size ≡ some n))
unfolding parse_pending_list
parse_pending_list-fresh text size = (pending_lines-All (lines text) size, stale (lines text) size)

-- The key of an enrollment and the same observations of the kernel-signing key agree.
abbrev pub as_kernel_signing : KeyEnrollment → KernelSigning
as_kernel_signing KeyEnrollment.enrolled = KernelSigning.enrolled
as_kernel_signing KeyEnrollment.pending = KernelSigning.enrollment_pending
as_kernel_signing KeyEnrollment.not_enrolled = KernelSigning.key_not_enrolled
as_kernel_signing KeyEnrollment.efi_vars_not_mounted = KernelSigning.efi_vars_not_mounted
as_kernel_signing KeyEnrollment.unknown = KernelSigning.unknown

-- A key that is there is judged alike by both functions, and without a key nothing else counts.
pub combine-agree :
    (present queued : Bool) (test_key : Option TestKey)
    → combine_kernel_signing present test_key queued ≡ (
        if present
        then as_kernel_signing (combine_key_enrollment test_key queued)
        else KernelSigning.no_key)
unfolding combine_kernel_signing combine_key_enrollment
combine-agree present queued test_key = ground arith
