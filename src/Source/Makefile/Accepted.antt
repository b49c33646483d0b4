-- ===== src/Source/Makefile/Accepted.antt =====
-- The versions that `parse_makefile` of src/source.rs accepts, and their names.
use kernel_pop.Prelude.{
  ℕ, ◌≡◌, ◌≤◌, [], ◌++◌, ◌==◌, ok, all, All-map, All-image, all-All, or_default, arith, true, refl,
  all-append, Bool-cases, inl, inr,
}
use mathlib.Core.List.{map}
use kernel_pop.Text.{Text, codes, u32_max, decimal, Lacks, parse-le, decimal-All, IsDigit}
use kernel_pop.Source.Version.{SourceVersion, kernelversion, release_name, deb_version, tilde}
use kernel_pop.Source.Makefile.{field, number, parse_makefile, version_char}
use kernel_pop.Source.Makefile.RoundTrip.{IsDeclarable}

number-le : (name text : Text) {n : ℕ} → number name text ≡ ok n → n ≤ u32_max
unfolding number
number-le name text {n} h =
    ground (arith, parse-le u32_max (or_default [] (field name text)) {r = n})

-- An accepted Makefile gives a version whose numbers fit in 32 bits and whose EXTRAVERSION has only
-- characters that a version can use.
pub parse_makefile-IsDeclarable :
    (text : Text) {v : SourceVersion} → parse_makefile text ≡ ok v → IsDeclarable v
unfolding parse_makefile
parse_makefile-IsDeclarable text {v} h = ground (
  arith,
  number-le (codes "VERSION") text {n = v.version},
  number-le (codes "PATCHLEVEL") text {n = v.patchlevel},
  number-le (codes "SUBLEVEL") text {n = v.sublevel},
)

digit-version_char : (c : ℕ) → IsDigit c → version_char c ≡ true
digit-version_char c h = ground arith

all-decimal : (n : ℕ) → all version_char (decimal n) ≡ true
all-decimal n = all-All _ (decimal n) (All-map _ _ (decimal n) digit-version_char (decimal-All n))

-- The names made from a version whose EXTRAVERSION was accepted have only the characters that a
-- version can use, so no "/" and no white space.
pub names-version_char :
    (v : SourceVersion)
    → IsDeclarable v
    → (all version_char (kernelversion v) ≡ true) × (all version_char (release_name v) ≡ true)
unfolding kernelversion release_name
names-version_char v d = (
  simp (all-append, all-decimal, d.extra_chars),
  elim (Bool-cases (v.sublevel == 0)) [
    | inl zero_sublevel ↦ rw zero_sublevel (simp (all-append, all-decimal, d.extra_chars))
    | inr other ↦ rw other (simp (all-append, all-decimal, d.extra_chars))
  ],
)

-- The Debian version is an upstream part, in which neither "-" nor "_" is left, and the revision "1".
pub deb_version-upstream :
    (v : SourceVersion)
    → (u : Text) × (deb_version v ≡ u ++ codes "-1") × Lacks b'-' u × Lacks b'_' u
unfolding deb_version
deb_version-upstream v = (
  map tilde (kernelversion v),
  refl,
  All-image _ tilde (kernelversion v) (λ c. ground arith),
  All-image _ tilde (kernelversion v) (λ c. ground arith),
)
