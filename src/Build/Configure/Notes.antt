-- ===== src/Build/Configure/Notes.antt =====
-- The texts of the summary that `configure` of src/build.rs returns, and what it reads from the output
-- of make.
use kernel_pop.Prelude.{
  ℕ, zero, suc, Bool, true, false, not, ◌&&◌, ◌==◌, if◌then◌else◌, ltb, Option, none, some, List,
  [], ◌∷◌, ◌++◌, any, keep, is_some, length, filter_map,
}
use kernel_pop.Text.{
  Text, codes, text_eq, trim, lines, strip_prefix, starts_with, ends_with, contains,
  split_whitespace, join, decimal,
}
use kernel_pop.System.Prune.{sort}
use kernel_pop.Build.Configure.Lists.{tuned_extra_modules, mok_trust_symbols}
use kernel_pop.Build.Texts.{config_value, first_word}

abbrev pub localversion : Text
localversion = codes "-kernelpop"

-- `config_value(..).as_deref() == Some("y")`
unfoldable pub is_on : Text → Text → Bool
unfolding config_value text_eq
is_on config name = elim (config_value config name) [
  | none ↦ false
  | some v ↦ text_eq v (codes "y")
]

abbrev pub first_fixes : List Text
first_fixes =
    codes "LOCALVERSION set to \"-kernelpop\""
    ∷ codes
        "SYSTEM_TRUSTED_KEYS set to \"\" (Ubuntu's points at Canonical certificate files that are not in a kernel.org tree)"
    ∷ codes "SYSTEM_REVOCATION_KEYS set to \"\" (same reason)"
    ∷ codes
        "Debug info turned off (half the build time and a sixth of the disk space; this also turns off BTF)"
    ∷ []

-- a line of "make rustavailable" that says what is missing
unfoldable pub reason_line : Text → Option Text
unfolding strip_prefix trim text_eq contains starts_with
reason_line l = elim (strip_prefix (codes "***") l) [
  | none ↦ none
  | some rest ↦
      let why = trim rest in
      if not (text_eq why [])
        && (not (contains (codes "Documentation/rust") why)
            && not (starts_with (codes "on how to set up") why))
      then some why
      else none
]

unfoldable pub rust_reason : List Text → Text
unfolding filter_map reason_line join
rust_reason ls = elim (filter_map reason_line ls) [
  | [] ↦ codes "make rustavailable failed"
  | why ∷ whys ↦ join (codes " ") (why ∷ whys)
]

abbrev pub rust_fix : Text → Text
rust_fix why =
    codes
      "CONFIG_RUST turned off: the installed Rust toolchain does not satisfy make rustavailable ("
    ++ (why ++ codes ")")

abbrev pub holds : List Text → Text → Bool
holds ts t = any (text_eq t) ts

-- the order of Rust's strings
abbrev pub text_leb : Text → Text → Bool
text_leb [] t = true
text_leb (c ∷ s) [] = false
text_leb (c ∷ s) (d ∷ t) = let rest = text_leb s t in if c == d then rest else ltb c d

-- `dedup`
unfoldable pub dedup : List Text → List Text
unfolding text_eq
dedup [] = []
dedup (a ∷ []) = a ∷ []
dedup (a ∷ b ∷ ts) = let rest = dedup (b ∷ ts) in if text_eq a b then rest else a ∷ rest

unfoldable pub kept_modules : List Text → List Text → List Text
unfolding dedup
kept_modules loaded present = dedup (sort text_leb (loaded ++ (present ++ tuned_extra_modules)))

-- how many present devices' modules are not loaded
unfoldable pub new_present : List Text → List Text → ℕ
unfolding text_eq
new_present loaded present = length (keep (λ m. not (holds loaded m)) present)

unfoldable pub tuned_fix : List Text → List Text → Text
unfolding new_present decimal
tuned_fix loaded present =
    codes "localmodconfig: only drivers for the "
    ++ (decimal (length loaded)
        ++ (codes " modules loaded right now, "
            ++ (decimal (new_present loaded present)
                ++ (codes " more for devices present but not in use, and "
                    ++ (decimal (length tuned_extra_modules)
                        ++ codes " common plug-in, VPN, container and VM drivers")))))

abbrev pub tuned_note : Text
tuned_note =
    codes
      "Tuned: hardware that is not present now and not a common plug-in kind (an unusual USB gadget, a different Wi-Fi card) may have no driver in this kernel; Match this system includes everything."

abbrev pub rust_note : Bool → Text → List Text → List Text
rust_note base_rust config fixes =
    if base_rust
      && (not (is_some (config_value config (codes "RUST")))
          && not (any (starts_with (codes "CONFIG_RUST")) fixes))
    then codes
        "CONFIG_RUST was turned off by the kernel's own dependency rules during olddefconfig."
      ∷ []
    else []

-- the trust symbols that are off
abbrev pub symbols_off : Text → List Text
symbols_off config = keep (λ symbol. not (is_on config symbol)) mok_trust_symbols

abbrev pub off_note : List Text → List Text
off_note [] = []
off_note (symbol ∷ symbols) =
    (codes "CONFIG_"
      ++ (join (codes ", CONFIG_") (symbol ∷ symbols)
          ++ codes
              " is off: under Secure Boot this kernel would not load DKMS modules signed with your MOK key."))
    ∷ []

unfoldable pub config_notes : Bool → Text → List Text → List Text
unfolding config_value starts_with is_on join
config_notes base_rust config fixes =
    rust_note base_rust config fixes
    ++ (off_note (symbols_off config)
        ++ (if is_on config (codes "INTEGRITY_CA_MACHINE_KEYRING")
            then codes
                "CONFIG_INTEGRITY_CA_MACHINE_KEYRING is on: only CA keys from the MOK list are trusted, so a DKMS key that is not a CA would not be."
              ∷ []
            else []))

-- where the tree adds a local version of its own
unfoldable pub release_notes : Text → Text → List Text
unfolding text_eq
release_notes kernelrelease wanted =
    if text_eq kernelrelease wanted
    then []
    else (codes "The tree adds its own local version: the kernel will be "
        ++ (kernelrelease ++ (codes ", not " ++ (wanted ++ codes "."))))
      ∷ []

-- what stands behind each " -c -o " of a line; `skip` is what is left of the one found last
unfoldable pub behind_marks : ℕ → Text → List Text
unfolding strip_prefix
behind_marks skip [] = []
behind_marks (suc skip) (c ∷ t) = behind_marks skip t
behind_marks zero (c ∷ t) = elim (strip_prefix (codes " -c -o ") (c ∷ t)) [
  | none ↦ behind_marks zero t
  | some rest ↦ rest ∷ behind_marks 6 t
]

abbrev pub object_of : Text → Option Text
object_of rest = elim (first_word rest) [
  | none ↦ none
  | some target ↦ if ends_with (codes ".o") target then some target else none
]

abbrev pub targets : List Text → List Text
targets [] = []
targets (l ∷ ls) = filter_map object_of (behind_marks 0 l) ++ targets ls

-- the number of distinct ones
abbrev pub distinct : List Text → ℕ
distinct [] = 0
distinct (t ∷ ts) = let rest = distinct ts in if holds ts t then rest else suc rest

unfoldable pub objects_in_dry_run : Text → ℕ
unfolding behind_marks split_whitespace ends_with filter_map lines text_eq
objects_in_dry_run text = distinct (targets (lines text))
