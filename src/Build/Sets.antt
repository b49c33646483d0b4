-- ===== src/Build/Sets.antt =====
-- Finished builds and the space that a build needs, in src/build.rs. What is read from a directory is
-- an argument.
pub mod Verified
use kernel_pop.Prelude.{
  ℕ, ◌*◌, Bool, true, false, not, Option, none, some, [], ◌∷◌, ◌++◌, ◌&&◌, if◌then◌else◌, List,
  Result, ok, err, context, guard, ◌>>=◌, ◌>>◌, ltb, find_map, or_default,
}
use mathlib.Core.List.{map}
use kernel_pop.Text.{Text, codes, text_eq, strip_prefix, lines}
use kernel_pop.Build.Manifest.{Manifest, ManifestError, parse_manifest, valid_release}

pub data ConfigMode : Type 0 where
  match_system tuned_for_machine : ConfigMode
  own_config : Text → ConfigMode

unfoldable pub label : ConfigMode → Text
label match_system = codes "Match this system"
label tuned_for_machine = codes "Tuned for this machine"
label (own_config path) = codes "Use my own .config"

abbrev pub build_need_bytes : ℕ
build_need_bytes = 12 * 1024 * 1024 * 1024

abbrev pub tuned_build_need_bytes : ℕ
tuned_build_need_bytes = 8 * 1024 * 1024 * 1024

unfoldable pub disk_need : ConfigMode → ℕ
disk_need match_system = build_need_bytes
disk_need tuned_for_machine = tuned_build_need_bytes
disk_need (own_config path) = build_need_bytes

-- what is needed, and what is free
pub data SpaceProblem : Type 0 where
  cache_full boot_full : ℕ → ℕ → SpaceProblem

-- `filter(|f| *f < need)`
abbrev pub too_small : Option ℕ → ℕ → Option ℕ
too_small none need = none
too_small (some f) need = if ltb f need then some f else none

unfoldable pub space_problem : ConfigMode → Option ℕ → Option ℕ → ℕ → Option SpaceProblem
space_problem mode cache_free boot_free boot_need = elim (too_small cache_free (disk_need mode)) [
  | some f ↦ some (cache_full (disk_need mode) f)
  | none ↦ elim (too_small boot_free boot_need) [
    | some f ↦ some (boot_full boot_need f)
    | none ↦ none
  ]
]

pub record BuiltSet : Type 0 where
  pub kernelrelease : Text
  pub debs : List Text
  pub source : Text

-- an entry of ~/Downloads/kernel-pop: its name, and its manifest and build-info.txt, where they can
-- be read
pub record SetDir : Type 0 where
  pub name : Text
  pub manifest : Option Text
  pub info : Option Text

-- the "signature: " line
unfoldable pub source_of : Option Text → Text
unfolding find_map strip_prefix lines
source_of none = []
source_of (some t) = or_default [] (find_map (strip_prefix (codes "signature: ")) (lines t))

abbrev pub with_manifest : Text → Text → Result ManifestError Manifest → Option BuiltSet
with_manifest krel source (err e) = none
with_manifest krel source (ok m) =
    if valid_release krel
    then some (record { kernelrelease = krel; debs = map (λ (n, h). n) m; source = source })
    else none

unfoldable pub built_set : SetDir → Option BuiltSet
built_set d = elim (strip_prefix (codes "linux-") d.name) [
  | none ↦ none
  | some krel ↦ elim d.manifest [
    | none ↦ none
    | some text ↦ with_manifest krel (source_of d.info) (parse_manifest text)
  ]
]

pub data SetError : Type 0 where
  no_manifest : SetError
  bad_manifest : ManifestError → SetError
  not_readable changed : Text → SetError

abbrev pub as_set_error : Result ManifestError Manifest → Result SetError Manifest
as_set_error (ok m) = ok m
as_set_error (err e) = err (bad_manifest e)

-- `sha256` is the hash of a file of the set, where it can be read
module _ (sha256 : Text → Option Text) where
  unfoldable pub check_packages : Manifest → Result SetError (Unit {0})
  check_packages [] = ok tt
  check_packages ((name, want) ∷ m) = do
    got ← context (not_readable name) (sha256 name)
    guard (text_eq got want) (changed name)
    check_packages m

  unfoldable pub verify_built_set : Option Text → Result SetError (Unit {0})
  verify_built_set manifest = do
    text ← context no_manifest manifest
    m ← as_set_error (parse_manifest text)
    check_packages m
