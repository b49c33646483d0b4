-- ===== src/Build/Configure.antt =====
-- `configure` of src/build.rs over the commands that it runs and the files that it reads. The log lines
-- are left out.
pub mod Lists
pub mod Notes
pub mod Behind
pub mod Checked
use kernel_pop.Prelude.{
  ℕ, zero, suc, Bool, true, false, not, ◌&&◌, ◌||◌, if◌then◌else◌, Option, none, some, List, [],
  ◌∷◌, ◌++◌, Result, ok, err, ltb, any, all, keep, find, rev, is_some, or_default, length,
  filter_map,
}
use kernel_pop.Text.{
  Text, codes, text_eq, trim, lines, strip_prefix, ends_with, starts_with, contains,
  split_whitespace, join, decimal,
}
use kernel_pop.Source.Tarball.{FilePath}
use kernel_pop.Source.Version.{kernelversion}
use kernel_pop.Source.Archive.{ArchiveError, check_single_top_dir}
use kernel_pop.Build.Manifest.{valid_release}
use kernel_pop.Build.Sets.{ConfigMode, tuned_for_machine}
use kernel_pop.Build.Request.{BuildRequest, ConfigSummary}
use kernel_pop.Build.Texts.{
  config_value, module_count, only_archive_errors, parse_proc_modules, lsmod_text,
}
use kernel_pop.Build.Configure.Notes.{
  localversion, first_fixes, rust_fix, tuned_fix, tuned_note, config_notes, is_on, release_notes,
  rust_reason, objects_in_dry_run, kept_modules,
}

pub data Command : Type 0 where
  extract_tar apply_fixes rustavailable disable_rust olddefconfig : Command
  localmodconfig kernelrelease make_prepare : Command

pub data Ran : Type 0 where
  not_started cancelled : Ran
  ended : Bool → List Text → Ran

-- The world `W` that the commands change, and what can be read of it.
pub record Tools (W : Type 0) : Type 0 where
  pub run_with : Command → W → Ran × W
  pub listing : W → Option Text
  pub is_kernel_tree : W → Bool
  pub copy_config : FilePath → W → Bool × W
  pub read_config : W → Option Text
  pub proc_modules : W → Option Text
  pub present_modules : W → List Text
  pub write_list : Text → W → Bool × W
  pub dry_run : W → Option (Bool × Text × Text)

pub data ConfigError : Type 0 where
  build_cancelled not_a_tree not_copied not_read no_modules not_written debug_info_on : ConfigError
  not_run failed : Command → ConfigError
  not_one_dir : ArchiveError → ConfigError
  unexpected : Text → Option Text → Text → ConfigError
  bad_release : Text → ConfigError

-- `CONFIG_<name>` has to be `want`
unfoldable pub expect : Text → Text → Text → Result ConfigError (Unit {0})
unfolding config_value text_eq
expect config name want = elim (config_value config name) [
  | none ↦ err (unexpected name none want)
  | some v ↦ if text_eq v want then ok tt else err (unexpected name (some v) want)
]

abbrev pub then_check :
    Result ConfigError (Unit {0}) → Result ConfigError (Unit {0}) → Result ConfigError (Unit {0})
then_check (err e) next = err e
then_check (ok u) next = next

abbrev pub empty_value : Text
empty_value = codes "\"\""

abbrev pub expect_if_set : Text → Text → Result ConfigError (Unit {0})
expect_if_set config name =
    if is_some (config_value config name) then expect config name empty_value else ok tt

unfoldable pub check_config : Text → Result ConfigError (Unit {0})
unfolding expect config_value
check_config config =
    then_check (expect config (codes "LOCALVERSION") (b'"' ∷ (localversion ++ (b'"' ∷ [])))) (
      then_check
        (if is_some (config_value config (codes "DEBUG_INFO")) then err debug_info_on else ok tt)
        (then_check (expect_if_set config (codes "SYSTEM_TRUSTED_KEYS"))
          (expect_if_set config (codes "SYSTEM_REVOCATION_KEYS"))))

-- the last line that is not blank, or nothing
unfoldable pub last_line : List Text → Text
unfolding text_eq trim
last_line ls = trim (or_default [] (find (λ l. not (text_eq (trim l) [])) (rev ls)))

-- an action on the world that can fail
abbrev pub Job : Type 0 → Type 0 → Type 0
Job W A = W → Result ConfigError A × W

infixl 5 ◌>>=◌ ◌>>◌
unfoldable pub ◌>>=◌ : {W A B : Type 0} → Job W A → (A → Job W B) → Job W B
(job >>= rest) w = let (r, u) = job w in elim r [ err e ↦ (err e, u) | ok a ↦ rest a u ]

abbrev pub ◌>>◌ : {W A B : Type 0} → Job W A → Job W B → Job W B
job >> next = job >>= λ _. next

abbrev pub give : {W A : Type 0} → A → Job W A
give a w = (ok a, w)

abbrev pub lift : {W A : Type 0} → Result ConfigError A → Job W A
lift r w = (r, w)

abbrev pub check : {W : Type 0} → Bool → ConfigError → Job W (Unit {0})
check b e w = (if b then ok tt else err e, w)

abbrev pub of_ran : Command → Ran → Result ConfigError (Bool × List Text)
of_ran c not_started = err (not_run c)
of_ran c cancelled = err build_cancelled
of_ran c (ended succeeded ls) = ok (succeeded, ls)

abbrev pub of_option : {A : Type 0} → ConfigError → Option A → Result ConfigError A
of_option e none = err e
of_option e (some a) = ok a

abbrev pub of_archive : Result ArchiveError (Unit {0}) → Result ConfigError (Unit {0})
of_archive (ok u) = ok tt
of_archive (err e) = err (not_one_dir e)

module _ {W : Type 0} (t : Tools W) where
  abbrev pub ask : {A : Type 0} → (W → A) → Job W A
  ask f w = (ok (f w), w)

  unfoldable pub run_with : Command → Job W (Bool × List Text)
  run_with c w = let (r, u) = t.run_with c w in (of_ran c r, u)

  unfoldable pub run : Command → Job W (List Text)
  unfolding run_with
  run c = do (succeeded, ls) ← run_with c; check succeeded (failed c); give ls

  unfoldable pub extract_tree : Text → Job W (Unit {0})
  unfolding run check_single_top_dir
  extract_tree top_dir = do
    listing ← ask t.listing
    lift (of_archive (check_single_top_dir top_dir listing))
    _ ← run extract_tar
    is_tree ← ask t.is_kernel_tree
    check is_tree not_a_tree

  unfoldable pub copy_base : FilePath → Job W Text
  copy_base base w =
      let (copied, u) = t.copy_config base w in
      if copied then (of_option not_read (t.read_config u), u) else (err not_copied, u)

  -- without a Rust toolchain that satisfies the tree
  unfoldable pub fix_rust : Bool → List Text → Job W (List Text)
  unfolding run run_with rust_reason
  fix_rust base_rust fixes =
      if base_rust
      then (do
        (available, ls) ← run_with rustavailable
        if available
            then give fixes
            else (do _ ← run disable_rust; give (fixes ++ (rust_fix (rust_reason ls) ∷ []))))
      else give fixes

  unfoldable pub write_modules : List Text → Job W (Unit {0})
  unfolding lsmod_text
  write_modules modules w =
      let (written, u) = t.write_list (lsmod_text modules) w in
      (if written then ok tt else err not_written, u)

  -- the fixes and the notes
  unfoldable pub tune : ConfigMode → List Text → Job W (List Text × List Text)
  unfolding run write_modules parse_proc_modules kept_modules
  tune (ConfigMode.match_system) fixes = give (fixes, [])
  tune (ConfigMode.own_config path) fixes = give (fixes, [])
  tune tuned_for_machine fixes = do
    text ← ask t.proc_modules
    loaded ← lift (of_option no_modules text)
    present ← ask t.present_modules
    write_modules (kept_modules (parse_proc_modules loaded) present)
    _ ← run localmodconfig
    _ ← run apply_fixes
    _ ← run olddefconfig
    give (fixes ++ (tuned_fix (parse_proc_modules loaded) present ∷ []), tuned_note ∷ [])

  unfoldable pub count_objects : W → Option ℕ
  unfolding only_archive_errors objects_in_dry_run
  count_objects w = elim (t.dry_run w) [
    | none ↦ none
    | some (succeeded, stdout, stderr) ↦
        if not succeeded && not (only_archive_errors stderr)
        then none
        else (let n = objects_in_dry_run stdout in if ltb 0 n then some n else none)
  ]

  -- the checks of the configuration that came out, with the summary
  unfoldable pub summarize :
      BuildRequest → FilePath → Bool → Text → List Text → List Text → Job W ConfigSummary
  unfolding run check_config last_line count_objects valid_release config_notes release_notes
      module_count kernelversion
  summarize req base base_rust config fixes notes = do
    lift (check_config config)
    ls ← run kernelrelease
    check (valid_release (last_line ls)) (bad_release (last_line ls))
    _ ← run make_prepare
    objects ← ask count_objects
    give (record {
      base_config = base;
      mode = req.mode;
      localversion = localversion;
      kernelrelease = last_line ls;
      fixes = fixes;
      notes =
          notes
          ++ (config_notes base_rust config fixes
              ++ release_notes (last_line ls) (kernelversion req.tarball.version ++ localversion));
      modules = module_count config;
      objects = objects;
    })

  unfoldable pub configure : BuildRequest → FilePath → Job W ConfigSummary
  unfolding extract_tree copy_base run fix_rust tune summarize is_on
  configure req base = do
    extract_tree req.tarball.top_dir
    text ← copy_base base
    _ ← run apply_fixes
    fixes ← fix_rust (is_on text (codes "RUST")) first_fixes
    _ ← run olddefconfig
    (all_fixes, notes) ← tune req.mode fixes
    read ← ask t.read_config
    config ← lift (of_option not_read read)
    summarize req base (is_on text (codes "RUST")) config all_fixes notes
