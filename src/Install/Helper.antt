-- ===== src/Install/Helper.antt =====
-- src/install.rs: the installed privileged helper against the bundled one, and the runs through pkexec.
pub mod Guarded
use kernel_pop.Prelude.{
  ℕ, Bool, true, false, Option, none, some, [], ◌∷◌, ◌++◌, ◌&&◌, List, ◌≡◌, ◌≢◌, refl, arith, ◌↔◌,
  ◌⊎◌, inl, inr, Result, ok, err, if◌then◌else◌, ap, sym, ◌∙◌, map_option, Bool-cases,
}
use kernel_pop.Text.{Text, codes, text_eq, text_eq_sound, text_eq_refl, ℤ, pos, ℤ_eq}
use kernel_pop.Install.{Described, describe_failure}

-- What is at a path: nothing, a file that cannot be read, or its bytes.
pub data File : Type 0 where
  absent unreadable : File
  bytes : List ℕ → File

abbrev pub exists_file : File → Bool
exists_file absent = false
exists_file unreadable = true
exists_file (bytes b) = true

pub data HelperProblem : Type 0 where
  not_installed incomplete_build another_version missing : HelperProblem

-- the bundled copy of the one helper file against the installed one
unfoldable pub compare_files : File → File → Option HelperProblem
unfolding text_eq
compare_files absent installed = some incomplete_build
compare_files unreadable installed = some incomplete_build
compare_files (bytes want) absent = some missing
compare_files (bytes want) unreadable = some missing
compare_files (bytes want) (bytes have) = if text_eq have want then none else some another_version

-- The bundle is none outside an AppImage; `installed` is the script under the root.
unfoldable pub helper_problem_in : Option File → File → Option HelperProblem
unfolding compare_files
helper_problem_in none installed = if exists_file installed then none else some not_installed
helper_problem_in (some bundled) installed = compare_files bundled installed

-- one start of pkexec: the arguments behind the script's path, and what is written to its stdin
pub record Invocation : Type 0 where
  pub args : List Text
  pub stdin : Option Text

-- how a process ended; the code is none if a signal killed it
pub record Output : Type 0 where
  pub code : Option ℤ
  pub stdout : Text
  pub stderr : Text

pub data RunError : Type 0 where
  helper : HelperProblem → RunError
  launch no_wait no_directory : RunError
  failed : Described → RunError

-- what pkexec does with an invocation
pub data Started : Type 0 where
  cannot_start cannot_wait : Started
  ended : Output → Started

abbrev pub is_success : Option ℤ → Bool
is_success none = false
is_success (some c) = ℤ_eq c (pos 0)

unfoldable pub outcome : Started → Result RunError Text
unfolding describe_failure ℤ_eq
outcome cannot_start = err launch
outcome cannot_wait = err no_wait
outcome (ended o) =
    if is_success o.code
    then ok o.stdout
    else err (failed (describe_failure o.code o.stdout o.stderr))

-- the processes that were started, and the result
abbrev pub Run : Type 0
Run = List Invocation × Result RunError Text

-- `bundle` and `installed` are what `helper_problem` meets when the operation asks it
module _ (pkexec : Invocation → Started) (bundle : Option File) (installed : File) where
  unfoldable pub run_script_with_stdin : List Text → Option Text → Run
  unfolding outcome helper_problem_in
  run_script_with_stdin args secret = elim (helper_problem_in bundle installed) [
    | some p ↦ ([], err (helper p))
    | none ↦
        let call : Invocation = record {
          args = args;
          stdin = map_option (λ s. s ++ 10 ∷ []) secret;
        } in
        (call ∷ [], outcome (pkexec call))
  ]

  unfoldable pub run_script : List Text → Run
  unfolding run_script_with_stdin
  run_script args = run_script_with_stdin args none

  unfoldable pub setup_signing : Text → Run
  unfolding run_script_with_stdin
  setup_signing password = run_script_with_stdin (codes "--setup-signing" ∷ []) (some password)

  unfoldable pub sign : Text → Run
  unfolding run_script
  sign version = run_script (codes "--sign" ∷ version ∷ [])

  -- `is_dir` says whether the set's directory is there
  unfoldable pub install : Bool → Text → Run
  unfolding run_script
  install is_dir deb_dir =
      if is_dir then run_script (codes "--install" ∷ deb_dir ∷ []) else ([], err no_directory)

  unfoldable pub install_build_deps : List Text → Run
  unfolding run_script
  install_build_deps packages = run_script (codes "--install-build-deps" ∷ packages)

  unfoldable pub remove : Text → Run
  unfolding run_script
  remove version = run_script (codes "--remove" ∷ version ∷ [])

  unfoldable pub remove_many : List Text → Run
  unfolding run_script
  remove_many versions = run_script (codes "--remove-many" ∷ versions)

  unfoldable pub boot_once : Text → Run
  unfolding run_script
  boot_once version = run_script (codes "--boot-once" ∷ version ∷ [])
