-- ===== src/Ui/Answers.antt =====
-- The callbacks of src/ui.rs: what happens when a task has ended or the user answers a dialog.
use kernel_pop.Prelude.{
  ℕ, suc, zero, Bool, true, false, Option, none, some, [], ◌∷◌, if◌then◌else◌, List, Result, ok,
  err, or_option, map_option, any, is_some,
}
use kernel_pop.Text.{Text, text_eq}
use kernel_pop.Releases.{Release}
use kernel_pop.Source.Tarball.{FilePath, Tarball}
use kernel_pop.Verify.Address.{Signer}
use kernel_pop.Build.Request.{Prepared}
use kernel_pop.System.Gate.{SystemInfo}
use kernel_pop.System.Prune.{InstalledKernel, prune_candidates}
use kernel_pop.Install.{PasswordProblem, validate_mok_password}
use kernel_pop.Ui.State.{AppState, SigState, Task, Action, Finished, is_none_left, guard_of}
use kernel_pop.Ui.Same.{same_texts}
use kernel_pop.Ui.Handlers.{
  spawn, end_busy, set_source, start_privileged, start_install, select_set, is_staged,
}

-- how the check of a finished build ended
pub data SetCheck : Type 0 where
  intact changed task_error : SetCheck

-- the machine as `query_system` found it
pub record Machine : Type 0 where
  pub sysinfo : SystemInfo
  pub running_kernel : Text
  pub kernels : List InstalledKernel
  pub free_root_bytes : Option ℕ

-- what a task can answer; `none` is an error or a cancel
unfoldable pub Answer : Task → Type 0
Answer (Task.check_source path) = Option (Tarball × Result Text Signer)
Answer (Task.download_files urls) = Option (List FilePath)
Answer (Task.prepare request) = Option Prepared
Answer (Task.confirm_build prepared) = Bool
Answer (Task.discard prepared) = Unit {0}
Answer (Task.build prepared) = Option FilePath
Answer (Task.privileged action) = Bool
Answer (Task.install set) = Bool
Answer (Task.check_set set) = SetCheck
Answer (Task.list_builds select) = List Finished
Answer Task.confirm_unverified = Bool
Answer (Task.confirm_delete set) = Bool
Answer Task.confirm_install = Bool
Answer (Task.confirm_remove version) = Bool
Answer (Task.confirm_prune versions) = Bool
Answer Task.ask_prune = Option ℕ
Answer Task.ask_password = Option (Text × Text)
Answer Task.fetch_list = Option (List Release)
Answer Task.check_requirements = Option (List Text)
Answer Task.read_system = Machine

unfoldable pub source_checked : Option (Tarball × Result Text Signer) → AppState → AppState
unfolding end_busy
source_checked none s = record (end_busy s) { signature = SigState.unchecked }
source_checked (some (tarball, ok signer)) s = record (end_busy s) {
  source = some tarball;
  signature = SigState.verified signer;
}
source_checked (some (tarball, err why)) s = record (end_busy s) {
  source = some tarball;
  signature = SigState.failed why;
}

unfoldable pub downloaded : Option (List FilePath) → AppState → AppState
unfolding end_busy set_source
downloaded none s = end_busy s
downloaded (some []) s = end_busy s
downloaded (some (tarball ∷ paths)) s = set_source tarball (end_busy s)

-- the closure of that name in the handler of the Build button
unfoldable pub finish : AppState → AppState
unfolding end_busy
finish s = spawn Task.check_requirements (end_busy s)

unfoldable pub prepared_tree : Option Prepared → AppState → AppState
unfolding finish
prepared_tree none s = finish s
prepared_tree (some p) s = spawn (Task.confirm_build p) (record s { build_started = false })

unfoldable pub build_response : Prepared → Bool → AppState → AppState
build_response p false s = spawn (Task.discard p) s
build_response p true s = spawn (Task.build p) (record s { build_started = true })

unfoldable pub built_packages : Option FilePath → AppState → AppState
unfolding finish
built_packages none s = finish s
built_packages (some dir) s = spawn (Task.list_builds (some dir)) (finish s)

-- what each run of the script reloads
unfoldable pub reload_after : Action → AppState → AppState
reload_after (Action.sign version) s = spawn Task.read_system s
reload_after (Action.boot_once version) s = s
reload_after (Action.remove version) s = spawn Task.read_system s
reload_after (Action.setup_signing password) s = spawn Task.read_system s
reload_after (Action.remove_many versions) s = spawn Task.read_system s
reload_after (Action.install_build_deps missing) s = spawn Task.check_requirements s

unfoldable pub privileged_done : Action → AppState → AppState
unfolding end_busy reload_after
privileged_done action s = reload_after action (end_busy s)

unfoldable pub installed : AppState → AppState
unfolding end_busy
installed s = spawn Task.read_system (end_busy s)

unfoldable pub set_checked : Finished → SetCheck → AppState → AppState
unfolding select_set
set_checked set result s =
    if is_staged (some set) s.staged
    then elim result [
      | intact ↦ record s { staged_verified = true }
      | changed ↦ select_set none s
      | task_error ↦ s
    ]
    else s

-- the last row that is to be selected: that of the directory, or the first one
unfoldable pub row_of : Option FilePath → ℕ → List Finished → Option ℕ
row_of keep i [] = none
row_of none zero (set ∷ sets) = or_option (row_of none 1 sets) (some zero)
row_of none (suc i) (set ∷ sets) = row_of none (suc (suc i)) sets
row_of (some dir) i (set ∷ sets) =
    or_option (row_of (some dir) (suc i) sets) (if same_texts dir set.dir then some i else none)

unfoldable pub select_found : Option ℕ → AppState → AppState
unfolding select_set
select_found none s = s
select_found (some i) s = select_set (some i) s

unfoldable pub builds_listed : Option FilePath → List Finished → AppState → AppState
unfolding row_of select_found
builds_listed select sets s =
    let keep = or_option select (map_option (λ f. f.dir) s.staged) in
    select_found (row_of keep 0 sets)
      (record s { built = sets; staged = none; staged_verified = false })

-- the directory is deleted by then, where it could be
unfoldable pub delete_response : Bool → AppState → AppState
delete_response false s = s
delete_response true s =
    spawn (Task.list_builds none) (record s { staged = none; staged_verified = false })

unfoldable pub install_response : Bool → AppState → AppState
unfolding start_install
install_response agreed s = if agreed then start_install s else s

unfoldable pub remove_response : Text → Bool → AppState → AppState
unfolding start_privileged
remove_response version agreed s = if agreed then start_privileged (Action.remove version) s else s

unfoldable pub prune_response : List Text → Bool → AppState → AppState
unfolding start_privileged
prune_response versions agreed s =
    if agreed then start_privileged (Action.remove_many versions) s else s

-- how many kernels are to be kept
unfoldable pub review_response : Option ℕ → AppState → AppState
unfolding prune_candidates
review_response none s = s
review_response (some keep) s =
    let candidates = prune_candidates s.kernels keep in
    if is_none_left candidates then s else spawn (Task.confirm_prune candidates) s

abbrev pub is_valid : Result PasswordProblem (Unit {0}) → Bool
is_valid (ok u) = true
is_valid (err e) = false

-- the password and its repetition
unfoldable pub password_response : Option (Text × Text) → AppState → AppState
unfolding start_privileged validate_mok_password
password_response none s = s
password_response (some (password, confirm)) s =
    if is_valid (validate_mok_password password confirm)
    then start_privileged (Action.setup_signing password) s
    else s

-- the first release of each version
unfoldable pub retain_first : List Text → List Release → List Release
unfolding text_eq
retain_first seen [] = []
retain_first seen (r ∷ rs) =
    let rest = retain_first (r.version ∷ seen) rs in
    if any (text_eq r.version) seen then retain_first seen rs else r ∷ rest

unfoldable pub releases_listed : Option (List Release) → AppState → AppState
unfolding retain_first
releases_listed none s = s
releases_listed (some rs) s = record s { releases = retain_first [] rs }

abbrev pub requirements_checked : Option (List Text) → AppState → AppState
requirements_checked none s = s
requirements_checked (some missing) s = record s { missing_deps = missing }

abbrev pub system_read : Machine → AppState → AppState
system_read m s = record s {
  sysinfo = m.sysinfo;
  running_kernel = m.running_kernel;
  kernels = m.kernels;
  free_root_bytes = m.free_root_bytes;
}

unfoldable pub complete : (t : Task) → Answer t → AppState → AppState
unfolding source_checked downloaded prepared_tree build_response finish built_packages
    privileged_done installed set_checked builds_listed delete_response install_response
    remove_response prune_response review_response password_response releases_listed Answer
complete (Task.check_source path) answer s = source_checked answer s
complete (Task.download_files urls) answer s = downloaded answer s
complete (Task.prepare request) answer s = prepared_tree answer s
complete (Task.confirm_build prepared) answer s = build_response prepared answer s
complete (Task.discard prepared) answer s = finish s
complete (Task.build prepared) answer s = built_packages answer s
complete (Task.privileged action) answer s = privileged_done action s
complete (Task.install set) answer s = installed s
complete (Task.check_set set) answer s = set_checked set answer s
complete (Task.list_builds select) answer s = builds_listed select answer s
complete Task.confirm_unverified answer s = record s { allow_unverified = answer }
complete (Task.confirm_delete set) answer s = delete_response answer s
complete Task.confirm_install answer s = install_response answer s
complete (Task.confirm_remove version) answer s = remove_response version answer s
complete (Task.confirm_prune versions) answer s = prune_response versions answer s
complete Task.ask_prune answer s = review_response answer s
complete Task.ask_password answer s = password_response answer s
complete Task.fetch_list answer s = releases_listed answer s
complete Task.check_requirements answer s = requirements_checked answer s
complete Task.read_system answer s = system_read answer s

-- The callback of a task that panicked is dropped: the busy state that it holds ends.
unfoldable pub abandon : Task → AppState → AppState
unfolding end_busy
abandon t s = if is_some (guard_of t) then end_busy s else s
