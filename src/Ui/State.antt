-- ===== src/Ui/State.antt =====
-- `AppState` of src/ui.rs, with the callbacks that wait for an answer, and what it lets the user do.
use kernel_pop.Prelude.{
  ℕ, Bool, true, false, not, Option, none, some, [], ◌∷◌, ◌&&◌, ◌||◌, if◌then◌else◌, List, is_some,
  map_option,
}
use kernel_pop.Text.{Text}
use kernel_pop.Releases.{Release}
use kernel_pop.Source.Tarball.{FilePath, Tarball}
use kernel_pop.Verify.Address.{Signer}
use kernel_pop.System.Prune.{InstalledKernel}
use kernel_pop.System.Gate.{SystemInfo}
use kernel_pop.Build.Sets.{ConfigMode, match_system, tuned_for_machine, BuiltSet}
use kernel_pop.Build.Request.{SourceTrust, unverified, BuildRequest, Prepared, display}

-- what is running: the labels that `begin_busy` is called with
pub data Busy : Type 0 where
  signature_check download build : Busy
  signing boot_selection kernel_removal signing_setup build_tools_install kernel_install : Busy

-- `PRIVILEGED_ACTIONS.contains(what)`
unfoldable pub is_privileged : Busy → Bool
is_privileged signature_check = false
is_privileged download = false
is_privileged build = false
is_privileged signing = true
is_privileged boot_selection = true
is_privileged kernel_removal = true
is_privileged signing_setup = true
is_privileged build_tools_install = true
is_privileged kernel_install = true

pub data SigState : Type 0 where
  unchecked checking : SigState
  verified : Signer → SigState
  failed : Text → SigState

pub data ModeChoice : Type 0 where
  matching tuned own : ModeChoice

-- a finished build, with the directory that it is in
pub record Finished : Type 0 where
  pub dir : FilePath
  pub set : BuiltSet

-- a run of the privileged script other than an install
pub data Action : Type 0 where
  sign boot_once remove setup_signing : Text → Action
  remove_many install_build_deps : List Text → Action

-- the label that its handler begins with
unfoldable pub action_label : Action → Busy
action_label (sign version) = signing
action_label (boot_once version) = boot_selection
action_label (remove version) = kernel_removal
action_label (remove_many versions) = kernel_removal
action_label (setup_signing password) = signing_setup
action_label (install_build_deps missing) = build_tools_install

-- A callback that waits: for a task of another thread, or for the user's response to a dialog.
pub data Task : Type 0 where
  check_source : FilePath → Task
  download_files : List Text → Task
  prepare : BuildRequest → Task
  confirm_build : Prepared → Task
  discard build : Prepared → Task
  privileged : Action → Task
  install : Finished → Task
  check_set : Finished → Task
  list_builds : Option FilePath → Task
  confirm_unverified : Task
  confirm_delete : Finished → Task
  confirm_install : Task
  confirm_remove : Text → Task
  confirm_prune : List Text → Task
  ask_prune ask_password fetch_list : Task
  check_requirements : Task
  read_system : Task

-- The fields of the state, with the cancel flag of a download and of a build as a value, and whether
-- the time of a build runs. `running_kernel`, `kernels`
-- and `free_root_bytes` are fields of the system information.
pub record AppState : Type 0 where
  pub releases : List Release
  pub selected_release : Option Release
  pub source : Option Tarball
  pub signature : SigState
  pub allow_unverified : Bool
  pub mode : ModeChoice
  pub own_config : Option FilePath
  pub missing_deps : List Text
  pub built : List Finished
  pub staged : Option Finished
  pub staged_verified : Bool
  pub sysinfo : SystemInfo
  pub running_kernel : Text
  pub kernels : List InstalledKernel
  pub free_root_bytes : Option ℕ
  pub download_cancel : Option Bool
  pub build_control : Option Bool
  pub build_started : Bool
  pub busy : Option Busy
  pub tasks : List Task

-- `Default::default()`, with what the window starts at once
abbrev pub new_state : SystemInfo → AppState
new_state sysinfo = record {
  releases = [];
  selected_release = none;
  source = none;
  signature = unchecked;
  allow_unverified = false;
  mode = matching;
  own_config = none;
  missing_deps = [];
  built = [];
  staged = none;
  staged_verified = false;
  sysinfo = sysinfo;
  running_kernel = [];
  kernels = [];
  free_root_bytes = none;
  download_cancel = none;
  build_control = none;
  build_started = false;
  busy = none;
  tasks = list_builds none ∷ check_requirements ∷ fetch_list ∷ read_system ∷ [];
}

-- the label of the busy state that the callback releases
unfoldable pub guard_of : Task → Option Busy
guard_of (check_source path) = some signature_check
guard_of (download_files urls) = some download
guard_of (prepare request) = some build
guard_of (confirm_build prepared) = some build
guard_of (discard prepared) = some build
guard_of (build prepared) = some build
guard_of (privileged action) = some (action_label action)
guard_of (install set) = some kernel_install
guard_of (check_set set) = none
guard_of (list_builds select) = none
guard_of confirm_unverified = none
guard_of (confirm_delete set) = none
guard_of confirm_install = none
guard_of (confirm_remove version) = none
guard_of (confirm_prune versions) = none
guard_of ask_prune = none
guard_of ask_password = none
guard_of fetch_list = none
guard_of check_requirements = none
guard_of read_system = none

unfoldable pub config_mode : AppState → Option ConfigMode
unfolding display
config_mode s = elim s.mode [
  | matching ↦ some match_system
  | tuned ↦ some tuned_for_machine
  | own ↦ map_option (λ path. ConfigMode.own_config (display path)) s.own_config
]

abbrev pub trust_of : SigState → Bool → Option SourceTrust
trust_of unchecked allow = none
trust_of checking allow = none
trust_of (verified signer) allow = some (SourceTrust.verified signer)
trust_of (failed reason) allow = if allow then some (unverified reason) else none

unfoldable pub source_trust : AppState → Option SourceTrust
source_trust s = trust_of s.signature s.allow_unverified

abbrev pub is_none_left : List Text → Bool
is_none_left [] = true
is_none_left (d ∷ ds) = false

unfoldable pub can_build : AppState → Bool
unfolding source_trust config_mode
can_build s =
    is_some s.source
    && (is_some (source_trust s) && (is_none_left s.missing_deps && is_some (config_mode s)))

-- which controls take a click, or are seen
pub record Controls : Type 0 where
  pub download_sensitive : Bool
  pub build_sensitive : Bool
  pub install_sensitive : Bool
  pub others_sensitive : Bool
  pub deps_visible : Bool
  pub delete_visible : Bool
  pub cancel_visible : Bool
  pub cancels_build : Bool
  pub failed_visible : Bool

abbrev pub is_failed : SigState → Bool
is_failed unchecked = false
is_failed checking = false
is_failed (verified signer) = false
is_failed (failed reason) = true

unfoldable pub controls : AppState → Controls
unfolding can_build
controls s =
    let idle = not (is_some s.busy) in
    record {
      download_sensitive = idle && is_some s.selected_release;
      build_sensitive = idle && can_build s;
      install_sensitive = idle && (is_some s.staged && s.staged_verified);
      others_sensitive = idle;
      deps_visible = not (is_none_left s.missing_deps);
      delete_visible = is_some s.staged;
      cancel_visible = is_some s.download_cancel || is_some s.build_control;
      cancels_build = is_some s.build_control;
      failed_visible = is_failed s.signature;
    }
