-- ===== src/Ui/Handlers.antt =====
-- What the user does: the handlers of src/ui.rs up to the task that they start.
use kernel_pop.Prelude.{
  ℕ, zero, suc, ◌*◌, Bool, true, false, Option, none, some, [], ◌∷◌, ◌&&◌, ◌++◌, if◌then◌else◌,
  List, find, ltb,
}
use kernel_pop.Text.{Text, codes, text_eq, starts_with}
use kernel_pop.Releases.{Release, url_file_name}
use kernel_pop.Source.Tarball.{FilePath}
use kernel_pop.Build.Request.{BuildRequest}
use kernel_pop.System.Gate.{Warning, install_blocker, install_warnings}
use kernel_pop.Ui.State.{
  AppState, Busy, SigState, ModeChoice, Task, Action, Finished, action_label, config_mode,
  source_trust, is_privileged, is_none_left,
}
use kernel_pop.Ui.Same.{same_finished}

abbrev pub spawn : Task → AppState → AppState
spawn t s = record s { tasks = t ∷ s.tasks }

-- `begin_busy(what)?`, with what the handler does behind it
abbrev pub begin_busy : Busy → (AppState → AppState) → AppState → AppState
begin_busy what next s = elim s.busy [
  | some running ↦ s
  | none ↦ next (record s { busy = some what })
]

unfoldable pub end_busy : AppState → AppState
end_busy s = record s {
  busy = none;
  download_cancel = none;
  build_control = none;
  build_started = false;
}

unfoldable pub set_source : FilePath → AppState → AppState
set_source path s =
    begin_busy Busy.signature_check
      (λ r.
        spawn (Task.check_source path)
          (record r { source = none; signature = SigState.checking; allow_unverified = false }))
      s

unfoldable pub drop_file : FilePath → AppState → AppState
unfolding set_source
drop_file path s = elim s.busy [ some running ↦ s | none ↦ set_source path s ]

unfoldable pub check_again : AppState → AppState
unfolding set_source
check_again s = elim s.source [ none ↦ s | some t ↦ set_source t.origin s ]

unfoldable pub set_unverified : Bool → AppState → AppState
set_unverified true s = if s.allow_unverified then s else spawn Task.confirm_unverified s
set_unverified false s = if s.allow_unverified then record s { allow_unverified = false } else s

unfoldable pub set_mode : ModeChoice → AppState → AppState
set_mode m s = spawn Task.check_requirements (record s { mode = m })

-- the file that the dialog gave; the check button of the mode is set, which tells its handler
unfoldable pub choose_config : FilePath → AppState → AppState
unfolding set_mode
choose_config path s =
    let chosen = record s { own_config = some path } in
    elim s.mode [
      | ModeChoice.matching ↦ set_mode ModeChoice.own chosen
      | ModeChoice.tuned ↦ set_mode ModeChoice.own chosen
      | ModeChoice.own ↦ chosen
    ]

unfoldable pub start_privileged : Action → AppState → AppState
start_privileged action s = begin_busy (action_label action) (spawn (Task.privileged action)) s

unfoldable pub click_install_deps : AppState → AppState
unfolding start_privileged
click_install_deps s =
    if is_none_left s.missing_deps
    then s
    else start_privileged (Action.install_build_deps s.missing_deps) s

-- the list is fetched again
unfoldable pub click_refresh : AppState → AppState
click_refresh s = spawn Task.fetch_list (record s { selected_release = none })

unfoldable pub select_release : Option Text → AppState → AppState
select_release title s = elim title [
  | none ↦ record s { selected_release = none }
  | some version ↦ record s { selected_release = find (λ r. text_eq r.version version) s.releases }
]

abbrev pub and_then {ℓ κ} : {A : Type ℓ} {B : Type κ} → (A → Option B) → Option A → Option B
and_then f none = none
and_then f (some a) = f a

abbrev pub get : List Finished → ℕ → Option Finished
get [] i = none
get (x ∷ xs) zero = some x
get (x ∷ xs) (suc i) = get xs i

-- `state.staged == set`, where a set is selected
abbrev pub is_staged : Option Finished → Option Finished → Bool
is_staged none staged = false
is_staged (some set) none = false
is_staged (some set) (some other) = same_finished set other

abbrev pub check_staged : Option Finished → AppState → AppState
check_staged none s = s
check_staged (some set) s = spawn (Task.check_set set) s

-- a row of the list of builds, by its index
unfoldable pub select_set : Option ℕ → AppState → AppState
select_set index s =
    let set = and_then (get s.built) index in
    if is_staged set s.staged && s.staged_verified
    then s
    else check_staged set (record s { staged = set; staged_verified = false })

unfoldable pub click_delete : AppState → AppState
click_delete s = elim s.staged [ none ↦ s | some set ↦ spawn (Task.confirm_delete set) s ]

-- each URL has to end in a file name
unfoldable pub file_names : List Text → Option (List Text)
unfolding url_file_name
file_names [] = some []
file_names (url ∷ urls) = elim (url_file_name url) [
  | none ↦ none
  | some name ↦ elim (file_names urls) [ none ↦ none | some names ↦ some (name ∷ names) ]
]

abbrev pub urls_of : Release → List Text
urls_of r = r.source ∷ elim r.pgp [ none ↦ [] | some pgp ↦ pgp ∷ [] ]

unfoldable pub click_download : AppState → AppState
unfolding file_names
click_download s = elim s.selected_release [
  | none ↦ s
  | some r ↦ elim (file_names (urls_of r)) [
    | none ↦ s
    | some names ↦
        begin_busy Busy.download
          (λ u. spawn (Task.download_files (urls_of r)) (record u { download_cancel = some false }))
          s
  ]
]

abbrev pub set_flag : Option Bool → Option Bool
set_flag none = none
set_flag (some f) = some true

unfoldable pub click_cancel : AppState → AppState
click_cancel s = record s {
  download_cancel = set_flag s.download_cancel;
  build_control = set_flag s.build_control;
}

unfoldable pub request_of : AppState → Option BuildRequest
unfolding source_trust config_mode
request_of s = elim s.source [
  | none ↦ none
  | some tarball ↦ elim (source_trust s) [
    | none ↦ none
    | some trust ↦ elim (config_mode s) [
      | none ↦ none
      | some mode ↦
          if is_none_left s.missing_deps
          then some (record {
            tarball = tarball;
            trust = trust;
            mode = mode;
            running_kernel = s.running_kernel;
          })
          else none
    ]
  ]
]

unfoldable pub click_build : AppState → AppState
unfolding request_of
click_build s = elim (request_of s) [
  | none ↦ s
  | some request ↦
      begin_busy Busy.build
        (λ r.
          spawn (Task.prepare request)
            (record r { build_control = some false; build_started = true }))
        s
]

unfoldable pub start_install : AppState → AppState
start_install s =
    if s.staged_verified
    then elim s.staged [
      | none ↦ s
      | some set ↦ begin_busy Busy.kernel_install (spawn (Task.install set)) s
    ]
    else s

-- what the dialog before an install warns of
pub data Caution : Type 0 where
  of_boot : Warning → Caution
  root_space : ℕ → Caution
  unverified_source : Caution

abbrev pub min_root_bytes : ℕ
min_root_bytes = 2 * 1024 * 1024 * 1024

abbrev pub low_root : Option ℕ → List Caution
low_root none = []
low_root (some f) = if ltb f min_root_bytes then root_space f ∷ [] else []

abbrev pub unverified_set : Option Finished → List Caution
unverified_set none = []
unverified_set (some f) =
    if starts_with (codes "UNVERIFIED") f.set.source then unverified_source ∷ [] else []

abbrev pub of_warnings : List Warning → List Caution
of_warnings [] = []
of_warnings (w ∷ ws) = of_boot w ∷ of_warnings ws

unfoldable pub cautions : AppState → List Caution
unfolding install_warnings starts_with
cautions s =
    of_warnings (install_warnings s.sysinfo)
    ++ low_root s.free_root_bytes
    ++ unverified_set s.staged

unfoldable pub click_install : AppState → AppState
unfolding install_blocker cautions start_install
click_install s = elim (install_blocker s.sysinfo) [
  | some why ↦ s
  | none ↦ elim (cautions s) [ [] ↦ start_install s | w ∷ ws ↦ spawn Task.confirm_install s ]
]

-- whether the window closes now
pub data Propagation : Type 0 where
  stop proceed : Propagation

abbrev pub is_privileged_run : Option Busy → Bool
is_privileged_run none = false
is_privileged_run (some what) = is_privileged what

unfoldable pub close_request : AppState → Propagation × AppState
unfolding is_privileged
close_request s = if is_privileged_run s.busy then (stop, s) else elim s.build_control [
  | none ↦ (proceed, s)
  | some cancelled ↦ (stop, record s { build_control = some true })
]
