-- ===== src/Ui/Guarded.antt =====
-- Which callbacks hold the busy state of src/ui.rs, and the handlers that start them.
pub mod Run
pub mod Settled
pub mod Refines
use kernel_pop.Prelude.{
  ℕ, Bool, true, false, not, Option, none, some, inl, inr, if◌then◌else◌, [], ◌∷◌, ◌++◌, List, ◌≡◌,
  refl, sym, ap, ◌∙◌, arith, filter_map, Bool-cases, Option-cases, Result, ok, err, is_some,
}
use kernel_pop.Text.{Text}
use kernel_pop.Source.Tarball.{Tarball, FilePath}
use kernel_pop.Build.Request.{BuildRequest, Prepared}
use kernel_pop.System.Gate.{install_blocker}
use kernel_pop.Ui.State.{
  AppState, ModeChoice, Busy, Task, Action, Finished, guard_of, action_label, new_state,
  is_none_left, config_mode, source_trust,
}
use kernel_pop.Ui.Handlers.{
  Propagation, spawn, begin_busy, end_busy, set_source, drop_file, check_again, set_unverified,
  set_mode, choose_config, start_privileged, click_install_deps, click_refresh, select_release,
  select_set, click_delete, click_download, click_cancel, click_build, click_install, close_request,
  start_install, request_of, file_names, urls_of, cautions, check_staged, and_then, get, is_staged,
  is_privileged_run,
}
use kernel_pop.Ui.Answers.{Answer, SetCheck, complete, abandon}
use kernel_pop.Ui.Steps.{Click, handle, Step, clicks, answers, panics, Reach, starts, steps}

abbrev pub to_list {ℓ} : {A : Type ℓ} → Option A → List A
to_list none = []
to_list (some a) = a ∷ []

-- the labels that the callbacks hold
unfoldable pub holders : List Task → List Busy
holders [] = []
holders (t ∷ ts) = to_list (guard_of t) ++ holders ts

abbrev pub IsGuarded : AppState → Type 0
IsGuarded s = holders s.tasks ≡ to_list s.busy

-- a task that holds nothing is started
spawn-IsGuarded :
    (t : Task) (s : AppState) → guard_of t ≡ none → IsGuarded s → IsGuarded (spawn t s)
unfolding holders
spawn-IsGuarded t s free g = rw free g

-- a task that holds the label is started, where nothing ran
hold :
    (t : Task) (what : Busy) (busy : Option Busy) (ts : List Task)
    → guard_of t ≡ some what
    → holders ts ≡ to_list busy
    → busy ≡ none
    → holders (t ∷ ts) ≡ what ∷ []
unfolding holders
hold t what busy ts holds g idle = rw holds (ap (λ l. what ∷ l) (g ∙ ap to_list idle))

-- `begin_busy` leaves the state, or starts from an idle one
pub begun :
    {A : Type 0} (P : AppState → Type 0) (busy : Option A) (stay started : AppState)
    → P stay
    → (busy ≡ none → P started)
    → P (elim busy [ some running ↦ stay | none ↦ started ])
begun P none stay started p q = q refl
begun P (some running) stay started p q = p

pub set_source-IsGuarded :
    (path : FilePath) (s : AppState) → IsGuarded s → IsGuarded (set_source path s)
unfolding set_source guard_of
set_source-IsGuarded path s g =
    begun IsGuarded s.busy s _ g
      (hold (Task.check_source path) Busy.signature_check s.busy s.tasks refl g)

pub start_privileged-IsGuarded :
    (action : Action) (s : AppState) → IsGuarded s → IsGuarded (start_privileged action s)
unfolding start_privileged guard_of
start_privileged-IsGuarded action s g =
    begun IsGuarded s.busy s _ g
      (hold (Task.privileged action) (action_label action) s.busy s.tasks refl g)

-- either branch of a test, of an option, of the choice of a mode
pub branch : {X : Type 0} (P : X → Type 0) (b : Bool) (s u : X) → P s → P u → P (if b then s else u)
branch P true s u p q = p
branch P false s u p q = q

pub option_branch :
    {A X : Type 0} (P : X → Type 0) (o : Option A) (s : X) (f : A → X)
    → P s
    → ((a : A) → o ≡ some a → P (f a))
    → P (elim o [ none ↦ s | some a ↦ f a ])
option_branch P none s f p q = p
option_branch P (some a) s f p q = q a refl

pub mode_branch :
    (P : AppState → Type 0) (m : ModeChoice) (s u : AppState)
    → P s
    → P u
    → P (elim m [ ModeChoice.matching ↦ s | ModeChoice.tuned ↦ s | ModeChoice.own ↦ u ])
mode_branch P ModeChoice.matching s u p q = p
mode_branch P ModeChoice.tuned s u p q = p
mode_branch P ModeChoice.own s u p q = q

choose_config-IsGuarded :
    (path : FilePath) (s : AppState) → IsGuarded s → IsGuarded (choose_config path s)
unfolding choose_config set_mode holders guard_of
choose_config-IsGuarded path s g = mode_branch IsGuarded s.mode _ _ g g

pub start_install-IsGuarded : (s : AppState) → IsGuarded s → IsGuarded (start_install s)
unfolding start_install guard_of
start_install-IsGuarded s g =
    branch IsGuarded s.staged_verified _ s
      (option_branch IsGuarded s.staged s _ g (λ set e.
        begun IsGuarded s.busy s _ g
          (hold (Task.install set) Busy.kernel_install s.busy s.tasks refl g)))
      g

click_download-IsGuarded : (s : AppState) → IsGuarded s → IsGuarded (click_download s)
unfolding click_download guard_of
click_download-IsGuarded s g = option_branch IsGuarded s.selected_release s _ g (λ r e.
    option_branch IsGuarded (file_names (urls_of r)) s _ g (λ names f.
      begun IsGuarded s.busy s _ g
        (hold (Task.download_files (urls_of r)) Busy.download s.busy s.tasks refl g)))

click_build-IsGuarded : (s : AppState) → IsGuarded s → IsGuarded (click_build s)
unfolding click_build guard_of
click_build-IsGuarded s g =
    option_branch IsGuarded (request_of s) s _ g
      (λ r e. begun IsGuarded s.busy s _ g (hold (Task.prepare r) Busy.build s.busy s.tasks refl g))

pub select_set-IsGuarded :
    (index : Option ℕ) (s : AppState) → IsGuarded s → IsGuarded (select_set index s)
unfolding select_set guard_of holders
select_set-IsGuarded index s g = branch IsGuarded _ s _ g (checked (and_then (get s.built) index))
  where
    checked :
        (set : Option Finished)
        → IsGuarded (check_staged set (record s { staged = set; staged_verified = false }))
    checked none = g
    checked (some set) = g

pub list_branch :
    {A : Type 0} (P : AppState → Type 0) (xs : List A) (s u : AppState)
    → P s
    → P u
    → P (elim xs [ [] ↦ s | w ∷ ws ↦ u ])
list_branch P [] s u p q = p
list_branch P (x ∷ xs) s u p q = q

click_install-IsGuarded : (s : AppState) → IsGuarded s → IsGuarded (click_install s)
unfolding click_install guard_of holders
click_install-IsGuarded s g =
    begun IsGuarded (install_blocker s.sysinfo) s _ g
      (λ free. list_branch IsGuarded (cautions s) _ _ (start_install-IsGuarded s g) g)

close_request-IsGuarded : (s : AppState) → IsGuarded s → IsGuarded (close_request s).1
unfolding close_request
close_request-IsGuarded s g =
    branch (λ (p : Propagation × AppState). IsGuarded p.1) (is_privileged_run s.busy) _ _ g
      (option_branch (λ (p : Propagation × AppState). IsGuarded p.1) s.build_control _ _ g
        (λ c e. g))

pub handle-IsGuarded : (c : Click) (s : AppState) → IsGuarded s → IsGuarded (handle c s)
unfolding handle drop_file check_again set_unverified set_mode click_install_deps click_refresh
    select_release click_delete click_cancel holders guard_of
handle-IsGuarded (Click.open_file path) s g = set_source-IsGuarded path s g
handle-IsGuarded (Click.dropped_file path) s g =
    begun IsGuarded s.busy s _ g (λ idle. set_source-IsGuarded path s g)
handle-IsGuarded (Click.chosen_config path) s g = choose_config-IsGuarded path s g
handle-IsGuarded Click.recheck s g =
    option_branch IsGuarded s.source s _ g (λ t e. set_source-IsGuarded t.origin s g)
handle-IsGuarded Click.install_deps s g =
    branch IsGuarded (is_none_left s.missing_deps) s _ g
      (start_privileged-IsGuarded (Action.install_build_deps s.missing_deps) s g)
handle-IsGuarded Click.refresh_list s g = g
handle-IsGuarded Click.delete_build s g = option_branch IsGuarded s.staged s _ g (λ set e. g)
handle-IsGuarded Click.download_release s g = click_download-IsGuarded s g
handle-IsGuarded Click.cancel s g = g
handle-IsGuarded Click.build_kernel s g = click_build-IsGuarded s g
handle-IsGuarded Click.install_build s g = click_install-IsGuarded s g
handle-IsGuarded Click.close s g = close_request-IsGuarded s g
handle-IsGuarded Click.prune_kernels s g = g
handle-IsGuarded Click.set_up_signing s g = g
handle-IsGuarded (Click.toggle_unverified true) s g = branch IsGuarded s.allow_unverified s _ g g
handle-IsGuarded (Click.toggle_unverified false) s g = branch IsGuarded s.allow_unverified _ s g g
handle-IsGuarded (Click.choose_mode m) s g = g
handle-IsGuarded (Click.release_row title) s g = option_branch IsGuarded title _ _ g (λ v e. g)
handle-IsGuarded (Click.build_row index) s g = select_set-IsGuarded index s g
handle-IsGuarded (Click.sign_kernel version) s g =
    start_privileged-IsGuarded (Action.sign version) s g
handle-IsGuarded (Click.boot_kernel version) s g =
    start_privileged-IsGuarded (Action.boot_once version) s g
handle-IsGuarded (Click.remove_kernel version) s g = g
