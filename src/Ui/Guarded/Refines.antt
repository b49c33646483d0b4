-- ===== src/Ui/Guarded/Refines.antt =====
-- The busy state of src/ui.rs as a lock: what a click may do to it.
pub mod Run
use mathlib.Core.Path.{subst}
use kernel_pop.Prelude.{
  ℕ, Bool, true, false, Option, none, some, inl, inr, [], ◌∷◌, ◌++◌, List, ◌≡◌, refl, sym, ap, ◌∙◌,
  Result, ok, err, Option-cases,
}
use kernel_pop.Text.{Text}
use kernel_pop.Verify.Address.{Signer}
use kernel_pop.Source.Tarball.{Tarball, FilePath}
use kernel_pop.System.Gate.{install_blocker}
use kernel_pop.Ui.State.{
  AppState, Busy, Task, Action, Finished, guard_of, action_label, is_none_left,
}
use kernel_pop.Ui.Handlers.{
  Propagation, end_busy, set_source, start_privileged, start_install, select_set, check_staged,
  and_then, get, drop_file, check_again, set_unverified, set_mode, choose_config,
  click_install_deps, click_refresh, select_release, click_delete, click_download, click_cancel,
  click_build, click_install, close_request, request_of, file_names, urls_of, cautions,
  is_privileged_run,
}
use kernel_pop.Ui.Answers.{
  Answer, SetCheck, complete, abandon, source_checked, downloaded, finish, prepared_tree,
  build_response, built_packages, reload_after, privileged_done, installed, set_checked, row_of,
  select_found, builds_listed, delete_response, install_response, remove_response, prune_response,
  review_response, password_response, releases_listed,
}
use kernel_pop.Ui.Steps.{Click, handle, Step, clicks, answers, panics, Reach}
use kernel_pop.Ui.Guarded.{
  to_list, holders, IsGuarded, begun, branch, option_branch, mode_branch, list_branch,
}
use kernel_pop.Ui.Guarded.Run.{Reach-IsGuarded, holders-front}

-- The lock: an action begins only where none runs, and ends only into idleness; a download alone hands
-- on, to the check of the first file that it has delivered.
pub data LockStep (delivered : Option FilePath) (before after : Option Busy) (tasks : List Task)
    : Type 0 where
  stays : after ≡ before → LockStep delivered before after tasks
  begins : (what : Busy) → before ≡ none → after ≡ some what → LockStep delivered before after tasks
  ends : (what : Busy) → before ≡ some what → after ≡ none → LockStep delivered before after tasks
  hands_on :
      (path : FilePath) (others : List Task)
      → delivered ≡ some path
      → before ≡ some Busy.download
      → after ≡ some Busy.signature_check
      → tasks ≡ Task.check_source path ∷ others
      → LockStep delivered before after tasks

abbrev pub IsAllowed : Option FilePath → Option Busy → AppState → Type 0
IsAllowed delivered before u = LockStep delivered before u.busy u.tasks

module _ (delivered : Option FilePath) where
  pub set_source-IsAllowed :
      (path : FilePath) (s : AppState) → IsAllowed delivered s.busy (set_source path s)
  unfolding set_source
  set_source-IsAllowed path s =
      begun (IsAllowed delivered s.busy) s.busy s _ (stays refl)
        (λ idle. begins Busy.signature_check idle refl)

  pub start_privileged-IsAllowed :
      (action : Action) (s : AppState) → IsAllowed delivered s.busy (start_privileged action s)
  unfolding start_privileged
  start_privileged-IsAllowed action s =
      begun (IsAllowed delivered s.busy) s.busy s _ (stays refl)
        (λ idle. begins (action_label action) idle refl)

  pub start_install-IsAllowed : (s : AppState) → IsAllowed delivered s.busy (start_install s)
  unfolding start_install
  start_install-IsAllowed s =
      branch (IsAllowed delivered s.busy) s.staged_verified _ s
        (option_branch (IsAllowed delivered s.busy) s.staged s _ (stays refl) (λ set e.
          begun (IsAllowed delivered s.busy) s.busy s _ (stays refl)
            (λ idle. begins Busy.kernel_install idle refl)))
        (stays refl)

  pub select_set-IsAllowed :
      (index : Option ℕ) (s : AppState) → IsAllowed delivered s.busy (select_set index s)
  unfolding select_set
  select_set-IsAllowed index s =
      branch (IsAllowed delivered s.busy) _ s _ (stays refl)
        (checked (and_then (get s.built) index))
    where
      checked :
          (set : Option Finished)
          → IsAllowed delivered s.busy
              (check_staged set (record s { staged = set; staged_verified = false }))
      checked none = stays refl
      checked (some set) = stays refl

  pub handle-IsAllowed : (c : Click) (s : AppState) → IsAllowed delivered s.busy (handle c s)
  unfolding handle drop_file check_again set_unverified set_mode choose_config click_install_deps
      click_refresh select_release click_delete click_download click_cancel click_build
      click_install close_request
  handle-IsAllowed (Click.open_file path) s = set_source-IsAllowed path s
  handle-IsAllowed (Click.dropped_file path) s =
      begun (IsAllowed delivered s.busy) s.busy s _ (stays refl)
        (λ idle. set_source-IsAllowed path s)
  handle-IsAllowed (Click.chosen_config path) s =
      mode_branch (IsAllowed delivered s.busy) s.mode _ _ (stays refl) (stays refl)
  handle-IsAllowed Click.recheck s =
      option_branch (IsAllowed delivered s.busy) s.source s _ (stays refl)
        (λ t e. set_source-IsAllowed t.origin s)
  handle-IsAllowed Click.install_deps s =
      branch (IsAllowed delivered s.busy) (is_none_left s.missing_deps) s _ (stays refl)
        (start_privileged-IsAllowed (Action.install_build_deps s.missing_deps) s)
  handle-IsAllowed Click.refresh_list s = stays refl
  handle-IsAllowed Click.delete_build s =
      option_branch (IsAllowed delivered s.busy) s.staged s _ (stays refl) (λ set e. stays refl)
  handle-IsAllowed Click.download_release s =
      option_branch (IsAllowed delivered s.busy) s.selected_release s _ (stays refl) (λ r e.
        option_branch (IsAllowed delivered s.busy) (file_names (urls_of r)) s _ (stays refl)
          (λ names f.
            begun (IsAllowed delivered s.busy) s.busy s _ (stays refl)
              (λ idle. begins Busy.download idle refl)))
  handle-IsAllowed Click.cancel s = stays refl
  handle-IsAllowed Click.build_kernel s =
      option_branch (IsAllowed delivered s.busy) (request_of s) s _ (stays refl) (λ r e.
        begun (IsAllowed delivered s.busy) s.busy s _ (stays refl)
          (λ idle. begins Busy.build idle refl))
  handle-IsAllowed Click.install_build s =
      begun (IsAllowed delivered s.busy) (install_blocker s.sysinfo) s _ (stays refl) (λ free.
        list_branch (IsAllowed delivered s.busy) (cautions s) _ _ (start_install-IsAllowed s)
          (stays refl))
  handle-IsAllowed Click.close s =
      let P : Propagation × AppState → Type 0 = λ p. IsAllowed delivered s.busy p.1 in
      branch P (is_privileged_run s.busy) _ _ (stays refl)
        (option_branch P s.build_control _ _ (stays refl) (λ c e. stays refl))
  handle-IsAllowed Click.prune_kernels s = stays refl
  handle-IsAllowed Click.set_up_signing s = stays refl
  handle-IsAllowed (Click.toggle_unverified true) s =
      branch (IsAllowed delivered s.busy) s.allow_unverified s _ (stays refl) (stays refl)
  handle-IsAllowed (Click.toggle_unverified false) s =
      branch (IsAllowed delivered s.busy) s.allow_unverified _ s (stays refl) (stays refl)
  handle-IsAllowed (Click.choose_mode m) s = stays refl
  handle-IsAllowed (Click.release_row title) s =
      option_branch (IsAllowed delivered s.busy) title _ _ (stays refl) (λ v e. stays refl)
  handle-IsAllowed (Click.build_row index) s = select_set-IsAllowed index s
  handle-IsAllowed (Click.sign_kernel v) s = start_privileged-IsAllowed (Action.sign v) s
  handle-IsAllowed (Click.boot_kernel v) s = start_privileged-IsAllowed (Action.boot_once v) s
  handle-IsAllowed (Click.remove_kernel v) s = stays refl
