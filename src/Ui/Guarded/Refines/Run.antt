-- ===== src/Ui/Guarded/Refines/Run.antt =====
-- The busy state of src/ui.rs as a lock: what a step of the window may do to it.
use mathlib.Core.Path.{subst}
use kernel_pop.Prelude.{
  ℕ, true, false, Option, none, some, inl, inr, [], ◌∷◌, ◌++◌, List, ◌≡◌, refl, sym, Result, ok,
  err, Option-cases,
}
use kernel_pop.Text.{Text}
use kernel_pop.Verify.Address.{Signer}
use kernel_pop.Source.Tarball.{Tarball, FilePath}
use kernel_pop.Ui.State.{AppState, Busy, Task, Action, Finished, guard_of, action_label}
use kernel_pop.Ui.Handlers.{end_busy, set_source}
use kernel_pop.Ui.Answers.{
  Answer, SetCheck, complete, abandon, source_checked, downloaded, finish, prepared_tree,
  build_response, built_packages, reload_after, privileged_done, installed, set_checked, row_of,
  select_found, builds_listed, delete_response, install_response, remove_response, prune_response,
  review_response, password_response, releases_listed,
}
use kernel_pop.Ui.Steps.{Step, clicks, answers, panics, Reach}
use kernel_pop.Ui.Guarded.{to_list, holders, branch}
use kernel_pop.Ui.Guarded.Run.{Reach-IsGuarded, holders-front}
use kernel_pop.Ui.Guarded.Refines.{
  LockStep, stays, ends, hands_on, IsAllowed, start_privileged-IsAllowed, start_install-IsAllowed,
  select_set-IsAllowed, handle-IsAllowed,
}

-- the label that the callback holds is that of the busy state
held :
    (t : Task) (s : AppState) (what : Busy)
    → guard_of t ≡ some what
    → holders (t ∷ s.tasks) ≡ to_list s.busy
    → s.busy ≡ some what
unfolding holders
held t s what e g = label_of s.busy (holders s.tasks) (rw e at g)
  where
    label_of : (b : Option Busy) (ls : List Busy) → what ∷ ls ≡ to_list b → b ≡ some what
    label_of none ls h = cc
    label_of (some b) ls h = cc

-- what a download hands on to
after_download :
    (path : FilePath) (s : AppState)
    → s.busy ≡ some Busy.download
    → IsAllowed (some path) s.busy (set_source path (end_busy s))
unfolding set_source end_busy
after_download path s busy = hands_on path s.tasks refl busy refl refl

-- the first file of a download that has ended well
unfoldable pub delivered : (t : Task) → Answer t → Option FilePath
unfolding Answer
delivered (Task.download_files urls) none = none
delivered (Task.download_files urls) (some []) = none
delivered (Task.download_files urls) (some (path ∷ paths)) = some path
delivered _ answer = none

abbrev pub delivered_by :
    {Checked : Tarball → Result Text Signer → Type 0} {Intact : Finished → Type 0} {s u : AppState}
    → Step Checked Intact s u
    → Option FilePath
delivered_by (clicks c e) = none
delivered_by (answers before after t answer at_t honest e) = delivered t answer
delivered_by (panics before after t at_t e) = none

select_found-IsAllowed :
    (row : Option ℕ) (s : AppState) → IsAllowed none s.busy (select_found row s)
unfolding select_found
select_found-IsAllowed none s = stays refl
select_found-IsAllowed (some i) s = select_set-IsAllowed none (some i) s

complete-IsAllowed :
    (t : Task) (answer : Answer t) (s : AppState)
    → holders (t ∷ s.tasks) ≡ to_list s.busy
    → IsAllowed (delivered t answer) s.busy (complete t answer s)
unfolding delivered complete Answer guard_of end_busy source_checked downloaded finish prepared_tree
    build_response built_packages privileged_done reload_after installed set_checked builds_listed
    delete_response install_response remove_response prune_response review_response
    password_response releases_listed
complete-IsAllowed (Task.check_source path) none s g =
    ends Busy.signature_check (held (Task.check_source path) s Busy.signature_check refl g) refl
complete-IsAllowed (Task.check_source path) (some (t, ok signer)) s g =
    ends Busy.signature_check (held (Task.check_source path) s Busy.signature_check refl g) refl
complete-IsAllowed (Task.check_source path) (some (t, err why)) s g =
    ends Busy.signature_check (held (Task.check_source path) s Busy.signature_check refl g) refl
complete-IsAllowed (Task.download_files urls) none s g =
    ends Busy.download (held (Task.download_files urls) s Busy.download refl g) refl
complete-IsAllowed (Task.download_files urls) (some []) s g =
    ends Busy.download (held (Task.download_files urls) s Busy.download refl g) refl
complete-IsAllowed (Task.download_files urls) (some (p ∷ ps)) s g =
    after_download p s (held (Task.download_files urls) s Busy.download refl g)
complete-IsAllowed (Task.prepare request) none s g =
    ends Busy.build (held (Task.prepare request) s Busy.build refl g) refl
complete-IsAllowed (Task.prepare request) (some p) s g = stays refl
complete-IsAllowed (Task.confirm_build p) true s g = stays refl
complete-IsAllowed (Task.confirm_build p) false s g = stays refl
complete-IsAllowed (Task.discard p) answer s g =
    ends Busy.build (held (Task.discard p) s Busy.build refl g) refl
complete-IsAllowed (Task.build p) none s g =
    ends Busy.build (held (Task.build p) s Busy.build refl g) refl
complete-IsAllowed (Task.build p) (some dir) s g =
    ends Busy.build (held (Task.build p) s Busy.build refl g) refl
complete-IsAllowed (Task.privileged (Action.sign v)) answer s g =
    ends (action_label (Action.sign v))
      (held (Task.privileged (Action.sign v)) s (action_label (Action.sign v)) refl g) refl
complete-IsAllowed (Task.privileged (Action.boot_once v)) answer s g =
    ends (action_label (Action.boot_once v))
      (held (Task.privileged (Action.boot_once v)) s (action_label (Action.boot_once v)) refl g)
      refl
complete-IsAllowed (Task.privileged (Action.remove v)) answer s g =
    ends (action_label (Action.remove v))
      (held (Task.privileged (Action.remove v)) s (action_label (Action.remove v)) refl g) refl
complete-IsAllowed (Task.privileged (Action.setup_signing v)) answer s g =
    ends (action_label (Action.setup_signing v))
      (held (Task.privileged (Action.setup_signing v)) s (action_label (Action.setup_signing v))
        refl g)
      refl
complete-IsAllowed (Task.privileged (Action.remove_many v)) answer s g =
    ends (action_label (Action.remove_many v))
      (held (Task.privileged (Action.remove_many v)) s (action_label (Action.remove_many v)) refl g)
      refl
complete-IsAllowed (Task.privileged (Action.install_build_deps v)) answer s g =
    ends (action_label (Action.install_build_deps v))
      (held (Task.privileged (Action.install_build_deps v)) s
        (action_label (Action.install_build_deps v)) refl g)
      refl
complete-IsAllowed (Task.install set) answer s g =
    ends Busy.kernel_install (held (Task.install set) s Busy.kernel_install refl g) refl
complete-IsAllowed (Task.check_set set) SetCheck.intact s g =
    branch (IsAllowed none s.busy) _ _ s (stays refl) (stays refl)
complete-IsAllowed (Task.check_set set) SetCheck.changed s g =
    branch (IsAllowed none s.busy) _ _ s (select_set-IsAllowed none none s) (stays refl)
complete-IsAllowed (Task.check_set set) SetCheck.task_error s g =
    branch (IsAllowed none s.busy) _ _ s (stays refl) (stays refl)
complete-IsAllowed (Task.list_builds select) sets s g = select_found-IsAllowed (row_of _ 0 sets) _
complete-IsAllowed Task.confirm_unverified answer s g = stays refl
complete-IsAllowed (Task.confirm_delete set) true s g = stays refl
complete-IsAllowed (Task.confirm_delete set) false s g = stays refl
complete-IsAllowed Task.confirm_install answer s g =
    branch (IsAllowed none s.busy) answer _ s (start_install-IsAllowed none s) (stays refl)
complete-IsAllowed (Task.confirm_remove v) answer s g =
    branch (IsAllowed none s.busy) answer _ s (start_privileged-IsAllowed none (Action.remove v) s)
      (stays refl)
complete-IsAllowed (Task.confirm_prune vs) answer s g =
    branch (IsAllowed none s.busy) answer _ s
      (start_privileged-IsAllowed none (Action.remove_many vs) s) (stays refl)
complete-IsAllowed Task.ask_prune none s g = stays refl
complete-IsAllowed Task.ask_prune (some keep) s g =
    branch (IsAllowed none s.busy) _ s _ (stays refl) (stays refl)
complete-IsAllowed Task.ask_password none s g = stays refl
complete-IsAllowed Task.ask_password (some (password, confirm)) s g =
    branch (IsAllowed none s.busy) _ _ s
      (start_privileged-IsAllowed none (Action.setup_signing password) s) (stays refl)
complete-IsAllowed Task.fetch_list none s g = stays refl
complete-IsAllowed Task.fetch_list (some rs) s g = stays refl
complete-IsAllowed Task.check_requirements none s g = stays refl
complete-IsAllowed Task.check_requirements (some missing) s g = stays refl
complete-IsAllowed Task.read_system m s g = stays refl

abandon-IsAllowed :
    (t : Task) (s : AppState)
    → holders (t ∷ s.tasks) ≡ to_list s.busy
    → IsAllowed none s.busy (abandon t s)
unfolding abandon end_busy
abandon-IsAllowed t s g = elim (Option-cases (guard_of t)) [
  | inl e ↦ rw e (stays refl)
  | inr (what, e) ↦ rw e (ends what (held t s what e g) refl)
]

-- Every step of the window, from every state that it can be in, is a step of the lock or leaves it as
-- it is: clicks, answers and panics never replace a running action by another one, but for a download
-- that has ended well by the check of the very first file that it has delivered.
pub Step-LockStep :
    (Checked : Tarball → Result Text Signer → Type 0) (Intact : Finished → Type 0) (s u : AppState)
    → Reach Checked Intact s
    → (step : Step Checked Intact s u) → LockStep (delivered_by step) s.busy u.busy u.tasks
Step-LockStep Checked Intact s u reached (clicks c e) =
    subst (IsAllowed none s.busy) (sym e) (handle-IsAllowed none c s)
Step-LockStep Checked Intact s u reached (answers before after t answer at_t honest e) =
    let g =
      subst (λ ts. holders ts ≡ to_list s.busy) at_t (Reach-IsGuarded Checked Intact reached) in
    subst (IsAllowed (delivered t answer) s.busy) (sym e) (
      complete-IsAllowed t answer (record s { tasks = before ++ after })
        (holders-front before after t s.busy g))
Step-LockStep Checked Intact s u reached (panics before after t at_t e) =
    let g =
      subst (λ ts. holders ts ≡ to_list s.busy) at_t (Reach-IsGuarded Checked Intact reached) in
    subst (IsAllowed none s.busy) (sym e) (
      abandon-IsAllowed t (record s { tasks = before ++ after })
        (holders-front before after t s.busy g))
