-- ===== src/Ui/Guarded/Run.antt =====
-- The runs of the window in src/ui.rs: who holds the busy state.
use kernel_pop.Prelude.{
  ℕ, Bool, true, false, Option, none, some, inl, inr, if◌then◌else◌, [], ◌∷◌, ◌++◌, List, ◌≡◌, refl,
  sym, ap, ◌∙◌, ◌⊎◌, Option-cases, Result, ok, err,
}
use mathlib.Core.Path.{subst}
use kernel_pop.Text.{Text}
use kernel_pop.Verify.Address.{Signer}
use kernel_pop.Source.Tarball.{Tarball}
use kernel_pop.Ui.State.{
  AppState, Busy, Task, Action, Finished, guard_of, action_label, is_privileged,
}
use kernel_pop.Ui.Handlers.{Propagation, end_busy, close_request, is_privileged_run}
use kernel_pop.Ui.Answers.{
  Answer, SetCheck, complete, abandon, source_checked, downloaded, finish, prepared_tree,
  build_response, built_packages, reload_after, privileged_done, installed, set_checked, row_of,
  select_found, builds_listed, delete_response, install_response, remove_response, prune_response,
  review_response, password_response, releases_listed,
}
use kernel_pop.Ui.Guarded.{
  to_list, holders, IsGuarded, branch, set_source-IsGuarded, start_privileged-IsGuarded,
  start_install-IsGuarded, select_set-IsGuarded, handle-IsGuarded,
}
use kernel_pop.Ui.Steps.{Step, clicks, answers, panics, Reach, starts, steps}

-- the label that a callback held is the only one
released :
    (l : Busy) (ts : List Task) (busy : Option Busy)
    → l ∷ holders ts ≡ to_list busy
    → holders ts ≡ []
released l ts none h = cc
released l ts (some b) h = cc

abandon-IsGuarded :
    (t : Task) (s : AppState) → holders (t ∷ s.tasks) ≡ to_list s.busy → IsGuarded (abandon t s)
unfolding abandon holders end_busy
abandon-IsGuarded t s g = elim (Option-cases (guard_of t)) [
  | inl e ↦ rw e (rw e at g)
  | inr (l, e) ↦ rw e (released l s.tasks s.busy (rw e at g))
]

select_found-IsGuarded :
    (row : Option ℕ) (s : AppState) → IsGuarded s → IsGuarded (select_found row s)
unfolding select_found
select_found-IsGuarded none s g = g
select_found-IsGuarded (some i) s g = select_set-IsGuarded (some i) s g

-- a task that holds its label is replaced by another one with the same label
pub complete-IsGuarded :
    (t : Task) (answer : Answer t) (s : AppState)
    → holders (t ∷ s.tasks) ≡ to_list s.busy
    → IsGuarded (complete t answer s)
unfolding complete Answer holders guard_of action_label end_busy source_checked downloaded finish
    prepared_tree build_response built_packages privileged_done reload_after installed set_checked
    builds_listed delete_response install_response remove_response prune_response review_response
    password_response releases_listed
complete-IsGuarded (Task.check_source path) none s g = released _ s.tasks s.busy g
complete-IsGuarded (Task.check_source path) (some (t, ok signer)) s g = released _ s.tasks s.busy g
complete-IsGuarded (Task.check_source path) (some (t, err why)) s g = released _ s.tasks s.busy g
complete-IsGuarded (Task.download_files urls) none s g = released _ s.tasks s.busy g
complete-IsGuarded (Task.download_files urls) (some []) s g = released _ s.tasks s.busy g
complete-IsGuarded (Task.download_files urls) (some (p ∷ ps)) s g =
    set_source-IsGuarded p (end_busy s) (released _ s.tasks s.busy g)
complete-IsGuarded (Task.prepare request) none s g = released _ s.tasks s.busy g
complete-IsGuarded (Task.prepare request) (some p) s g = g
complete-IsGuarded (Task.confirm_build p) true s g = g
complete-IsGuarded (Task.confirm_build p) false s g = g
complete-IsGuarded (Task.discard p) answer s g = released _ s.tasks s.busy g
complete-IsGuarded (Task.build p) none s g = released _ s.tasks s.busy g
complete-IsGuarded (Task.build p) (some dir) s g = released _ s.tasks s.busy g
complete-IsGuarded (Task.privileged (Action.sign v)) answer s g = released _ s.tasks s.busy g
complete-IsGuarded (Task.privileged (Action.boot_once v)) answer s g = released _ s.tasks s.busy g
complete-IsGuarded (Task.privileged (Action.remove v)) answer s g = released _ s.tasks s.busy g
complete-IsGuarded (Task.privileged (Action.setup_signing p)) answer s g =
    released _ s.tasks s.busy g
complete-IsGuarded (Task.privileged (Action.remove_many vs)) answer s g =
    released _ s.tasks s.busy g
complete-IsGuarded (Task.privileged (Action.install_build_deps ds)) answer s g =
    released _ s.tasks s.busy g
complete-IsGuarded (Task.install set) answer s g = released _ s.tasks s.busy g
complete-IsGuarded (Task.check_set set) SetCheck.intact s g = branch IsGuarded _ _ s g g
complete-IsGuarded (Task.check_set set) SetCheck.changed s g =
    branch IsGuarded _ _ s (select_set-IsGuarded none s g) g
complete-IsGuarded (Task.check_set set) SetCheck.task_error s g = branch IsGuarded _ _ s g g
complete-IsGuarded (Task.list_builds select) sets s g = select_found-IsGuarded (row_of _ 0 sets) _ g
complete-IsGuarded Task.confirm_unverified answer s g = g
complete-IsGuarded (Task.confirm_delete set) true s g = g
complete-IsGuarded (Task.confirm_delete set) false s g = g
complete-IsGuarded Task.confirm_install answer s g =
    branch IsGuarded answer _ s (start_install-IsGuarded s g) g
complete-IsGuarded (Task.confirm_remove v) answer s g =
    branch IsGuarded answer _ s (start_privileged-IsGuarded (Action.remove v) s g) g
complete-IsGuarded (Task.confirm_prune vs) answer s g =
    branch IsGuarded answer _ s (start_privileged-IsGuarded (Action.remove_many vs) s g) g
complete-IsGuarded Task.ask_prune none s g = g
complete-IsGuarded Task.ask_prune (some keep) s g = branch IsGuarded _ s _ g g
complete-IsGuarded Task.ask_password none s g = g
complete-IsGuarded Task.ask_password (some (password, confirm)) s g =
    branch IsGuarded _ _ s (start_privileged-IsGuarded (Action.setup_signing password) s g) g
complete-IsGuarded Task.fetch_list none s g = g
complete-IsGuarded Task.fetch_list (some rs) s g = g
complete-IsGuarded Task.check_requirements none s g = g
complete-IsGuarded Task.check_requirements (some missing) s g = g
complete-IsGuarded Task.read_system m s g = g

-- where no callback holds a label, the one in the middle does not either
holders-middle :
    (before after : List Task) (t : Task)
    → holders (before ++ (t ∷ after)) ≡ []
    → (guard_of t ≡ none) × (holders (before ++ after) ≡ [])
unfolding holders
holders-middle [] after t h = elim (Option-cases (guard_of t)) [
  | inl e ↦ (e, rw e at h)
  | inr (l, e) ↦ cc
]
holders-middle (b ∷ bs) after t h = elim (Option-cases (guard_of b)) [
  | inl e ↦ rw e (holders-middle bs after t (rw e at h))
  | inr (l, e) ↦ cc
]

-- the callback that answers is put in front
pub holders-front :
    (before after : List Task) (t : Task) (busy : Option Busy)
    → holders (before ++ (t ∷ after)) ≡ to_list busy
    → holders (t ∷ (before ++ after)) ≡ to_list busy
unfolding holders
holders-front [] after t busy g = g
holders-front (b ∷ bs) after t busy g = elim (Option-cases (guard_of b)) [
  | inl e ↦ rw e (holders-front bs after t busy (rw e at g))
  | inr (l, e) ↦
      let h : l ∷ holders (bs ++ (t ∷ after)) ≡ to_list busy = rw e at g in
      let none_left = released l (bs ++ (t ∷ after)) busy h in
      let (f, r) = holders-middle bs after t none_left in rw (f, e, r) (rw none_left at h)
]

Step-IsGuarded :
    (Checked : Tarball → Result Text Signer → Type 0) (Intact : Finished → Type 0) (s u : AppState)
    → Step Checked Intact s u
    → IsGuarded s
    → IsGuarded u
Step-IsGuarded Checked Intact s u (clicks c e) g = subst IsGuarded (sym e) (handle-IsGuarded c s g)
Step-IsGuarded Checked Intact s u (answers before after t answer at_t honest e) g =
    subst IsGuarded (sym e) (
      complete-IsGuarded t answer (record s { tasks = before ++ after })
        (holders-front before after t s.busy (subst (λ ts. holders ts ≡ to_list s.busy) at_t g)))
Step-IsGuarded Checked Intact s u (panics before after t at_t e) g = subst IsGuarded (sym e) (
    abandon-IsGuarded t (record s { tasks = before ++ after })
      (holders-front before after t s.busy (subst (λ ts. holders ts ≡ to_list s.busy) at_t g)))

-- In every state that the window reaches, by clicks, answers and panics in any order, the labels that
-- waiting callbacks hold are exactly that of the busy state: nothing runs while the window is idle,
-- and never two of a download, a check, a build and the runs of the privileged script.
pub Reach-IsGuarded :
    (Checked : Tarball → Result Text Signer → Type 0) (Intact : Finished → Type 0) {s : AppState}
    → Reach Checked Intact s
    → holders s.tasks ≡ to_list s.busy
unfolding holders guard_of
Reach-IsGuarded Checked Intact (starts info) = refl
Reach-IsGuarded Checked Intact (steps {s = t} {u = u} reached step) =
    Step-IsGuarded Checked Intact t u step (Reach-IsGuarded Checked Intact reached)

holders-of :
    (before after : List Task) (t : Task) (busy : Option Busy) (what : Busy)
    → holders (before ++ (t ∷ after)) ≡ to_list busy
    → guard_of t ≡ some what
    → busy ≡ some what
unfolding holders
holders-of before after t busy what g e =
    label_of busy (holders (before ++ after)) (rw e at (holders-front before after t busy g))
  where
    label_of : (busy : Option Busy) (ls : List Busy) → what ∷ ls ≡ to_list busy → busy ≡ some what
    label_of none ls h = cc
    label_of (some b) ls h = cc

chosen : {A : Type 0} (b : Bool) (x y : A) → b ≡ true → (if b then x else y) ≡ x
chosen true x y h = refl
chosen false x y h = cc

-- A callback that waits for a run of the privileged script: one of its actions, or an install.
abbrev pub RunsScript : Task → Type 0
RunsScript t =
    ((action : Action) × (t ≡ Task.privileged action)) ⊎ ((set : Finished) × (t ≡ Task.install set))

script_label :
    (t : Task)
    → RunsScript t
    → (what : Busy) × (guard_of t ≡ some what) × (is_privileged what ≡ true)
unfolding guard_of action_label is_privileged
script_label t (inl (action, e)) = (action_label action, ap guard_of e, of_action action)
  where
    of_action : (a : Action) → is_privileged (action_label a) ≡ true
    of_action (Action.sign v) = refl
    of_action (Action.boot_once v) = refl
    of_action (Action.remove v) = refl
    of_action (Action.remove_many vs) = refl
    of_action (Action.setup_signing w) = refl
    of_action (Action.install_build_deps ds) = refl
script_label t (inr (set, e)) = (Busy.kernel_install, ap guard_of e, refl)

-- While a run of the privileged script waits for its end (a kernel that is signed, selected for the
-- next boot, removed or installed, several that are removed, the setup of signing, or build tools that
-- are installed), a request to close the window is stopped and changes nothing.
pub close_request-privileged :
    (Checked : Tarball → Result Text Signer → Type 0) (Intact : Finished → Type 0) {s : AppState}
    → Reach Checked Intact s
    → (before after : List Task) (t : Task) → s.tasks ≡ before ++ (t ∷ after)
    → RunsScript t
    → close_request s ≡ (Propagation.stop, s)
unfolding close_request
close_request-privileged Checked Intact {s = s} reached before after t at_t runs =
    let (what, e, h) = script_label t runs in
    let busy =
      holders-of before after t s.busy what
        (subst (λ ts. holders ts ≡ to_list s.busy) at_t (Reach-IsGuarded Checked Intact reached))
        e in
    chosen (is_privileged_run s.busy) _ _ (ap is_privileged_run busy ∙ h)
