-- ===== src/Ui/Guarded/Settled.antt =====
-- How long the window of src/ui.rs stays busy.
use kernel_pop.Prelude.{
  length, length-append, ◌+◌, ◌*◌, ◌≤◌, suc, zero, ℕ, true, false, Option, none, some, inl, inr, [],
  ◌∷◌, ◌++◌, List, ◌≡◌, refl, sym, ap, ◌∙◌, arith, Option-cases, Result, ok, err,
}
use mathlib.Core.Path.{subst}
use kernel_pop.Text.{Text}
use kernel_pop.Verify.Address.{Signer}
use kernel_pop.Source.Tarball.{Tarball}
use kernel_pop.Ui.State.{AppState, Busy, Task, Action, Finished, guard_of}
use kernel_pop.Ui.Handlers.{end_busy, set_source}
use kernel_pop.Ui.Answers.{
  Answer, complete, source_checked, downloaded, finish, prepared_tree, build_response,
  built_packages, reload_after, privileged_done, installed,
}
use kernel_pop.Ui.Guarded.{to_list, holders, IsGuarded}
use kernel_pop.Ui.Steps.{Reach}
use kernel_pop.Ui.Guarded.Run.{holders-front, complete-IsGuarded, Reach-IsGuarded}

-- how many answers may still come before the busy state that a task holds ends
unfoldable pub answers_left : Task → ℕ
answers_left (Task.check_source path) = 1
answers_left (Task.download_files urls) = 2
answers_left (Task.prepare request) = 3
answers_left (Task.confirm_build prepared) = 2
answers_left (Task.discard prepared) = 1
answers_left (Task.build prepared) = 1
answers_left (Task.privileged action) = 1
answers_left (Task.install set) = 1
answers_left _ = 0

unfoldable pub weight : List Task → ℕ
weight [] = 0
weight (t ∷ ts) = answers_left t + weight ts

-- each holder has an answer left, and at most three
answers_left-guard_of :
    (t : Task)
    → (length (to_list (guard_of t)) ≤ answers_left t)
      × (answers_left t ≤ 3 * length (to_list (guard_of t)))
unfolding answers_left guard_of
answers_left-guard_of (Task.check_source path) = (omega arith, omega arith)
answers_left-guard_of (Task.download_files urls) = (omega arith, omega arith)
answers_left-guard_of (Task.prepare request) = (omega arith, omega arith)
answers_left-guard_of (Task.confirm_build prepared) = (omega arith, omega arith)
answers_left-guard_of (Task.discard prepared) = (omega arith, omega arith)
answers_left-guard_of (Task.build prepared) = (omega arith, omega arith)
answers_left-guard_of (Task.privileged action) = (omega arith, omega arith)
answers_left-guard_of (Task.install set) = (omega arith, omega arith)
answers_left-guard_of (Task.check_set set) = (omega arith, omega arith)
answers_left-guard_of (Task.list_builds select) = (omega arith, omega arith)
answers_left-guard_of Task.confirm_unverified = (omega arith, omega arith)
answers_left-guard_of (Task.confirm_delete set) = (omega arith, omega arith)
answers_left-guard_of Task.confirm_install = (omega arith, omega arith)
answers_left-guard_of (Task.confirm_remove version) = (omega arith, omega arith)
answers_left-guard_of (Task.confirm_prune versions) = (omega arith, omega arith)
answers_left-guard_of Task.ask_prune = (omega arith, omega arith)
answers_left-guard_of Task.ask_password = (omega arith, omega arith)
answers_left-guard_of Task.fetch_list = (omega arith, omega arith)
answers_left-guard_of Task.check_requirements = (omega arith, omega arith)
answers_left-guard_of Task.read_system = (omega arith, omega arith)

weight-holders :
    (ts : List Task) → (length (holders ts) ≤ weight ts) × (weight ts ≤ 3 * length (holders ts))
unfolding weight holders
weight-holders [] = (omega arith, omega arith)
weight-holders (t ∷ ts) =
    let (a, b) = answers_left-guard_of t in
    let (c, d) = weight-holders ts in
    let e = length-append (to_list (guard_of t)) (holders ts) in (omega arith, omega arith)

-- an answer to the holder leaves less
complete-weight :
    (t : Task) (answer : Answer t) (s : AppState) (what : Busy)
    → guard_of t ≡ some what
    → suc (weight (complete t answer s).tasks) ≤ answers_left t + weight s.tasks
unfolding complete Answer guard_of answers_left weight end_busy source_checked downloaded finish
    set_source prepared_tree build_response built_packages privileged_done reload_after installed
complete-weight (Task.check_source path) none s what e = omega arith
complete-weight (Task.check_source path) (some (t, ok signer)) s what e = omega arith
complete-weight (Task.check_source path) (some (t, err why)) s what e = omega arith
complete-weight (Task.download_files urls) none s what e = omega arith
complete-weight (Task.download_files urls) (some []) s what e = omega arith
complete-weight (Task.download_files urls) (some (p ∷ ps)) s what e = omega arith
complete-weight (Task.prepare request) none s what e = omega arith
complete-weight (Task.prepare request) (some p) s what e = omega arith
complete-weight (Task.confirm_build p) true s what e = omega arith
complete-weight (Task.confirm_build p) false s what e = omega arith
complete-weight (Task.discard p) answer s what e = omega arith
complete-weight (Task.build p) none s what e = omega arith
complete-weight (Task.build p) (some dir) s what e = omega arith
complete-weight (Task.privileged (Action.sign v)) answer s what e = omega arith
complete-weight (Task.privileged (Action.boot_once v)) answer s what e = omega arith
complete-weight (Task.privileged (Action.remove v)) answer s what e = omega arith
complete-weight (Task.privileged (Action.setup_signing p)) answer s what e = omega arith
complete-weight (Task.privileged (Action.remove_many vs)) answer s what e = omega arith
complete-weight (Task.privileged (Action.install_build_deps ds)) answer s what e = omega arith
complete-weight (Task.install set) answer s what e = omega arith
complete-weight (Task.check_set set) answer s what e = cc
complete-weight (Task.list_builds select) answer s what e = cc
complete-weight Task.confirm_unverified answer s what e = cc
complete-weight (Task.confirm_delete set) answer s what e = cc
complete-weight Task.confirm_install answer s what e = cc
complete-weight (Task.confirm_remove version) answer s what e = cc
complete-weight (Task.confirm_prune versions) answer s what e = cc
complete-weight Task.ask_prune answer s what e = cc
complete-weight Task.ask_password answer s what e = cc
complete-weight Task.fetch_list answer s what e = cc
complete-weight Task.check_requirements answer s what e = cc
complete-weight Task.read_system answer s what e = cc

weight-middle :
    (before after : List Task) (t : Task)
    → weight (before ++ (t ∷ after)) ≡ answers_left t + weight (before ++ after)
unfolding weight
weight-middle [] after t = refl
weight-middle (b ∷ bs) after t = omega (arith, weight-middle bs after t)

-- The window is idle, or whatever the callback that holds the busy state is answered, that many
-- answers to the callbacks that hold it lead to an idle window.
pub data Settles : ℕ → AppState → Type 0 where
  idle : {n : ℕ} {s : AppState} → s.busy ≡ none → Settles n s
  busy :
      {n : ℕ} {s : AppState}
      → (before after : List Task) (t : Task) → s.tasks ≡ before ++ (t ∷ after)
      → guard_of t ≡ s.busy
      → ((answer : Answer t) → Settles n (complete t answer (record s { tasks = before ++ after })))
      → Settles (suc n) s

holder-at :
    (ts : List Task) (what : Busy)
    → holders ts ≡ what ∷ []
    → (before : List Task) × (after : List Task) × (t : Task) × (ts ≡ before ++ (t ∷ after))
      × (guard_of t ≡ some what)
unfolding holders
holder-at [] what h = cc
holder-at (t ∷ ts) what h = elim (Option-cases (guard_of t)) [
  | inl e ↦
      let (before, after, u, at_u, f) = holder-at ts what (rw e at h) in
      (t ∷ before, after, u, ap (λ us. t ∷ us) at_u, f)
  | inr (l, e) ↦ ([], ts, t, refl, e ∙ first (rw e at h))
]
  where
    first : {l : Busy} {ls : List Busy} → l ∷ ls ≡ what ∷ [] → some l ≡ some what
    first g = cc

-- a busy window has an answer left
busy-weight : (s : AppState) (what : Busy) → IsGuarded s → s.busy ≡ some what → 1 ≤ weight s.tasks
busy-weight s what g e =
    let one : length (holders s.tasks) ≡ 1 = ap length (g ∙ ap to_list e) in
    omega (arith, one, (weight-holders s.tasks).0)

settle : (n : ℕ) (s : AppState) → IsGuarded s → weight s.tasks ≤ n → Settles n s
settle zero s g small = elim (Option-cases s.busy) [
  | inl e ↦ idle e
  | inr (what, e) ↦ absurd (omega (arith, small, busy-weight s what g e))
]
settle (suc n) s g small = elim (Option-cases s.busy) [
  | inl e ↦ idle e
  | inr (what, e) ↦
      let (before, after, t, at_t, holds) = holder-at s.tasks what (g ∙ ap to_list e) in
      let weighs = ap weight at_t ∙ weight-middle before after t in
      let at_front =
        holders-front before after t s.busy (subst (λ ts. holders ts ≡ to_list s.busy) at_t g) in
      busy before after t at_t (holds ∙ sym e) (λ answer.
        let u = record s { tasks = before ++ after } in
        let less = complete-weight t answer u what holds in
        settle n (complete t answer u) (complete-IsGuarded t answer u at_front)
          (omega (arith, less, weighs, small)))
]

-- From every state that the window can be in, at most three answers to the callback that holds the
-- busy state lead to an idle window, whatever these answers are: a download is followed by the check
-- of the source, and the preparation of a build by a yes or no and by the build or the clearing.
pub Reach-Settles :
    (Checked : Tarball → Result Text Signer → Type 0) (Intact : Finished → Type 0) {s : AppState}
    → Reach Checked Intact s
    → Settles 3 s
Reach-Settles Checked Intact {s = s} reached =
    let g = Reach-IsGuarded Checked Intact reached in
    let few : length (holders s.tasks) ≤ 1 = at_most_one (holders s.tasks) s.busy g in
    settle 3 s g (omega (arith, few, (weight-holders s.tasks).1))
  where
    at_most_one : (ls : List Busy) (b : Option Busy) → ls ≡ to_list b → length ls ≤ 1
    at_most_one ls none h = omega (arith, ap length h)
    at_most_one ls (some b) h = omega (arith, ap length h)
