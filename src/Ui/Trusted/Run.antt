-- ===== src/Ui/Trusted/Run.antt =====
-- Which sources src/ui.rs has built, and which builds it installs: the runs of the window.
use kernel_pop.Prelude.{
  ℕ, Bool, true, false, Option, none, some, All, if◌then◌else◌, [], ◌∷◌, ◌++◌, List, ◌≡◌, refl, sym,
  Result, ok, err,
}
use mathlib.Core.Path.{subst}
use kernel_pop.Text.{Text}
use kernel_pop.Verify.Address.{Signer}
use kernel_pop.Source.Tarball.{Tarball}
use kernel_pop.Ui.State.{AppState, Task, Action, Finished}
use kernel_pop.Ui.Handlers.{end_busy, is_staged}
use kernel_pop.Ui.Answers.{
  Answer, SetCheck, complete, source_checked, downloaded, finish, prepared_tree, build_response,
  built_packages, reload_after, privileged_done, installed, set_checked, row_of, select_found,
  builds_listed, delete_response, install_response, remove_response, prune_response,
  review_response, password_response, releases_listed, is_valid,
}
use kernel_pop.Ui.Guarded.{branch}
use kernel_pop.Install.{validate_mok_password}
use kernel_pop.Ui.Same.{same_finished_sound}
use kernel_pop.Ui.Steps.{IsHonest, IntactIf}
use kernel_pop.Install.{PasswordProblem}
use kernel_pop.Install.Password.{validate_mok_password_iff}
use kernel_pop.Ui.Handlers.{is_staged}
use kernel_pop.Ui.Trusted.{
  RequestSound, StagedSound, TaskSound, IsSound, set_source-IsSound, start_privileged-IsSound,
  start_install-IsSound, select_set-IsSound,
}

pub All-middle {ℓ κ} :
    {A : Type ℓ} (P : A → Type κ) (before after : List A) (t : A)
    → All P (before ++ (t ∷ after))
    → P t × All P (before ++ after)
All-middle P [] after t (p, ps) = (p, ps)
All-middle P (b ∷ bs) after t (p, ps) = let (q, qs) = All-middle P bs after t ps in (q, (p, qs))

if_branch :
    (P : AppState → Type 0) (b : Bool) (s u : AppState)
    → (b ≡ true → P s)
    → P u
    → P (if b then s else u)
if_branch P true s u p q = p refl
if_branch P false s u p q = q

valid_ok : (r : Result PasswordProblem (Unit {0})) → is_valid r ≡ true → r ≡ ok tt
valid_ok (ok tt) h = refl
valid_ok (err e) h = cc

module _ (Checked : Tarball → Result Text Signer → Type 0) (Intact Fresh : Finished → Type 0)
    (intact : (set : Finished) → Fresh set → Intact set) where
  select_found-IsSound :
      (row : Option ℕ) (s : AppState)
      → IsSound Checked Intact Fresh intact s
      → IsSound Checked Intact Fresh intact (select_found row s)
  unfolding select_found
  select_found-IsSound none s g = g
  select_found-IsSound (some i) s g = select_set-IsSound Checked Intact Fresh intact (some i) s g

  staged_is :
      (set : Finished) (staged : Option Finished)
      → is_staged (some set) staged ≡ true
      → Fresh set
      → StagedSound Checked Intact Fresh intact true staged
  staged_is set none same good = cc
  staged_is set (some other) same good = subst Fresh (same_finished_sound set other same) good

  set_checked-IsSound :
      (set : Finished) (result : SetCheck) (s : AppState)
      → IntactIf Checked Fresh set result
      → IsSound Checked Intact Fresh intact s
      → IsSound Checked Intact Fresh intact (set_checked set result s)
  unfolding set_checked
  set_checked-IsSound set SetCheck.intact s good (sig, staged, tasks) =
      if_branch (IsSound Checked Intact Fresh intact) (is_staged (some set) s.staged) _ s
        (λ same. (sig, staged_is set s.staged same good, tasks)) (sig, staged, tasks)
  set_checked-IsSound set SetCheck.changed s good g =
      branch (IsSound Checked Intact Fresh intact) _ _ s
        (select_set-IsSound Checked Intact Fresh intact none s g) g
  set_checked-IsSound set SetCheck.task_error s good g =
      branch (IsSound Checked Intact Fresh intact) _ _ s g g

  -- the password that is passed on was accepted
  password_response-IsSound :
      (typed : Option (Text × Text)) (s : AppState)
      → IsSound Checked Intact Fresh intact s
      → IsSound Checked Intact Fresh intact (password_response typed s)
  unfolding password_response TaskSound
  password_response-IsSound none s g = g
  password_response-IsSound (some (password, confirm)) s g =
      if_branch (IsSound Checked Intact Fresh intact)
        (is_valid (validate_mok_password password confirm)) _ s
        (λ fine.
          let (_, _, _, same) =
            (validate_mok_password_iff password confirm).0
              (valid_ok (validate_mok_password password confirm) fine) in
          let again = valid_ok (validate_mok_password password confirm) fine in
          start_privileged-IsSound Checked Intact Fresh intact (Action.setup_signing password) s
            (subst (λ c. validate_mok_password password c ≡ ok tt) (sym same) again) g)
        g

  pub complete-IsSound :
      (t : Task) (answer : Answer t) (s : AppState)
      → IsHonest Checked Fresh t answer
      → TaskSound Checked Intact t
      → IsSound Checked Intact Fresh intact s
      → IsSound Checked Intact Fresh intact (complete t answer s)
  unfolding complete Answer IsHonest TaskSound end_busy source_checked downloaded finish
      prepared_tree build_response built_packages privileged_done reload_after installed
      builds_listed delete_response install_response remove_response prune_response review_response
      releases_listed
  complete-IsSound (Task.check_source path) none s good task (sig, staged, tasks) =
      (tt, staged, tasks)
  complete-IsSound (Task.check_source path) (some (t, ok signer)) s good task (sig, staged, tasks) =
      (good, staged, tasks)
  complete-IsSound (Task.check_source path) (some (t, err why)) s good task (sig, staged, tasks) =
      (good, staged, tasks)
  complete-IsSound (Task.download_files urls) none s good task g = g
  complete-IsSound (Task.download_files urls) (some []) s good task g = g
  complete-IsSound (Task.download_files urls) (some (p ∷ ps)) s good task g =
      set_source-IsSound Checked Intact Fresh intact p (end_busy s) g
  complete-IsSound (Task.prepare request) none s good task (sig, staged, tasks) =
      (sig, staged, (tt, tasks))
  complete-IsSound (Task.prepare request) (some p) s good task (sig, staged, tasks) =
      (sig, staged, (subst (RequestSound Checked Intact) (sym good) task, tasks))
  complete-IsSound (Task.confirm_build p) true s good task (sig, staged, tasks) =
      (sig, staged, (task, tasks))
  complete-IsSound (Task.confirm_build p) false s good task (sig, staged, tasks) =
      (sig, staged, (tt, tasks))
  complete-IsSound (Task.discard p) answer s good task (sig, staged, tasks) =
      (sig, staged, (tt, tasks))
  complete-IsSound (Task.build p) none s good task (sig, staged, tasks) = (sig, staged, (tt, tasks))
  complete-IsSound (Task.build p) (some dir) s good task (sig, staged, tasks) =
      (sig, staged, (tt, (tt, tasks)))
  complete-IsSound (Task.privileged (Action.sign v)) answer s good task (sig, staged, tasks) =
      (sig, staged, (tt, tasks))
  complete-IsSound (Task.privileged (Action.remove v)) answer s good task (sig, staged, tasks) =
      (sig, staged, (tt, tasks))
  complete-IsSound (Task.privileged (Action.setup_signing v)) answer s good task
        (sig, staged, tasks) =
      (sig, staged, (tt, tasks))
  complete-IsSound (Task.privileged (Action.remove_many v)) answer s good task
        (sig, staged, tasks) =
      (sig, staged, (tt, tasks))
  complete-IsSound (Task.privileged (Action.install_build_deps v)) answer s good task
        (sig, staged, tasks) =
      (sig, staged, (tt, tasks))
  complete-IsSound (Task.privileged (Action.boot_once v)) answer s good task g = g
  complete-IsSound (Task.install set) answer s good task (sig, staged, tasks) =
      (sig, staged, (tt, tasks))
  complete-IsSound (Task.check_set set) result s good task g =
      set_checked-IsSound set result s good g
  complete-IsSound (Task.list_builds select) sets s good task (sig, staged, tasks) =
      select_found-IsSound (row_of _ 0 sets) _ (sig, tt, tasks)
  complete-IsSound Task.confirm_unverified answer s good task g = g
  complete-IsSound (Task.confirm_delete set) true s good task (sig, staged, tasks) =
      (sig, tt, (tt, tasks))
  complete-IsSound (Task.confirm_delete set) false s good task g = g
  complete-IsSound Task.confirm_install answer s good task g =
      branch (IsSound Checked Intact Fresh intact) answer _ s
        (start_install-IsSound Checked Intact Fresh intact s g) g
  complete-IsSound (Task.confirm_remove v) answer s good task g =
      branch (IsSound Checked Intact Fresh intact) answer _ s
        (start_privileged-IsSound Checked Intact Fresh intact (Action.remove v) s tt g) g
  complete-IsSound (Task.confirm_prune vs) answer s good task g =
      branch (IsSound Checked Intact Fresh intact) answer _ s
        (start_privileged-IsSound Checked Intact Fresh intact (Action.remove_many vs) s tt g) g
  complete-IsSound Task.ask_prune none s good task g = g
  complete-IsSound Task.ask_prune (some keep) s good task (sig, staged, tasks) =
      branch (IsSound Checked Intact Fresh intact) _ s _ (sig, staged, tasks)
        (sig, staged, (tt, tasks))
  complete-IsSound Task.ask_password typed s good task g = password_response-IsSound typed s g
  complete-IsSound Task.fetch_list none s good task g = g
  complete-IsSound Task.fetch_list (some rs) s good task g = g
  complete-IsSound Task.check_requirements none s good task g = g
  complete-IsSound Task.check_requirements (some missing) s good task g = g
  complete-IsSound Task.read_system m s good task g = g
