-- ===== src/Ui/Trusted.antt =====
-- Which sources src/ui.rs has built, and which builds it installs: the checks behind each state.
pub mod Handled
pub mod Run
pub mod Builds
pub mod Noted
pub mod Fresh
use kernel_pop.Prelude.{
  ℕ, Bool, true, false, not, Option, none, some, All, inl, inr, if◌then◌else◌, [], ◌∷◌, ◌++◌, List,
  ◌≡◌, refl, sym, ap, ◌∙◌, arith, filter_map, Bool-cases, Option-cases, Result, ok, err, is_some,
}
use mathlib.Core.Path.{subst}
use kernel_pop.Text.{Text}
use kernel_pop.Build.Sets.{ConfigMode}
use kernel_pop.Verify.Address.{Signer}
use kernel_pop.Source.Tarball.{Tarball, FilePath}
use kernel_pop.Build.Request.{SourceTrust, BuildRequest, Prepared}
use kernel_pop.System.Gate.{install_blocker}
use kernel_pop.Ui.State.{
  AppState, SigState, ModeChoice, Busy, Task, Action, Finished, guard_of, action_label, new_state,
  is_privileged, is_none_left, trust_of, config_mode, source_trust,
}
use kernel_pop.Ui.Handlers.{
  Propagation, spawn, begin_busy, end_busy, set_source, drop_file, check_again, set_unverified,
  set_mode, choose_config, start_privileged, click_install_deps, click_refresh, select_release,
  select_set, click_delete, click_download, click_cancel, click_build, click_install, close_request,
  start_install, request_of, file_names, urls_of, cautions, check_staged, and_then, get, is_staged,
  is_privileged_run,
}
use kernel_pop.Ui.Answers.{
  Answer, SetCheck, Machine, complete, abandon, source_checked, downloaded, finish, prepared_tree,
  build_response, built_packages, reload_after, privileged_done, installed, set_checked, row_of,
  select_found, builds_listed, delete_response, install_response, remove_response, prune_response,
  review_response, password_response, releases_listed, requirements_checked, system_read, is_valid,
}
use kernel_pop.Ui.Guarded.{begun, branch, option_branch, mode_branch, list_branch}
use kernel_pop.Install.{validate_mok_password}
use kernel_pop.System.Prune.{prune_candidates}
use kernel_pop.Ui.Steps.{Click, handle, Step, clicks, answers, panics, Reach, starts, steps}

pub some_injective {ℓ} : {A : Type ℓ} {a b : A} → some a ≡ some b → a ≡ b
some_injective h = cc

module _ (Checked : Tarball → Result Text Signer → Type 0) (Intact : Finished → Type 0) where
  -- what the signature's state says was said by the check of the very source
  abbrev pub SigSound : SigState → Option Tarball → Type 0
  SigSound (SigState.verified signer) none = ⊥
  SigSound (SigState.verified signer) (some tarball) = Checked tarball (ok signer)
  SigSound (SigState.failed why) none = ⊥
  SigSound (SigState.failed why) (some tarball) = Checked tarball (err why)
  SigSound _ source = Unit {0}

  abbrev pub TrustSound : SourceTrust → Tarball → Type 0
  TrustSound (SourceTrust.verified signer) tarball = Checked tarball (ok signer)
  TrustSound (SourceTrust.unverified reason) tarball = Checked tarball (err reason)

  abbrev pub RequestSound : BuildRequest → Type 0
  RequestSound request = TrustSound request.trust request.tarball

  unfoldable pub TaskSound : Task → Type 0
  TaskSound (Task.prepare request) = RequestSound request
  TaskSound (Task.confirm_build prepared) = RequestSound prepared.request
  TaskSound (Task.build prepared) = RequestSound prepared.request
  TaskSound (Task.install set) = Intact set
  TaskSound (Task.privileged (Action.setup_signing password)) =
      validate_mok_password password password ≡ ok tt
  TaskSound _ = Unit {0}

-- `Fresh set`: the packages of that finished build were found intact, and what is listed is not newer.
module _ (Checked : Tarball → Result Text Signer → Type 0) (Intact Fresh : Finished → Type 0)
    (intact : (set : Finished) → Fresh set → Intact set) where
  abbrev pub StagedSound : Bool → Option Finished → Type 0
  StagedSound true none = ⊥
  StagedSound true (some set) = Fresh set
  StagedSound false staged = Unit {0}

  abbrev pub IsSound : AppState → Type 0
  IsSound s =
      SigSound Checked Intact s.signature s.source
      × StagedSound s.staged_verified s.staged
      × All (TaskSound Checked Intact) s.tasks

  pub set_source-IsSound :
      (path : FilePath) (s : AppState) → IsSound s → IsSound (set_source path s)
  unfolding set_source TaskSound
  set_source-IsSound path s (sig, staged, tasks) =
      begun IsSound s.busy s _ (sig, staged, tasks) (λ free. (tt, staged, (tt, tasks)))

  pub start_privileged-IsSound :
      (action : Action) (s : AppState)
      → TaskSound Checked Intact (Task.privileged action)
      → IsSound s
      → IsSound (start_privileged action s)
  unfolding start_privileged
  start_privileged-IsSound action s fine (sig, staged, tasks) =
      begun IsSound s.busy s _ (sig, staged, tasks) (λ free. (sig, staged, (fine, tasks)))

  install_branch :
      (P : AppState → Type 0) (verified : Bool) (staged : Option Finished) (s : AppState)
      (f : Finished → AppState)
      → StagedSound verified staged
      → P s
      → ((set : Finished) → Intact set → P (f set))
      → P (if verified then elim staged [ none ↦ s | some set ↦ f set ] else s)
  install_branch P true none s f good p q = elim good [ ]
  install_branch P true (some set) s f good p q = q set (intact set good)
  install_branch P false staged s f good p q = p

  pub start_install-IsSound : (s : AppState) → IsSound s → IsSound (start_install s)
  unfolding start_install TaskSound
  start_install-IsSound s (sig, staged, tasks) =
      install_branch IsSound s.staged_verified s.staged s _ staged (sig, staged, tasks)
        (λ set good.
          begun IsSound s.busy s _ (sig, staged, tasks) (λ free. (sig, staged, (good, tasks))))

  pub select_set-IsSound :
      (index : Option ℕ) (s : AppState) → IsSound s → IsSound (select_set index s)
  unfolding select_set TaskSound
  select_set-IsSound index s (sig, staged, tasks) =
      branch IsSound _ s _ (sig, staged, tasks) (checked (and_then (get s.built) index))
    where
      checked :
          (set : Option Finished)
          → IsSound (check_staged set (record s { staged = set; staged_verified = false }))
      checked none = (sig, tt, tasks)
      checked (some set) = (sig, tt, (tt, tasks))
