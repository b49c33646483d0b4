-- ===== src/Ui/Trusted/Builds.antt =====
-- What src/ui.rs has built and installed.
use mathlib.Core.Path.{subst}
use kernel_pop.Prelude.{Option, none, some, ◌∷◌, ◌++◌, List, All, ◌≡◌, refl, sym, Result, ok}
use kernel_pop.Text.{Text}
use kernel_pop.Source.Tarball.{Tarball}
use kernel_pop.Verify.Address.{Signer}
use kernel_pop.Build.Request.{BuildRequest}
use kernel_pop.Ui.State.{AppState, SigState, Task, Finished}
use kernel_pop.Ui.Handlers.{end_busy}
use kernel_pop.Ui.Answers.{abandon}
use kernel_pop.Ui.Steps.{Step, clicks, answers, panics, Reach, starts, steps}
use kernel_pop.Ui.Guarded.{branch}
use kernel_pop.Ui.Trusted.{SigSound, TrustSound, RequestSound, TaskSound, IsSound, some_injective}
use kernel_pop.Ui.Trusted.Handled.{handle-IsSound}
use kernel_pop.Ui.Trusted.Run.{All-middle, complete-IsSound}

-- the build that a task is about
unfoldable pub request_in : Task → Option BuildRequest
request_in (Task.prepare request) = some request
request_in (Task.confirm_build prepared) = some prepared.request
request_in (Task.build prepared) = some prepared.request
request_in _ = none

module _ (Checked : Tarball → Result Text Signer → Type 0) (Intact Fresh : Finished → Type 0)
    (intact : (set : Finished) → Fresh set → Intact set) where
  pub abandon-IsSound :
      (t : Task) (s : AppState)
      → IsSound Checked Intact Fresh intact s
      → IsSound Checked Intact Fresh intact (abandon t s)
  unfolding abandon end_busy
  abandon-IsSound t s g = branch (IsSound Checked Intact Fresh intact) _ _ s g g

  pub Step-IsSound :
      (s u : AppState)
      → Step Checked Fresh s u
      → IsSound Checked Intact Fresh intact s
      → IsSound Checked Intact Fresh intact u
  Step-IsSound s u (clicks c e) g =
      subst (IsSound Checked Intact Fresh intact) (sym e)
        (handle-IsSound Checked Intact Fresh intact c s g)
  Step-IsSound s u (answers before after t answer at_t honest e) (sig, staged, tasks) =
      let (task, rest) =
        All-middle (TaskSound Checked Intact) before after t
          (subst (All (TaskSound Checked Intact)) at_t tasks) in
      subst (IsSound Checked Intact Fresh intact) (sym e) (
        complete-IsSound Checked Intact Fresh intact t answer (record s { tasks = before ++ after })
          honest task (sig, staged, rest))
  Step-IsSound s u (panics before after t at_t e) (sig, staged, tasks) =
      let (task, rest) =
        All-middle (TaskSound Checked Intact) before after t
          (subst (All (TaskSound Checked Intact)) at_t tasks) in
      subst (IsSound Checked Intact Fresh intact) (sym e)
        (abandon-IsSound t (record s { tasks = before ++ after }) (sig, staged, rest))

module _ (Checked : Tarball → Result Text Signer → Type 0) (Intact : Finished → Type 0) where
  pub Reach-IsSound :
      {s : AppState} → Reach Checked Intact s → IsSound Checked Intact Intact (λ set good. good) s
  unfolding TaskSound
  Reach-IsSound (starts info) = (tt, tt, (tt, (tt, (tt, (tt, tt)))))
  Reach-IsSound (steps {s = t} {u = u} reached step) =
      Step-IsSound Checked Intact Intact (λ set good. good) t u step (Reach-IsSound reached)

  task-Sound :
      (s : AppState) (before after : List Task) (t : Task)
      → Reach Checked Intact s
      → s.tasks ≡ before ++ (t ∷ after)
      → TaskSound Checked Intact t
  task-Sound s before after t reached at_t =
      let (sig, staged, tasks) = Reach-IsSound reached in
      (All-middle (TaskSound Checked Intact) before after t
        (subst (All (TaskSound Checked Intact)) at_t tasks)).0

  of_task :
      (t : Task) (request : BuildRequest)
      → TaskSound Checked Intact t
      → request_in t ≡ some request
      → RequestSound Checked Intact request
  unfolding request_in TaskSound
  of_task (Task.prepare r) request good h =
      subst (RequestSound Checked Intact) (some_injective h) good
  of_task (Task.confirm_build p) request good h =
      subst (RequestSound Checked Intact) (some_injective h) good
  of_task (Task.build p) request good h =
      subst (RequestSound Checked Intact) (some_injective h) good
  of_task (Task.check_source path) request good h = cc
  of_task (Task.download_files urls) request good h = cc
  of_task (Task.discard prepared) request good h = cc
  of_task (Task.privileged action) request good h = cc
  of_task (Task.install set) request good h = cc
  of_task (Task.check_set set) request good h = cc
  of_task (Task.list_builds select) request good h = cc
  of_task Task.confirm_unverified request good h = cc
  of_task (Task.confirm_delete set) request good h = cc
  of_task Task.confirm_install request good h = cc
  of_task (Task.confirm_remove version) request good h = cc
  of_task (Task.confirm_prune versions) request good h = cc
  of_task Task.ask_prune request good h = cc
  of_task Task.ask_password request good h = cc
  of_task Task.fetch_list request good h = cc
  of_task Task.check_requirements request good h = cc
  of_task Task.read_system request good h = cc

  -- Whatever the window prepares, asks about or builds, in any state that it reaches: a build that is
  -- called verified is of a tarball that the signature check found good, by that very signer, and one
  -- that is called unverified is of a tarball that the check refused for that very reason.
  pub request-TrustSound :
      (s : AppState) (before after : List Task) (t : Task) (request : BuildRequest)
      → Reach Checked Intact s
      → s.tasks ≡ before ++ (t ∷ after)
      → request_in t ≡ some request
      → TrustSound Checked Intact request.trust request.tarball
  request-TrustSound s before after t request reached at_t e =
      of_task t request (task-Sound s before after t reached at_t) e

  -- Whatever the window installs, in any state that it reaches, is a finished build whose packages
  -- were found to have the hashes of its manifest.
  pub install-Intact :
      (s : AppState) (before after : List Task) (set : Finished)
      → Reach Checked Intact s
      → s.tasks ≡ before ++ (Task.install set ∷ after)
      → Intact set
  unfolding TaskSound
  install-Intact s before after set reached at_t =
      task-Sound s before after (Task.install set) reached at_t

  source-SigSound :
      (source : Option Tarball) (signer : Signer)
      → SigSound Checked Intact (SigState.verified signer) source
      → (tarball : Tarball) × (source ≡ some tarball) × Checked tarball (ok signer)
  source-SigSound none signer h = elim h [ ]
  source-SigSound (some tarball) signer h = (tarball, refl, h)

  -- A signature that the window shows as good is that of the source that it would build.
  pub verified-source :
      (s : AppState) (signer : Signer)
      → Reach Checked Intact s
      → s.signature ≡ SigState.verified signer
      → (tarball : Tarball) × (s.source ≡ some tarball) × Checked tarball (ok signer)
  verified-source s signer reached e =
      source-SigSound s.source signer
        (subst (λ sg. SigSound Checked Intact sg s.source) e (Reach-IsSound reached).0)
