-- ===== src/Ui/Trusted/Noted.antt =====
-- Which builds were found intact in a run of the window of src/ui.rs since the list was last read.
use kernel_pop.Prelude.{
  Bool, true, false, Option, none, some, [], ◌∷◌, List, All, Elem, refl, inl, inr, Result,
}
use kernel_pop.Text.{Text}
use kernel_pop.Source.Tarball.{Tarball}
use kernel_pop.Verify.Address.{Signer}
use kernel_pop.System.Gate.{SystemInfo}
use kernel_pop.Ui.State.{AppState, Task, Finished, new_state}
use kernel_pop.Ui.Answers.{Answer, SetCheck, complete, builds_listed}
use kernel_pop.Ui.Steps.{IsHonest, Step, clicks, answers, panics, Reach, starts, steps}
use kernel_pop.Ui.Trusted.{SigSound, TaskSound, StagedSound, IsSound}
use kernel_pop.Ui.Trusted.Run.{complete-IsSound}

-- The builds that a check has found intact since the list was last read: an answer adds one to them,
-- and the list that is read anew forgets them all.
unfoldable pub noted : (t : Task) → Answer t → List Finished → List Finished
unfolding Answer
noted (Task.check_set set) SetCheck.intact log = set ∷ log
noted (Task.check_set set) SetCheck.changed log = log
noted (Task.check_set set) SetCheck.task_error log = log
noted (Task.list_builds select) sets log = []
noted _ answer log = log

module _ (Checked : Tarball → Result Text Signer → Type 0) (Intact : Finished → Type 0) where
  abbrev pub noted_by : {s u : AppState} → Step Checked Intact s u → List Finished → List Finished
  noted_by (clicks c e) log = log
  noted_by (answers before after t answer at_t honest e) log = noted t answer log
  noted_by (panics before after t at_t e) log = log

  -- the states that the window can be in, with the builds that were found intact
  pub data Noted : List Finished → AppState → Type 0 where
    begins : (info : SystemInfo) → Noted [] (new_state info)
    goes_on :
        {s u : AppState} {log : List Finished}
        → Noted log s
        → (step : Step Checked Intact s u) → Noted (noted_by step log) u

  -- a check has found the build intact, and the list was not read anew after its answer
  abbrev pub IsFresh : List Finished → Finished → Type 0
  IsFresh log set = Elem set log × Intact set

  pub Noted-Reach : {log : List Finished} {s : AppState} → Noted log s → Reach Checked Intact s
  Noted-Reach (begins info) = starts info
  Noted-Reach (goes_on before step) = steps (Noted-Reach before) step

  -- the staged build, if it is marked as verified
  abbrev pub IsStagedFresh : List Finished → Bool → Option Finished → Type 0
  IsStagedFresh log b staged =
      StagedSound Checked Intact (IsFresh log) (λ set (at, good). good) b staged

  fresh_later :
      (log : List Finished) (set : Finished) (b : Bool) (staged : Option Finished)
      → IsStagedFresh log b staged
      → IsStagedFresh (set ∷ log) b staged
  fresh_later log set true none good = good
  fresh_later log set true (some other) (at, good) = (inr at, good)
  fresh_later log set false staged good = tt

  pub answer-IsSound :
      (J : Finished → Type 0) (log : List Finished) (t : Task) (answer : Answer t) (s : AppState)
      (intact : (set : Finished) → IsFresh (noted t answer log) set → J set)
      → IsHonest Checked Intact t answer
      → TaskSound Checked J t
      → SigSound Checked J s.signature s.source
      → IsStagedFresh log s.staged_verified s.staged
      → All (TaskSound Checked J) s.tasks
      → IsSound Checked J (IsFresh (noted t answer log)) intact (complete t answer s)
  unfolding noted Answer IsHonest complete builds_listed
  answer-IsSound J log (Task.check_set set) SetCheck.intact s intact honest task sig staged tasks =
      complete-IsSound Checked J (IsFresh (set ∷ log)) intact (Task.check_set set) SetCheck.intact s
        (inl refl, honest) task (sig, fresh_later log set s.staged_verified s.staged staged, tasks)
  answer-IsSound J log (Task.check_set set) SetCheck.changed s intact honest task sig staged tasks =
      complete-IsSound Checked J (IsFresh log) intact (Task.check_set set) SetCheck.changed s tt
        task (sig, staged, tasks)
  answer-IsSound J log (Task.check_set set) SetCheck.task_error s intact honest task sig staged
        tasks =
      complete-IsSound Checked J (IsFresh log) intact (Task.check_set set) SetCheck.task_error s tt
        task (sig, staged, tasks)
  answer-IsSound J log (Task.list_builds select) sets s intact honest task sig staged tasks =
      complete-IsSound Checked J (IsFresh []) intact (Task.list_builds select) sets
        (record s { staged_verified = false }) tt task (sig, tt, tasks)
  answer-IsSound J log (Task.check_source path) answer s intact honest task sig staged tasks =
      complete-IsSound Checked J (IsFresh log) intact (Task.check_source path) answer s honest task
        (sig, staged, tasks)
  answer-IsSound J log (Task.download_files urls) answer s intact honest task sig staged tasks =
      complete-IsSound Checked J (IsFresh log) intact (Task.download_files urls) answer s honest
        task (sig, staged, tasks)
  answer-IsSound J log (Task.prepare request) answer s intact honest task sig staged tasks =
      complete-IsSound Checked J (IsFresh log) intact (Task.prepare request) answer s honest task
        (sig, staged, tasks)
  answer-IsSound J log (Task.confirm_build p) answer s intact honest task sig staged tasks =
      complete-IsSound Checked J (IsFresh log) intact (Task.confirm_build p) answer s honest task
        (sig, staged, tasks)
  answer-IsSound J log (Task.discard p) answer s intact honest task sig staged tasks =
      complete-IsSound Checked J (IsFresh log) intact (Task.discard p) answer s honest task
        (sig, staged, tasks)
  answer-IsSound J log (Task.build p) answer s intact honest task sig staged tasks =
      complete-IsSound Checked J (IsFresh log) intact (Task.build p) answer s honest task
        (sig, staged, tasks)
  answer-IsSound J log (Task.privileged a) answer s intact honest task sig staged tasks =
      complete-IsSound Checked J (IsFresh log) intact (Task.privileged a) answer s honest task
        (sig, staged, tasks)
  answer-IsSound J log (Task.install set) answer s intact honest task sig staged tasks =
      complete-IsSound Checked J (IsFresh log) intact (Task.install set) answer s honest task
        (sig, staged, tasks)
  answer-IsSound J log (Task.confirm_delete set) answer s intact honest task sig staged tasks =
      complete-IsSound Checked J (IsFresh log) intact (Task.confirm_delete set) answer s honest task
        (sig, staged, tasks)
  answer-IsSound J log (Task.confirm_remove version) answer s intact honest task sig staged tasks =
      complete-IsSound Checked J (IsFresh log) intact (Task.confirm_remove version) answer s honest
        task (sig, staged, tasks)
  answer-IsSound J log (Task.confirm_prune versions) answer s intact honest task sig staged tasks =
      complete-IsSound Checked J (IsFresh log) intact (Task.confirm_prune versions) answer s honest
        task (sig, staged, tasks)
  answer-IsSound J log Task.confirm_unverified answer s intact honest task sig staged tasks =
      complete-IsSound Checked J (IsFresh log) intact Task.confirm_unverified answer s honest task
        (sig, staged, tasks)
  answer-IsSound J log Task.confirm_install answer s intact honest task sig staged tasks =
      complete-IsSound Checked J (IsFresh log) intact Task.confirm_install answer s honest task
        (sig, staged, tasks)
  answer-IsSound J log Task.ask_prune answer s intact honest task sig staged tasks =
      complete-IsSound Checked J (IsFresh log) intact Task.ask_prune answer s honest task
        (sig, staged, tasks)
  answer-IsSound J log Task.ask_password answer s intact honest task sig staged tasks =
      complete-IsSound Checked J (IsFresh log) intact Task.ask_password answer s honest task
        (sig, staged, tasks)
  answer-IsSound J log Task.fetch_list answer s intact honest task sig staged tasks =
      complete-IsSound Checked J (IsFresh log) intact Task.fetch_list answer s honest task
        (sig, staged, tasks)
  answer-IsSound J log Task.check_requirements answer s intact honest task sig staged tasks =
      complete-IsSound Checked J (IsFresh log) intact Task.check_requirements answer s honest task
        (sig, staged, tasks)
  answer-IsSound J log Task.read_system answer s intact honest task sig staged tasks =
      complete-IsSound Checked J (IsFresh log) intact Task.read_system answer s honest task
        (sig, staged, tasks)
