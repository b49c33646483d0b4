-- ===== src/Ui/Steps.antt =====
-- The runs of the window in src/ui.rs: the clicks of the user and the answers of the tasks, in any
-- order.
use kernel_pop.Prelude.{ℕ, Bool, Option, none, some, ◌∷◌, ◌++◌, List, Result, ◌≡◌}
use kernel_pop.Text.{Text}
use kernel_pop.Source.Tarball.{FilePath, Tarball}
use kernel_pop.Verify.Address.{Signer}
use kernel_pop.Build.Request.{BuildRequest, Prepared}
use kernel_pop.System.Gate.{SystemInfo}
use kernel_pop.Ui.State.{AppState, ModeChoice, Task, Action, Finished, new_state}
use kernel_pop.Ui.Handlers.{
  spawn, set_source, drop_file, check_again, set_unverified, set_mode, choose_config,
  start_privileged, click_install_deps, click_refresh, select_release, select_set, click_delete,
  click_download, click_cancel, click_build, click_install, close_request,
}
use kernel_pop.Ui.Answers.{Answer, SetCheck, complete, abandon}

pub data Click : Type 0 where
  open_file dropped_file chosen_config : FilePath → Click
  recheck install_deps refresh_list delete_build download_release cancel : Click
  build_kernel install_build close prune_kernels set_up_signing : Click
  toggle_unverified : Bool → Click
  choose_mode : ModeChoice → Click
  release_row : Option Text → Click
  build_row : Option ℕ → Click
  sign_kernel boot_kernel remove_kernel : Text → Click

unfoldable pub handle : Click → AppState → AppState
unfolding set_source drop_file check_again set_unverified set_mode choose_config start_privileged
    click_install_deps click_refresh select_release select_set click_delete click_download
    click_cancel click_build click_install close_request
handle (open_file path) s = set_source path s
handle (dropped_file path) s = drop_file path s
handle (chosen_config path) s = choose_config path s
handle recheck s = check_again s
handle install_deps s = click_install_deps s
handle refresh_list s = click_refresh s
handle delete_build s = click_delete s
handle download_release s = click_download s
handle cancel s = click_cancel s
handle build_kernel s = click_build s
handle install_build s = click_install s
handle close s = (close_request s).1
handle prune_kernels s = spawn Task.ask_prune s
handle set_up_signing s = spawn Task.ask_password s
handle (toggle_unverified want) s = set_unverified want s
handle (choose_mode m) s = set_mode m s
handle (release_row title) s = select_release title s
handle (build_row index) s = select_set index s
handle (sign_kernel version) s = start_privileged (Action.sign version) s
handle (boot_kernel version) s = start_privileged (Action.boot_once version) s
handle (remove_kernel version) s = spawn (Task.confirm_remove version) s

-- `Checked tarball verdict`: the signature check of that tarball has given the verdict.
-- `Intact set`: the packages of that finished build had the hashes of its manifest.
module _ (Checked : Tarball → Result Text Signer → Type 0) (Intact : Finished → Type 0) where
  abbrev pub CheckedBy : Option (Tarball × Result Text Signer) → Type 0
  CheckedBy none = Unit {0}
  CheckedBy (some (tarball, verdict)) = Checked tarball verdict

  abbrev pub PreparedFor : BuildRequest → Option Prepared → Type 0
  PreparedFor request none = Unit {0}
  PreparedFor request (some prepared) = prepared.request ≡ request

  abbrev pub IntactIf : Finished → SetCheck → Type 0
  IntactIf set SetCheck.intact = Intact set
  IntactIf set SetCheck.changed = Unit {0}
  IntactIf set SetCheck.task_error = Unit {0}

  -- an answer says what the task did
  unfoldable pub IsHonest : (t : Task) → Answer t → Type 0
  unfolding Answer
  IsHonest (Task.check_source path) answer = CheckedBy answer
  IsHonest (Task.prepare request) answer = PreparedFor request answer
  IsHonest (Task.check_set set) answer = IntactIf set answer
  IsHonest _ answer = Unit {0}

  pub data Step (s u : AppState) : Type 0 where
    clicks : (c : Click) → u ≡ handle c s → Step s u
    answers :
        (before after : List Task) (t : Task) (answer : Answer t)
        → s.tasks ≡ before ++ (t ∷ after)
        → IsHonest t answer
        → u ≡ complete t answer (record s { tasks = before ++ after })
        → Step s u
    panics :
        (before after : List Task) (t : Task)
        → s.tasks ≡ before ++ (t ∷ after)
        → u ≡ abandon t (record s { tasks = before ++ after })
        → Step s u

  -- the states that the window can be in
  pub data Reach : AppState → Type 0 where
    starts : (info : SystemInfo) → Reach (new_state info)
    steps : {s u : AppState} → Reach s → Step s u → Reach u
