-- ===== src/Ui/Tests.antt =====
-- The handlers of src/ui.rs on a concrete session, and the theorems at its states.
use kernel_pop.Prelude.{inl, true, false, none, some, [], ◌∷◌, List, ◌≡◌, refl, Result, ok, err}
use kernel_pop.Text.{Text, codes, text_eq}
use kernel_pop.Source.Version.{xz}
use kernel_pop.Source.Tarball.{Tarball, FilePath}
use kernel_pop.Verify.Address.{Signer}
use kernel_pop.System.Signing.{SecureBoot, KernelSigning}
use kernel_pop.System.Gate.{SystemInfo}
use kernel_pop.Install.{ScriptReport, boots}
use kernel_pop.Build.Request.{BuildRequest, SourceTrust}
use kernel_pop.Build.Sets.{match_system}
use kernel_pop.Ui.State.{
  AppState, Busy, guard_of, action_label, is_privileged, source_trust, config_mode, SigState, Task,
  Action, Finished, new_state, controls,
}
use kernel_pop.Ui.Handlers.{
  Propagation, request_of, close_request, set_source, end_busy, click_build, start_privileged,
  select_set, set_unverified, drop_file,
}
use kernel_pop.Ui.Answers.{
  Answer, SetCheck, complete, source_checked, builds_listed, row_of, select_found, set_checked,
}
use kernel_pop.Ui.Steps.{Click, handle, Step, clicks, answers, IsHonest, Reach, starts, steps}
use kernel_pop.Ui.Guarded.{to_list, holders}
use kernel_pop.Ui.Guarded.Run.{Reach-IsGuarded, close_request-privileged}
use kernel_pop.Ui.Guarded.Refines.{LockStep}
use kernel_pop.Ui.Guarded.Refines.Run.{delivered_by, Step-LockStep}
use kernel_pop.Ui.Guarded.Settled.{Settles, Reach-Settles}
use kernel_pop.Ui.Trusted.{TrustSound}
use kernel_pop.Ui.Trusted.Builds.{request_in, request-TrustSound}
use kernel_pop.Ui.Trusted.Noted.{Noted}
use kernel_pop.Ui.Same.{same_finished}
use kernel_pop.Ui.Buttons.{build_sensitive_iff}

abbrev info : SystemInfo
info = record {
  free_boot_bytes = none;
  secure_boot = SecureBoot.enabled;
  kernel_signing = KernelSigning.enrolled;
  dkms_key = none;
  boot_needed_bytes = 100;
}

abbrev file : FilePath
file = codes "home" ∷ codes "linux-7.4.tar.xz" ∷ []

abbrev tarball_at : FilePath → Tarball
tarball_at path = record {
  path = path;
  origin = path;
  compression = xz;
  version = record { version = 7; patchlevel = 4; sublevel = 0; extraversion = [] };
  top_dir = codes "linux-7.4";
}

abbrev signer : Signer
signer = record { uid = codes "Greg <gregkh@kernel.org>"; fingerprint = codes "647F" }

abbrev finished : Finished
finished = record {
  dir = codes "linux-7.4.0-kernelpop" ∷ [];
  set = record {
    kernelrelease = codes "7.4.0-kernelpop";
    debs = codes "a.deb" ∷ [];
    source = codes "verified";
  };
}

-- the one good tarball, and the one good build
abbrev Checked : Tarball → Result Text Signer → Type 0
Checked t verdict = (t ≡ tarball_at file) × (verdict ≡ ok signer)

abbrev Intact : Finished → Type 0
Intact set = set ≡ finished

abbrev others : List Task
others = (new_state info).tasks

abbrev opened : AppState
opened = record (new_state info) {
  signature = SigState.checking;
  busy = some Busy.signature_check;
  tasks = Task.check_source file ∷ others;
}

opens : Step Checked Intact (new_state info) opened
unfolding handle set_source
opens = clicks (Click.open_file file) refl

Step-LockStep_example : LockStep (delivered_by opens) (new_state info).busy opened.busy opened.tasks
Step-LockStep_example = Step-LockStep Checked Intact (new_state info) opened (starts info) opens

opened-Reach : Reach Checked Intact opened
opened-Reach = steps (starts info) opens

abbrev good_source : AppState
good_source = record (new_state info) {
  source = some (tarball_at file);
  signature = SigState.verified signer;
}

good_source-Reach : Reach Checked Intact good_source
unfolding Answer IsHonest complete source_checked end_busy
good_source-Reach = steps opened-Reach (
    answers [] others (Task.check_source file) (some (tarball_at file, ok signer)) refl (refl, refl)
      refl)

abbrev request : BuildRequest
request = record {
  tarball = tarball_at file;
  trust = SourceTrust.verified signer;
  mode = match_system;
  running_kernel = [];
}

requested : request_of good_source ≡ some request
unfolding request_of source_trust config_mode
requested = refl

abbrev preparing : AppState
preparing = record good_source {
  build_control = some false;
  build_started = true;
  busy = some Busy.build;
  tasks = Task.prepare request ∷ others;
}

preparing-Reach : Reach Checked Intact preparing
unfolding handle click_build request_of source_trust config_mode
preparing-Reach = steps good_source-Reach (clicks Click.build_kernel refl)

Reach-IsGuarded_example : holders preparing.tasks ≡ to_list preparing.busy
Reach-IsGuarded_example = Reach-IsGuarded Checked Intact preparing-Reach

Reach-Settles_example : Settles 3 preparing
Reach-Settles_example = Reach-Settles Checked Intact preparing-Reach

request-TrustSound_example : TrustSound Checked Intact request.trust request.tarball
unfolding request_in
request-TrustSound_example =
    request-TrustSound Checked Intact preparing [] others (Task.prepare request) request
      preparing-Reach refl refl

build_sensitive_iff_example : (controls good_source).build_sensitive ≡ true
build_sensitive_iff_example = (build_sensitive_iff good_source).1 (refl, (request, requested))

abbrev is_signing : AppState
is_signing = record (new_state info) {
  busy = some Busy.signing;
  tasks = Task.privileged (Action.sign (codes "7.4.0")) ∷ others;
}

is_signing-Reach : Reach Checked Intact is_signing
unfolding handle start_privileged action_label
is_signing-Reach = steps (starts info) (clicks (Click.sign_kernel (codes "7.4.0")) refl)

close_request-privileged_example : close_request is_signing ≡ (Propagation.stop, is_signing)
unfolding guard_of action_label is_privileged
close_request-privileged_example =
    close_request-privileged Checked Intact is_signing-Reach [] others
      (Task.privileged (Action.sign (codes "7.4.0"))) refl (inl (Action.sign (codes "7.4.0"), refl))

-- a build is listed, selected, checked and installed
abbrev rest : List Task
rest = Task.check_requirements ∷ Task.fetch_list ∷ Task.read_system ∷ []

abbrev listed : AppState
listed = record (new_state info) {
  built = finished ∷ [];
  staged = some finished;
  tasks = Task.check_set finished ∷ rest;
}

abbrev is_staged_good : AppState
is_staged_good = record listed { staged_verified = true; tasks = rest }

abbrev installing : AppState
installing = record is_staged_good {
  busy = some Busy.kernel_install;
  tasks = Task.install finished ∷ rest;
}

-- A check of the earlier packages answers after the same kernel was rebuilt and the list read anew: the
-- build is marked, while the check of the new packages still waits.
late_answer :
    let rebuilt = record listed {
      tasks = Task.check_set finished ∷ Task.check_set finished ∷ rest;
    } in
    let relisted =
      builds_listed
        (some finished.dir)
        (finished ∷ [])
        (record listed { tasks = Task.check_set finished ∷ rest }) in
    (relisted ≡ rebuilt)
    × ((set_checked finished SetCheck.intact
          (record relisted { tasks = Task.check_set finished ∷ rest })).staged_verified
        ≡ true)
unfolding builds_listed row_of select_found select_set set_checked same_finished text_eq
late_answer = (refl, refl)

-- the yes to the dialog for one tarball, after another one was dropped
abbrev refused : FilePath → AppState
refused path = record (new_state info) {
  source = some (tarball_at path);
  signature = SigState.failed [];
}

other_file : FilePath
other_file = codes "home" ∷ codes "linux-evil.tar.xz" ∷ []

allowed_for_other :
    let asked = handle (Click.toggle_unverified true) (refused file) in
    let dropped = handle (Click.dropped_file other_file) asked in
    let checked =
      source_checked
        (some (tarball_at other_file, err []))
        (record dropped { tasks = Task.confirm_unverified ∷ others }) in
    let agreed = record checked { allow_unverified = true; tasks = others } in
    request_of agreed
    ≡ some (record request { tarball = tarball_at other_file; trust = SourceTrust.unverified [] })
unfolding handle set_unverified drop_file set_source source_checked end_busy request_of source_trust
    config_mode
allowed_for_other = refl

abbrev report : ScriptReport
report = record { dkms_problems = 0; sign_problems = 0; boot = boots }
