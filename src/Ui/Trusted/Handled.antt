-- ===== src/Ui/Trusted/Handled.antt =====
-- What a handler of src/ui.rs starts to build or to install was checked.
use kernel_pop.Prelude.{Bool, true, false, Option, none, some, if◌then◌else◌, ◌≡◌, ap, Result}
use mathlib.Core.Path.{subst}
use kernel_pop.Text.{Text}
use kernel_pop.Build.Sets.{ConfigMode}
use kernel_pop.Verify.Address.{Signer}
use kernel_pop.Source.Tarball.{Tarball, FilePath}
use kernel_pop.Build.Request.{SourceTrust, BuildRequest}
use kernel_pop.System.Gate.{install_blocker}
use kernel_pop.Ui.State.{
  AppState, SigState, Action, Finished, is_none_left, trust_of, config_mode, source_trust,
}
use kernel_pop.Ui.Handlers.{
  Propagation, drop_file, check_again, set_unverified, set_mode, choose_config, click_install_deps,
  click_refresh, select_release, click_delete, click_download, click_cancel, click_build,
  click_install, close_request, request_of, file_names, urls_of, cautions, is_privileged_run,
}
use kernel_pop.Ui.Guarded.{begun, branch, option_branch, mode_branch, list_branch}
use kernel_pop.Ui.Steps.{Click, handle}
use kernel_pop.Ui.Trusted.{
  SigSound, TrustSound, RequestSound, TaskSound, IsSound, some_injective, set_source-IsSound,
  start_privileged-IsSound, start_install-IsSound, select_set-IsSound,
}

module _ (Checked : Tarball → Result Text Signer → Type 0) (Intact Fresh : Finished → Type 0)
    (intact : (set : Finished) → Fresh set → Intact set) where
  choose_config-IsSound :
      (path : FilePath) (s : AppState)
      → IsSound Checked Intact Fresh intact s
      → IsSound Checked Intact Fresh intact (choose_config path s)
  unfolding choose_config set_mode TaskSound
  choose_config-IsSound path s (sig, staged, tasks) =
      mode_branch (IsSound Checked Intact Fresh intact) s.mode _ _ (sig, staged, (tt, tasks))
        (sig, staged, tasks)

  click_download-IsSound :
      (s : AppState)
      → IsSound Checked Intact Fresh intact s
      → IsSound Checked Intact Fresh intact (click_download s)
  unfolding click_download TaskSound
  click_download-IsSound s (sig, staged, tasks) =
      option_branch (IsSound Checked Intact Fresh intact) s.selected_release s _
        (sig, staged, tasks)
        (λ r e.
          option_branch (IsSound Checked Intact Fresh intact) (file_names (urls_of r)) s _
            (sig, staged, tasks)
            (λ names f.
              begun (IsSound Checked Intact Fresh intact) s.busy s _ (sig, staged, tasks)
                (λ free. (sig, staged, (tt, tasks)))))

  trust_of-Sound :
      (sg : SigState) (allow : Bool) (trust : SourceTrust) (tarball : Tarball)
      → trust_of sg allow ≡ some trust
      → SigSound Checked Intact sg (some tarball)
      → TrustSound Checked Intact trust tarball
  trust_of-Sound SigState.unchecked allow trust tarball h good = cc
  trust_of-Sound SigState.checking allow trust tarball h good = cc
  trust_of-Sound (SigState.verified signer) allow trust tarball h good =
      let same : SourceTrust.verified signer ≡ trust = some_injective h in
      subst (λ u. TrustSound Checked Intact u tarball) same good
  trust_of-Sound (SigState.failed why) true trust tarball h good =
      let same : SourceTrust.unverified why ≡ trust = some_injective h in
      subst (λ u. TrustSound Checked Intact u tarball) same good
  trust_of-Sound (SigState.failed why) false trust tarball h good = cc

  request_of-Sound :
      (s : AppState) (r : BuildRequest)
      → SigSound Checked Intact s.signature s.source
      → request_of s ≡ some r
      → RequestSound Checked Intact r
  unfolding request_of source_trust
  request_of-Sound s r sig e =
      let (same, trusts) =
        parts s.source (source_trust s) (config_mode s) (is_none_left s.missing_deps)
          s.running_kernel e in
      trust_of-Sound s.signature s.allow_unverified r.trust r.tarball trusts
        (subst (SigSound Checked Intact s.signature) same sig)
    where
      parts :
          (source : Option Tarball) (trust : Option SourceTrust) (mode : Option ConfigMode)
          (left : Bool) (running : Text)
          → elim source [
            | none ↦ none
            | some tarball ↦ elim trust [
              | none ↦ none
              | some t ↦ elim mode [
                | none ↦ none
                | some m ↦
                    if left
                    then some (record {
                      tarball = tarball;
                      trust = t;
                      mode = m;
                      running_kernel = running;
                    })
                    else none
              ]
            ]
          ]
            ≡ some r
          → (source ≡ some r.tarball) × (trust ≡ some r.trust)
      parts none trust mode left running h = cc
      parts (some t) none mode left running h = cc
      parts (some t) (some u) none left running h = cc
      parts (some t) (some u) (some m) false running h = cc
      parts (some t) (some u) (some m) true running h =
          let i = some_injective h in (ap (λ q. some q.tarball) i, ap (λ q. some q.trust) i)

  click_build-IsSound :
      (s : AppState)
      → IsSound Checked Intact Fresh intact s
      → IsSound Checked Intact Fresh intact (click_build s)
  unfolding click_build TaskSound
  click_build-IsSound s (sig, staged, tasks) =
      option_branch (IsSound Checked Intact Fresh intact) (request_of s) s _ (sig, staged, tasks)
        (λ r e.
          begun (IsSound Checked Intact Fresh intact) s.busy s _ (sig, staged, tasks)
            (λ free. (sig, staged, (request_of-Sound s r sig e, tasks))))

  click_install-IsSound :
      (s : AppState)
      → IsSound Checked Intact Fresh intact s
      → IsSound Checked Intact Fresh intact (click_install s)
  unfolding click_install TaskSound
  click_install-IsSound s (sig, staged, tasks) =
      begun (IsSound Checked Intact Fresh intact) (install_blocker s.sysinfo) s _
        (sig, staged, tasks)
        (λ free.
          list_branch (IsSound Checked Intact Fresh intact) (cautions s) _ _
            (start_install-IsSound Checked Intact Fresh intact s (sig, staged, tasks))
            (sig, staged, (tt, tasks)))

  close_request-IsSound :
      (s : AppState)
      → IsSound Checked Intact Fresh intact s
      → IsSound Checked Intact Fresh intact (close_request s).1
  unfolding close_request
  close_request-IsSound s (sig, staged, tasks) =
      let P : Propagation × AppState → Type 0 = λ p. IsSound Checked Intact Fresh intact p.1 in
      branch P (is_privileged_run s.busy) _ _ (sig, staged, tasks)
        (option_branch P s.build_control _ _ (sig, staged, tasks) (λ c e. (sig, staged, tasks)))

  pub handle-IsSound :
      (c : Click) (s : AppState)
      → IsSound Checked Intact Fresh intact s
      → IsSound Checked Intact Fresh intact (handle c s)
  unfolding handle drop_file check_again set_unverified set_mode click_install_deps click_refresh
      select_release click_delete click_cancel TaskSound
  handle-IsSound (Click.open_file path) s g =
      set_source-IsSound Checked Intact Fresh intact path s g
  handle-IsSound (Click.dropped_file path) s g =
      begun (IsSound Checked Intact Fresh intact) s.busy s _ g
        (λ idle. set_source-IsSound Checked Intact Fresh intact path s g)
  handle-IsSound (Click.chosen_config path) s g = choose_config-IsSound path s g
  handle-IsSound Click.recheck s g =
      option_branch (IsSound Checked Intact Fresh intact) s.source s _ g
        (λ t e. set_source-IsSound Checked Intact Fresh intact t.origin s g)
  handle-IsSound Click.install_deps s g =
      branch (IsSound Checked Intact Fresh intact) (is_none_left s.missing_deps) s _ g (
        start_privileged-IsSound Checked Intact Fresh intact
          (Action.install_build_deps s.missing_deps) s tt g)
  handle-IsSound Click.refresh_list s (sig, staged, tasks) = (sig, staged, (tt, tasks))
  handle-IsSound Click.delete_build s (sig, staged, tasks) =
      option_branch (IsSound Checked Intact Fresh intact) s.staged s _ (sig, staged, tasks)
        (λ set e. (sig, staged, (tt, tasks)))
  handle-IsSound Click.download_release s g = click_download-IsSound s g
  handle-IsSound Click.cancel s g = g
  handle-IsSound Click.build_kernel s g = click_build-IsSound s g
  handle-IsSound Click.install_build s g = click_install-IsSound s g
  handle-IsSound Click.close s g = close_request-IsSound s g
  handle-IsSound Click.prune_kernels s (sig, staged, tasks) = (sig, staged, (tt, tasks))
  handle-IsSound Click.set_up_signing s (sig, staged, tasks) = (sig, staged, (tt, tasks))
  handle-IsSound (Click.toggle_unverified true) s (sig, staged, tasks) =
      branch (IsSound Checked Intact Fresh intact) s.allow_unverified s _ (sig, staged, tasks)
        (sig, staged, (tt, tasks))
  handle-IsSound (Click.toggle_unverified false) s g =
      branch (IsSound Checked Intact Fresh intact) s.allow_unverified _ s g g
  handle-IsSound (Click.choose_mode m) s (sig, staged, tasks) = (sig, staged, (tt, tasks))
  handle-IsSound (Click.release_row title) s g =
      option_branch (IsSound Checked Intact Fresh intact) title _ _ g (λ v e. g)
  handle-IsSound (Click.build_row index) s g =
      select_set-IsSound Checked Intact Fresh intact index s g
  handle-IsSound (Click.sign_kernel version) s g =
      start_privileged-IsSound Checked Intact Fresh intact (Action.sign version) s tt g
  handle-IsSound (Click.boot_kernel version) s g =
      start_privileged-IsSound Checked Intact Fresh intact (Action.boot_once version) s tt g
  handle-IsSound (Click.remove_kernel version) s (sig, staged, tasks) = (sig, staged, (tt, tasks))
