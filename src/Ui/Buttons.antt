-- ===== src/Ui/Buttons.antt =====
-- The sensitivity of the buttons of src/ui.rs, against what their handlers do.
use kernel_pop.Prelude.{
  Bool, true, false, not, ◌&&◌, if◌then◌else◌, Option, none, some, ◌≡◌, refl, ◌↔◌, is_some,
}
use kernel_pop.Text.{Text}
use kernel_pop.Source.Tarball.{Tarball}
use kernel_pop.Build.Sets.{ConfigMode}
use kernel_pop.Build.Request.{SourceTrust, BuildRequest}
use kernel_pop.Ui.State.{
  AppState, Busy, can_build, controls, config_mode, source_trust, is_none_left,
}
use kernel_pop.Ui.Handlers.{request_of}

request_parts :
    (busy : Option Busy) (source : Option Tarball) (trust : Option SourceTrust)
    (mode : Option ConfigMode) (left : Bool) (running : Text)
    → ((not (is_some busy) && (is_some source && (is_some trust && (left && is_some mode)))) ≡ true)
      ↔ ((busy ≡ none)
          × ((request : BuildRequest) × (elim source [
            | none ↦ none
            | some tarball ↦ elim trust [
              | none ↦ none
              | some t ↦ elim mode [
                | none ↦ none
                | some m ↦
                    if left
                    then some (record {
                      tarball = tarball;
                      trust = t;
                      mode = m;
                      running_kernel = running;
                    })
                    else none
              ]
            ]
          ]
                ≡ some request)))
request_parts (some b) source trust mode left running = ((λ h. cc), λ (idle, rest). cc)
request_parts none none trust mode left running = ((λ h. cc), λ (idle, (r, e)). cc)
request_parts none (some t) none mode left running = ((λ h. cc), λ (idle, (r, e)). cc)
request_parts none (some t) (some u) none true running = ((λ h. cc), λ (idle, (r, e)). cc)
request_parts none (some t) (some u) none false running = ((λ h. cc), λ (idle, (r, e)). cc)
request_parts none (some t) (some u) (some m) false running = ((λ h. cc), λ (idle, (r, e)). cc)
request_parts none (some t) (some u) (some m) true running =
    ((λ h. (refl, (_, refl))), λ rest. refl)

-- The Build button takes a click exactly in the states in which its handler, which reads the state
-- anew, finds the window idle and a request to start.
pub build_sensitive_iff :
    (s : AppState)
    → ((controls s).build_sensitive ≡ true)
      ↔ ((s.busy ≡ none) × ((request : BuildRequest) × (request_of s ≡ some request)))
unfolding controls can_build request_of
build_sensitive_iff s =
    request_parts s.busy s.source (source_trust s) (config_mode s) (is_none_left s.missing_deps)
      s.running_kernel
