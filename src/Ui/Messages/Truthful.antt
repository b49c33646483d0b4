-- ===== src/Ui/Messages/Truthful.antt =====
-- The texts of src/ui.rs, against what src/system.rs and src/install.rs decide.
use kernel_pop.Prelude.{
  ℕ, zero, suc, Bool, true, false, none, [], ◌∷◌, ◌++◌, ◌≡◌, refl, ◌↔◌, is_some, if◌then◌else◌, ltb,
  arith,
}
use kernel_pop.System.Signing.{SecureBoot, KernelSigning}
use kernel_pop.System.Gate.{SystemInfo, install_blocker, signing_blocker, is_enabled}
use kernel_pop.Install.{ScriptReport, BootOutlook, boots, after_enrollment}
use kernel_pop.Ui.Messages.{
  SecureBootText, enrolled_boots, finish_enrolling, only_once_enrolled, not_mounted,
  unsigned_refused, off_unsigned, off_signed, undetermined, secure_boot_subtitle, Done, succeeded,
  outcome_message, toast_for, dkms_failed, signing_problems,
}

-- whether a subtitle says that a new kernel would not boot
abbrev pub warns : SecureBootText → Bool
warns enrolled_boots = false
warns finish_enrolling = false
warns only_once_enrolled = true
warns not_mounted = true
warns unsigned_refused = true
warns off_unsigned = false
warns off_signed = false
warns undetermined = false

-- The Secure Boot row warns in exactly the states of the key in which an install is blocked.
pub warns-secure_boot_subtitle :
    (info : SystemInfo)
    → warns (secure_boot_subtitle info.secure_boot info.kernel_signing)
      ≡ is_some (install_blocker info)
unfolding secure_boot_subtitle install_blocker signing_blocker
warns-secure_boot_subtitle info = by_state info.secure_boot info.kernel_signing
  where
    by_state :
        (sb : SecureBoot) (k : KernelSigning)
        → warns (secure_boot_subtitle sb k)
          ≡ is_some (if is_enabled sb then signing_blocker k else none)
    by_state SecureBoot.enabled KernelSigning.enrolled = refl
    by_state SecureBoot.enabled KernelSigning.enrollment_pending = refl
    by_state SecureBoot.enabled KernelSigning.key_not_enrolled = refl
    by_state SecureBoot.enabled KernelSigning.unknown = refl
    by_state SecureBoot.enabled KernelSigning.efi_vars_not_mounted = refl
    by_state SecureBoot.enabled KernelSigning.no_key = refl
    by_state SecureBoot.disabled KernelSigning.enrolled = refl
    by_state SecureBoot.disabled KernelSigning.enrollment_pending = refl
    by_state SecureBoot.disabled KernelSigning.key_not_enrolled = refl
    by_state SecureBoot.disabled KernelSigning.unknown = refl
    by_state SecureBoot.disabled KernelSigning.efi_vars_not_mounted = refl
    by_state SecureBoot.disabled KernelSigning.no_key = refl
    by_state SecureBoot.unknown k = refl

-- The toast after a run of the script is that of a plain success if and only if the script reported
-- no DKMS failure, no signing problem, and a kernel that boots without any more ado.
pub outcome_message-succeeded :
    (done : Done) (r : ScriptReport)
    → (outcome_message done r ≡ succeeded done)
      ↔ ((r.dkms_problems ≡ 0) × (r.sign_problems ≡ 0) × (r.boot ≡ boots))
unfolding outcome_message
outcome_message-succeeded done r = by_counts r.dkms_problems r.sign_problems r.boot
  where
    by_counts :
        (d s : ℕ) (boot : BootOutlook)
        → (toast_for done
              ((if ltb 0 d then dkms_failed ∷ [] else [])
                ++ (if ltb 0 s then signing_problems ∷ [] else []))
              boot
            ≡ succeeded done)
          ↔ ((d ≡ 0) × (s ≡ 0) × (boot ≡ boots))
    by_counts zero zero boots = ground arith
    by_counts zero zero after_enrollment = ground arith
    by_counts zero (suc s) outlook = ground arith
    by_counts (suc d) zero outlook = ground arith
    by_counts (suc d) (suc s) outlook = ground arith
