-- ===== src/Ui/Messages.antt =====
-- The subtitles and toasts of src/ui.rs. A text is a constructor, with what it is filled in with.
pub mod Truthful
use kernel_pop.Prelude.{
  ℕ, Bool, true, false, Option, none, some, [], ◌∷◌, ◌++◌, if◌then◌else◌, List, ltb,
}
use kernel_pop.Text.{Text, lines, trim, text_eq}
use kernel_pop.System.Signing.{SecureBoot, KernelSigning}
use kernel_pop.System.BootPath.{BootPath}
use kernel_pop.Install.{ScriptReport, BootOutlook, boots, after_enrollment, parse_report}

-- the subtitles of the Secure Boot row
pub data SecureBootText : Type 0 where
  enrolled_boots finish_enrolling only_once_enrolled not_mounted unsigned_refused : SecureBootText
  off_unsigned off_signed undetermined : SecureBootText

unfoldable pub secure_boot_subtitle : SecureBoot → KernelSigning → SecureBootText
secure_boot_subtitle SecureBoot.enabled KernelSigning.enrolled = enrolled_boots
secure_boot_subtitle SecureBoot.enabled KernelSigning.enrollment_pending = finish_enrolling
secure_boot_subtitle SecureBoot.enabled KernelSigning.key_not_enrolled = only_once_enrolled
secure_boot_subtitle SecureBoot.enabled KernelSigning.unknown = only_once_enrolled
secure_boot_subtitle SecureBoot.enabled KernelSigning.efi_vars_not_mounted = not_mounted
secure_boot_subtitle SecureBoot.enabled KernelSigning.no_key = unsigned_refused
secure_boot_subtitle SecureBoot.disabled KernelSigning.no_key = off_unsigned
secure_boot_subtitle SecureBoot.disabled KernelSigning.enrolled = off_signed
secure_boot_subtitle SecureBoot.disabled KernelSigning.enrollment_pending = off_signed
secure_boot_subtitle SecureBoot.disabled KernelSigning.key_not_enrolled = off_signed
secure_boot_subtitle SecureBoot.disabled KernelSigning.efi_vars_not_mounted = off_signed
secure_boot_subtitle SecureBoot.disabled KernelSigning.unknown = off_signed
secure_boot_subtitle SecureBoot.unknown signing = undetermined

-- those of the boot path row; it is hidden for none
pub data BootPathText : Type 0 where
  shim_starts firmware_starts_systemd_boot : BootPathText
  firmware_starts : Text → BootPathText

unfoldable pub boot_path_subtitle : BootPath → Option BootPathText
boot_path_subtitle BootPath.shim = some shim_starts
boot_path_subtitle BootPath.direct_systemd_boot = some firmware_starts_systemd_boot
boot_path_subtitle (BootPath.other name) = some (firmware_starts name)
boot_path_subtitle BootPath.unknown = none

-- those of the signing row
pub data SigningText : Type 0 where
  not_set_up set_up_again confirm_at_reboot set_up cannot_read could_not_read : SigningText

unfoldable pub signing_subtitle : KernelSigning → SigningText
signing_subtitle KernelSigning.no_key = not_set_up
signing_subtitle KernelSigning.key_not_enrolled = set_up_again
signing_subtitle KernelSigning.enrollment_pending = confirm_at_reboot
signing_subtitle KernelSigning.enrolled = set_up
signing_subtitle KernelSigning.efi_vars_not_mounted = cannot_read
signing_subtitle KernelSigning.unknown = could_not_read

-- the privileged runs that can report problems
pub data Done : Type 0 where
  install sign setup_signing : Done

pub data Problem : Type 0 where
  dkms_failed signing_problems : Problem

pub data Toast : Type 0 where
  succeeded confirm_enrollment : Done → Toast
  see_log : Done → List Problem → Toast

abbrev pub problems_of : ScriptReport → List Problem
problems_of r =
    (if ltb 0 r.dkms_problems then dkms_failed ∷ [] else [])
    ++ (if ltb 0 r.sign_problems then signing_problems ∷ [] else [])

abbrev pub by_outlook : Done → BootOutlook → Toast
by_outlook done boots = succeeded done
by_outlook done after_enrollment = confirm_enrollment done

abbrev pub toast_for : Done → List Problem → BootOutlook → Toast
toast_for done [] outlook = by_outlook done outlook
toast_for done (p ∷ ps) outlook = see_log done (p ∷ ps)

unfoldable pub outcome_message : Done → ScriptReport → Toast
outcome_message done r = toast_for done (problems_of r) r.boot

-- what is written to the log
pub data LogLine : Type 0 where
  line : Text → LogLine
  dkms_warning sign_warning : ℕ → LogLine

unfoldable pub log_output : List Text → List LogLine
unfolding text_eq trim
log_output [] = []
log_output (l ∷ ls) =
    let rest = log_output ls in if text_eq (trim l) [] then rest else line l ∷ rest

unfoldable pub report_run : Text → Done → List LogLine × Toast
unfolding log_output lines
report_run out done =
    let r = parse_report out in
    (
      log_output (lines out)
          ++ ((if ltb 0 r.dkms_problems then dkms_warning r.dkms_problems ∷ [] else [])
              ++ (if ltb 0 r.sign_problems then sign_warning r.sign_problems ∷ [] else [])),
      outcome_message done r,
    )
