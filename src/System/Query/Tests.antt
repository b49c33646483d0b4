-- ===== src/System/Query/Tests.antt =====
-- `query_system` of src/system.rs on a concrete machine, and the theorems at it.
use kernel_pop.Prelude.{
  ℕ, true, false, none, some, [], ◌∷◌, List, ◌≡◌, ◌≢◌, refl, ◌↔◌, ◌⊎◌, Elem, inl, inr, ◌+◌, ◌*◌,
  ◌≤◌, ◌<◌, ◌^◌, ◌++◌, arith, All,
}
use mathlib.Core.List.{map}
use kernel_pop.Text.{Text, codes, lines, parse_unsigned}
use kernel_pop.System.Prune.{InstalledKernel, listed_first, sort, sort_listed}
use kernel_pop.System.Prune.Newest.{Sorted}
use kernel_pop.System.BootPath.{Bootloader, EntriesDir}
use kernel_pop.System.Versions.{version_key, numbers, span, rc_part, rest_key, lex}
use kernel_pop.System.Signing.{
  SecureBoot, KernelSigning, parse_mokutil_test_key, parse_secureboot_efivar, combine_secure_boot,
  combine_kernel_signing,
}
use kernel_pop.System.Gate.{install_blocker}
use kernel_pop.System.Gate.Bootable.{IsTrusted}
use kernel_pop.System.Query.{
  Observed, BootFile, signing_der, query_system, get_installed_kernels, detect_secure_boot,
  key_files_present, test_key, key_pending, boot_needed_bytes,
}
use kernel_pop.System.Query.Listed.{IsReadFrom, get_installed_kernels-IsListed}
use kernel_pop.System.Query.Trust.{query_system-blocker_iff}
use kernel_pop.System.Query.Room.{boot_needed_bytes-covers}

abbrev image : Text → ℕ → BootFile
image v n = record { name = some (codes "vmlinuz-" ++ v); size = some n }

abbrev initrd : BootFile
initrd = record { name = some (codes "initrd.img-6.1"); size = some 90 }

abbrev boot_files : List BootFile
boot_files =
    image (codes "6.1") 12
    ∷ initrd
    ∷ record { name = some (codes "grub"); size = none }
    ∷ image (codes "6.2") 14
    ∷ image (codes "6.0") 11
    ∷ []

-- Secure Boot is on, the key is there and enrolled, and 6.1 runs.
abbrev laptop : Observed
laptop = record {
  to_lowercase = λ t. t;
  uname = some (codes "6.1\n");
  efibootmgr = none;
  found = record {
    kernelstub_configured = false;
    kernelstub_command = false;
    is_efi = true;
    esp = none;
    loader_conf = λ t. false;
    update_grub = true;
  };
  boot_files = record {
    root_links = record { has_vmlinuz = false; vmlinuz = none; vmlinuz_old = none };
    boot_links = record { has_vmlinuz = false; vmlinuz = none; vmlinuz_old = none };
    efi_dirs = [];
    grub_cfg = none;
    loader_entries = λ t. EntriesDir.not_there;
  };
  boot_dir = some boot_files;
  has_initrd = λ v. true;
  has_modules = λ v. true;
  has_key_file = λ f. true;
  has_dkms_der = false;
  test_key_output = λ der. some (codes "signing.der is already enrolled", []);
  openssl = λ der. none;
  mok_new = none;
  pending_list = none;
  marker = λ v. none;
  image = λ v. none;
  dpkg_query = none;
  efivars = some ((some (codes "SecureBoot-8be4"), some (6 ∷ 0 ∷ 0 ∷ 0 ∷ 1 ∷ [])) ∷ []);
  sb_state = none;
  df = λ path. some (codes "Avail\n 5000\n");
}

versions :
    map (λ k. k.version) (query_system laptop).kernels
    ≡ codes "6.1" ∷ codes "6.2" ∷ codes "6.0" ∷ []
unfolding query_system sort_listed sort version_key numbers span rc_part rest_key parse_unsigned lex
versions = refl

enrolled :
    ((query_system laptop).info.kernel_signing ≡ KernelSigning.enrolled)
    × ((query_system laptop).info.secure_boot ≡ SecureBoot.enabled)
    × ((query_system laptop).info.free_boot_bytes ≡ some 5000)
unfolding query_system combine_kernel_signing parse_mokutil_test_key combine_secure_boot
    parse_secureboot_efivar lines parse_unsigned
enrolled = (refl, refl, refl)

get_installed_kernels-IsListed_example :
    let ks = get_installed_kernels laptop (codes "6.1") Bootloader.grub true in
    Sorted listed_first ks
    × ((k : InstalledKernel)
        → Elem k ks
        → (f : BootFile) × Elem f boot_files × IsReadFrom (codes "6.1") f k)
    × ((f : BootFile) (v : Text)
        → Elem f boot_files
        → f.name ≡ some (codes "vmlinuz-" ++ v)
        → (k : InstalledKernel) × Elem k ks × (k.version ≡ v))
get_installed_kernels-IsListed_example =
    get_installed_kernels-IsListed laptop (codes "6.1") Bootloader.grub true boot_files refl

query_system-blocker_iff_example : (install_blocker (query_system laptop).info ≡ none) ↔ (
    (detect_secure_boot laptop ≢ SecureBoot.enabled)
    ⊎ IsTrusted
        (key_files_present laptop)
        (test_key laptop signing_der)
        (key_pending laptop signing_der))
query_system-blocker_iff_example = query_system-blocker_iff laptop

small : All (λ f. (n : ℕ) → f.size ≡ some n → n < 2 ^ 62) boot_files
small = (
  (λ n h. ground arith),
  ((λ n h. ground arith), ((λ n h. cc), ((λ n h. ground arith), ((λ n h. ground arith), tt)))),
)

boot_needed_bytes-covers_example : 14 + 2 * 90 ≤ boot_needed_bytes laptop
boot_needed_bytes-covers_example =
    boot_needed_bytes-covers laptop boot_files (image (codes "6.2") 14) initrd (codes "6.2")
      (codes "6.1") 14 90 refl small (inr (inr (inr (inl refl)))) refl refl (inr (inl refl)) refl
      refl
