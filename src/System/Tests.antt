-- ===== src/System/Tests.antt =====
-- The functions of src/system.rs on concrete inputs, and the theorems at some of them.
use kernel_pop.Prelude.{
  find_map, all, ℕ, Bool, true, false, none, some, [], ◌∷◌, ◌++◌, List, ◌≡◌, ◌≢◌, refl, All,
}
use mathlib.Core.List.{map}
use kernel_pop.Text.{
  Text, codes, lines, parse_unsigned, strip_suffix, strip_prefix, ends_with, trim, text_eq,
  split_char, contains, ascii_lower,
}
use kernel_pop.System.BootPath.{
  BootPath, direct_systemd_boot, parse_boot_path, classify_entry, is_entry_of, byte_split,
  entry_name, sdboot_entry_matches, version_line, without_tries, cut_at_plus,
}
use kernel_pop.System.Versions.{
  version_key, numbers, span, rc_part, rest_key, lex, compare_to_running, dotted, relate, newer,
}
use kernel_pop.System.Prune.{missing, InstalledKernel, present, unsigned, prune_candidates, sort}
use kernel_pop.System.Prune.Safety.{IsOld, prune_candidates-IsOld}
use kernel_pop.System.Health.{
  healthy, health_summary, no_modules, not_in_menu, kernelstub_entry, kernelstub_slot, forbidden,
}
use kernel_pop.System.Signing.{
  SecureBoot, KernelSigning, TestKey, parse_pending_list, pending_lines, recorded_size,
  fingerprints, normalize_fingerprint, combine_kernel_signing, parse_secureboot_efivar,
}
use kernel_pop.System.Signing.Pending.{IsFingerprint, parse_pending_list-fresh}
use kernel_pop.System.Gate.{SystemInfo, install_blocker, install_warnings, estimate_boot_needed}

key_of_candidate :
    (version_key (codes "7.2-rc3") ≡ 7 ∷ 2 ∷ 0 ∷ 3 ∷ [])
    × (version_key (codes "7.2.0") ≡ 7 ∷ 2 ∷ 0 ∷ 1 ∷ [])
unfolding version_key numbers span rc_part rest_key parse_unsigned
key_of_candidate = (refl, refl)

badge : compare_to_running (codes "7.1.4-76070104-generic") (codes "7.2") ≡ newer
unfolding compare_to_running dotted relate parse_unsigned
badge = refl

abbrev kernel : Text → Bool → InstalledKernel
kernel v is_running = record {
  version = v;
  has_initrd = true;
  has_modules = true;
  boot_entry = present;
  running = is_running;
  signed = some unsigned;
}

abbrev kernels : List InstalledKernel
kernels =
    kernel (codes "7.1.1") true
    ∷ kernel (codes "7.3.2") false
    ∷ kernel (codes "7.2-rc1") false
    ∷ kernel (codes "7.2") false
    ∷ []

pruned : prune_candidates kernels 2 ≡ codes "7.2-rc1" ∷ []
unfolding prune_candidates sort version_key parse_unsigned lex
pruned = refl

prune_candidates-IsOld_example : All (IsOld kernels 2) (prune_candidates kernels 2)
prune_candidates-IsOld_example = prune_candidates-IsOld kernels 2

abbrev print : Text
print = codes "38:DB:BD:C8:60:92:69:3E:38:DB:BD:C8:60:92:69:3E:00:11:22:33"

abbrev waiting : Text
waiting = codes "moknew-size 812\n" ++ print

abbrev normal_print : Text
normal_print = codes "38dbbdc86092693e38dbbdc86092693e00112233"

fresh : parse_pending_list waiting (some 812) ≡ normal_print ∷ []
unfolding parse_pending_list pending_lines recorded_size fingerprints normalize_fingerprint lines
    parse_unsigned
fresh = refl

parse_pending_list-fresh_example :
    All IsFingerprint (parse_pending_list waiting (some 812))
    × (parse_pending_list waiting (some 812) ≢ []
        → (l : Text) × (rest : List Text) × (n : ℕ) × (lines waiting ≡ l ∷ rest)
          × (recorded_size l ≡ some n)
          × (some 812 ≡ some n))
parse_pending_list-fresh_example = parse_pending_list-fresh waiting (some 812)

abbrev info : SystemInfo
info = record {
  free_boot_bytes = some 500000000;
  secure_boot = SecureBoot.enabled;
  kernel_signing = KernelSigning.enrolled;
  dkms_key = none;
  boot_needed_bytes = 400000000;
}

passes : install_blocker info ≡ none
unfolding install_blocker
passes = refl

quiet : install_warnings info ≡ []
unfolding install_warnings
quiet = refl

combined_enrolled :
    KernelSigning.enrolled ≡ combine_kernel_signing true (some TestKey.enrolled) false
unfolding combine_kernel_signing
combined_enrolled = refl

estimated : estimate_boot_needed (15 ∷ 14 ∷ []) (100 ∷ 180 ∷ []) ≡ some 375
unfolding estimate_boot_needed
estimated = refl

efivar : parse_secureboot_efivar (6 ∷ 0 ∷ 0 ∷ 0 ∷ 1 ∷ []) ≡ SecureBoot.enabled
unfolding parse_secureboot_efivar
efivar = refl

abbrev no_modules_kernel : InstalledKernel
no_modules_kernel = record (kernel (codes "7.2") false) {
  has_modules = false;
  boot_entry = missing;
}

banner :
    health_summary (no_modules_kernel ∷ kernels)
    ≡ some (record { problems = no_modules ∷ not_in_menu ∷ []; do_not_reboot = true })
unfolding health_summary
banner = refl

nothing_wrong : all healthy kernels ≡ true
unfolding healthy
nothing_wrong = refl

slot :
    kernelstub_entry
      (codes "7.2")
      (record { has_vmlinuz = false; vmlinuz = none; vmlinuz_old = none })
      (record {
        has_vmlinuz = true;
        vmlinuz = some (codes "vmlinuz-7.3");
        vmlinuz_old = some (codes "vmlinuz-7.2");
      })
      (forbidden ∷ [])
    ≡ present
unfolding kernelstub_entry kernelstub_slot
slot = refl

abbrev efibootmgr : Text
efibootmgr =
    codes
      "BootCurrent: 000A\nTimeout: 0 seconds\nBoot0001* Pop!_OS\tHD(1)\nBoot000a* Linux Boot Manager\tHD(1)/\\EFI\\x.efi\n"

boot_paths :
    (parse_boot_path (map ascii_lower) efibootmgr ≡ direct_systemd_boot)
    × (parse_boot_path (map ascii_lower) (codes "BootCurrent: 0001\nBoot0001* Pop!_OS\tHD(1)\n")
        ≡ BootPath.other (codes "Pop!_OS"))
    × (parse_boot_path (map ascii_lower) (codes "Boot0001* x\n") ≡ BootPath.unknown)
unfolding parse_boot_path classify_entry is_entry_of byte_split entry_name find_map lines
    strip_prefix split_char trim text_eq contains
boot_paths = (refl, refl, refl)

sdboot_entries :
    (sdboot_entry_matches (codes "pop-7.4.0+3-0.conf") none (codes "7.4.0") ≡ true)
    × (sdboot_entry_matches (codes "pop-17.4.0.conf") none (codes "7.4.0") ≡ false)
    × (sdboot_entry_matches
          (codes "x.conf")
          (some (codes "title a\nversion  7.4.0\r\n"))
          (codes "7.4.0")
        ≡ true)
unfolding sdboot_entry_matches version_line without_tries cut_at_plus strip_suffix strip_prefix
    ends_with lines trim text_eq
sdboot_entries = (refl, refl, refl)
