-- ===== src/System/Query.antt =====
-- `query_system` of src/system.rs and what it calls. What is read from the disk, and what the programs
-- print that it runs, is an argument; the parsers and decisions are those of the other files.
pub mod Listed
pub mod Room
pub mod Trust
mod Tests
use kernel_pop.Prelude.{
  ℕ, ◌*◌, Bool, true, false, not, Option, none, some, [], ◌∷◌, ◌++◌, ◌&&◌, if◌then◌else◌, List,
  drop, any, filter_map, find, or_default, is_some, map_option,
}
use kernel_pop.Text.{
  Text, codes, lines, trim, text_eq, strip_prefix, starts_with, parse_unsigned, u64_max, ℤ,
}
use kernel_pop.System.Prune.{InstalledKernel, KernelSignature, sort_listed}
use kernel_pop.System.Health.{classify_signature}
use kernel_pop.System.BootPath.{
  BootPath, parse_boot_path, Found, detect_bootloader, Bootloader, BootFiles, boot_entry,
}
use kernel_pop.System.Signing.{
  SecureBoot, KernelSigning, KeyEnrollment, TestKey, key_present, parse_mokutil_test_key,
  parse_openssl_fingerprint, parse_pending_list, parse_distro_signed, marker_matches,
  combine_kernel_signing, combine_key_enrollment, parse_secureboot_efivar, parse_mokutil_sb_state,
  combine_secure_boot,
}
use kernel_pop.System.Gate.{SystemInfo, estimate_boot_needed}

-- the certificates that are asked about
pub data Certificate : Type 0 where
  signing_der dkms_der : Certificate

-- an entry of /boot: its name, if it is UTF-8, and its size, where it can be read
pub record BootFile : Type 0 where
  pub name : Option Text
  pub size : Option ℕ

-- What the program meets. A program's output is `none` where it does not run; `efibootmgr` is that
-- of a run that succeeds.
pub record Observed : Type 0 where
  pub to_lowercase : Text → Text
  pub uname : Option Text
  pub efibootmgr : Option Text
  pub found : Found
  pub boot_files : BootFiles
  pub boot_dir : Option (List BootFile)
  pub has_initrd : Text → Bool
  pub has_modules : Text → Bool
  -- a file of the directory of the signing key, or the DKMS certificate
  pub has_key_file : Text → Bool
  pub has_dkms_der : Bool
  -- standard output and standard error of `mokutil --test-key`
  pub test_key_output : Certificate → Option (Text × Text)
  pub openssl : Certificate → Option Text
  -- the size of MokNew, where there is one, and the shared list
  pub mok_new : Option ℕ
  pub pending_list : Option Text
  -- the marker of a signed kernel, and the size and time of its image
  pub marker : Text → Option Text
  pub image : Text → Option (ℕ × ℤ)
  pub dpkg_query : Option Text
  -- the EFI variables, where they can be listed, each with its content
  pub efivars : Option (List (Option Text × Option (List ℕ)))
  pub sb_state : Option Text
  pub df : Text → Option Text

abbrev pub min_boot_bytes : ℕ
min_boot_bytes = 200 * 1024 * 1024

module _ (m : Observed) where
  unfoldable pub detect_boot_path : BootPath
  detect_boot_path = elim m.efibootmgr [
    | none ↦ BootPath.unknown
    | some out ↦ parse_boot_path m.to_lowercase out
  ]

  unfoldable pub get_running_kernel : Text
  get_running_kernel = elim m.uname [ none ↦ codes "unknown" | some out ↦ trim out ]

  abbrev pub second_line : List Text → Option ℕ
  second_line [] = none
  second_line (l ∷ []) = none
  second_line (l ∷ n ∷ ls) = parse_unsigned u64_max (trim n)

  unfoldable pub get_free_disk : Text → Option ℕ
  get_free_disk path = elim (m.df path) [ none ↦ none | some text ↦ second_line (lines text) ]

  unfoldable pub key_files_present : Bool
  key_files_present =
      m.has_key_file (codes "signing.key")
      && (m.has_key_file (codes "signing.pem") && m.has_key_file (codes "signing.der"))

  unfoldable pub cert_fingerprint : Certificate → Option Text
  cert_fingerprint der = elim (m.openssl der) [
    | none ↦ none
    | some out ↦ parse_openssl_fingerprint out
  ]

  abbrev pub is_listed : Option Text → Option Text → ℕ → Bool
  is_listed none list size = false
  is_listed (some fp) none size = false
  is_listed (some fp) (some list) size = any (text_eq fp) (parse_pending_list list (some size))

  unfoldable pub key_pending : Certificate → Bool
  unfolding cert_fingerprint
  key_pending der = elim m.mok_new [
    | none ↦ false
    | some size ↦ is_listed (cert_fingerprint der) m.pending_list size
  ]

  unfoldable pub test_key : Certificate → Option TestKey
  test_key der = elim (m.test_key_output der) [
    | none ↦ none
    | some (out, errors) ↦ parse_mokutil_test_key (out ++ errors) m.found.is_efi
  ]

  unfoldable pub detect_kernel_signing : KernelSigning
  unfolding key_files_present test_key key_pending
  detect_kernel_signing =
      if not key_files_present
      then KernelSigning.no_key
      else combine_kernel_signing true (test_key Certificate.signing_der)
          (key_pending Certificate.signing_der)

  unfoldable pub detect_dkms_key : Option KeyEnrollment
  unfolding test_key key_pending
  detect_dkms_key =
      if m.has_dkms_der
      then some (
          combine_key_enrollment (test_key Certificate.dkms_der) (key_pending Certificate.dkms_der))
      else none

  unfoldable pub signed_by_kernel_pop : Text → Bool
  signed_by_kernel_pop version = elim (m.marker version) [
    | none ↦ false
    | some text ↦ elim (m.image version) [
      | none ↦ false
      | some (size, mtime) ↦ marker_matches text size mtime
    ]
  ]

  unfoldable pub distro_signed_kernels : List Text
  distro_signed_kernels = elim m.dpkg_query [ none ↦ [] | some out ↦ parse_distro_signed out ]

  abbrev pub is_secure_boot_var : Option Text × Option (List ℕ) → Bool
  is_secure_boot_var (none, content) = false
  is_secure_boot_var (some name, content) = starts_with (codes "SecureBoot-") name

  abbrev pub read_var : Option (Option Text × Option (List ℕ)) → SecureBoot
  read_var (some (name, some raw)) = parse_secureboot_efivar raw
  read_var (some (name, none)) = SecureBoot.unknown
  read_var none = SecureBoot.unknown

  unfoldable pub detect_secure_boot : SecureBoot
  unfolding starts_with
  detect_secure_boot =
      if not m.found.is_efi
      then SecureBoot.disabled
      else combine_secure_boot
          (elim m.efivars [
            | none ↦ SecureBoot.unknown
            | some vars ↦ read_var (find is_secure_boot_var vars)
          ])
          (map_option parse_mokutil_sb_state m.sb_state)

  -- the size of a file of that kind
  abbrev pub size_of_kind : (Text → Bool) → BootFile → Option ℕ
  size_of_kind kind f = elim f.name [ none ↦ none | some name ↦ if kind name then f.size else none ]

  abbrev pub is_image : Text → Bool
  is_image name = starts_with (codes "vmlinuz-") name

  abbrev pub is_initrd : Text → Bool
  is_initrd name = not (is_image name) && starts_with (codes "initrd.img-") name

  unfoldable pub boot_needed_bytes : ℕ
  unfolding starts_with filter_map
  boot_needed_bytes =
      let files = or_default [] m.boot_dir in
      or_default min_boot_bytes (
        estimate_boot_needed (filter_map (size_of_kind is_image) files)
          (filter_map (size_of_kind is_initrd) files))

  unfoldable pub signature_of : Bool → List Text → Text → Option KernelSignature
  unfolding signed_by_kernel_pop text_eq
  signature_of has_key distro version =
      if has_key
      then some (classify_signature (signed_by_kernel_pop version) (any (text_eq version) distro))
      else none

  unfoldable pub kernel_of : Text → Bootloader → Bool → List Text → Text → InstalledKernel
  unfolding signature_of text_eq
  kernel_of running bootloader has_key distro version = record {
    version = version;
    has_initrd = m.has_initrd version;
    has_modules = m.has_modules version;
    boot_entry = boot_entry version m.boot_files bootloader;
    running = text_eq version running;
    signed = signature_of has_key distro version;
  }

  unfoldable pub installed_kernel :
      Text → Bootloader → Bool → List Text → BootFile → Option InstalledKernel
  unfolding kernel_of strip_prefix
  installed_kernel running bootloader has_key distro f = elim f.name [
    | none ↦ none
    | some name ↦
        map_option (kernel_of running bootloader has_key distro)
          (strip_prefix (codes "vmlinuz-") name)
  ]

  unfoldable pub get_installed_kernels : Text → Bootloader → Bool → List InstalledKernel
  unfolding installed_kernel distro_signed_kernels filter_map
  get_installed_kernels running bootloader has_key =
      let distro = if has_key then distro_signed_kernels else [] in
      elim m.boot_dir [
        | none ↦ []
        | some files ↦
            sort_listed (filter_map (installed_kernel running bootloader has_key distro) files)
      ]

-- the whole of `SystemInfo`; `info` has the fields that the install reads
pub record Queried : Type 0 where
  pub kernels : List InstalledKernel
  pub running_kernel : Text
  pub free_root_bytes : Option ℕ
  pub boot_path : BootPath
  pub info : SystemInfo

unfoldable pub query_system : Observed → Queried
unfolding get_running_kernel detect_kernel_signing get_installed_kernels get_free_disk
    detect_secure_boot detect_dkms_key detect_boot_path boot_needed_bytes detect_bootloader
query_system m =
    let running = get_running_kernel m in
    let signing = detect_kernel_signing m in
    record {
      kernels = get_installed_kernels m running (detect_bootloader m.found) (key_present signing);
      running_kernel = running;
      free_root_bytes = get_free_disk m (codes "/");
      boot_path = detect_boot_path m;
      info = record {
        free_boot_bytes = get_free_disk m (codes "/boot");
        secure_boot = detect_secure_boot m;
        kernel_signing = signing;
        dkms_key = detect_dkms_key m;
        boot_needed_bytes = boot_needed_bytes m;
      };
    }
