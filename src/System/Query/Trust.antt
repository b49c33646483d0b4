-- ===== src/System/Query/Trust.antt =====
-- What `query_system` of src/system.rs finds of Secure Boot and of the signing key, and what an install
-- makes of it.
use kernel_pop.Prelude.{none, ◌≡◌, ◌≢◌, refl, ◌↔◌, ◌⊎◌, inl, inr, Bool-cases}
use kernel_pop.System.Signing.{SecureBoot, combine_kernel_signing}
use kernel_pop.System.Gate.{install_blocker}
use kernel_pop.System.Gate.Bootable.{IsTrusted, install_blocker_iff}
use kernel_pop.System.Query.{
  Observed, signing_der, key_files_present, test_key, key_pending, detect_kernel_signing,
  detect_secure_boot, query_system,
}

module _ (m : Observed) where
  detect_kernel_signing_lem :
      detect_kernel_signing m
      ≡ combine_kernel_signing
          (key_files_present m)
          (test_key m signing_der)
          (key_pending m signing_der)
  unfolding detect_kernel_signing combine_kernel_signing
  detect_kernel_signing_lem = elim (Bool-cases (key_files_present m)) [
    | inl all_there ↦ rw all_there refl
    | inr missing ↦ rw missing refl
  ]

  -- On the machine that is queried, nothing blocks an install if and only if Secure Boot is not found
  -- to be on, or all three files of the signing key are there and mokutil reports the key as enrolled
  -- or queued, or the key is on the list of a waiting request that is still the recorded one.
  pub query_system-blocker_iff : (install_blocker (query_system m).info ≡ none) ↔ (
      (detect_secure_boot m ≢ SecureBoot.enabled)
      ⊎ IsTrusted (key_files_present m) (test_key m signing_der) (key_pending m signing_der))
  unfolding query_system
  query_system-blocker_iff =
      install_blocker_iff (query_system m).info (key_files_present m) (key_pending m signing_der)
        (test_key m signing_der) detect_kernel_signing_lem
