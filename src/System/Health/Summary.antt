-- ===== src/System/Health/Summary.antt =====
-- The banner of `health_summary` in src/system.rs.
use kernel_pop.Prelude.{
  true, not, none, some, [], ◌∷◌, ◌&&◌, ◌||◌, List, any, all, ◌≡◌, refl, arith, ◌↔◌,
}
use kernel_pop.System.Prune.{InstalledKernel}
use kernel_pop.System.Health.{healthy, is_missing, health_summary, Banner}

all-healthy :
    (ks : List InstalledKernel)
    → all healthy ks ≡ (
        not (any (λ k. not k.has_initrd) ks)
        && (not (any (λ k. not k.has_modules) ks) && not (any (λ k. is_missing k.boot_entry) ks)))
unfolding healthy
all-healthy [] = refl
all-healthy (k ∷ ks) = ground (arith, all-healthy ks)

unsafe_reboot :
    (ks : List InstalledKernel)
    → any (λ k. not k.has_initrd || not k.has_modules) ks
      ≡ (any (λ k. not k.has_initrd) ks || any (λ k. not k.has_modules) ks)
unsafe_reboot [] = refl
unsafe_reboot (k ∷ ks) = ground (arith, unsafe_reboot ks)

-- There is no banner if and only if every kernel is healthy; and a banner says not to reboot if and
-- only if some kernel has no initramfs or no modules.
pub health_summary_iff :
    (ks : List InstalledKernel)
    → ((health_summary ks ≡ none) ↔ (all healthy ks ≡ true))
      × ((b : Banner)
          → health_summary ks ≡ some b
          → b.do_not_reboot ≡ (any (λ k. not k.has_initrd) ks || any (λ k. not k.has_modules) ks))
unfolding health_summary
health_summary_iff ks = (
  (λ h. ground (arith, all-healthy ks), λ h. ground (arith, all-healthy ks)),
  λ b h. ground (arith, unsafe_reboot ks),
)
