-- ===== src/Build/Sets/Verified.antt =====
-- The results of `verify_built_set` and `space_problem` in src/build.rs.
use kernel_pop.Prelude.{
  ℕ, ◌≤◌, Option, none, some, [], ◌∷◌, ok, context, guard, >>=-eq-ok, ◌≡◌, refl, arith, ◌↔◌, ◌∙◌,
  ap, All,
}
use kernel_pop.Text.{Text, text_eq, text_eq_sound, text_eq_refl}
use kernel_pop.Build.Manifest.{Manifest, parse_manifest}
use kernel_pop.Build.Sets.{
  ConfigMode, disk_need, too_small, space_problem, not_readable, changed, no_manifest, as_set_error,
  check_packages, verify_built_set,
}

too_small-none :
    (free : Option ℕ) (need : ℕ)
    → (too_small free need ≡ none) ↔ ((f : ℕ) → free ≡ some f → need ≤ f)
too_small-none none need = ((λ h f e. ground arith), λ h. refl)
too_small-none (some g) need = ((λ h f e. ground arith), λ h. let enough = h g refl in ground arith)

-- There is no problem with the space if and only if the build directory has what the configuration
-- needs and /boot has what one more kernel needs, each where the free space is known.
pub space_problem_iff :
    (mode : ConfigMode) (cache_free boot_free : Option ℕ) (boot_need : ℕ)
    → (space_problem mode cache_free boot_free boot_need ≡ none) ↔ (
        ((f : ℕ) → cache_free ≡ some f → disk_need mode ≤ f)
        × ((f : ℕ) → boot_free ≡ some f → boot_need ≤ f))
unfolding space_problem
space_problem_iff mode cache_free boot_free boot_need =
    let cache = too_small-none cache_free (disk_need mode) in
    let boot = too_small-none boot_free boot_need in
    (
      λ h.
          let no_cache : too_small cache_free (disk_need mode) ≡ none = ground arith in
          let no_boot : too_small boot_free boot_need ≡ none = ground arith in
          (cache.0 no_cache, boot.0 no_boot),
      λ (c, b). ground (arith, cache.1 c, boot.1 b),
    )

module _ (sha256 : Text → Option Text) where
  check_packages_iff :
      (m : Manifest)
      → (check_packages sha256 m ≡ ok tt) ↔ All (λ (name, want). sha256 name ≡ some want) m
  unfolding check_packages
  check_packages_iff [] = ((λ h. tt), λ h. refl)
  check_packages_iff ((name, want) ∷ m) = (
    λ h.
        let (got, read, h1) = >>=-eq-ok (context (not_readable name) (sha256 name)) _ h in
        let (_, same, h2) = >>=-eq-ok (guard (text_eq got want) (changed name)) _ h1 in
        let is : got ≡ want = text_eq_sound got want (ground arith) in
        let there : sha256 name ≡ some got = ground arith in
        (there ∙ ap (λ t. some t) is, (check_packages_iff m).0 h2),
    λ (there, rest). rw (there, text_eq_refl want) ((check_packages_iff m).1 rest),
  )

  -- A finished build passes the check if and only if its manifest can be read and parsed, and every
  -- package that the manifest names can be read and has the hash that the manifest gives.
  pub verify_built_set_iff :
      (manifest : Option Text)
      → (verify_built_set sha256 manifest ≡ ok tt) ↔ (
          (text : Text) × (m : Manifest) × (manifest ≡ some text)
          × (parse_manifest text ≡ ok m)
          × All (λ (name, want). sha256 name ≡ some want) m)
  unfolding verify_built_set
  verify_built_set_iff manifest = (
    λ h.
        let (text, read, h1) = >>=-eq-ok (context no_manifest manifest) _ h in
        let (m, parsed, h2) = >>=-eq-ok (as_set_error (parse_manifest text)) _ h1 in
        (text, m, ground arith, ground arith, (check_packages_iff m).0 h2),
    λ (text, m, there, parsed, good). rw (there, parsed) ((check_packages_iff m).1 good),
  )
