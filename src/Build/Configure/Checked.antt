-- ===== src/Build/Configure/Checked.antt =====
-- What `configure` of src/build.rs has checked when it returns a summary.
use mathlib.Core.Path.{subst}
use kernel_pop.Prelude.{
  Bool, true, Option, none, some, List, [], ◌∷◌, ◌++◌, ◌≡◌, refl, sym, ap, ◌∙◌, ◌⊎◌, inl, inr,
  Result, ok, err, is_some, if◌then◌else◌, Option-cases, ok_injective,
}
use kernel_pop.Text.{Text, codes, text_eq, text_eq_sound}
use kernel_pop.Source.Tarball.{FilePath}
use kernel_pop.Source.Archive.{ArchiveError, check_single_top_dir}
use kernel_pop.Build.Manifest.{valid_release}
use kernel_pop.Build.Request.{BuildRequest, ConfigSummary}
use kernel_pop.Build.Texts.{config_value, module_count}
use kernel_pop.Build.Configure.Notes.{localversion, is_on, first_fixes}
use kernel_pop.Build.Configure.{
  Tools, ConfigError, ask, run, extract_tree, copy_base, fix_rust, tune, summarize, configure,
  check, check_config, then_check, expect, expect_if_set, empty_value, debug_info_on, unexpected,
  lift, of_archive, of_option, not_read, last_line, bad_release, kernelrelease, make_prepare,
  apply_fixes, olddefconfig, count_objects,
}
use kernel_pop.Build.Configure.Behind.{
  >>=-ok, passes, passed, IsConfigured, run-ok, tune-IsConfigured,
}

then_check-ok :
    (a b : Result ConfigError (Unit {0})) → then_check a b ≡ ok tt → (a ≡ ok tt) × (b ≡ ok tt)
then_check-ok (err e) b h = cc
then_check-ok (ok tt) b h = (refl, h)

expect-ok :
    (config name want : Text)
    → expect config name want ≡ ok tt
    → config_value config name ≡ some want
unfolding expect
expect-ok config name want h = of_value (config_value config name) h
  where
    of_value :
        (o : Option Text)
        → elim o [
          | none ↦ err (unexpected name none want)
          | some v ↦ if text_eq v want then passes else err (unexpected name (some v) want)
        ]
          ≡ passes
        → o ≡ some want
    of_value none g = cc
    of_value (some v) g =
        ap (λ u. some u)
          (text_eq_sound v want (passed (text_eq v want) (unexpected name (some v) want) g))

-- what the configuration has to be for a build
pub record IsBuildable (config : Text) : Type 0 where
  pub localversion_set :
      config_value config (codes "LOCALVERSION") ≡ some (b'"' ∷ (localversion ++ (b'"' ∷ [])))
  pub no_debug_info : config_value config (codes "DEBUG_INFO") ≡ none
  pub no_trusted_keys :
      (config_value config (codes "SYSTEM_TRUSTED_KEYS") ≡ none)
      ⊎ (config_value config (codes "SYSTEM_TRUSTED_KEYS") ≡ some empty_value)
  pub no_revocation_keys :
      (config_value config (codes "SYSTEM_REVOCATION_KEYS") ≡ none)
      ⊎ (config_value config (codes "SYSTEM_REVOCATION_KEYS") ≡ some empty_value)

expect_if_set-ok :
    (config name : Text)
    → expect_if_set config name ≡ ok tt
    → (config_value config name ≡ none) ⊎ (config_value config name ≡ some empty_value)
expect_if_set-ok config name h = elim (Option-cases (config_value config name)) [
  | inl e ↦ inl e
  | inr (v, e) ↦ inr (expect-ok config name empty_value (rw e at h))
]

none_left :
    (o : Option Text) → (if is_some o then err debug_info_on else passes) ≡ passes → o ≡ none
none_left none h = refl
none_left (some v) h = cc

check_config-IsBuildable : (config : Text) → check_config config ≡ ok tt → IsBuildable config
unfolding check_config
check_config-IsBuildable config h =
    let (a, h1) = then_check-ok _ _ h in
    let (b, h2) = then_check-ok _ _ h1 in
    let (c, d) = then_check-ok _ _ h2 in
    record {
      localversion_set = expect-ok config (codes "LOCALVERSION") _ a;
      no_debug_info = none_left (config_value config (codes "DEBUG_INFO")) b;
      no_trusted_keys = expect_if_set-ok config (codes "SYSTEM_TRUSTED_KEYS") c;
      no_revocation_keys = expect_if_set-ok config (codes "SYSTEM_REVOCATION_KEYS") d;
    }

of_archive-ok : (r : Result ArchiveError (Unit {0})) → of_archive r ≡ passes → r ≡ ok tt
of_archive-ok (ok tt) h = refl
of_archive-ok (err e) h = cc

of_option-some :
    {A : Type 0} (e : ConfigError) (o : Option A) {a : A} → of_option e o ≡ ok a → o ≡ some a
of_option-some e none h = cc
of_option-some e (some b) h = ap (λ x. some x) (ok_injective refl h)

module _ {W : Type 0} (t : Tools W) where
  summarize-IsBuildable :
      (req : BuildRequest) (base : FilePath) (base_rust : Bool) (config : Text)
      (fixes notes : List Text) (w : W) {s : ConfigSummary} {u : W}
      → summarize t req base base_rust config fixes notes w ≡ (ok s, u)
      → IsBuildable config
        × (valid_release s.kernelrelease ≡ true)
        × (s.modules ≡ module_count config)
        × (s.mode ≡ req.mode)
  unfolding summarize
  summarize-IsBuildable req base base_rust config fixes notes w h =
      let (_, w1, good, h1) = >>=-ok (lift (check_config config)) _ w h in
      let (ls, w2, released, h2) = >>=-ok (run t kernelrelease) _ w1 h1 in
      let (_, w3, valid, h3) =
        >>=-ok (check (valid_release (last_line ls)) (bad_release (last_line ls))) _ w2 h2 in
      let (_, w4, made, h4) = >>=-ok (run t make_prepare) _ w3 h3 in
      let (objects, w5, counted, h5) = >>=-ok (ask t (count_objects t)) _ w4 h4 in
      let is = ok_injective refl (ap (λ p. p.0) h5) in
      let allowed =
        passed (valid_release (last_line ls)) (bad_release (last_line ls)) (ap (λ p. p.0) valid) in
      (
        check_config-IsBuildable config (ap (λ p. p.0) good),
        subst (λ c. valid_release c.kernelrelease ≡ true) is allowed,
        sym (ap (λ c. c.modules) is),
        sym (ap (λ c. c.mode) is),
      )

  -- Where the configuration step returns a summary, the archive's listing was one directory, the
  -- configuration that was read right behind the last olddefconfig (and, for this machine, after
  -- localmodconfig and the fixes) is buildable, and the summary gives its kernel release, a
  -- valid one, its number of modules, and the mode that was asked for.
  pub configure-IsBuildable :
      (req : BuildRequest) (base : FilePath) (w : W) {s : ConfigSummary} {u : W}
      → configure t req base w ≡ (ok s, u)
      → (check_single_top_dir req.tarball.top_dir (t.listing w) ≡ ok tt)
        × ((config : Text) × (v : W) × IsConfigured t req.mode v
            × (t.read_config v ≡ some config)
            × IsBuildable config
            × (s.modules ≡ module_count config))
        × (valid_release s.kernelrelease ≡ true)
        × (s.mode ≡ req.mode)
  unfolding configure extract_tree
  configure-IsBuildable req base w h =
      let (_, w1, extracted, h1) = >>=-ok (extract_tree t req.tarball.top_dir) _ w h in
      let (text, w2, copied, h2) = >>=-ok (copy_base t base) _ w1 h1 in
      let (_, w3, fixed, h3) = >>=-ok (run t apply_fixes) _ w2 h2 in
      let (fixes, w4, rust, h4) =
        >>=-ok (fix_rust t (is_on text (codes "RUST")) first_fixes) _ w3 h3 in
      let (_, w5, olddef, h5) = >>=-ok (run t olddefconfig) _ w4 h4 in
      let (both, w6, tuned, h6) = >>=-ok (tune t req.mode fixes) _ w5 h5 in
      let (read, w7, was_read, h7) = >>=-ok (ask t t.read_config) _ w6 h6 in
      let (config, w8, there, h8) = >>=-ok (lift (of_option not_read read)) _ w7 h7 in
      let (good, valid, modules, mode) =
        summarize-IsBuildable req base (is_on text (codes "RUST")) config both.0 both.1 w8 h8 in
      let (listing, v1, listed, g1) = >>=-ok (ask t t.listing) _ w extracted in
      let (_, v2, one_dir, g2) =
        >>=-ok (lift (of_archive (check_single_top_dir req.tarball.top_dir listing))) _ v1 g1 in
      let seen : t.listing w ≡ listing = ok_injective refl (ap (λ p. p.0) listed) in
      let same : t.read_config w6 ≡ read = ok_injective refl (ap (λ p. p.0) was_read) in
      let accepted : check_single_top_dir req.tarball.top_dir listing ≡ ok tt =
        of_archive-ok (check_single_top_dir req.tarball.top_dir listing) (ap (λ p. p.0) one_dir) in
      let found = of_option-some not_read read (ap (λ p. p.0) there) in
      (
        ap (check_single_top_dir req.tarball.top_dir) seen ∙ accepted,
        (
          config,
          w6,
          tune-IsConfigured t req.mode fixes w4 w5 (run-ok t olddefconfig w4 olddef) tuned,
          same ∙ found,
          good,
          modules,
        ),
        valid,
        mode,
      )
