-- ===== src/Build/Prepare/Ready.antt =====
-- What holds of a tree that `prepare` of src/build.rs returns, and of a cancelled one.
use kernel_pop.Prelude.{ℕ, true, false, none, [], ◌≡◌}
use kernel_pop.Build.Sets.{space_problem}
use kernel_pop.Build.Request.{BuildRequest}
use kernel_pop.Build.Prepare.{Site, missing_build_deps, base_config_of}

-- what `prepare` looks at before it makes anything
pub record IsReady (site : Site) (req : BuildRequest) (boot_need : ℕ) : Type 0 where
  pub not_as_root : site.is_root ≡ false
  pub has_deps : missing_build_deps site.dpkg_output ≡ []
  pub has_base : site.is_file (base_config_of req.mode req.running_kernel) ≡ true
  pub has_space : space_problem req.mode site.cache_free site.boot_free boot_need ≡ none
