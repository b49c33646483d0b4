-- ===== src/Build/Prepare.antt =====
-- `prepare` of src/build.rs: what has to hold before a tree is configured, and what is left behind.
pub mod Ready
use kernel_pop.Prelude.{
  ℕ, Bool, true, false, not, ◌&&◌, if◌then◌else◌, Option, none, some, List, [], ◌∷◌, ◌++◌, Result,
  ok, err, guard, ◌>>=◌, ◌>>◌, is_some,
}
use kernel_pop.Text.{Text, codes}
use kernel_pop.Source.Tarball.{FilePath}
use kernel_pop.Source.Version.{SourceVersion, kernelversion}
use kernel_pop.Build.Sets.{ConfigMode, SpaceProblem, space_problem}
use kernel_pop.Build.Request.{BuildRequest, ConfigSummary, Prepared}
use kernel_pop.Build.Texts.{missing_from_dpkg_query}
use kernel_pop.Build.Configure.Lists.{build_deps}
use kernel_pop.Build.Configure
use kernel_pop.Build.Configure.{Tools, ConfigError, build_cancelled, configure}

-- What `prepare` meets: the user, what dpkg-query prints, which files there are, which old entries of
-- the build root can be removed, and the free space.
pub record Site : Type 0 where
  pub is_root : Bool
  pub dpkg_output : Option Text
  pub is_file : FilePath → Bool
  pub build_root : FilePath
  pub can_create_root : Bool
  pub old_entries : List Bool
  pub cache_free : Option ℕ
  pub boot_free : Option ℕ
  pub can_create_tree : Bool
  pub can_create_log : Bool
  pub can_clear_tree : Bool

pub data PrepareError : Type 0 where
  as_root no_build_root tree_not_created log_not_created : PrepareError
  missing_deps : List Text → PrepareError
  no_base_config : FilePath → PrepareError
  no_space : SpaceProblem → PrepareError
  not_configured : ConfigError → PrepareError

unfoldable pub missing_build_deps : Option Text → List Text
unfolding missing_from_dpkg_query
missing_build_deps none = build_deps
missing_build_deps (some output) = missing_from_dpkg_query build_deps output

unfoldable pub base_config_of : ConfigMode → Text → FilePath
base_config_of ConfigMode.match_system running = codes "/boot" ∷ (codes "config-" ++ running) ∷ []
base_config_of ConfigMode.tuned_for_machine running =
    codes "/boot" ∷ (codes "config-" ++ running) ∷ []
base_config_of (ConfigMode.own_config path) running = path ∷ []

abbrev pub none_missing : List Text → Result PrepareError (Unit {0})
none_missing [] = ok tt
none_missing (d ∷ ds) = err (missing_deps (d ∷ ds))

-- it stops at the first entry that cannot be removed
unfoldable pub clear_entries : List Bool → Result PrepareError (Unit {0})
clear_entries [] = ok tt
clear_entries (removable ∷ es) = guard removable no_build_root >> clear_entries es

unfoldable pub clear_build_root : Bool → List Bool → Result PrepareError (Unit {0})
unfolding clear_entries
clear_build_root can_create es = guard can_create no_build_root >> clear_entries es

abbrev pub enough_space : Option SpaceProblem → Result PrepareError (Unit {0})
enough_space none = ok tt
enough_space (some p) = err (no_space p)

unfoldable pub tree_dir : FilePath → SourceVersion → FilePath
unfolding kernelversion
tree_dir root v = root ++ ((codes "linux-" ++ kernelversion v) ∷ [])

-- up to the build log
unfoldable pub preflight : Site → BuildRequest → ℕ → Result PrepareError (Unit {0})
unfolding missing_build_deps base_config_of clear_build_root space_problem
preflight site req boot_need = do
  guard (not site.is_root) as_root
  none_missing (missing_build_deps site.dpkg_output)
  let base = base_config_of req.mode req.running_kernel
  guard (site.is_file base) (no_base_config base)
  clear_build_root site.can_create_root site.old_entries
  enough_space (space_problem req.mode site.cache_free site.boot_free boot_need)
  guard site.can_create_tree tree_not_created
  guard site.can_create_log log_not_created
  ok tt

abbrev pub is_cancel : ConfigError → Bool
is_cancel e = elim e [ build_cancelled ↦ true | _ ↦ false ]

-- the result, and whether the tree is there behind it; none: it has not come to the configuring
unfoldable pub configured :
    Site
    → BuildRequest
    → Result ConfigError ConfigSummary
    → Result PrepareError Prepared × Option Bool
unfolding tree_dir
configured site req (ok summary) =
    let tree = tree_dir site.build_root req.tarball.version in
    (
      ok (record {
        request = req;
        tree = tree;
        summary = summary;
        log = tree ++ (codes "build.log" ∷ []);
      }),
      some true,
    )
configured site req (err e) =
    (err (not_configured e), some (not (is_cancel e && site.can_clear_tree)))

module _ {W : Type 0} (t : Tools W) where
  unfoldable pub prepare : Site → BuildRequest → ℕ → W → Result PrepareError Prepared × Option Bool
  unfolding preflight configure base_config_of configured
  prepare site req boot_need w = elim (preflight site req boot_need) [
    | err e ↦ (err e, none)
    | ok u ↦ configured site req (configure t req (base_config_of req.mode req.running_kernel) w).0
  ]
