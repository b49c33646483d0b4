-- ===== src/Build/Tests/Runs.antt =====
-- A build of src/build.rs on concrete output, and the theorems at it.
use kernel_pop.Prelude.{
  ℕ, true, false, none, some, List, [], ◌∷◌, ◌≡◌, refl, ok, All, Elem, ◌≢◌, ◌+◌,
}
use kernel_pop.Text.{Text, trim_start, codes, text_eq}
use kernel_pop.Source.Version.{xz}
use kernel_pop.Build.Request.{BuildRequest, Prepared, unverified}
use kernel_pop.Build.Sets.{match_system}
use kernel_pop.Build.Texts.{is_object_line, is_packaging_line}
use kernel_pop.Build.Run.{
  events_of, stage, progress, build, pack, on_lines, on_line, see_packaging, see_object, RootEntry,
  pick, pick_packages, image_name, Root, cancelled, built, clean_up,
}
use kernel_pop.Build.Run.Progress.{percents, IsRising, events_of-IsRising}
use kernel_pop.Build.Run.Picked.{IsPicked, pick_packages-IsPicked}
use kernel_pop.Build.Run.Cleaned.{is_removable, clean_up-removable}
use kernel_pop.Build.Configure.{Tools, ended, run_with}
use kernel_pop.Build.Configure.Notes.{objects_in_dry_run, first_fixes, config_notes}
use kernel_pop.Build.Prepare.{Site}

abbrev make_lines : List Text
make_lines =
    codes "  CC      init/main.o"
    ∷ codes "  AS      arch/x.o"
    ∷ codes "dpkg-deb: building package 'linux-image'"
    ∷ codes "  CC      late.o"
    ∷ []

shown :
    events_of (some 2) make_lines
    ≡ stage build ∷ progress 0 2 ∷ progress 1 2 ∷ progress 2 2 ∷ stage pack ∷ []
unfolding events_of on_lines on_line see_packaging see_object is_object_line is_packaging_line
    trim_start
shown = refl

events_of-IsRising_example :
    (ps : List ℕ) × (percents (events_of (some 2) make_lines) ≡ 0 ∷ ps) × IsRising 0 ps
events_of-IsRising_example = events_of-IsRising 2 make_lines

abbrev deb : Text → Text → RootEntry
deb name pkg = record {
  name = name;
  is_deb = true;
  is_file = true;
  can_remove = true;
  package_field = some pkg;
}

abbrev outputs : List RootEntry
outputs =
    deb (codes "linux-image-7.4_1.deb") (codes "linux-image-7.4")
    ∷ deb (codes "linux-libc-dev_1.deb") (codes "linux-libc-dev")
    ∷ []

abbrev picked : List (Text × Text)
picked = (codes "linux-image-7.4_1.deb", codes "linux-image-7.4") ∷ []

picks_image : pick_packages (codes "7.4") outputs ≡ ok picked
unfolding pick_packages pick text_eq
picks_image = refl

pick_packages-IsPicked_example :
    All (IsPicked (codes "7.4") outputs) picked
    × ((name : Text) × Elem (name, image_name (codes "7.4")) picked)
pick_packages-IsPicked_example = pick_packages-IsPicked (codes "7.4") outputs picks_image

abbrev root : Root
root = record { has_tree = true; entries = outputs }

not_built : cancelled ≢ built
not_built h = cc

clean_up-removable_example :
    let left = clean_up true cancelled root in
    All (λ e. is_removable e ≡ false) left.entries
    × ((e : RootEntry) → is_removable e ≡ false → Elem e root.entries → Elem e left.entries)
    × (cancelled ≡ cancelled → true ≡ true → left.has_tree ≡ false)
    × (cancelled ≢ cancelled → left.has_tree ≡ root.has_tree)
clean_up-removable_example = clean_up-removable true cancelled root not_built

counted_once :
    objects_in_dry_run (
      codes
        "gcc -c -o init/main.o init/main.c\nccache gcc -c -o a.o a.S\ngcc -c -o init/main.o x\n")
    ≡ 2
unfolding objects_in_dry_run
counted_once = refl

abbrev config : Text
config = codes "CONFIG_LOCALVERSION=\"-kernelpop\"\nCONFIG_RUST=y\nCONFIG_XFS=m\n"

-- every command succeeds, and prints the kernel release
abbrev tools : Tools ℕ
tools = record {
  run_with = λ c n. (ended true (codes "7.4.0-kernelpop" ∷ []), n + 1);
  listing = λ n. some (codes "linux-7.4/\nlinux-7.4/Makefile\n");
  is_kernel_tree = λ n. true;
  copy_config = λ path n. (true, n);
  read_config = λ n. some config;
  proc_modules = λ n. none;
  present_modules = λ n. [];
  write_list = λ t n. (true, n);
  dry_run = λ n. none;
}

abbrev request : BuildRequest
request = record {
  tarball = record {
    path = [];
    origin = [];
    compression = xz;
    version = record { version = 7; patchlevel = 4; sublevel = 0; extraversion = [] };
    top_dir = codes "linux-7.4";
  };
  trust = unverified [];
  mode = match_system;
  running_kernel = codes "7.3.0";
}

abbrev site : Site
site = record {
  is_root = false;
  dpkg_output = some (
      codes
        "build-essential ii \ndpkg-dev ii \nbc ii \nbison ii \nflex ii \ndebhelper ii \nkmod ii \nlibdw-dev ii \nlibelf-dev ii \nlibssl-dev ii \npython3 ii \nrsync ii \nxz-utils ii \npahole ii \nzstd ii \ncpio ii \nopenssl ii \ngawk ii \nccache ii \ngnupg ii \n");
  is_file = λ path. true;
  build_root = codes "build" ∷ [];
  can_create_root = true;
  old_entries = true ∷ [];
  cache_free = none;
  boot_free = none;
  can_create_tree = true;
  can_create_log = true;
  can_clear_tree = true;
}

abbrev prepared : Prepared
prepared = record {
  request = request;
  tree = codes "build" ∷ codes "linux-7.4.0" ∷ [];
  summary = record {
    base_config = codes "/boot" ∷ codes "config-7.3.0" ∷ [];
    mode = match_system;
    localversion = codes "-kernelpop";
    kernelrelease = codes "7.4.0-kernelpop";
    fixes = first_fixes;
    notes = config_notes true config first_fixes;
    modules = 1;
    objects = none;
  };
  log = codes "build" ∷ codes "linux-7.4.0" ∷ codes "build.log" ∷ [];
}
