-- ===== src/Build/Finish.antt =====
-- `run_build` and `build` of src/build.rs as a whole: the run of make, the packages that are picked, the
-- set that is published, and what is cleaned up behind it. What make leaves, and which operations of
-- the file system succeed, is an argument; the log lines are left out.
pub mod Info
pub mod Written
pub mod Verified
pub mod Listed
pub mod Ends
mod Tests
use kernel_pop.Prelude.{
  ℕ, Bool, true, false, not, Option, none, some, List, [], ◌∷◌, ◌++◌, ◌&&◌, if◌then◌else◌, Result,
  ok, err, ◌>>=◌, ◌>>◌, guard, any, keep,
}
use mathlib.Core.List.{map}
use kernel_pop.Text.{Text, codes, text_eq}
use kernel_pop.Build.Sets.{ConfigMode, label, BuiltSet}
use kernel_pop.Build.Request.{Prepared, describe, display}
use kernel_pop.Build.Configure.{Ran, ended, not_started, cancelled}
use kernel_pop.Build.Run.{
  BuildEnd, PickError, Root, RootEntry, clean_up, pick_packages, remove_package_outputs,
}
use kernel_pop.Build.Publish.{Io, Dir, Papers, Places, PublishError, publish}

pub data BuildError : Type 0 where
  build_cancelled make_not_run make_failed root_not_listed no_downloads : BuildError
  tree_not_deleted no_log : BuildError
  not_picked : PickError → BuildError
  not_published : PublishError → BuildError

-- What a build meets. `entries` is the build root behind make, `content` what its files hold; `clock`
-- is the time in build-info.txt.
pub record Site : Type 0 where
  pub can_open_log : Bool
  pub make : Ran
  pub can_list_root : Bool
  pub entries : List RootEntry
  pub content : Text → List ℕ
  pub can_make_downloads : Bool
  pub io : Io
  pub config : List ℕ
  pub log : List ℕ
  pub clock : Text
  pub can_clear_tree : Bool

-- what a build changes
pub record BuildDisk : Type 0 where
  pub root : Root
  pub places : Places

unfoldable pub info_text : Prepared → Text → Text
unfolding display describe label
info_text p clock =
    codes "kernel: "
    ++ (p.summary.kernelrelease
        ++ (codes "\nsource: "
            ++ (display p.request.tarball.origin
                ++ (codes "\nsignature: "
                    ++ (describe p.request.trust
                        ++ (codes "\nconfiguration: "
                            ++ (label p.summary.mode
                                ++ (codes "\nbase config: "
                                    ++ (display p.summary.base_config
                                        ++ (codes "\nbuilt: " ++ (clock ++ codes "\n")))))))))))

abbrev pub papers_of : Prepared → Site → Papers
papers_of p s = record {
  krel = p.summary.kernelrelease;
  config = s.config;
  info = info_text p s.clock;
  log = s.log;
}

-- the packages with what they hold
abbrev pub packages_of : Site → List (Text × Text) → Dir
packages_of s kept = map (λ (name, pkg). (name, s.content name)) kept

-- the packages that are moved away: each up to the first that fails
unfoldable pub moved : Io → Dir → List Text
moved io [] = []
moved io ((name, bytes) ∷ packages) =
    let rest = if io.can_set_mode name && io.can_hash name then moved io packages else [] in
    if io.can_move name then name ∷ rest else []

unfoldable pub without_moved : Io → Dir → Root → Root
unfolding moved text_eq
without_moved io packages r =
    let gone = if io.can_make_dir then moved io packages else [] in
    record r { entries = keep (λ e. not (any (text_eq e.name) gone)) r.entries }

abbrev pub built_set_of : Prepared → List (Text × Text) → BuiltSet
built_set_of p kept = record {
  kernelrelease = p.summary.kernelrelease;
  debs = map (λ (name, pkg). name) kept;
  source = describe p.request.trust;
}

-- behind the publishing: the tree and what is left of the outputs
abbrev pub after_publish :
    Site
    → BuiltSet
    → Result PublishError (Unit {0})
    → BuildDisk
    → Result BuildError BuiltSet × BuildDisk
after_publish s set (err e) d = (err (not_published e), d)
after_publish s set (ok done) d =
    if s.can_clear_tree
    then (
      ok set,
      record d {
        root = record {
          has_tree = false;
          entries =
              if s.can_list_root then remove_package_outputs d.root.entries else d.root.entries;
        };
      },
    )
    else (err tree_not_deleted, d)

unfoldable pub publish_kept :
    Prepared → Site → List (Text × Text) → BuildDisk → Result BuildError BuiltSet × BuildDisk
unfolding publish without_moved remove_package_outputs
publish_kept p s kept d =
    let packages = packages_of s kept in
    let (published, places) = publish s.io packages (papers_of p s) d.places in
    after_publish s (built_set_of p kept) published
      (record { root = without_moved s.io packages d.root; places = places })

abbrev pub after_pick :
    Prepared
    → Site
    → Result PickError (List (Text × Text))
    → BuildDisk
    → Result BuildError BuiltSet × BuildDisk
after_pick p s (err e) d = (err (not_picked e), d)
after_pick p s (ok kept) d =
    if s.can_make_downloads then publish_kept p s kept d else (err no_downloads, d)

abbrev pub after_make : Prepared → Site → Ran → BuildDisk → Result BuildError BuiltSet × BuildDisk
after_make p s not_started d = (err make_not_run, d)
after_make p s cancelled d = (err build_cancelled, d)
after_make p s (ended false ls) d = (err make_failed, d)
after_make p s (ended true ls) d =
    if s.can_list_root
    then after_pick p s (pick_packages p.summary.kernelrelease s.entries) d
    else (err root_not_listed, d)

-- `d` is the disk behind make
unfoldable pub run_build : Prepared → Site → BuildDisk → Result BuildError BuiltSet × BuildDisk
unfolding publish_kept pick_packages
run_build p s d = after_make p s s.make d

abbrev pub end_of : Result BuildError BuiltSet → BuildEnd
end_of (ok set) = BuildEnd.built
end_of (err build_cancelled) = BuildEnd.cancelled
end_of (err other) = BuildEnd.failed []

-- nothing is removed from a directory that cannot be listed
abbrev pub cleaned : Site → BuildEnd → Root → Root
cleaned s end r =
    let left = clean_up s.can_clear_tree end r in
    if s.can_list_root then left else record left { entries = r.entries }

-- `d` is the disk behind make, or the one before it where the log cannot be opened.
unfoldable pub build : Prepared → Site → BuildDisk → Result BuildError BuiltSet × BuildDisk
unfolding run_build clean_up
build p s d =
    let (result, after) = run_build p s d in
    if s.can_open_log
    then (result, record after { root = cleaned s (end_of result) after.root })
    else (err no_log, d)
