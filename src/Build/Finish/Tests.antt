-- ===== src/Build/Finish/Tests.antt =====
-- A whole build of src/build.rs on concrete output, and the theorems at it.
use kernel_pop.Prelude.{
  sym, ap, ◌∙◌, ℕ, ◌==◌, true, false, not, none, some, map_option, List, [], ◌∷◌, ◌≡◌, refl, ok,
  err, All, all,
}
use mathlib.Core.Bool.{false≢true}
use kernel_pop.Text.{Text, codes, text_eq, text_eq_refl, all-Lacks}
use kernel_pop.Source.Version.{xz}
use kernel_pop.Build.Manifest.{is_deb_name}
use kernel_pop.Build.Sets.{match_system, verify_built_set, source_of}
use kernel_pop.Build.Request.{Prepared, unverified, describe, display}
use kernel_pop.Build.Configure.{ended}
use kernel_pop.Build.Run.{RootEntry}
use kernel_pop.Build.Publish.{Io, Dir, fill, place, swap, manifest_name, config_name}
use kernel_pop.Build.Publish.Content.{content_of}
use kernel_pop.Build.Finish.{
  Site, BuildDisk, build, info_text, built_set_of, make_failed, tree_not_deleted,
}
use kernel_pop.Build.Finish.Info.{OnOneLine}
use kernel_pop.Build.Finish.Written.{IsDigest, IsPackageName}
use kernel_pop.Build.Finish.Verified.{build-verified}
use kernel_pop.Build.Finish.Listed.{IsListed, build-IsListed}
use kernel_pop.Build.Manifest.{valid_release}
use kernel_pop.Build.Finish.Ends.{IsKept, build-IsKept}

abbrev io : Io
io = record {
  sha256 = λ bytes. codes "0123456789abcdef0123456789abcdef0123456789abcdef0123456789abcdef";
  can_make_dir = true;
  can_move = λ name. true;
  can_set_mode = λ name. true;
  can_hash = λ name. true;
  can_write = λ name. true;
  can_remove_old = true;
  can_move_aside = true;
  can_move_in = true;
  can_move_back = true;
  can_remove_aside = true;
}

abbrev deb : Text → Text → RootEntry
deb name pkg = record {
  name = name;
  is_deb = true;
  is_file = true;
  can_remove = true;
  package_field = some pkg;
}

abbrev image : Text
image = codes "linux-image-7.4_1.deb"

abbrev outputs : List RootEntry
outputs =
    deb image (codes "linux-image-7.4") ∷ deb (codes "libc_1.deb") (codes "linux-libc-dev") ∷ []

abbrev site : Site
site = record {
  can_open_log = true;
  make = ended true [];
  can_list_root = true;
  entries = outputs;
  content = λ name. 1 ∷ 2 ∷ [];
  can_make_downloads = true;
  io = io;
  config = [];
  log = [];
  clock = codes "now";
  can_clear_tree = true;
}

-- a tree from a tarball at that path
abbrev prepared : Text → Prepared
prepared origin = record {
  request = record {
    tarball = record {
      path = [];
      origin = origin ∷ [];
      compression = xz;
      version = record { version = 7; patchlevel = 4; sublevel = 0; extraversion = [] };
      top_dir = codes "linux-7.4";
    };
    trust = unverified (codes "no key");
    mode = match_system;
    running_kernel = codes "7.3.0";
  };
  tree = [];
  summary = record {
    base_config = [];
    mode = match_system;
    localversion = [];
    kernelrelease = codes "7.4";
    fixes = [];
    notes = [];
    modules = 1;
    objects = none;
  };
  log = [];
}

abbrev plain : Prepared
plain = prepared (codes "linux-7.4.tar.xz")

abbrev disk : BuildDisk
disk = record {
  root = record { has_tree = true; entries = outputs };
  places = record { out = none; old = none };
}

succeeds :
    (build plain site disk).0 ≡ ok (built_set_of plain ((image, codes "linux-image-7.4") ∷ []))
unfolding build fill place swap
succeeds = refl

clears : (build plain site disk).1.root ≡ record { has_tree = false; entries = [] }
unfolding build fill place swap
clears = refl

digests : (bytes : List ℕ) → IsDigest (io.sha256 bytes)
digests bytes = (refl, refl)

package_name :
    (name : Text)
    → is_deb_name name ≡ true
    → all (λ c. not (c == 10)) name ≡ true
    → all (λ c. not (c == 13)) name ≡ true
    → text_eq name (config_name io (codes "7.4")) ≡ false
    → IsPackageName (config_name io (codes "7.4")) name
package_name name deb no_lf no_cr differ = (
  deb,
  all-Lacks 10 name no_lf,
  all-Lacks 13 name no_cr,
  λ same. false≢true (sym differ ∙ ap (text_eq name) (sym same) ∙ text_eq_refl name),
)

names : All (λ e. e.is_deb ≡ true → IsPackageName (config_name io (codes "7.4")) e.name) outputs
unfolding is_deb_name text_eq
names = (
  (λ deb. package_name image refl refl refl refl),
  ((λ deb. package_name (codes "libc_1.deb") refl refl refl refl), tt),
)

build-verified_example :
    (dir : Dir) × ((build plain site disk).1.places.out ≡ some dir)
    × (verify_built_set
          (λ name. map_option io.sha256 (content_of name dir))
          (content_of manifest_name dir)
        ≡ ok tt)
    × All (λ name. content_of name dir ≡ some (1 ∷ 2 ∷ [])) (image ∷ [])
build-verified_example = build-verified plain site disk digests names succeeds

-- make fails
abbrev broken : Site
broken = record site { make = ended false [] }

fails : (build plain broken disk).0 ≡ err make_failed
unfolding build
fails = refl

-- make succeeds, and the set takes the place of an earlier one, but the tree cannot be deleted
abbrev stuck : Site
stuck = record site { can_clear_tree = false }

abbrev earlier : BuildDisk
earlier = record disk { places = record { out = some []; old = none } }

not_deleted : (build plain stuck earlier).0 ≡ err tree_not_deleted
unfolding build fill place swap
not_deleted = refl

build-IsKept_example :
    IsKept plain stuck earlier.places (build plain stuck earlier).1.places tree_not_deleted
build-IsKept_example = build-IsKept plain stuck earlier not_deleted

on_one_line :
    (t : Text) → all (λ c. not (c == 10)) t ≡ true → all (λ c. not (c == 13)) t ≡ true → OnOneLine t
on_one_line t no_lf no_cr = (all-Lacks 10 t no_lf, all-Lacks 13 t no_cr)

build-IsListed_example :
    (dir : Dir) × ((build plain site disk).1.places.out ≡ some dir)
    × IsListed (built_set_of plain ((image, codes "linux-image-7.4") ∷ [])) dir
unfolding valid_release display describe
build-IsListed_example =
    build-IsListed plain site disk digests names refl
      (on_one_line (display plain.request.tarball.origin) refl refl)
      (on_one_line (describe plain.request.trust) refl refl) succeeds

-- A line break in the name of the tarball puts another signature line before the true one.
forged_line :
    source_of (
      some
        (info_text (prepared (codes "a\nsignature: verified: signed by x.tar.xz")) (codes "now")))
    ≡ codes "verified: signed by x.tar.xz"
unfolding source_of info_text
forged_line = refl
