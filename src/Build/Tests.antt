-- ===== src/Build/Tests.antt =====
-- The functions of src/build.rs on concrete inputs, and the theorems at some of them.
mod Runs
use kernel_pop.Prelude.{
  List, ◌≤◌, Option, ap, or_default, none, some, filter_map, ℕ, not, ◌==◌, all, true, false, [],
  ◌∷◌, ◌++◌, ◌≡◌, ◌≢◌, refl, arith, All, ok, err, ◌⊎◌,
}
use kernel_pop.Text.{
  all-Lacks, Text, codes, Lacks, split_once, lines, text_eq, split_whitespace, trim,
}
use kernel_pop.System.Versions.{lex}
use kernel_pop.Build.Control.{
  Control, Move, runs, cancels, stored, returned, reading, before_spawn, new_control, moves,
  run_next, cancel_next, kill_group,
}
use kernel_pop.Build.Control.Killed.{reading-killed, children, will_start, children-cancelled}
use kernel_pop.Build.Manifest.{
  parse_entries, insert, valid_release, Manifest, parse_manifest, parse_entry, manifest_text,
  is_deb_name, bad_name,
}
use kernel_pop.Build.Publish.{Io, Dir, Papers, publish, fill, place, swap, move_aside, move_in}
use kernel_pop.Build.Publish.Swap.{whole_set, IsUnharmed, publish-keeps}
use kernel_pop.Build.Texts.{
  shell_quote, is_object_line, missing_from_dpkg_query, installed_in, only_archive_errors,
  config_value, module_count, parse_proc_modules, lsmod_text, normalize_module,
}
use kernel_pop.Build.Texts.Quoted.{sh_word, shell_quote-sh_word}
use kernel_pop.Build.Sets.{
  verify_built_set, space_problem, tuned_for_machine, disk_need, built_set, source_of,
}
use kernel_pop.Build.Sets.Verified.{verify_built_set_iff, space_problem_iff}
use kernel_pop.Build.Manifest.RoundTrip.{IsEntry, Rises, parse_manifest-manifest_text}
use kernel_pop.Build.Manifest.Safe.{IsSafe, parse_manifest-IsSafe}

abbrev digest : Text
digest = codes "0123456789abcdef0123456789abcdef0123456789abcdef0123456789abcdef"

abbrev packages : Manifest
packages = (codes "a.deb", digest) ∷ (codes "b.deb", digest) ∷ []

releases :
    (valid_release (codes "7.2.0-kernelpop") ≡ true)
    × (valid_release (codes "7..2") ≡ false)
    × (valid_release (codes "../x") ≡ false)
unfolding valid_release
releases = (refl, refl, refl)

hidden_name : parse_entry (digest ++ codes "  .a.deb") ≡ err (bad_name (digest ++ codes "  .a.deb"))
unfolding parse_entry split_once is_deb_name
hidden_name = refl

entry :
    (name : Text)
    → is_deb_name name ≡ true
    → all (λ c. not (c == 10)) name ≡ true
    → all (λ c. not (c == 13)) name ≡ true
    → IsEntry (name, digest)
entry name deb no_lf no_cr = (refl, refl, deb, all-Lacks 10 name no_lf, all-Lacks 13 name no_cr)

packages-IsEntry : All IsEntry packages
unfolding is_deb_name
packages-IsEntry =
    (entry (codes "a.deb") refl refl refl, (entry (codes "b.deb") refl refl refl, tt))

packages-Rises : Rises packages
unfolding lex
packages-Rises = ((refl, tt), (tt, tt))

packages_read : parse_manifest (manifest_text packages) ≡ ok packages
packages_read = parse_manifest-manifest_text packages (ground arith) packages-IsEntry packages-Rises

parse_manifest-manifest_text_example : parse_manifest (manifest_text packages) ≡ ok packages
parse_manifest-manifest_text_example =
    parse_manifest-manifest_text packages (ground arith) packages-IsEntry packages-Rises

parse_manifest-IsSafe_example : (packages ≢ []) × All IsSafe packages × Rises packages
parse_manifest-IsSafe_example = parse_manifest-IsSafe (manifest_text packages) packages_read

-- a file system on which all but the last rename succeeds
abbrev io : Io
io = record {
  sha256 = λ bytes. digest;
  can_make_dir = true;
  can_move = λ name. true;
  can_set_mode = λ name. true;
  can_hash = λ name. true;
  can_write = λ name. true;
  can_remove_old = true;
  can_move_aside = true;
  can_move_in = false;
  can_move_back = false;
  can_remove_aside = true;
}

abbrev debs : Dir
debs = (codes "a.deb", 1 ∷ 2 ∷ []) ∷ (codes "b.deb", 3 ∷ []) ∷ []

abbrev papers : Papers
papers = record { krel = codes "7.2.0"; config = []; info = []; log = [] }

published :
    (publish (record io { can_move_in = true }) debs papers (record { out = none; old = none })).0
    ≡ ok tt
unfolding publish fill place swap move_aside move_in
published = refl

quoted : shell_quote (codes "it's") ≡ codes "'it'\\''s'"
unfolding shell_quote
quoted = refl

shell_quote-sh_word_example : sh_word false (shell_quote (codes "it's")) ≡ some (codes "it's")
shell_quote-sh_word_example = shell_quote-sh_word (codes "it's")

objects :
    (is_object_line (codes "  CC [M]  drivers/x/y.o") ≡ true)
    × (is_object_line (codes "  CC [M]  drivers/x/y.mod.o") ≡ false)
    × (is_object_line (codes "  LD  x.o") ≡ false)
unfolding is_object_line
objects = (refl, refl, refl)

missing_deps :
    missing_from_dpkg_query (codes "gcc" ∷ codes "bc" ∷ []) (codes "gcc:amd64 ii \nbc un \n")
    ≡ codes "bc" ∷ []
unfolding missing_from_dpkg_query installed_in filter_map lines text_eq
missing_deps = refl

archive_errors :
    (only_archive_errors
        (codes "make: *** No rule to make target 'lib/lib.a'\nmake: *** [x] Error 2\n")
      ≡ true)
    × (only_archive_errors (codes "make: *** No rule to make target 'x.c'\n") ≡ false)
unfolding only_archive_errors
archive_errors = (refl, refl)

configured :
    (config_value (codes "CONFIG_A=y\nCONFIG_AB=m\n") (codes "AB") ≡ some (codes "m"))
    × (module_count (codes "CONFIG_A=y\nCONFIG_AB=m\n") ≡ 1)
unfolding config_value module_count
configured = (refl, refl)

modules :
    (parse_proc_modules (codes "snd-hda 1 2\nxfs 3\n") ≡ codes "snd_hda" ∷ codes "xfs" ∷ [])
    × (lsmod_text (codes "xfs" ∷ []) ≡ codes "Module                  Size  Used by\nxfs 0 0\n")
unfolding parse_proc_modules lsmod_text split_whitespace filter_map lines normalize_module trim
modules = (refl, refl)

abbrev hash_of : Text → Option Text
hash_of name = some digest

found_set :
    built_set (record {
      name = codes "linux-7.2.0";
      manifest = some (digest ++ codes "  a.deb\n");
      info = some (codes "kernel: 7.2.0\nsignature: verified\n");
    })
    ≡ some (record {
      kernelrelease = codes "7.2.0";
      debs = codes "a.deb" ∷ [];
      source = codes "verified";
    })
unfolding built_set source_of parse_manifest parse_entries parse_entry insert is_deb_name split_once
    valid_release lines text_eq trim
found_set = refl

-- the cancel comes after the check and before the child is registered
abbrev cancelled_early : List Move
cancelled_early = runs 0 ∷ runs 5 ∷ cancels ∷ cancels ∷ cancels ∷ runs 0 ∷ runs 0 ∷ []

cancelled_child :
    let c = moves cancelled_early new_control in
    (c.canceller ≡ returned) × (c.timer ≡ none) × (c.runner ≡ reading 6)
unfolding moves run_next cancel_next kill_group
cancelled_child = (refl, refl, refl)

reading-killed_example : (moves cancelled_early new_control).killed ≡ true
reading-killed_example =
    reading-killed cancelled_early 6 cancelled_child.0 cancelled_child.1 cancelled_child.2

abbrev checked_late : Control
checked_late = record new_control { cancelled = true; runner = before_spawn; canceller = stored }

children-cancelled_example : children (runs 5 ∷ cancels ∷ runs 6 ∷ []) checked_late ≤ 1
unfolding will_start
children-cancelled_example = children-cancelled (runs 5 ∷ cancels ∷ runs 6 ∷ []) checked_late refl
