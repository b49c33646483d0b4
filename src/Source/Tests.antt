-- ===== src/Source/Tests.antt =====
-- The functions of src/source.rs on concrete inputs, and the theorems at some of them.
use kernel_pop.Prelude.{
  true, false, Option, none, some, [], ◌∷◌, ◌++◌, ◌⊎◌, List, ok, err, ◌≡◌, refl, arith, All,
}
use kernel_pop.Text.{Text, codes, lines, parse_unsigned}
use kernel_pop.Source.Version.{
  SourceVersion, kernelversion, release_name, deb_version, from_magic, gzip,
}
use kernel_pop.Source.Makefile.{field, number, parse_makefile, bad_extraversion}
use kernel_pop.Source.Makefile.RoundTrip.{makefile, parse_makefile-makefile}
use kernel_pop.Source.Archive.{
  Entry, normal, cur_dir, regular, pax_global, other, find_makefile, check_single_top_dir,
  member_name,
}
use kernel_pop.Source.Tarball.{
  FilePath, Tarball, TarFile, Disk, inspect, sibling_signature, private_copy_in, is_under,
  is_inside, same_version, file_name,
}
use kernel_pop.Source.Tarball.PrivateCopy.{private_copy_in-same}
use kernel_pop.Source.Archive.Safety.{IsInside, check_single_top_dir-IsInside}
use kernel_pop.Source.Archive.Search.{Reads, find_makefile-Reads}

abbrev rc : SourceVersion
rc = record { version = 7; patchlevel = 4; sublevel = 0; extraversion = codes "-rc1" }

abbrev comments : List Text
comments = codes "# SPDX-License-Identifier: GPL-2.0" ∷ [] ∷ []

abbrev rc_makefile : Text
rc_makefile = codes "VERSION = 7\nPATCHLEVEL = 4\nSUBLEVEL = 0\nEXTRAVERSION = -rc1\n"

rc_names :
    (kernelversion rc ≡ codes "7.4.0-rc1")
    × (release_name rc ≡ codes "7.4-rc1")
    × (deb_version rc ≡ codes "7.4.0~rc1-1")
unfolding kernelversion release_name deb_version
rc_names = (refl, refl, refl)

rc_parsed : parse_makefile rc_makefile ≡ ok rc
unfolding parse_makefile number field parse_unsigned
rc_parsed = refl

shell_refused :
    parse_makefile (codes "VERSION = 7\nEXTRAVERSION = $(shell id)\n")
    ≡ err (bad_extraversion (codes "$(shell id)"))
unfolding parse_makefile number field parse_unsigned
shell_refused = refl

magic : from_magic (0x1F ∷ 0x8B ∷ 8 ∷ []) ≡ some gzip
unfolding from_magic
magic = refl

parse_makefile-makefile_example :
    parse_makefile (makefile comments rc (codes "NAME = Baby\n")) ≡ ok rc
parse_makefile-makefile_example =
    parse_makefile-makefile comments rc (codes "NAME = Baby\n") (omega arith) (record {
      version_fits = omega arith;
      patchlevel_fits = omega arith;
      sublevel_fits = omega arith;
      extra_chars = refl;
    })

abbrev listing : Text
listing = codes "./linux-7.4/\nlinux-7.4/Makefile\n"

listing_accepted : check_single_top_dir (codes "linux-7.4") (some listing) ≡ ok tt
unfolding check_single_top_dir
listing_accepted = refl

check_single_top_dir-IsInside_example :
    All (λ line. IsInside (codes "linux-7.4") (member_name line)) (lines listing)
check_single_top_dir-IsInside_example =
    check_single_top_dir-IsInside (codes "linux-7.4") listing listing_accepted

abbrev archive : List (Option Entry)
archive =
    some (record { kind = pax_global; path = none; text = none })
    ∷ some (record { kind = other; path = some (normal (codes "linux-7.4") ∷ []); text = none })
    ∷ some (record {
      kind = regular;
      path = some (cur_dir ∷ normal (codes "linux-7.4") ∷ normal (codes "Makefile") ∷ []);
      text = some rc_makefile;
    })
    ∷ none
    ∷ []

archive_found : find_makefile archive ≡ ok (codes "linux-7.4", rc_makefile)
unfolding find_makefile
archive_found = refl

find_makefile-Reads_example : Reads (codes "linux-7.4") rc_makefile archive
find_makefile-Reads_example = find_makefile-Reads archive archive_found

abbrev rc_file : TarFile
rc_file = record { head = some (0x1F ∷ 0x8B ∷ 8 ∷ []); entries = some archive }

abbrev in_downloads : FilePath
in_downloads = codes "Downloads" ∷ codes "linux-7.4.tar.gz" ∷ []

abbrev rc_tarball : FilePath → Tarball
rc_tarball path = record {
  path = path;
  origin = in_downloads;
  compression = gzip;
  version = rc;
  top_dir = codes "linux-7.4";
}

rc_inspected : inspect (some rc_file) in_downloads ≡ ok (rc_tarball in_downloads)
unfolding inspect from_magic find_makefile parse_makefile field number parse_unsigned lines
rc_inspected = refl

rc_signature :
    sibling_signature (λ p. true) (rc_tarball in_downloads)
    ≡ some (codes "Downloads" ∷ codes "linux-7.4.tar.sign" ∷ [])
unfolding sibling_signature
rc_signature = refl

abbrev disk : Disk
disk = record {
  canonical_source = some in_downloads;
  canonical_dir = some (codes "cache" ∷ []);
  dir_exists = true;
  can_clear = true;
  can_create = true;
  can_restrict_dir = true;
  can_copy = true;
  can_restrict_copy = true;
  copied = some rc_file;
}

abbrev in_cache : FilePath
in_cache = codes "cache" ∷ codes "linux-7.4.tar.gz" ∷ []

rc_copied :
    private_copy_in disk (rc_tarball in_downloads) (codes "cache" ∷ []) ≡ ok (rc_tarball in_cache)
unfolding private_copy_in is_under same_version inspect from_magic find_makefile parse_makefile
    field number parse_unsigned lines
rc_copied = refl

private_copy_in-same_example :
    let c = rc_tarball in_cache in
    (c.version ≡ rc)
    × (c.top_dir ≡ codes "linux-7.4")
    × (c.origin ≡ in_downloads)
    × (is_inside disk.canonical_source disk.canonical_dir ≡ false)
    × ((disk.dir_exists ≡ false) ⊎ (disk.can_clear ≡ true))
    × (disk.can_restrict_dir ≡ true)
    × (disk.can_restrict_copy ≡ true)
    × ((name : Text) × (file_name in_downloads ≡ some name)
        × (c.path ≡ (codes "cache" ∷ []) ++ (name ∷ [])))
    × (inspect disk.copied c.path ≡ ok (record c { origin = c.path }))
private_copy_in-same_example =
    private_copy_in-same disk (rc_tarball in_downloads) (codes "cache" ∷ []) rc_copied
