-- ===== src/Releases/Tests.antt =====
-- The functions of src/kernelorg.rs on concrete inputs, and the theorems at some of them.
use kernel_pop.Prelude.{false, none, some, [], ◌∷◌, List, ok, err, ◌≡◌, ◌≢◌, refl, Elem, filter_map}
use kernel_pop.Text.{Text, codes, decimal, text_eq, starts_with, split_char}
use kernel_pop.Releases.{
  mainline, Release, ReleaseJson, no_releases, parse_releases, release_of, moniker_of,
  signature_url, url_file_name,
}
use kernel_pop.Releases.Listed.{IsListed, parse_releases-IsListed}

abbrev entry : Text → Text → ReleaseJson
entry moniker version = record {
  moniker = moniker;
  version = version;
  iseol = false;
  isodate = some (codes "2026-10-21");
  source = some (codes "https://cdn/x.tar.xz");
  pgp = some (codes "http://cdn/x.tar.sign");
}

abbrev entries : List ReleaseJson
entries = entry (codes "linux-next") (codes "next-1") ∷ entry (codes "mainline") (codes "7.3") ∷ []

abbrev release : Release
release = record {
  moniker = mainline;
  version = codes "7.3";
  is_eol = false;
  released = codes "2026-10-21";
  source = codes "https://cdn/x.tar.xz";
  pgp = none;
}

listed : parse_releases (some entries) ≡ ok (release ∷ [])
unfolding parse_releases filter_map release_of moniker_of text_eq starts_with
listed = refl

none_listed :
    parse_releases (some (entry (codes "linux-next") (codes "next-1") ∷ [])) ≡ err no_releases
unfolding parse_releases filter_map release_of moniker_of text_eq starts_with
none_listed = refl

parse_releases-IsListed_example :
    (release ∷ [] ≢ [])
    × ((r : Release) → Elem r (release ∷ []) → (e : ReleaseJson) × Elem e entries × IsListed e r)
parse_releases-IsListed_example = parse_releases-IsListed entries listed

signature :
    signature_url (codes "7.2.12") 7
    ≡ codes "https://cdn.kernel.org/pub/linux/kernel/v7.x/linux-7.2.12.tar.sign"
unfolding signature_url decimal
signature = refl

names :
    (url_file_name (codes "https://x/y/linux-7.3.tar.xz") ≡ some (codes "linux-7.3.tar.xz"))
    × (url_file_name (codes "https://x/..") ≡ none)
unfolding url_file_name text_eq split_char
names = (refl, refl)
