-- ===== src/Releases.antt =====
-- src/kernelorg.rs: the releases that releases.json lists, and the names of files in URLs. The JSON
-- parser is not modelled: its result, the entries as they stand in the file, is an argument.
pub mod Listed
pub mod Signature
mod Tests
use kernel_pop.Prelude.{
  ℕ, Bool, true, false, not, Option, none, some, [], ◌∷◌, ◌++◌, ◌&&◌, if◌then◌else◌, List, Result,
  ok, err, filter_map, or_default,
}
use kernel_pop.Text.{Text, codes, text_eq, starts_with, split_char, decimal}

pub data Moniker : Type 0 where
  mainline stable longterm : Moniker

unfoldable pub label : Moniker → Text
label mainline = codes "mainline"
label stable = codes "stable"
label longterm = codes "longterm"

pub record Release : Type 0 where
  pub moniker : Moniker
  pub version : Text
  pub is_eol : Bool
  pub released : Text
  pub source : Text
  pub pgp : Option Text

-- an entry of the file; `isodate` is that of `released`, where both are there
pub record ReleaseJson : Type 0 where
  pub moniker : Text
  pub version : Text
  pub iseol : Bool
  pub isodate : Option Text
  pub source : Option Text
  pub pgp : Option Text

pub data ListError : Type 0 where
  bad_format no_releases : ListError

unfoldable pub moniker_of : Text → Option Moniker
unfolding text_eq
moniker_of m =
    if text_eq m (codes "mainline")
    then some mainline
    else if text_eq m (codes "stable")
    then some stable
    else if text_eq m (codes "longterm")
    then some longterm
    else none

-- `filter(|s| s.starts_with("https://"))`
abbrev pub https_only : Option Text → Option Text
https_only none = none
https_only (some s) = if starts_with (codes "https://") s then some s else none

unfoldable pub release_of : ReleaseJson → Option Release
release_of r = elim (moniker_of r.moniker) [
  | none ↦ none
  | some m ↦ elim (https_only r.source) [
    | none ↦ none
    | some s ↦ some (record {
      moniker = m;
      version = r.version;
      is_eol = r.iseol;
      released = or_default [] r.isodate;
      source = s;
      pgp = https_only r.pgp;
    })
  ]
]

abbrev pub non_empty_list : List Release → Result ListError (List Release)
non_empty_list [] = err no_releases
non_empty_list (r ∷ rs) = ok (r ∷ rs)

unfoldable pub parse_releases : Option (List ReleaseJson) → Result ListError (List Release)
parse_releases none = err bad_format
parse_releases (some entries) = non_empty_list (filter_map release_of entries)

abbrev pub cdn_base : Text
cdn_base = codes "https://cdn.kernel.org/pub/linux/kernel/"

unfoldable pub signature_url : Text → ℕ → Text
signature_url name major =
    cdn_base ++ (b'v' ∷ (decimal major ++ (codes ".x/linux-" ++ (name ++ codes ".tar.sign"))))

-- the last part of `split`
abbrev pub last_part : Text → List Text → Text
last_part p [] = p
last_part p (q ∷ qs) = last_part q qs

unfoldable pub url_file_name : Text → Option Text
unfolding split_char text_eq
url_file_name url =
    let name = last_part [] (split_char b'/' url) in
    if not (text_eq name []) && (not (text_eq name (codes ".")) && not (text_eq name (codes "..")))
    then some name
    else none
