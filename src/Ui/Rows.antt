-- ===== src/Ui/Rows.antt =====
-- What the lists of src/ui.rs show: the rows of the releases, the banner of a newer release, and the
-- Install tab. Rust's lower-casing of a `str` is an argument.
pub mod Selected
mod Tests
use kernel_pop.Prelude.{
  ℕ, Bool, true, false, not, ◌&&◌, ◌||◌, Option, none, some, List, [], ◌∷◌, ◌++◌, if◌then◌else◌,
  keep, find, is_some, map_option,
}
use mathlib.Core.List.{map}
use kernel_pop.Text.{Text, codes, text_eq, contains, join}
use kernel_pop.System.Versions.{VersionRelation, newer, same, older, unknown, compare_to_running}
use kernel_pop.Releases.{Release, Moniker, mainline, stable, longterm, label}
use kernel_pop.Build.Sets.{BuiltSet}

pub record ReleaseRow : Type 0 where
  pub title : Text
  pub subtitle : Text
  pub is_running : Bool
  pub has_eol_badge : Bool

unfoldable pub relation_text : VersionRelation → Text
relation_text newer = codes "newer than running"
relation_text same = codes "matches the running kernel"
relation_text older = codes "older than running"
relation_text unknown = []

abbrev pub part_if : Bool → Text → List Text
part_if b t = if b then t ∷ [] else []

abbrev pub is_same : VersionRelation → Bool
is_same same = true
is_same newer = false
is_same older = false
is_same unknown = false

unfoldable pub release_row : Text → Release → ReleaseRow
unfolding relation_text label text_eq join compare_to_running
release_row running rel =
    let relation = compare_to_running running rel.version in
    let text = relation_text relation in
    record {
      title = rel.version;
      subtitle = join (codes " · ") (
          label rel.moniker
          ∷ (part_if (not (text_eq rel.released [])) (codes "released " ++ rel.released)
              ++ (part_if (not (text_eq text [])) text
                  ++ part_if (not (is_some rel.pgp)) (codes "no signature published"))));
      is_running = is_same relation;
      has_eol_badge = rel.is_eol;
    }

-- `filter` is lower-case
unfoldable pub matches : Text → Release → Bool
unfolding text_eq contains label
matches filter rel =
    text_eq filter [] || (contains filter rel.version || contains filter (label rel.moniker))

unfoldable pub populate_list : (Text → Text) → List Release → Text → Text → List ReleaseRow
unfolding matches release_row
populate_list to_lowercase releases filter running =
    map (release_row running) (keep (matches (to_lowercase filter)) releases)

abbrev pub is_stable : Moniker → Bool
is_stable stable = true
is_stable mainline = false
is_stable longterm = false

abbrev pub is_newer : VersionRelation → Bool
is_newer newer = true
is_newer same = false
is_newer older = false
is_newer unknown = false

-- the version that the banner names, if it is shown; `releases` is none where they cannot be fetched
unfoldable pub update_banner : Text → Option (List Release) → Option Text
unfolding compare_to_running
update_banner running none = none
update_banner running (some releases) = elim (find (λ r. is_stable r.moniker) releases) [
  | none ↦ none
  | some newest ↦
      if is_newer (compare_to_running running newest.version) then some newest.version else none
]

-- the Install tab without the set's directory, the subtitle of its title; a file's flag says that
-- its badge is the check mark
pub record InstallTab : Type 0 where
  pub title : Text
  pub status : Text
  pub source : Text
  pub files : List (Text × Bool)

unfoldable pub status_text : Text → Text → VersionRelation → Text
status_text running version newer = codes "Upgrade: " ++ (running ++ (codes " → " ++ version))
status_text running version same =
    codes "Same numeric version as running (" ++ (running ++ codes ")")
status_text running version older = codes "Downgrade: " ++ (running ++ (codes " → " ++ version))
status_text running version unknown = codes "—"

unfoldable pub update_install_tab : Text → Option BuiltSet → Bool → InstallTab
unfolding status_text compare_to_running text_eq
update_install_tab running none verified = record {
  title = codes "Nothing selected";
  status = codes "—";
  source = codes "—";
  files = [];
}
update_install_tab running (some set) verified = record {
  title = codes "Linux " ++ set.kernelrelease;
  status = status_text running set.kernelrelease (compare_to_running running set.kernelrelease);
  source = if text_eq set.source [] then codes "—" else set.source;
  files = map (λ name. (name, verified)) set.debs;
}
