-- ===== src/Ui/Rows/Tests.antt =====
-- The lists of src/ui.rs on concrete releases: kernel.org lists one version under two headings.
use kernel_pop.Prelude.{true, false, none, some, List, [], ◌∷◌, ◌≡◌, Elem, refl, inl}
use kernel_pop.Text.{Text, codes, text_eq, contains, join}
use kernel_pop.System.Versions.{compare_to_running}
use kernel_pop.System.Signing.{SecureBoot, KernelSigning}
use kernel_pop.System.Gate.{SystemInfo}
use kernel_pop.Releases.{Release, mainline, stable, longterm, label}
use kernel_pop.Build.Sets.{BuiltSet}
use kernel_pop.Ui.State.{new_state}
use kernel_pop.Ui.Answers.{retain_first, releases_listed}
use kernel_pop.Ui.Handlers.{select_release}
use kernel_pop.Ui.Rows.{
  ReleaseRow, relation_text, matches, release_row, populate_list, update_banner, status_text,
  update_install_tab,
}
use kernel_pop.Ui.Rows.Selected.{select_release-row}

abbrev info : SystemInfo
info = record {
  free_boot_bytes = none;
  secure_boot = SecureBoot.enabled;
  kernel_signing = KernelSigning.enrolled;
  dkms_key = none;
  boot_needed_bytes = 100;
}

abbrev newest : Release
newest = record {
  moniker = stable;
  version = codes "6.9";
  is_eol = false;
  released = codes "2024-05-12";
  source = [];
  pgp = none;
}

abbrev repeated : Release
repeated = record newest { moniker = mainline }

abbrev retired : Release
retired = record newest { moniker = longterm; version = codes "6.8"; is_eol = true; pgp = some [] }

abbrev listed : List Release
listed = newest ∷ repeated ∷ retired ∷ []

abbrev unchanged : Text → Text
unchanged t = t

abbrev first_row : ReleaseRow
first_row = record {
  title = codes "6.9";
  subtitle = codes "stable · released 2024-05-12 · newer than running · no signature published";
  is_running = false;
  has_eol_badge = false;
}

abbrev last_row : ReleaseRow
last_row = record {
  title = codes "6.8";
  subtitle = codes "longterm · released 2024-05-12 · matches the running kernel";
  is_running = true;
  has_eol_badge = true;
}

rows :
    populate_list unchanged (retain_first [] listed) [] (codes "6.8.0-generic")
    ≡ (first_row ∷ last_row ∷ [])
unfolding populate_list matches release_row relation_text retain_first text_eq contains join label
    compare_to_running
rows = refl

filtered :
    populate_list unchanged (retain_first [] listed) (codes "long") (codes "6.8.0-generic")
    ≡ (last_row ∷ [])
unfolding populate_list matches release_row relation_text retain_first text_eq contains join label
    compare_to_running
filtered = refl

banner : update_banner (codes "6.8.0-generic") (some listed) ≡ some (codes "6.9")
unfolding update_banner compare_to_running
banner = refl

no_banner : update_banner (codes "6.9.1") (some listed) ≡ none
unfolding update_banner compare_to_running
no_banner = refl

abbrev finished : BuiltSet
finished = record {
  kernelrelease = codes "6.9-kernel-pop";
  debs = codes "linux-image.deb" ∷ [];
  source = [];
}

install_tab : update_install_tab (codes "6.8.0") (some finished) true ≡ record {
  title = codes "Linux 6.9-kernel-pop";
  status = codes "Upgrade: 6.8.0 → 6.9-kernel-pop";
  source = codes "—";
  files = (codes "linux-image.deb", true) ∷ [];
}
unfolding update_install_tab status_text compare_to_running text_eq
install_tab = refl

select_release-row_example :
    (r : Release) × Elem r (releases_listed (some listed) (new_state info)).releases
    × (first_row ≡ release_row (codes "6.8.0-generic") r)
    × ((select_release
          (some first_row.title)
          (releases_listed (some listed) (new_state info))).selected_release
        ≡ some r)
unfolding populate_list matches release_row relation_text retain_first releases_listed text_eq
    contains join label compare_to_running
select_release-row_example =
    select_release-row unchanged listed [] (codes "6.8.0-generic") (new_state info) first_row
      (inl refl)
