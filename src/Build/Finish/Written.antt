-- ===== src/Build/Finish/Written.antt =====
-- The set that `build` of src/build.rs publishes: what its files hold, and its manifest.
use kernel_pop.Prelude.{
  ℕ, true, false, some, map_option, List, [], ◌∷◌, ok, ◌≡◌, ◌≢◌, refl, ap, ◌∙◌, All, All-map,
  All-both, inl, inr, Bool-cases, rev_onto,
}
use mathlib.Core.List.{map}
use kernel_pop.Text.{Text, codes, text_eq, text_eq_sound, ascii_lower, Lacks}
use kernel_pop.Build.Manifest.{is_hash, is_deb_name, manifest_text, parse_manifest}
use kernel_pop.Build.Manifest.RoundTrip.{IsEntry, parse_manifest-manifest_text}
use kernel_pop.Build.Sets.{verify_built_set}
use kernel_pop.Build.Sets.Verified.{verify_built_set_iff}
use kernel_pop.Build.Request.{Prepared}
use kernel_pop.Build.Publish.{Dir, manifest_name, build_info, config_name}
use kernel_pop.Build.Publish.Swap.{whole_set, manifest_of}
use kernel_pop.Build.Publish.Content.{
  content_of, HasHash, manifest_of-HasHash, manifest_of-ne-nil, All-manifest_of,
}
use kernel_pop.Build.Finish.{Site, packages_of, papers_of, info_text}

-- a hash as `sha256_file` writes it
abbrev pub IsDigest : Text → Type 0
IsDigest hash = (is_hash hash ≡ true) × (map ascii_lower hash ≡ hash)

-- the file name of a package: a plain ".deb" name on one line, and not that of the configuration
abbrev pub IsPackageName : Text → Text → Type 0
IsPackageName config name =
    (is_deb_name name ≡ true) × Lacks 10 name × Lacks 13 name × (name ≢ config)

-- a ".deb" name is none of the set's other files
content_of-paper :
    (paper : Text) (bytes : List ℕ) (dir : Dir) (name : Text)
    → name ≢ paper
    → content_of name ((paper, bytes) ∷ dir) ≡ content_of name dir
unfolding content_of
content_of-paper paper bytes dir name differ = elim (Bool-cases (text_eq name paper)) [
  | inl same ↦ absurd (differ (text_eq_sound name paper same))
  | inr other ↦ rw other refl
]

no_deb : (name paper : Text) → is_deb_name name ≡ true → is_deb_name paper ≡ false → name ≢ paper
no_deb name paper deb other same = cc (ap is_deb_name same)

-- an entry for a package
abbrev pub IsPackageEntry : Prepared → Site → Text × Text → Type 0
IsPackageEntry p s (name, hash) =
    IsPackageName (config_name s.io p.summary.kernelrelease) name × IsDigest hash

module _ (p : Prepared) (s : Site) where
  -- the files of the whole set, by the name of a package
  pub content_of-whole_set :
      (kept : List (Text × Text)) (name : Text)
      → IsPackageName (config_name s.io p.summary.kernelrelease) name
      → content_of name (whole_set s.io (packages_of s kept) (papers_of p s))
        ≡ content_of name (rev_onto (packages_of s kept) [])
  unfolding is_deb_name
  content_of-whole_set kept name (deb, _, _, no_config) =
      let config = config_name s.io p.summary.kernelrelease in
      let debs = rev_onto (packages_of s kept) [] in
      let with_config = (config, s.config) ∷ debs in
      let with_info = (build_info, info_text p s.clock) ∷ with_config in
      let sums = manifest_text (manifest_of s.io.sha256 (packages_of s kept) []) in
      content_of-paper (codes "build.log") s.log ((manifest_name, sums) ∷ with_info) name
        (no_deb name (codes "build.log") deb refl)
      ∙ content_of-paper manifest_name sums with_info name (no_deb name manifest_name deb refl)
      ∙ content_of-paper build_info (info_text p s.clock) with_config name
          (no_deb name build_info deb refl)
      ∙ content_of-paper config s.config debs name no_config

  pub content_of-manifest_name :
      (kept : List (Text × Text))
      → content_of manifest_name (whole_set s.io (packages_of s kept) (papers_of p s))
        ≡ some (manifest_text (manifest_of s.io.sha256 (packages_of s kept) []))
  unfolding content_of text_eq
  content_of-manifest_name kept = refl

  package_entries :
      (kept : List (Text × Text))
      → ((bytes : List ℕ) → IsDigest (s.io.sha256 bytes))
      → All (λ (name, pkg). IsPackageName (config_name s.io p.summary.kernelrelease) name) kept
      → All (λ (name, bytes). IsPackageEntry p s (name, s.io.sha256 bytes)) (packages_of s kept)
  package_entries [] digests h = tt
  package_entries ((name, pkg) ∷ kept) digests (plain, h) =
      ((plain, digests (s.content name)), package_entries kept digests h)

  -- what is written as the manifest is read back, and each entry is for a package
  pub written_manifest :
      (kept : List (Text × Text))
      → ((bytes : List ℕ) → IsDigest (s.io.sha256 bytes))
      → kept ≢ []
      → All (λ (name, pkg). IsPackageName (config_name s.io p.summary.kernelrelease) name) kept
      → let m = manifest_of s.io.sha256 (packages_of s kept) [] in
        All (IsPackageEntry p s) m × (parse_manifest (manifest_text m) ≡ ok m)
  written_manifest kept digests some_kept names =
      let m = manifest_of s.io.sha256 (packages_of s kept) [] in
      let (_, rises) = manifest_of-HasHash s.io.sha256 (packages_of s kept) [] [] tt tt in
      let entries =
        All-manifest_of s.io.sha256 (IsPackageEntry p s) (packages_of s kept) []
          (package_entries kept digests names) (λ n h bytes (plain, _). (plain, digests bytes))
          tt in
      let written =
        All-map _ IsEntry m (λ (n, h) ((deb, lf, cr, _), (hex, low)). (hex, low, deb, lf, cr))
          entries in
      let some_entry =
        manifest_of-ne-nil s.io.sha256 (packages_of s kept) [] (inl (map-ne-nil kept some_kept)) in
      (entries, parse_manifest-manifest_text m some_entry written rises)
    where
      map-ne-nil : (ks : List (Text × Text)) → ks ≢ [] → packages_of s ks ≢ []
      map-ne-nil [] h = absurd (h refl)
      map-ne-nil (k ∷ ks) h = λ nil. cc

  pub whole_set-verified :
      (kept : List (Text × Text))
      → ((bytes : List ℕ) → IsDigest (s.io.sha256 bytes))
      → kept ≢ []
      → All (λ (name, pkg). IsPackageName (config_name s.io p.summary.kernelrelease) name) kept
      → let dir = whole_set s.io (packages_of s kept) (papers_of p s) in
        verify_built_set
          (λ name. map_option s.io.sha256 (content_of name dir))
          (content_of manifest_name dir)
        ≡ ok tt
  whole_set-verified kept digests some_kept names =
      let dir = whole_set s.io (packages_of s kept) (papers_of p s) in
      let m = manifest_of s.io.sha256 (packages_of s kept) [] in
      let (hashed, _) = manifest_of-HasHash s.io.sha256 (packages_of s kept) [] [] tt tt in
      let (entries, parsed) = written_manifest kept digests some_kept names in
      let there =
        All-map _ (HasHash s.io.sha256 dir) m
          (λ (n, h) ((plain, _), has).
            ap (map_option s.io.sha256) (content_of-whole_set kept n plain) ∙ has)
          (All-both (IsPackageEntry p s) _ m entries hashed) in
      (verify_built_set_iff (λ name. map_option s.io.sha256 (content_of name dir))
          (content_of manifest_name dir)).1
        (manifest_text m, m, content_of-manifest_name kept, parsed, there)
