-- ===== src/Build/Finish/Listed.antt =====
-- What `build` of src/build.rs publishes is listed by `built_sets_in`.
use kernel_pop.Prelude.{
  ℕ, true, false, some, all, List, [], ◌∷◌, ◌++◌, ok, ◌≡◌, ◌≢◌, refl, sym, ap, ◌∙◌, All, All-map,
  All-all, Elem, Elem-All, inl, inr, &&_both,
}
use mathlib.Core.List.{map}
use mathlib.Core.Path.{subst}
use kernel_pop.Text.{Text, codes, strip_prefix, text_eq}
use kernel_pop.System.Versions.Order.{lex-eq}
use kernel_pop.Build.Manifest.{
  Manifest, insert, valid_release, release_char, starts_alphanumeric, manifest_text, parse_manifest,
}
use kernel_pop.Build.Manifest.Safe.{lex-cases, less, equal, greater}
use kernel_pop.Build.Sets.{BuiltSet, built_set, source_of}
use kernel_pop.Build.Request.{Prepared, describe, display}
use kernel_pop.Build.Publish.{Dir, manifest_name, build_info, config_name}
use kernel_pop.Build.Publish.Swap.{manifest_of, whole_set}
use kernel_pop.Build.Publish.Content.{content_of, All-manifest_of}
use kernel_pop.Build.Finish.{
  Site, BuildDisk, build, packages_of, papers_of, built_set_of, info_text,
}
use kernel_pop.Build.Finish.Info.{OnOneLine, source_of-info_text}
use kernel_pop.Build.Finish.Written.{
  IsDigest, IsPackageName, content_of-manifest_name, written_manifest,
}
use kernel_pop.Build.Finish.Verified.{build-Whole, names_of}

-- a name that `valid_release` accepts has no line break
one_line : (c d : ℕ) → release_char d ≡ false → release_char c ≡ true → c ≢ d
one_line c d bad good same = cc (ap release_char same)

valid_release-OnOneLine : (krel : Text) → valid_release krel ≡ true → OnOneLine krel
unfolding valid_release
valid_release-OnOneLine krel valid =
    let (_, rest) = &&_both (starts_alphanumeric krel) _ valid in
    let (chars, _) = &&_both (all release_char krel) _ rest in
    let plain = All-all release_char krel chars in
    (
      All-map _ _ krel (λ c. one_line c 10 refl) plain,
      All-map _ _ krel (λ c. one_line c 13 refl) plain,
    )

-- the names of the packages in a manifest
abbrev keys : Manifest → List Text
keys m = map (λ (n, h). n) m

Elem-keys-insert : (name hash : Text) (m : Manifest) → Elem name (keys (insert name hash m))
unfolding insert
Elem-keys-insert name hash [] = inl refl
Elem-keys-insert name hash ((n, x) ∷ m) = elim (lex-cases name n) [
  | less e ↦ rw (e, Elem) (inl refl)
  | equal e ↦ rw (e, Elem) (inl (lex-eq name n e))
  | greater e ↦ rw (e, Elem) (inr (Elem-keys-insert name hash m))
]

Elem-keys-insert_old :
    (t name hash : Text) (m : Manifest) → Elem t (keys m) → Elem t (keys (insert name hash m))
unfolding insert
Elem-keys-insert_old t name hash [] e = elim e [ ]
Elem-keys-insert_old t name hash ((n, x) ∷ m) e = elim (lex-cases name n) [
  | less k ↦ rw (k, Elem) (inr e)
  | equal k ↦ rw (k, Elem) e
  | greater k ↦
      rw (k, Elem)
        (elim e [ inl same ↦ inl same | inr far ↦ inr (Elem-keys-insert_old t name hash m far) ])
]

module _ (sha256 : List ℕ → Text) where
  Elem-manifest_of_old :
      (t : Text) (packages : Dir) (m : Manifest)
      → Elem t (keys m)
      → Elem t (keys (manifest_of sha256 packages m))
  unfolding manifest_of
  Elem-manifest_of_old t [] m e = e
  Elem-manifest_of_old t ((name, bytes) ∷ packages) m e =
      Elem-manifest_of_old t packages _ (Elem-keys-insert_old t name (sha256 bytes) m e)

  -- each package has an entry
  Elem-manifest_of :
      (t : Text) (packages : Dir) (m : Manifest)
      → Elem t (map (λ (name, bytes). name) packages)
      → Elem t (keys (manifest_of sha256 packages m))
  unfolding manifest_of
  Elem-manifest_of t [] m e = elim e [ ]
  Elem-manifest_of t ((name, bytes) ∷ packages) m (inl same) =
      subst (λ u. Elem u (keys (manifest_of sha256 packages (insert name (sha256 bytes) m))))
        (sym same) (Elem-manifest_of_old name packages _ (Elem-keys-insert name (sha256 bytes) m))
  Elem-manifest_of t ((name, bytes) ∷ packages) m (inr far) = Elem-manifest_of t packages _ far

-- how `built_sets_in` reads a directory
built_set-dir :
    (krel text info trust : Text) (m : Manifest)
    → parse_manifest text ≡ ok m
    → source_of (some info) ≡ trust
    → valid_release krel ≡ true
    → built_set (record { name = codes "linux-" ++ krel; manifest = some text; info = some info })
      ≡ some (record { kernelrelease = krel; debs = keys m; source = trust })
unfolding built_set strip_prefix
built_set-dir krel text info trust m parsed signed valid = rw (parsed, signed, valid) refl

-- The directory is listed as a build of the set's release, with its packages, whatever their order,
-- and with its signature line.
abbrev pub IsListed : BuiltSet → Dir → Type 0
IsListed set dir =
    (found : BuiltSet) × (built_set (record {
      name = codes "linux-" ++ set.kernelrelease;
      manifest = content_of manifest_name dir;
      info = content_of build_info dir;
    })
      ≡ some found)
    × (found.kernelrelease ≡ set.kernelrelease)
    × (found.source ≡ set.source)
    × All (λ n. Elem n set.debs) found.debs
    × All (λ n. Elem n found.debs) set.debs

All-keys : (P : Text → Type 0) (m : Manifest) → All (λ (n, h). P n) m → All P (keys m)
All-keys P [] h = tt
All-keys P ((n, x) ∷ m) (h, hs) = (h, All-keys P m hs)

module _ (p : Prepared) (s : Site) where
  names-packages :
      (kept : List (Text × Text)) → map (λ (name, bytes). name) (packages_of s kept) ≡ names_of kept
  names-packages [] = refl
  names-packages ((n, pkg) ∷ kept) = ap (λ ns. n ∷ ns) (names-packages kept)

  content_of-build_info :
      (kept : List (Text × Text))
      → content_of build_info (whole_set s.io (packages_of s kept) (papers_of p s))
        ≡ some (info_text p s.clock)
  unfolding content_of text_eq
  content_of-build_info kept = refl

  entries_kept :
      (kept : List (Text × Text))
      → All (λ (n, h). Elem n (names_of kept)) (manifest_of s.io.sha256 (packages_of s kept) [])
  entries_kept kept =
      All-manifest_of s.io.sha256 (λ (n, h). Elem n (names_of kept)) (packages_of s kept) []
        (of_names kept (names_of kept) (λ n e. e)) (λ n h bytes e. e) tt
    where
      of_names :
          (ks : List (Text × Text)) (all_names : List Text)
          → ((n : Text) → Elem n (names_of ks) → Elem n all_names)
          → All (λ (n, bytes). Elem n all_names) (packages_of s ks)
      of_names [] all_names inside = tt
      of_names ((n, pkg) ∷ ks) all_names inside =
          (inside n (inl refl), of_names ks all_names (λ k e. inside k (inr e)))

  whole_set-IsListed :
      (kept : List (Text × Text)) (m : Manifest)
      → manifest_of s.io.sha256 (packages_of s kept) [] ≡ m
      → parse_manifest (manifest_text m) ≡ ok m
      → source_of (some (info_text p s.clock)) ≡ describe p.request.trust
      → valid_release p.summary.kernelrelease ≡ true
      → IsListed (built_set_of p kept) (whole_set s.io (packages_of s kept) (papers_of p s))
  whole_set-IsListed kept m is parsed signed valid =
      let krel = p.summary.kernelrelease in
      let trust = describe p.request.trust in
      let manifest = content_of-manifest_name p s kept ∙ ap (λ k. some (manifest_text k)) is in
      let reads =
        built_set-dir krel (manifest_text m) (info_text p s.clock) trust m parsed signed valid in
      let kept_in : All (λ n. Elem n (keys m)) (names_of kept) =
        Elem-All (λ n. Elem n (keys m)) (names_of kept)
          (λ n e.
            subst (λ k. Elem n (keys k)) is
              (Elem-manifest_of s.io.sha256 n (packages_of s kept) []
                (subst (Elem n) (sym (names-packages kept)) e))) in
      let in_kept =
        All-keys (λ n. Elem n (names_of kept)) m
          (subst (All (λ (n, h). Elem n (names_of kept))) is (entries_kept kept)) in
      (
        record { kernelrelease = krel; debs = keys m; source = trust },
        rw (manifest, content_of-build_info kept) reads,
        refl,
        refl,
        in_kept,
        kept_in,
      )

  -- After a build that succeeds the list of finished builds reads its directory as a build of that
  -- release, with the same packages and with the signature line that the build returned. It is assumed
  -- that SHA-256 is written as 64 lower-case hex digits, that the ".deb" files in the build root have
  -- plain names on one line, other than that of the configuration, that the release is one that
  -- `valid_release` accepts, and that the path of the tarball and the signature line have no line break.
  pub build-IsListed :
      (d : BuildDisk) {set : BuiltSet}
      → ((bytes : List ℕ) → IsDigest (s.io.sha256 bytes))
      → All
          (λ e. e.is_deb ≡ true → IsPackageName (config_name s.io p.summary.kernelrelease) e.name)
          s.entries
      → valid_release p.summary.kernelrelease ≡ true
      → OnOneLine (display p.request.tarball.origin)
      → OnOneLine (describe p.request.trust)
      → (build p s d).0 ≡ ok set
      → (dir : Dir) × ((build p s d).1.places.out ≡ some dir) × IsListed set dir
  build-IsListed d {set} digests plain valid origin trust h =
      let w = build-Whole p s d plain h in
      let dir = whole_set s.io (packages_of s w.kept) (papers_of p s) in
      let (_, parsed) = written_manifest p s w.kept digests w.some_kept w.names in
      let signed =
        source_of-info_text p s.clock (valid_release-OnOneLine p.summary.kernelrelease valid) origin
          trust in
      (
        dir,
        w.there,
        subst (λ (b : BuiltSet). IsListed b dir) (sym w.is_set)
            (whole_set-IsListed w.kept _ refl parsed signed valid),
      )
