-- ===== src/Build/Finish/Verified.antt =====
-- What `build` of src/build.rs publishes passes `verify_built_set`.
use kernel_pop.Prelude.{
  ℕ, true, some, map_option, List, [], ◌∷◌, ok, ◌≡◌, ◌≢◌, sym, ap, ◌∙◌, All, All-map, Elem, ◌⊎◌,
  inl, inr, Bool-cases, rev_onto, All-Elem, Elem-All,
}
use mathlib.Core.List.{map}
use mathlib.Core.Path.{subst}
use kernel_pop.Text.{Text, text_eq, text_eq_sound, text_eq_refl}
use kernel_pop.Build.Sets.{BuiltSet, verify_built_set}
use kernel_pop.Build.Request.{Prepared}
use kernel_pop.Build.Run.Picked.{IsPicked, pick_packages-IsPicked}
use kernel_pop.Build.Publish.{Dir, Places, manifest_name, config_name}
use kernel_pop.Build.Publish.Swap.{whole_set, publish-keeps}
use kernel_pop.Build.Publish.Content.{content_of}
use kernel_pop.Build.Finish.{Site, BuildDisk, build, packages_of, papers_of, built_set_of}
use kernel_pop.Build.Finish.Ends.{build-ok}
use kernel_pop.Build.Finish.Written.{
  IsDigest, IsPackageName, content_of-whole_set, whole_set-verified,
}

abbrev pub names_of : List (Text × Text) → List Text
names_of kept = map (λ (name, pkg). name) kept

Elem-ne-nil : {A : Type 0} (x : A) (xs : List A) → Elem x xs → xs ≢ []
Elem-ne-nil x [] e = elim e [ ]
Elem-ne-nil x (y ∷ ys) e = λ nil. cc

module _ (p : Prepared) (s : Site) where
  -- Every file that is kept is a package of the build root.
  kept_names :
      (P : Text → Type 0) (kept : List (Text × Text))
      → All (λ e. e.is_deb ≡ true → P e.name) s.entries
      → All (IsPicked p.summary.kernelrelease s.entries) kept
      → All (λ (name, pkg). P name) kept
  kept_names P kept plain picked =
      All-map (IsPicked p.summary.kernelrelease s.entries) (λ (name, pkg). P name) kept
        (λ (name, pkg) ((e, at, deb, named, _), _).
          subst P named (All-Elem (λ e. e.is_deb ≡ true → P e.name) e s.entries plain at deb))
        picked

  content_of-first :
      (name n : Text) (dir : Dir)
      → (name ≡ n) ⊎ (content_of name dir ≡ some (s.content name))
      → content_of name ((n, s.content n) ∷ dir) ≡ some (s.content name)
  unfolding content_of
  content_of-first name n dir h = elim (Bool-cases (text_eq name n)) [
    | inl same ↦ rw same (ap (λ t. some (s.content t)) (sym (text_eq_sound name n same)))
    | inr other ↦ rw other (elim h [
      | inl same ↦ cc (sym other ∙ ap (text_eq name) (sym same) ∙ text_eq_refl name)
      | inr there ↦ there
    ])
  ]

  content_of-packages :
      (kept : List (Text × Text)) (dir : Dir) (name : Text)
      → Elem name (names_of kept) ⊎ (content_of name dir ≡ some (s.content name))
      → content_of name (rev_onto (packages_of s kept) dir) ≡ some (s.content name)
  content_of-packages [] dir name (inl e) = elim e [ ]
  content_of-packages [] dir name (inr there) = there
  content_of-packages ((n, pkg) ∷ kept) dir name (inl (inl same)) =
      content_of-packages kept _ name (inr (content_of-first name n dir (inl same)))
  content_of-packages ((n, pkg) ∷ kept) dir name (inl (inr far)) =
      content_of-packages kept _ name (inl far)
  content_of-packages ((n, pkg) ∷ kept) dir name (inr there) =
      content_of-packages kept _ name (inr (content_of-first name n dir (inr there)))

  All-content :
      (kept : List (Text × Text))
      → All (λ (name, pkg). IsPackageName (config_name s.io p.summary.kernelrelease) name) kept
      → All
          (λ name.
            content_of name (whole_set s.io (packages_of s kept) (papers_of p s))
            ≡ some (s.content name))
          (names_of kept)
  All-content kept names = Elem-All _ (names_of kept) λ name e.
      content_of-whole_set p s kept name
        (All-Elem _ name (names_of kept) (plain_names kept names) e)
      ∙ content_of-packages kept [] name (inl e)
    where
      plain_names :
          (ks : List (Text × Text))
          → All (λ (name, pkg). IsPackageName (config_name s.io p.summary.kernelrelease) name) ks
          → All (IsPackageName (config_name s.io p.summary.kernelrelease)) (names_of ks)
      plain_names [] h = tt
      plain_names ((n, pkg) ∷ ks) (h, hs) = (h, plain_names ks hs)

  -- The final directory of a build that succeeds: the packages that are kept, and the papers.
  pub record Whole (set : BuiltSet) (places : Places) : Type 0 where
    pub kept : List (Text × Text)
    pub is_set : set ≡ built_set_of p kept
    pub some_kept : kept ≢ []
    pub names :
        All (λ (name, pkg). IsPackageName (config_name s.io p.summary.kernelrelease) name) kept
    pub there : places.out ≡ some (whole_set s.io (packages_of s kept) (papers_of p s))

  pub build-Whole :
      (d : BuildDisk) {set : BuiltSet}
      → All
          (λ e. e.is_deb ≡ true → IsPackageName (config_name s.io p.summary.kernelrelease) e.name)
          s.entries
      → (build p s d).0 ≡ ok set
      → Whole set (build p s d).1.places
  build-Whole d {set} plain h =
      let ran = build-ok p s d h in
      let (picked, (image, at)) =
        pick_packages-IsPicked p.summary.kernelrelease s.entries ran.picked in
      elim (publish-keeps s.io (packages_of s ran.kept) (papers_of p s) d.places.out d.places.old) [
        | inl (done, there) ↦ record {
          kept = ran.kept;
          is_set = ran.is_set;
          some_kept = Elem-ne-nil _ ran.kept at;
          names =
              kept_names (IsPackageName (config_name s.io p.summary.kernelrelease)) ran.kept plain
                picked;
          there = ap (λ (places : Places). places.out) ran.placed ∙ there;
        }
        | inr (stopped, _) ↦ absurd (stopped ran.done)
      ]

  -- What a build that succeeds leaves in the final directory passes the check of a finished build, with
  -- the hashes of what the files there hold. It is assumed that SHA-256 is written as 64 lower-case hex
  -- digits, and that the ".deb" files in the build root have plain names on one line, other than that
  -- of the configuration.
  pub build-verified :
      (d : BuildDisk) {set : BuiltSet}
      → ((bytes : List ℕ) → IsDigest (s.io.sha256 bytes))
      → All
          (λ e. e.is_deb ≡ true → IsPackageName (config_name s.io p.summary.kernelrelease) e.name)
          s.entries
      → (build p s d).0 ≡ ok set
      → (dir : Dir) × ((build p s d).1.places.out ≡ some dir)
        × (verify_built_set
              (λ name. map_option s.io.sha256 (content_of name dir))
              (content_of manifest_name dir)
            ≡ ok tt)
        × All (λ name. content_of name dir ≡ some (s.content name)) set.debs
  build-verified d {set} digests plain h =
      let w = build-Whole d plain h in
      let dir = whole_set s.io (packages_of s w.kept) (papers_of p s) in
      (
        dir,
        w.there,
        whole_set-verified p s w.kept digests w.some_kept w.names,
        subst (λ (b : BuiltSet). All (λ name. content_of name dir ≡ some (s.content name)) b.debs)
            (sym w.is_set) (All-content w.kept w.names),
      )
