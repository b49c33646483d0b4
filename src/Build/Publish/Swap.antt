-- ===== src/Build/Publish/Swap.antt =====
-- What `publish` of src/build.rs leaves in the final directory.
use kernel_pop.Prelude.{
  ℕ, Option, none, some, [], ◌∷◌, List, Result, ok, err, guard, >>=-eq-ok, ◌≡◌, ◌≢◌, refl, arith,
  ◌∙◌, ap, ◌⊎◌, inl, inr, rev_onto, Bool-cases,
}
use kernel_pop.Text.{Text, codes}
use kernel_pop.Build.Manifest.{Manifest, insert, manifest_text}
use kernel_pop.Build.Publish.{
  Dir, Io, Places, Papers, no_directory, manifest_name, build_info, config_name, place, fill,
  move_in, move_aside, swap, publish,
}

-- the manifest with an entry for each package
unfoldable pub manifest_of : (List ℕ → Text) → Dir → Manifest → Manifest
manifest_of sha256 [] m = m
manifest_of sha256 ((name, bytes) ∷ keep) m = manifest_of sha256 keep (insert name (sha256 bytes) m)

-- the whole set
abbrev pub whole_set : Io → Dir → Papers → Dir
whole_set io keep p =
    (codes "build.log", p.log)
    ∷ (manifest_name, manifest_text (manifest_of io.sha256 keep []))
    ∷ (build_info, p.info)
    ∷ (config_name io p.krel, p.config)
    ∷ rev_onto keep []

-- the earlier set stays where it was, or is the one moved aside
abbrev pub IsUnharmed : Places → Places → Type 0
IsUnharmed before after = (after.out ≡ before.out) ⊎ ((after.out ≡ none) × (after.old ≡ before.out))

result-cases {ℓ κ} :
    {E : Type ℓ} {A : Type κ} (r : Result E A) → ((a : A) × (r ≡ ok a)) ⊎ ((e : E) × (r ≡ err e))
result-cases (ok a) = inl (a, refl)
result-cases (err e) = inr (e, refl)

module _ (io : Io) where
  place-ok :
      (keep dir : Dir) (m : Manifest) {r : Dir × Manifest}
      → place io keep dir m ≡ ok r
      → (r.0 ≡ rev_onto keep dir) × (r.1 ≡ manifest_of io.sha256 keep m)
  unfolding place manifest_of
  place-ok [] dir m h = (ground arith, ground arith)
  place-ok ((name, bytes) ∷ keep) dir m {r} h =
      place-ok keep ((name, bytes) ∷ dir) (insert name (io.sha256 bytes) m) {r = r} (ground arith)

  fill-ok :
      (keep : Dir) (p : Papers) {dir : Dir} → fill io keep p ≡ ok dir → dir ≡ whole_set io keep p
  unfolding fill
  fill-ok keep p {dir} h =
      let (_, _, h1) = >>=-eq-ok (guard io.can_make_dir no_directory) _ h in
      let ((d, m), placed, h2) = >>=-eq-ok (place io keep [] []) _ h1 in
      let (packages, entries) = place-ok keep [] [] placed in ground (arith, h2, packages, entries)

  move_aside-out :
      (dir : Dir) (out old : Option Dir)
      → (let r = move_aside io dir (record { out = out; old = old }) in
          ((r.0 ≡ ok tt) × (r.1.out ≡ some dir))
          ⊎ ((r.0 ≢ ok tt) × IsUnharmed (record { out = out; old = old }) r.1))
  unfolding move_aside move_in
  move_aside-out dir none old = elim (Bool-cases io.can_move_in) [
    | inl y ↦ inl (ground (arith, y), ground (arith, y))
    | inr n ↦ inr (ground (arith, n), inl (ground (arith, n)))
  ]
  move_aside-out dir (some d) old = elim (Bool-cases io.can_move_aside) [
    | inl aside ↦ elim (Bool-cases io.can_move_in) [
      | inl y ↦ inl (ground (arith, aside, y), ground (arith, aside, y))
      | inr n ↦ elim (Bool-cases io.can_move_back) [
        | inl back ↦ inr (ground (arith, aside, n), inl (ground (arith, aside, n, back)))
        | inr lost ↦ inr (
          ground (arith, aside, n),
          inr (ground (arith, aside, n, lost), ground (arith, aside, n, lost)),
        )
      ]
    ]
    | inr stuck ↦ inr (ground (arith, stuck), inl (ground (arith, stuck)))
  ]

  swap-out :
      (dir : Dir) (out old : Option Dir)
      → (let r = swap io dir (record { out = out; old = old }) in
          ((r.0 ≡ ok tt) × (r.1.out ≡ some dir))
          ⊎ ((r.0 ≢ ok tt) × IsUnharmed (record { out = out; old = old }) r.1))
  unfolding swap
  swap-out dir out none = move_aside-out dir out none
  swap-out dir out (some o) = elim (Bool-cases io.can_remove_old) [
    | inl gone ↦ rw (gone) (move_aside-out dir out none)
    | inr stuck ↦ inr (ground (arith, stuck), inl (ground (arith, stuck)))
  ]

  -- Publishing either succeeds, and the final directory holds the whole set: every package, with a
  -- manifest of their hashes, the configuration, the build information and the log. Or it fails, and
  -- the earlier set is where it was or, with nothing in the final directory, where it was moved aside.
  pub publish-keeps :
      (keep : Dir) (papers : Papers) (out old : Option Dir)
      → (let r = publish io keep papers (record { out = out; old = old }) in
          ((r.0 ≡ ok tt) × (r.1.out ≡ some (whole_set io keep papers)))
          ⊎ ((r.0 ≢ ok tt) × IsUnharmed (record { out = out; old = old }) r.1))
  unfolding publish
  publish-keeps keep papers out old = elim (result-cases (fill io keep papers)) [
    | inl (dir, filled) ↦ elim (swap-out dir out old) [
      | inl (done, there) ↦
          rw (filled, publish) (inl (done, there ∙ ap (λ d. some d) (fill-ok keep papers filled)))
      | inr (stopped, unharmed) ↦ rw (filled, publish) (inr (stopped, unharmed))
    ]
    | inr (e, failed) ↦ inr (ground (arith, failed), inl (ground (arith, failed)))
  ]
