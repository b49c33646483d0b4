-- ===== src/Build/Finish/Ends.antt =====
-- How `build` of src/build.rs ends, and what its ends leave.
use kernel_pop.Prelude.{
  true, false, some, List, Result, ok, err, ok_injective, if_succeeds, ◌≡◌, ◌≢◌, refl, ◌⊎◌, inl,
  inr, Bool-cases, if_either,
}
use kernel_pop.Text.{Text}
use kernel_pop.Build.Sets.{BuiltSet}
use kernel_pop.Build.Request.{Prepared}
use kernel_pop.Build.Configure.{Ran, ended, not_started, cancelled}
use kernel_pop.Build.Run.{PickError, pick_packages}
use kernel_pop.Build.Publish.{Places, PublishError, publish}
use kernel_pop.Build.Publish.Swap.{IsUnharmed, whole_set, publish-keeps}
use kernel_pop.Build.Finish.{
  Site, BuildDisk, BuildError, tree_not_deleted, no_downloads, root_not_listed, no_log, packages_of,
  papers_of, built_set_of, without_moved, after_publish, publish_kept, after_pick, after_make,
  run_build, build, cleaned, end_of,
}

-- what a run of the build that publishes is made of
pub record Published (p : Prepared) (s : Site) (d after : BuildDisk) (set : BuiltSet) : Type 0 where
  pub kept : List (Text × Text)
  pub picked : pick_packages p.summary.kernelrelease s.entries ≡ ok kept
  pub is_set : set ≡ built_set_of p kept
  pub done : (publish s.io (packages_of s kept) (papers_of p s) d.places).0 ≡ ok tt
  pub placed : after.places ≡ (publish s.io (packages_of s kept) (papers_of p s) d.places).1

module _ (p : Prepared) (s : Site) (d : BuildDisk) where
  after_publish-ok :
      (set : BuiltSet) (r : Result PublishError (Unit {0})) (e : BuildDisk) {got : BuiltSet}
      → (after_publish s set r e).0 ≡ ok got
      → (r ≡ ok tt) × (got ≡ set) × ((after_publish s set r e).1.places ≡ e.places)
  after_publish-ok set (err x) e h = cc
  after_publish-ok set (ok done) e h = elim (Bool-cases s.can_clear_tree) [
    | inl y ↦ (refl, ok_injective (rw y at h) refl, rw y refl)
    | inr n ↦ cc (rw n at h)
  ]

  after_pick-ok :
      (r : Result PickError (List (Text × Text))) {got : BuiltSet}
      → (after_pick p s r d).0 ≡ ok got
      → (kept : List (Text × Text)) × (r ≡ ok kept)
        × (got ≡ built_set_of p kept)
        × ((publish s.io (packages_of s kept) (papers_of p s) d.places).0 ≡ ok tt)
        × ((after_pick p s r d).1.places
            ≡ (publish s.io (packages_of s kept) (papers_of p s) d.places).1)
  unfolding publish_kept
  after_pick-ok (err x) h = cc
  after_pick-ok (ok kept) h =
      let published = publish s.io (packages_of s kept) (papers_of p s) d.places in
      let root = without_moved s.io (packages_of s kept) d.root in
      let (h', same) =
        if_succeeds s.can_make_downloads (publish_kept p s kept d) no_downloads d h in
      let (done, is, placed) =
        after_publish-ok (built_set_of p kept) published.0
          (record { root = root; places = published.1 }) h' in
      (kept, refl, is, done, rw same placed)

  after_make-ok :
      (r : Ran) {got : BuiltSet}
      → (after_make p s r d).0 ≡ ok got
      → Published p s d (after_make p s r d).1 got
  after_make-ok not_started h = cc
  after_make-ok cancelled h = cc
  after_make-ok (ended false ls) h = cc
  after_make-ok (ended true ls) h =
      let picked = pick_packages p.summary.kernelrelease s.entries in
      let (h', same) = if_succeeds s.can_list_root (after_pick p s picked d) root_not_listed d h in
      let (kept, is, set, done, placed) = after_pick-ok picked h' in
      rw same (record { kept = kept; picked = is; is_set = set; done = done; placed = placed })

  pub build-ok : {set : BuiltSet} → (build p s d).0 ≡ ok set → Published p s d (build p s d).1 set
  unfolding build run_build
  build-ok {set} h =
      let ran = run_build p s d in
      let whole : Result BuildError BuiltSet × BuildDisk =
        (ran.0, record ran.1 { root = cleaned s (end_of ran.0) ran.1.root }) in
      let (h', same) = if_succeeds s.can_open_log whole no_log d h in
      let made = after_make-ok s.make h' in
      rw same (record {
        kept = made.kept;
        picked = made.picked;
        is_set = made.is_set;
        done = made.done;
        placed = made.placed;
      })

-- The earlier set is unharmed, or the new one is whole and only the tree could not be deleted.
abbrev pub IsKept : Prepared → Site → Places → Places → BuildError → Type 0
IsKept p s before after e =
    IsUnharmed before after
    ⊎ ((e ≡ tree_not_deleted)
        × ((kept : List (Text × Text)) × (pick_packages p.summary.kernelrelease s.entries ≡ ok kept)
            × (after.out ≡ some (whole_set s.io (packages_of s kept) (papers_of p s)))))

abbrev Keeps :
    Prepared → Site → Places → BuildError → Result BuildError BuiltSet × BuildDisk → Type 0
Keeps p s before e r = r.0 ≡ err e → IsKept p s before r.1.places e

after_publish-IsKept :
    (p : Prepared) (s : Site) (before : Places) (kept : List (Text × Text)) (set : BuiltSet)
    (picked : pick_packages p.summary.kernelrelease s.entries ≡ ok kept)
    (r : Result PublishError (Unit {0})) (d : BuildDisk) {e : BuildError}
    → ((r ≡ ok tt) × (d.places.out ≡ some (whole_set s.io (packages_of s kept) (papers_of p s))))
      ⊎ ((r ≢ ok tt) × IsUnharmed before d.places)
    → Keeps p s before e (after_publish s set r d)
after_publish-IsKept p s before kept set picked (err x) d (inl (done, there)) h = cc
after_publish-IsKept p s before kept set picked (err x) d (inr (stopped, unharmed)) h = inl unharmed
after_publish-IsKept p s before kept set picked (ok done) d {e} (inl (_, there)) h =
    if_either s.can_clear_tree (Keeps p s before e) (λ h. cc) (λ h. inr (cc, (kept, picked, there)))
      h
after_publish-IsKept p s before kept set picked (ok done) d (inr (stopped, _)) h =
    absurd (stopped refl)

module _ (p : Prepared) (s : Site) (d : BuildDisk) where
  publish_kept-IsKept :
      (kept : List (Text × Text)) {e : BuildError}
      → pick_packages p.summary.kernelrelease s.entries ≡ ok kept
      → Keeps p s d.places e (publish_kept p s kept d)
  unfolding publish_kept
  publish_kept-IsKept kept picked h =
      let published = publish s.io (packages_of s kept) (papers_of p s) d.places in
      let root = without_moved s.io (packages_of s kept) d.root in
      after_publish-IsKept p s d.places kept (built_set_of p kept) picked published.0
        (record { root = root; places = published.1 })
        (publish-keeps s.io (packages_of s kept) (papers_of p s) d.places.out d.places.old) h

  after_pick-IsKept :
      (r : Result PickError (List (Text × Text))) {e : BuildError}
      → pick_packages p.summary.kernelrelease s.entries ≡ r
      → Keeps p s d.places e (after_pick p s r d)
  after_pick-IsKept (err x) picked h = inl (inl refl)
  after_pick-IsKept (ok kept) {e} picked h =
      if_either s.can_make_downloads (Keeps p s d.places e) (publish_kept-IsKept kept picked)
        (λ _. inl (inl refl)) h

  after_make-IsKept : (r : Ran) {e : BuildError} → Keeps p s d.places e (after_make p s r d)
  after_make-IsKept not_started h = inl (inl refl)
  after_make-IsKept cancelled h = inl (inl refl)
  after_make-IsKept (ended false ls) h = inl (inl refl)
  after_make-IsKept (ended true ls) {e} h =
      let picked = pick_packages p.summary.kernelrelease s.entries in
      if_either s.can_list_root (Keeps p s d.places e) (after_pick-IsKept picked refl)
        (λ _. inl (inl refl)) h

  -- A build that fails or is cancelled, wherever it stops, leaves the set of the final directory where
  -- it was or, with nothing there, where it was moved aside; what stood aside already may be deleted.
  -- The only error behind which the final directory holds the new set is that the tree could not be
  -- deleted, and then that set is whole: all packages that were picked, and the papers.
  pub build-IsKept :
      {e : BuildError} → (build p s d).0 ≡ err e → IsKept p s d.places (build p s d).1.places e
  unfolding build run_build
  build-IsKept {e} h =
      if_either s.can_open_log (Keeps p s d.places e) (after_make-IsKept s.make)
        (λ _. inl (inl refl)) h
