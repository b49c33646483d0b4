-- ===== src/Build/Run/Cleaned.antt =====
-- What a build in src/build.rs leaves in the build root.
use kernel_pop.Prelude.{
  Bool, true, false, not, ◌&&◌, List, [], ◌∷◌, ◌≡◌, refl, ◌≢◌, All, Elem, inl, inr, Bool-cases, ap,
  sym, ◌∙◌,
}
use kernel_pop.Build.Run.{
  RootEntry, is_output, remove_package_outputs, Root, BuildEnd, built, cancelled, failed, clean_up,
}

-- an output that can be removed
abbrev pub is_removable : RootEntry → Bool
is_removable e = is_output e.name && (e.is_file && e.can_remove)

keep-removable :
    (es : List RootEntry) → All (λ e. is_removable e ≡ false) (remove_package_outputs es)
unfolding remove_package_outputs
keep-removable [] = tt
keep-removable (e ∷ es) = elim (Bool-cases (is_removable e)) [
  | inl h ↦ rw h (keep-removable es)
  | inr h ↦ rw h (h, keep-removable es)
]

Elem-kept :
    (e : RootEntry) (es : List RootEntry)
    → is_removable e ≡ false
    → Elem e es
    → Elem e (remove_package_outputs es)
unfolding remove_package_outputs
Elem-kept e [] h m = elim m [ ]
Elem-kept e (f ∷ fs) h (inl same) = rw (sym (ap is_removable same) ∙ h) (inl same)
Elem-kept e (f ∷ fs) h (inr m) = elim (Bool-cases (is_removable f)) [
  | inl g ↦ rw g (Elem-kept e fs h m)
  | inr g ↦ rw g (inr (Elem-kept e fs h m))
]

-- A build that fails or is cancelled leaves no package, buildinfo or changes file that it could remove,
-- removes nothing else from the build root, keeps the tree with its log after a failure, and removes
-- it after a cancel if it can be removed.
pub clean_up-removable :
    (can_clear : Bool) (end : BuildEnd) (r : Root)
    → end ≢ built
    → let left = clean_up can_clear end r in
      All (λ e. is_removable e ≡ false) left.entries
      × ((e : RootEntry) → is_removable e ≡ false → Elem e r.entries → Elem e left.entries)
      × (end ≡ cancelled → can_clear ≡ true → left.has_tree ≡ false)
      × (end ≢ cancelled → left.has_tree ≡ r.has_tree)
unfolding clean_up
clean_up-removable can_clear built r other = absurd (other refl)
clean_up-removable can_clear cancelled r other = (
  keep-removable r.entries,
  (λ e h m. Elem-kept e r.entries h m),
  (λ e clear. gone r.has_tree can_clear clear),
  (λ n. absurd (n refl)),
)
  where
    gone : (tree b : Bool) → b ≡ true → (tree && not b) ≡ false
    gone true b h = ap not h
    gone false b h = refl
clean_up-removable can_clear (failed why) r other =
    (keep-removable r.entries, (λ e h m. Elem-kept e r.entries h m), (λ e clear. cc), λ n. refl)
