-- ===== src/Build/Publish/Content.antt =====
-- What the files of a published set hold, and that its manifest has their hashes, in src/build.rs.
use Prim.Native.Nat.{Ordering}
use kernel_pop.Prelude.{
  ℕ, false, Option, none, some, map_option, List, [], ◌∷◌, ◌≡◌, ◌≢◌, refl, sym, ap, ◌∙◌, arith, All,
  ◌⊎◌, All-map, if◌then◌else◌, Bool-cases, inl, inr, rev_onto,
}
use mathlib.Core.Path.{subst}
use kernel_pop.Text.{Text, text_eq, text_eq_sound, text_eq_refl}
use kernel_pop.System.Versions.{lex}
use kernel_pop.System.Versions.Order.{lex-eq, lex_lt_trans}
use kernel_pop.Build.Manifest.{Manifest, insert}
use kernel_pop.Build.Manifest.RoundTrip.{Rises}
use kernel_pop.Build.Manifest.Safe.{lex-cases, less, equal, greater, All-insert, Rises-insert}
use kernel_pop.Build.Publish.{Dir}
use kernel_pop.Build.Publish.Swap.{manifest_of}

-- what a file of the directory holds
unfoldable pub content_of : Text → Dir → Option (List ℕ)
unfolding text_eq
content_of name [] = none
content_of name ((n, bytes) ∷ dir) = if text_eq name n then some bytes else content_of name dir

module _ (sha256 : List ℕ → Text) where
  -- the file of that name has that hash
  abbrev pub HasHash : Dir → Text × Text → Type 0
  HasHash dir (name, hash) = map_option sha256 (content_of name dir) ≡ some hash

  lex_self : (a : Text) → lex a a ≡ Ordering.eq
  unfolding lex
  lex_self [] = refl
  lex_self (c ∷ t) = ground (arith, lex_self t)

  other_name : (a b : Text) → lex a b ≢ Ordering.eq → text_eq b a ≡ false
  other_name a b differ = elim (Bool-cases (text_eq b a)) [
    | inr other ↦ other
    | inl same ↦ absurd (differ (ap (lex a) (text_eq_sound b a same) ∙ lex_self a))
  ]

  HasHash-skip :
      (name : Text) (bytes : List ℕ) (dir : Dir) (e : Text × Text)
      → text_eq e.0 name ≡ false
      → HasHash dir e
      → HasHash ((name, bytes) ∷ dir) e
  unfolding content_of
  HasHash-skip name bytes dir (n, h) differ there = rw differ there

  All-HasHash-skip :
      (name : Text) (bytes : List ℕ) (dir : Dir) (m : Manifest)
      → All (λ e. lex name e.0 ≡ Ordering.lt) m
      → All (HasHash dir) m
      → All (HasHash ((name, bytes) ∷ dir)) m
  All-HasHash-skip name bytes dir [] above h = tt
  All-HasHash-skip name bytes dir ((n, x) ∷ m) (less_than, above) (there, h) = (
    HasHash-skip name bytes dir (n, x) (other_name name n (λ same. cc)) there,
    All-HasHash-skip name bytes dir m above h,
  )

  HasHash-first :
      (name : Text) (bytes : List ℕ) (dir : Dir)
      → HasHash ((name, bytes) ∷ dir) (name, sha256 bytes)
  unfolding content_of
  HasHash-first name bytes dir = rw (text_eq_refl name) refl

  All-HasHash-insert :
      (name : Text) (bytes : List ℕ) (dir : Dir) (m : Manifest)
      → Rises m
      → All (HasHash dir) m
      → All (HasHash ((name, bytes) ∷ dir)) (insert name (sha256 bytes) m)
  unfolding insert
  All-HasHash-insert name bytes dir [] r h = (HasHash-first name bytes dir, tt)
  All-HasHash-insert name bytes dir ((n, x) ∷ m) (above, r) (there, h) = elim (lex-cases name n) [
    | less e ↦
        let all_above = All-map _ _ m (λ k. lex_lt_trans name n k.0 e) above in
        rw (e, All)
          (
            HasHash-first name bytes dir,
            All-HasHash-skip name bytes dir ((n, x) ∷ m) (e, all_above) (there, h),
          )
    | equal e ↦
        let same = lex-eq name n e in
        rw (e, All)
          (
            subst (λ t. HasHash ((name, bytes) ∷ dir) (t, sha256 bytes)) same
                (HasHash-first name bytes dir),
            All-HasHash-skip name bytes dir m
                (subst (λ t. All (λ k. lex t k.0 ≡ Ordering.lt) m) (sym same) above) h,
          )
    | greater e ↦
        rw (e, All)
          (
            HasHash-skip name bytes dir (n, x) (other_name name n (λ same. cc)) there,
            All-HasHash-insert name bytes dir m r h,
          )
  ]

  -- The manifest of a set has, for each package, the hash of the file that the set holds.
  pub manifest_of-HasHash :
      (packages dir : Dir) (m : Manifest)
      → Rises m
      → All (HasHash dir) m
      → All (HasHash (rev_onto packages dir)) (manifest_of sha256 packages m)
        × Rises (manifest_of sha256 packages m)
  unfolding manifest_of
  manifest_of-HasHash [] dir m r h = (h, r)
  manifest_of-HasHash ((name, bytes) ∷ packages) dir m r h =
      manifest_of-HasHash packages ((name, bytes) ∷ dir) (insert name (sha256 bytes) m)
        (Rises-insert name (sha256 bytes) m r) (All-HasHash-insert name bytes dir m r h)

  -- What holds of the entry of each package holds of the whole manifest.
  pub All-manifest_of :
      (P : Text × Text → Type 0) (packages : Dir) (m : Manifest)
      → All (λ (name, bytes). P (name, sha256 bytes)) packages
      → ((n h : Text) (bytes : List ℕ) → P (n, h) → P (n, sha256 bytes))
      → All P m
      → All P (manifest_of sha256 packages m)
  unfolding manifest_of
  All-manifest_of P [] m ps rehash h = h
  All-manifest_of P ((name, bytes) ∷ packages) m (p, ps) rehash h =
      All-manifest_of P packages (insert name (sha256 bytes) m) ps rehash
        (All-insert P name (sha256 bytes) m (λ n x q. rehash n x bytes q) p h)

  insert-ne-nil : (name hash : Text) (m : Manifest) → insert name hash m ≢ []
  unfolding insert
  insert-ne-nil name hash [] = λ nil. cc
  insert-ne-nil name hash ((n, x) ∷ m) = elim (lex-cases name n) [
    | less e ↦ rw (e, insert) (λ nil. cc)
    | equal e ↦ rw (e, insert) (λ nil. cc)
    | greater e ↦ rw (e, insert) (λ nil. cc)
  ]

  pub manifest_of-ne-nil :
      (packages : Dir) (m : Manifest)
      → (packages ≢ []) ⊎ (m ≢ [])
      → manifest_of sha256 packages m ≢ []
  unfolding manifest_of
  manifest_of-ne-nil [] m (inl some_package) = absurd (some_package refl)
  manifest_of-ne-nil [] m (inr some_entry) = some_entry
  manifest_of-ne-nil ((name, bytes) ∷ packages) m _ =
      manifest_of-ne-nil packages (insert name (sha256 bytes) m)
        (inr (insert-ne-nil name (sha256 bytes) m))
