-- ===== src/Releases/Listed.antt =====
-- The results of `parse_releases` in src/kernelorg.rs.
use kernel_pop.Prelude.{
  true, Option, none, some, [], ◌∷◌, List, ok, filter_map, Option-cases, ◌≡◌, ◌≢◌, refl, arith, ◌∙◌,
  sym, ap, ◌⊎◌, inl, inr, Bool-cases, Elem, or_default,
}
use mathlib.Core.Path.{subst}
use kernel_pop.Text.{Text, codes, text_eq, text_eq_sound, starts_with}
use kernel_pop.Releases.{
  Moniker, mainline, stable, longterm, label, Release, ReleaseJson, moniker_of, https_only,
  release_of, non_empty_list, parse_releases,
}

-- an entry that is listed as a release
pub record IsListed (e : ReleaseJson) (r : Release) : Type 0 where
  pub series : label r.moniker ≡ e.moniker
  pub tarball : e.source ≡ some r.source
  pub safe : starts_with (codes "https://") r.source ≡ true
  pub version : r.version ≡ e.version
  pub signature :
      (r.pgp ≡ none)
      ⊎ ((s : Text) × (r.pgp ≡ some s)
          × (e.pgp ≡ some s)
          × (starts_with (codes "https://") s ≡ true))

moniker_of-label : (m : Moniker) → moniker_of (label m) ≡ some m
unfolding moniker_of label text_eq
moniker_of-label mainline = refl
moniker_of-label stable = refl
moniker_of-label longterm = refl

label-moniker_of : (t : Text) (m : Moniker) → moniker_of t ≡ some m → label m ≡ t
unfolding moniker_of label
label-moniker_of t m h = elim (Bool-cases (text_eq t (codes "mainline"))) [
  | inl a ↦ ground (arith, text_eq_sound t (codes "mainline") a)
  | inr a ↦ elim (Bool-cases (text_eq t (codes "stable"))) [
    | inl b ↦ ground (arith, text_eq_sound t (codes "stable") b)
    | inr b ↦ elim (Bool-cases (text_eq t (codes "longterm"))) [
      | inl c ↦ ground (arith, text_eq_sound t (codes "longterm") c)
      | inr c ↦ ground arith
    ]
  ]
]

https_only-some :
    (o : Option Text) (s : Text)
    → https_only o ≡ some s
    → (o ≡ some s) × (starts_with (codes "https://") s ≡ true)
https_only-some none s h = ground arith
https_only-some (some t) s h = (ground arith, ground arith)

pgp-cases :
    (o : Option Text)
    → (https_only o ≡ none)
      ⊎ ((s : Text) × (https_only o ≡ some s)
          × (o ≡ some s)
          × (starts_with (codes "https://") s ≡ true))
pgp-cases o = elim (Option-cases (https_only o)) [
  | inl gone ↦ inl gone
  | inr (s, is) ↦ let (there, safe) = https_only-some o s is in inr (s, is, there, safe)
]

release_of-IsListed : (e : ReleaseJson) (r : Release) → release_of e ≡ some r → IsListed e r
unfolding release_of
release_of-IsListed e r h = elim (Option-cases (moniker_of e.moniker)) [
  | inl gone ↦ ground (arith, gone)
  | inr (m, is) ↦ elim (Option-cases (https_only e.source)) [
    | inl gone ↦ ground (arith, is, gone)
    | inr (s, url) ↦
        let built : Release = record {
          moniker = m;
          version = e.version;
          is_eol = e.iseol;
          released = or_default [] e.isodate;
          source = s;
          pgp = https_only e.pgp;
        } in
        let same : some built ≡ some r = ground (arith, is, url) in
        let (tarball, safe) = https_only-some e.source s url in
        subst (IsListed e) (ap (or_default built) same) (record {
          series = label-moniker_of e.moniker m is;
          tarball = tarball;
          safe = safe;
          version = refl;
          signature = pgp-cases e.pgp;
        })
  ]
]

-- the entry that a release comes from
abbrev Origin : Release → List ReleaseJson → Type 0
Origin r es = (e : ReleaseJson) × Elem e es × (release_of e ≡ some r)

origin :
    (r : Release) (e : ReleaseJson) (es : List ReleaseJson) (o : Option Release)
    → release_of e ≡ o
    → (Elem r (filter_map release_of es) → Origin r es)
    → Elem r (elim o as (λ _. List Release) [
      | none ↦ filter_map release_of es
      | some s ↦ s ∷ filter_map release_of es
    ])
    → Origin r (e ∷ es)
origin r e es none is earlier at = let (x, later, is') = earlier at in (x, inr later, is')
origin r e es (some s) is earlier (inl same) = (e, inl refl, is ∙ ap (λ x. some x) (sym same))
origin r e es (some s) is earlier (inr at) = let (x, later, is') = earlier at in (x, inr later, is')

Elem-filter_map :
    (r : Release) (es : List ReleaseJson) → Elem r (filter_map release_of es) → Origin r es
unfolding filter_map
Elem-filter_map r [] at = elim at [ ]
Elem-filter_map r (e ∷ es) at = origin r e es (release_of e) refl (Elem-filter_map r es) at

non_empty_list-ok :
    (xs : List Release) {rs : List Release} → non_empty_list xs ≡ ok rs → (xs ≡ rs) × (rs ≢ [])
non_empty_list-ok [] h = ground arith
non_empty_list-ok (x ∷ xs) h = (ground arith, ground arith)

-- A list of releases that is accepted is not empty. Each of its releases stands in the file as
-- mainline, stable or longterm, with the same version, and both its tarball and its signature, where
-- it has one, are the https URLs of the file.
pub parse_releases-IsListed :
    (entries : List ReleaseJson) {rs : List Release}
    → parse_releases (some entries) ≡ ok rs
    → (rs ≢ []) × ((r : Release) → Elem r rs → (e : ReleaseJson) × Elem e entries × IsListed e r)
unfolding parse_releases
parse_releases-IsListed entries {rs} h =
    let (same, some_there) = non_empty_list-ok (filter_map release_of entries) h in
    (
      some_there,
      λ r at.
          let (e, there, is) = Elem-filter_map r entries (subst (Elem r) (sym same) at) in
          (e, there, release_of-IsListed e r is),
    )
