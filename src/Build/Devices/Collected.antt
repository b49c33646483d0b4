-- ===== src/Build/Devices/Collected.antt =====
-- What `collect_modaliases` of src/build.rs collects: it ends on any file system, also one whose
-- directories form a cycle, with every alias down to the limit of the depth.
use kernel_pop.Prelude.{
  ℕ, zero, suc, ◌+◌, true, false, Option, none, some, List, [], ◌∷◌, ◌≡◌, ◌≢◌, refl, sym, ◌∙◌,
  arith, ◌↔◌, ◌⊎◌, inl, inr, Elem, Option-cases, ltb,
}
use mathlib.Core.Path.{subst}
use mathlib.Core.Option.{some-injective, none-ne-some}
use kernel_pop.Text.{Text}
use kernel_pop.Source.Tarball.{FilePath}
use kernel_pop.Build.Devices.Files.{Adds, HoldsAlias, see_file-Adds}
use kernel_pop.Build.Devices.{
  Sys, DirEntry, FileKind, symlink, directory, file, join_name, see_file, see_entry, see_entries,
  collect_modaliases,
}

link_ne_file : some symlink ≢ some file
link_ne_file e = cc

link_ne_dir : some symlink ≢ some directory
link_ne_dir e = cc

dir_ne_file : some directory ≢ some file
dir_ne_file e = cc

module _ (sys : Sys) where
  abbrev IsFile : FilePath → DirEntry → Text → Type 0
  IsFile dir e t = (e.kind ≡ some file) × HoldsAlias sys dir e.name t

  -- in an entry: the file, or what `F` says of a directory
  abbrev InEntry : (FilePath → Text → Type 0) → FilePath → DirEntry → Text → Type 0
  InEntry F dir e t = IsFile dir e t ⊎ ((e.kind ≡ some directory) × F (join_name dir e.name) t)

  abbrev InEntries : (FilePath → Text → Type 0) → FilePath → List DirEntry → Text → Type 0
  InEntries F dir es t = (e : DirEntry) × Elem e es × InEntry F dir e t

  -- An alias at most so many levels of directories below. Links are not followed.
  abbrev pub IsAlias : ℕ → FilePath → Text → Type 0
  IsAlias zero dir t = ⊥
  IsAlias (suc n) dir t =
      (es : List DirEntry) × (sys.read_dir dir ≡ some es) × InEntries (IsAlias n) dir es t

  abbrev Gives : (Text → Type 0) → List Text → Option (List Text) → Type 0
  Gives F out r = (l : List Text) × (r ≡ some l) × Adds F out l

  module _ (F : FilePath → Text → Type 0) (enter : FilePath → List Text → Option (List Text))
      (gives : (d : FilePath) (o : List Text) → Gives (F d) o (enter d o)) where
    see_entry-Gives :
        (dir : FilePath) (e : DirEntry) (out : List Text)
        → Gives (InEntry F dir e) out (see_entry enter sys dir e out)
    unfolding see_entry
    see_entry-Gives dir e out = of_kind e.kind refl
      where
        of_kind :
            (k : Option FileKind)
            → e.kind ≡ k
            → Gives (InEntry F dir e) out (see_entry enter sys dir e out)
        of_kind none is = (
          out,
          rw is refl,
          λ t. (
            (λ f. inl f),
            (λ f. elim f [
              | inl old ↦ old
              | inr (inl (is_file, _)) ↦ absurd (none-ne-some file (sym is ∙ is_file))
              | inr (inr (is_dir, _)) ↦ absurd (none-ne-some directory (sym is ∙ is_dir))
            ]),
          ),
        )
        of_kind (some symlink) is = (
          out,
          rw is refl,
          λ t. (
            (λ f. inl f),
            (λ f. elim f [
              | inl old ↦ old
              | inr (inl (is_file, _)) ↦ absurd (link_ne_file (sym is ∙ is_file))
              | inr (inr (is_dir, _)) ↦ absurd (link_ne_dir (sym is ∙ is_dir))
            ]),
          ),
        )
        of_kind (some directory) is =
            let (l, entered, adds) = gives (join_name dir e.name) out in
            (
              l,
              rw is entered,
              λ t. (
                (λ f. elim ((adds t).0 f) [ inl old ↦ inl old | inr new ↦ inr (inr (is, new)) ]),
                (λ f. elim f [
                  | inl old ↦ (adds t).1 (inl old)
                  | inr (inl (is_file, _)) ↦ absurd (dir_ne_file (sym is ∙ is_file))
                  | inr (inr (_, new)) ↦ (adds t).1 (inr new)
                ]),
              ),
            )
        of_kind (some file) is =
            let adds = see_file-Adds sys dir e.name out in
            (
              see_file sys dir e.name out,
              rw is refl,
              λ t. (
                (λ f. elim ((adds t).0 f) [ inl old ↦ inl old | inr new ↦ inr (inl (is, new)) ]),
                (λ f. elim f [
                  | inl old ↦ (adds t).1 (inl old)
                  | inr (inl (_, new)) ↦ (adds t).1 (inr new)
                  | inr (inr (is_dir, _)) ↦ absurd (dir_ne_file (sym is_dir ∙ is))
                ]),
              ),
            )

    see_entries-Gives :
        (dir : FilePath) (es : List DirEntry) (out : List Text)
        → Gives (InEntries F dir es) out (see_entries enter sys dir es out)
    unfolding see_entries
    see_entries-Gives dir [] out =
        (out, refl, λ t. ((λ e. inl e), (λ f. elim f [ inl e ↦ e | inr (_, at, _) ↦ elim at [ ] ])))
    see_entries-Gives dir (e ∷ es) out =
        let (mid, first, adds) = see_entry-Gives dir e out in
        let (l, rest, more) = see_entries-Gives dir es mid in
        (
          l,
          rw (first, see_entries) rest,
          λ t. (
            (λ f. elim ((more t).0 f) [
              | inl early ↦ elim ((adds t).0 early) [
                | inl old ↦ inl old
                | inr this ↦ inr (e, inl refl, this)
              ]
              | inr (g, at, in_g) ↦ inr (g, inr at, in_g)
            ]),
            (λ f. elim f [
              | inl old ↦ (more t).1 (inl ((adds t).1 (inl old)))
              | inr (g, inl same, in_g) ↦
                  (more t).1 (inl ((adds t).1 (inr (subst (λ h. InEntry F dir h t) same in_g))))
              | inr (g, inr at, in_g) ↦ (more t).1 (inr (g, at, in_g))
            ]),
          ),
        )

  collect-Gives :
      (n depth : ℕ) (dir : FilePath) (out : List Text)
      → n + depth ≡ 25
      → Gives (IsAlias n dir) out (collect_modaliases (suc n) sys dir out depth)
  unfolding collect_modaliases
  collect-Gives zero depth dir out e =
      let deep : ltb 24 depth ≡ true = ground arith in
      rw deep
        (out, refl, λ t. ((λ f. inl f), λ f. elim f [ inl old ↦ old | inr new ↦ elim new [ ] ]))
  collect-Gives (suc n) depth dir out e =
      let shallow : ltb 24 depth ≡ false = ground arith in
      let enter =
        λ (d : FilePath) (o : List Text). collect_modaliases (suc n) sys d o (depth + 1) in
      let gives = λ (d : FilePath) (o : List Text). collect-Gives n (depth + 1) d o (omega arith) in
      elim (Option-cases (sys.read_dir dir)) [
        | inl unread ↦
            rw (shallow, unread)
              (
                out,
                refl,
                λ t. (
                  (λ f. inl f),
                  (λ f. elim f [
                    | inl old ↦ old
                    | inr (es, there, _) ↦ absurd (none-ne-some es there)
                  ]),
                ),
              )
        | inr (es, there) ↦
            let (l, is, adds) = see_entries-Gives (IsAlias n) enter gives dir es out in
            (
              l,
              rw (shallow, there) is,
              λ t. (
                (λ f. elim ((adds t).0 f) [ inl old ↦ inl old | inr new ↦ inr (es, there, new) ]),
                (λ f. elim f [
                  | inl old ↦ (adds t).1 (inl old)
                  | inr (fs, also, new) ↦
                      let same = some-injective fs es (sym also ∙ there) in
                      (adds t).1 (inr (subst (λ l. InEntries (IsAlias n) dir l t) same new))
                ]),
              ),
            )
      ]

  -- On any file system, also one whose directories contain one another, 26 rounds are enough: the
  -- search ends, and its result has exactly the aliases that stand in a "modalias" file reached from
  -- the root through at most 24 directories, each once it is stripped of blanks and not empty.
  pub collect_modaliases-IsAlias :
      (dir : FilePath)
      → (l : List Text) × (collect_modaliases 26 sys dir [] 0 ≡ some l)
        × ((t : Text) → Elem t l ↔ IsAlias 25 dir t)
  collect_modaliases-IsAlias dir =
      let (l, is, adds) = collect-Gives 25 0 dir [] (omega arith) in
      (
        l,
        is,
        λ t. (
          (λ f. elim ((adds t).0 f) [ inl none_yet ↦ elim none_yet [ ] | inr new ↦ new ]),
          (λ new. (adds t).1 (inr new)),
        ),
      )
