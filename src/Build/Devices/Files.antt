-- ===== src/Build/Devices/Files.antt =====
-- The files that `collect_modaliases` of src/build.rs reads, and what they add.
use kernel_pop.Prelude.{
  some, List, [], ◌∷◌, ◌≡◌, ◌≢◌, refl, sym, ap, ◌∙◌, ◌↔◌, ◌⊎◌, inl, inr, Elem, Bool-cases,
  Option-cases,
}
use mathlib.Core.Bool.{false≢true}
use mathlib.Core.Option.{some-injective, none-ne-some}
use kernel_pop.Text.{Text, codes, text_eq, text_eq_sound, text_eq_refl, trim}
use kernel_pop.System.Versions.Order.{lex-eq}
use kernel_pop.Build.Manifest.Safe.{lex-cases, less, equal, greater}
use kernel_pop.Source.Tarball.{FilePath}
use kernel_pop.Build.Devices.{Sys, join_name, add, add_some, see_file}

-- the elements of a list, and those with the property `F` besides
abbrev pub Adds : (Text → Type 0) → List Text → List Text → Type 0
Adds F out l = (t : Text) → Elem t l ↔ (Elem t out ⊎ F t)

Elem-add : (u : Text) (us : List Text) → Adds (λ t. t ≡ u) us (add u us)
unfolding add
Elem-add u [] t = (
  (λ e. elim e [ inl same ↦ inr same | inr far ↦ inl far ]),
  (λ e. elim e [ inl far ↦ inr far | inr same ↦ inl same ]),
)
Elem-add u (v ∷ us) t = elim (lex-cases u v) [
  | less e ↦
      rw (e, add)
        (
          (λ f. elim f [ inl same ↦ inr same | inr far ↦ inl far ]),
          (λ f. elim f [ inl far ↦ inr far | inr same ↦ inl same ]),
        )
  | equal e ↦
      rw (e, add)
        ((λ f. inl f), (λ f. elim f [ inl far ↦ far | inr same ↦ inl (same ∙ lex-eq u v e) ]))
  | greater e ↦
      let (there, back) = Elem-add u us t in
      rw (e, add)
        (
          (λ f. elim f [
            | inl same ↦ inl (inl same)
            | inr far ↦ elim (there far) [ inl old ↦ inl (inr old) | inr new ↦ inr new ]
          ]),
          (λ f. elim f [
            | inl (inl same) ↦ inl same
            | inl (inr old) ↦ inr (back (inl old))
            | inr new ↦ inr (back (inr new))
          ]),
        )
]

module _ (sys : Sys) where
  -- a "modalias" file, and its content without blanks
  abbrev pub HoldsAlias : FilePath → Text → Text → Type 0
  HoldsAlias dir name t =
      (name ≡ codes "modalias")
      × ((a : Text) × (sys.read (join_name dir name) ≡ some a) × (trim a ≡ t))
      × (t ≢ [])

  add_some-Adds : (a : Text) (out : List Text) → Adds (λ t. (a ≡ t) × (t ≢ [])) out (add_some a out)
  unfolding text_eq
  add_some-Adds a out t = elim (Bool-cases (text_eq a [])) [
    | inl empty ↦ rw empty (
      (λ e. inl e),
      (λ f. elim f [
        | inl e ↦ e
        | inr (same, some_text) ↦ absurd (some_text (sym same ∙ text_eq_sound a [] empty))
      ]),
    )
    | inr full ↦
        let (there, back) = Elem-add a out t in
        let some_text : a ≢ [] = λ e. false≢true (sym full ∙ ap (λ u. text_eq u []) e) in
        rw full (
          (λ e. elim (there e) [
            | inl old ↦ inl old
            | inr same ↦ inr (sym same, λ nil. some_text (sym same ∙ nil))
          ]),
          (λ f. elim f [ inl old ↦ back (inl old) | inr (same, _) ↦ back (inr (sym same)) ]),
        )
  ]

  pub see_file-Adds :
      (dir : FilePath) (name : Text) (out : List Text)
      → Adds (HoldsAlias dir name) out (see_file sys dir name out)
  unfolding see_file
  see_file-Adds dir name out t = elim (Bool-cases (text_eq name (codes "modalias"))) [
    | inr other ↦ rw other (
      (λ e. inl e),
      (λ f. elim f [
        | inl e ↦ e
        | inr (named, _, _) ↦ absurd (
            false≢true (
              sym other
              ∙ ap (λ n. text_eq n (codes "modalias")) named
              ∙ text_eq_refl (codes "modalias")))
      ]),
    )
    | inl same ↦
        let named = text_eq_sound name (codes "modalias") same in
        elim (Option-cases (sys.read (join_name dir name))) [
          | inl unread ↦
              rw (same, unread)
                (
                  (λ e. inl e),
                  (λ f. elim f [
                    | inl e ↦ e
                    | inr (_, (a, there, _), _) ↦ absurd (none-ne-some a there)
                  ]),
                )
          | inr (a, there) ↦
              let (into, from) = add_some-Adds (trim a) out t in
              rw (same, there)
                (
                  (λ e. elim (into e) [
                    | inl old ↦ inl old
                    | inr (is, full) ↦ inr (named, (a, refl, is), full)
                  ]),
                  (λ f. elim f [
                    | inl old ↦ from (inl old)
                    | inr (_, (b, also, is), full) ↦
                        let is_b : a ≡ b = some-injective a b also in
                        from (inr (ap trim is_b ∙ is, full))
                  ]),
                )
        ]
  ]
