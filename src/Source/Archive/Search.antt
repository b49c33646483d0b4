-- ===== src/Source/Archive/Search.antt =====
-- The results of `find_makefile` in src/source.rs.
use kernel_pop.Prelude.{
  true, Option, none, some, [], ◌∷◌, ◌&&◌, if◌then◌else◌, List, Result, ok, ◌≡◌, ◌⊎◌, inl, inr,
  arith, refl, Bool-cases, &&_both, context, >>=-eq-ok, Bool, false, ◌≢◌, sym, ap, ◌∙◌,
}
use mathlib.Core.Path.{subst}
use kernel_pop.Text.{Text, codes, text_eq, text_eq_sound}
use kernel_pop.Source.Archive.{
  Component, Entry, ArchiveError, find_makefile_from, find_makefile, visit_entry, visit,
  plain_parts, is_pax, same_top, is_makefile, is_file, makefile_text, unreadable_name,
}

-- a regular file <top>/Makefile that holds `text`
pub record IsTopMakefile (top text : Text) (e : Entry) : Type 0 where
  pub file : is_file e.kind ≡ true
  pub parts : List Component
  pub path : e.path ≡ some parts
  pub names : plain_parts parts ≡ ok (top ∷ codes "Makefile" ∷ [])
  pub content : e.text ≡ some text

-- a member that may stand before it: a pax header, the archive's own ".", or something under `top` that
-- is not a regular file <top>/Makefile
abbrev pub IsUnder : Text → Entry → Type 0
IsUnder top e =
    (is_pax e.kind ≡ true)
    ⊎ ((cs : List Component) × (e.path ≡ some cs)
        × ((plain_parts cs ≡ ok [])
            ⊎ ((ps : List Text) × (plain_parts cs ≡ ok (top ∷ ps))
                × ((is_file e.kind ≡ false) ⊎ (ps ≢ codes "Makefile" ∷ [])))))

abbrev pub Reads : Text → Text → List (Option Entry) → Type 0
Reads top text [] = ⊥
Reads top text (none ∷ es) = ⊥
Reads top text (some e ∷ es) = IsTopMakefile top text e ⊎ IsUnder top e × Reads top text es

-- the directory seen so far does not contradict `top`
abbrev Agrees : Option Text → Text → Type 0
Agrees t top = (t ≡ none) ⊎ (t ≡ some top)

same_top-eq : (top : Option Text) (first : Text) {t : Text} → same_top top first ≡ ok t → t ≡ first
unfolding same_top
same_top-eq none first h = ground arith
same_top-eq (some u) first {t} h = ground (arith, text_eq_sound u first)

same_top-Agrees :
    (top : Option Text) (first : Text) {t : Text} → same_top top first ≡ ok t → Agrees top first
unfolding same_top
same_top-Agrees none first h = inl refl
same_top-Agrees (some u) first {t} h = inr (ground (arith, text_eq_sound u first))

makefile_text-eq :
    (first : Text) (o : Option Text) {top text : Text}
    → makefile_text first o ≡ ok (top, text)
    → (first ≡ top) × (o ≡ some text)
makefile_text-eq first none h = cc
makefile_text-eq first (some x) h = ground arith

some-Agrees : (t top : Text) → Agrees (some t) top → t ≡ top
some-Agrees t top (inl e) = cc
some-Agrees t top (inr e) = ground arith

is_makefile-eq :
    (ps : List Text) → is_makefile ps ≡ true → (a : Text) × (ps ≡ a ∷ codes "Makefile" ∷ [])
is_makefile-eq [] h = cc
is_makefile-eq (a ∷ []) h = cc
is_makefile-eq (a ∷ b ∷ []) h = (a, rw (text_eq_sound b (codes "Makefile") h))
is_makefile-eq (a ∷ b ∷ c ∷ ps) h = cc

not_hit :
    (file : Bool) (first : Text) (ps : List Text)
    → (is_makefile (first ∷ ps) && file) ≡ false
    → (file ≡ false) ⊎ (ps ≢ codes "Makefile" ∷ [])
unfolding text_eq
not_hit false first ps h = inl refl
not_hit true first ps h = inr λ same. cc (sym h ∙ ap (λ qs. is_makefile (first ∷ qs) && true) same)

module _ (top text : Text) (e : Entry) (rest : Option Text → Result ArchiveError (Text × Text))
    (Rest : Type 0) (ih : (t : Option Text) → rest t ≡ ok (top, text) → Rest × Agrees t top) where
  abbrev Claim : Option Text → Type 0
  Claim t = (IsTopMakefile top text e ⊎ IsUnder top e × Rest) × Agrees t top

  -- the member names something under `first`
  at_first :
      (t : Option Text) (cs : List Component) (first : Text) (ps : List Text)
      → e.path ≡ some cs
      → plain_parts cs ≡ ok (first ∷ ps)
      → Agrees t first
      → (if is_makefile (first ∷ ps) && is_file e.kind
          then makefile_text first e.text
          else rest (some first))
        ≡ ok (top, text)
      → Claim t
  at_first t cs first ps path names agrees h =
      elim (Bool-cases (is_makefile (first ∷ ps) && is_file e.kind)) [
        | inl hit ↦
            let (m, f) = &&_both (is_makefile (first ∷ ps)) (is_file e.kind) hit in
            let (a, shape) = is_makefile-eq (first ∷ ps) m in
            let (same, content) = makefile_text-eq first e.text (rw hit at h) in
            (
              inl (record { file = f; parts = cs; path = path; names = cc; content = content }),
              subst (Agrees t) same agrees,
            )
        | inr miss ↦
            let (found, agree) = ih (some first) (rw miss at h) in
            let same = some-Agrees first top agree in
            (
              inr (inr (cs, path, inr (ps, cc, not_hit (is_file e.kind) first ps miss)), found),
              subst (Agrees t) same agrees,
            )
      ]

  visit-Claim :
      (t : Option Text) (cs : List Component) (ps : List Text)
      → e.path ≡ some cs
      → plain_parts cs ≡ ok ps
      → visit t e.kind e.text ps rest ≡ ok (top, text)
      → Claim t
  unfolding visit
  visit-Claim t cs [] path names h =
      let (found, agree) = ih t h in (inr (inr (cs, path, inl names), found), agree)
  visit-Claim t cs (first ∷ ps) path names h =
      let (u, seen, k) =
        >>=-eq-ok (same_top t first)
          (λ u.
            if is_makefile (first ∷ ps) && is_file e.kind
            then makefile_text first e.text
            else rest (some u))
          h in
      let same = same_top-eq t first seen in
      at_first t cs first ps path names (same_top-Agrees t first seen) (rw same at k)

  visit_entry-Claim : (t : Option Text) → visit_entry t e rest ≡ ok (top, text) → Claim t
  unfolding visit_entry
  visit_entry-Claim t h = elim (Bool-cases (is_pax e.kind)) [
    | inl pax ↦ let (found, agree) = ih t (rw pax at h) in (inr (inl pax, found), agree)
    | inr plain ↦
        let (cs, path, k) = >>=-eq-ok (context unreadable_name e.path) _ (rw plain at h) in
        let (ps, names, l) = >>=-eq-ok (plain_parts cs) _ k in
        visit-Claim t cs ps (ground arith) names l
  ]

find_makefile_from-Reads :
    (top text : Text) (t : Option Text) (es : List (Option Entry))
    → find_makefile_from t es ≡ ok (top, text)
    → Reads top text es × Agrees t top
unfolding find_makefile_from
find_makefile_from-Reads top text t [] h = cc
find_makefile_from-Reads top text t (none ∷ es) h = cc
find_makefile_from-Reads top text t (some e ∷ es) h =
    visit_entry-Claim top text e (λ u. find_makefile_from u es) (Reads top text es)
      (λ u k. find_makefile_from-Reads top text u es k) t h

-- What `find_makefile` returns is the directory and the content of a regular file <top>/Makefile, and
-- every entry before it is undamaged and a pax header, the archive's own ".", or under that same
-- directory and not such a file: it is the first one.
pub find_makefile-Reads :
    (es : List (Option Entry)) {top text : Text}
    → find_makefile es ≡ ok (top, text)
    → Reads top text es
unfolding find_makefile
find_makefile-Reads es {top} {text} h = (find_makefile_from-Reads top text none es h).0
