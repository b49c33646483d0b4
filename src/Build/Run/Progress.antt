-- ===== src/Build/Run/Progress.antt =====
-- The progress that a run of make in src/build.rs shows.
use native.Mathlib.Omega.{arith}
use mathlib.Core.Path.{subst}
use native.Mathlib.Nat.{div-le_of_le-mul, div-le_self}
use kernel_pop.Prelude.{
  ℕ, zero, suc, ◌+◌, ◌*◌, ◌/◌, ◌≤◌, ◌<◌, Bool, true, false, not, ◌&&◌, if◌then◌else◌, Option, none,
  some, List, [], ◌∷◌, ◌++◌, ◌≡◌, append-nil, refl, ap, ◌∙◌, ltb, ltb→lt, &&_both, Bool-cases, inl,
  inr,
}
use kernel_pop.Text.{Text}
use kernel_pop.Build.Texts.{is_object_line, is_packaging_line}
use kernel_pop.Build.Run.{
  BuildEvent, stage, line, progress, pack, build, extract, configure, Seen, nothing_seen, min,
  announce, see_packaging, see_object, on_line, on_lines, events_of,
}

-- how often the packaging stage is announced
abbrev pub packaging_count : List BuildEvent → ℕ
packaging_count [] = 0
packaging_count (stage pack ∷ es) = suc (packaging_count es)
packaging_count (stage extract ∷ es) = packaging_count es
packaging_count (stage configure ∷ es) = packaging_count es
packaging_count (stage build ∷ es) = packaging_count es
packaging_count (line l ∷ es) = packaging_count es
packaging_count (progress done total ∷ es) = packaging_count es

packaging_count-append :
    (es fs : List BuildEvent) → packaging_count (es ++ fs) ≡ packaging_count es + packaging_count fs
packaging_count-append [] fs = omega arith
packaging_count-append (stage pack ∷ es) fs = omega (arith, packaging_count-append es fs)
packaging_count-append (stage extract ∷ es) fs = packaging_count-append es fs
packaging_count-append (stage configure ∷ es) fs = packaging_count-append es fs
packaging_count-append (stage build ∷ es) fs = packaging_count-append es fs
packaging_count-append (line l ∷ es) fs = packaging_count-append es fs
packaging_count-append (progress d t ∷ es) fs = packaging_count-append es fs

abbrev one_if : Bool → ℕ
one_if true = 1
one_if false = 0

untrue : (b : Bool) → not b ≡ true → b ≡ false
untrue true h = cc
untrue false h = refl

see_packaging-count :
    (l : Text) (s : Seen)
    → one_if s.packaging + packaging_count (see_packaging l s).1
      ≡ one_if (see_packaging l s).0.packaging
unfolding see_packaging
see_packaging-count l s = by_test (not s.packaging && is_packaging_line l) first
  where
    first : (not s.packaging && is_packaging_line l) ≡ true → s.packaging ≡ false
    first h = untrue s.packaging (&&_both (not s.packaging) (is_packaging_line l) h).0

    by_test :
        (b : Bool)
        → (b ≡ true → s.packaging ≡ false)
        → one_if s.packaging + packaging_count (announce b s).1 ≡ one_if (announce b s).0.packaging
    by_test true f = omega (arith, ap one_if (f refl))
    by_test false f = omega arith

see_object-count :
    (total : ℕ) (s : Seen)
    → (packaging_count (see_object total s).1 ≡ 0)
      × ((see_object total s).0.packaging ≡ s.packaging)
unfolding see_object
see_object-count total s = ground arith

-- the stage is announced when the mark is set
on_line-packaging :
    (objects : Option ℕ) (l : Text) (s : Seen)
    → one_if s.packaging + packaging_count (on_line objects l s).1
      ≡ one_if (on_line objects l s).0.packaging
unfolding on_line
on_line-packaging none l s = see_packaging-count l s
on_line-packaging (some total) l s = elim (Bool-cases (is_object_line l)) [
  | inl h ↦
      let (p, started) = see_packaging l s in
      let (c, same) = see_object-count total p in
      let both = packaging_count-append started (see_object total p).1 in
      rw h (omega (arith, see_packaging-count l s, c, ap one_if same, both))
  | inr h ↦ rw h (see_packaging-count l s)
]

on_lines-packaging :
    (objects : Option ℕ) (ls : List Text) (s : Seen)
    → one_if s.packaging + packaging_count (on_lines objects ls s).1
      ≡ one_if (on_lines objects ls s).0.packaging
unfolding on_lines
on_lines-packaging objects [] s = omega arith
on_lines-packaging objects (l ∷ ls) s =
    let here = on_line-packaging objects l s in
    let later = on_lines-packaging objects ls (on_line objects l s).0 in
    let both =
      packaging_count-append (on_line objects l s).1
        (on_lines objects ls (on_line objects l s).0).1 in
    omega (arith, here, later, both)

-- the percentages of the events that show progress
abbrev pub percents : List BuildEvent → List ℕ
percents [] = []
percents (stage s ∷ es) = percents es
percents (line l ∷ es) = percents es
percents (progress done total ∷ es) = (done * 100 / total) ∷ percents es

-- each is above the one before it, and none is above a hundred
abbrev pub IsRising : ℕ → List ℕ → Type 0
IsRising low [] = Unit {0}
IsRising low (p ∷ ps) = (low < p) × (p ≤ 100) × IsRising p ps

percents-append : (es fs : List BuildEvent) → percents (es ++ fs) ≡ percents es ++ percents fs
percents-append [] fs = refl
percents-append (stage s ∷ es) fs = percents-append es fs
percents-append (line l ∷ es) fs = percents-append es fs
percents-append (progress d t ∷ es) fs = ap (λ ps. (d * 100 / t) ∷ ps) (percents-append es fs)

see_packaging-percents :
    (l : Text) (s : Seen)
    → (percents (see_packaging l s).1 ≡ []) × ((see_packaging l s).0.percent ≡ s.percent)
unfolding see_packaging
see_packaging-percents l s = by_test (not s.packaging && is_packaging_line l)
  where
    by_test : (b : Bool) → (percents (announce b s).1 ≡ []) × ((announce b s).0.percent ≡ s.percent)
    by_test true = (refl, refl)
    by_test false = (refl, refl)

share-le : (done total : ℕ) → done ≤ total → done * 100 / total ≤ 100
share-le done zero h = omega arith
share-le done (suc t) h = div-le_of_le-mul (suc t) (omega (arith, h))

-- the percentages of one line rise from the one kept to the one kept after it
see_object-IsRising :
    (total : ℕ) (s : Seen) (ps : List ℕ)
    → IsRising (see_object total s).0.percent ps
    → IsRising s.percent (percents (see_object total s).1 ++ ps)
unfolding see_object
see_object-IsRising total s ps rising = elim (Bool-cases (ltb s.percent pct)) [
  | inl h ↦ rw h (ltb→lt s.percent pct h, share-le done total (ground arith), rw h at rising)
  | inr h ↦ rw h (rw h at rising)
]
  where
    done : ℕ
    done = min (s.compiled + 1) total

    pct : ℕ
    pct = done * 100 / total

on_line-IsRising :
    (total : ℕ) (l : Text) (s : Seen) (ps : List ℕ)
    → IsRising (on_line (some total) l s).0.percent ps
    → IsRising s.percent (percents (on_line (some total) l s).1 ++ ps)
unfolding on_line
on_line-IsRising total l s ps rising =
    let (p, started) = see_packaging l s in
    let (nothing, same) = see_packaging-percents l s in
    elim (Bool-cases (is_object_line l)) [
      | inl h ↦
          let counted = (see_object total p).1 in
          let base = see_object-IsRising total p ps (rw h at rising) in
          let joined : percents (started ++ counted) ≡ percents counted =
            percents-append started counted ∙ ap (λ es. es ++ percents counted) nothing in
          rw (h, joined) (subst (λ n. IsRising n (percents counted ++ ps)) same base)
      | inr h ↦
          let kept : IsRising p.percent ps = rw h at rising in
          rw (h, nothing) (subst (λ n. IsRising n ps) same kept)
    ]

on_lines-IsRising :
    (total : ℕ) (ls : List Text) (s : Seen)
    → IsRising s.percent (percents (on_lines (some total) ls s).1)
unfolding on_lines
on_lines-IsRising total [] s = tt
on_lines-IsRising total (l ∷ ls) s =
    let (p, events) = on_line (some total) l s in
    let later = (on_lines (some total) ls p).1 in
    rw (percents-append events later)
      (on_line-IsRising total l s (percents later) (on_lines-IsRising total ls p))

-- the announcement behind the last line, where none came before
abbrev closing : Bool → List BuildEvent
closing b = if b then [] else stage pack ∷ []

closing-count : (b : Bool) → one_if b + packaging_count (closing b) ≡ 1
closing-count true = refl
closing-count false = refl

closing-percents : (b : Bool) → percents (closing b) ≡ []
closing-percents true = refl
closing-percents false = refl

share_of_none : (total : ℕ) → 0 / total ≡ 0
share_of_none total = omega (arith, div-le_self 0 total)

-- Of a successful run of make the packaging stage is announced exactly once, whatever its lines are.
pub events_of-packaging_count :
    (objects : Option ℕ) (ls : List Text) → packaging_count (events_of objects ls) ≡ 1
unfolding events_of
events_of-packaging_count objects ls =
    let (s, events) = on_lines objects ls nothing_seen in
    let marked = on_lines-packaging objects ls nothing_seen in
    let both = packaging_count-append events (closing s.packaging) in
    let last = closing-count s.packaging in
    behind objects (events ++ closing s.packaging) (omega (arith, marked, both, last))
  where
    behind :
        (objects : Option ℕ) (es : List BuildEvent)
        → packaging_count es ≡ 1
        → packaging_count (elim objects [ none ↦ [] | some total ↦ progress 0 total ∷ [] ] ++ es)
          ≡ 1
    behind none es h = h
    behind (some total) es h = h

-- Where the number of objects is known, the percentages that a run of make shows start at 0, and each
-- later one is above the one before it and at most 100.
pub events_of-IsRising :
    (total : ℕ) (ls : List Text)
    → (ps : List ℕ) × (percents (events_of (some total) ls) ≡ 0 ∷ ps) × IsRising 0 ps
unfolding events_of
events_of-IsRising total ls =
    let (s, events) = on_lines (some total) ls nothing_seen in
    let nothing = closing-percents s.packaging in
    let joined : percents (events ++ closing s.packaging) ≡ percents events =
      percents-append events (closing s.packaging)
      ∙ ap (λ ps. percents events ++ ps) nothing
      ∙ append-nil (percents events) in
    (percents events, rw (share_of_none total, joined), on_lines-IsRising total ls nothing_seen)
