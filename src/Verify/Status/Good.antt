-- ===== src/Verify/Status/Good.antt =====
-- The good verdicts of `parse_gpgv_status` in src/verify.rs.
use kernel_pop.Prelude.{
  Bool, true, false, Option, none, some, [], ◌∷◌, ◌||◌, List, map_option, is_some, or_option, ◌≡◌,
  refl, arith, ◌↔◌, any, ◌∙◌, sym,
}
use kernel_pop.Text.{Text, lines}
use kernel_pop.Verify.Status.{
  Reason, good, Keyword, goodsig, validsig, no_pubkey, other, failure, status_line, Seen,
  nothing_seen, last, see_line, see_lines, verdict, parse_gpgv_status,
}

abbrev pub is_goodsig : Keyword → Bool
is_goodsig goodsig = true
is_goodsig validsig = false
is_goodsig no_pubkey = false
is_goodsig other = false
is_goodsig (failure r) = false

abbrev pub is_failure : Keyword → Bool
is_failure (failure r) = true
is_failure goodsig = false
is_failure validsig = false
is_failure no_pubkey = false
is_failure other = false

-- a status line whose keyword passes a test
abbrev pub has_keyword : (Keyword → Bool) → Text → Bool
has_keyword p l = elim (status_line l) [ none ↦ false | some x ↦ p x.keyword ]

-- the last word of a VALIDSIG line that has one
abbrev pub fingerprint_of : Keyword → List Text → Option Text
fingerprint_of validsig (w ∷ ws) = some (last w ws)
fingerprint_of validsig [] = none
fingerprint_of goodsig ws = none
fingerprint_of no_pubkey ws = none
fingerprint_of other ws = none
fingerprint_of (failure r) ws = none

abbrev pub valid_fingerprint : Text → Option Text
valid_fingerprint l = elim (status_line l) [
  | none ↦ none
  | some x ↦ fingerprint_of x.keyword x.words
]

-- that of the last such line
abbrev pub last_fingerprint : List Text → Option Text
last_fingerprint [] = none
last_fingerprint (l ∷ ls) = or_option (last_fingerprint ls) (valid_fingerprint l)

or_option-none {ℓ} : {A : Type ℓ} (o : Option A) → or_option o none ≡ o
or_option-none none = refl
or_option-none (some a) = refl

good-verdict :
    (g : Bool) (v m : Option Text) (r : Option Reason) (fpr : Text)
    → verdict g v m r ≡ good fpr
    → (g ≡ true) × (is_some r ≡ false) × (v ≡ some fpr)
unfolding verdict
good-verdict g v m r fpr h = ground arith

verdict-good :
    (g : Bool) (v m : Option Text) (r : Option Reason) (fpr : Text)
    → g ≡ true
    → is_some r ≡ false
    → v ≡ some fpr
    → verdict g v m r ≡ good fpr
unfolding verdict
verdict-good g v m r fpr a b c = ground arith

module _ (to_uppercase : Text → Text) where
  good-see_line :
      (s : Seen) (l : Text)
      → (see_line to_uppercase s l).good ≡ (s.good || has_keyword is_goodsig l)
  unfolding see_line
  good-see_line s l = ground arith

  reason-see_line :
      (s : Seen) (l : Text)
      → is_some (see_line to_uppercase s l).reason ≡ (is_some s.reason || has_keyword is_failure l)
  unfolding see_line
  reason-see_line s l = ground arith

  valid-see_line :
      (s : Seen) (l : Text)
      → (see_line to_uppercase s l).valid
        ≡ or_option (map_option to_uppercase (valid_fingerprint l)) s.valid
  unfolding see_line
  valid-see_line s l = ground arith

  good-see_lines :
      (s : Seen) (ls : List Text)
      → (see_lines to_uppercase s ls).good ≡ (s.good || any (has_keyword is_goodsig) ls)
  unfolding see_lines
  good-see_lines s [] = ground arith
  good-see_lines s (l ∷ ls) =
      ground (arith, good-see_lines (see_line to_uppercase s l) ls, good-see_line s l)

  reason-see_lines :
      (s : Seen) (ls : List Text)
      → is_some (see_lines to_uppercase s ls).reason
        ≡ (is_some s.reason || any (has_keyword is_failure) ls)
  unfolding see_lines
  reason-see_lines s [] = ground arith
  reason-see_lines s (l ∷ ls) =
      ground (arith, reason-see_lines (see_line to_uppercase s l) ls, reason-see_line s l)

  valid-see_lines :
      (s : Seen) (ls : List Text)
      → (see_lines to_uppercase s ls).valid
        ≡ or_option (map_option to_uppercase (last_fingerprint ls)) s.valid
  unfolding see_lines
  valid-see_lines s [] = ground arith
  valid-see_lines s (l ∷ ls) =
      ground (arith, valid-see_lines (see_line to_uppercase s l) ls, valid-see_line s l)

  -- gpgv's report is a good verdict with a fingerprint if and only if some line says GOODSIG, none
  -- reports a failure, and the fingerprint is the last word of the last VALIDSIG line, in upper case.
  pub parse_gpgv_status-good :
      (status fpr : Text)
      → (parse_gpgv_status to_uppercase status ≡ good fpr) ↔ (
          (any (has_keyword is_goodsig) (lines status) ≡ true)
          × (any (has_keyword is_failure) (lines status) ≡ false)
          × (map_option to_uppercase (last_fingerprint (lines status)) ≡ some fpr))
  unfolding parse_gpgv_status
  parse_gpgv_status-good status fpr =
      let ls = lines status in
      let s = see_lines to_uppercase nothing_seen ls in
      let by_good = good-see_lines nothing_seen ls in
      let by_reason = reason-see_lines nothing_seen ls in
      let by_valid = valid-see_lines nothing_seen ls ∙ or_option-none _ in
      (
        λ h.
            let (a, b, c) = good-verdict s.good s.valid s.missing s.reason fpr h in
            (sym by_good ∙ a, sym by_reason ∙ b, sym by_valid ∙ c),
        λ (a, b, c).
            verdict-good s.good s.valid s.missing s.reason fpr (by_good ∙ a) (by_reason ∙ b)
              (by_valid ∙ c),
      )
