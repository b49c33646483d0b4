-- ===== src/Verify/Status.antt =====
-- `parse_gpgv_status` of src/verify.rs. The upper-casing of Rust's `str` is an argument.
pub mod Good
use kernel_pop.Prelude.{
  ℕ, Bool, true, false, not, Option, none, some, [], ◌∷◌, ◌&&◌, ◌||◌, ◌==◌, if◌then◌else◌, List,
  map_option,
}
use kernel_pop.Text.{Text, codes, lines, split_whitespace, text_eq}

-- why a signature is not accepted, one for each text
pub data Reason : Type 0 where
  badsig expkeysig revkeysig expsig nodata errsig : Reason
  not_reported : Reason
  damaged_tarball : Reason

pub data GpgvVerdict : Type 0 where
  good : Text → GpgvVerdict
  missing_key : Text → GpgvVerdict
  bad : Reason → GpgvVerdict

-- the status keywords that the code tells apart
pub data Keyword : Type 0 where
  goodsig validsig no_pubkey other : Keyword
  failure : Reason → Keyword

unfoldable pub keyword_of : Text → Keyword
unfolding text_eq
keyword_of w =
    if text_eq w (codes "GOODSIG")
    then goodsig
    else if text_eq w (codes "VALIDSIG")
    then validsig
    else if text_eq w (codes "NO_PUBKEY")
    then no_pubkey
    else if text_eq w (codes "BADSIG")
    then failure badsig
    else if text_eq w (codes "EXPKEYSIG")
    then failure expkeysig
    else if text_eq w (codes "REVKEYSIG")
    then failure revkeysig
    else if text_eq w (codes "EXPSIG")
    then failure expsig
    else if text_eq w (codes "NODATA")
    then failure nodata
    else if text_eq w (codes "ERRSIG")
    then failure errsig
    else other

-- a status line: its keyword and the words behind it
pub record StatusLine : Type 0 where
  pub keyword : Keyword
  pub words : List Text

abbrev pub line_of_words : List Text → Option StatusLine
line_of_words [] = none
line_of_words (a ∷ []) = none
line_of_words (a ∷ b ∷ ws) =
    if text_eq a (codes "[GNUPG:]")
    then some (record { keyword = keyword_of b; words = ws })
    else none

unfoldable pub status_line : Text → Option StatusLine
unfolding split_whitespace text_eq keyword_of
status_line l = line_of_words (split_whitespace l)

pub record Seen : Type 0 where
  pub good : Bool
  pub valid : Option Text
  pub missing : Option Text
  pub reason : Option Reason

abbrev pub nothing_seen : Seen
nothing_seen = record { good = false; valid = none; missing = none; reason = none }

abbrev pub last : Text → List Text → Text
last w [] = w
last w (v ∷ ws) = last v ws

-- ERRSIG does not replace a reason that is there; the others do
abbrev pub new_reason : Reason → Option Reason → Option Reason
new_reason errsig (some r) = some r
new_reason errsig none = some errsig
new_reason badsig old = some badsig
new_reason expkeysig old = some expkeysig
new_reason revkeysig old = some revkeysig
new_reason expsig old = some expsig
new_reason nodata old = some nodata
new_reason not_reported old = some not_reported
new_reason damaged_tarball old = some damaged_tarball

unfoldable pub verdict : Bool → Option Text → Option Text → Option Reason → GpgvVerdict
verdict true (some primary_fpr) missing none = good primary_fpr
verdict true (some primary_fpr) (some keyid) (some r) = missing_key keyid
verdict true (some primary_fpr) none (some r) = bad r
verdict true none (some keyid) reason = missing_key keyid
verdict true none none (some r) = bad r
verdict true none none none = bad not_reported
verdict false valid (some keyid) reason = missing_key keyid
verdict false valid none (some r) = bad r
verdict false valid none none = bad not_reported

module _ (to_uppercase : Text → Text) where
  unfoldable pub see_words : Keyword → List Text → Seen → Seen
  see_words goodsig ws s = record s { good = true }
  see_words validsig [] s = s
  see_words validsig (w ∷ ws) s = record s { valid = some (to_uppercase (last w ws)) }
  see_words no_pubkey [] s = s
  see_words no_pubkey (w ∷ ws) s = record s { missing = some (to_uppercase w) }
  see_words (failure r) ws s = record s { reason = new_reason r s.reason }
  see_words other ws s = s

  unfoldable pub see_line : Seen → Text → Seen
  unfolding see_words
  see_line s l = elim (status_line l) [ none ↦ s | some x ↦ see_words x.keyword x.words s ]

  unfoldable pub see_lines : Seen → List Text → Seen
  unfolding see_line
  see_lines s [] = s
  see_lines s (l ∷ ls) = see_lines (see_line s l) ls

  unfoldable pub parse_gpgv_status : Text → GpgvVerdict
  unfolding see_lines verdict
  parse_gpgv_status status =
      let s = see_lines nothing_seen (lines status) in verdict s.good s.valid s.missing s.reason
