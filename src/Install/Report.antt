-- ===== src/Install/Report.antt =====
-- What `ScriptReport::parse` of src/install.rs counts.
use kernel_pop.Prelude.{
  ℕ, ◌+◌, Bool, false, none, some, [], ◌∷◌, ◌&&◌, ◌++◌, ◌==◌, if◌then◌else◌, List, any, count, ◌≡◌,
  refl, arith, ap, ◌∙◌, inl, inr, Option-cases,
}
use kernel_pop.Text.{Text, codes, starts_with, strip_prefix, lines}
use kernel_pop.Install.{
  line_prefix, ScriptReport, BootOutlook, boots, after_enrollment, read_line, read_lines,
  parse_report, no_problems,
}

-- a line of the script that carries a marker
abbrev pub marked : Text → Text → Bool
marked marker line = starts_with (line_prefix ++ marker) line

abbrev pub dkms_line : Text → Bool
dkms_line = marked (codes "DKMS WARNING:")

abbrev pub sign_line : Text → Bool
sign_line = marked (codes "SIGN WARNING:")

abbrev pub pending_line : Text → Bool
pending_line = marked (codes "BOOT PENDING:")

starts_with-append-prefix :
    (p q t : Text)
    → starts_with (p ++ q) t ≡ elim (strip_prefix p t) [ none ↦ false | some r ↦ starts_with q r ]
unfolding starts_with
starts_with-append-prefix [] q t = refl
starts_with-append-prefix (c ∷ p) q [] = refl
starts_with-append-prefix (c ∷ p) q (d ∷ t) = ground (arith, starts_with-append-prefix p q t)

heads_differ :
    (a b : ℕ) (p q : Text) (c : ℕ) (t : Text)
    → (a == b) ≡ false
    → (starts_with (a ∷ p) (c ∷ t) && starts_with (b ∷ q) (c ∷ t)) ≡ false
unfolding starts_with
heads_differ a b p q c t h = ground arith

-- a text begins with one marker at most
markers_differ :
    (t : Text)
    → ((starts_with (codes "DKMS WARNING:") t && starts_with (codes "SIGN WARNING:") t) ≡ false)
      × ((starts_with (codes "DKMS WARNING:") t && starts_with (codes "BOOT PENDING:") t) ≡ false)
      × ((starts_with (codes "SIGN WARNING:") t && starts_with (codes "BOOT PENDING:") t) ≡ false)
unfolding starts_with
markers_differ [] = (refl, refl, refl)
markers_differ (c ∷ t) = (
  heads_differ b'D' b'S' (codes "KMS WARNING:") (codes "IGN WARNING:") c t refl,
  heads_differ b'D' b'B' (codes "KMS WARNING:") (codes "OOT PENDING:") c t refl,
  heads_differ b'S' b'B' (codes "IGN WARNING:") (codes "OOT PENDING:") c t refl,
)

abbrev one : Bool → ℕ
one b = if b then 1 else 0

abbrev outlook : Bool → BootOutlook → BootOutlook
outlook b o = if b then after_enrollment else o

-- a report with more problems, and with or without a pending enrollment
abbrev add_marks : ScriptReport → ℕ → ℕ → Bool → ScriptReport
add_marks r dkms sign pending = record {
  dkms_problems = r.dkms_problems + dkms;
  sign_problems = r.sign_problems + sign;
  boot = outlook pending r.boot;
}

read_line-marked :
    (r : ScriptReport) (l : Text)
    → read_line r l ≡ add_marks r (one (dkms_line l)) (one (sign_line l)) (pending_line l)
unfolding read_line
read_line-marked r l =
    let dkms = starts_with-append-prefix line_prefix (codes "DKMS WARNING:") l in
    let sign = starts_with-append-prefix line_prefix (codes "SIGN WARNING:") l in
    let boot = starts_with-append-prefix line_prefix (codes "BOOT PENDING:") l in
    elim (Option-cases (strip_prefix line_prefix l)) [
      | inl e ↦ ground (arith, dkms, sign, boot, e)
      | inr (t, e) ↦ ground (arith, dkms, sign, boot, e, markers_differ t)
    ]

read_lines-marked :
    (r : ScriptReport) (ls : List Text)
    → read_lines r ls ≡ add_marks r (count dkms_line ls) (count sign_line ls) (any pending_line ls)
unfolding read_lines
read_lines-marked r [] = ground arith
read_lines-marked r (l ∷ ls) =
    ap (λ s. read_lines s ls) (read_line-marked r l)
    ∙ read_lines-marked (add_marks r (one (dkms_line l)) (one (sign_line l)) (pending_line l)) ls
    ∙ ground arith

-- A report counts exactly the lines that carry the script's prefix and a DKMS marker, those that
-- carry its prefix and a signing marker, and says whether any carries its prefix and BOOT PENDING.
pub parse_report-counts :
    (output : Text)
    → parse_report output ≡ record {
      dkms_problems = count dkms_line (lines output);
      sign_problems = count sign_line (lines output);
      boot = if any pending_line (lines output) then after_enrollment else boots;
    }
unfolding parse_report
parse_report-counts output = read_lines-marked no_problems (lines output) ∙ ground arith
