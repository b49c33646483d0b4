-- ===== src/Install.antt =====
-- src/install.rs: the calls of the privileged script, what its output means, and the checks of the
-- installed helper and of the MOK password. Messages are constructors.
pub mod Report
pub mod Password
pub mod Helper
pub mod Failures
mod Tests
use kernel_pop.Prelude.{
  ℕ, ◌+◌, ◌-◌, Bool, true, false, not, Option, none, some, [], ◌∷◌, ◌&&◌, ◌||◌, ◌++◌, ◌==◌,
  if◌then◌else◌, List, ltb, leb, or_default, any, all, keep, drop, length, Result, ok, err, guard,
  ◌>>=◌, ◌>>◌,
}
use kernel_pop.Text.{
  Text, codes, starts_with, strip_prefix, lines, trim, text_eq, is_graphic, ℤ, pos, negsuc, ℤ_eq,
  join,
}

abbrev pub line_prefix : Text
line_prefix = codes "[kernel-pop] "

abbrev pub error_tail_lines : ℕ
error_tail_lines = 15

abbrev pub is_blank : Text → Bool
is_blank l = text_eq (trim l) []

-- the last `n` lines that are not blank
unfoldable pub tail_of : Text → ℕ → List Text
unfolding lines text_eq trim
tail_of text n = let ls = keep (λ l. not (is_blank l)) (lines text) in drop (length ls - n) ls

unfoldable pub tail_lines : Text → ℕ → Text
unfolding tail_of join
tail_lines text n = join (10 ∷ []) (tail_of text n)

-- what a failed run means: the message, with the tail of stdout where it is shown
pub data Failure : Type 0 where
  authentication_cancelled not_authorized : Failure
  exited : ℤ → Text → Failure
  killed : Text → Failure

-- the message, and the tail of stderr behind it where that is not empty
pub record Described : Type 0 where
  pub failure : Failure
  pub stderr_tail : Option Text

unfoldable pub script_ran : Text → Bool
unfolding lines starts_with
script_ran stdout = any (starts_with line_prefix) (lines stdout)

abbrev pub with_err : Text → Failure → Described
with_err e f = record { failure = f; stderr_tail = if text_eq e [] then none else some e }

unfoldable pub describe_failure : Option ℤ → Text → Text → Described
describe_failure none stdout stderr =
    with_err (tail_lines stderr error_tail_lines) (killed (tail_lines stdout error_tail_lines))
describe_failure (some c) stdout stderr =
    if ℤ_eq c (pos 126) && not (script_ran stdout)
    then record { failure = authentication_cancelled; stderr_tail = none }
    else if ℤ_eq c (pos 127) && not (script_ran stdout)
    then with_err (tail_lines stderr error_tail_lines) not_authorized
    else with_err (tail_lines stderr error_tail_lines)
        (exited c (tail_lines stdout error_tail_lines))

pub data BootOutlook : Type 0 where
  boots after_enrollment : BootOutlook

pub record ScriptReport : Type 0 where
  pub dkms_problems : ℕ
  pub sign_problems : ℕ
  pub boot : BootOutlook

abbrev pub no_problems : ScriptReport
no_problems = record { dkms_problems = 0; sign_problems = 0; boot = boots }

-- what one line of the script's output adds to the report
unfoldable pub read_line : ScriptReport → Text → ScriptReport
read_line r line = elim (strip_prefix line_prefix line) [
  | none ↦ r
  | some text ↦
      if starts_with (codes "DKMS WARNING:") text
      then record r { dkms_problems = r.dkms_problems + 1 }
      else if starts_with (codes "SIGN WARNING:") text
      then record r { sign_problems = r.sign_problems + 1 }
      else if starts_with (codes "BOOT PENDING:") text
      then record r { boot = after_enrollment }
      else r
]

unfoldable pub read_lines : ScriptReport → List Text → ScriptReport
unfolding read_line
read_lines r [] = r
read_lines r (l ∷ ls) = read_lines (read_line r l) ls

unfoldable pub parse_report : Text → ScriptReport
unfolding read_lines lines
parse_report output = read_lines no_problems (lines output)

pub data PasswordProblem : Type 0 where
  wrong_length not_plain no_match : PasswordProblem

unfoldable pub validate_mok_password : Text → Text → Result PasswordProblem (Unit {0})
unfolding text_eq
validate_mok_password password confirm = do
  guard (leb 8 (length password) && leb (length password) 16) wrong_length
  guard (all is_graphic password) not_plain
  guard (text_eq password confirm) no_match
  ok tt
