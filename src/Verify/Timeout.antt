-- ===== src/Verify/Timeout.antt =====
-- `output_with_timeout` of src/verify.rs: a program is polled until it ends, and killed when it takes
-- longer than the limit. What each poll sees, and the clock, is an argument; times are in
-- milliseconds. The polls that the limit allows are the fuel.
pub mod Ends
mod Tests
use kernel_pop.Prelude.{
  ℕ, zero, suc, ◌+◌, ◌/◌, Bool, true, false, Option, none, some, if◌then◌else◌, Result, ok, err,
  ltb,
}
use kernel_pop.Text.{Text}

-- `try_wait`
pub data Poll : Type 0 where
  wait_failed running : Poll
  exited : ℕ → Poll

-- the program, by the number of the poll
pub record Child : Type 0 where
  pub spawns : Bool
  pub try_wait : ℕ → Poll
  pub elapsed : ℕ → ℕ
  pub stdout : Text
  pub stderr : Text

pub data TimeoutError : Type 0 where
  not_spawned not_waited : TimeoutError
  gave_up : ℕ → TimeoutError

pub record Output : Type 0 where
  pub status : ℕ
  pub stdout : Text
  pub stderr : Text

-- how the loop ends, and whether the program was killed
abbrev pub Waited : Type 0
Waited = Result TimeoutError ℕ × Bool

-- `none` means that the fuel ran out
unfoldable pub wait : ℕ → ℕ → Child → ℕ → Option Waited
wait zero limit c k = none
wait (suc fuel) limit c k = elim (c.try_wait k) [
  | wait_failed ↦ some (err not_waited, false)
  | exited st ↦ some (ok st, false)
  | running ↦ elim (ltb limit (c.elapsed k)) [
    | true ↦ some (err (gave_up (limit / 1000)), true)
    | false ↦ wait fuel limit c (k + 1)
  ]
]

abbrev pub output_of : Child → Waited → Result TimeoutError Output × Bool
output_of c (ok st, killed) =
    (ok (record { status = st; stdout = c.stdout; stderr = c.stderr }), killed)
output_of c (err e, killed) = (err e, killed)

unfoldable pub output_with_timeout : Child → ℕ → Option (Result TimeoutError Output × Bool)
unfolding wait
output_with_timeout c limit =
    if c.spawns
    then (elim (wait (limit / 100 + 2) limit c 0) [ none ↦ none | some w ↦ some (output_of c w) ])
    else some (err not_spawned, false)
