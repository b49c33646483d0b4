-- ===== src/Build/Control.antt =====
-- `BuildControl` and `Runner::run_with` of src/build.rs: the thread that runs the commands of a build
-- against the one that cancels it, in steps between the accesses to the shared atomics.
pub mod Killed
use kernel_pop.Prelude.{
  ℕ, zero, suc, ◌+◌, Bool, true, false, ◌||◌, ◌==◌, if◌then◌else◌, Option, none, some, List, [],
  ◌∷◌,
}

-- where the runner is: a command is between two commands checked, spawned, registered in `pgid`, read
-- to the end of its output, unregistered, and done
pub data RunnerAt : Type 0 where
  before_check before_spawn : RunnerAt
  spawned registered reading ended : ℕ → RunnerAt
  unregistered done stopped : RunnerAt

-- where the call of `cancel` is; a number is the process group that it has loaded
pub data CancelAt : Type 0 where
  not_called stored : CancelAt
  loaded : ℕ → CancelAt
  returned : CancelAt

-- The shared atomics, both threads, whether the child runs and what it was sent, and the process group
-- that the thread which waits five seconds was given.
pub record Control : Type 0 where
  pub cancelled : Bool
  pub pgid : ℕ
  pub runner : RunnerAt
  pub canceller : CancelAt
  pub timer : Option ℕ
  pub is_running : Bool
  pub terminated : Bool
  pub killed : Bool

abbrev pub new_control : Control
new_control = record {
  cancelled = false;
  pgid = 0;
  runner = before_check;
  canceller = not_called;
  timer = none;
  is_running = false;
  terminated = false;
  killed = false;
}

-- the process group of the child that there is; 0 for none
unfoldable pub child_of : RunnerAt → ℕ
child_of before_check = 0
child_of before_spawn = 0
child_of (spawned p) = p
child_of (registered p) = p
child_of (reading p) = p
child_of (ended p) = 0
child_of unregistered = 0
child_of done = 0
child_of stopped = 0

pub data Signal : Type 0 where
  sigterm sigkill : Signal

-- a stale process group gets nothing
unfoldable pub kill_group : ℕ → Signal → Control → Control
unfolding child_of
kill_group pg sigterm c = record c { terminated = c.terminated || (child_of c.runner == pg) }
kill_group pg sigkill c = record c { killed = c.killed || (child_of c.runner == pg) }

-- The next step of the runner. A child that it starts is the group `suc pid`; behind a command it
-- goes on to the next one.
unfoldable pub run_next : ℕ → Control → Control
unfolding kill_group
run_next pid c = elim c.runner [
  | before_check ↦ record c { runner = if c.cancelled then stopped else before_spawn }
  | before_spawn ↦ record c {
    runner = spawned (suc pid);
    is_running = true;
    terminated = false;
    killed = false;
  }
  | spawned p ↦ record c { runner = registered p; pgid = p }
  | registered p ↦
      let checked = if c.cancelled then kill_group p sigkill c else c in
      record checked { runner = reading p }
  | reading p ↦ record c { runner = if c.is_running then reading p else ended p }
  | ended p ↦ record c { runner = unregistered; pgid = 0 }
  | unregistered ↦ record c { runner = if c.cancelled then stopped else done }
  | done ↦ record c { runner = before_check }
  | stopped ↦ c
]

unfoldable pub cancel_next : Control → Control
unfolding kill_group
cancel_next c = elim c.canceller [
  | not_called ↦ record c { cancelled = true; canceller = stored }
  | stored ↦ record c { canceller = loaded c.pgid }
  | loaded pg ↦ elim pg [
    | zero ↦ record c { canceller = returned }
    | suc p ↦ record (kill_group (suc p) sigterm c) { canceller = returned; timer = some (suc p) }
  ]
  | returned ↦ c
]

-- five seconds later
unfoldable pub timer_next : Control → Control
unfolding kill_group
timer_next c = elim c.timer [
  | none ↦ c
  | some pg ↦
      let fired = if c.pgid == pg then kill_group pg sigkill c else c in
      record fired { timer = none }
]

pub data Move : Type 0 where
  runs : ℕ → Move
  cancels fires exits : Move

unfoldable pub move : Move → Control → Control
unfolding run_next cancel_next timer_next
move (runs pid) c = run_next pid c
move cancels c = cancel_next c
move fires c = timer_next c
move exits c = record c { is_running = false }

unfoldable pub moves : List Move → Control → Control
unfolding move
moves [] c = c
moves (m ∷ ms) c = moves ms (move m c)
