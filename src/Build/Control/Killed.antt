-- ===== src/Build/Control/Killed.antt =====
-- What becomes of the child of src/build.rs when its build is cancelled.
use kernel_pop.Prelude.{
  ℕ, ◌+◌, ◌≤◌, Bool, true, false, Option, none, some, List, [], ◌∷◌, ◌≡◌, refl, ◌⊎◌, arith,
}
use kernel_pop.Build.Control.{
  RunnerAt, before_check, before_spawn, spawned, registered, reading, ended, unregistered, done,
  stopped, CancelAt, not_called, stored, loaded, returned, Control, new_control, child_of,
  kill_group, run_next, cancel_next, timer_next, Move, runs, cancels, fires, exits, move, moves,
}

-- the flag is set with the first step of `cancel`, and the timer only by its last
abbrev CancelHolds : CancelAt → Bool → Option ℕ → Type 0
CancelHolds not_called cancelled timer = (cancelled ≡ false) × (timer ≡ none)
CancelHolds stored cancelled timer = (cancelled ≡ true) × (timer ≡ none)
CancelHolds (loaded pg) cancelled timer = (cancelled ≡ true) × (timer ≡ none)
CancelHolds returned cancelled timer = cancelled ≡ true

-- the canceller or its timer has still to reach the group
abbrev Reaches : ℕ → CancelAt → Option ℕ → Type 0
Reaches p not_called timer = Unit {0}
Reaches p stored timer = Unit {0}
Reaches p (loaded pg) timer = pg ≡ p
Reaches p returned timer = timer ≡ some p

abbrev RunnerHolds : RunnerAt → CancelAt → Option ℕ → ℕ → Bool → Type 0
RunnerHolds before_check canceller timer pgid killed = pgid ≡ 0
RunnerHolds before_spawn canceller timer pgid killed = pgid ≡ 0
RunnerHolds (spawned p) canceller timer pgid killed = (pgid ≡ 0) × (1 ≤ p)
RunnerHolds (registered p) canceller timer pgid killed = (pgid ≡ p) × (1 ≤ p)
RunnerHolds (reading p) canceller timer pgid killed =
    (pgid ≡ p) × (1 ≤ p) × ((killed ≡ true) ⊎ Reaches p canceller timer)
RunnerHolds (ended p) canceller timer pgid killed = Unit {0}
RunnerHolds unregistered canceller timer pgid killed = pgid ≡ 0
RunnerHolds done canceller timer pgid killed = pgid ≡ 0
RunnerHolds stopped canceller timer pgid killed = pgid ≡ 0

abbrev Holds : Control → Type 0
Holds c =
    CancelHolds c.canceller c.cancelled c.timer
    × RunnerHolds c.runner c.canceller c.timer c.pgid c.killed

run_next-Holds : (pid : ℕ) (c : Control) → Holds c → Holds (run_next pid c)
unfolding run_next kill_group child_of
run_next-Holds pid c (h, r) = ground arith

cancel_next-Holds : (c : Control) → Holds c → Holds (cancel_next c)
unfolding cancel_next kill_group child_of
cancel_next-Holds c (h, r) = ground arith

timer_next-Holds : (c : Control) → Holds c → Holds (timer_next c)
unfolding timer_next kill_group child_of
timer_next-Holds c (h, r) = ground arith

move-Holds : (m : Move) (c : Control) → Holds c → Holds (move m c)
unfolding move
move-Holds (runs pid) c h = run_next-Holds pid c h
move-Holds cancels c h = cancel_next-Holds c h
move-Holds fires c h = timer_next-Holds c h
move-Holds exits c h = h

moves-Holds : (ms : List Move) (c : Control) → Holds c → Holds (moves ms c)
unfolding moves
moves-Holds [] c h = h
moves-Holds (m ∷ ms) c h = moves-Holds ms (move m c) (move-Holds m c h)

reading_killed :
    (c : Control) (p : ℕ)
    → Holds c
    → c.canceller ≡ returned
    → c.timer ≡ none
    → c.runner ≡ reading p
    → c.killed ≡ true
reading_killed c p (h, r) back fired at_child = ground arith

-- In every interleaving of the two threads: once the call of `cancel` has returned and the thread that
-- waits five seconds for it has ended, a child whose output the runner still reads has been sent
-- SIGKILL. It does not matter whether the cancel came before the child was started or registered.
pub reading-killed :
    (ms : List Move) (p : ℕ)
    → let c = moves ms new_control in
      c.canceller ≡ returned → c.timer ≡ none → c.runner ≡ reading p → c.killed ≡ true
reading-killed ms p back fired at_child =
    reading_killed (moves ms new_control) p (moves-Holds ms new_control ((refl, refl), refl)) back
      fired at_child

-- whether the move starts a child
unfoldable pub starts_child : Move → Control → ℕ
starts_child (runs pid) c = elim c.runner [ before_spawn ↦ 1 | _ ↦ 0 ]
starts_child cancels c = 0
starts_child fires c = 0
starts_child exits c = 0

unfoldable pub children : List Move → Control → ℕ
unfolding move starts_child
children [] c = 0
children (m ∷ ms) c = starts_child m c + children ms (move m c)

-- the runner has a check behind it and starts a child with its next step
unfoldable pub will_start : RunnerAt → ℕ
will_start before_spawn = 1
will_start _ = 0

move-cancelled : (m : Move) (c : Control) → c.cancelled ≡ true → (move m c).cancelled ≡ true
unfolding move run_next cancel_next timer_next kill_group
move-cancelled m c h = ground arith

move-will_start :
    (m : Move) (c : Control)
    → c.cancelled ≡ true
    → starts_child m c + will_start (move m c).runner ≤ will_start c.runner
unfolding move run_next cancel_next timer_next kill_group starts_child will_start
move-will_start m c h = ground arith

-- Once a build is cancelled, it starts at most one more command, and that only if the runner was
-- already behind its check: whatever the two threads do afterwards.
pub children-cancelled :
    (ms : List Move) (c : Control) → c.cancelled ≡ true → children ms c ≤ will_start c.runner
unfolding children
children-cancelled [] c h = omega arith
children-cancelled (m ∷ ms) c h =
    let rest = children-cancelled ms (move m c) (move-cancelled m c h) in
    omega (arith, rest, move-will_start m c h)
