-- ===== src/Verify/Timeout/Ends.antt =====
-- How `output_with_timeout` of src/verify.rs ends.
use kernel_pop.Prelude.{
  ℕ, zero, suc, ◌+◌, ◌*◌, ◌/◌, ◌≤◌, ◌<◌, true, false, some, ok, err, ◌≡◌, refl, arith, Bool-cases,
  ltb→lt, inl, inr, ltb,
}
use mathlib.Core.Path.{subst}
use kernel_pop.Verify.Timeout.{
  Poll, wait_failed, running, exited, Child, not_waited, not_spawned, gave_up, Waited, wait,
}

-- each round sleeps for at least 100 milliseconds
abbrev pub Sleeps : Child → Type 0
Sleeps c = (k : ℕ) → c.elapsed k + 100 ≤ c.elapsed (k + 1)

abbrev RunsUntil : Child → ℕ → ℕ → Type 0
RunsUntil c k n = (j : ℕ) → k ≤ j → j < n → c.try_wait j ≡ running

-- What the end of the loop means, if it began with poll `k`: the status is that of the first poll that
-- finds the program ended; it was given up and killed when it still ran past the limit.
abbrev pub Means : ℕ → Child → ℕ → Waited → Type 0
Means limit c k (ok st, killed) =
    (killed ≡ false) × ((n : ℕ) × (k ≤ n) × RunsUntil c k n × (c.try_wait n ≡ exited st))
Means limit c k (err (gave_up secs), killed) =
    (killed ≡ true) × ((n : ℕ) × (k ≤ n) × RunsUntil c k (n + 1) × (limit < c.elapsed n))
Means limit c k (err not_waited, killed) =
    (killed ≡ false) × ((n : ℕ) × (k ≤ n) × RunsUntil c k n × (c.try_wait n ≡ wait_failed))
Means limit c k (err not_spawned, killed) = ⊥

earlier : (c : Child) (k n : ℕ) → c.try_wait k ≡ running → RunsUntil c (k + 1) n → RunsUntil c k n
earlier c k n now later j from to = elim (Bool-cases (ltb k j)) [
  | inl past ↦ later j (ground arith) to
  | inr first ↦ let same : k ≡ j = ground arith in subst (λ i. c.try_wait i ≡ running) same now
]

Means-earlier :
    (limit : ℕ) (c : Child) (k : ℕ) (w : Waited)
    → c.try_wait k ≡ running
    → Means limit c (k + 1) w
    → Means limit c k w
Means-earlier limit c k (ok st, killed) now (alive, (n, from, before, is)) =
    (alive, (n, omega arith, earlier c k n now before, is))
Means-earlier limit c k (err (gave_up secs), killed) now (dead, (n, from, before, late)) =
    (dead, (n, omega arith, earlier c k (n + 1) now before, late))
Means-earlier limit c k (err not_waited, killed) now (alive, (n, from, before, is)) =
    (alive, (n, omega arith, earlier c k n now before, is))
Means-earlier limit c k (err not_spawned, killed) now h = h

elapsed-le : (c : Child) → Sleeps c → (k : ℕ) → 100 * k ≤ c.elapsed k
elapsed-le c sleeps zero = omega arith
elapsed-le c sleeps (suc k) =
    let step = sleeps k in let before = elapsed-le c sleeps k in grow c k step before
  where
    grow :
        (c : Child) (k : ℕ)
        → c.elapsed k + 100 ≤ c.elapsed (k + 1)
        → 100 * k ≤ c.elapsed k
        → 100 * suc k ≤ c.elapsed (suc k)
    grow c k step before =
        let same : k + 1 ≡ suc k = omega arith in
        omega (arith, subst (λ i. c.elapsed k + 100 ≤ c.elapsed i) same step)

wait-Means :
    (limit : ℕ) (c : Child)
    → Sleeps c
    → (fuel k : ℕ) → limit + 100 < 100 * (fuel + k)
    → 0 < fuel
    → (w : Waited) × (wait fuel limit c k ≡ some w) × Means limit c k w
unfolding wait
wait-Means limit c sleeps zero k enough pos = absurd (omega arith)
wait-Means limit c sleeps (suc fuel) k enough pos =
    polled (c.try_wait k) refl (wait-Means limit c sleeps fuel (k + 1))
  where
    Ended : ℕ → ℕ → Type 0
    Ended f i = (w : Waited) × (wait f limit c i ≡ some w) × Means limit c i w

    polled :
        (p : Poll)
        → c.try_wait k ≡ p
        → (limit + 100 < 100 * (fuel + (k + 1)) → 0 < fuel → Ended fuel (k + 1))
        → Ended (suc fuel) k
    polled wait_failed is rest = (
      (err not_waited, false),
      rw (is, wait) refl,
      (refl, (k, omega arith, (λ j a b. absurd (omega arith)), is)),
    )
    polled (exited st) is rest = (
      (ok st, false),
      rw (is, wait) refl,
      (refl, (k, omega arith, (λ j a b. absurd (omega arith)), is)),
    )
    polled running is rest = elim (Bool-cases (ltb limit (c.elapsed k))) [
      | inl late ↦ (
        (err (gave_up (limit / 1000)), true),
        rw (is, late, wait) refl,
        (
          refl,
          (
            k,
            omega arith,
            earlier c k (k + 1) is (λ j a b. absurd (omega arith)),
            ltb→lt limit (c.elapsed k) late,
          ),
        ),
      )
      | inr soon ↦
          let so_far = elapsed-le c sleeps k in
          let in_time : c.elapsed k ≤ limit = ground arith in
          let (w, ended, means) = rest (omega arith) (omega arith) in
          (w, rw (is, soon, wait) ended, Means-earlier limit c k w is means)
    ]

-- A program that is started is polled until it ends, the poll fails, or it is given up: with a clock
-- that moves by at least 100 milliseconds from one poll to the next, the limit itself bounds the number
-- of polls. Its status is that of the first poll that finds it ended, and it is not killed then. It is
-- given up, and killed, only if every poll so far found it running and the limit has passed.
pub wait_ends :
    (limit : ℕ) (c : Child)
    → Sleeps c
    → (w : Waited) × (wait (limit / 100 + 2) limit c 0 ≡ some w) × Means limit c 0 w
wait_ends limit c sleeps = wait-Means limit c sleeps (limit / 100 + 2) 0 (omega arith) (omega arith)
