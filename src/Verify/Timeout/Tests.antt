-- ===== src/Verify/Timeout/Tests.antt =====
-- The timeout of src/verify.rs on a program that hangs, and the theorem at it.
use kernel_pop.Prelude.{◌+◌, ◌*◌, ◌/◌, true, some, [], ◌≡◌, refl, arith, err}
use kernel_pop.Verify.Timeout.{Child, running, Waited, wait, output_with_timeout, gave_up}
use kernel_pop.Verify.Timeout.Ends.{Sleeps, Means, wait_ends}

abbrev hanging : Child
hanging = record {
  spawns = true;
  try_wait = λ k. running;
  elapsed = λ k. k * 100;
  stdout = [];
  stderr = [];
}

killed : output_with_timeout hanging 2000 ≡ some (err (gave_up 2), true)
unfolding output_with_timeout
killed = refl

hanging-Sleeps : Sleeps hanging
hanging-Sleeps k = omega arith

wait_ends_example :
    (w : Waited) × (wait (90000 / 100 + 2) 90000 hanging 0 ≡ some w) × Means 90000 hanging 0 w
wait_ends_example = wait_ends 90000 hanging hanging-Sleeps
