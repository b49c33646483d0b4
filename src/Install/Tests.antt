-- ===== src/Install/Tests.antt =====
-- The functions of src/install.rs on concrete inputs, and the theorems at some of them.
use kernel_pop.Prelude.{
  false, Option, none, some, [], ◌∷◌, ◌++◌, ◌≡◌, refl, inr, ok, err, ◌⊎◌, map_option,
}
use kernel_pop.Text.{Text, codes, lines, pos}
use kernel_pop.Install.{describe_failure, script_ran, no_match, validate_mok_password}
use kernel_pop.Install.Failures.{describe_failure-stderr}
use kernel_pop.Install.Helper.{
  File, bytes, another_version, HelperProblem, Invocation, Output, Started, ended,
  run_script_with_stdin, helper, RunError,
}
use kernel_pop.Install.Helper.Guarded.{IsMatching, Succeeded, run_script_with_stdin-IsMatching}

abbrev output : Text
output =
    codes
      "[kernel-pop] Installing\n[kernel-pop] DKMS WARNING: nvidia\nDKMS WARNING: x\n[kernel-pop] BOOT PENDING: MOK\n"

cancelled : script_ran (codes "Error executing command\n") ≡ false
unfolding script_ran lines
cancelled = refl

describe_failure-stderr_example :
    (describe_failure
      (some (pos 126))
      (codes "Error executing command\n")
      (codes "x\n")).stderr_tail
    ≡ none
describe_failure-stderr_example =
    (describe_failure-stderr (some (pos 126)) (codes "Error executing command\n") (codes "x\n")).1
      (inr (refl, cancelled))

refused_password : validate_mok_password (codes "secret-123") (codes "secret-124") ≡ err no_match
unfolding validate_mok_password
refused_password = refl

accepted_password : validate_mok_password (codes "secret-1") (codes "secret-1") ≡ ok tt
unfolding validate_mok_password
accepted_password = refl

-- a pkexec that runs the script to its end, and prints the output
abbrev pkexec : Invocation → Started
pkexec call = ended (record { code = some (pos 0); stdout = output; stderr = [] })

-- in an AppImage that holds the helper which is installed
abbrev bundled : Option File
bundled = some (bytes (1 ∷ 2 ∷ []))

abbrev same_helper : File
same_helper = bytes (1 ∷ 2 ∷ [])

abbrev other_helper : File
other_helper = bytes (1 ∷ 3 ∷ [])

ran : (run_script_with_stdin pkexec bundled same_helper (codes "--sign" ∷ []) none).1 ≡ ok output
unfolding run_script_with_stdin
ran = refl

stopped :
    run_script_with_stdin pkexec bundled other_helper (codes "--sign" ∷ []) none
    ≡ ([], err (helper another_version))
unfolding run_script_with_stdin
stopped = refl

run_script_with_stdin-IsMatching_example :
    let run = run_script_with_stdin pkexec bundled same_helper (codes "--sign" ∷ []) none in
    (¬ (IsMatching bundled same_helper)
      × (run.0 ≡ [])
      × ((p : HelperProblem) × (run.1 ≡ err (helper p))))
    ⊎ (IsMatching bundled same_helper
        × ((call : Invocation) × (run.0 ≡ call ∷ [])
            × (call.args ≡ codes "--sign" ∷ [])
            × (call.stdin ≡ map_option (λ s. s ++ 10 ∷ []) none)
            × (((o : Output) × Succeeded (pkexec call) o × (run.1 ≡ ok o.stdout))
                ⊎ ((e : RunError) × (run.1 ≡ err e)
                    × ¬ ((o : Output) × Succeeded (pkexec call) o)))))
run_script_with_stdin-IsMatching_example =
    run_script_with_stdin-IsMatching pkexec bundled same_helper (codes "--sign" ∷ []) none
