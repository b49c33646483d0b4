-- ===== src/Install/Helper/Guarded.antt =====
-- The helper check and the runs of src/install.rs: when a process starts, and what a success is.
use kernel_pop.Prelude.{
  ℕ, true, Option, none, some, [], ◌∷◌, ◌++◌, List, ◌≡◌, refl, arith, ◌↔◌, ◌⊎◌, inl, inr, ok, err,
  map_option, ap, sym, ◌∙◌, Bool-cases,
}
use kernel_pop.Text.{Text, text_eq_sound, text_eq_refl, ℤ, pos, ℤ_eq, ℤ_eq_sound}
use kernel_pop.Install.{describe_failure}
use kernel_pop.Install.Helper.{
  File, absent, unreadable, bytes, exists_file, HelperProblem, compare_files, helper_problem_in,
  Invocation, Output, helper, Started, cannot_start, cannot_wait, ended, is_success, outcome,
  run_script_with_stdin, RunError, launch, no_wait, failed, Run,
}

abbrev pub IsMatching : Option File → File → Type 0
IsMatching bundle installed =
    ((bundle ≡ none) × (exists_file installed ≡ true))
    ⊎ ((b : List ℕ) × (bundle ≡ some (bytes b)) × (installed ≡ bytes b))

matching :
    (bundle : Option File) (installed : File)
    → helper_problem_in bundle installed ≡ none
    → IsMatching bundle installed
unfolding helper_problem_in
matching none absent h = cc
matching none unreadable h = inl (refl, refl)
matching none (bytes b) h = inl (refl, refl)
matching (some absent) installed h = cc
matching (some unreadable) installed h = cc
matching (some (bytes want)) absent h = cc
matching (some (bytes want)) unreadable h = cc
matching (some (bytes want)) (bytes have) h =
    inr (want, refl, ap bytes (text_eq_sound have want (ground arith)))

-- The helper may be used if and only if it is byte for byte the bundled one or, outside an AppImage,
-- is there at all.
pub helper_problem_in_iff :
    (bundle : Option File) (installed : File)
    → (helper_problem_in bundle installed ≡ none) ↔ IsMatching bundle installed
unfolding helper_problem_in compare_files
helper_problem_in_iff bundle installed = (
  matching bundle installed,
  λ m. elim m [
    | inl (no_bundle, there) ↦ ground arith
    | inr (b, e, f) ↦ ground (arith, text_eq_refl b)
  ],
)

success_code : (code : Option ℤ) → is_success code ≡ true → code ≡ some (pos 0)
success_code none h = cc
success_code (some c) h = ap some (ℤ_eq_sound c (pos 0) h)

-- pkexec ran the script to its end, and it succeeded
abbrev pub Succeeded : Started → Output → Type 0
Succeeded s o = (s ≡ ended o) × (o.code ≡ some (pos 0))

outcome-cases :
    (s : Started)
    → ((o : Output) × Succeeded s o × (outcome s ≡ ok o.stdout))
      ⊎ ((e : RunError) × (outcome s ≡ err e) × ¬ ((o : Output) × Succeeded s o))
unfolding outcome ℤ_eq
outcome-cases cannot_start = inr (launch, refl, λ (o, (e, code)). cc)
outcome-cases cannot_wait = inr (no_wait, refl, λ (o, (e, code)). cc)
outcome-cases (ended o) = elim (Bool-cases (is_success o.code)) [
  | inl good ↦ inl (o, (refl, success_code o.code good), rw good refl)
  | inr bad ↦ inr (
    failed (describe_failure o.code o.stdout o.stderr),
    rw bad refl,
    λ (q, (e, code)).
        let same : o ≡ q = ap (λ (s : Started). printed s o) e in
        cc (sym bad ∙ ap (λ (r : Output). is_success r.code) same ∙ ap is_success code),
  )
]
  where
    printed : Started → Output → Output
    printed cannot_start o = o
    printed cannot_wait o = o
    printed (ended q) o = q

-- Either the helper may not be used: it is not installed or, in an AppImage, not byte for byte the
-- bundled one. Then no process is started, and the result is an error. Or it may be used, and pkexec is
-- started exactly once, with the given arguments, and with the secret, if there is one, as a line on
-- its standard input. Then the result is the script's output if it ended with code 0, and an error in
-- every other case.
pub run_script_with_stdin-IsMatching :
    (pkexec : Invocation → Started) (bundle : Option File) (installed : File) (args : List Text)
    (secret : Option Text)
    → let run = run_script_with_stdin pkexec bundle installed args secret in
      (¬ (IsMatching bundle installed)
        × (run.0 ≡ [])
        × ((p : HelperProblem) × (run.1 ≡ err (helper p))))
      ⊎ (IsMatching bundle installed
          × ((call : Invocation) × (run.0 ≡ call ∷ [])
              × (call.args ≡ args)
              × (call.stdin ≡ map_option (λ s. s ++ 10 ∷ []) secret)
              × (((o : Output) × Succeeded (pkexec call) o × (run.1 ≡ ok o.stdout))
                  ⊎ ((e : RunError) × (run.1 ≡ err e)
                      × ¬ ((o : Output) × Succeeded (pkexec call) o)))))
unfolding run_script_with_stdin
run_script_with_stdin-IsMatching pkexec bundle installed args secret =
    of_problem (helper_problem_in bundle installed) refl
  where
    of_problem :
        (problem : Option HelperProblem)
        → helper_problem_in bundle installed ≡ problem
        → (let call : Invocation = record {
          args = args;
          stdin = map_option (λ s. s ++ 10 ∷ []) secret;
        } in
            let run : Run = elim problem [
              | some p ↦ ([], err (helper p))
              | none ↦ (call ∷ [], outcome (pkexec call))
            ] in
            (¬ (IsMatching bundle installed)
              × (run.0 ≡ [])
              × ((p : HelperProblem) × (run.1 ≡ err (helper p))))
            ⊎ (IsMatching bundle installed
                × ((call : Invocation) × (run.0 ≡ call ∷ [])
                    × (call.args ≡ args)
                    × (call.stdin ≡ map_option (λ s. s ++ 10 ∷ []) secret)
                    × (((o : Output) × Succeeded (pkexec call) o × (run.1 ≡ ok o.stdout))
                        ⊎ ((e : RunError) × (run.1 ≡ err e)
                            × ¬ ((o : Output) × Succeeded (pkexec call) o))))))
    of_problem (some p) e =
        inl (λ m. cc (sym e ∙ (helper_problem_in_iff bundle installed).1 m), refl, (p, refl))
    of_problem none e =
        let call : Invocation = record {
          args = args;
          stdin = map_option (λ s. s ++ 10 ∷ []) secret;
        } in
        inr (matching bundle installed e, (call, refl, refl, refl, outcome-cases (pkexec call)))
