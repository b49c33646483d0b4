-- ===== src/Build/Configure/Behind.antt =====
-- The last commands of `configure` of src/build.rs before it reads the configuration.
use mathlib.Core.Path.{subst}
use kernel_pop.Prelude.{
  Bool, true, false, List, ◌≡◌, refl, ap, ◌∙◌, Result, ok, err, if◌then◌else◌, ok_injective,
}
use kernel_pop.Text.{Text}
use kernel_pop.Build.Texts.{parse_proc_modules}
use kernel_pop.Build.Sets.{ConfigMode}
use kernel_pop.Build.Configure.Notes.{kept_modules}
use kernel_pop.Build.Configure.{
  Tools, ConfigError, Job, ◌>>=◌, ask, run, tune, check, lift, of_option, apply_fixes, olddefconfig,
  run_with, Command, Ran, ended, not_started, cancelled, failed, localmodconfig, of_ran, no_modules,
  write_modules,
}

-- a success comes from two successes
pub >>=-ok :
    {W A B : Type 0} (job : Job W A) (rest : A → Job W B) (w : W) {b : B} {u : W}
    → (job >>= rest) w ≡ (ok b, u)
    → (a : A) × (v : W) × (job w ≡ (ok a, v)) × (rest a v ≡ (ok b, u))
unfolding ◌>>=◌
>>=-ok job rest w {b = b} {u = u} h = by_result (job w) refl h
  where
    by_result :
        (r : Result ConfigError _ × _)
        → job w ≡ r
        → (let (q, v) = r in elim q [ err e ↦ (err e, v) | ok a ↦ rest a v ]) ≡ (ok b, u)
        → (a : _) × (v : _) × (job w ≡ (ok a, v)) × (rest a v ≡ (ok b, u))
    by_result (err e, v) is g = cc
    by_result (ok a, v) is g = (a, v, is, g)

abbrev pub passes : Result ConfigError (Unit {0})
passes = ok tt

pub passed : (b : Bool) (e : ConfigError) → (if b then passes else err e) ≡ passes → b ≡ true
passed true e h = refl
passed false e h = cc

module _ {W : Type 0} (t : Tools W) where
  -- a command that ran and succeeded
  abbrev pub Succeeds : Command → W → W → Type 0
  Succeeds c v u = (ls : List Text) × (t.run_with c v ≡ (ended true ls, u))

  -- the commands that the configuration was read behind, in that order and with nothing between
  abbrev pub IsConfigured : ConfigMode → W → Type 0
  IsConfigured ConfigMode.match_system v = (a : W) × Succeeds olddefconfig a v
  IsConfigured (ConfigMode.own_config path) v = (a : W) × Succeeds olddefconfig a v
  IsConfigured ConfigMode.tuned_for_machine v =
      (a b c : W) × Succeeds localmodconfig a b
      × Succeeds apply_fixes b c
      × Succeeds olddefconfig c v

  of_ran_ok :
      (c : Command) (v u x : W) (r : Ran × W) (succeeded : Bool) (lines : List Text)
      → t.run_with c v ≡ r
      → of_ran c r.0 ≡ ok (succeeded, lines)
      → r.1 ≡ x
      → succeeded ≡ true
      → x ≡ u
      → Succeeds c v u
  of_ran_ok c v u x (not_started, z) succeeded lines e k at done same = cc
  of_ran_ok c v u x (cancelled, z) succeeded lines e k at done same = cc
  of_ran_ok c v u x (ended b ls, z) succeeded lines e k at done same =
      let is : b ≡ true = ap (λ q. q.0) (ok_injective refl k) ∙ done in
      let there : z ≡ u = at ∙ same in (ls, e ∙ λ i. (ended (is i) ls, there i))

  pub run-ok :
      (c : Command) (v : W) {ls : List Text} {u : W} → run t c v ≡ (ok ls, u) → Succeeds c v u
  unfolding run run_with
  run-ok c v {ls} {u} h =
      let ((succeeded, lines), x, ran, rest) = >>=-ok (run_with t c) _ v h in
      let (_, y, checked, given) = >>=-ok (check succeeded (failed c)) _ x rest in
      let done = passed succeeded (failed c) (ap (λ p. p.0) checked) in
      let same : x ≡ u = ap (λ p. p.1) checked ∙ ap (λ p. p.1) given in
      of_ran_ok c v u x (t.run_with c v) succeeded lines refl (ap (λ p. p.0) ran)
        (ap (λ p. p.1) ran) done same

  pub tune-IsConfigured :
      (mode : ConfigMode) (fixes : List Text) (a v : W) {b : List Text × List Text} {u : W}
      → Succeeds olddefconfig a v
      → tune t mode fixes v ≡ (ok b, u)
      → IsConfigured mode u
  unfolding tune
  tune-IsConfigured ConfigMode.match_system fixes a v ran h =
      (a, subst (Succeeds olddefconfig a) (ap (λ p. p.1) h) ran)
  tune-IsConfigured (ConfigMode.own_config path) fixes a v ran h =
      (a, subst (Succeeds olddefconfig a) (ap (λ p. p.1) h) ran)
  tune-IsConfigured ConfigMode.tuned_for_machine fixes a v ran h =
      let (text, w1, _, h1) = >>=-ok (ask t t.proc_modules) _ v h in
      let (loaded, w2, _, h2) = >>=-ok (lift (of_option no_modules text)) _ w1 h1 in
      let (present, w3, _, h3) = >>=-ok (ask t t.present_modules) _ w2 h2 in
      let (_, w4, _, h4) =
        >>=-ok (write_modules t (kept_modules (parse_proc_modules loaded) present)) _ w3 h3 in
      let (_, w5, trimmed, h5) = >>=-ok (run t localmodconfig) _ w4 h4 in
      let (_, w6, fixed, h6) = >>=-ok (run t apply_fixes) _ w5 h5 in
      let (_, w7, made, h7) = >>=-ok (run t olddefconfig) _ w6 h6 in
      (
        w4,
        w5,
        w6,
        run-ok localmodconfig w4 trimmed,
        run-ok apply_fixes w5 fixed,
        subst (Succeeds olddefconfig w6) (ap (λ p. p.1) h7) (run-ok olddefconfig w6 made),
      )
