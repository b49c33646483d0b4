-- ===== src/Install/Failures.antt =====
-- The results of `describe_failure` and `tail_lines` in src/install.rs.
use Prim.Native.Nat.{min}
use kernel_pop.Prelude.{
  ℕ, ◌-◌, false, not, Option, none, some, [], ◌&&◌, ◌++◌, List, keep, take, length, ◌≡◌, refl,
  arith, ◌↔◌, ◌⊎◌, inl, inr, sym, Bool-cases, take-append-drop, length-drop,
}
use kernel_pop.Text.{Text, lines, ℤ, pos, ℤ_eq, text_eq_sound, text_eq_refl, ℤ_eq_sound, ℤ_eq_refl}
use kernel_pop.Install.{
  tail_of, is_blank, tail_lines, error_tail_lines, describe_failure, authentication_cancelled,
  not_authorized, script_ran,
}

-- `tail_of` is the end of the lines that are not blank, as many of them as there are up to `n`.
pub tail_of-end :
    (text : Text) (n : ℕ)
    → (before : List Text) × (keep (λ l. not (is_blank l)) (lines text) ≡ before ++ tail_of text n)
      × (length (tail_of text n) ≡ min n (length (keep (λ l. not (is_blank l)) (lines text))))
unfolding tail_of
tail_of-end text n =
    let ls = keep (λ l. not (is_blank l)) (lines text) in
    (
      take (length ls - n) ls,
      sym (take-append-drop (length ls - n) ls),
      omega (arith, length-drop (length ls - n) ls),
    )

not_126 : ℤ_eq (pos 127) (pos 126) ≡ false
unfolding ℤ_eq
not_126 = refl

-- A run is called a cancelled authentication if and only if it exited with 126 and printed no line of
-- the script; it is called not authorized if and only if it exited with 127 and printed none.
pub describe_failure-pkexec :
    (code : Option ℤ) (stdout stderr : Text)
    → (((describe_failure code stdout stderr).failure ≡ authentication_cancelled)
        ↔ ((code ≡ some (pos 126)) × (script_ran stdout ≡ false)))
      × (((describe_failure code stdout stderr).failure ≡ not_authorized)
          ↔ ((code ≡ some (pos 127)) × (script_ran stdout ≡ false)))
unfolding describe_failure
describe_failure-pkexec none stdout stderr = ((λ h. cc, λ h. cc), (λ h. cc, λ h. cc))
describe_failure-pkexec (some c) stdout stderr =
    let sound_126 = ℤ_eq_sound c (pos 126) in
    let sound_127 = ℤ_eq_sound c (pos 127) in
    let refl_126 = ℤ_eq_refl (pos 126) in
    let refl_127 = ℤ_eq_refl (pos 127) in
    (
      (λ h. (ground (arith, sound_126), ground (arith, sound_126)), λ h. ground (arith, refl_126)),
      (
        λ h. (ground (arith, sound_127), ground (arith, sound_127)),
        λ h. ground (arith, refl_127, not_126),
      ),
    )

-- The tail of stderr is left out of the description if and only if it is empty, or the run exited with
-- 126 and printed no line of the script.
pub describe_failure-stderr :
    (code : Option ℤ) (stdout stderr : Text)
    → ((describe_failure code stdout stderr).stderr_tail ≡ none) ↔ (
        (tail_lines stderr error_tail_lines ≡ [])
        ⊎ (code ≡ some (pos 126)) × (script_ran stdout ≡ false))
unfolding describe_failure
describe_failure-stderr none stdout stderr =
    let tail = tail_lines stderr error_tail_lines in
    (
      λ h. inl (text_eq_sound tail [] (ground arith)),
      λ h. elim h [ inl e ↦ ground (arith, text_eq_refl []) | inr e ↦ cc ],
    )
describe_failure-stderr (some c) stdout stderr =
    let tail = tail_lines stderr error_tail_lines in
    (
      λ h. elim (Bool-cases (ℤ_eq c (pos 126) && not (script_ran stdout))) [
        | inl hit ↦ inr (ground (arith, ℤ_eq_sound c (pos 126)), ground arith)
        | inr miss ↦ inl (text_eq_sound tail [] (ground arith))
      ],
      λ h. elim h [
        | inl e ↦ ground (arith, text_eq_refl [])
        | inr e ↦ ground (arith, ℤ_eq_refl (pos 126))
      ],
    )
