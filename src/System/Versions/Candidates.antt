-- ===== src/System/Versions/Candidates.antt =====
-- `version_key` of src/system.rs on release candidates and releases.
use Prim.Native.Nat.{Ordering}
use kernel_pop.Prelude.{
  ℕ, ◌≡◌, ◌≢◌, ◌≤◌, ◌<◌, refl, ◌∙◌, arith, Bool, true, false, some, [], ◌∷◌, ◌++◌, All, or_default,
  All-map,
}
use kernel_pop.Text.{
  Text, codes, is_digit, decimal, starts_with, decimal-All, decimal-ne-nil, IsDigit, parse_unsigned,
  u32_max, parse-decimal,
}
use kernel_pop.System.Versions.{lex, version_key, span, numbers, rest_key, rc_part, release_char}
use kernel_pop.System.Versions.Order.{lex-append}

-- the text is empty, or its first character fails the test
abbrev pub Stops : (ℕ → Bool) → Text → Type 0
Stops p [] = Unit
Stops p (c ∷ t) = p c ≡ false

span-append :
    (p : ℕ → Bool) (a b : Text) → All (λ c. p c ≡ true) a → Stops p b → span p (a ++ b) ≡ (a, b)
unfolding span
span-append p [] [] h stop = refl
span-append p [] (c ∷ b) h stop = rw stop
span-append p (c ∷ a) b (hc, h) stop = rw (hc, span-append p a b h stop)

digit : (c : ℕ) → IsDigit c → is_digit c ≡ true
digit c h = ground arith

span-decimal :
    (n : ℕ) (after : Text)
    → Stops is_digit after
    → span is_digit (decimal n ++ after) ≡ (decimal n, after)
span-decimal n after stop =
    span-append is_digit (decimal n) after (All-map _ _ (decimal n) digit (decimal-All n)) stop

rest_key-some :
    (rest n after : Text)
    → n ≢ []
    → rest_key rest (some (n, after)) ≡ 0 ∷ or_default 0 (parse_unsigned u32_max n) ∷ numbers after
unfolding rest_key
rest_key-some rest [] after h = absurd (h refl)
rest_key-some rest (c ∷ n) after h = refl

module _ (release : Text) (dotted : All (λ c. release_char c ≡ true) release) where
  version_key-append :
      (rest : Text)
      → Stops release_char rest
      → version_key (release ++ rest) ≡ numbers release ++ rest_key rest (rc_part rest)
  unfolding version_key
  version_key-append rest stop = rw (span-append release_char release rest dotted stop)

  -- the text of a candidate behind its release
  abbrev candidate : ℕ → Text → Text
  candidate n after = codes "-rc" ++ (decimal n ++ after)

  version_key-candidate :
      (n : ℕ) (after : Text)
      → n ≤ u32_max
      → Stops is_digit after
      → version_key (release ++ candidate n after) ≡ numbers release ++ 0 ∷ n ∷ numbers after
  unfolding rc_part
  version_key-candidate n after fits stop =
      version_key-append (candidate n after) refl
      ∙ rw (
        span-decimal n after stop,
        rest_key-some (candidate n after) (decimal n) after (decimal-ne-nil n),
        parse-decimal u32_max n fits,
      )

  version_key-final :
      (tail : Text)
      → Stops release_char tail
      → starts_with (codes "-rc") tail ≡ false
      → version_key (release ++ tail) ≡ numbers release ++ 1 ∷ numbers tail
  unfolding rc_part rest_key starts_with
  version_key-final tail stop final = version_key-append tail stop ∙ ground arith

  -- Whatever follows them, "-rcN" of a release is older than that release with any other tail.
  pub candidate-lt-release :
      (n : ℕ) (after tail : Text)
      → n ≤ u32_max
      → Stops is_digit after
      → Stops release_char tail
      → starts_with (codes "-rc") tail ≡ false
      → lex (version_key (release ++ candidate n after)) (version_key (release ++ tail))
        ≡ Ordering.lt
  unfolding lex
  candidate-lt-release n after tail fits stop stop' final =
      rw (version_key-candidate n after fits stop, version_key-final tail stop' final, lex-append)

  -- Of two candidates of a release the one with the smaller number is older.
  pub candidate-lt-candidate :
      (m n : ℕ) (after after' : Text)
      → m < n
      → n ≤ u32_max
      → Stops is_digit after
      → Stops is_digit after'
      → lex
          (version_key (release ++ candidate m after))
          (version_key (release ++ candidate n after'))
        ≡ Ordering.lt
  unfolding lex
  candidate-lt-candidate m n after after' h fits stop stop' =
      rw
        (
          version_key-candidate m after (omega arith) stop,
          version_key-candidate n after' fits stop',
          lex-append,
        )
        (ground arith)
