-- ===== src/Text/DecimalRoundTrip.antt =====
-- A printed number is read back, and is made of digits.
use kernel_pop.Prelude.{
  ℕ, zero, suc, ◌+◌, ◌-◌, ◌*◌, ◌/◌, ◌%◌, ◌≤◌, ◌<◌, ◌≡◌, ◌≢◌, refl, some, [], ◌∷◌, arith, All, ◌∙◌,
  ◌^◌, ap, map_option,
}
use mathlib.Core.List.{cons-ne-nil}
use native.Mathlib.Numerals.{add-one}
use kernel_pop.Text.Chars.{Text}
use kernel_pop.Text.Numbers.{
  ℤ, pos, negsuc, negate, decimal_int, parse_i64, digits, decimal, scan, parse_unsigned,
}

abbrev pub IsDigit : ℕ → Type 0
IsDigit c = (48 ≤ c) × (c ≤ 57)

digits-All : (f n : ℕ) (out : Text) → All IsDigit out → All IsDigit (digits f n out)
unfolding digits
digits-All zero n out h = h
digits-All (suc f) n out h =
    ground (arith, digits-All f (n / 10) ((48 + n % 10) ∷ out) ((omega arith, omega arith), h))

pub decimal-All : (n : ℕ) → All IsDigit (decimal n)
unfolding decimal
decimal-All n = digits-All (suc n) n [] tt

digits-ne-nil : (f n : ℕ) (out : Text) → out ≢ [] → digits f n out ≢ []
unfolding digits
digits-ne-nil zero n out h = h
digits-ne-nil (suc f) n out h =
    ground (arith, digits-ne-nil f (n / 10) ((48 + n % 10) ∷ out) (cons-ne-nil _ _))

pub decimal-ne-nil : (n : ℕ) → decimal n ≢ []
unfolding decimal digits
decimal-ne-nil n = ground (arith, digits-ne-nil n (n / 10) ((48 + n % 10) ∷ []) (cons-ne-nil _ _))

scan-digits :
    (bound f n : ℕ) (out : Text)
    → n < f
    → n ≤ bound
    → scan bound 0 (digits f n out) ≡ scan bound n out
unfolding scan digits
scan-digits bound zero n out h fits = absurd (omega arith)
scan-digits bound (suc f) n out h fits =
    ground (arith, scan-digits bound f (n / 10) ((48 + n % 10) ∷ out))

parse_unsigned-scan :
    (bound : ℕ) (t : Text) → t ≢ [] → All IsDigit t → parse_unsigned bound t ≡ scan bound 0 t
unfolding parse_unsigned
parse_unsigned-scan bound [] h d = absurd (h refl)
parse_unsigned-scan bound (c ∷ []) h d = refl
parse_unsigned-scan bound (c ∷ e ∷ t) h d = ground arith

-- A number in the range of its type is read back from its decimal print.
pub parse-decimal : (bound n : ℕ) → n ≤ bound → parse_unsigned bound (decimal n) ≡ some n
parse-decimal bound n fits =
    parse_unsigned-scan bound (decimal n) (decimal-ne-nil n) (decimal-All n)
    ∙ (unfold decimal in unfold scan in scan-digits bound (suc n) n [] (omega arith) fits)

scan-le : (bound n : ℕ) (t : Text) {r : ℕ} → n ≤ bound → scan bound n t ≡ some r → r ≤ bound
unfolding scan
scan-le bound n [] fits h = ground arith
scan-le bound n (c ∷ t) {r} fits h = ground (arith, scan-le bound (n * 10 + (c - 48)) t {r = r})

-- A number that is read is in the range of its type.
pub parse-le : (bound : ℕ) (t : Text) {r : ℕ} → parse_unsigned bound t ≡ some r → r ≤ bound
unfolding parse_unsigned
parse-le bound [] h = ground arith
parse-le bound (c ∷ []) {r} h = scan-le bound 0 (c ∷ []) (omega arith) h
parse-le bound (c ∷ d ∷ t) {r} h =
    ground (arith, scan-le bound 0 (d ∷ t) {r = r}, scan-le bound 0 (c ∷ d ∷ t) {r = r})

scan-decimal : (bound n : ℕ) → n ≤ bound → scan bound 0 (decimal n) ≡ some n
unfolding decimal scan
scan-decimal bound n fits = scan-digits bound (suc n) n [] (omega arith) fits

-- the values of an `i64`
abbrev pub IsI64 : ℤ → Type 0
IsI64 (pos n) = n < 2 ^ 63
IsI64 (negsuc n) = n < 2 ^ 63

parse_i64-scan :
    (t : Text) → t ≢ [] → All IsDigit t → parse_i64 t ≡ map_option pos (scan (2 ^ 63 - 1) 0 t)
unfolding parse_i64
parse_i64-scan [] h d = absurd (h refl)
parse_i64-scan (c ∷ []) h d = refl
parse_i64-scan (c ∷ e ∷ t) h d = ground arith

parse_i64-minus : (t : Text) → t ≢ [] → parse_i64 (b'-' ∷ t) ≡ map_option negate (scan (2 ^ 63) 0 t)
unfolding parse_i64
parse_i64-minus [] h = absurd (h refl)
parse_i64-minus (c ∷ t) h = refl

-- So it is with a signed number.
pub parse_i64-decimal_int : (m : ℤ) → IsI64 m → parse_i64 (decimal_int m) ≡ some m
unfolding decimal_int
parse_i64-decimal_int (pos n) fits =
    parse_i64-scan (decimal n) (decimal-ne-nil n) (decimal-All n)
    ∙ ap (map_option pos) (scan-decimal (2 ^ 63 - 1) n (omega arith))
parse_i64-decimal_int (negsuc n) fits =
    parse_i64-minus (decimal (n + 1)) (decimal-ne-nil (n + 1))
    ∙ ap (map_option negate) (scan-decimal (2 ^ 63) (n + 1) (omega arith))
    ∙ rw add-one
