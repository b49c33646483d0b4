-- ===== src/Text/Numbers.antt =====
-- Integers as text: `{n}` of `format!`, and `parse` of the unsigned and signed types.
use kernel_pop.Prelude.{
  ℕ, zero, suc, ◌+◌, ◌-◌, ◌*◌, ◌/◌, ◌%◌, ◌^◌, Bool, true, false, ◌≡◌, arith, Option, none, some, [],
  ◌∷◌, map_option, ltb, leb, ◌==◌, if◌then◌else◌,
}
use kernel_pop.Text.Chars.{Text, is_digit}

abbrev pub u32_max : ℕ
u32_max = 2 ^ 32 - 1

abbrev pub u64_max : ℕ
u64_max = 2 ^ 64 - 1

-- the digits of `n` before `out`; `n + 1` rounds are more than enough
unfoldable pub digits : ℕ → ℕ → Text → Text
digits zero n out = out
digits (suc f) n out =
    let more = digits f (n / 10) ((48 + n % 10) ∷ out) in if ltb n 10 then (48 + n) ∷ out else more

unfoldable pub decimal : ℕ → Text
unfolding digits
decimal n = digits (suc n) n []

-- the number that digits spell behind `n`; none past the bound of the type
unfoldable pub scan : ℕ → ℕ → Text → Option ℕ
scan bound n [] = some n
scan bound n (c ∷ t) =
    let m = n * 10 + (c - 48) in
    let rest = scan bound m t in if is_digit c then (if leb m bound then rest else none) else none

-- `text.parse::<uN>()`: one "+" may stand first, and at least one digit follows.
unfoldable pub parse_unsigned : ℕ → Text → Option ℕ
unfolding scan
parse_unsigned bound [] = none
parse_unsigned bound (c ∷ []) = scan bound 0 (c ∷ [])
parse_unsigned bound (c ∷ d ∷ t) =
    if c == b'+' then scan bound 0 (d ∷ t) else scan bound 0 (c ∷ d ∷ t)

-- `negsuc n` is -(n + 1)
pub data ℤ : Type 0 where
  pos : ℕ → ℤ
  negsuc : ℕ → ℤ

unfoldable pub ℤ_eq : ℤ → ℤ → Bool
ℤ_eq (pos a) (pos b) = a == b
ℤ_eq (pos a) (negsuc b) = false
ℤ_eq (negsuc a) (pos b) = false
ℤ_eq (negsuc a) (negsuc b) = a == b

pub ℤ_eq_sound : (a b : ℤ) → ℤ_eq a b ≡ true → a ≡ b
unfolding ℤ_eq
ℤ_eq_sound (pos a) (pos b) h = ground arith
ℤ_eq_sound (pos a) (negsuc b) h = cc
ℤ_eq_sound (negsuc a) (pos b) h = cc
ℤ_eq_sound (negsuc a) (negsuc b) h = ground arith

pub ℤ_eq_refl : (a : ℤ) → ℤ_eq a a ≡ true
unfolding ℤ_eq
ℤ_eq_refl (pos a) = ground arith
ℤ_eq_refl (negsuc a) = ground arith

abbrev pub negate : ℕ → ℤ
negate zero = pos 0
negate (suc n) = negsuc n

unfoldable pub decimal_int : ℤ → Text
unfolding decimal
decimal_int (pos n) = decimal n
decimal_int (negsuc n) = b'-' ∷ decimal (n + 1)

-- `text.parse::<i64>()`: one "+" or "-" may stand first, and at least one digit follows.
unfoldable pub parse_i64 : Text → Option ℤ
unfolding scan
parse_i64 [] = none
parse_i64 (c ∷ []) = map_option pos (scan (2 ^ 63 - 1) 0 (c ∷ []))
parse_i64 (c ∷ d ∷ t) =
    if c == b'-'
    then map_option negate (scan (2 ^ 63) 0 (d ∷ t))
    else if c == b'+'
    then map_option pos (scan (2 ^ 63 - 1) 0 (d ∷ t))
    else map_option pos (scan (2 ^ 63 - 1) 0 (c ∷ d ∷ t))
