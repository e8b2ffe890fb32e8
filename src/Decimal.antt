-- ===== src/Decimal.antt =====
-- Python's `decimal.Decimal` as the program uses it: finite values, under the default context,
-- which rounds the result of an operation to 28 significant digits, half to even.
use pgjp_trading.Prelude.{
  ℕ, zero, suc, ◌+◌, ◌-◌, ◌*◌, ◌/◌, ◌%◌, ◌^◌, ◌≡◌, Bool, ◌&&◌, ◌||◌, arith, ltb, ◌==◌,
  if◌then◌else◌,
}
use pgjp_trading.Prelude.Int.{ℤ, pos, negsuc, pos_part, neg_part, sub_ℕ, nat_abs, ltb_ℤ, leb_ℤ}

-- The value is coefficient / 10 ^ places. Positive exponents stand in the coefficient.
pub record Decimal : Type 0 where
  pub coefficient : ℤ
  pub places : ℕ

abbrev pub precision : ℕ
precision = 28

abbrev pub of_int : ℤ → Decimal
of_int n = record { coefficient = n; places = 0 }

-- `Decimal("0")`
abbrev pub zero_decimal : Decimal
zero_decimal = of_int (pos 0)

-- The number of decimal digits of a positive `n`, on fuel `n`.
digit_count_from : ℕ → ℕ → ℕ
digit_count_from zero n = 0
digit_count_from (suc fuel) n =
    let rest = digit_count_from fuel (n / 10) in if n == 0 then 0 else suc rest

abbrev digit_count : ℕ → ℕ
digit_count n = digit_count_from n n

-- Rounds to `precision` digits, half to even.
round_half_even : ℕ → ℕ
unfolding digit_count_from
round_half_even n =
    let unit = 10 ^ (digit_count n - precision) in
    let q = n / unit in
    let r = n % unit in
    if ltb unit (2 * r) || (2 * r == unit && q % 2 == 1) then (q + 1) * unit else q * unit

-- The sign is kept.
round_coefficient : ℤ → ℤ
unfolding round_half_even
round_coefficient (pos n) = pos (round_half_even n)
round_coefficient (negsuc n) = sub_ℕ 0 (round_half_even (suc n))

-- Comparisons are exact.
abbrev scaled : ℤ → ℕ → ℤ
scaled c k = sub_ℕ (pos_part c * 10 ^ k) (neg_part c * 10 ^ k)

unfoldable pub lt_decimal : Decimal → Decimal → Bool
lt_decimal a b = ltb_ℤ (scaled a.coefficient b.places) (scaled b.coefficient a.places)

unfoldable pub le_decimal : Decimal → Decimal → Bool
le_decimal a b = leb_ℤ (scaled a.coefficient b.places) (scaled b.coefficient a.places)

unfoldable pub neg_decimal : Decimal → Decimal
unfolding round_coefficient
neg_decimal a = record a {
  coefficient = round_coefficient (sub_ℕ (neg_part a.coefficient) (pos_part a.coefficient));
}

unfoldable pub abs_decimal : Decimal → Decimal
unfolding round_coefficient
abs_decimal a = record a { coefficient = round_coefficient (pos (nat_abs a.coefficient)) }

unfoldable pub add_decimal : Decimal → Decimal → Decimal
unfolding round_coefficient
add_decimal a b = record {
  coefficient = round_coefficient (
      sub_ℕ (pos_part a.coefficient * 10 ^ b.places + pos_part b.coefficient * 10 ^ a.places)
        (neg_part a.coefficient * 10 ^ b.places + neg_part b.coefficient * 10 ^ a.places));
  places = a.places + b.places;
}

unfoldable pub sub_decimal : Decimal → Decimal → Decimal
unfolding round_coefficient
sub_decimal a b = record {
  coefficient = round_coefficient (
      sub_ℕ (pos_part a.coefficient * 10 ^ b.places + neg_part b.coefficient * 10 ^ a.places)
        (neg_part a.coefficient * 10 ^ b.places + pos_part b.coefficient * 10 ^ a.places));
  places = a.places + b.places;
}

unfoldable pub mul_decimal : Decimal → Decimal → Decimal
unfolding round_coefficient
mul_decimal a b = record {
  coefficient = round_coefficient (
      sub_ℕ
        (pos_part a.coefficient * pos_part b.coefficient
          + neg_part a.coefficient * neg_part b.coefficient)
        (pos_part a.coefficient * neg_part b.coefficient
          + neg_part a.coefficient * pos_part b.coefficient));
  places = a.places + b.places;
}

-- The digits of a quotient, one more than the precision; an inexact quotient that would look like a
-- tie is moved off it, as in the module `_pydecimal`.
quotient_digits : ℕ → ℕ → ℕ
quotient_digits n d = if n % d == 0 then n / d else if n / d % 5 == 0 then n / d + 1 else n / d

-- `a / b` for a divisor other than zero.
unfoldable pub div_decimal : Decimal → Decimal → Decimal
unfolding round_half_even quotient_digits
div_decimal a b =
    let m = nat_abs a.coefficient in
    let d = nat_abs b.coefficient in
    let up = digit_count d + precision + 1 - digit_count m in
    let down = digit_count m - (digit_count d + precision + 1) in
    let q = round_half_even (quotient_digits (m * 10 ^ up) (d * 10 ^ down)) in
    let scale = q * 10 ^ (b.places + down - (a.places + up)) in
    record {
      coefficient =
          if leb_ℤ (pos 0) a.coefficient && leb_ℤ (pos 0) b.coefficient
            || ltb_ℤ a.coefficient (pos 0) && ltb_ℤ b.coefficient (pos 0)
          then pos scale
          else sub_ℕ 0 scale;
      places = a.places + up - (b.places + down);
    }

abbrev pub is_zero_decimal : Decimal → Bool
is_zero_decimal a = nat_abs a.coefficient == 0

-- `not (a < b)` is `b <= a`.
pub le_of_not_lt : (a b : Decimal) → lt_decimal a b ≡ Bool.false → le_decimal b a ≡ Bool.true
unfolding lt_decimal le_decimal
le_of_not_lt a b h = ground arith
