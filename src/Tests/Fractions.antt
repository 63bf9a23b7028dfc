-- ===== src/Tests/Fractions.antt =====
-- An exact decimal arithmetic: fractions, rounded half up where the source quantizes.
use credit_iq_ai.Prelude.{ℕ, zero, suc, ◌+◌, ◌*◌, ◌/◌, ◌^◌, ◌==◌}
use credit_iq_ai.Prelude.Int.{ℤ, pos, negsuc, pos_part, neg_part, ◌+ℤ◌, ◌-ℤ◌, ◌*ℤ◌, sub_ℕ}
use credit_iq_ai.Errors.{Result, ok, err, arithmetic_error}
use credit_iq_ai.Decimal.{Decimal}

abbrev Fraction : Type 0
Fraction = ℤ × ℕ

-- a / b in cents, half away from zero.
abbrev round_cents : Fraction → ℤ
round_cents (pos a, b) = pos ((200 * a + b) / (2 * b))
round_cents (negsuc a, b) = sub_ℕ 0 ((200 * suc a + b) / (2 * b))

unfoldable pub times : Fraction → Fraction → Fraction
times (a, b) (c, d) = (a *ℤ c, b * d)

unfoldable pub power : Fraction → ℕ → Fraction
unfolding times
power x zero = (pos 1, 1)
power x (suc n) = times x (power x n)

abbrev over : Fraction → Fraction → Result Fraction
over (a, b) (pos zero, d) = err (arithmetic_error "DivisionByZero")
over (a, b) (pos (suc c), d) = ok (a *ℤ pos d, b * suc c)
over (a, b) (negsuc c, d) = ok (negsuc 0 *ℤ (a *ℤ pos d), b * suc c)

abbrev pub fractions : Decimal
fractions = record {
  Number = Fraction;
  of_cents = λ z. (z, 100);
  of_rate = λ z k. (z, 10 ^ k);
  of_nat = λ n. (pos n, 1);
  sub = λ x y. ok (x.0 *ℤ pos y.1 -ℤ y.0 *ℤ pos x.1, x.1 * y.1);
  mul = λ x y. ok (times x y);
  div = over;
  add = λ x y. ok (x.0 *ℤ pos y.1 +ℤ y.0 *ℤ pos x.1, x.1 * y.1);
  pow = λ x n. ok (power x n);
  is_zero = λ x. (pos_part x.0 + neg_part x.0) == 0;
  quantize = λ x. ok (round_cents x);
}
