-- ===== src/Tests/Micro.antt =====
-- A concrete arithmetic: millionths, with one number that compares with none, as NaN.
use credit_iq_ai.Prelude.{ℕ, zero, suc, ◌+◌, ◌/◌, ◌^◌, Bool, false, Option, none, some}
use credit_iq_ai.Prelude.Int.{ℤ, pos, pos_part, neg_part, ◌+ℤ◌, ◌-ℤ◌, ◌*ℤ◌, sub_ℕ, ltb_ℤ, eqb_ℤ}
use credit_iq_ai.Float.{Float}

abbrev over : ℤ → ℕ → ℤ
over z zero = pos 0
over z (suc d) = sub_ℕ (pos_part z / suc d) (neg_part z / suc d)

abbrev on_both : (ℤ → ℤ → ℤ) → Option ℤ → Option ℤ → Option ℤ
on_both f (some a) (some b) = some (f a b)
on_both f _ _ = none

abbrev compare_with : (ℤ → ℤ → Bool) → Option ℤ → Option ℤ → Bool
compare_with f (some a) (some b) = f a b
compare_with f _ _ = false

unfoldable pub plus_ℤ : ℤ → ℤ → ℤ
unfolding ◌+ℤ◌
plus_ℤ a b = a +ℤ b

unfoldable pub minus_ℤ : ℤ → ℤ → ℤ
unfolding ◌-ℤ◌
minus_ℤ a b = a -ℤ b

unfoldable pub times_micro : ℤ → ℤ → ℤ
unfolding ◌*ℤ◌
times_micro a b = over (a *ℤ b) (10 ^ 6)

-- Divisors are positive.
unfoldable pub over_micro : ℤ → ℤ → ℤ
unfolding ◌*ℤ◌
over_micro a b = over (a *ℤ pos (10 ^ 6)) (pos_part b)

abbrev rounded : Option ℤ → Option ℤ
rounded (some z) = some (sub_ℕ ((pos_part z + 500000) / 10 ^ 6) ((neg_part z + 500000) / 10 ^ 6))
rounded none = none

abbrev whole : Option ℤ → ℤ
whole (some z) = sub_ℕ ((pos_part z + 999999) / 10 ^ 6) (neg_part z / 10 ^ 6)
whole none = pos 0

abbrev magnitude : Option ℤ → Option ℤ
magnitude (some z) = some (pos (pos_part z + neg_part z))
magnitude none = none

unfoldable pub literal_micro : ℤ → ℕ → ℤ
unfolding ◌*ℤ◌
literal_micro m k = over (m *ℤ pos (10 ^ 6)) (10 ^ k)

abbrev pub micro : Float
micro = record {
  Number = Option ℤ;
  literal = λ m k. some (literal_micro m k);
  lt = compare_with ltb_ℤ;
  eq = compare_with eqb_ℤ;
  add = on_both plus_ℤ;
  sub = on_both minus_ℤ;
  mul = on_both times_micro;
  div = on_both over_micro;
  abs = magnitude;
  log = λ x. x;
  sqrt = λ x. x;
  round_int = rounded;
  ceil_int = whole;
  round_to = λ x n. x;
}
