-- ===== src/Decimal.antt =====
-- Python's `decimal.Decimal` where backend/app/modules/loan/servicing.py computes with more than
-- two places. Amounts themselves are whole cents, which decimal addition, subtraction and `min`
-- keep exact, so `_money` of them is the amount; rates, products, quotients and powers are decimals
-- of a context whose precision the models leave open, and whose traps may stop an operation.
use credit_iq_ai.Prelude.{ℕ, Bool}
use credit_iq_ai.Prelude.Int.{ℤ}
use credit_iq_ai.Errors.{Result}

pub record Decimal : Type 1 where
  pub Number : Type 0
  -- An amount in cents; `of_rate m k` is m · 10^-k.
  pub of_cents : ℤ → Number
  pub of_rate : ℤ → ℕ → Number
  pub of_nat : ℕ → Number
  -- DivisionByZero, InvalidOperation and Overflow are errors.
  pub sub : Number → Number → Result Number
  pub mul : Number → Number → Result Number
  pub div : Number → Number → Result Number
  pub add : Number → Number → Result Number
  pub pow : Number → ℕ → Result Number
  pub is_zero : Number → Bool
  -- `quantize(Decimal("0.01"), ROUND_HALF_UP)`, in cents.
  pub quantize : Number → Result ℤ
