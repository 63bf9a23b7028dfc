-- ===== src/Float.antt =====
-- Python's `float` where ai-engine/creditiq_ai computes with it: an arithmetic whose rounding the
-- models leave open, and whose order may leave two numbers incomparable, as NaN is.
use credit_iq_ai.Prelude.{Option, ℕ, Bool, true, if◌then◌else◌}
use credit_iq_ai.Prelude.Int.{ℤ, pos}

pub record Float : Type 1 where
  pub Number : Type 0
  -- `literal m k` is m · 10^-k.
  pub literal : ℤ → ℕ → Number
  pub lt : Number → Number → Bool
  pub eq : Number → Number → Bool
  pub add : Number → Number → Number
  pub sub : Number → Number → Number
  pub mul : Number → Number → Number
  pub div : Number → Number → Number
  pub abs : Number → Number
  pub log : Number → Number
  pub sqrt : Number → Number
  -- `round(x)`, which raises on a number that is not finite, `math.ceil(x)` and `round(x, n)`.
  pub round_int : Number → Option ℤ
  pub ceil_int : Number → ℤ
  pub round_to : Number → ℕ → Number

module _ (F : Float) where
  open F use {Number, literal, lt, eq}

  abbrev pub zero_float : Number
  zero_float = literal (pos 0) 0

  abbrev pub one_float : Number
  one_float = literal (pos 1) 0

  -- Python's `min(a, b)` and `max(a, b)` keep `a` unless `b` is strictly beyond it.
  abbrev pub min_float : Number → Number → Number
  min_float a b = if lt b a then b else a

  abbrev pub max_float : Number → Number → Number
  max_float a b = if lt a b then b else a

  -- `x or 1.0`
  abbrev pub or_one : Number → Number
  or_one x = if eq x zero_float then one_float else x

  -- `a >= b`
  abbrev pub ge_float : Number → Number → Bool
  ge_float a b = if lt b a then true else eq a b
