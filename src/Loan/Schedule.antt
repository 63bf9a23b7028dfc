-- ===== src/Loan/Schedule.antt =====
-- `build_amortization_schedule` of backend/app/modules/loan/servicing.py, over any decimal
-- arithmetic.
pub mod Balance
use credit_iq_ai.Prelude.{ℕ, zero, suc, ◌+◌, ◌-◌, List, [], ◌∷◌, ◌==◌, if◌then◌else◌}
use credit_iq_ai.Prelude.Int.{ℤ, pos, ◌-ℤ◌, leb_ℤ, ltb_ℤ, min_ℤ}
use credit_iq_ai.Errors.{Result, ok, err, domain_rule, raise_if, ◌>>◌, ◌>>=◌}
use credit_iq_ai.Store.{Date, Rate}
use credit_iq_ai.Calendar.{add_months}
use credit_iq_ai.Decimal.{Decimal}

pub record InstallmentPlan : Type 0 where
  pub sequence_no : ℕ
  pub due_date : Date
  pub principal_due : ℤ
  pub interest_due : ℤ

module _ (D : Decimal) where
  open D use {Number, of_cents, of_rate, of_nat, sub, mul, div, add, pow, is_zero, quantize}

  -- The payment of a loan with interest.
  unfoldable pub compound_payment : ℤ → Number → ℕ → Result Number
  compound_payment balance monthly_rate tenor_months = do
    base ← add (of_nat 1) monthly_rate
    growth ← pow base tenor_months
    interest ← mul (of_cents balance) monthly_rate
    numerator ← mul interest growth
    denominator ← sub growth (of_nat 1)
    div numerator denominator

  -- The level payment before rounding.
  unfoldable pub level_payment : ℤ → Number → ℕ → Result Number
  level_payment balance monthly_rate tenor_months =
      if is_zero monthly_rate
      then div (of_cents balance) (of_nat tenor_months)
      else compound_payment balance monthly_rate tenor_months

  abbrev pub rounded_rest : Number → ℤ → Result ℤ
  rounded_rest payment interest = do rest ← sub payment (of_cents interest); quantize rest

  -- The principal of installment `index`: the last one takes the whole balance.
  unfoldable pub principal_component : Number → ℕ → ℕ → ℤ → ℤ → Result ℤ
  principal_component payment tenor_months index balance interest = do
    component ← if index == tenor_months - 1 then ok balance else rounded_rest payment interest
    ok (min_ℤ component balance)

  abbrev pub rounded_interest : Number → ℤ → Result ℤ
  rounded_interest monthly_rate balance = do
    interest ← mul (of_cents balance) monthly_rate
    quantize interest

  -- The loop at `index`, with `left` rounds to go.
  unfoldable pub installments_from :
      Number → Number → ℕ → Date → ℕ → ℕ → ℤ → Result (List InstallmentPlan)
  installments_from payment monthly_rate tenor_months first_due_date zero index balance = ok []
  installments_from payment monthly_rate tenor_months first_due_date (suc left) index balance = do
    interest ← rounded_interest monthly_rate balance
    component ← principal_component payment tenor_months index balance interest
    due ← add_months first_due_date index
    plans ←
        installments_from payment monthly_rate tenor_months first_due_date left (index + 1)
          (balance -ℤ component)
    ok (
        record {
          sequence_no = index + 1;
          due_date = due;
          principal_due = component;
          interest_due = interest;
        }
        ∷ plans)

  unfoldable pub build_amortization_schedule : ℤ → Rate → ℕ → Date → Result (List InstallmentPlan)
  build_amortization_schedule principal annual_interest_rate tenor_months first_due_date = do
    raise_if (tenor_months == 0) (domain_rule "Loan tenor must be positive")
    raise_if (leb_ℤ principal (pos 0)) (domain_rule "Disbursed principal must be positive")
    raise_if (ltb_ℤ annual_interest_rate.digits (pos 0))
        (domain_rule "Interest rate cannot be negative")
    monthly_rate ←
        div (of_rate annual_interest_rate.digits annual_interest_rate.places) (of_nat 1200)
    payment ← level_payment principal monthly_rate tenor_months
    installments_from payment monthly_rate tenor_months first_due_date tenor_months 0 principal
