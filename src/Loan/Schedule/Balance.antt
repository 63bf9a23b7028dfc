-- ===== src/Loan/Schedule/Balance.antt =====
-- The schedule repays the principal exactly, on consecutive months.
use mathlib.Core.Path.{subst}
use credit_iq_ai.Prelude.{
  ◌≡◌, ◌∙◌, refl, ap, sym, true, ◌-◌, ℕ, zero, suc, ◌+◌, List, [], ◌∷◌, ◌==◌, arith, length,
}
use credit_iq_ai.Prelude.Int.{ℤ, pos, ◌+ℤ◌, ◌-ℤ◌, min_ℤ, int_laws, leb_ℤ, ltb_ℤ}
use credit_iq_ai.Errors.{Result, ok, raise_if, >>=-ok_inv, ok-injective}
use credit_iq_ai.Store.{Date, Rate}
use credit_iq_ai.Calendar.{add_months}
use credit_iq_ai.Decimal.{Decimal}
use credit_iq_ai.Loan.Schedule.{
  InstallmentPlan, level_payment, principal_component, installments_from, rounded_interest,
  build_amortization_schedule,
}

abbrev pub total_principal : List InstallmentPlan → ℤ
total_principal [] = pos 0
total_principal (p ∷ ps) = p.principal_due +ℤ total_principal ps

-- Installment `i` of the schedule bears the number i + 1 and falls due i months after the first.
abbrev pub IsMonthly : Date → ℕ → List InstallmentPlan → Type 0
IsMonthly first i [] = Unit
IsMonthly first i (p ∷ ps) =
    (p.sequence_no ≡ i + 1) × (add_months first i ≡ ok p.due_date) × IsMonthly first (i + 1) ps

min_same : (a : ℤ) → min_ℤ a a ≡ a
unfolding min_ℤ
min_same a = ground arith

module _ (D : Decimal) where
  open D use {Number}

  last_component :
      (payment : Number) (tenor index : ℕ) (balance interest : ℤ) {c : ℤ}
      → index + 1 ≡ tenor
      → principal_component D payment tenor index balance interest ≡ ok c
      → c ≡ balance
  unfolding principal_component min_ℤ
  last_component payment tenor index balance interest {c} h e =
      let last : (index == tenor - 1) ≡ true = ground arith in
      let whole : ◌≡◌ {A = Result ℤ} (ok (min_ℤ balance balance)) (ok c) = rw last at e in
      sym (ok-injective whole) ∙ min_same balance

  -- What a run of the loop hands over: the whole balance, one plan a round, on consecutive months.
  abbrev Repays : Date → ℕ → ℕ → ℤ → List InstallmentPlan → Type 0
  Repays first index rounds balance plans =
      (total_principal plans ≡ balance) × (length plans ≡ rounds) × IsMonthly first index plans

  installments_from-Repays :
      (payment rate : Number) (tenor : ℕ) (first : Date) (left index : ℕ) (balance : ℤ)
      {plans : List InstallmentPlan}
      → index + suc left ≡ tenor
      → installments_from D payment rate tenor first (suc left) index balance ≡ ok plans
      → Repays first index (suc left) balance plans
  unfolding installments_from
  installments_from-Repays payment rate tenor first zero index balance e h =
      let (interest, hi, h0) = >>=-ok_inv (rounded_interest D rate balance) _ h in
      let (c, hc, h1) =
        >>=-ok_inv (principal_component D payment tenor index balance interest) _ h0 in
      let whole = last_component payment tenor index balance interest (omega arith) hc in
      let (due, hd, h2) = >>=-ok_inv (add_months first index) _ h1 in
      subst (Repays first index 1 balance) (ok-injective h2)
        (ap (λ z. z +ℤ pos 0) whole ∙ omega int_laws, refl, (refl, hd, tt))
  installments_from-Repays payment rate tenor first (suc left) index balance e h =
      let (interest, hi, h0) = >>=-ok_inv (rounded_interest D rate balance) _ h in
      let (c, hc, h1) =
        >>=-ok_inv (principal_component D payment tenor index balance interest) _ h0 in
      let (due, hd, h2) = >>=-ok_inv (add_months first index) _ h1 in
      let (plans, hp, h3) =
        >>=-ok_inv
          (installments_from D payment rate tenor first (suc left) (index + 1) (balance -ℤ c)) _
          h2 in
      let (total, rounds, monthly) =
        installments_from-Repays payment rate tenor first left (index + 1) (balance -ℤ c)
          (omega arith) hp in
      subst (Repays first index (suc (suc left)) balance) (ok-injective h3)
        (rw total (omega int_laws), ap suc rounds, (refl, hd, monthly))

  -- When a schedule is built, its principal parts add up to exactly the principal, whatever the
  -- rounding of the payments; it has one installment for each month of the tenor, numbered from 1,
  -- and installment i + 1 is due i months after the first due date.
  pub build_amortization_schedule-Repays :
      (principal : ℤ) (rate : Rate) (tenor : ℕ) (first : Date) {plans : List InstallmentPlan}
      → build_amortization_schedule D principal rate tenor first ≡ ok plans
      → (total_principal plans ≡ principal) × (length plans ≡ tenor) × IsMonthly first 0 plans
  unfolding build_amortization_schedule
  build_amortization_schedule-Repays principal rate zero first h = ground arith
  build_amortization_schedule-Repays principal rate (suc left) first h =
      let (_, _, h1) = >>=-ok_inv (raise_if (suc left == 0) _) _ h in
      let (_, _, h2) = >>=-ok_inv (raise_if (leb_ℤ principal (pos 0)) _) _ h1 in
      let (_, _, h3) = >>=-ok_inv (raise_if (ltb_ℤ rate.digits (pos 0)) _) _ h2 in
      let (monthly_rate, hm, h4) =
        >>=-ok_inv (D.div (D.of_rate rate.digits rate.places) (D.of_nat 1200)) _ h3 in
      let (payment, hp, h5) = >>=-ok_inv (level_payment D principal monthly_rate (suc left)) _ h4 in
      installments_from-Repays payment monthly_rate (suc left) first left 0 principal (omega arith)
        h5
