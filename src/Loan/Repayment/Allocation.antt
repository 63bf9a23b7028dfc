-- ===== src/Loan/Repayment/Allocation.antt =====
-- No cent of a payment is lost or made up, and no installment is overpaid.
use mathlib.Core.Path.{subst}
use credit_iq_ai.Prelude.{◌≡◌, refl, sym, ap, ℕ, List, [], ◌∷◌, arith, All, Bool-cases, inl, inr}
use credit_iq_ai.Prelude.Int.{
  leb_ℤ-le, lt_or_le_ℤ, parts_of_eq, ltb_ℤ, ℤ, pos, ◌+ℤ◌, ◌-ℤ◌, ◌≤ℤ◌, ◌<ℤ◌, leb_ℤ, min_ℤ, int_laws,
  +ℤ_parts, -ℤ_parts, min_ℤ_parts, eq_of_parts,
}
use credit_iq_ai.Errors.{ok, raise_if, >>=-ok_inv, ok-injective}
use credit_iq_ai.Store.{LoanInstallment}
use credit_iq_ai.Loan.Repayment.{
  outstanding, total_outstanding, interest_allocation, principal_allocation, pay, remaining_after,
  allocate, allocate_repayment,
}

-- Neither part of an installment is overpaid.
pub record IsOwed (i : LoanInstallment) : Type 0 where
  pub interest_le : i.interest_paid ≤ℤ i.interest_due
  pub principal_le : i.principal_paid ≤ℤ i.principal_due

pub ruleset money = (int_laws, min_ℤ_parts)

-- What one round gives to each part lies between nothing and what the part still wants, and is
-- at most what is left; something is left over only if both parts are settled.
pub record IsShare (r : ℤ) (i : LoanInstallment) : Type 0 where
  pub interest_pos : pos 0 ≤ℤ interest_allocation r i
  pub interest_le : interest_allocation r i +ℤ i.interest_paid ≤ℤ i.interest_due
  pub principal_pos : pos 0 ≤ℤ principal_allocation r i
  pub principal_le : principal_allocation r i +ℤ i.principal_paid ≤ℤ i.principal_due
  pub within : interest_allocation r i +ℤ principal_allocation r i ≤ℤ r
  pub interest_first :
      pos 0 <ℤ principal_allocation r i
      → i.interest_due ≤ℤ interest_allocation r i +ℤ i.interest_paid
  pub settled :
      interest_allocation r i +ℤ principal_allocation r i <ℤ r
      → (i.interest_due ≤ℤ interest_allocation r i +ℤ i.interest_paid)
        × (i.principal_due ≤ℤ principal_allocation r i +ℤ i.principal_paid)

pub allocation-IsShare : (r : ℤ) (i : LoanInstallment) → IsOwed i → pos 0 ≤ℤ r → IsShare r i
unfolding interest_allocation principal_allocation
allocation-IsShare r i v h = record {
  interest_pos = omega money;
  interest_le = omega money;
  principal_pos = omega money;
  principal_le = omega money;
  within = omega money;
  interest_first = omega money;
  settled = omega money;
}

pay-IsOwed : (now : ℕ) (r : ℤ) (i : LoanInstallment) → IsOwed i → pos 0 ≤ℤ r → IsOwed (pay now r i)
unfolding pay
pay-IsOwed now r i v h = let share = allocation-IsShare r i v h in omega int_laws

outstanding-pay :
    (now : ℕ) (r : ℤ) (i : LoanInstallment)
    → outstanding (pay now r i) +ℤ r ≡ outstanding i +ℤ remaining_after r i
unfolding pay outstanding remaining_after
outstanding-pay now r i = omega int_laws

pub remaining_nonneg :
    (r : ℤ) (i : LoanInstallment) → IsOwed i → pos 0 ≤ℤ r → pos 0 ≤ℤ remaining_after r i
unfolding remaining_after
remaining_nonneg r i v h = let share = allocation-IsShare r i v h in omega int_laws

outstanding_nonneg : (i : LoanInstallment) → IsOwed i → pos 0 ≤ℤ outstanding i
unfolding outstanding
outstanding_nonneg i v = omega int_laws

-- Money is left over only behind a settled installment.
pub remaining_pos :
    (now : ℕ) (r : ℤ) (i : LoanInstallment)
    → IsOwed i
    → pos 0 ≤ℤ r
    → pos 0 <ℤ remaining_after r i
    → outstanding (pay now r i) ≡ pos 0
unfolding pay outstanding remaining_after
remaining_pos now r i v h p =
    let share = allocation-IsShare r i v h in
    let settled = share.settled (omega int_laws) in
    let a = settled.0 in let b = settled.1 in omega int_laws

total_nonneg : (is : List LoanInstallment) → All IsOwed is → pos 0 ≤ℤ total_outstanding is
total_nonneg [] v = omega arith
total_nonneg (i ∷ is) v = omega (int_laws, outstanding_nonneg i v.0, total_nonneg is v.1)

pub allocate-IsOwed :
    (now : ℕ) (r : ℤ) (is : List LoanInstallment)
    → All IsOwed is
    → pos 0 ≤ℤ r
    → All IsOwed (allocate now r is)
unfolding allocate
allocate-IsOwed now r [] v h = tt
allocate-IsOwed now r (i ∷ is) v h = elim (Bool-cases (leb_ℤ r (pos 0))) [
  | inl spent ↦ rw spent v
  | inr more ↦ rw more (
    pay-IsOwed now r i v.0 h,
    allocate-IsOwed now (remaining_after r i) is v.1 (remaining_nonneg r i v.0 h),
  )
]

total-allocate :
    (now : ℕ) (r : ℤ) (is : List LoanInstallment)
    → All IsOwed is
    → pos 0 ≤ℤ r
    → r ≤ℤ total_outstanding is
    → total_outstanding (allocate now r is) +ℤ r ≡ total_outstanding is
unfolding allocate
total-allocate now r [] v h le = omega int_laws
total-allocate now r (i ∷ is) v h le = elim (Bool-cases (leb_ℤ r (pos 0))) [
  | inl spent ↦ rw spent (omega (int_laws, leb_ℤ-le r (pos 0) spent))
  | inr more ↦
      let left = remaining_nonneg r i v.0 h in
      let enough : remaining_after r i ≤ℤ total_outstanding is =
        elim (lt_or_le_ℤ (pos 0) (remaining_after r i)) [
          | inl p ↦ omega (
            int_laws,
            parts_of_eq (remaining_pos now r i v.0 h p),
            parts_of_eq (outstanding-pay now r i),
          )
          | inr n ↦ omega (int_laws, total_nonneg is v.1)
        ] in
      rw more (
        omega (
          int_laws,
          parts_of_eq (outstanding-pay now r i),
          parts_of_eq (total-allocate now (remaining_after r i) is v.1 left enough),
        ))
]

-- A repayment that is accepted, on installments of which no part is overpaid, is allocated to the
-- cent: what the borrower owes falls by exactly the payment, the result is what was owed before,
-- no part of any installment is overpaid afterwards, and the payment is positive and at most what
-- was owed.
pub allocate_repayment_conserves :
    (is : List LoanInstallment) (payment : ℤ) (now : ℕ) {r : List LoanInstallment × ℤ}
    → All IsOwed is
    → allocate_repayment is payment now ≡ ok r
    → (total_outstanding r.0 +ℤ payment ≡ total_outstanding is)
      × (r.1 ≡ total_outstanding is)
      × All IsOwed r.0
      × (pos 0 <ℤ payment)
      × (payment ≤ℤ total_outstanding is)
unfolding allocate_repayment
allocate_repayment_conserves is payment now v h =
    let (_, hp, h1) = >>=-ok_inv (raise_if (leb_ℤ payment (pos 0)) _) _ h in
    let (_, ho, h2) = >>=-ok_inv (raise_if (ltb_ℤ (total_outstanding is) payment) _) _ h1 in
    let positive : pos 0 <ℤ payment = ground arith in
    let covered : payment ≤ℤ total_outstanding is = ground arith in
    subst
      (λ r.
        (total_outstanding r.0 +ℤ payment ≡ total_outstanding is)
        × (r.1 ≡ total_outstanding is)
        × All IsOwed r.0
        × (pos 0 <ℤ payment)
        × (payment ≤ℤ total_outstanding is))
      (ok-injective h2)
      (
        total-allocate now payment is v (omega arith) covered,
        refl,
        allocate-IsOwed now payment is v (omega arith),
        positive,
        covered,
      )

-- The value of an accepted repayment.
pub allocate_repayment_inv :
    (is : List LoanInstallment) (payment : ℤ) (now : ℕ) {r : List LoanInstallment × ℤ}
    → allocate_repayment is payment now ≡ ok r
    → (r.0 ≡ allocate now payment is) × (r.1 ≡ total_outstanding is)
unfolding allocate_repayment
allocate_repayment_inv is payment now {r} h =
    let (_, _, h1) = >>=-ok_inv (raise_if (leb_ℤ payment (pos 0)) _) _ h in
    let (_, _, h2) = >>=-ok_inv (raise_if (ltb_ℤ (total_outstanding is) payment) _) _ h1 in
    let e = ok-injective h2 in (ap (λ x. x.0) (sym e), ap (λ x. x.1) (sym e))
