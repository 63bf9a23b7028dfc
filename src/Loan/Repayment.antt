-- ===== src/Loan/Repayment.antt =====
-- `allocate_repayment` of backend/app/modules/loan/servicing.py. The source changes the
-- installments in place; here the new list is returned with the balance before the payment.
pub mod Allocation
pub mod Order
use credit_iq_ai.Prelude.{ℕ, Option, some, List, [], ◌∷◌, if◌then◌else◌}
use credit_iq_ai.Prelude.Int.{ℤ, pos, ◌+ℤ◌, ◌-ℤ◌, leb_ℤ, ltb_ℤ, eqb_ℤ, min_ℤ}
use credit_iq_ai.Errors.{Result, ok, domain_rule, raise_if, ◌>>◌, ◌>>=◌}
use credit_iq_ai.Store.{LoanInstallment}

-- `_installment_outstanding`
unfoldable pub outstanding : LoanInstallment → ℤ
outstanding i = i.principal_due +ℤ i.interest_due -ℤ i.principal_paid -ℤ i.interest_paid

abbrev pub total_outstanding : List LoanInstallment → ℤ
total_outstanding [] = pos 0
total_outstanding (i ∷ is) = outstanding i +ℤ total_outstanding is

-- What a payment of `remaining` gives to the interest of an installment, and to its principal.
unfoldable pub interest_allocation : ℤ → LoanInstallment → ℤ
interest_allocation remaining i = min_ℤ (i.interest_due -ℤ i.interest_paid) remaining

unfoldable pub principal_allocation : ℤ → LoanInstallment → ℤ
principal_allocation remaining i =
    min_ℤ (i.principal_due -ℤ i.principal_paid) (remaining -ℤ interest_allocation remaining i)

abbrev mark_paid : ℕ → LoanInstallment → LoanInstallment
mark_paid now i = record i {
  paid_at = if eqb_ℤ (outstanding i) (pos 0) then some now else i.paid_at;
}

-- One round of the loop: the installment after it.
unfoldable pub pay : ℕ → ℤ → LoanInstallment → LoanInstallment
pay now remaining i = mark_paid now (record i {
  interest_paid = i.interest_paid +ℤ interest_allocation remaining i;
  principal_paid = i.principal_paid +ℤ principal_allocation remaining i;
})

-- One round of the loop: what is left of the payment.
unfoldable pub remaining_after : ℤ → LoanInstallment → ℤ
remaining_after remaining i =
    remaining -ℤ interest_allocation remaining i -ℤ principal_allocation remaining i

-- The loop; it breaks when nothing is left.
unfoldable pub allocate : ℕ → ℤ → List LoanInstallment → List LoanInstallment
allocate now remaining [] = []
allocate now remaining (i ∷ is) =
    let rest = allocate now (remaining_after remaining i) is in
    if leb_ℤ remaining (pos 0) then i ∷ is else pay now remaining i ∷ rest

unfoldable pub allocate_repayment : List LoanInstallment → ℤ → ℕ → Result (List LoanInstallment × ℤ)
allocate_repayment installments payment paid_at = do
  raise_if (leb_ℤ payment (pos 0)) (domain_rule "Repayment amount must be positive")
  raise_if (ltb_ℤ (total_outstanding installments) payment)
      (domain_rule "Repayment exceeds the outstanding loan balance")
  ok (allocate paid_at payment installments, total_outstanding installments)
