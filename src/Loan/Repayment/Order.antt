-- ===== src/Loan/Repayment/Order.antt =====
-- The order of allocation: oldest installment first, interest before principal.
use credit_iq_ai.Prelude.{◌≡◌, refl, ℕ, List, [], ◌∷◌, arith, All, Bool-cases, inl, inr}
use credit_iq_ai.Prelude.Int.{ℤ, pos, ◌≤ℤ◌, ◌<ℤ◌, leb_ℤ, int_laws, lt_or_le_ℤ}
use credit_iq_ai.Store.{LoanInstallment}
use credit_iq_ai.Loan.Repayment.{outstanding, pay, remaining_after, allocate}
use credit_iq_ai.Loan.Repayment.Allocation.{
  IsOwed, allocation-IsShare, remaining_nonneg, remaining_pos,
}

-- `new` is `old` after a payment into it: what is due stays, neither part is paid back, and
-- principal is paid only once all interest is.
pub record IsPaidInto (old new : LoanInstallment) : Type 0 where
  pub same_principal : new.principal_due ≡ old.principal_due
  pub same_interest : new.interest_due ≡ old.interest_due
  pub same_number : new.sequence_no ≡ old.sequence_no
  pub interest_mono : old.interest_paid ≤ℤ new.interest_paid
  pub principal_mono : old.principal_paid ≤ℤ new.principal_paid
  pub interest_first :
      old.principal_paid <ℤ new.principal_paid → new.interest_due ≤ℤ new.interest_paid

-- Installments before and after: a settled prefix, at most one that is paid in part, and the rest
-- untouched.
pub data Waterfall : List LoanInstallment → List LoanInstallment → Type 0 where
  untouched : (is : List LoanInstallment) → Waterfall is is
  partly :
      {i j : LoanInstallment} (is : List LoanInstallment)
      → IsPaidInto i j
      → Waterfall (i ∷ is) (j ∷ is)
  settled :
      {i j : LoanInstallment} {is js : List LoanInstallment}
      → IsPaidInto i j
      → outstanding j ≡ pos 0
      → Waterfall is js
      → Waterfall (i ∷ is) (j ∷ js)

pay-IsPaidInto :
    (now : ℕ) (r : ℤ) (i : LoanInstallment) → IsOwed i → pos 0 ≤ℤ r → IsPaidInto i (pay now r i)
unfolding pay
pay-IsPaidInto now r i v h =
    let share = allocation-IsShare r i v h in
    record {
      same_principal = refl;
      same_interest = refl;
      same_number = refl;
      interest_mono = omega int_laws;
      principal_mono = omega int_laws;
      interest_first = λ p. omega (int_laws, share.interest_first (omega int_laws));
    }

allocate_spent : (now : ℕ) (r : ℤ) (is : List LoanInstallment) → r ≤ℤ pos 0 → allocate now r is ≡ is
unfolding allocate
allocate_spent now r [] h = refl
allocate_spent now r (i ∷ is) h = ground arith

-- Where no part of any installment is overpaid, the loop settles the installments in their order:
-- it gives to one only after all before it are settled, leaves all behind it untouched, pays
-- interest before principal and takes nothing back.
pub allocate-Waterfall :
    (now : ℕ) (r : ℤ) (is : List LoanInstallment)
    → All IsOwed is
    → pos 0 ≤ℤ r
    → Waterfall is (allocate now r is)
unfolding allocate
allocate-Waterfall now r [] v h = untouched []
allocate-Waterfall now r (i ∷ is) v h = elim (Bool-cases (leb_ℤ r (pos 0))) [
  | inl spent ↦ rw spent (untouched (i ∷ is))
  | inr more ↦
      let step = pay-IsPaidInto now r i v.0 h in
      elim (lt_or_le_ℤ (pos 0) (remaining_after r i)) [
        | inl p ↦ rw more (
            settled step (remaining_pos now r i v.0 h p)
              (allocate-Waterfall now (remaining_after r i) is v.1 (remaining_nonneg r i v.0 h)))
        | inr n ↦ rw (more, allocate_spent now (remaining_after r i) is n) (partly is step)
      ]
]
