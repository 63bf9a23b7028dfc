-- ===== src/Tests/Servicing.antt =====
-- A loan of 3000.00 at 12% over three months, disbursed and repaid.
use credit_iq_ai.Prelude.{
  ◌≡◌, refl, ℕ, ◌+◌, ◌≤◌, none, some, List, [], ◌∷◌, arith, All, length, map,
}
use credit_iq_ai.Prelude.Int.{pos, ◌+ℤ◌, ◌-ℤ◌, ◌*ℤ◌, min_ℤ}
use credit_iq_ai.Shared.{closed}
use credit_iq_ai.Errors.{ok}
use credit_iq_ai.Store.{Date, Db, LoanApplication, LoanInstallment, LoanRepayment}
use credit_iq_ai.Calendar.{is_leap, days_in_month, make_date, add_months, date_le}
use credit_iq_ai.Loan.Schedule.{
  InstallmentPlan, level_payment, principal_component, installments_from,
  build_amortization_schedule,
}
use credit_iq_ai.Loan.Schedule.{compound_payment}
use credit_iq_ai.Tests.Sample.{twelve}
use credit_iq_ai.Loan.Schedule.Balance.{
  total_principal, IsMonthly, build_amortization_schedule-Repays,
}
use credit_iq_ai.Loan.Repayment.{
  outstanding, total_outstanding, interest_allocation, principal_allocation, pay, remaining_after,
  allocate, allocate_repayment,
}
use credit_iq_ai.Loan.Repayment.Allocation.{IsOwed, allocate_repayment_conserves}
use credit_iq_ai.Loan.Repayment.Order.{Waterfall, allocate-Waterfall}
use credit_iq_ai.Loan.Servicing.{
  annual_rate, first_due, book_disbursement, create_disbursement, RepaymentRequest, check_reference,
  book_repayment, settle, record_repayment,
}
use credit_iq_ai.Loan.Servicing.Disbursing.{IsFunded, create_disbursement-IsFunded}
use credit_iq_ai.Loan.Servicing.Repaying.{IsRepaid, record_repayment-IsRepaid}
use credit_iq_ai.Tests.Sample.{manager, loan, tenant, servicing, today, month_end, request}
use credit_iq_ai.Tests.Fractions.{fractions, times, power}
use credit_iq_ai.Tests.Loans.{services, value_of, approved_tenant}

amounts : Unit {0}
unfolding ◌+ℤ◌ ◌-ℤ◌ ◌*ℤ◌ min_ℤ times power compound_payment level_payment principal_component
    installments_from build_amortization_schedule is_leap days_in_month make_date add_months date_le
    outstanding interest_allocation principal_allocation pay remaining_after allocate
    allocate_repayment
amounts = tt

abbrev plan : ℕ → Date → ℕ → ℕ → InstallmentPlan
plan n d p i = record { sequence_no = n; due_date = d; principal_due = pos p; interest_due = pos i }

abbrev plans : List InstallmentPlan
plans =
    plan 1 month_end 99007 3000
    ∷ plan 2 (record { year = 2026; month = 2; day = 28 }) 99997 2010
    ∷ plan 3 (record { year = 2026; month = 3; day = 31 }) 100996 1010
    ∷ []

-- The schedule of the loan, to the cent.
schedule_of_loan : build_amortization_schedule fractions (pos 300000) twelve 3 month_end ≡ ok plans
unfolding amounts
schedule_of_loan = refl

build_amortization_schedule-Repays_example :
    (total_principal plans ≡ pos 300000) × (length plans ≡ 3) × IsMonthly month_end 0 plans
build_amortization_schedule-Repays_example =
    build_amortization_schedule-Repays fractions (pos 300000) twelve 3 month_end schedule_of_loan

-- 1150.00 on two installments of 1000.00 with interest of 100.00 and 80.00.
abbrev due : ℕ → ℕ → ℕ → LoanInstallment
due n p i = record {
  organization_id = 1;
  loan_id = 7;
  sequence_no = n;
  due_date = month_end;
  principal_due = pos p;
  interest_due = pos i;
  principal_paid = pos 0;
  interest_paid = pos 0;
  paid_at = none;
}

abbrev two_due : List LoanInstallment
two_due = due 1 100000 10000 ∷ due 2 100000 8000 ∷ []

two_due-IsOwed : All IsOwed two_due
two_due-IsOwed = ground arith

abbrev two_paid : List LoanInstallment
two_paid =
    record (due 1 100000 10000) {
      principal_paid = pos 100000;
      interest_paid = pos 10000;
      paid_at = some 9;
    }
    ∷ record (due 2 100000 8000) { interest_paid = pos 5000 }
    ∷ []

two_installments : allocate_repayment two_due (pos 115000) 9 ≡ ok (two_paid, pos 218000)
unfolding amounts
two_installments = refl

allocate_repayment_conserves_example :
    (total_outstanding two_paid +ℤ pos 115000 ≡ total_outstanding two_due)
    × (pos 218000 ≡ total_outstanding two_due)
    × All IsOwed two_paid
    × (1 ≤ 115000 + 0)
    × (115000 + 0 ≤ 218000 + 0)
unfolding amounts
allocate_repayment_conserves_example =
    allocate_repayment_conserves two_due (pos 115000) 9 two_due-IsOwed two_installments

allocate-Waterfall_example : Waterfall two_due (allocate 9 (pos 115000) two_due)
allocate-Waterfall_example = allocate-Waterfall 9 (pos 115000) two_due two_due-IsOwed (omega arith)

-- What the disbursement computes with.
disbursing : Unit {0}
unfolding services amounts annual_rate first_due book_disbursement create_disbursement
disbursing = tt

abbrev funded : LoanApplication × Db
funded =
    value_of (loan, tenant)
      (create_disbursement fractions servicing approved_tenant.1 manager 7 request 0 today)

create_disbursement-IsFunded_example :
    IsFunded fractions servicing approved_tenant.1 manager 7 request 0 today funded
unfolding disbursing
create_disbursement-IsFunded_example =
    create_disbursement-IsFunded fractions servicing approved_tenant.1 manager 7 request 0 today
      refl

abbrev payment : ℕ → RepaymentRequest
payment n = record { amount = pos n; paid_at = none; external_reference = none }

repaying : Unit {0}
unfolding disbursing check_reference book_repayment settle record_repayment
repaying = tt

abbrev no_repayment : LoanRepayment
no_repayment = record {
  id = 0;
  organization_id = 1;
  loan_id = 7;
  amount = pos 0;
  paid_at = 0;
  external_reference = none;
  recorded_by = 0;
}

abbrev paid_off : LoanRepayment × Db
paid_off = value_of (no_repayment, tenant) (record_repayment funded.1 manager 7 (payment 306020) 9)

-- Repaying the whole balance closes the loan.
paid_off_closes : map (λ l. l.status) paid_off.1.loans ≡ closed ∷ []
unfolding repaying
paid_off_closes = refl

record_repayment-IsRepaid_example : IsRepaid funded.1 paid_off.1 7 (pos 306020)
unfolding repaying
record_repayment-IsRepaid_example =
    record_repayment-IsRepaid funded.1 manager 7 (payment 306020) 9 (ground arith) refl
