-- ===== src/Loan/Servicing.antt =====
-- backend/app/modules/loan/servicing.py: disbursement, repayments and arrears.
pub mod Disbursing
pub mod Repaying
use text.Mathlib.Text.{◌==◌ as str_eq}
use credit_iq_ai.Prelude.{
  ℕ, ◌+◌, ◌-◌, max, String, Bool, true, false, not, ◌&&◌, ◌||◌, Option, none, some, List, [], ◌∷◌,
  ◌++◌, ◌==◌, map, ltb, is_none, if◌then◌else◌, exists, select, length,
}
use credit_iq_ai.Prelude.Int.{ℤ, pos, ◌+ℤ◌, ◌-ℤ◌, ltb_ℤ, eqb_ℤ}
use credit_iq_ai.Shared.{LoanStatus, eq_status, approved, disbursed, active, defaulted, closed}
use credit_iq_ai.Errors.{Result, ok, conflict, domain_rule, raise_if, ◌>>◌, ◌>>=◌}
use credit_iq_ai.Store.{
  Rate, Date, LoanProduct, LoanApplication, LoanDisbursement, LoanInstallment, LoanRepayment,
  nothing, disbursement, repayment, AuditLog, Db, record_audit, get_product_row,
}
use credit_iq_ai.Access.{CurrentUser}
use credit_iq_ai.Calendar.{date_le, add_days, to_ordinal}
use credit_iq_ai.Decimal.{Decimal}
use credit_iq_ai.Loan.Service.{get_loan, transition}
use credit_iq_ai.Loan.Schedule.{InstallmentPlan, build_amortization_schedule}
use credit_iq_ai.Loan.Repayment.{outstanding, allocate_repayment}

pub record ServicingSettings : Type 0 where
  pub default_annual_interest_rate : Rate
  pub first_due_days : ℕ
  pub grace_days : ℕ

pub record DisbursementRequest : Type 0 where
  pub annual_interest_rate : Option Rate
  pub first_due_date : Option Date
  pub external_reference : Option String

abbrev rate_of_product : Option LoanProduct → Option Rate
rate_of_product none = none
rate_of_product (some p) = some p.interest_rate

abbrev product_rate : Db → Option ℕ → Option Rate
product_rate db none = none
product_rate db (some k) = rate_of_product (get_product_row db k)

abbrev rate_or : Option Rate → Option Rate → Rate → Rate
rate_or (some requested) p d = requested
rate_or none (some p) d = p
rate_or none none d = d

-- The rate that is requested, else the product's, else the default.
unfoldable pub annual_rate : ServicingSettings → Db → Option Rate → Option ℕ → Rate
annual_rate settings db requested product_id =
    rate_or requested (product_rate db product_id) settings.default_annual_interest_rate

unfoldable pub first_due : ServicingSettings → Option Date → Date → Result Date
first_due settings (some d) today = ok d
first_due settings none today = add_days settings.first_due_days today

abbrev pub installment_row : ℕ → ℕ → InstallmentPlan → LoanInstallment
installment_row org_id loan_id plan = record {
  organization_id = org_id;
  loan_id = loan_id;
  sequence_no = plan.sequence_no;
  due_date = plan.due_date;
  principal_due = plan.principal_due;
  interest_due = plan.interest_due;
  principal_paid = pos 0;
  interest_paid = pos 0;
  paid_at = none;
}

-- The writes of a disbursement, before its two transitions.
unfoldable pub book_disbursement :
    Db
    → CurrentUser
    → LoanApplication
    → DisbursementRequest
    → Rate
    → ℕ
    → Date
    → List InstallmentPlan
    → Db
book_disbursement db user loan body rate now due plans =
    let row : LoanDisbursement = record {
      organization_id = user.org_id;
      loan_id = loan.id;
      amount = loan.amount;
      annual_interest_rate = rate;
      disbursed_at = now;
      first_due_date = due;
      external_reference = body.external_reference;
      disbursed_by = user.user_id;
    } in
    let entry : AuditLog = record {
      organization_id = user.org_id;
      actor_user_id = user.user_id;
      action = "loan.disbursement.create";
      entity_type = "loan";
      entity_id = loan.id;
      before = nothing;
      after = disbursement loan.amount rate (length plans);
    } in
    record_audit entry (record db {
      disbursements = db.disbursements ++ (row ∷ []);
      installments = db.installments ++ map (installment_row user.org_id loan.id) plans;
    })

-- `now` and `today` are the time and the date of `utcnow()`.
unfoldable pub create_disbursement :
    Decimal
    → ServicingSettings
    → Db
    → CurrentUser
    → ℕ
    → DisbursementRequest
    → ℕ
    → Date
    → Result (LoanApplication × Db)
create_disbursement D settings db user loan_id body now today = do
  loan ← get_loan db loan_id user
  raise_if (not (eq_status loan.status approved))
      (domain_rule "Only an approved loan can be disbursed")
  raise_if
      (exists (λ d. d.loan_id == loan_id && d.organization_id == db.current_org) db.disbursements)
      (conflict "Loan has already been disbursed")
  let rate = annual_rate settings db body.annual_interest_rate loan.product_id
  due ← first_due settings body.first_due_date today
  raise_if (date_le due today) (domain_rule "First due date must be after the disbursement date")
  plans ← build_amortization_schedule D loan.amount rate loan.tenor_months due
  funded ←
      transition (book_disbursement db user loan body rate now due plans) user loan.id disbursed
        (some "Funds disbursed")
  transition funded.1 user loan.id active (some "Loan active")

pub record RepaymentRequest : Type 0 where
  pub amount : ℤ
  pub paid_at : Option ℕ
  pub external_reference : Option String

abbrev same_reference : String → Option String → Bool
same_reference s none = false
same_reference s (some r) = str_eq r s

-- A reference is used once in a tenant.
unfoldable pub check_reference : Db → ℕ → Option String → Result (Unit {0})
check_reference db org_id none = ok tt
check_reference db org_id (some s) =
    raise_if
      (exists
        (λ r.
          r.organization_id == org_id
          && r.organization_id == db.current_org
          && same_reference s r.external_reference)
        db.repayments)
      (conflict "Repayment external reference already exists")

abbrev time_or : Option ℕ → ℕ → ℕ
time_or none now = now
time_or (some t) now = t

-- The installments of a loan that the session sees. They stand in the order of `sequence_no`, since
-- a loan has one disbursement, whose schedule is written in that order.
abbrev pub of_loan : Db → ℕ → LoanInstallment → Bool
of_loan db k i = i.loan_id == k && i.organization_id == db.current_org

-- Puts the rows of `new`, in order, in the places of the rows that pass the test.
abbrev pub replace_where :
    (LoanInstallment → Bool) → List LoanInstallment → List LoanInstallment → List LoanInstallment
replace_where p [] new = []
replace_where p (x ∷ xs) [] = x ∷ xs
replace_where p (x ∷ xs) (y ∷ ys) =
    let taken = replace_where p xs ys in
    let kept = replace_where p xs (y ∷ ys) in if p x then y ∷ taken else x ∷ kept

unfoldable pub book_repayment :
    Db
    → CurrentUser
    → LoanApplication
    → RepaymentRequest
    → ℕ
    → List LoanInstallment
    → LoanRepayment × Db
book_repayment db user loan body paid_at installments =
    let row : LoanRepayment = record {
      id = db.next_id;
      organization_id = user.org_id;
      loan_id = loan.id;
      amount = body.amount;
      paid_at = paid_at;
      external_reference = body.external_reference;
      recorded_by = user.user_id;
    } in
    let entry : AuditLog = record {
      organization_id = user.org_id;
      actor_user_id = user.user_id;
      action = "loan.repayment.record";
      entity_type = "loan";
      entity_id = loan.id;
      before = nothing;
      after = repayment body.amount row.id;
    } in
    (
      row,
      record_audit entry (record db {
        next_id = db.next_id + 1;
        repayments = db.repayments ++ (row ∷ []);
        installments = replace_where (of_loan db loan.id) db.installments installments;
      }),
    )

-- The last step: a loan that is repaid in full is closed.
unfoldable pub settle :
    Bool → CurrentUser → LoanApplication → LoanRepayment × Db → Result (LoanRepayment × Db)
settle false user loan booked = ok booked
settle true user loan booked = do
  done ← transition booked.1 user loan.id closed (some "Loan fully repaid")
  ok (booked.0, done.1)

unfoldable pub record_repayment :
    Db → CurrentUser → ℕ → RepaymentRequest → ℕ → Result (LoanRepayment × Db)
record_repayment db user loan_id body now = do
  loan ← get_loan db loan_id user
  raise_if (not (eq_status loan.status active || eq_status loan.status defaulted))
      (domain_rule "Repayments can only be recorded for active or defaulted loans")
  check_reference db user.org_id body.external_reference
  let paid_at = time_or body.paid_at now
  raise_if (ltb now paid_at) (domain_rule "Repayment timestamp cannot be in the future")
  allocated ← allocate_repayment (select (of_loan db loan.id) db.installments) body.amount paid_at
  settle (eqb_ℤ body.amount allocated.1) user loan
      (book_repayment db user loan body paid_at allocated.0)
