-- ===== src/Loan/Servicing/Disbursing.antt =====
-- What a disbursement does: once, from an approved loan, with a schedule for the whole amount.
use mathlib.Core.Path.{subst}
use mathlib.Core.Option.{some-injective}
use credit_iq_ai.Prelude.{
  ◌≡◌, ◌≢◌, ◌∙◌, sym, ap, ℕ, ◌+◌, false, not, ◌&&◌, Option, some, List, ◌++◌, ◌==◌, map, length,
  length-append, String, exists,
}
use credit_iq_ai.Shared.{LoanStatus, eq_status, approved, disbursed, active}
use credit_iq_ai.Errors.{ok, raise_if, >>=-ok_inv, raise_if-passed, raise_if-not_passed}
use credit_iq_ai.Store.{Date, LoanApplication, Db, record_audit, get_loan_row}
use credit_iq_ai.Access.{CurrentUser}
use credit_iq_ai.Calendar.{date_le}
use credit_iq_ai.Decimal.{Decimal}
use credit_iq_ai.Loan.Workflow.Policy.{eq_status_sound}
use credit_iq_ai.Loan.Service.{get_loan, move, transition}
use credit_iq_ai.Loan.Service.Effects.{
  transition_inv, transition_effects, transition-row, get_loan-row, get_loan-id,
}
use credit_iq_ai.Loan.Schedule.{InstallmentPlan, build_amortization_schedule}
use credit_iq_ai.Loan.Schedule.Balance.{
  total_principal, IsMonthly, build_amortization_schedule-Repays,
}
use credit_iq_ai.Loan.Servicing.{
  ServicingSettings, DisbursementRequest, annual_rate, first_due, installment_row,
  book_disbursement, create_disbursement,
}

-- A transition writes loans, events and the audit log only.
pub transition-installments :
    (db : Db) (user : CurrentUser) (k : ℕ) (t : LoanStatus) (reason : Option String)
    {r : LoanApplication × Db}
    → transition db user k t reason ≡ ok r
    → (r.1.installments ≡ db.installments)
      × (r.1.disbursements ≡ db.disbursements)
      × (r.1.current_org ≡ db.current_org)
unfolding move record_audit
transition-installments db user k t reason h =
    let (_, _, _, _, _, moved) = transition_inv db user k t reason h in
    (
      ap (λ x. x.1.installments) (sym moved),
      ap (λ x. x.1.disbursements) (sym moved),
      ap (λ x. x.1.current_org) (sym moved),
    )

-- What a successful disbursement had before it and leaves behind it.
pub record IsFunded (D : Decimal) (settings : ServicingSettings) (db : Db) (user : CurrentUser)
    (k : ℕ) (body : DisbursementRequest) (now : ℕ) (today : Date) (r : LoanApplication × Db)
    : Type 0 where
  pub loan : LoanApplication
  pub due : Date
  pub plans : List InstallmentPlan
  pub funded : LoanApplication × Db
  pub opened : get_loan db k user ≡ ok loan
  pub was_approved : loan.status ≡ approved
  pub first_time :
      exists (λ d. d.loan_id == k && d.organization_id == db.current_org) db.disbursements ≡ false
  pub later : date_le due today ≡ false
  pub to_disbursed :
      transition
        (book_disbursement db user loan body
          (annual_rate settings db body.annual_interest_rate loan.product_id)
          now
          due
          plans)
        user
        loan.id
        disbursed
        (some "Funds disbursed")
      ≡ ok funded
  pub to_active : transition funded.1 user loan.id active (some "Loan active") ≡ ok r
  pub is_active : r.0.status ≡ active
  pub stored : get_loan_row r.1 k ≡ some r.0
  pub written :
      r.1.installments ≡ db.installments ++ map (installment_row user.org_id loan.id) plans
  pub booked : length r.1.disbursements ≡ length db.disbursements + 1
  pub whole_amount : total_principal plans ≡ loan.amount
  pub every_month : length plans ≡ loan.tenor_months
  pub monthly : IsMonthly due 0 plans

-- A disbursement succeeds only for an approved loan that has none yet, with a first due date after
-- today; the loan is then active, one disbursement is added, and behind the old installments stand
-- those of a monthly schedule over the loan's tenor whose principal adds up to the loan's amount.
pub create_disbursement-IsFunded :
    (D : Decimal) (settings : ServicingSettings) (db : Db) (user : CurrentUser) (k : ℕ)
    (body : DisbursementRequest) (now : ℕ) (today : Date) {r : LoanApplication × Db}
    → create_disbursement D settings db user k body now today ≡ ok r
    → IsFunded D settings db user k body now today r
unfolding create_disbursement book_disbursement record_audit
create_disbursement-IsFunded D settings db user k body now today {r} h =
    let (loan, hl, h1) = >>=-ok_inv (get_loan db k user) _ h in
    let (_, ha, h2) = >>=-ok_inv (raise_if (not (eq_status loan.status approved)) _) _ h1 in
    let (_, hx, h3) =
      >>=-ok_inv
        (raise_if
          (exists (λ d. d.loan_id == k && d.organization_id == db.current_org) db.disbursements) _)
        _ h2 in
    let rate = annual_rate settings db body.annual_interest_rate loan.product_id in
    let (due, hd, h4) = >>=-ok_inv (first_due settings body.first_due_date today) _ h3 in
    let (_, hf, h5) = >>=-ok_inv (raise_if (date_le due today) _) _ h4 in
    let (plans, hp, h6) =
      >>=-ok_inv (build_amortization_schedule D loan.amount rate loan.tenor_months due) _ h5 in
    let booked = book_disbursement db user loan body rate now due plans in
    let (funded, ht, h7) =
      >>=-ok_inv (transition booked user loan.id disbursed (some "Funds disbursed")) _ h6 in
    let (i1, d1, _) =
      transition-installments booked user loan.id disbursed (some "Funds disbursed") ht in
    let (i2, d2, _) =
      transition-installments funded.1 user loan.id active (some "Loan active") h7 in
    let (_, _, _, moved, _, _, _) =
      transition_effects funded.1 user loan.id active (some "Loan active") h7 in
    let (total, rounds, monthly) =
      build_amortization_schedule-Repays D loan.amount rate loan.tenor_months due hp in
    record {
      loan = loan;
      due = due;
      plans = plans;
      funded = funded;
      opened = hl;
      to_disbursed = ht;
      to_active = h7;
      was_approved = eq_status_sound loan.status approved (raise_if-not_passed _ _ ha);
      first_time = raise_if-passed _ _ hx;
      later = raise_if-passed _ _ hf;
      is_active = ap (λ l. l.status) moved;
      stored =
          subst (λ n. get_loan_row r.1 n ≡ some r.0) (get_loan-id db k user hl).0
            (transition-row funded.1 user loan.id active (some "Loan active") h7);
      written = i2 ∙ i1;
      booked = ap length (d2 ∙ d1) ∙ length-append db.disbursements _;
      whole_amount = total;
      every_month = rounds;
      monthly = monthly;
    }

-- A loan is disbursed at most once: after a successful disbursement, another call for the loan is
-- refused, whatever it requests and whenever it comes.
pub create_disbursement_once :
    (D : Decimal) (settings : ServicingSettings) (db : Db) (user : CurrentUser) (k : ℕ)
    (body again : DisbursementRequest) (now later : ℕ) (today tomorrow : Date)
    {r s : LoanApplication × Db}
    → create_disbursement D settings db user k body now today ≡ ok r
    → create_disbursement D settings r.1 user k again later tomorrow ≢ ok s
create_disbursement_once D settings db user k body again now later today tomorrow {r} h h' =
    let first = create_disbursement-IsFunded D settings db user k body now today h in
    let second = create_disbursement-IsFunded D settings r.1 user k again later tomorrow h' in
    let found : second.loan ≡ r.0 =
      some-injective _ _ (sym (get_loan-row r.1 k user second.opened) ∙ first.stored) in
    cc
