-- ===== src/Tests/Loans.antt =====
-- Origination, workflow and servicing on the sample tenant.
use credit_iq_ai.Prelude.{◌≡◌, refl, ℕ, none, [], ◌∷◌, arith, All, map}
use credit_iq_ai.Prelude.Int.{pos}
use credit_iq_ai.Shared.{
  approved, dismissed, under_review, ai_risk_analysis, fraud_screening, officer_review, high, low,
}
use credit_iq_ai.Errors.{Result, ok, err, AppError}
use credit_iq_ai.Store.{Db, record_audit, get_loan_row, get_organization_row, LoanApplication}
use credit_iq_ai.Access.{
  has_org_wide_scope, is_applicant_user, member, require_applicant_ownership, require_branch_access,
}
use credit_iq_ai.Loan.Workflow.{allowed, analyst_required, model_validate}
use credit_iq_ai.Loan.Service.{
  get_loan, workflow_settings, move, transition, decide, ensure_fraud_clearance,
}
use credit_iq_ai.Loan.Service.Screening.{IsScreened, transition-IsScreened}
use credit_iq_ai.Loan.Service.Approval.{IsCleared, decide_approve-IsCleared}
use credit_iq_ai.Loan.Analysis.{Prediction, analyze_loan, analyze}
use credit_iq_ai.Loan.Analysis.Alerts.{analyze_blocks}
use credit_iq_ai.Loan.Service.{LoanCreate, create_loan}
use credit_iq_ai.Loan.History.{decides, here, next, Reach-IsScreened}
use credit_iq_ai.Tests.Sample.{manager, loan, tenant, flagged, approval, severities, servicing}
use credit_iq_ai.Tests.Fractions.{fractions}

-- What the tests compute with.
unfoldable pub services : Unit {0}
unfolding get_loan_row get_organization_row record_audit has_org_wide_scope is_applicant_user member
    require_applicant_ownership require_branch_access allowed analyst_required model_validate
    get_loan workflow_settings move transition decide ensure_fraud_clearance analyze_loan analyze
services = tt

-- The value of a result, if it is one.
abbrev pub value_of : {A : Type 0} → A → Result A → A
value_of d (ok a) = a
value_of d (err e) = d

abbrev pub approved_tenant : LoanApplication × Db
approved_tenant = value_of (loan, tenant) (decide severities tenant manager 7 approval)

approval_approves : approved_tenant.0.status ≡ approved
unfolding services
approval_approves = refl

tenant-IsScreened : IsScreened tenant
tenant-IsScreened = ground arith

transition-IsScreened_example :
    IsScreened (value_of (loan, tenant) (transition tenant manager 7 approved none)).1
unfolding services
transition-IsScreened_example =
    transition-IsScreened tenant manager 7 approved none refl tenant-IsScreened

-- An open alert does not stop the plain transition, as it stops the decision.
approved_by_move : LoanApplication × Db
approved_by_move = value_of (loan, tenant) (transition tenant manager 7 approved none)

decide_approve-IsCleared_example :
    All (IsCleared severities (flagged dismissed) 7) (flagged dismissed).alerts
    × (approved ≡ approved)
unfolding services
decide_approve-IsCleared_example =
    decide_approve-IsCleared severities (flagged dismissed) manager 7 approval refl refl

Reach-IsScreened_example : IsScreened approved_tenant.1
unfolding services
Reach-IsScreened_example =
    Reach-IsScreened fractions servicing severities {start = tenant} tenant-IsScreened
      (next here (decides manager 7 approval approved_tenant.0 refl))

-- The engine finds a high severity for the loan, which is under review.
abbrev predict : ℕ → Result Prediction
predict applicant_id = ok (record { model_version = "v1"; severity = high })

abbrev reviewed : Db
reviewed = record tenant { loans = record loan { status = under_review } ∷ []; events = [] }

abbrev no_analysis : Prediction × Db
no_analysis = (record { model_version = ""; severity = low }, tenant)

abbrev analyzed : Prediction × Db
analyzed = value_of no_analysis (analyze predict reviewed manager 7)

three_moves :
    map (λ e. e.to_status) analyzed.1.events
    ≡ ai_risk_analysis ∷ fraud_screening ∷ officer_review ∷ []
unfolding services
three_moves = refl

analyze_blocks_example : (e : AppError) × (decide severities analyzed.1 manager 7 approval ≡ err e)
unfolding services
analyze_blocks_example =
    analyze_blocks predict severities reviewed manager 7 {r = analyzed} refl refl refl refl manager
      approval refl

abbrev application : LoanCreate
application = record {
  applicant_id = 10;
  amount = pos 5000;
  tenor_months = 6;
  purpose = none;
  product_id = none;
  branch_id = none;
}

abbrev originated : LoanApplication × Db
originated = value_of (loan, tenant) (create_loan tenant manager application "LN-1")
