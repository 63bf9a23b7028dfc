-- ===== src/Loan/Service.antt =====
-- backend/app/modules/loan/service.py: origination and workflow. An operation returns its result
-- with the new tables; on an error the session rolls back, so no new tables are returned.
pub mod Screening
pub mod Visibility
pub mod Origination
pub mod Effects
pub mod Approval
use text.Mathlib.Text.{◌==◌ as str_eq}
use credit_iq_ai.Prelude.{
  ℕ, ◌+◌, String, Bool, true, false, not, ◌&&◌, Option, none, some, List, [], ◌∷◌, ◌++◌, ◌==◌,
  opt_eq, is_none, or_else, if◌then◌else◌, exists, select, update_first,
}
use credit_iq_ai.Prelude.Int.{ℤ}
use credit_iq_ai.Shared.{
  LoanStatus, draft, approved, rejected, DecisionType, approve, reject, FraudSeverity, eq_status,
  eq_severity, is_dismissed,
}
use credit_iq_ai.Errors.{Result, ok, err, not_found, domain_rule, raise_if, or_raise, ◌>>◌, ◌>>=◌}
use credit_iq_ai.Store.{
  Organization, Applicant, LoanApplication, LoanWorkflowEvent, LoanDecision, FraudAlert,
  LoanWorkflowSettings, Snapshot, nothing, loan_created, loan_status, AuditLog, Db, record_audit,
  get_loan_row, get_applicant_row, get_organization_row,
}
use credit_iq_ai.Access.{
  CurrentUser, is_applicant_user, require_applicant_ownership, require_branch_access,
  branch_predicate, resolve_creation_branch,
}
use credit_iq_ai.Loan.Workflow.{model_validate, allowed, contains}
use credit_iq_ai.Loan.Products.{get_product, validate_application}

-- `require_branch` of backend/app/modules/organization/service.py
unfoldable pub require_branch : Db → ℕ → Option ℕ → Result (Unit {0})
require_branch db org_id none = ok tt
require_branch db org_id (some k) =
    raise_if
      (not (exists (λ b. b.id == k && b.organization_id == org_id && b.is_active) db.branches))
      (not_found "Branch not found in this organization")

unfoldable pub get_loan : Db → ℕ → CurrentUser → Result LoanApplication
get_loan db loan_id user = do
  loan ← or_raise (get_loan_row db loan_id) (not_found "Loan not found")
  require_applicant_ownership user loan.applicant_id
  if is_applicant_user user then ok tt else require_branch_access user loan.branch_id
  ok loan

pub record LoanCreate : Type 0 where
  pub applicant_id : ℕ
  pub amount : ℤ
  pub tenor_months : ℕ
  pub purpose : Option String
  pub product_id : Option ℕ
  pub branch_id : Option ℕ

-- The branch of a new loan.
unfoldable pub creation_branch : CurrentUser → Applicant → Option ℕ → Result (Option ℕ)
creation_branch user applicant requested =
    if is_applicant_user user
    then raise_if (not (is_none requested) && not (opt_eq requested applicant.branch_id))
        (domain_rule "Applicant cannot select another branch")
      >> ok applicant.branch_id
    else require_branch_access user applicant.branch_id
      >> resolve_creation_branch user (or_else requested applicant.branch_id)

unfoldable pub check_product : Db → ℕ → LoanCreate → Option ℕ → Result (Unit {0})
check_product db org_id body none = ok tt
check_product db org_id body (some k) = do
  product ← get_product db org_id k
  validate_application product body.amount body.tenor_months

-- `ref_no` is the random reference number of `_ref_no`.
unfoldable pub create_loan : Db → CurrentUser → LoanCreate → String → Result (LoanApplication × Db)
create_loan db user body ref_no = do
  applicant ← or_raise (get_applicant_row db body.applicant_id) (not_found "Applicant not found")
  require_applicant_ownership user applicant.id
  branch_id ← creation_branch user applicant body.branch_id
  require_branch db user.org_id branch_id
  check_product db user.org_id body body.product_id
  let loan : LoanApplication = record {
    id = db.next_id;
    organization_id = user.org_id;
    branch_id = branch_id;
    applicant_id = body.applicant_id;
    product_id = body.product_id;
    reference_no = ref_no;
    amount = body.amount;
    tenor_months = body.tenor_months;
    purpose = body.purpose;
    status = draft;
    created_by = user.user_id;
  }
  let entry : AuditLog = record {
    organization_id = user.org_id;
    actor_user_id = user.user_id;
    action = "loan.create";
    entity_type = "loan";
    entity_id = loan.id;
    before = nothing;
    after = loan_created ref_no body.amount;
  }
  ok (
    loan,
    record_audit entry (record db { next_id = db.next_id + 1; loans = db.loans ++ (loan ∷ []) }),
  )

abbrev wanted : Option LoanStatus → LoanStatus → Bool
wanted none s = true
wanted (some w) s = eq_status s w

-- The rows that the query of `list_loans` lets through.
unfoldable pub listed : Db → CurrentUser → Option LoanStatus → LoanApplication → Bool
listed db user status l =
    l.organization_id == user.org_id
    && l.organization_id == db.current_org
    && (if is_applicant_user user
        then not (is_none user.applicant_id) && opt_eq (some l.applicant_id) user.applicant_id
        else branch_predicate user l.branch_id)
    && wanted status l.status

-- The list is in the order of insertion, where the source sorts by the time of creation, newest
-- first.
unfoldable pub list_loans : Db → CurrentUser → Option LoanStatus → List LoanApplication
unfolding listed
list_loans db user status = select (listed db user status) db.loans

abbrev workflow_document : Option Organization → Option LoanWorkflowSettings
workflow_document none = none
workflow_document (some o) = o.loan_workflow

-- `LoanWorkflowSettings.model_validate` on what the caller's organization stores.
unfoldable pub workflow_settings : Db → CurrentUser → Result LoanWorkflowSettings
workflow_settings db user = model_validate (workflow_document (get_organization_row db user.org_id))

abbrev pub is_row : Db → ℕ → LoanApplication → Bool
is_row db k l = l.id == k && l.organization_id == db.current_org

-- `loan.status = to_status`
abbrev pub set_status : LoanStatus → LoanApplication → LoanApplication
set_status t l = record l { status = t }

-- The writes of a legal transition.
unfoldable pub move :
    Db → CurrentUser → LoanApplication → LoanStatus → Option String → LoanApplication × Db
move db user loan to_status reason =
    let event : LoanWorkflowEvent = record {
      organization_id = user.org_id;
      loan_id = loan.id;
      from_status = loan.status;
      to_status = to_status;
      actor_user_id = user.user_id;
      reason = reason;
    } in
    let entry : AuditLog = record {
      organization_id = user.org_id;
      actor_user_id = user.user_id;
      action = "loan.transition";
      entity_type = "loan";
      entity_id = loan.id;
      before = loan_status loan.status;
      after = loan_status to_status;
    } in
    (
      set_status to_status loan,
      record_audit entry (record db {
        loans = update_first (is_row db loan.id) (set_status to_status) db.loans;
        events = db.events ++ (event ∷ []);
      }),
    )

unfoldable pub transition :
    Db → CurrentUser → ℕ → LoanStatus → Option String → Result (LoanApplication × Db)
transition db user loan_id to_status reason = do
  loan ← get_loan db loan_id user
  settings ← workflow_settings db user
  raise_if (not (contains (allowed settings loan.status loan.amount) to_status))
      (domain_rule "Illegal transition")
  ok (move db user loan to_status reason)

abbrev pub blocks : List FraudSeverity → ℕ → FraudAlert → Bool
blocks severities loan_id a =
    a.loan_id == loan_id
    && exists (λ s. eq_severity a.severity s) severities
    && not (is_dismissed a.status)

abbrev pub blocked_message : String
blocked_message =
    "Loan cannot be approved until blocking fraud alerts are dismissed; confirmed alerts require rejection or further investigation"

-- `severities` is `settings.approval_blocking_fraud_severities`; the policy hides other tenants'
-- alerts.
unfoldable pub ensure_fraud_clearance : List FraudSeverity → Db → ℕ → Result (Unit {0})
ensure_fraud_clearance severities db loan_id =
    raise_if
      (exists (λ a. a.organization_id == db.current_org && blocks severities loan_id a) db.alerts)
      (domain_rule blocked_message)

pub record DecisionRequest : Type 0 where
  pub decision : DecisionType
  pub rationale : Option String
  pub conditions : Option String

abbrev pub decision_target : DecisionType → LoanStatus
decision_target approve = approved
decision_target reject = rejected
decision_target DecisionType.needs_more_info = LoanStatus.needs_more_info

-- `text or default`, where the empty text counts as missing.
abbrev text_or : Option String → String → String
text_or none d = d
text_or (some s) d = if str_eq s "" then d else s

abbrev pub clearance : DecisionType → List FraudSeverity → Db → ℕ → Result (Unit {0})
clearance approve severities db loan_id = ensure_fraud_clearance severities db loan_id
clearance _ severities db loan_id = ok tt

unfoldable pub decide :
    List FraudSeverity → Db → CurrentUser → ℕ → DecisionRequest → Result (LoanApplication × Db)
decide severities db user loan_id body = do
  loan ← get_loan db loan_id user
  clearance body.decision severities db loan.id
  let row : LoanDecision = record {
    organization_id = user.org_id;
    loan_id = loan.id;
    decision = body.decision;
    decided_by = user.user_id;
    rationale = body.rationale;
    conditions = body.conditions;
  }
  transition (record db { decisions = db.decisions ++ (row ∷ []) }) user loan_id
      (decision_target body.decision) (some (text_or body.rationale "Decision recorded"))

unfoldable pub workflow_history : Db → ℕ → CurrentUser → Result (List LoanWorkflowEvent)
workflow_history db loan_id user = do
  loan ← get_loan db loan_id user
  ok (select (λ e. e.loan_id == loan_id && e.organization_id == db.current_org) db.events)
