-- ===== src/Store.antt =====
-- The tables that the lending code reads and writes, as lists of rows in the order of insertion:
-- the models of backend/app/modules/{loan,organization,applicant,credit_intelligence,audit}.
-- Identifiers (UUIDs) are numbers and are only compared; `next_id` supplies fresh ones. An amount
-- is in cents, a rate in thousandths of a percent, a time in seconds.
use credit_iq_ai.Prelude.{ℕ, String, Bool, Option, List, [], ◌∷◌, ◌++◌, ◌==◌, ◌&&◌, find}
use credit_iq_ai.Prelude.Int.{ℤ}
use credit_iq_ai.Shared.{
  OrgStatus, is_active_org, LoanStatus, DecisionType, FraudSeverity, FraudStatus,
}

pub record Date : Type 0 where
  pub year : ℕ
  pub month : ℕ
  pub day : ℕ

pub data ReviewPolicy : Type 0 where
  optional required amount_threshold : ReviewPolicy

pub record LoanWorkflowSettings : Type 0 where
  pub analyst_review_policy : ReviewPolicy
  pub analyst_review_amount_threshold : Option ℤ
  pub allow_needs_more_information : Bool
  pub allow_default_classification : Bool

-- The settings of a tenant apart from its loan workflow.
pub record GeneralSettings : Type 0 where
  pub currency : String
  pub timezone : String
  pub fiscal_year_start_month : ℕ

-- The column `settings` is split, and is empty until the tenant is configured.
pub record Organization : Type 0 where
  pub id : ℕ
  pub name : String
  pub nrb_license_no : Option String
  pub status : OrgStatus
  pub general : Option GeneralSettings
  pub loan_workflow : Option LoanWorkflowSettings

-- `status == "active"`
abbrev pub is_operating : Organization → Bool
is_operating o = is_active_org o.status

pub record Branch : Type 0 where
  pub id : ℕ
  pub organization_id : ℕ
  pub name : String
  pub code : String
  pub address : Option String
  pub is_active : Bool

-- The personal fields of an applicant.
pub record Person : Type 0 where
  pub full_name : String
  pub date_of_birth : Option Date
  pub gender : Option String
  pub phone : Option String
  pub email : Option String
  pub address : Option String
  pub is_self_employed : Bool

pub record Applicant : Type 0 where
  pub id : ℕ
  pub organization_id : ℕ
  pub branch_id : Option ℕ
  pub person : Person

-- A percentage as the decimal that `str` of its float writes: digits · 10^-places.
pub record Rate : Type 0 where
  pub digits : ℤ
  pub places : ℕ

pub record LoanProduct : Type 0 where
  pub id : ℕ
  pub organization_id : ℕ
  pub code : String
  pub name : String
  pub min_amount : ℤ
  pub max_amount : ℤ
  pub min_tenor_months : ℕ
  pub max_tenor_months : ℕ
  pub interest_rate : Rate
  pub is_active : Bool

pub record LoanApplication : Type 0 where
  pub id : ℕ
  pub organization_id : ℕ
  pub branch_id : Option ℕ
  pub applicant_id : ℕ
  pub product_id : Option ℕ
  pub reference_no : String
  pub amount : ℤ
  pub tenor_months : ℕ
  pub purpose : Option String
  pub status : LoanStatus
  pub created_by : ℕ

pub record LoanWorkflowEvent : Type 0 where
  pub organization_id : ℕ
  pub loan_id : ℕ
  pub from_status : LoanStatus
  pub to_status : LoanStatus
  pub actor_user_id : ℕ
  pub reason : Option String

pub record LoanDecision : Type 0 where
  pub organization_id : ℕ
  pub loan_id : ℕ
  pub decision : DecisionType
  pub decided_by : ℕ
  pub rationale : Option String
  pub conditions : Option String

pub record LoanDisbursement : Type 0 where
  pub organization_id : ℕ
  pub loan_id : ℕ
  pub amount : ℤ
  pub annual_interest_rate : Rate
  pub disbursed_at : ℕ
  pub first_due_date : Date
  pub external_reference : Option String
  pub disbursed_by : ℕ

pub record LoanInstallment : Type 0 where
  pub organization_id : ℕ
  pub loan_id : ℕ
  pub sequence_no : ℕ
  pub due_date : Date
  pub principal_due : ℤ
  pub interest_due : ℤ
  pub principal_paid : ℤ
  pub interest_paid : ℤ
  pub paid_at : Option ℕ

pub record LoanRepayment : Type 0 where
  pub id : ℕ
  pub organization_id : ℕ
  pub loan_id : ℕ
  pub amount : ℤ
  pub paid_at : ℕ
  pub external_reference : Option String
  pub recorded_by : ℕ

pub record FraudAlert : Type 0 where
  pub id : ℕ
  pub organization_id : ℕ
  pub loan_id : ℕ
  pub severity : FraudSeverity
  pub status : FraudStatus
  pub resolved_by : Option ℕ
  pub resolved_at : Option ℕ
  pub resolution_note : Option String

-- The `before` and `after` documents of an audit entry.
pub data Snapshot : Type 0 where
  nothing : Snapshot
  loan_created : String → ℤ → Snapshot
  loan_status : LoanStatus → Snapshot
  disbursement : ℤ → Rate → ℕ → Snapshot
  repayment : ℤ → ℕ → Snapshot
  fraud_status : FraudStatus → Option String → Snapshot
  analysis_completed : String → Snapshot
  organization_onboarded : String → String → ℕ → Snapshot
  organization_context : ℕ → Snapshot
  organization_profile :
      String → Option String → Option GeneralSettings → Option LoanWorkflowSettings → Snapshot
  organization_status : OrgStatus → Option String → Snapshot
  branch_created : String → String → Bool → Snapshot
  branch_profile : String → Option String → Bool → Snapshot
  branch_status : String → Bool → Snapshot

-- The client address and the request id of an entry are left out.
pub record AuditLog : Type 0 where
  pub organization_id : ℕ
  pub actor_user_id : ℕ
  pub action : String
  pub entity_type : String
  pub entity_id : ℕ
  pub before : Snapshot
  pub after : Snapshot

-- `current_org` is the session variable that the row-level security policies read.
pub record Db : Type 0 where
  pub current_org : ℕ
  pub next_id : ℕ
  pub organizations : List Organization
  pub branches : List Branch
  pub applicants : List Applicant
  pub products : List LoanProduct
  pub loans : List LoanApplication
  pub events : List LoanWorkflowEvent
  pub decisions : List LoanDecision
  pub disbursements : List LoanDisbursement
  pub installments : List LoanInstallment
  pub repayments : List LoanRepayment
  pub alerts : List FraudAlert
  pub audit_logs : List AuditLog

-- `audit.record`
unfoldable pub record_audit : AuditLog → Db → Db
record_audit entry db = record db { audit_logs = db.audit_logs ++ (entry ∷ []) }

-- `db.get` by primary key, on the rows that the policy `tenant_isolation` shows.
unfoldable pub get_loan_row : Db → ℕ → Option LoanApplication
get_loan_row db k = find (λ l. l.id == k && l.organization_id == db.current_org) db.loans

unfoldable pub get_applicant_row : Db → ℕ → Option Applicant
get_applicant_row db k = find (λ a. a.id == k && a.organization_id == db.current_org) db.applicants

unfoldable pub get_product_row : Db → ℕ → Option LoanProduct
get_product_row db k = find (λ p. p.id == k && p.organization_id == db.current_org) db.products

unfoldable pub get_organization_row : Db → ℕ → Option Organization
get_organization_row db k = find (λ o. o.id == k) db.organizations
