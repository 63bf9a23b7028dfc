-- ===== src/Tests/Sample.antt =====
-- A tenant with one branch, one officer, one applicant and one loan under officer review.
use credit_iq_ai.Prelude.{false, true, none, some, List, [], ◌∷◌}
use credit_iq_ai.Prelude.Int.{pos}
use credit_iq_ai.Shared.{
  OrgStatus, LoanStatus, draft, submitted, under_review, ai_risk_analysis, fraud_screening,
  officer_review, high, approve, FraudStatus, FraudSeverity, critical,
}
use credit_iq_ai.Store.{
  Rate, Applicant, Organization, Branch, Date, LoanApplication, LoanWorkflowEvent, FraudAlert, Db,
  LoanWorkflowSettings, required,
}
use credit_iq_ai.Access.{CurrentUser}
use credit_iq_ai.Loan.Service.{DecisionRequest}
use credit_iq_ai.Loan.Servicing.{ServicingSettings, DisbursementRequest}

abbrev pub manager : CurrentUser
manager = record {
  user_id = 100;
  org_id = 1;
  branch_id = some 5;
  applicant_id = none;
  roles = "Branch Manager" ∷ [];
  permissions = "loan:approve" ∷ [];
  home_org_id = none;
}

abbrev pub loan : LoanApplication
loan = record {
  id = 7;
  organization_id = 1;
  branch_id = some 5;
  applicant_id = 10;
  product_id = none;
  reference_no = "LN-00000007";
  amount = pos 300000;
  tenor_months = 3;
  purpose = none;
  status = officer_review;
  created_by = 100;
}

abbrev event : LoanStatus → LoanStatus → LoanWorkflowEvent
event from to = record {
  organization_id = 1;
  loan_id = 7;
  from_status = from;
  to_status = to;
  actor_user_id = 100;
  reason = none;
}

abbrev pub alert : FraudStatus → FraudAlert
alert s = record {
  id = 20;
  organization_id = 1;
  loan_id = 7;
  severity = high;
  status = s;
  resolved_by = none;
  resolved_at = none;
  resolution_note = none;
}

abbrev pub sample_organization : Organization
sample_organization = record {
  id = 1;
  name = "Sample Finance";
  nrb_license_no = none;
  status = OrgStatus.active;
  general = none;
  loan_workflow = none;
}

abbrev pub branch : Branch
branch = record {
  id = 5;
  organization_id = 1;
  name = "Head Office";
  code = "HO";
  address = none;
  is_active = true;
}

abbrev pub applicant : Applicant
applicant = record {
  id = 10;
  organization_id = 1;
  branch_id = some 5;
  person = record {
    full_name = "Asha Rai";
    date_of_birth = none;
    gender = none;
    phone = some "98";
    email = none;
    address = none;
    is_self_employed = false;
  };
}

abbrev pub tenant : Db
tenant = record {
  current_org = 1;
  next_id = 1000;
  organizations = sample_organization ∷ [];
  branches = branch ∷ [];
  applicants = applicant ∷ [];
  products = [];
  loans = loan ∷ [];
  events =
      event draft submitted
      ∷ event submitted under_review
      ∷ event under_review ai_risk_analysis
      ∷ event ai_risk_analysis fraud_screening
      ∷ event fraud_screening officer_review
      ∷ [];
  decisions = [];
  disbursements = [];
  installments = [];
  repayments = [];
  alerts = [];
  audit_logs = [];
}

abbrev pub flagged : FraudStatus → Db
flagged s = record tenant { alerts = alert s ∷ [] }

abbrev pub approval : DecisionRequest
approval = record { decision = approve; rationale = none; conditions = none }

abbrev pub severities : List FraudSeverity
severities = high ∷ critical ∷ []

abbrev pub twelve : Rate
twelve = record { digits = pos 12; places = 0 }

abbrev pub servicing : ServicingSettings
servicing = record { default_annual_interest_rate = twelve; first_due_days = 30; grace_days = 0 }

abbrev pub today : Date
today = record { year = 2026; month = 1; day = 1 }

abbrev pub month_end : Date
month_end = record { year = 2026; month = 1; day = 31 }

abbrev pub request : DisbursementRequest
request = record {
  annual_interest_rate = none;
  first_due_date = some month_end;
  external_reference = none;
}

-- Settings under which every loan needs an analyst.
abbrev pub strict : LoanWorkflowSettings
strict = record {
  analyst_review_policy = required;
  analyst_review_amount_threshold = none;
  allow_needs_more_information = true;
  allow_default_classification = true;
}
