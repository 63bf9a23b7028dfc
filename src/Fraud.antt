-- ===== src/Fraud.antt =====
-- backend/app/modules/fraud/service.py: investigation of fraud alerts, safe across tenants and
-- branches.
pub mod Resolution
use credit_iq_ai.Prelude.{
  ℕ, String, Bool, true, false, not, ◌&&◌, Option, some, none, List, [], ◌∷◌, ◌==◌, find,
  update_first,
}
use credit_iq_ai.Prelude.Text.{strip}
use credit_iq_ai.Shared.{FraudSeverity, FraudStatus, open_alert, confirmed, dismissed}
use credit_iq_ai.Errors.{
  Result, ok, raise_if, or_raise, ◌>>=◌, ◌>>◌, domain_rule, not_found, conflict,
}
use credit_iq_ai.Store.{
  Applicant, LoanApplication, FraudAlert, AuditLog, Db, record_audit, fraud_status,
}
use credit_iq_ai.Access.{CurrentUser, branch_predicate}

pub record FraudCase : Type 0 where
  pub alert : FraudAlert
  pub loan : LoanApplication
  pub applicant : Applicant

-- Without the applicant's name, the reasons and the time of creation.
pub record FraudAlertOut : Type 0 where
  pub id : ℕ
  pub loan_id : ℕ
  pub loan_reference : String
  pub applicant_id : ℕ
  pub severity : FraudSeverity
  pub status : FraudStatus
  pub resolved_by : Option ℕ
  pub resolved_at : Option ℕ
  pub resolution_note : Option String

unfoldable pub present_alert : FraudCase → FraudAlertOut
present_alert c = record {
  id = c.alert.id;
  loan_id = c.loan.id;
  loan_reference = c.loan.reference_no;
  applicant_id = c.applicant.id;
  severity = c.alert.severity;
  status = c.alert.status;
  resolved_by = c.alert.resolved_by;
  resolved_at = c.alert.resolved_at;
  resolution_note = c.alert.resolution_note;
}

-- A row of the caller's tenant, in a session bound to a tenant.
abbrev pub in_tenant : Db → CurrentUser → ℕ → Bool
in_tenant db user org = org == user.org_id && org == db.current_org

abbrev pub joined_loan : Db → CurrentUser → FraudAlert → LoanApplication → Bool
joined_loan db user alert l =
    l.id == alert.loan_id
    && in_tenant db user l.organization_id
    && branch_predicate user l.branch_id

-- The joins of `_query` for the alert that `_query(user).where(FraudAlert.id == alert_id)` selects.
unfoldable pub get_alert : Db → CurrentUser → ℕ → Result FraudCase
get_alert db user alert_id = do
  alert ←
      or_raise (find (λ a. a.id == alert_id && in_tenant db user a.organization_id) db.alerts)
        (not_found "Fraud alert not found")
  loan ← or_raise (find (joined_loan db user alert) db.loans) (not_found "Fraud alert not found")
  applicant ←
      or_raise
        (find (λ p. p.id == loan.applicant_id && in_tenant db user p.organization_id) db.applicants)
        (not_found "Fraud alert not found")
  ok (record { alert = alert; loan = loan; applicant = applicant })

abbrev pub is_resolution : FraudStatus → Bool
is_resolution confirmed = true
is_resolution dismissed = true
is_resolution open_alert = false

abbrev pub is_open : FraudStatus → Bool
is_open open_alert = true
is_open _ = false

abbrev pub resolved : ℕ → CurrentUser → FraudStatus → String → FraudAlert → FraudAlert
resolved now user status note a = record a {
  status = status;
  resolved_by = some user.user_id;
  resolved_at = some now;
  resolution_note = some (strip note);
}

unfoldable pub resolve_alert :
    ℕ → Db → CurrentUser → ℕ → FraudStatus → String → Result (FraudAlertOut × Db)
resolve_alert now db user alert_id status note = do
  raise_if (not (is_resolution status))
      (domain_rule "Fraud resolution must be confirmed or dismissed")
  found ← get_alert db user alert_id
  raise_if (not (is_open found.alert.status)) (conflict "Fraud alert has already been resolved")
  let alert = resolved now user status note found.alert
  let written = record db {
    alerts =
        update_first (λ a. a.id == alert_id && in_tenant db user a.organization_id)
          (resolved now user status note) db.alerts;
  }
  let entry : AuditLog = record {
    organization_id = user.org_id;
    actor_user_id = user.user_id;
    action = "fraud.alert.resolve";
    entity_type = "fraud_alert";
    entity_id = alert.id;
    before = fraud_status found.alert.status none;
    after = fraud_status status alert.resolution_note;
  }
  ok (present_alert (record found { alert = alert }), record_audit entry written)
