-- ===== src/Loan/Analysis.antt =====
-- The endpoint `analyze` of backend/app/modules/loan/router.py and `analyze_loan` of
-- backend/app/modules/credit_intelligence/service.py. The answer of the engine, with the features
-- that it is asked about, is an argument. The tables of scores, explanations, recommendations and
-- notifications, which no request on loans reads, are left out.
pub mod Alerts
use credit_iq_ai.Prelude.{
  ◌≡◌, subst, ℕ, ◌+◌, String, Bool, true, false, some, none, [], ◌∷◌, ◌++◌, if◌then◌else◌,
  Bool-cases, inl, inr,
}
use credit_iq_ai.Shared.{
  LoanStatus, under_review, ai_risk_analysis, fraud_screening, officer_review, eq_status, low,
  eq_severity, FraudSeverity, open_alert,
}
use credit_iq_ai.Errors.{Result, ok, ◌>>=◌, >>=-ok_inv, ok-injective}
use credit_iq_ai.Store.{LoanApplication, AuditLog, nothing, analysis_completed, Db, record_audit}
use credit_iq_ai.Access.{CurrentUser}
use credit_iq_ai.Loan.Service.{get_loan, transition}
use credit_iq_ai.Loan.Service.Screening.{IsScreened, transition-IsScreened}

-- What the writes on loans and alerts take from an `MLPrediction`.
pub record Prediction : Type 0 where
  pub model_version : String
  pub severity : FraudSeverity

-- `if fraud["severity"] != "low": db.add(FraudAlert(...))`
abbrev pub add_alert : Db → ℕ → ℕ → FraudSeverity → Db
add_alert db org_id loan_id severity = if eq_severity severity low then db else record db {
  next_id = db.next_id + 1;
  alerts =
      db.alerts
      ++ (record {
        id = db.next_id;
        organization_id = org_id;
        loan_id = loan_id;
        severity = severity;
        status = open_alert;
        resolved_by = none;
        resolved_at = none;
        resolution_note = none;
      }
          ∷ []);
}

-- `predict` answers for an applicant, or raises where the engine is not available.
unfoldable pub analyze_loan : (ℕ → Result Prediction) → Db → ℕ → ℕ → ℕ → Result (Prediction × Db)
analyze_loan predict db org_id loan_id applicant_id = do
  prediction ← predict applicant_id
  ok (prediction, add_alert db org_id loan_id prediction.severity)

-- `if loan.status == ...: service.transition(...)`, which changes the status of `loan` itself.
abbrev pub transition_if :
    Bool
    → Db
    → CurrentUser
    → ℕ
    → LoanApplication
    → LoanStatus
    → String
    → Result (LoanApplication × Db)
transition_if true db user loan_id loan to_status reason =
    transition db user loan_id to_status (some reason)
transition_if false db user loan_id loan to_status reason = ok (loan, db)

abbrev pub analysis_entry : CurrentUser → ℕ → Prediction → AuditLog
analysis_entry user loan_id prediction = record {
  organization_id = user.org_id;
  actor_user_id = user.user_id;
  action = "loan.ai_analysis.complete";
  entity_type = "loan";
  entity_id = loan_id;
  before = nothing;
  after = analysis_completed prediction.model_version;
}

unfoldable pub analyze : (ℕ → Result Prediction) → Db → CurrentUser → ℕ → Result (Prediction × Db)
analyze predict db user loan_id = do
  loan ← get_loan db loan_id user
  started ←
      transition_if (eq_status loan.status under_review) db user loan_id loan ai_risk_analysis
        "AI analysis started"
  result ← analyze_loan predict started.1 user.org_id loan_id loan.applicant_id
  let logged = record_audit (analysis_entry user loan_id result.0) result.1
  current ← get_loan logged loan_id user
  screened ←
      transition_if (eq_status current.status ai_risk_analysis) logged user loan_id current
        fraud_screening "Fraud screening"
  reviewed ←
      transition_if (eq_status screened.0.status fraud_screening) screened.1 user loan_id screened.0
        officer_review "Ready for officer review"
  ok (result.0, reviewed.1)

transition_if-IsScreened :
    (b : Bool) (db : Db) (user : CurrentUser) (k : ℕ) (loan : LoanApplication) (t : LoanStatus)
    (reason : String) {r : LoanApplication × Db}
    → transition_if b db user k loan t reason ≡ ok r
    → IsScreened db
    → IsScreened r.1
transition_if-IsScreened true db user k loan t reason h scr =
    transition-IsScreened db user k t (some reason) h scr
transition_if-IsScreened false db user k loan t reason h scr =
    subst (λ x. IsScreened x.1) (ok-injective h) scr

add_alert-IsScreened :
    (db : Db) (org_id loan_id : ℕ) (severity : FraudSeverity)
    → IsScreened db
    → IsScreened (add_alert db org_id loan_id severity)
add_alert-IsScreened db org_id loan_id severity scr = elim (Bool-cases (eq_severity severity low)) [
  | inl quiet ↦ rw quiet scr
  | inr loud ↦ rw loud scr
]

pub analyze-IsScreened :
    (predict : ℕ → Result Prediction) (db : Db) (user : CurrentUser) (k : ℕ) {r : Prediction × Db}
    → analyze predict db user k ≡ ok r
    → IsScreened db
    → IsScreened r.1
unfolding analyze analyze_loan record_audit
analyze-IsScreened predict db user k {r} h scr =
    let (loan, hl, h1) = >>=-ok_inv (get_loan db k user) _ h in
    let (started, hs, h2) =
      >>=-ok_inv
        (transition_if (eq_status loan.status under_review) db user k loan ai_risk_analysis
          "AI analysis started")
        _ h1 in
    let (result, ha, h3) =
      >>=-ok_inv (analyze_loan predict started.1 user.org_id k loan.applicant_id) _ h2 in
    let (p, hp, h4) = >>=-ok_inv (predict loan.applicant_id) _ ha in
    let logged = record_audit (analysis_entry user k result.0) result.1 in
    let (current, hc, h5) = >>=-ok_inv (get_loan logged k user) _ h3 in
    let (screened, hf, h6) =
      >>=-ok_inv
        (transition_if (eq_status current.status ai_risk_analysis) logged user k current
          fraud_screening "Fraud screening")
        _ h5 in
    let (reviewed, hr, h7) =
      >>=-ok_inv
        (transition_if (eq_status screened.0.status fraud_screening) screened.1 user k screened.0
          officer_review "Ready for officer review")
        _ h6 in
    let first = transition_if-IsScreened _ db user k loan ai_risk_analysis _ hs scr in
    let alerted : IsScreened result.1 =
      subst (λ x. IsScreened x.1) (ok-injective h4)
        (add_alert-IsScreened started.1 user.org_id k p.severity first) in
    let second = transition_if-IsScreened _ logged user k current fraud_screening _ hf alerted in
    let third =
      transition_if-IsScreened _ screened.1 user k screened.0 officer_review _ hr second in
    subst (λ x. IsScreened x.1) (ok-injective h7) third
