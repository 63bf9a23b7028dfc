-- ===== src/Loan/Analysis/Alerts.antt =====
-- What a fraud finding of an analysis means for the decision on the loan: the alert that
-- `analyze_loan` adds is one that `ensure_fraud_clearance` looks for.
use credit_iq_ai.Prelude.{
  ◌≡◌, ◌∙◌, refl, sym, ap, subst, ℕ, String, Bool, true, false, some, none, List, [], ◌∷◌, ◌++◌,
  All, exists,
}
use credit_iq_ai.Shared.{
  LoanStatus, under_review, ai_risk_analysis, fraud_screening, officer_review, eq_status, low,
  eq_severity, FraudSeverity, FraudStatus, open_alert, dismissed, approve,
}
use credit_iq_ai.Errors.{Result, ok, err, AppError, refused, >>=-ok_inv, ok-injective}
use credit_iq_ai.Store.{LoanApplication, FraudAlert, Db, record_audit}
use credit_iq_ai.Access.{CurrentUser}
use credit_iq_ai.Loan.Service.{DecisionRequest, get_loan, decide, move}
use credit_iq_ai.Loan.Service.Effects.{transition_inv}
use credit_iq_ai.Loan.Service.Approval.{IsCleared, decide_approve-IsCleared}
use credit_iq_ai.Loan.Analysis.{
  Prediction, add_alert, analyze_loan, transition_if, analysis_entry, analyze,
}

-- The tables that the clearance reads are the same.
abbrev SameAlerts : Db → Db → Type 0
SameAlerts db after = (db.alerts ≡ after.alerts) × (db.current_org ≡ after.current_org)

transition_if-SameAlerts :
    (b : Bool) (db : Db) (user : CurrentUser) (k : ℕ) (loan : LoanApplication) (t : LoanStatus)
    (reason : String) {r : LoanApplication × Db}
    → transition_if b db user k loan t reason ≡ ok r
    → SameAlerts db r.1
unfolding move record_audit
transition_if-SameAlerts true db user k loan t reason h =
    let (found, s, hl, hs, hc, hm) = transition_inv db user k t (some reason) h in
    (ap (λ x. x.1.alerts) hm, ap (λ x. x.1.current_org) hm)
transition_if-SameAlerts false db user k loan t reason h =
    (ap (λ x. x.1.alerts) (ok-injective h), ap (λ x. x.1.current_org) (ok-injective h))

abbrev is_unresolved : FraudStatus → Bool
is_unresolved open_alert = true
is_unresolved _ = false

All-last : {A : Type 0} (P : A → Type 0) (xs : List A) {x : A} → All P (xs ++ (x ∷ [])) → P x
All-last P [] (p, rest) = p
All-last P (y ∷ ys) (p, rest) = All-last P ys rest

abbrev filed_alert : Db → ℕ → ℕ → FraudSeverity → FraudAlert
filed_alert db org_id loan_id severity = record {
  id = db.next_id;
  organization_id = org_id;
  loan_id = loan_id;
  severity = severity;
  status = open_alert;
  resolved_by = none;
  resolved_at = none;
  resolution_note = none;
}

added_alert :
    (db : Db) (org_id loan_id : ℕ) (severity : FraudSeverity)
    → eq_severity severity low ≡ false
    → ((add_alert db org_id loan_id severity).alerts
        ≡ db.alerts ++ (filed_alert db org_id loan_id severity ∷ []))
      × ((add_alert db org_id loan_id severity).current_org ≡ db.current_org)
added_alert db org_id loan_id severity loud = (rw loud refl, rw loud refl)

-- The alert of a finding other than `low` stands at the end of the alerts that the analysis leaves.
pub analyze_alerts :
    (predict : ℕ → Result Prediction) (db : Db) (user : CurrentUser) (k : ℕ) {r : Prediction × Db}
    → analyze predict db user k ≡ ok r
    → eq_severity r.0.severity low ≡ false
    → (before : List FraudAlert) × (new : FraudAlert) × (r.1.alerts ≡ before ++ (new ∷ []))
      × (r.1.current_org ≡ db.current_org)
      × (new.organization_id ≡ user.org_id)
      × (new.loan_id ≡ k)
      × (new.severity ≡ r.0.severity)
      × (new.status ≡ open_alert)
unfolding analyze analyze_loan record_audit
analyze_alerts predict db user k {r} h loud =
    let (loan, hl, h1) = >>=-ok_inv (get_loan db k user) _ h in
    let (started, hs, h2) =
      >>=-ok_inv
        (transition_if (eq_status loan.status under_review) db user k loan ai_risk_analysis
          "AI analysis started")
        _ h1 in
    let (result, ha, h3) =
      >>=-ok_inv (analyze_loan predict started.1 user.org_id k loan.applicant_id) _ h2 in
    let (p, hp, h4) = >>=-ok_inv (predict loan.applicant_id) _ ha in
    let logged = record_audit (analysis_entry user k result.0) result.1 in
    let (current, hc, h5) = >>=-ok_inv (get_loan logged k user) _ h3 in
    let (screened, hf, h6) =
      >>=-ok_inv
        (transition_if (eq_status current.status ai_risk_analysis) logged user k current
          fraud_screening "Fraud screening")
        _ h5 in
    let (reviewed, hr, h7) =
      >>=-ok_inv
        (transition_if (eq_status screened.0.status fraud_screening) screened.1 user k screened.0
          officer_review "Ready for officer review")
        _ h6 in
    let (_, org1) = transition_if-SameAlerts _ db user k loan ai_risk_analysis _ hs in
    let (al2, org2) = transition_if-SameAlerts _ logged user k current fraud_screening _ hf in
    let (al3, org3) = transition_if-SameAlerts _ screened.1 user k screened.0 officer_review _ hr in
    let answer : p ≡ r.0 = ap (λ x. x.0) (ok-injective h4) ∙ ap (λ x. x.0) (ok-injective h7) in
    let loud' : eq_severity p.severity low ≡ false =
      subst (λ q. eq_severity q.severity low ≡ false) (sym answer) loud in
    let added = added_alert started.1 user.org_id k p.severity loud' in
    let written = ok-injective h4 in
    (
      started.1.alerts,
      filed_alert started.1 user.org_id k p.severity,
      sym (ap (λ x. x.1.alerts) (ok-injective h7))
          ∙ sym al3
          ∙ sym al2
          ∙ sym (ap (λ x. x.1.alerts) written)
          ∙ added.0,
      sym (ap (λ x. x.1.current_org) (ok-injective h7))
          ∙ sym org3
          ∙ sym org2
          ∙ sym (ap (λ x. x.1.current_org) written)
          ∙ added.1
          ∙ sym org1,
      refl,
      refl,
      ap (λ q. q.severity) answer,
      refl,
    )

-- In a session of the caller's tenant, after an analysis that finds a fraud severity which is not
-- low and blocks approval, a decision to approve the loan is refused on the tables that it leaves,
-- whoever in the tenant decides.
pub analyze_blocks :
    (predict : ℕ → Result Prediction) (severities : List FraudSeverity) (db : Db)
    (user : CurrentUser) (k : ℕ) {r : Prediction × Db}
    → analyze predict db user k ≡ ok r
    → eq_severity r.0.severity low ≡ false
    → exists (λ s. eq_severity r.0.severity s) severities ≡ true
    → user.org_id ≡ db.current_org
    → (officer : CurrentUser) (body : DecisionRequest) → body.decision ≡ approve
    → (e : AppError) × (decide severities r.1 officer k body ≡ err e)
analyze_blocks predict severities db user k {r} h loud blocking in_tenant officer body approves =
    refused (decide severities r.1 officer k body) (λ done hd.
      let (before, new, alerts, org, of_org, of_loan, of_severity, is_open) =
        analyze_alerts predict db user k h loud in
      let (cleared, _) = decide_approve-IsCleared severities r.1 officer k body approves hd in
      let last =
        All-last (IsCleared severities r.1 k) before
          (subst (All (IsCleared severities r.1 k)) alerts cleared) in
      let gone : new.status ≡ dismissed =
        last (of_org ∙ in_tenant ∙ sym org) of_loan (
          subst (λ x. exists (λ s. eq_severity x s) severities ≡ true) (sym of_severity)
            blocking) in
      let clash : open_alert ≡ dismissed = sym is_open ∙ gone in ap is_unresolved clash)
