-- ===== src/Loan/Service/Approval.antt =====
-- Fraud clearance before an approval.
use mathlib.Core.Path.{subst}
use credit_iq_ai.Prelude.{
  ◌≡◌, ◌∙◌, refl, ap, ℕ, true, false, ◌&&◌, List, [], ◌∷◌, arith, ◌==◌, exists, All,
}
use credit_iq_ai.Shared.{FraudSeverity, dismissed, eq_severity, approve, approved}
use credit_iq_ai.Errors.{ok, err, domain_rule, >>=-ok_inv}
use credit_iq_ai.Store.{LoanApplication, FraudAlert, Db}
use credit_iq_ai.Access.{CurrentUser}
use credit_iq_ai.Loan.Service.{
  DecisionRequest, get_loan, decide, clearance, blocks, ensure_fraud_clearance, decision_target,
  blocked_message,
}
use credit_iq_ai.Loan.Service.Effects.{transition_effects, get_loan-id}

-- Every alert on loan `k` that the tenant sees, of a severity that blocks, has been dismissed.
abbrev pub IsCleared : List FraudSeverity → Db → ℕ → FraudAlert → Type 0
IsCleared severities db k a =
    a.organization_id ≡ db.current_org
    → a.loan_id ≡ k
    → exists (λ s. eq_severity a.severity s) severities ≡ true
    → a.status ≡ dismissed

IsCleared-of_none :
    (severities : List FraudSeverity) (db : Db) (k : ℕ) (alerts : List FraudAlert)
    → exists (λ a. a.organization_id == db.current_org && blocks severities k a) alerts ≡ false
    → All (IsCleared severities db k) alerts
IsCleared-of_none severities db k [] h = tt
IsCleared-of_none severities db k (a ∷ alerts) h =
    (λ org loan sev. ground arith, IsCleared-of_none severities db k alerts (ground arith))

-- A decision to approve succeeds only if every visible alert on the loan whose severity blocks
-- approval has been dismissed; the loan is then approved.
pub decide_approve-IsCleared :
    (severities : List FraudSeverity) (db : Db) (user : CurrentUser) (k : ℕ)
    (body : DecisionRequest) {r : LoanApplication × Db}
    → body.decision ≡ approve
    → decide severities db user k body ≡ ok r
    → All (IsCleared severities db k) db.alerts × (r.0.status ≡ approved)
unfolding decide ensure_fraud_clearance
decide_approve-IsCleared severities db user k body a h =
    let (loan, hl, h1) = >>=-ok_inv (get_loan db k user) _ h in
    let (_, hc, h2) = >>=-ok_inv (clearance body.decision severities db loan.id) _ h1 in
    let (_, _, _, moved, _, _, _) =
      transition_effects _ user k (decision_target body.decision) _ h2 in
    (
      subst (λ n. All (IsCleared severities db n) db.alerts) (get_loan-id db k user hl).0
          (IsCleared-of_none severities db loan.id db.alerts (ground arith)),
      ap (λ l. l.status) moved ∙ ap decision_target a,
    )

module _ (severities : List FraudSeverity) (db : Db) (user : CurrentUser) (k : ℕ)
    (body : DecisionRequest) {loan : LoanApplication} where
  -- While an alert of a blocking severity on the loan is open or confirmed, a decision to approve
  -- by a caller who may open the loan is refused by the clearance rule.
  pub decide_approve_blocked :
      get_loan db k user ≡ ok loan
      → body.decision ≡ approve
      → exists (λ a. a.organization_id == db.current_org && blocks severities loan.id a) db.alerts
        ≡ true
      → decide severities db user k body ≡ err (domain_rule blocked_message)
  unfolding decide ensure_fraud_clearance
  decide_approve_blocked hl a b = rw (hl, a, b) refl
