-- ===== src/Loan/Workflow/Policy.antt =====
-- What a tenant's settings can and cannot change in the transition graph.
use credit_iq_ai.Prelude.{◌≡◌, Bool, true, not, ◌&&◌, ◌||◌, List, [], ◌∷◌, arith, All}
use credit_iq_ai.Prelude.Int.{ℤ}
use credit_iq_ai.Shared.{
  LoanStatus, eq_status, loan_transitions, draft, submitted, under_review, ai_risk_analysis,
  fraud_screening, officer_review, analyst_review, needs_more_info, approved, rejected, disbursed,
  active, closed, defaulted,
}
use credit_iq_ai.Store.{LoanWorkflowSettings}
use credit_iq_ai.Loan.Workflow.{allowed, analyst_required, contains}

pub eq_status_sound : (a b : LoanStatus) → eq_status a b ≡ true → a ≡ b
eq_status_sound a b h = ground arith

-- A target is allowed exactly when the mandatory graph has the edge and no setting withdraws it:
-- the settings can withdraw requests for information, default classification and, where an analyst
-- is required, the officer's own approval and rejection. They can never add an edge.
pub contains-allowed :
    (s : LoanWorkflowSettings) (current target : LoanStatus) (amount : ℤ)
    → contains (allowed s current amount) target ≡ (
        contains (loan_transitions current) target
        && (s.allow_needs_more_information || not (eq_status target needs_more_info))
        && (s.allow_default_classification || not (eq_status target defaulted))
        && not (
            eq_status current officer_review
            && analyst_required s amount
            && (eq_status target approved || eq_status target rejected)))
unfolding allowed
contains-allowed s current target amount = ground arith

abbrev until_screening : List LoanStatus
until_screening = fraud_screening ∷ ai_risk_analysis ∷ under_review ∷ submitted ∷ []

abbrev until_approval : List LoanStatus
until_approval = approved ∷ officer_review ∷ until_screening

-- The stages that a status presupposes, the status itself included.
abbrev pub presupposes : LoanStatus → List LoanStatus
presupposes draft = []
presupposes submitted = submitted ∷ []
presupposes under_review = under_review ∷ submitted ∷ []
presupposes needs_more_info = needs_more_info ∷ under_review ∷ submitted ∷ []
presupposes ai_risk_analysis = ai_risk_analysis ∷ under_review ∷ submitted ∷ []
presupposes fraud_screening = until_screening
presupposes officer_review = officer_review ∷ until_screening
presupposes analyst_review = analyst_review ∷ officer_review ∷ until_screening
presupposes rejected = rejected ∷ officer_review ∷ until_screening
presupposes approved = until_approval
presupposes disbursed = disbursed ∷ until_approval
presupposes active = active ∷ disbursed ∷ until_approval
presupposes closed = closed ∷ active ∷ disbursed ∷ until_approval
presupposes defaulted = defaulted ∷ active ∷ disbursed ∷ until_approval

-- Along an edge of the graph, all that the target presupposes has been passed, if all that the
-- source presupposes has.
pub presupposes-edge :
    (v : LoanStatus → Bool) (a b : LoanStatus)
    → contains (loan_transitions a) b ≡ true
    → v b ≡ true
    → All (λ s. v s ≡ true) (presupposes a)
    → All (λ s. v s ≡ true) (presupposes b)
presupposes-edge v a b h here before = ground arith
