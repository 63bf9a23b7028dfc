-- ===== src/Shared.antt =====
-- backend/app/shared/enums.py: the controlled vocabularies, and the loan transition graph.
use credit_iq_ai.Prelude.{ℕ, Bool, true, false, List, [], ◌∷◌, ◌==◌}

pub data OrgStatus : Type 0 where
  provisioning active suspended offboarding : OrgStatus

abbrev pub is_active_org : OrgStatus → Bool
is_active_org OrgStatus.active = true
is_active_org _ = false

pub data LoanStatus : Type 0 where
  draft submitted under_review ai_risk_analysis fraud_screening officer_review : LoanStatus
  analyst_review needs_more_info approved rejected disbursed active closed defaulted : LoanStatus

pub data DecisionType : Type 0 where
  approve reject needs_more_info : DecisionType

pub data FraudSeverity : Type 0 where
  low medium high critical : FraudSeverity

pub data FraudStatus : Type 0 where
  open_alert confirmed dismissed : FraudStatus

-- A number for each value of the enum: two members are equal when their values are.
abbrev pub value : LoanStatus → ℕ
value draft = 0
value submitted = 1
value under_review = 2
value ai_risk_analysis = 3
value fraud_screening = 4
value officer_review = 5
value analyst_review = 6
value LoanStatus.needs_more_info = 7
value approved = 8
value rejected = 9
value disbursed = 10
value active = 11
value closed = 12
value defaulted = 13

abbrev pub eq_status : LoanStatus → LoanStatus → Bool
eq_status a b = value a == value b

-- `LOAN_TRANSITIONS.get(status, set())`: the sets are listed in the source's order.
abbrev pub loan_transitions : LoanStatus → List LoanStatus
loan_transitions draft = submitted ∷ []
loan_transitions submitted = under_review ∷ []
loan_transitions under_review = ai_risk_analysis ∷ LoanStatus.needs_more_info ∷ []
loan_transitions ai_risk_analysis = fraud_screening ∷ []
loan_transitions fraud_screening = officer_review ∷ []
loan_transitions officer_review =
    analyst_review ∷ LoanStatus.needs_more_info ∷ approved ∷ rejected ∷ []
loan_transitions analyst_review = approved ∷ rejected ∷ LoanStatus.needs_more_info ∷ []
loan_transitions LoanStatus.needs_more_info = under_review ∷ []
loan_transitions approved = disbursed ∷ []
loan_transitions disbursed = active ∷ []
loan_transitions active = closed ∷ defaulted ∷ []
loan_transitions defaulted = closed ∷ []
loan_transitions _ = []

abbrev pub severity_value : FraudSeverity → ℕ
severity_value low = 0
severity_value medium = 1
severity_value high = 2
severity_value critical = 3

abbrev pub eq_severity : FraudSeverity → FraudSeverity → Bool
eq_severity a b = severity_value a == severity_value b

abbrev pub is_dismissed : FraudStatus → Bool
is_dismissed dismissed = true
is_dismissed _ = false
