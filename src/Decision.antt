-- ===== src/Decision.antt =====
-- ai-engine/creditiq_ai/decision/models.py with the parts of config/models.py and of
-- fraud_intelligence/models/results.py that a decision reads.
pub mod Score
pub mod FraudScoring
pub mod Policy
pub mod Engine
pub mod Bounds
pub mod Conservative
pub mod Safety
pub mod Earned
pub mod Refusal
pub mod Clamp
use credit_iq_ai.Prelude.{ℕ, String, Bool, Option, none, some, List}
use credit_iq_ai.Prelude.Int.{ℤ, pos}
use credit_iq_ai.Prelude.Dict.{Dict}
use credit_iq_ai.Errors.{Outcome}

-- What a call of a component raises: an integrity failure blocks the decision.
pub data Failure : Type 0 where
  artifact_integrity : Failure
  value_error : Failure
  other : String → Failure

pub record ScoreBand : Type 0 where
  pub band : String
  pub min_score : ℤ

pub record ScoringConfig (N : Type 0) : Type 0 where
  pub min_score : ℤ
  pub max_score : ℤ
  pub base_score : N
  pub base_odds : N
  pub pdo : N
  pub bands : List ScoreBand

pub record FraudScoreBand : Type 0 where
  pub level : String
  pub min_score : ℤ

pub record FraudScoringConfig (N : Type 0) : Type 0 where
  pub score_min : ℤ
  pub score_max : ℤ
  pub weights : Dict N
  pub bands : List FraudScoreBand
  pub actions : Dict String

pub record ConfidenceWeights (N : Type 0) : Type 0 where
  pub credit_weight : N
  pub fraud_weight : N

pub record DecisionConfig (N : Type 0) : Type 0 where
  pub credit_recommendation : Dict String
  pub fraud_reject_levels : List String
  pub fraud_block_levels : List String
  pub fraud_block_action : String
  pub on_fraud_failure : String
  pub on_credit_failure : String
  pub on_incomplete_data : String
  pub required_features : List String
  pub confidence : ConfidenceWeights N

pub data FraudRiskLevel : Type 0 where
  very_low low moderate high critical : FraudRiskLevel

-- The value of a member.
abbrev pub level_value : FraudRiskLevel → String
level_value very_low = "very_low"
level_value low = "low"
level_value moderate = "moderate"
level_value high = "high"
level_value critical = "critical"

pub record FraudSignals (N : Type 0) : Type 0 where
  pub anomaly_probability : N
  pub rule_penalty : N
  pub behaviour_risk : N

-- Without the contributions of the signals.
pub record FraudScore (N : Type 0) : Type 0 where
  pub fraud_score : ℤ
  pub fraud_probability : N
  pub fraud_risk_level : FraudRiskLevel
  pub recommended_action : String

-- A column of the feature row: `none` where the value is missing.
pub record Column (N : Type 0) : Type 0 where
  pub name : String
  pub cells : List (Option N)

-- The correlation identifier is the request's own or a fresh one.
pub record DecisionRequest (N : Type 0) : Type 0 where
  pub row : List (Column N)
  pub correlation_id : String
  pub model_versions : Dict String
  pub feature_version : Option String

-- Without the time of creation.
pub record UnifiedDecision (N : Type 0) : Type 0 where
  pub credit_score : ℤ
  pub probability_of_default : N
  pub credit_risk : String
  pub fraud_score : Option ℤ
  pub fraud_probability : Option N
  pub fraud_risk : Option String
  pub recommendation : String
  pub confidence : N
  pub decision_reasons : List String
  pub model_versions : Dict String
  pub feature_version : Option String
  pub correlation_id : String
  pub processing_duration_ms : N
  pub warnings : List String
  pub monitoring_status : String

-- One operational event of model_operations/monitoring/models.py.
pub record InferenceEvent (N : Type 0) : Type 0 where
  pub correlation_id : String
  pub success : Bool
  pub duration_ms : N
  pub recommendation : Option String
  pub model_versions : Dict String
  pub warning_codes : List String

-- A monitoring backend with state `S`, which may raise.
pub record MonitoringSink (N S : Type 0) : Type 0 where
  pub record_event : S → InferenceEvent N → Outcome Failure S
