-- ===== src/Decision/Engine.antt =====
-- ai-engine/creditiq_ai/decision/engine.py: one lending decision. The predictor, the fraud assessor
-- and the monitor are injected; the clock's reading is an argument.
use credit_iq_ai.Prelude.{
  String, Bool, true, false, not, ◌&&◌, List, [], ◌∷◌, ◌++◌, Option, none, some, find,
  if◌then◌else◌, is_none,
}
use credit_iq_ai.Prelude.Text.{same}
use credit_iq_ai.Prelude.Int.{ℤ, pos}
use credit_iq_ai.Float.{Float, zero_float, one_float, or_one}
use credit_iq_ai.Errors.{Outcome, ok, err, ◌>>=◌}
use credit_iq_ai.Decision.{
  DecisionConfig, ScoringConfig, FraudScoringConfig, FraudSignals, FraudScore, DecisionRequest,
  UnifiedDecision, InferenceEvent, MonitoringSink, Column, Failure, artifact_integrity, level_value,
}
use credit_iq_ai.Decision.Score.{clamp01, score, band}
use credit_iq_ai.Decision.FraudScoring.{score_signals}
use credit_iq_ai.Decision.Policy.{recommend}

abbrev pub all_present : {N : Type 0} → List (Option N) → Bool
all_present [] = true
all_present (none ∷ cells) = false
all_present (some x ∷ cells) = all_present cells

abbrev pub has_feature : {N : Type 0} → Option (Column N) → Bool
has_feature none = false
has_feature (some c) = all_present c.cells

unfoldable pub data_complete : {N : Type 0} → List (Column N) → List String → Bool
data_complete row [] = true
data_complete row (f ∷ fs) = has_feature (find (λ c. same c.name f) row) && data_complete row fs

-- An assessment: whether it is there, its value, and a warning otherwise.
pub record Assessment (A : Type 0) : Type 0 where
  pub is_ok : Bool
  pub value : A
  pub warnings : List String

-- `except ArtifactIntegrityError: raise` and `except Exception`.
abbrev pub degrade : {A B : Type 0} → Outcome Failure A → (A → B) → B → Outcome Failure B
degrade (ok a) done fallback = ok (done a)
degrade (err artifact_integrity) done fallback = err artifact_integrity
degrade (err _) done fallback = ok fallback

abbrev pub level_name : {N : Type 0} → Option (FraudScore N) → Option String
level_name none = none
level_name (some s) = some (level_value s.fraud_risk_level)

abbrev pub probability_of : {N : Type 0} → Option (FraudScore N) → Option N
probability_of none = none
probability_of (some s) = some s.fraud_probability

abbrev pub points_of : {N : Type 0} → Option (FraudScore N) → Option ℤ
points_of none = none
points_of (some s) = some s.fraud_score

abbrev pub fraud_known : {N : Type 0} → FraudScore N → Assessment (Option (FraudScore N))
fraud_known s = record { is_ok = true; value = some s; warnings = [] }

abbrev pub fraud_unknown : {N : Type 0} → Assessment (Option (FraudScore N))
fraud_unknown = record { is_ok = false; value = none; warnings = "fraud_unavailable" ∷ [] }

module _ (F : Float) where
  open F use {Number, literal, lt, add, sub, mul, div, abs, round_to}

  pub record Engine (S : Type 0) : Type 0 where
    pub decision : DecisionConfig Number
    pub scoring : ScoringConfig Number
    pub fraud_scoring : FraudScoringConfig Number
    pub credit_predictor : List (Column Number) → Outcome Failure Number
    pub fraud_assessor : Option (List (Column Number) → Outcome Failure (FraudSignals Number))
    pub monitor : Option (MonitoringSink Number S)

  abbrev pub credit_known : Number → Assessment Number
  credit_known p = record { is_ok = true; value = clamp01 F p; warnings = [] }

  abbrev pub credit_unknown : Assessment Number
  credit_unknown = record {
    is_ok = false;
    value = one_float F;
    warnings = "credit_unavailable" ∷ [];
  }

  unfoldable pub assess_credit :
      {S : Type 0} → Engine S → List (Column Number) → Outcome Failure (Assessment Number)
  assess_credit e row = degrade (e.credit_predictor row) credit_known credit_unknown

  abbrev pub assess_fraud_with :
      FraudScoringConfig Number
      → Outcome Failure (FraudSignals Number)
      → Outcome Failure (Assessment (Option (FraudScore Number)))
  assess_fraud_with config signals =
      degrade (signals >>= score_signals F config) fraud_known fraud_unknown

  abbrev pub assess_fraud :
      FraudScoringConfig Number
      → Option (List (Column Number) → Outcome Failure (FraudSignals Number))
      → List (Column Number)
      → Outcome Failure (Assessment (Option (FraudScore Number)))
  assess_fraud config none row = ok (record { is_ok = false; value = none; warnings = [] })
  assess_fraud config (some assessor) row = assess_fraud_with config (assessor row)

  abbrev pub certainty : Number → Number
  certainty p = clamp01 F (mul (literal (pos 2) 0) (abs (sub p (literal (pos 5) 1))))

  unfoldable pub confidence : DecisionConfig Number → Number → Option Number → Bool → Bool → Number
  confidence config pd_hat fraud_prob false fraud_ok = zero_float F
  confidence config pd_hat (some fraud_prob) true true =
      let w = config.confidence in
      let total = or_one F (add w.credit_weight w.fraud_weight) in
      round_to
        (div
          (add (mul w.credit_weight (certainty pd_hat)) (mul w.fraud_weight (certainty fraud_prob)))
          total)
        4
  confidence config pd_hat fraud_prob true fraud_ok = round_to (certainty pd_hat) 4

  abbrev pub event_of : UnifiedDecision Number → InferenceEvent Number
  event_of d = record {
    correlation_id = d.correlation_id;
    success = true;
    duration_ms = d.processing_duration_ms;
    recommendation = some d.recommendation;
    model_versions = d.model_versions;
    warning_codes = d.warnings;
  }

  abbrev pub recorded :
      {S : Type 0} → UnifiedDecision Number → S → Outcome Failure S → UnifiedDecision Number × S
  recorded d s (ok s') = (d, s')
  recorded d s (err e) = (
    record d {
      warnings = d.warnings ++ ("monitoring_unavailable" ∷ []);
      monitoring_status = "degraded";
    },
    s,
  )

  unfoldable pub record_monitoring :
      {S : Type 0}
      → Option (MonitoringSink Number S)
      → S
      → UnifiedDecision Number
      → UnifiedDecision Number × S
  record_monitoring none s d = (d, s)
  record_monitoring (some monitor) s d = recorded d s (monitor.record_event s (event_of d))

  -- The decision before it is recorded.
  unfoldable pub compose :
      {S : Type 0}
      → Engine S
      → Number
      → DecisionRequest Number
      → Assessment Number
      → ℤ
      → Assessment (Option (FraudScore Number))
      → UnifiedDecision Number
  compose e duration request credit credit_score fraud =
      let credit_band = band e.scoring credit_score in
      let advice =
        recommend e.decision credit_band (level_name fraud.value) credit.is_ok fraud.is_ok
          (data_complete request.row e.decision.required_features) in
      record {
        credit_score = credit_score;
        probability_of_default = round_to credit.value 4;
        credit_risk = credit_band;
        fraud_score = points_of fraud.value;
        fraud_probability = probability_of fraud.value;
        fraud_risk = level_name fraud.value;
        recommendation = advice.0;
        confidence =
            confidence e.decision credit.value (probability_of fraud.value) credit.is_ok
              fraud.is_ok;
        decision_reasons = advice.1;
        model_versions = request.model_versions;
        feature_version = request.feature_version;
        correlation_id = request.correlation_id;
        processing_duration_ms = duration;
        warnings = credit.warnings ++ fraud.warnings;
        monitoring_status =
            (if not fraud.is_ok && not (is_none e.fraud_assessor) then "degraded" else "ok");
      }

  unfoldable pub decide :
      {S : Type 0}
      → Engine S
      → S
      → Number
      → DecisionRequest Number
      → Outcome Failure (UnifiedDecision Number × S)
  decide e s duration request = do
    credit ← assess_credit e request.row
    credit_score ← score F e.scoring credit.value
    fraud ← assess_fraud e.fraud_scoring e.fraud_assessor request.row
    ok (record_monitoring e.monitor s (compose e duration request credit credit_score fraud))
