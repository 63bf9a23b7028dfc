-- ===== src/Tests/Decisions.antt =====
-- Decisions on sample configurations: approvals, blocked approvals, failures and odd predictions.
use credit_iq_ai.Prelude.{
  ◌≡◌, ◌≢◌, refl, String, true, Option, none, some, List, ◌⊎◌, arith, [], ◌∷◌,
}
use credit_iq_ai.Prelude.Int.{ℤ, pos, ◌+ℤ◌, ◌-ℤ◌, ◌*ℤ◌, min_ℤ}
use credit_iq_ai.Prelude.Text.{same, same_iff}
use credit_iq_ai.Access.{member}
use credit_iq_ai.Prelude.{subst}
use credit_iq_ai.Errors.{Outcome, ok, err, ok-injective}
use credit_iq_ai.Decision.{
  DecisionConfig, ScoringConfig, FraudScoringConfig, FraudSignals, DecisionRequest, UnifiedDecision,
  InferenceEvent, Failure, other,
}
use credit_iq_ai.Decision.Score.{max_ℤ, sorted_bands, last_band, band, clamp01, raw_score, score}
use credit_iq_ai.Decision.Policy.{recommend, with_fraud}
use credit_iq_ai.Decision.FraudScoring.{
  parse_level, sorted_levels, last_level, level_of, sum_floats, fraud_probability, fraud_points,
  validate_score, score_signals,
}
use credit_iq_ai.Decision.Engine.{
  Engine, data_complete, assess_credit, confidence, record_monitoring, compose, decide,
}
use credit_iq_ai.Decision.Conservative.{IsCautious}
use credit_iq_ai.Decision.Safety.{IsSameAdvice, decide-ignores_monitor}
use credit_iq_ai.Decision.Earned.{decide_approve-IsEarned, decide-IsBounded}
use credit_iq_ai.Decision.Refusal.{IsUnsafe, decide_answers}
use credit_iq_ai.Decision.Clamp.{decide_not_positive}
use credit_iq_ai.Tests.Micro.{micro, plus_ℤ, minus_ℤ, times_micro, over_micro, literal_micro}

unfoldable pub decisions : Unit {0}
unfolding same member min_ℤ max_ℤ sorted_bands last_band band clamp01 raw_score score recommend
    with_fraud parse_level sorted_levels last_level level_of sum_floats fraud_probability
    fraud_points validate_score score_signals data_complete assess_credit confidence
    record_monitoring compose decide plus_ℤ minus_ℤ times_micro over_micro literal_micro ◌+ℤ◌ ◌-ℤ◌
    ◌*ℤ◌
decisions = tt

abbrev pub N : Type 0
N = Option ℤ

abbrev pub policy : DecisionConfig N
policy = record {
  credit_recommendation = ("low", "approve") ∷ ("high", "reject") ∷ [];
  fraud_reject_levels = "critical" ∷ [];
  fraud_block_levels = "high" ∷ [];
  fraud_block_action = "manual_review";
  on_fraud_failure = "manual_review";
  on_credit_failure = "manual_review";
  on_incomplete_data = "manual_review";
  required_features = "income" ∷ [];
  confidence = record { credit_weight = some (pos 600000); fraud_weight = some (pos 400000) };
}

abbrev pub scorecard : ScoringConfig N
scorecard = record {
  min_score = pos 300;
  max_score = pos 850;
  base_score = some (pos 600000000);
  base_odds = some (pos 1000000);
  pdo = some (pos 20000000);
  bands =
      record { band = "high"; min_score = pos 300 }
      ∷ record { band = "low"; min_score = pos 620 }
      ∷ [];
}

abbrev pub fraud_card : FraudScoringConfig N
fraud_card = record {
  score_min = pos 0;
  score_max = pos 1000;
  weights = ("rules", some (pos 1000000)) ∷ [];
  bands =
      record { level = "low"; min_score = pos 0 }
      ∷ record { level = "high"; min_score = pos 600 }
      ∷ [];
  actions = [];
}

abbrev pub signals_of : Outcome Failure ℤ → Outcome Failure (FraudSignals N)
signals_of (ok z) = ok (record {
  anomaly_probability = some (pos 0);
  rule_penalty = some z;
  behaviour_risk = some (pos 0);
})
signals_of (err e) = err e

abbrev pub engine : Outcome Failure N → Outcome Failure ℤ → Engine micro (List (InferenceEvent N))
engine prediction penalty = record {
  decision = policy;
  scoring = scorecard;
  fraud_scoring = fraud_card;
  credit_predictor = λ row. prediction;
  fraud_assessor = some (λ row. signals_of penalty);
  monitor = some (record { record_event = λ events e. ok (e ∷ events) });
}

abbrev pub request : DecisionRequest N
request = record {
  row = record { name = "income"; cells = some (some (pos 0)) ∷ [] } ∷ [];
  correlation_id = "r-1";
  model_versions = [];
  feature_version = none;
}

abbrev outcome :
    Outcome Failure N
    → Outcome Failure ℤ
    → Outcome Failure (UnifiedDecision N × List (InferenceEvent N))
outcome prediction penalty = decide micro (engine prediction penalty) [] (some (pos 0)) request

abbrev pub sample : UnifiedDecision N × List (InferenceEvent N)
sample = (
  record {
    credit_score = pos 630;
    probability_of_default = some (pos 200000);
    credit_risk = "low";
    fraud_score = some (pos 100);
    fraud_probability = some (some (pos 100000));
    fraud_risk = some "low";
    recommendation = "approve";
    confidence = some (pos 680000);
    decision_reasons = "credit_risk=low->approve" ∷ "fraud_risk=low" ∷ [];
    model_versions = [];
    feature_version = none;
    correlation_id = "r-1";
    processing_duration_ms = some (pos 0);
    warnings = [];
    monitoring_status = "ok";
  },
  [],
)

abbrev good : Outcome Failure (UnifiedDecision N × List (InferenceEvent N))
good = outcome (ok (some (pos 200000))) (ok (pos 100000))

abbrev pub value_or : {A : Type 0} → A → Outcome Failure A → A
value_or default (ok a) = a
value_or default (err e) = default

abbrev decided : UnifiedDecision N × List (InferenceEvent N)
decided = value_or sample good

abbrev advice : Outcome Failure (UnifiedDecision N × List (InferenceEvent N)) → String
advice (ok r) = r.0.recommendation
advice (err e) = "refused"

approved : advice (outcome (ok (some (pos 200000))) (ok (pos 100000))) ≡ "approve"
unfolding decisions
approved = refl

blocked : advice (outcome (ok (some (pos 200000))) (ok (pos 700000))) ≡ "manual_review"
unfolding decisions
blocked = refl

rejected : advice (outcome (ok (some (pos 900000))) (ok (pos 100000))) ≡ "reject"
unfolding decisions
rejected = refl

degraded : advice (outcome (err (other "timeout")) (ok (pos 100000))) ≡ "manual_review"
unfolding decisions
degraded = refl

-- The prediction that compares with no number is approved.
odd_prediction : advice (outcome (ok none) (ok (pos 100000))) ≡ "approve"
unfolding decisions
odd_prediction = refl

not_approve : ◌≢◌ {A = String} "manual_review" "approve"
unfolding same
not_approve e = let hit = (same_iff "manual_review" "approve").1 e in cc

policy-IsCautious : IsCautious policy
policy-IsCautious = record {
  incomplete = not_approve;
  no_credit = not_approve;
  no_fraud = not_approve;
  blocked = not_approve;
}

decide_approve-IsEarned_example : data_complete request.row policy.required_features ≡ true
unfolding decisions
decide_approve-IsEarned_example =
    (decide_approve-IsEarned micro (engine (ok (some (pos 200000))) (ok (pos 100000))) []
      (some (pos 0)) request {r = decided} policy-IsCautious refl refl).is_complete

decide-IsBounded_example : decided.0.credit_risk ≡ band scorecard decided.0.credit_score
unfolding decisions
decide-IsBounded_example =
    (decide-IsBounded micro (engine (ok (some (pos 200000))) (ok (pos 100000))) [] (some (pos 0))
      request {r = decided} (omega arith) refl).2

decide-ignores_monitor_example :
    (d : UnifiedDecision N) × (decide micro
        (record (engine (ok (some (pos 200000))) (ok (pos 100000))) { monitor = none })
        []
        (some (pos 0))
        request
      ≡ ok (d, []))
    × IsSameAdvice decided.0 d
unfolding decisions
decide-ignores_monitor_example =
    decide-ignores_monitor micro (engine (ok (some (pos 200000))) (ok (pos 100000))) []
      (some (pos 0)) request {r = decided} refl

abbrev or_zero : Option ℤ → ℤ
or_zero none = pos 0
or_zero (some z) = z

abbrev points_of_fallback : ℤ
points_of_fallback = or_zero (micro.round_int (raw_score micro scorecard (some (pos 1000000))))

decide_answers_example :
    IsUnsafe micro (engine (err (other "timeout")) (err (other "timeout"))) request.row
    ⊎ ((r : UnifiedDecision N × List (InferenceEvent N)) × (outcome
            (err (other "timeout"))
            (err (other "timeout"))
          ≡ ok r))
unfolding decisions
decide_answers_example =
    decide_answers micro (engine (err (other "timeout")) (err (other "timeout"))) [] (some (pos 0))
      request refl
      (λ a e.
        subst
          (λ x. (points : ℤ) × (micro.round_int (raw_score micro scorecard x.value) ≡ some points))
          (ok-injective e) (points_of_fallback, refl))

decide_not_positive_example :
    outcome (ok none) (ok (pos 100000))
    ≡ decide micro
        (record (engine (ok none) (ok (pos 100000))) {
          credit_predictor = λ row. ok (some (pos 0));
        })
        []
        (some (pos 0))
        request
unfolding decisions
decide_not_positive_example =
    decide_not_positive micro (engine (ok none) (ok (pos 100000))) [] (some (pos 0)) request none
      refl refl
