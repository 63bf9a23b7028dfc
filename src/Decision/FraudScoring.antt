-- ===== src/Decision/FraudScoring.antt =====
-- ai-engine/creditiq_ai/fraud_intelligence/scoring: the fraud score of normalized signals.
use credit_iq_ai.Prelude.{
  String, Bool, not, ◌||◌, List, [], ◌∷◌, Option, none, some, find, if◌then◌else◌,
}
use credit_iq_ai.Prelude.Text.{same}
use credit_iq_ai.Prelude.Int.{ℤ, pos, ◌-ℤ◌, leb_ℤ, ltb_ℤ}
use credit_iq_ai.Prelude.Sorting.{sort_by}
use credit_iq_ai.Prelude.Dict.{get_or, values}
use credit_iq_ai.Float.{Float, min_float, max_float, zero_float, one_float, or_one, ge_float}
use credit_iq_ai.Errors.{or_raise, Outcome, ok, err, raise_if, ◌>>=◌, ◌>>◌}
use credit_iq_ai.Decision.{
  FraudScoringConfig, FraudScoreBand, FraudSignals, FraudScore, FraudRiskLevel, very_low, low,
  moderate, high, critical, level_value, Failure, value_error,
}

-- `FraudRiskLevel(text)`
unfoldable pub parse_level : String → Outcome Failure FraudRiskLevel
unfolding same
parse_level text =
    if same text "very_low"
    then ok very_low
    else if same text "low"
    then ok low
    else if same text "moderate"
    then ok moderate
    else if same text "high"
    then ok high
    else if same text "critical"
    then ok critical
    else err value_error

abbrev pub higher : FraudScoreBand → FraudScoreBand → Bool
higher a b = leb_ℤ b.min_score a.min_score

unfoldable pub sorted_levels : List FraudScoreBand → List FraudScoreBand
sorted_levels bands = sort_by higher bands

-- The engine is not constructed without a band.
unfoldable pub last_level : List FraudScoreBand → String
last_level [] = ""
last_level (b ∷ []) = b.level
last_level (b ∷ c ∷ rest) = last_level (c ∷ rest)

abbrev pub level_or : List FraudScoreBand → Option FraudScoreBand → String
level_or bands (some b) = b.level
level_or bands none = last_level bands

abbrev pub reaches : ℤ → FraudScoreBand → Bool
reaches score b = leb_ℤ b.min_score score

unfoldable pub level_of : List FraudScoreBand → ℤ → Outcome Failure FraudRiskLevel
level_of bands score =
    parse_level (level_or (sorted_levels bands) (find (reaches score) (sorted_levels bands)))

module _ (F : Float) where
  open F use {Number, literal, lt, add, mul, div, round_int, round_to}

  -- `sum(values)`
  unfoldable pub sum_floats : Number → List Number → Number
  sum_floats total [] = total
  sum_floats total (x ∷ xs) = sum_floats (add total x) xs

  abbrev pub weight : FraudScoringConfig Number → String → Number
  weight config signal = get_or (zero_float F) signal config.weights

  abbrev pub components : FraudScoringConfig Number → FraudSignals Number → List Number
  components config signals =
      mul (weight config "anomaly") signals.anomaly_probability
      ∷ mul (weight config "rules") signals.rule_penalty
      ∷ mul (weight config "behaviour") signals.behaviour_risk
      ∷ []

  unfoldable pub fraud_probability : FraudScoringConfig Number → FraudSignals Number → Number
  fraud_probability config signals =
      let total_weight = or_one F (sum_floats (zero_float F) (values config.weights)) in
      min_float F (one_float F) (
        max_float F (zero_float F)
          (div (sum_floats (zero_float F) (components config signals)) total_weight))

  unfoldable pub fraud_points : FraudScoringConfig Number → Number → Option ℤ
  fraud_points config probability = round_int (
      add (literal config.score_min 0)
        (mul probability (literal (config.score_max -ℤ config.score_min) 0)))

  -- The field validators of `FraudScore`.
  unfoldable pub validate_score : FraudScore Number → Outcome Failure (FraudScore Number)
  validate_score s = do
    raise_if (ltb_ℤ s.fraud_score (pos 0) || ltb_ℤ (pos 1000) s.fraud_score) value_error
    raise_if
        (not (ge_float F s.fraud_probability (zero_float F))
          || not (ge_float F (one_float F) s.fraud_probability))
        value_error
    ok s

  unfoldable pub score_signals :
      FraudScoringConfig Number → FraudSignals Number → Outcome Failure (FraudScore Number)
  score_signals config signals =
      let probability = fraud_probability config signals in
      do
        fraud_score ← or_raise (fraud_points config probability) value_error
        level ← level_of config.bands fraud_score
        validate_score (record {
          fraud_score = fraud_score;
          fraud_probability = round_to probability 4;
          fraud_risk_level = level;
          recommended_action = get_or "review" (level_value level) config.actions;
        })
