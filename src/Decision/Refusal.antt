-- ===== src/Decision/Refusal.antt =====
-- When a decision is refused.
use credit_iq_ai.Prelude.{
  ◌≡◌, ◌≢◌, refl, ap, String, Bool, true, false, not, ◌||◌, find, Option, none, some, List, ◌⊎◌,
  inl, inr, arith,
}
use credit_iq_ai.Prelude.Int.{ℤ, min_ℤ, pos, ltb_ℤ}
use credit_iq_ai.Float.{ge_float, Float, zero_float, one_float}
use credit_iq_ai.Errors.{Outcome, ok, err, raise_if, or_raise, ◌>>=◌, ◌>>◌}
use credit_iq_ai.Decision.{
  DecisionRequest, UnifiedDecision, FraudScore, FraudSignals, FraudScoringConfig, Failure,
  artifact_integrity, value_error, other, Column,
}
use credit_iq_ai.Decision.Score.{score, raw_score, max_ℤ}
use credit_iq_ai.Decision.FraudScoring.{
  score_signals, parse_level, level_of, level_or, sorted_levels, reaches, validate_score,
  fraud_points, fraud_probability,
}
use credit_iq_ai.Decision.Engine.{
  Engine, Assessment, decide, compose, assess_credit, assess_fraud, record_monitoring, degrade,
  credit_known, credit_unknown, fraud_known, fraud_unknown,
}

degrade-cases :
    {A B : Type 0} (o : Outcome Failure A) (done : A → B) (fallback : B)
    → (o ≡ err artifact_integrity) ⊎ ((b : B) × (degrade o done fallback ≡ ok b))
degrade-cases (ok x) done fallback = inr (done x, refl)
degrade-cases (err artifact_integrity) done fallback = inl refl
degrade-cases (err value_error) done fallback = inr (fallback, refl)
degrade-cases (err (other m)) done fallback = inr (fallback, refl)

abbrev IsSafe {ℓ} : {A : Type ℓ} → Outcome Failure A → Type ℓ
IsSafe o = o ≢ err artifact_integrity

>>=-IsSafe {ℓ κ} :
    {A : Type ℓ} {B : Type κ} (o : Outcome Failure A) (next : A → Outcome Failure B)
    → IsSafe o
    → ((a : A) → IsSafe (next a))
    → IsSafe (o >>= next)
>>=-IsSafe (ok a) next h k = k a
>>=-IsSafe (err artifact_integrity) next h k = λ e. h refl
>>=-IsSafe (err value_error) next h k = λ e. cc
>>=-IsSafe (err (other m)) next h k = λ e. cc

ok-IsSafe {ℓ} : {A : Type ℓ} (a : A) → IsSafe (ok a)
ok-IsSafe a = λ e. cc

raise_if-IsSafe : (b : Bool) → IsSafe (raise_if b value_error)
raise_if-IsSafe true = λ e. cc
raise_if-IsSafe false = λ e. cc

or_raise-IsSafe {ℓ} : {A : Type ℓ} (o : Option A) → IsSafe (or_raise o value_error)
or_raise-IsSafe none = λ e. cc
or_raise-IsSafe (some a) = λ e. cc

parse_level-IsSafe : (text : String) → IsSafe (parse_level text)
unfolding parse_level
parse_level-IsSafe text = λ h. ground arith

raise_then-IsSafe {ℓ} :
    {A : Type ℓ} (b : Bool) (rest : Outcome Failure A)
    → IsSafe rest
    → IsSafe (raise_if b value_error >> rest)
raise_then-IsSafe true rest h = λ e. cc
raise_then-IsSafe false rest h = h

validate_score-IsSafe : (F : Float) (s : FraudScore (F.Number)) → IsSafe (validate_score F s)
unfolding validate_score
validate_score-IsSafe F s =
    raise_then-IsSafe (ltb_ℤ s.fraud_score (pos 0) || ltb_ℤ (pos 1000) s.fraud_score) _ (
      raise_then-IsSafe
        (not (ge_float F s.fraud_probability (zero_float F))
          || not (ge_float F (one_float F) s.fraud_probability))
        (ok s) (ok-IsSafe s))

score_signals-IsSafe :
    (F : Float) (config : FraudScoringConfig (F.Number)) (signals : FraudSignals (F.Number))
    → IsSafe (score_signals F config signals)
unfolding score_signals level_of
score_signals-IsSafe F config signals =
    >>=-IsSafe (or_raise (fraud_points F config (fraud_probability F config signals)) value_error) _
      (or_raise-IsSafe _)
      (λ points.
        >>=-IsSafe
          (parse_level (
            level_or (sorted_levels config.bands)
              (find (reaches points) (sorted_levels config.bands))))
          _ (parse_level-IsSafe _) (λ level. validate_score-IsSafe F _))

err-injective {ℓ} :
    {E : Type 0} {A : Type ℓ} {a b : E} → ◌≡◌ {A = Outcome E A} (err a) (err b) → a ≡ b
err-injective h = cc

bind-cause {ℓ κ} :
    {A : Type ℓ} {B : Type κ} (o : Outcome Failure A) (next : A → Outcome Failure B)
    → ((a : A) → IsSafe (next a))
    → (o >>= next) ≡ err artifact_integrity
    → o ≡ err artifact_integrity
bind-cause (ok a) next safe h = absurd (safe a h)
bind-cause (err e) next safe h = ap err (err-injective h)

-- Degrading keeps an integrity failure and nothing else.
degrade-blocked :
    {A B : Type 0} (o : Outcome Failure A) (done : A → B) (fallback : B)
    → o ≡ err artifact_integrity
    → degrade o done fallback ≡ err artifact_integrity
degrade-blocked (ok a) done fallback h = cc
degrade-blocked (err artifact_integrity) done fallback h = refl
degrade-blocked (err value_error) done fallback h = cc
degrade-blocked (err (other m)) done fallback h = cc

bind-blocked {ℓ κ} :
    {A : Type ℓ} {B : Type κ} (o : Outcome Failure A) (next : A → Outcome Failure B)
    → o ≡ err artifact_integrity
    → (o >>= next) ≡ err artifact_integrity
bind-blocked (ok a) next h = cc
bind-blocked (err e) next h = ap err (err-injective h)

-- The fraud assessment raises exactly on an integrity failure of the assessor.
assess_fraud-cases :
    (F : Float) (config : FraudScoringConfig (F.Number))
    (assessor : Option (List (Column (F.Number)) → Outcome Failure (FraudSignals (F.Number))))
    (row : List (Column (F.Number)))
    → ((f : List (Column (F.Number)) → Outcome Failure (FraudSignals (F.Number))) × (assessor
          ≡ some f)
        × (f row ≡ err artifact_integrity))
      ⊎ ((a : Assessment (Option (FraudScore (F.Number)))) × (assess_fraud F config assessor row
            ≡ ok a))
assess_fraud-cases F config none row = inr (_, refl)
assess_fraud-cases F config (some f) row =
    elim (degrade-cases (f row >>= score_signals F config) (λ x. fraud_known x) fraud_unknown) [
      | inr fine ↦ inr fine
      | inl bad ↦
          inl (
            f,
            refl,
            bind-cause (f row) (score_signals F config) (score_signals-IsSafe F config) bad,
          )
    ]

module _ (F : Float) {S : Type 0} where
  open F use {Number, lt}

  -- A model whose integrity cannot be verified, of credit or of fraud.
  abbrev pub IsUnsafe : Engine F S → List (Column Number) → Type 0
  IsUnsafe e row =
      (e.credit_predictor row ≡ err artifact_integrity)
      ⊎ ((assessor : List (Column Number) → Outcome Failure (FraudSignals Number))
          × (e.fraud_assessor ≡ some assessor)
          × (assessor row ≡ err artifact_integrity))

  credit-cases :
      (e : Engine F S) (row : List (Column Number))
      → ((e.credit_predictor row ≡ err artifact_integrity)
          × (assess_credit F e row ≡ err artifact_integrity))
        ⊎ ((a : Assessment Number) × (assess_credit F e row ≡ ok a))
  unfolding assess_credit
  credit-cases e row =
      elim (degrade-cases (e.credit_predictor row) (credit_known F) (credit_unknown F)) [
        | inl bad ↦ inl (bad, degrade-blocked _ _ _ bad)
        | inr fine ↦ inr fine
      ]

  -- With positive base odds, and if the score of the probability that the decision goes by is a finite
  -- number before it is rounded, a decision is reached unless the credit model or the fraud model
  -- fails its integrity check: no other failure of a model, of the fraud scoring or of the monitor
  -- prevents it.
  pub decide_answers :
      (e : Engine F S) (s : S) (duration : Number) (request : DecisionRequest Number)
      → lt (zero_float F) e.scoring.base_odds ≡ true
      → ((a : Assessment Number)
          → assess_credit F e request.row ≡ ok a
          → (points : ℤ) × (F.round_int (raw_score F e.scoring a.value) ≡ some points))
      → IsUnsafe e request.row
        ⊎ ((r : UnifiedDecision Number × S) × (decide F e s duration request ≡ ok r))
  unfolding decide score
  decide_answers e s duration request odds finite = elim (credit-cases e request.row) [
    | inl blocked ↦ inl (inl blocked.0)
    | inr fine ↦ elim (assess_fraud-cases F e.fraud_scoring e.fraud_assessor request.row) [
      | inl bad ↦ inl (inr bad)
      | inr good ↦
          let (points, rounds) = finite fine.0 fine.1 in
          inr (
            record_monitoring F e.monitor s (
                compose F e duration request fine.0
                  (min_ℤ (max_ℤ points e.scoring.min_score) e.scoring.max_score) good.0),
            rw (fine.1, odds, rounds, good.1) refl,
          )
    ]
  ]
