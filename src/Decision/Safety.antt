-- ===== src/Decision/Safety.antt =====
-- What a decision is composed of, and that monitoring does not change it.
use credit_iq_ai.Prelude.{◌≡◌, refl, sym, ap, subst, Option, none, some}
use credit_iq_ai.Prelude.Int.{ℤ}
use credit_iq_ai.Float.{Float}
use credit_iq_ai.Errors.{Outcome, ok, err, >>=-ok_inv, ok-injective}
use credit_iq_ai.Decision.{DecisionRequest, UnifiedDecision, FraudScore, Failure, MonitoringSink}
use credit_iq_ai.Decision.Score.{score}
use credit_iq_ai.Decision.Engine.{
  Engine, Assessment, decide, compose, assess_credit, assess_fraud, record_monitoring, recorded,
}

-- Equal in every field but the warnings and the monitoring status.
pub record IsSameAdvice {N : Type 0} (a b : UnifiedDecision N) : Type 0 where
  pub credit_score : a.credit_score ≡ b.credit_score
  pub probability_of_default : a.probability_of_default ≡ b.probability_of_default
  pub credit_risk : a.credit_risk ≡ b.credit_risk
  pub fraud_score : a.fraud_score ≡ b.fraud_score
  pub fraud_probability : a.fraud_probability ≡ b.fraud_probability
  pub fraud_risk : a.fraud_risk ≡ b.fraud_risk
  pub recommendation : a.recommendation ≡ b.recommendation
  pub confidence : a.confidence ≡ b.confidence
  pub decision_reasons : a.decision_reasons ≡ b.decision_reasons
  pub model_versions : a.model_versions ≡ b.model_versions
  pub feature_version : a.feature_version ≡ b.feature_version
  pub correlation_id : a.correlation_id ≡ b.correlation_id
  pub processing_duration_ms : a.processing_duration_ms ≡ b.processing_duration_ms

same_advice : {N : Type 0} (d : UnifiedDecision N) → IsSameAdvice d d
same_advice d = record {
  credit_score = refl;
  probability_of_default = refl;
  credit_risk = refl;
  fraud_score = refl;
  fraud_probability = refl;
  fraud_risk = refl;
  recommendation = refl;
  confidence = refl;
  decision_reasons = refl;
  model_versions = refl;
  feature_version = refl;
  correlation_id = refl;
  processing_duration_ms = refl;
}

module _ (F : Float) {S : Type 0} where
  open F use {Number, lt}

  -- What the three assessments of a decision returned.
  pub record IsComposed (e : Engine F S) (duration : Number) (request : DecisionRequest Number)
      (d : UnifiedDecision Number) : Type 0 where
    pub credit : Assessment Number
    pub credit_score : ℤ
    pub fraud : Assessment (Option (FraudScore Number))
    pub credit_eq : assess_credit F e request.row ≡ ok credit
    pub score_eq : score F e.scoring credit.value ≡ ok credit_score
    pub fraud_eq : assess_fraud F e.fraud_scoring e.fraud_assessor request.row ≡ ok fraud
    pub decision : d ≡ compose F e duration request credit credit_score fraud

  pub decide_inv :
      (e : Engine F S) (s : S) (duration : Number) (request : DecisionRequest Number)
      {r : UnifiedDecision Number × S}
      → decide F e s duration request ≡ ok r
      → (d : UnifiedDecision Number) × IsComposed e duration request d
        × (record_monitoring F e.monitor s d ≡ r)
  unfolding decide
  decide_inv e s duration request h =
      let (credit, hc, h1) = >>=-ok_inv (assess_credit F e request.row) _ h in
      let (points, hs, h2) = >>=-ok_inv (score F e.scoring credit.value) _ h1 in
      let (fraud, hf, h3) =
        >>=-ok_inv (assess_fraud F e.fraud_scoring e.fraud_assessor request.row) _ h2 in
      (
        compose F e duration request credit points fraud,
        record {
          credit = credit;
          credit_score = points;
          fraud = fraud;
          credit_eq = hc;
          score_eq = hs;
          fraud_eq = hf;
          decision = refl;
        },
        ok-injective h3,
      )

  recorded-IsSameAdvice :
      (d : UnifiedDecision Number) (s : S) (o : Outcome Failure S)
      → IsSameAdvice (recorded F d s o).0 d
  recorded-IsSameAdvice d s (ok s') = same_advice d
  recorded-IsSameAdvice d s (err e) = record {
    credit_score = refl;
    probability_of_default = refl;
    credit_risk = refl;
    fraud_score = refl;
    fraud_probability = refl;
    fraud_risk = refl;
    recommendation = refl;
    confidence = refl;
    decision_reasons = refl;
    model_versions = refl;
    feature_version = refl;
    correlation_id = refl;
    processing_duration_ms = refl;
  }

  pub record_monitoring-IsSameAdvice :
      (m : Option (MonitoringSink Number S)) (s : S) (d : UnifiedDecision Number)
      → IsSameAdvice (record_monitoring F m s d).0 d
  unfolding record_monitoring
  record_monitoring-IsSameAdvice none s d = same_advice d
  record_monitoring-IsSameAdvice (some m) s d = recorded-IsSameAdvice d s _

  -- Without a monitor the decision is the same up to its warnings and its monitoring status.
  pub decide-ignores_monitor :
      (e : Engine F S) (s : S) (duration : Number) (request : DecisionRequest Number)
      {r : UnifiedDecision Number × S}
      → decide F e s duration request ≡ ok r
      → (d : UnifiedDecision Number) × (decide F (record e { monitor = none }) s duration request
          ≡ ok (d, s))
        × IsSameAdvice r.0 d
  unfolding decide assess_credit compose record_monitoring
  decide-ignores_monitor e s duration request {r} h =
      let (d, c, hr) = decide_inv e s duration request h in
      (
        d,
        rw (c.credit_eq, c.score_eq, c.fraud_eq) (ap (λ x. ok (x, s)) (sym c.decision)),
        subst (λ x. IsSameAdvice x.0 d) hr (record_monitoring-IsSameAdvice e.monitor s d),
      )
