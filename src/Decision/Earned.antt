-- ===== src/Decision/Earned.antt =====
-- What an approval rests on, the range of the score, and when a decision is refused.
use credit_iq_ai.Prelude.{◌≡◌, refl, sym, ap, subst, ◌∙◌, String, true, false, some}
use credit_iq_ai.Prelude.Int.{◌≤ℤ◌}
use credit_iq_ai.Prelude.Dict.{get_or}
use credit_iq_ai.Access.{member}
use credit_iq_ai.Float.{Float}
use credit_iq_ai.Errors.{ok}
use credit_iq_ai.Decision.{DecisionRequest, UnifiedDecision, level_value}
use credit_iq_ai.Decision.Score.{band}
use credit_iq_ai.Decision.Bounds.{score-IsBounded}
use credit_iq_ai.Decision.Conservative.{
  IsCautious, recommend-IsJustified, assess_fraud-is_ok, degrade-is_ok,
}
use credit_iq_ai.Decision.Engine.{Engine, decide, compose, assess_credit, level_name, data_complete}
use credit_iq_ai.Decision.Safety.{
  IsComposed, IsSameAdvice, decide_inv, record_monitoring-IsSameAdvice,
}

module _ (F : Float) {S : Type 0} where
  open F use {Number, lt}

  -- A decision that recommends approval rests on complete data, on a prediction that was made, on
  -- a credit band that the policy approves, and on a fraud level that neither rejects nor blocks.
  pub record IsEarned (e : Engine F S) (request : DecisionRequest Number)
      (d : UnifiedDecision Number) : Type 0 where
    pub is_complete : data_complete request.row e.decision.required_features ≡ true
    pub predicted : (p : Number) × (e.credit_predictor request.row ≡ ok p)
    pub band_approved : get_or "review" d.credit_risk e.decision.credit_recommendation ≡ "approve"
    pub level_passes :
        (l : String) × (d.fraud_risk ≡ some l)
        × (member l e.decision.fraud_reject_levels ≡ false)
        × (member l e.decision.fraud_block_levels ≡ false)

  compose-IsEarned :
      (e : Engine F S) (duration : Number) (request : DecisionRequest Number)
      {d : UnifiedDecision Number}
      → IsCautious e.decision
      → IsComposed F e duration request d
      → d.recommendation ≡ "approve"
      → IsEarned e request d
  unfolding compose assess_credit
  compose-IsEarned e duration request {d} cautious c approved =
      let advice : (compose F e duration request c.credit c.credit_score c.fraud).recommendation
          ≡ "approve" =
        sym (ap (λ x. x.recommendation) c.decision) ∙ approved in
      let j =
        recommend-IsJustified e.decision (band e.scoring c.credit_score) (level_name c.fraud.value)
          c.credit.is_ok c.fraud.is_ok (data_complete request.row e.decision.required_features)
          cautious advice in
      let (p, hp, _) =
        degrade-is_ok (e.credit_predictor request.row) _ _ refl c.credit_eq j.has_credit in
      let (x, hx) =
        assess_fraud-is_ok F e.fraud_scoring e.fraud_assessor request.row c.fraud_eq j.has_fraud in
      let named : level_name c.fraud.value ≡ some (level_value x.fraud_risk_level) =
        ap level_name hx in
      let l = level_value x.fraud_risk_level in
      let passes = j.level_passes l named in
      subst (IsEarned e request) (sym c.decision) (record {
        is_complete = j.is_complete;
        predicted = (p, hp);
        band_approved = j.band_approved;
        level_passes = (l, named, passes.0, passes.1);
      })

  -- If no fallback of the policy is itself an approval, a decision that recommends approval rests
  -- on complete data, on a prediction that was made, on a credit band that the policy approves,
  -- and on a fraud level that neither rejects nor blocks.
  pub decide_approve-IsEarned :
      (e : Engine F S) (s : S) (duration : Number) (request : DecisionRequest Number)
      {r : UnifiedDecision Number × S}
      → IsCautious e.decision
      → decide F e s duration request ≡ ok r
      → r.0.recommendation ≡ "approve"
      → IsEarned e request r.0
  decide_approve-IsEarned e s duration request {r} cautious h approved =
      let (d, c, hr) = decide_inv F e s duration request h in
      let same_one : IsSameAdvice r.0 d =
        subst (λ x. IsSameAdvice x.0 d) hr (record_monitoring-IsSameAdvice F e.monitor s d) in
      let earned =
        compose-IsEarned e duration request cautious c (sym same_one.recommendation ∙ approved) in
      record {
        is_complete = earned.is_complete;
        predicted = earned.predicted;
        band_approved =
            subst (λ b. get_or "review" b e.decision.credit_recommendation ≡ "approve")
              (sym same_one.credit_risk) earned.band_approved;
        level_passes =
            subst
              (λ f.
                (l : String) × (f ≡ some l)
                × (member l e.decision.fraud_reject_levels ≡ false)
                × (member l e.decision.fraud_block_levels ≡ false))
              (sym same_one.fraud_risk) earned.level_passes;
      }

  -- The score of a decision is within the configured range, if that range is not empty, and its
  -- risk is the band of that score.
  pub decide-IsBounded :
      (e : Engine F S) (s : S) (duration : Number) (request : DecisionRequest Number)
      {r : UnifiedDecision Number × S}
      → e.scoring.min_score ≤ℤ e.scoring.max_score
      → decide F e s duration request ≡ ok r
      → (e.scoring.min_score ≤ℤ r.0.credit_score)
        × (r.0.credit_score ≤ℤ e.scoring.max_score)
        × (r.0.credit_risk ≡ band e.scoring r.0.credit_score)
  unfolding compose
  decide-IsBounded e s duration request {r} range h =
      let (d, c, hr) = decide_inv F e s duration request h in
      let same_one : IsSameAdvice r.0 d =
        subst (λ x. IsSameAdvice x.0 d) hr (record_monitoring-IsSameAdvice F e.monitor s d) in
      let bounded = score-IsBounded F e.scoring c.credit.value range c.score_eq in
      let points : c.credit_score ≡ r.0.credit_score =
        sym (same_one.credit_score ∙ ap (λ x. x.credit_score) c.decision) in
      let risk : r.0.credit_risk ≡ band e.scoring c.credit_score =
        same_one.credit_risk ∙ ap (λ x. x.credit_risk) c.decision in
      subst
        (λ z.
          (e.scoring.min_score ≤ℤ z)
          × (z ≤ℤ e.scoring.max_score)
          × (r.0.credit_risk ≡ band e.scoring z))
        points (bounded.0, bounded.1, risk)
