-- ===== src/Decision/Conservative.antt =====
-- When a decision recommends approval.
use credit_iq_ai.Prelude.{
  some-injective, ◌≡◌, ◌≢◌, refl, sym, ap, subst, ◌&&◌, String, Bool, true, false, Option, none,
  some, List, inl, inr, Bool-cases, arith,
}
use credit_iq_ai.Prelude.Text.{same, same_iff}
use credit_iq_ai.Prelude.Dict.{get_or}
use credit_iq_ai.Access.{member}
use credit_iq_ai.Float.{Float}
use credit_iq_ai.Errors.{Outcome, ok, err, ok-injective, ◌>>=◌}
use credit_iq_ai.Decision.{
  DecisionConfig, FraudScore, FraudSignals, FraudScoringConfig, Failure, artifact_integrity,
  value_error, other, Column,
}
use credit_iq_ai.Decision.FraudScoring.{score_signals}
use credit_iq_ai.Decision.Policy.{recommend, with_fraud}
use credit_iq_ai.Decision.Engine.{Assessment, assess_fraud, degrade}

-- The fallbacks of the policy are not approvals.
pub record IsCautious {N : Type 0} (config : DecisionConfig N) : Type 0 where
  pub incomplete : config.on_incomplete_data ≢ "approve"
  pub no_credit : config.on_credit_failure ≢ "approve"
  pub no_fraud : config.on_fraud_failure ≢ "approve"
  pub blocked : config.fraud_block_action ≢ "approve"

-- What an approval rests on: complete data, a credit band that is approved, and a fraud level that
-- neither rejects nor blocks.
pub record IsJustified {N : Type 0} (config : DecisionConfig N) (credit_band : String)
    (level : Option String) (credit_ok fraud_ok complete : Bool) : Type 0 where
  pub is_complete : complete ≡ true
  pub has_credit : credit_ok ≡ true
  pub band_approved : get_or "review" credit_band config.credit_recommendation ≡ "approve"
  pub has_fraud : fraud_ok ≡ true
  pub level_passes :
      (l : String)
      → level ≡ some l
      → (member l config.fraud_reject_levels ≡ false) × (member l config.fraud_block_levels ≡ false)

differ : (a b : String) → same a b ≡ false → a ≢ b
differ a b miss e = let hit = (same_iff a b).1 e in cc

with_fraud-approves :
    {N : Type 0} (config : DecisionConfig N) (base : String) (level : Option String)
    (fraud_ok : Bool) (reasons : List String)
    → IsCautious config
    → (with_fraud config base level fraud_ok reasons).0 ≡ "approve"
    → (base ≡ "approve")
      × (fraud_ok ≡ true)
      × ((l : String)
          → level ≡ some l
          → (member l config.fraud_reject_levels ≡ false)
            × (member l config.fraud_block_levels ≡ false))
unfolding with_fraud
with_fraud-approves config base none true reasons cautious h = (h, refl, λ l e. cc)
with_fraud-approves config base (some level) true reasons cautious h =
    elim (Bool-cases (member level config.fraud_reject_levels)) [
      | inl rejects ↦
          let h' : ◌≡◌ {A = String} "reject" "approve" = rw rejects at h in
          absurd (differ "reject" "approve" refl h')
      | inr passes ↦
          elim (Bool-cases (member level config.fraud_block_levels && same base "approve")) [
            | inl blocks ↦
                let h' : config.fraud_block_action ≡ "approve" = rw (passes, blocks) at h in
                absurd (cautious.blocked h')
            | inr free ↦
                let h' : base ≡ "approve" = rw (passes, free) at h in
                let is_base = (same_iff base "approve").1 h' in
                let unblocked : member level config.fraud_block_levels ≡ false = ground arith in
                (
                  h',
                  refl,
                  λ l e.
                      subst
                        (λ x.
                          (member x config.fraud_reject_levels ≡ false)
                          × (member x config.fraud_block_levels ≡ false))
                        (some-injective e) (passes, unblocked),
                )
          ]
    ]
with_fraud-approves config base level false reasons cautious h =
    elim (Bool-cases (same base "approve")) [
      | inl hit ↦
          let h' : config.on_fraud_failure ≡ "approve" = rw hit at h in
          absurd (cautious.no_fraud h')
      | inr miss ↦
          let h' : base ≡ "approve" = rw miss at h in absurd (differ base "approve" miss h')
    ]

pub recommend-IsJustified :
    {N : Type 0} (config : DecisionConfig N) (credit_band : String) (level : Option String)
    (credit_ok fraud_ok complete : Bool)
    → IsCautious config
    → (recommend config credit_band level credit_ok fraud_ok complete).0 ≡ "approve"
    → IsJustified config credit_band level credit_ok fraud_ok complete
unfolding recommend
recommend-IsJustified config credit_band level credit_ok fraud_ok false cautious h =
    absurd (cautious.incomplete h)
recommend-IsJustified config credit_band level false fraud_ok true cautious h =
    absurd (cautious.no_credit h)
recommend-IsJustified config credit_band level true fraud_ok true cautious h =
    let (base, fraud, passes) =
      with_fraud-approves config (get_or "review" credit_band config.credit_recommendation) level
        fraud_ok _ cautious h in
    record {
      is_complete = refl;
      has_credit = refl;
      band_approved = base;
      has_fraud = fraud;
      level_passes = passes;
    }

pub degrade-is_ok :
    {A B : Type 0} (o : Outcome Failure A) (done : A → Assessment B) (fallback : Assessment B)
    {a : Assessment B}
    → fallback.is_ok ≡ false
    → degrade o done fallback ≡ ok a
    → a.is_ok ≡ true
    → (x : A) × (o ≡ ok x) × (done x ≡ a)
degrade-is_ok (ok x) done fallback off h good = (x, refl, ok-injective h)
degrade-is_ok (err artifact_integrity) done fallback off h good = cc
degrade-is_ok (err value_error) done fallback off h good =
    let same_one = ap (λ z. z.is_ok) (ok-injective h) in cc
degrade-is_ok (err (other m)) done fallback off h good =
    let same_one = ap (λ z. z.is_ok) (ok-injective h) in cc

pub assess_fraud-is_ok :
    (F : Float) (config : FraudScoringConfig (F.Number))
    (assessor : Option (List (Column (F.Number)) → Outcome Failure (FraudSignals (F.Number))))
    (row : List (Column (F.Number))) {a : Assessment (Option (FraudScore (F.Number)))}
    → assess_fraud F config assessor row ≡ ok a
    → a.is_ok ≡ true
    → (x : FraudScore (F.Number)) × (a.value ≡ some x)
assess_fraud-is_ok F config none row h good =
    let same_one = ap (λ z. z.is_ok) (ok-injective h) in cc
assess_fraud-is_ok F config (some assessor) row h good =
    let (x, _, e) = degrade-is_ok (assessor row >>= score_signals F config) _ _ refl h good in
    (x, sym (ap (λ z. z.value) e))
