-- ===== src/Decision/Policy.antt =====
-- ai-engine/creditiq_ai/decision/policy.py: credit and fraud risk combined into a recommendation.
use Prim.Native.String.{◌++◌ as concat}
use credit_iq_ai.Prelude.{
  String, Bool, true, false, not, ◌&&◌, List, [], ◌∷◌, ◌++◌, Option, none, some, if◌then◌else◌,
}
use credit_iq_ai.Prelude.Text.{same}
use credit_iq_ai.Prelude.Dict.{get_or}
use credit_iq_ai.Access.{member}
use credit_iq_ai.Decision.{DecisionConfig}

-- With the recommendation on credit alone, and the reasons so far.
unfoldable pub with_fraud :
    {N : Type 0}
    → DecisionConfig N
    → String
    → Option String
    → Bool
    → List String
    → String × List String
unfolding member same
with_fraud config base (some level) true reasons =
    let said = concat "fraud_risk=" level in
    if member level config.fraud_reject_levels
    then ("reject", reasons ++ (concat said "->reject_override" ∷ []))
    else if member level config.fraud_block_levels && same base "approve"
    then (config.fraud_block_action, reasons ++ (concat said "->block_auto_approval" ∷ []))
    else (base, reasons ++ (said ∷ []))
with_fraud config base none true reasons = (base, reasons)
with_fraud config base fraud_level false reasons =
    let said = reasons ++ ("fraud_assessment_unavailable" ∷ []) in
    if same base "approve" then (config.on_fraud_failure, said) else (base, said)

unfoldable pub recommend :
    {N : Type 0}
    → DecisionConfig N
    → String
    → Option String
    → Bool
    → Bool
    → Bool
    → String × List String
recommend config credit_band fraud_level credit_ok fraud_ok data_complete =
    if not data_complete
    then (config.on_incomplete_data, "incomplete_required_data" ∷ [])
    else if not credit_ok
    then (config.on_credit_failure, "credit_assessment_unavailable" ∷ [])
    else (let base = get_or "review" credit_band config.credit_recommendation in
        with_fraud config base fraud_level fraud_ok
          (concat (concat "credit_risk=" credit_band) (concat "->" base) ∷ []))
