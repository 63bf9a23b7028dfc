-- ===== src/Decision/Clamp.antt =====
-- What `_clamp01` of ai-engine/creditiq_ai/decision/engine.py makes of a prediction that is not a
-- probability.
use credit_iq_ai.Prelude.{◌≡◌, refl, false, Bool-cases, inl, inr}
use credit_iq_ai.Float.{Float, zero_float, max_float}
use credit_iq_ai.Errors.{ok}
use credit_iq_ai.Decision.{DecisionRequest}
use credit_iq_ai.Decision.Score.{clamp01}
use credit_iq_ai.Decision.Engine.{Engine, decide, assess_credit, compose}

max_float-same : (F : Float) (a : F.Number) → max_float F a a ≡ a
max_float-same F a = elim (Bool-cases (F.lt a a)) [ inl y ↦ rw y refl | inr n ↦ rw n refl ]

module _ (F : Float) {S : Type 0} where
  open F use {Number, lt}

  -- A prediction that does not compare above zero, as NaN does not, is decided on as a probability
  -- of default of zero.
  pub decide_not_positive :
      (e : Engine F S) (s : S) (duration : Number) (request : DecisionRequest Number) (p : Number)
      → e.credit_predictor request.row ≡ ok p
      → lt (zero_float F) p ≡ false
      → decide F e s duration request
        ≡ decide F (record e { credit_predictor = λ row. ok (zero_float F) }) s duration request
  unfolding decide assess_credit clamp01 compose
  decide_not_positive e s duration request p answered low =
      rw (answered, low, max_float-same F (zero_float F)) refl
