-- ===== src/Registry/Promotion.antt =====
-- ai-engine/creditiq_ai/model_operations/promotion and rollback/service.py: the policy that a
-- champion has to pass, and the services over the registry.
use credit_iq_ai.Prelude.{
  String, Bool, true, false, not, Option, some, none, List, [], ◌∷◌, ◌++◌, ◌==◌, length,
  if◌then◌else◌,
}
use Prim.Native.String.{◌++◌ as concat}
use credit_iq_ai.Errors.{Outcome, ok, err, raise_if, ◌>>=◌, ◌>>◌}
use credit_iq_ai.Prelude.Text.{same}
use credit_iq_ai.Registry.Domain.{
  RegistryError, model_not_found, promotion_rejected, rollback_error, champion, eq_stage,
  ModelFamily, ModelIdentity, ModelVersion, Metric, less,
}
use credit_iq_ai.Registry.File.{Disk, get}
use credit_iq_ai.Registry.Moves.{current_production, rollback, promote_to_production}

-- The two dictionaries of `MonitoringConfig` that promotion reads.
pub record MonitoringConfig : Type 0 where
  pub promotion_required_metrics : List (String × Metric)
  pub promotion_max_metric_drop : List (String × Metric)

-- `metrics.get(metric)`
abbrev pub lookup : List (String × Metric) → String → Option Metric
lookup [] metric = none
lookup ((k, v) ∷ rest) metric = if same k metric then some v else lookup rest metric

pub record PromotionDecision : Type 0 where
  pub approved : Bool
  pub reasons : List String
  pub candidate_version : String
  pub incumbent_version : Option String

-- `actual is None or actual < minimum`
abbrev pub is_below : Option Metric → Metric → Bool
is_below none minimum = true
is_below (some actual) minimum = less actual minimum

abbrev pub below_reasons : List (String × Metric) → List (String × Metric) → List String
below_reasons [] metrics = []
below_reasons ((metric, minimum) ∷ rest) metrics =
    if is_below (lookup metrics metric) minimum
    then concat metric "_below_minimum" ∷ below_reasons rest metrics
    else below_reasons rest metrics

abbrev version_of : Option ModelVersion → Option String
version_of none = none
version_of (some m) = some m.version

-- `try: return registry.production(identity) except ModelNotFoundError: return None`
abbrev pub production_or_none :
    Outcome RegistryError ModelVersion → Outcome RegistryError (Option ModelVersion)
production_or_none (ok m) = ok (some m)
production_or_none (err (model_not_found message)) = ok none
production_or_none (err e) = err e

-- `sub` is the difference of two floats, rounded.
module _ (sub : Metric → Metric → Metric) where
  -- Both values are known and the drop is more than is allowed.
  abbrev pub is_regression : Option Metric → Option Metric → Metric → Bool
  is_regression (some candidate) (some incumbent) allowed_drop =
      less allowed_drop (sub incumbent candidate)
  is_regression _ _ allowed_drop = false

  abbrev pub drop_reasons :
      List (String × Metric) → List (String × Metric) → List (String × Metric) → List String
  drop_reasons [] metrics incumbent = []
  drop_reasons ((metric, allowed_drop) ∷ rest) metrics incumbent =
      if is_regression (lookup metrics metric) (lookup incumbent metric) allowed_drop
      then concat metric "_regression" ∷ drop_reasons rest metrics incumbent
      else drop_reasons rest metrics incumbent

  abbrev pub incumbent_reasons : MonitoringConfig → ModelVersion → Option ModelVersion → List String
  incumbent_reasons config candidate none = []
  incumbent_reasons config candidate (some incumbent) =
      drop_reasons config.promotion_max_metric_drop candidate.metrics incumbent.metrics

  -- `PromotionPolicy.evaluate`
  unfoldable pub evaluate :
      MonitoringConfig → ModelVersion → Option ModelVersion → PromotionDecision
  evaluate config candidate incumbent =
      let reasons =
        below_reasons config.promotion_required_metrics candidate.metrics
        ++ incumbent_reasons config candidate incumbent in
      record {
        approved = length reasons == 0;
        reasons = reasons;
        candidate_version = candidate.version;
        incumbent_version = version_of incumbent;
      }

  -- `PromotionService.promote`, where no other caller comes in between its calls of the registry.
  unfoldable pub promote :
      MonitoringConfig
      → Disk
      → String
      → String
      → Option String
      → Outcome RegistryError ((ModelVersion × PromotionDecision) × Disk)
  promote config disk candidate_ref actor reason = do
    candidate ← get disk candidate_ref
    raise_if (not (eq_stage candidate.stage champion))
        (promotion_rejected "Only a champion model can be promoted to production")
    incumbent ← production_or_none (current_production disk candidate.identity)
    let decision = evaluate config candidate incumbent
    raise_if (not decision.approved) (promotion_rejected "Candidate failed promotion policy")
    done ← promote_to_production disk candidate_ref actor reason
    ok ((done.0, decision), done.1)

pub record ModelRollbackRequest : Type 0 where
  pub model_name : String
  pub family : ModelFamily
  pub from_version : String
  pub to_version : String
  pub reason : String
  pub actor : String

-- `RollbackService.execute`
unfoldable pub execute :
    Disk → ModelRollbackRequest → String → Outcome RegistryError (ModelVersion × Disk)
execute disk request environment = do
  let identity : ModelIdentity = record {
    name = request.model_name;
    family = request.family;
    environment = environment;
  }
  current ← current_production disk identity
  raise_if (not (same current.version request.from_version))
      (rollback_error "Rollback source is not the current production version")
  rollback disk identity request.to_version request.actor request.reason
