-- ===== src/Tests/Models.antt =====
-- The model registry on two versions of one model: the first in production, the second a champion.
use credit_iq_ai.Prelude.{◌≡◌, refl, true, none, some, [], ◌∷◌, inl, inr, arith, All}
use credit_iq_ai.Prelude.Int.{pos, ◌-ℤ◌}
use credit_iq_ai.Errors.{Outcome, ok, err}
use credit_iq_ai.Prelude.Text.{same}
use credit_iq_ai.Registry.Domain.{
  RegistryError, LifecycleStage, registered, champion, production, archived, credit, ModelIdentity,
  ModelVersion, key, ref, validate_transition,
}
use credit_iq_ai.Registry.File.{
  Disk, document, read, write, find_model, locate, assert_no_other_production, audit,
  validate_artifacts, register, get, list_versions, sort_versions,
}
use credit_iq_ai.Registry.Moves.{
  transition, check_target, current_production, rollback, promote_to_production,
}
use credit_iq_ai.Prelude.{true, none}
use credit_iq_ai.Registry.Domain.{Metric, finite, not_a_number}
use credit_iq_ai.Registry.Promotion.{MonitoringConfig, evaluate, promote}
use credit_iq_ai.Registry.Unique.{IsRegistry, models_on, append-IsRegistry, restage-IsRegistry}
use credit_iq_ai.Registry.History.{
  here, next, promotes, transitions, Reach-IsRegistry, IsFinal, Reach-IsFinal,
}
use credit_iq_ai.Registry.Refinement.{Reach-Serves}
use credit_iq_ai.Registry.Table.{serving}
use credit_iq_ai.Registry.Eligible.{IsMet, promote-IsEligible}

unfoldable pub registry : Unit {0}
unfolding key ref same validate_transition read write find_model locate assert_no_other_production
    audit validate_artifacts register get list_versions sort_versions transition check_target
    current_production rollback promote_to_production evaluate promote
registry = tt

abbrev scorer : ModelIdentity
scorer = record { name = "scorer"; family = credit; environment = "production" }

abbrev pub model : LifecycleStage → ModelVersion
model stage = record {
  identity = scorer;
  version = "1";
  stage = stage;
  metrics = ("roc_auc", finite (pos 80)) ∷ [];
  artifacts = record { path = "a.joblib"; checksum_sha256 = some "00" } ∷ [];
  lineage = record { parent_version = none };
  created_by = "system";
  created_at = 1;
}

abbrev newer : LifecycleStage → ModelVersion
newer stage = record (model stage) {
  version = "2";
  metrics = ("roc_auc", finite (pos 85)) ∷ [];
  created_at = 2;
}

abbrev disk : Disk
disk = record {
  stored =
      document 1 (record { models = model production ∷ newer champion ∷ []; audit_events = [] });
  is_writable = true;
}

-- The two models entered one after the other.
disk-IsRegistry : IsRegistry (models_on disk)
unfolding registry
disk-IsRegistry =
    let empty : IsRegistry [] = record { unique = λ r. omega arith; single = λ k. omega arith } in
    let one = append-IsRegistry [] (model registered) refl refl empty in
    let served = restage-IsRegistry _ 0 (model registered) production refl (inr refl) one in
    let two = append-IsRegistry _ (newer registered) refl refl served in
    restage-IsRegistry _ 1 (newer registered) champion refl (inl refl) two

abbrev value_of : {A : Type 0} → A → Outcome RegistryError A → A
value_of d (ok a) = a
value_of d (err e) = d

abbrev promoted : ModelVersion × Disk
promoted =
    value_of (model archived, disk)
      (promote_to_production disk "credit:scorer:production@2" "system" none)

rolled_back : ModelVersion × Disk
rolled_back = value_of (model archived, disk) (rollback disk scorer "2" "system" "drift")

Reach-IsRegistry_example : IsRegistry (models_on promoted.1)
unfolding registry
Reach-IsRegistry_example =
    Reach-IsRegistry {start = disk} disk-IsRegistry
      (next here (promotes "credit:scorer:production@2" "system" none promoted.0 refl))

Reach-Serves_example :
    (ref promoted.0 ≡ "credit:scorer:production@2")
    × (serving (models_on promoted.1) (key scorer) ≡ some "credit:scorer:production@2")
unfolding registry
Reach-Serves_example =
    (Reach-Serves {start = disk} disk-IsRegistry here
      (promotes "credit:scorer:production@2" "system" none promoted.0 refl) refl).1

new_version_serves : serving (models_on promoted.1) (key scorer) ≡ some "credit:scorer:production@2"
unfolding registry
new_version_serves = refl

abbrev retired_first : ModelVersion × Disk
retired_first =
    value_of (model archived, disk)
      (transition disk "credit:scorer:production@1" archived "system" none)

abbrev promoted_after : ModelVersion × Disk
promoted_after =
    value_of (model archived, disk)
      (promote_to_production retired_first.1 "credit:scorer:production@2" "system" none)

Reach-IsFinal_example : IsFinal (models_on promoted_after.1) 0 (model archived)
unfolding registry
Reach-IsFinal_example =
    Reach-IsFinal {start = retired_first.1}
      (Reach-IsRegistry {start = disk} disk-IsRegistry (
        next here
          (transitions "credit:scorer:production@1" archived "system" none retired_first.0 refl)))
      (next here (promotes "credit:scorer:production@2" "system" none promoted_after.0 refl))
      (record { at = refl; is_final = refl })

abbrev config : MonitoringConfig
config = record {
  promotion_required_metrics = ("roc_auc", finite (pos 75)) ∷ [];
  promotion_max_metric_drop = ("roc_auc", finite (pos 2)) ∷ [];
}

abbrev less_of : Metric → Metric → Metric
less_of (finite a) (finite b) = finite (a -ℤ b)
less_of a b = not_a_number

-- NaN passes every floor.
nan_passes :
    (evaluate less_of config
      (record (newer champion) { metrics = ("roc_auc", not_a_number) ∷ [] })
      none).approved
    ≡ true
unfolding registry
nan_passes = refl

promote-IsEligible_example :
    All (IsMet (("roc_auc", finite (pos 85)) ∷ [])) (("roc_auc", finite (pos 75)) ∷ [])
unfolding registry ◌-ℤ◌
promote-IsEligible_example =
    (promote-IsEligible less_of config disk "credit:scorer:production@2" "system" none
      {candidate = newer champion} refl refl).1
