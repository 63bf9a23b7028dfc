-- ===== src/Registry/Moves.antt =====
-- The methods of ai-engine/creditiq_ai/model_operations/registry/file_registry.py that change a
-- model's stage: one transition, promotion to production, rollback.
use credit_iq_ai.Prelude.{ℕ, String, not, Option, some, none, List, [], ◌∷◌, select}
use credit_iq_ai.Prelude.Positions.{enumerate, set_at}
use credit_iq_ai.Errors.{Outcome, ok, err, raise_if, ◌>>=◌, ◌>>◌}
use credit_iq_ai.Prelude.Text.{same}
use credit_iq_ai.Registry.Domain.{
  RegistryError, registry_error, model_not_found, version_conflict, rollback_error, LifecycleStage,
  champion, production, eq_stage, validate_transition, ModelIdentity, key, ModelVersion,
}
use credit_iq_ai.Registry.File.{
  State, Disk, read, write, locate, assert_no_other_production, with_stage, audit, serves,
  list_versions,
}

-- `if target is LifecycleStage.PRODUCTION`
unfoldable pub check_target :
    LifecycleStage → State → ModelVersion → Outcome RegistryError (Unit {0})
check_target production state current = assert_no_other_production state current
check_target _ state current = ok tt

unfoldable pub transition :
    Disk
    → String
    → LifecycleStage
    → String
    → Option String
    → Outcome RegistryError (ModelVersion × Disk)
transition disk r target actor reason = do
  state ← read disk
  at ← locate state r
  validate_transition at.1.stage target
  check_target target state at.1
  let updated = with_stage target at.1
  let moved : State = record state { models = set_at at.0 updated state.models }
  disk' ←
      write disk (audit moved "lifecycle_transition" updated actor at.1.stage target reason none)
  ok (updated, disk')

-- `if len(matches) != 1: raise`
abbrev pub the_only : List ModelVersion → Outcome RegistryError ModelVersion
the_only (m ∷ []) = ok m
the_only _ = err (model_not_found "A unique production model is not available")

unfoldable pub current_production : Disk → ModelIdentity → Outcome RegistryError ModelVersion
current_production disk identity = do
  versions ← list_versions disk (some identity)
  the_only (select (λ m. eq_stage m.stage production) versions)

-- `if len(current) != 1 or len(target) != 1: raise`
abbrev pub one_each :
    List (ℕ × ModelVersion)
    → List (ℕ × ModelVersion)
    → Outcome RegistryError ((ℕ × ModelVersion) × (ℕ × ModelVersion))
one_each (a ∷ []) (b ∷ []) = ok (a, b)
one_each _ _ = err (rollback_error "Rollback requires one production model and one target version")

abbrev candidates : State → ModelIdentity → List (ℕ × ModelVersion)
candidates state identity =
    select (λ e. same (key e.1.identity) (key identity)) (enumerate 0 state.models)

abbrev pub current_of : State → ModelIdentity → List (ℕ × ModelVersion)
current_of state identity = select (λ e. eq_stage e.1.stage production) (candidates state identity)

abbrev pub target_of : State → ModelIdentity → String → List (ℕ × ModelVersion)
target_of state identity to_version =
    select (λ e. same e.1.version to_version) (candidates state identity)

unfoldable pub rollback :
    Disk → ModelIdentity → String → String → String → Outcome RegistryError (ModelVersion × Disk)
rollback disk identity to_version actor reason = do
  state ← read disk
  pair ← one_each (current_of state identity) (target_of state identity to_version)
  let current = pair.0
  let target = pair.1
  raise_if (not (eq_stage target.1.stage champion))
      (rollback_error "Rollback target must be in champion stage")
  validate_transition current.1.stage champion
  validate_transition target.1.stage production
  let demoted = with_stage champion current.1
  let promoted = with_stage production target.1
  let swapped : State = record state {
    models = set_at target.0 promoted (set_at current.0 demoted state.models);
  }
  disk' ← write disk (
      audit swapped "model_rollback" promoted actor current.1.stage production (some reason)
        (some current.1.version))
  ok (promoted, disk')

-- The incumbent's demotion, with its version for the audit entry.
abbrev pub demote : List (ℕ × ModelVersion) → State → Outcome RegistryError (State × Option String)
demote [] state = ok (state, none)
demote (incumbent ∷ []) state = do
  validate_transition incumbent.1.stage champion
  ok (
    record state { models = set_at incumbent.0 (with_stage champion incumbent.1) state.models },
    some incumbent.1.version,
  )
demote _ state = err (version_conflict "Registry contains multiple production versions")

abbrev pub incumbents : State → ModelVersion → List (ℕ × ModelVersion)
incumbents state target = select (λ e. serves (key target.identity) e.1) (enumerate 0 state.models)

unfoldable pub promote_to_production :
    Disk → String → String → Option String → Outcome RegistryError (ModelVersion × Disk)
promote_to_production disk r actor reason = do
  state ← read disk
  target ← locate state r
  raise_if (not (eq_stage target.1.stage champion))
      (registry_error "Production promotion requires a champion model")
  validate_transition target.1.stage production
  demoted ← demote (incumbents state target.1) state
  let promoted = with_stage production target.1
  let swapped : State = record demoted.0 { models = set_at target.0 promoted demoted.0.models }
  disk' ←
      write disk
        (audit swapped "model_promoted" promoted actor target.1.stage production reason demoted.1)
  ok (promoted, disk')
