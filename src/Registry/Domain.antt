-- ===== src/Registry/Domain.antt =====
-- ai-engine/creditiq_ai/model_operations/domain.py and lifecycle/state_machine.py, with the errors
-- of ai-engine/creditiq_ai/exceptions/base.py that they raise.
use Prim.Native.String.{◌++◌ as concat}
use credit_iq_ai.Prelude.{
  ℕ, String, Bool, false, not, ◌&&◌, Option, List, [], ◌∷◌, ◌==◌, exists, length,
}
use credit_iq_ai.Prelude.Int.{ℤ, ltb_ℤ}
use credit_iq_ai.Errors.{Outcome, raise_if, ◌>>◌}

-- Each error keeps its message; the structured context is left out.
pub data RegistryError : Type 0 where
  registry_error : String → RegistryError
  model_not_found : String → RegistryError
  version_conflict : String → RegistryError
  artifact_integrity : String → RegistryError
  invalid_transition : String → RegistryError
  promotion_rejected : String → RegistryError
  rollback_error : String → RegistryError
  lineage_error : String → RegistryError

pub data LifecycleStage : Type 0 where
  created registered validated staging challenger champion production : LifecycleStage
  archived rejected retired : LifecycleStage

-- A number for each value of the enum.
abbrev pub stage_value : LifecycleStage → ℕ
stage_value created = 0
stage_value registered = 1
stage_value validated = 2
stage_value staging = 3
stage_value challenger = 4
stage_value champion = 5
stage_value production = 6
stage_value archived = 7
stage_value rejected = 8
stage_value retired = 9

abbrev pub eq_stage : LifecycleStage → LifecycleStage → Bool
eq_stage a b = stage_value a == stage_value b

-- `LIFECYCLE_TRANSITIONS`
abbrev pub lifecycle_transitions : LifecycleStage → List LifecycleStage
lifecycle_transitions created = registered ∷ rejected ∷ []
lifecycle_transitions registered = validated ∷ rejected ∷ archived ∷ []
lifecycle_transitions validated = staging ∷ rejected ∷ archived ∷ []
lifecycle_transitions staging = challenger ∷ archived ∷ rejected ∷ []
lifecycle_transitions challenger = champion ∷ staging ∷ archived ∷ []
lifecycle_transitions champion = production ∷ challenger ∷ archived ∷ []
lifecycle_transitions production = champion ∷ retired ∷ archived ∷ []
lifecycle_transitions archived = []
lifecycle_transitions rejected = []
lifecycle_transitions retired = []

abbrev pub can_transition : LifecycleStage → LifecycleStage → Bool
can_transition current target = exists (eq_stage target) (lifecycle_transitions current)

abbrev pub is_terminal : LifecycleStage → Bool
is_terminal stage = length (lifecycle_transitions stage) == 0

unfoldable pub validate_transition :
    LifecycleStage → LifecycleStage → Outcome RegistryError (Unit {0})
validate_transition current target = do
  raise_if (eq_stage current target) (invalid_transition "No-op transition")
  raise_if (not (can_transition current target)) (invalid_transition "Illegal lifecycle transition")

pub data ModelFamily : Type 0 where
  credit fraud : ModelFamily

abbrev pub family_value : ModelFamily → String
family_value credit = "credit"
family_value fraud = "fraud"

pub record ModelIdentity : Type 0 where
  pub name : String
  pub family : ModelFamily
  pub environment : String

-- `ModelIdentity.key`
unfoldable pub key : ModelIdentity → String
key i = concat (family_value i.family) (concat ":" (concat i.name (concat ":" i.environment)))

pub record ModelArtifact : Type 0 where
  pub path : String
  pub checksum_sha256 : Option String

-- The parts of `ModelLineage` that code outside the registry's storage reads.
pub record ModelLineage : Type 0 where
  pub parent_version : Option String

-- A float: a finite one as the integer of its multiples of 2 ^ -1074, which every finite float is, the
-- infinity above or below all of these, or NaN.
pub data Metric : Type 0 where
  finite : ℤ → Metric
  infinite : Bool → Metric
  not_a_number : Metric

-- `a < b`
abbrev pub less : Metric → Metric → Bool
less (finite a) (finite b) = ltb_ℤ a b
less (finite a) (infinite up) = up
less (infinite up) (finite b) = not up
less (infinite up) (infinite top) = not up && top
less a b = false

-- `metrics` of the model's `ModelMetadata`. Tags, notes, the integrity hash and the rest of the metadata, which
-- the registry only stores, are left out.
pub record ModelVersion : Type 0 where
  pub identity : ModelIdentity
  pub version : String
  pub stage : LifecycleStage
  pub metrics : List (String × Metric)
  pub artifacts : List ModelArtifact
  pub lineage : ModelLineage
  pub created_by : String
  pub created_at : ℕ

-- `ModelVersion.ref`
unfoldable pub ref : ModelVersion → String
ref m = concat (key m.identity) (concat "@" m.version)

-- The stages stand for their values. The event's id and time are left out.
pub record AuditEvent : Type 0 where
  pub event_type : String
  pub actor : String
  pub model_name : String
  pub model_version : String
  pub previous_state : LifecycleStage
  pub new_state : LifecycleStage
  pub reason : Option String
  pub metadata : Option String
