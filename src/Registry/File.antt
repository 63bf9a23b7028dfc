-- ===== src/Registry/File.antt =====
-- ai-engine/creditiq_ai/model_operations/registry/file_registry.py: the registry kept in one JSON
-- document. Each method holds the lock from its read to its write, so it is one step.
use text.Mathlib.Text.{is_lt}
use Prim.Native.String.{compare, then as and_then}
use Prim.Native.Nat.{compare as compare_ℕ}
use credit_iq_ai.Prelude.{
  ℕ, suc, String, Bool, true, not, ◌&&◌, Option, some, none, is_none, List, [], ◌∷◌, ◌++◌, ◌==◌,
  length, find, exists, select, if◌then◌else◌,
}
use credit_iq_ai.Errors.{Outcome, ok, err, raise_if, or_raise, ◌>>=◌, ◌>>◌}
use credit_iq_ai.Prelude.Text.{same}
use credit_iq_ai.Registry.Domain.{
  RegistryError, registry_error, model_not_found, version_conflict, artifact_integrity,
  LifecycleStage, created, registered, production, eq_stage, ModelIdentity, key, ModelArtifact,
  ModelVersion, ref, AuditEvent,
}

-- The document's `models` and `audit_events`.
pub record State : Type 0 where
  pub models : List ModelVersion
  pub audit_events : List AuditEvent

-- What stands under the registry's path. `unreadable` is a file that is not JSON or cannot be read.
pub data Stored : Type 0 where
  absent unreadable : Stored
  document : ℕ → State → Stored

-- A write can fail (OSError), and then the old document is still there.
pub record Disk : Type 0 where
  pub stored : Stored
  pub is_writable : Bool

abbrev schema_version : ℕ
schema_version = 1

abbrev read_stored : Stored → Outcome RegistryError State
read_stored absent = ok (record { models = []; audit_events = [] })
read_stored unreadable = err (registry_error "Registry storage is unreadable")
read_stored (document v state) = do
  raise_if (not (v == schema_version)) (registry_error "Unsupported registry schema version")
  ok state

unfoldable pub read : Disk → Outcome RegistryError State
read disk = read_stored disk.stored

unfoldable pub write : Disk → State → Outcome RegistryError Disk
write disk state = do
  raise_if (not disk.is_writable) (registry_error "Registry storage could not be updated")
  ok (record disk { stored = document schema_version state })

abbrev pub has_ref : String → ModelVersion → Bool
has_ref r m = same (ref m) r

unfoldable pub find_model : State → String → Option ModelVersion
find_model state r = find (has_ref r) state.models

abbrev pub locate_from : ℕ → List ModelVersion → String → Outcome RegistryError (ℕ × ModelVersion)
locate_from i [] r = err (model_not_found "Model version was not found")
locate_from i (m ∷ ms) r = if has_ref r m then ok (i, m) else locate_from (suc i) ms r

unfoldable pub locate : State → String → Outcome RegistryError (ℕ × ModelVersion)
locate state r = locate_from 0 state.models r

-- In production under an identity's key.
abbrev pub serves : String → ModelVersion → Bool
serves k m = same (key m.identity) k && eq_stage m.stage production

unfoldable pub assert_no_other_production : State → ModelVersion → Outcome RegistryError (Unit {0})
assert_no_other_production state candidate =
    raise_if
      (exists (λ m. serves (key candidate.identity) m && not (has_ref (ref candidate) m))
        state.models)
      (version_conflict "A production version already exists")

-- `model_copy(update={"stage": target})`
abbrev pub with_stage : LifecycleStage → ModelVersion → ModelVersion
with_stage target m = record m { stage = target }

unfoldable pub audit :
    State
    → String
    → ModelVersion
    → String
    → LifecycleStage
    → LifecycleStage
    → Option String
    → Option String
    → State
audit state event_type model actor previous new reason metadata = record state {
  audit_events =
      state.audit_events
      ++ (record {
        event_type = event_type;
        actor = actor;
        model_name = model.identity.name;
        model_version = model.version;
        previous_state = previous;
        new_state = new;
        reason = reason;
        metadata = metadata;
      }
          ∷ []);
}

-- No checksum, or an empty one.
abbrev no_text : Option String → Bool
no_text none = true
no_text (some t) = same t ""

abbrev has_no_checksum : ModelArtifact → Bool
has_no_checksum a = no_text a.checksum_sha256

unfoldable pub validate_artifacts : ModelVersion → Outcome RegistryError (Unit {0})
validate_artifacts model = do
  raise_if (length model.artifacts == 0)
      (artifact_integrity "A registered model must reference at least one artifact")
  raise_if (not (length (select has_no_checksum model.artifacts) == 0))
      (artifact_integrity "All registered artifacts require a trusted checksum")

unfoldable pub register : Disk → ModelVersion → String → Outcome RegistryError (ModelVersion × Disk)
register disk model actor = do
  validate_artifacts model
  state ← read disk
  raise_if (not (is_none (find_model state (ref model))))
      (version_conflict "Model version is already registered")
  let added = with_stage registered model
  let listed : State = record state { models = state.models ++ (added ∷ []) }
  disk' ← write disk (audit listed "model_registered" added actor created registered none none)
  ok (added, disk')

unfoldable pub get : Disk → String → Outcome RegistryError ModelVersion
get disk r = do
  state ← read disk
  or_raise (find_model state r) (model_not_found "Model version was not found")

-- The order of `(identity.key, created_at, version)`.
abbrev pub before : ModelVersion → ModelVersion → Bool
before a b = is_lt (
    and_then (compare (key a.identity) (key b.identity))
      (and_then (compare_ℕ a.created_at b.created_at) (compare a.version b.version)))

abbrev pub insert_sorted : ModelVersion → List ModelVersion → List ModelVersion
insert_sorted m [] = m ∷ []
insert_sorted m (x ∷ xs) = if before x m then x ∷ insert_sorted m xs else m ∷ x ∷ xs

-- `sorted(items, key=...)`, which is stable.
unfoldable pub sort_versions : List ModelVersion → List ModelVersion
sort_versions [] = []
sort_versions (x ∷ xs) = insert_sorted x (sort_versions xs)

abbrev of_identity : Option ModelIdentity → List ModelVersion → List ModelVersion
of_identity none ms = ms
of_identity (some i) ms = select (λ m. same (key m.identity) (key i)) ms

unfoldable pub list_versions :
    Disk → Option ModelIdentity → Outcome RegistryError (List ModelVersion)
list_versions disk identity = do
  state ← read disk
  ok (sort_versions (of_identity identity state.models))
