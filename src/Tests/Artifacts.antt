-- ===== src/Tests/Artifacts.antt =====
-- Saved artifacts, read back and tampered with, where a checksum is the text itself.
use credit_iq_ai.Prelude.{◌≡◌, refl, String, none, some}
use credit_iq_ai.Prelude.Text.{same}
use credit_iq_ai.Errors.{Outcome, ok, err}
use credit_iq_ai.Registry.Domain.{ModelArtifact}
use credit_iq_ai.Artifacts.{
  ArtifactError, artifact_integrity, Serializer, Files, write_file, suffix, save, verify, load,
  load_artifact,
}
use credit_iq_ai.Artifacts.Integrity.{load_artifact-IsVerified, load_artifact-save}

unfoldable stored : Unit {0}
unfolding same suffix save verify load load_artifact
stored = tt

abbrev plain : Serializer String String
plain = record { dump = λ s. s; parse = λ s. ok s; sha256 = λ s. s }

abbrev empty : Files String
empty = λ path. none

abbrev artifact : ModelArtifact
artifact = record { path = "models/v1.joblib"; checksum_sha256 = some "weights" }

abbrev after : Files String
after = write_file "models/v1.joblib" "weights" empty

load_artifact-save_example : load_artifact plain after artifact ≡ ok "weights"
unfolding stored
load_artifact-save_example =
    load_artifact-save plain empty "weights" "models/v1.joblib" {artifact = artifact}
      {after = after} refl refl refl

load_artifact-IsVerified_example :
    (bytes : String) × (after "models/v1.joblib" ≡ some bytes)
    × (artifact.checksum_sha256 ≡ some bytes)
    × (◌≡◌ {A = Outcome ArtifactError String} (ok bytes) (ok "weights"))
unfolding stored
load_artifact-IsVerified_example =
    load_artifact-IsVerified plain after artifact {obj = "weights"} refl

tampered :
    load_artifact plain (write_file "models/v1.joblib" "other" after) artifact
    ≡ err (artifact_integrity "Artifact checksum mismatch — possible corruption or tampering")
unfolding stored
tampered = refl

hidden_file : suffix "models.joblib/.joblib" ≡ ""
unfolding stored
hidden_file = refl
