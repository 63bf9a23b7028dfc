-- ===== src/Artifacts.antt =====
-- ai-engine/creditiq_ai/model_operations/storage/artifacts.py: files of models, which are read only
-- after their checksum was verified. Files are bytes under a path that ends in no slash.
pub mod Integrity
use Prim.Native.Char.{Char, code}
use Prim.Native.String.{[], ◌∷◌}
use credit_iq_ai.Prelude.{
  ℕ, String, Bool, true, false, not, ◌||◌, Option, none, some, is_none, ◌==◌, if◌then◌else◌,
}
use credit_iq_ai.Prelude.Text.{same}
use credit_iq_ai.Errors.{Outcome, ok, err, raise_if, or_raise, ◌>>=◌, ◌>>◌}
use credit_iq_ai.Registry.Domain.{ModelArtifact}

-- `unreadable` is what joblib raises.
pub data ArtifactError : Type 0 where
  artifact_integrity : String → ArtifactError
  unreadable : String → ArtifactError

-- joblib and SHA-256.
pub record Serializer (A B : Type 0) : Type 0 where
  pub dump : A → B
  pub parse : B → Outcome ArtifactError A
  pub sha256 : B → String

abbrev pub Files : Type 0 → Type 0
Files B = String → Option B

abbrev has_slash : String → Bool
has_slash [] = false
has_slash (c ∷ s) = code c == 47 || has_slash s

-- `Path.name`
abbrev file_name : String → String
file_name [] = []
file_name (c ∷ s) = let rest = file_name s in if has_slash (c ∷ s) then rest else c ∷ s

abbrev is_blank : String → Bool
is_blank [] = true
is_blank (c ∷ s) = false

-- From the last dot on.
abbrev from_dot : String → String
from_dot [] = []
from_dot (c ∷ s) =
    let rest = from_dot s in
    if not (is_blank rest) then rest else if code c == 46 then c ∷ s else []

abbrev proper : String → String
proper [] = []
proper (c ∷ s) = if is_blank s then [] else c ∷ s

abbrev name_suffix : String → String
name_suffix [] = []
name_suffix (c ∷ s) = proper (from_dot s)

-- `Path.suffix`: neither a dot at the start of the name nor one at its end begins a suffix.
unfoldable pub suffix : String → String
suffix path = name_suffix (file_name path)

abbrev pub check_suffix : String → Outcome ArtifactError (Unit {0})
check_suffix path =
    raise_if (not (same (suffix path) ".joblib"))
      (artifact_integrity "Unsupported serialization format")

abbrev pub write_file : {B : Type 0} → String → B → Files B → Files B
write_file path b files = λ q. if same q path then some b else files q

module _ {A B : Type 0} (codec : Serializer A B) where
  -- The kind and the size of the artifact are left out.
  unfoldable pub save : Files B → A → String → Outcome ArtifactError (ModelArtifact × Files B)
  save files obj path =
      check_suffix path
      >> ok (
        record { path = path; checksum_sha256 = some (codec.sha256 (codec.dump obj)) },
        write_file path (codec.dump obj) files,
      )

  unfoldable pub verify : Files B → String → String → Outcome ArtifactError (Unit {0})
  verify files path expected = do
    bytes ← or_raise (files path) (artifact_integrity "Artifact file is missing")
    check_suffix path
    raise_if (same expected "")
        (artifact_integrity "No expected checksum supplied; refusing to load")
    raise_if (not (same (codec.sha256 bytes) expected))
        (artifact_integrity "Artifact checksum mismatch — possible corruption or tampering")

  -- `joblib.load` on the path
  abbrev pub deserialize : Files B → String → Outcome ArtifactError A
  deserialize files path = do bytes ← or_raise (files path) (unreadable path); codec.parse bytes

  unfoldable pub load : Files B → String → String → Outcome ArtifactError A
  load files path expected = verify files path expected >> deserialize files path

  abbrev pub load_checked : Files B → String → Option String → Outcome ArtifactError A
  load_checked files path none =
      err (artifact_integrity "ModelArtifact has no checksum; refusing to load")
  load_checked files path (some checksum) =
      raise_if (same checksum "")
        (artifact_integrity "ModelArtifact has no checksum; refusing to load")
      >> load files path checksum

  unfoldable pub load_artifact : Files B → ModelArtifact → Outcome ArtifactError A
  load_artifact files artifact = load_checked files artifact.path artifact.checksum_sha256
