-- ===== src/Artifacts/Integrity.antt =====
-- ai-engine/creditiq_ai/model_operations/storage/artifacts.py: what is loaded is what was saved.
use credit_iq_ai.Prelude.{
  ◌≡◌, refl, sym, ap, subst, ◌∙◌, String, true, false, Option, none, some, some-injective,
}
use credit_iq_ai.Prelude.Text.{same, same_iff}
use credit_iq_ai.Errors.{
  ok, raise_if, or_raise, >>=-ok_inv, ok-injective, raise_if-not_passed, or_raise-found,
}
use credit_iq_ai.Registry.Domain.{ModelArtifact}
use credit_iq_ai.Artifacts.{
  Serializer, Files, check_suffix, save, verify, load, load_checked, load_artifact, suffix,
}

module _ {A B : Type 0} (codec : Serializer A B) where
  load-IsVerified :
      (files : Files B) (path expected : String) {obj : A}
      → load codec files path expected ≡ ok obj
      → (bytes : B) × (files path ≡ some bytes)
        × (codec.sha256 bytes ≡ expected)
        × (codec.parse bytes ≡ ok obj)
  unfolding load verify
  load-IsVerified files path expected {obj} h =
      let (u, hv, hd) = >>=-ok_inv (verify codec files path expected) _ h in
      let (bytes, hb, h1) = >>=-ok_inv (or_raise (files path) _) _ hv in
      let (u2, hs, h2) = >>=-ok_inv (check_suffix path) _ h1 in
      let (u3, he, h3) = >>=-ok_inv (raise_if (same expected "") _) _ h2 in
      let (bytes', hb', parsed) = >>=-ok_inv (or_raise (files path) _) _ hd in
      let found = or_raise-found (files path) _ hb in
      let same_bytes : bytes' ≡ bytes =
        some-injective (sym (or_raise-found (files path) _ hb') ∙ found) in
      (
        bytes,
        found,
        (same_iff _ _).0 (raise_if-not_passed (same (codec.sha256 bytes) expected) _ h3),
        subst (λ b. codec.parse b ≡ ok obj) same_bytes parsed,
      )

  load_checked-IsVerified :
      (files : Files B) (path : String) (checksum : Option String) {obj : A}
      → load_checked codec files path checksum ≡ ok obj
      → (bytes : B) × (files path ≡ some bytes)
        × (checksum ≡ some (codec.sha256 bytes))
        × (codec.parse bytes ≡ ok obj)
  load_checked-IsVerified files path none h = cc
  load_checked-IsVerified files path (some checksum) h =
      let (u, hc, h1) = >>=-ok_inv (raise_if (same checksum "") _) _ h in
      let (bytes, at, sum, parsed) = load-IsVerified files path checksum h1 in
      (bytes, at, ap some (sym sum), parsed)

  -- Whatever became of the files, an artifact loads only from bytes whose checksum is the one that
  -- the artifact carries, and the object is the one these bytes hold.
  pub load_artifact-IsVerified :
      (files : Files B) (artifact : ModelArtifact) {obj : A}
      → load_artifact codec files artifact ≡ ok obj
      → (bytes : B) × (files artifact.path ≡ some bytes)
        × (artifact.checksum_sha256 ≡ some (codec.sha256 bytes))
        × (codec.parse bytes ≡ ok obj)
  unfolding load_artifact
  load_artifact-IsVerified files artifact h =
      load_checked-IsVerified files artifact.path artifact.checksum_sha256 h

  -- If joblib reads back what it dumped and the checksum of the dump is not empty, an object that
  -- was saved loads as it was from its artifact.
  pub load_artifact-save :
      (files : Files B) (obj : A) (path : String) {artifact : ModelArtifact} {after : Files B}
      → codec.parse (codec.dump obj) ≡ ok obj
      → same (codec.sha256 (codec.dump obj)) "" ≡ false
      → save codec files obj path ≡ ok (artifact, after)
      → load_artifact codec after artifact ≡ ok obj
  unfolding load_artifact save load verify
  load_artifact-save files obj path {artifact} {after} reads filled h =
      let (u, hs, h1) = >>=-ok_inv (check_suffix path) _ h in
      let supported = raise_if-not_passed (same (suffix path) ".joblib") _ hs in
      let written = ok-injective h1 in
      let here : same path path ≡ true = (same_iff path path).1 refl in
      let sum = codec.sha256 (codec.dump obj) in
      let equal : same sum sum ≡ true = (same_iff sum sum).1 refl in
      subst (λ r. load_artifact codec r.1 r.0 ≡ ok obj) written
        (rw (filled, here, supported, equal) reads)
