-- ===== src/Integrations.antt =====
-- backend/app/modules/integration/service.py: API keys of a tenant, and their scopes.
pub mod Scopes
use credit_iq_ai.Prelude.{
  ℕ, String, Bool, true, false, not, ◌&&◌, Option, some, none, or_else, List, [], ◌∷◌, ◌++◌, ◌==◌,
  find, select, update_first, if◌then◌else◌,
}
use credit_iq_ai.Prelude.Text.{text_leb}
use credit_iq_ai.Prelude.Sorting.{sort_by}
use credit_iq_ai.Errors.{
  Result, ok, raise_if, or_raise, ◌>>=◌, ◌>>◌, not_found, permission_denied, value_error,
}
use credit_iq_ai.Access.{CurrentUser, has, member}
use credit_iq_ai.Identity.Roles.{all_in}
use credit_iq_ai.Identity.Catalog.{permission_codes}

pub record ApiKey : Type 0 where
  pub id : ℕ
  pub organization_id : ℕ
  pub name : String
  pub prefix : String
  pub key_hash : String
  pub scopes : List String
  pub created_by_user_id : ℕ
  pub expires_at : Option ℕ
  pub revoked_at : Option ℕ

pub record ApiKeyCreate : Type 0 where
  pub name : String
  pub scopes : List String
  pub expires_at : Option ℕ

-- The elements of `set(requested)`.
abbrev pub distinct : List String → List String
distinct [] = []
distinct (s ∷ rest) = let others = distinct rest in if member s rest then others else s ∷ others

unfoldable pub validate_scopes : CurrentUser → List String → Result (List String)
validate_scopes actor requested = do
  raise_if (not (all_in (sort_by text_leb (distinct requested)) permission_codes))
      (permission_denied "Unknown API key scopes")
  raise_if
      (not (has actor "platform:admin")
        && not (all_in (sort_by text_leb (distinct requested)) actor.permissions))
      (permission_denied "Cannot delegate scopes not held by the current user")
  ok (sort_by text_leb (distinct requested))

unfoldable pub assignable_scopes : CurrentUser → List String
assignable_scopes actor =
    if has actor "platform:admin"
    then permission_codes
    else select (λ c. member c actor.permissions) permission_codes

-- The random parts of a key: the visible prefix, and the digest of the key.
pub record KeyMaterial : Type 0 where
  pub raw_key : String
  pub prefix : String
  pub key_hash : String

abbrev pub api_key_of : ℕ → KeyMaterial → CurrentUser → ApiKeyCreate → List String → ApiKey
api_key_of id key actor body scopes = record {
  id = id;
  organization_id = actor.org_id;
  name = body.name;
  prefix = key.prefix;
  key_hash = key.key_hash;
  scopes = scopes;
  created_by_user_id = actor.user_id;
  expires_at = body.expires_at;
  revoked_at = none;
}

-- `id` is the fresh identifier.
unfoldable pub create_api_key :
    ℕ
    → KeyMaterial
    → List ApiKey
    → CurrentUser
    → ApiKeyCreate
    → Result ((ApiKey × String) × List ApiKey)
create_api_key id key keys actor body = do
  scopes ← validate_scopes actor body.scopes
  ok (
    (api_key_of id key actor body scopes, key.raw_key),
    keys ++ (api_key_of id key actor body scopes ∷ []),
  )

-- In the order of insertion; the source lists the newest first.
unfoldable pub list_api_keys : List ApiKey → ℕ → List ApiKey
list_api_keys keys org_id = select (λ k. k.organization_id == org_id) keys

abbrev pub revoked : ℕ → ApiKey → ApiKey
revoked now k = record k { revoked_at = or_else k.revoked_at (some now) }

unfoldable pub revoke_api_key : ℕ → List ApiKey → ℕ → ℕ → Result (ApiKey × List ApiKey)
revoke_api_key now keys org_id key_id = do
  api_key ← or_raise (find (λ k. k.id == key_id) keys) (not_found "API key not found")
  raise_if (not (api_key.organization_id == org_id)) (not_found "API key not found")
  ok (revoked now api_key, update_first (λ k. k.id == key_id) (revoked now) keys)
