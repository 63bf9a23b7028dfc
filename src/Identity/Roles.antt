-- ===== src/Identity/Roles.antt =====
-- backend/app/modules/identity/service.py: custom roles of a tenant.
use credit_iq_ai.Prelude.{
  ℕ, String, Bool, true, false, not, ◌&&◌, ◌||◌, Option, some, none, is_none, List, [], ◌∷◌, ◌++◌,
  ◌==◌, opt_eq, exists, select, find, update_first,
}
use credit_iq_ai.Prelude.Text.{same, join_words}
use credit_iq_ai.Errors.{
  Result, ok, raise_if, or_raise, ◌>>=◌, ◌>>◌, conflict, not_found, permission_denied,
}
use credit_iq_ai.Access.{CurrentUser, has, member}
use credit_iq_ai.Identity.Users.{Role, Accounts}

abbrev pub all_in : List String → List String → Bool
all_in [] known = true
all_in (c ∷ cs) known = member c known && all_in cs known

-- `len(set(codes)) != len(codes)`
abbrev pub has_duplicates : List String → Bool
has_duplicates [] = false
has_duplicates (c ∷ cs) = member c cs || has_duplicates cs

-- The catalog's permissions among those asked for. What is found is what was requested exactly
-- when each requested code is in the catalog.
unfoldable pub resolve_custom_permissions :
    Accounts → CurrentUser → List String → Result (List String)
resolve_custom_permissions db actor permission_codes = do
  raise_if (has_duplicates permission_codes) (conflict "Role permissions cannot contain duplicates")
  raise_if (not (all_in permission_codes db.permissions))
      (not_found "One or more permissions do not exist")
  raise_if (not (has actor "platform:admin") && not (all_in permission_codes actor.permissions))
      (permission_denied "Cannot grant a permission you do not possess")
  ok (select (λ c. member c permission_codes) db.permissions)

-- Lower case in Python and in PostgreSQL, and Python's `casefold`.
pub record Casing : Type 0 where
  pub lower : String → String
  pub sql_lower : String → String
  pub casefold : String → String

module _ (casing : Casing) where
  -- A role of the tenant, or of the system, with the name in any case.
  abbrev pub is_reserved : ℕ → String → Role → Bool
  is_reserved org_id name r =
      same (casing.sql_lower r.name) (casing.lower name)
      && (opt_eq r.organization_id (some org_id) || is_none r.organization_id)

  unfoldable pub ensure_role_name_available : Accounts → ℕ → String → Result (Unit {0})
  ensure_role_name_available db org_id name =
      raise_if (exists (is_reserved org_id name) db.roles)
        (conflict "Role name already exists or is reserved by a system role")

  -- `id` is the fresh identifier.
  unfoldable pub create_role :
      ℕ → Accounts → CurrentUser → String → List String → Result (Role × Accounts)
  create_role id db actor name permission_codes = do
    ensure_role_name_available db actor.org_id (join_words name)
    permissions ← resolve_custom_permissions db actor permission_codes
    let role : Role = record {
      id = id;
      organization_id = some actor.org_id;
      name = join_words name;
      is_system = false;
      permissions = permissions;
    }
    ok (role, record db { roles = db.roles ++ (role ∷ []) })

  -- The name is checked unless it is the old one in another case.
  abbrev check_name : Bool → Accounts → CurrentUser → String → Result (Unit {0})
  check_name true db actor name = ok tt
  check_name false db actor name = ensure_role_name_available db actor.org_id name

  abbrev renamed : Accounts → CurrentUser → Role → Option String → Result Role
  renamed db actor role none = ok role
  renamed db actor role (some name) = do
    check_name (same (casing.casefold (join_words name)) (casing.casefold role.name)) db actor
        (join_words name)
    ok (record role { name = join_words name })

  abbrev regranted : Accounts → CurrentUser → Role → Option (List String) → Result Role
  regranted db actor role none = ok role
  regranted db actor role (some codes) = do
    permissions ← resolve_custom_permissions db actor codes
    ok (record role { permissions = permissions })

  abbrev pub is_own_role : CurrentUser → ℕ → Role → Bool
  is_own_role actor role_id r = r.id == role_id && opt_eq r.organization_id (some actor.org_id)

  unfoldable pub update_role :
      Accounts → CurrentUser → ℕ → Option String → Option (List String) → Result (Role × Accounts)
  update_role db actor role_id name permission_codes = do
    role ← or_raise (find (is_own_role actor role_id) db.roles) (not_found "Custom role not found")
    raise_if (role.is_system || is_none role.organization_id)
        (permission_denied "System roles cannot be modified")
    role' ← renamed db actor role name
    role'' ← regranted db actor role' permission_codes
    ok (
      role'',
      record db { roles = update_first (is_own_role actor role_id) (λ r. role'') db.roles },
    )
