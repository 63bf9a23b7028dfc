-- ===== src/Identity/Administration.antt =====
-- backend/app/modules/identity/service.py: what a tenant administrator may do to accounts and
-- roles. `db.flush` has no effect of its own here.
use credit_iq_ai.Prelude.{
  ℕ, ◌+◌, String, Bool, not, ◌&&◌, List, [], ◌∷◌, ◌==◌, leb, select, update_first, map, length,
  if◌then◌else◌,
}
use credit_iq_ai.Prelude.Text.{same}
use credit_iq_ai.Errors.{
  Result, ok, raise_if, or_raise, ◌>>=◌, ◌>>◌, not_found, permission_denied, conflict,
}
use credit_iq_ai.Access.{CurrentUser, has, member}
use credit_iq_ai.Identity.Users.{UserStatus, active, disabled, eq_user_status, User, Accounts}
use credit_iq_ai.Identity.Sessions.{get_user, revoke_all}

unfoldable pub validate_role_assignment : CurrentUser → List String → Result (Unit {0})
validate_role_assignment actor role_names =
    raise_if (member "Super Admin" role_names && not (has actor "platform:admin"))
      (permission_denied "Only a platform administrator can assign Super Admin")

abbrev pub role_names_of : User → List String
role_names_of user = map (λ r. r.name) user.roles

-- The rows that joining a user with its roles named Administrator gives.
abbrev pub admin_rows : User → ℕ
admin_rows user = length (select (λ r. same r.name "Administrator") user.roles)

abbrev pub counted : ℕ → User → ℕ
counted org_id u =
    if u.organization_id == org_id && eq_user_status u.status active then admin_rows u else 0

-- `select(func.count(User.id)).join(User.roles).where(...)`
unfoldable pub active_admins : ℕ → List User → ℕ
active_admins org_id [] = 0
active_admins org_id (u ∷ us) = counted org_id u + active_admins org_id us

abbrev pub is_admin : User → Bool
is_admin u = not (admin_rows u == 0)

abbrev pub with_status : UserStatus → User → User
with_status status u = record u { status = status }

-- The sessions of a disabled account end.
abbrev pub end_sessions : UserStatus → ℕ → ℕ → Accounts → Accounts
end_sessions disabled now user_id db = revoke_all now user_id db
end_sessions _ now user_id db = db

unfoldable pub update_user_status :
    ℕ → Accounts → CurrentUser → ℕ → UserStatus → Result (User × Accounts)
update_user_status now db actor target_id status = do
  target ← or_raise (get_user db target_id) (not_found "User not found")
  raise_if (not (target.organization_id == actor.org_id)) (not_found "User not found")
  raise_if (member "Super Admin" (role_names_of target) && not (has actor "platform:admin"))
      (permission_denied "Only a platform administrator can manage Super Admin")
  raise_if (eq_user_status status disabled && target.id == actor.user_id)
      (conflict "You cannot disable your own account")
  raise_if
      (eq_user_status status disabled
        && is_admin target
        && eq_user_status target.status active
        && leb (active_admins actor.org_id db.users) 1)
      (conflict "Cannot disable the last active tenant administrator")
  let written = record db {
    users = update_first (λ u. u.id == target_id) (with_status status) db.users;
  }
  ok (with_status status target, end_sessions status now target.id written)
