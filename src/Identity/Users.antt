-- ===== src/Identity/Users.antt =====
-- The tables of backend/app/modules/identity/models.py. They have no row-level policy. Names,
-- descriptions, links and times that no decision reads are left out.
use credit_iq_ai.Prelude.{ℕ, String, Bool, Option, List, ◌==◌}
use credit_iq_ai.Errors.{Result, ok, err}

pub data UserStatus : Type 0 where
  invited active disabled : UserStatus

abbrev pub user_status_value : UserStatus → ℕ
user_status_value invited = 0
user_status_value active = 1
user_status_value disabled = 2

abbrev pub eq_user_status : UserStatus → UserStatus → Bool
eq_user_status a b = user_status_value a == user_status_value b

-- No organization: a system role, for all tenants. Permissions are their codes.
pub record Role : Type 0 where
  pub id : ℕ
  pub organization_id : Option ℕ
  pub name : String
  pub is_system : Bool
  pub permissions : List String

pub record User : Type 0 where
  pub id : ℕ
  pub organization_id : ℕ
  pub branch_id : Option ℕ
  pub applicant_id : Option ℕ
  pub email : String
  pub password_hash : String
  pub status : UserStatus
  pub roles : List Role
  pub mfa_enabled : Bool
  pub mfa_secret_encrypted : Option String
  pub mfa_last_verified_step : Option ℕ
  pub last_login_at : Option ℕ

pub record RefreshToken : Type 0 where
  pub user_id : ℕ
  pub jti : ℕ
  pub token_hash : String
  pub expires_at : ℕ
  pub revoked_at : Option ℕ
  pub replaced_by : Option String

-- `permissions` is the catalog of permission codes.
pub record Accounts : Type 0 where
  pub users : List User
  pub refresh_tokens : List RefreshToken
  pub roles : List Role
  pub permissions : List String

-- A call leaves the tables as it wrote them, also when it raises.
abbrev pub Run {ℓ} : Type ℓ → Type ℓ
Run A = Result A × Accounts

-- `admin_session` of backend/app/db/session.py: commit, or roll back upon an exception.
unfoldable pub admin_session {ℓ} : {A : Type ℓ} → Accounts → Run A → Run A
admin_session before (ok a, after) = (ok a, after)
admin_session before (err e, after) = (err e, before)
