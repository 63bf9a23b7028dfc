-- ===== src/Identity/Requests.antt =====
-- backend/app/core/deps.py and the endpoints under /auth of backend/app/modules/identity/router.py:
-- who a request is made by, and how a caller obtains tokens.
pub mod Live
pub mod Revoked
pub mod Challenge
use credit_iq_ai.Prelude.{
  ℕ, String, Bool, true, false, not, ◌&&◌, ◌||◌, Option, some, none, List, [], ◌∷◌, ◌++◌, ◌==◌,
  find, map, update_first, or_else, exists, if◌then◌else◌,
}
use credit_iq_ai.Prelude.Text.{same}
use credit_iq_ai.Errors.{
  Result, ok, err, raise_if, or_raise, ◌>>=◌, ◌>>◌, authentication, permission_denied,
}
use credit_iq_ai.Store.{
  is_operating, Organization, AuditLog, Snapshot, nothing, organization_context,
}
use credit_iq_ai.Access.{CurrentUser, has, member}
use credit_iq_ai.Identity.Users.{active, eq_user_status, Role, User, Accounts, Run, admin_session}
use credit_iq_ai.Identity.Tokens.{
  TokenType, access, mfa_challenge, Scope, Payload, Codec, TokenSettings, create_access_token,
  create_mfa_challenge_token, home_or,
}
use credit_iq_ai.Identity.Sessions.{
  get_user, verify_credentials, complete_login, collect_permissions, refresh_tokens,
  revoke_refresh_token,
}
use credit_iq_ai.Identity.Mfa.{
  Authenticator, begin_mfa_enrollment, verify_mfa_code_once, confirm_mfa_enrollment,
  disable_mfa as remove_mfa,
}

-- The tables that authentication reads and writes.
pub record Directory : Type 0 where
  pub accounts : Accounts
  pub organizations : List Organization
  pub audit_logs : List AuditLog

unfoldable pub logged : ℕ → ℕ → String → String → ℕ → Snapshot → Directory → Directory
logged org_id actor action entity_type entity_id after dir = record dir {
  audit_logs =
      dir.audit_logs
      ++ (record {
        organization_id = org_id;
        actor_user_id = actor;
        action = action;
        entity_type = entity_type;
        entity_id = entity_id;
        before = nothing;
        after = after;
      }
          ∷ []);
}

-- An entry of a user about its own account.
abbrev pub logged_self : ℕ → ℕ → String → Directory → Directory
logged_self org_id user_id action dir = logged org_id user_id action "user" user_id nothing dir

abbrev pub is_access : TokenType → Bool
is_access access = true
is_access _ = false

abbrev pub is_challenge : TokenType → Bool
is_challenge mfa_challenge = true
is_challenge _ = false

abbrev pub home_org : CurrentUser → ℕ
home_org user = home_or user.home_org_id user.org_id

abbrev pub get_organization : Directory → ℕ → Option Organization
get_organization dir k = find (λ o. o.id == k) dir.organizations

-- `select(User).where(User.id == user_id, User.organization_id == home_org_id)`
abbrev pub is_account : ℕ → ℕ → User → Bool
is_account user_id org_id u = u.id == user_id && u.organization_id == org_id

-- `value if user.org_id == home_org_id else None`
abbrev pub at_home : ℕ → ℕ → Option ℕ → Option ℕ
at_home org home value = if org == home then value else none

unfoldable pub get_active_current_user : Directory → CurrentUser → Result CurrentUser
get_active_current_user dir user = do
  row ←
      or_raise (find (is_account user.user_id (home_org user)) dir.accounts.users)
        (authentication "Account is not active")
  raise_if (not (eq_user_status row.status active)) (authentication "Account is not active")
  raise_if
      (not (user.org_id == home_org user)
        && not (member "platform:admin" (collect_permissions row.roles)))
      (permission_denied "Only a platform administrator can switch organizations")
  organization ←
      or_raise (get_organization dir user.org_id) (authentication "Organization is not active")
  raise_if (not (is_operating organization)) (authentication "Organization is not active")
  ok (record {
    user_id = row.id;
    org_id = user.org_id;
    branch_id = at_home user.org_id (home_org user) row.branch_id;
    applicant_id = at_home user.org_id (home_org user) row.applicant_id;
    roles = map (λ r. r.name) row.roles;
    permissions = collect_permissions row.roles;
    home_org_id = some (home_org user);
  })

-- The body of a login, and the answers, with the cookie that is set.
pub record LoginRequest : Type 0 where
  pub email : String
  pub password : String
  pub organization_id : Option ℕ

pub record LoginResponse : Type 0 where
  pub access_token : Option String
  pub refresh_token : Option String
  pub mfa_required : Bool
  pub challenge_token : Option String
  pub cookie : Option String

abbrev pub not_empty : Option String → Option String
not_empty none = none
not_empty (some text) = if same text "" then none else some text

abbrev pub with_user : ℕ → User → Accounts → Accounts
with_user k user db = record db { users = update_first (λ u. u.id == k) (λ u. user) db.users }

module _ (codec : Codec) (settings : TokenSettings) (otp : Authenticator) (in_body : Bool) where
  unfoldable pub get_current_user : ℕ → Option String → Result CurrentUser
  get_current_user now none = err (authentication "Missing bearer token")
  get_current_user now (some token) = do
    payload ← or_raise (codec.decode now token) (authentication "Invalid or expired token")
    raise_if (not (is_access payload.token_type)) (authentication "Wrong token type")
    scope ← or_raise payload.scope (authentication "Invalid or expired token")
    ok (record {
      user_id = payload.sub;
      org_id = scope.org_id;
      branch_id = scope.branch_id;
      applicant_id = scope.applicant_id;
      roles = scope.roles;
      permissions = scope.perms;
      home_org_id = some scope.home_org_id;
    })

  unfoldable pub authenticate : ℕ → Directory → Option String → Result CurrentUser
  authenticate now dir creds = get_current_user now creds >>= get_active_current_user dir

  unfoldable pub require : ℕ → Directory → Option String → String → Result CurrentUser
  require now dir creds permission = do
    user ← authenticate now dir creds
    raise_if (not (has user permission)) (permission_denied "Requires permission")
    ok user

  unfoldable pub require_any : ℕ → Directory → Option String → List String → Result CurrentUser
  require_any now dir creds permissions = do
    user ← authenticate now dir creds
    raise_if (not (exists (has user) permissions)) (permission_denied "Requires one of")
    ok user

  -- `_token_response` and `_set_refresh_cookie`, for an access and a refresh token.
  abbrev pub token_response : String × String → LoginResponse
  token_response (access_token, refresh_token) = record {
    access_token = some access_token;
    refresh_token = (if in_body then some refresh_token else none);
    mfa_required = false;
    challenge_token = none;
    cookie = some refresh_token;
  }

  -- `jti` and `access_jti` are the identifiers that the call draws.
  unfoldable pub challenge : ℕ → ℕ → Directory → User → LoginResponse × Directory
  challenge now jti dir user = (
    record {
      access_token = none;
      refresh_token = none;
      mfa_required = true;
      challenge_token = some (create_mfa_challenge_token codec settings now jti user.id);
      cookie = none;
    },
    logged_self user.organization_id user.id "auth.mfa.challenge" dir,
  )

  -- The tokens of a user who has proved who it is.
  unfoldable pub admit : ℕ → ℕ → ℕ → Directory → User → String → Result (LoginResponse × Directory)
  admit now access_jti jti dir user action = do
    done ← complete_login codec settings now access_jti jti dir.accounts user
    ok (
      token_response done.0,
      logged_self user.organization_id user.id action (record dir { accounts = done.1 }),
    )

  abbrev pub greet : ℕ → ℕ → ℕ → Directory → User → Result (LoginResponse × Directory)
  greet now access_jti jti dir user =
      if user.mfa_enabled
      then ok (challenge now jti dir user)
      else admit now access_jti jti dir user "auth.login.success"

  unfoldable pub login : ℕ → ℕ → ℕ → Directory → LoginRequest → Result (LoginResponse × Directory)
  login now access_jti jti dir body =
      verify_credentials codec settings dir.accounts body.email body.password body.organization_id
      >>= greet now access_jti jti dir

  unfoldable pub verify_mfa :
      ℕ → ℕ → ℕ → Directory → String → String → Result (LoginResponse × Directory)
  verify_mfa now access_jti jti dir challenge_token code = do
    payload ←
        or_raise (codec.decode now challenge_token)
          (authentication "Invalid or expired MFA challenge")
    raise_if (not (is_challenge payload.token_type)) (authentication "Wrong challenge type")
    user ←
        or_raise (get_user dir.accounts payload.sub)
          (authentication "MFA challenge is no longer valid")
    raise_if (not user.mfa_enabled) (authentication "MFA challenge is no longer valid")
    verified ← verify_mfa_code_once otp now user code
    admit now access_jti jti (record dir { accounts = with_user payload.sub verified dir.accounts })
        verified "auth.mfa.success"

  -- The cookie, or the token of the body.
  abbrev pub token_of : Option String → Option String → Option String
  token_of cookie body = or_else (not_empty cookie) (not_empty body)

  abbrev pub with_accounts : {A : Type 0} → Directory → Run A → Result (A × Directory)
  with_accounts dir (ok a, db) = ok (a, record dir { accounts = db })
  with_accounts dir (err e, db) = err e

  unfoldable pub refresh_login :
      ℕ → ℕ → ℕ → Directory → Option String → Option String → Result (LoginResponse × Directory)
  refresh_login now access_jti jti dir cookie body = do
    token ← or_raise (token_of cookie body) (authentication "Missing refresh token")
    done ← with_accounts dir (
        admin_session dir.accounts
          (refresh_tokens codec settings now access_jti jti dir.accounts token))
    ok (token_response done.0, done.1)

  abbrev pub logged_out : Directory → Option User × Accounts → Directory
  logged_out dir (none, db) = record dir { accounts = db }
  logged_out dir (some user, db) =
      logged_self user.organization_id user.id "auth.logout" (record dir { accounts = db })

  abbrev pub log_out : ℕ → Directory → Option String → Directory
  log_out now dir none = dir
  log_out now dir (some token) =
      logged_out dir (revoke_refresh_token codec settings now dir.accounts token)

  unfoldable pub logout : ℕ → Directory → Option String → Directory
  logout now dir cookie = log_out now dir (not_empty cookie)

  -- An access token scoped to one active tenant, which keeps the home tenant of the caller.
  unfoldable pub switch_organization :
      ℕ → ℕ → Directory → Option String → ℕ → Result (String × Directory)
  switch_organization now jti dir creds organization_id = do
    user ← require now dir creds "platform:admin"
    organization ←
        or_raise (get_organization dir organization_id) (authentication "Organization not found")
    raise_if (not (is_operating organization)) (authentication "Organization is not active")
    ok (
      create_access_token codec settings now jti user.user_id organization.id none none user.roles
          user.permissions (some (home_org user)),
      logged organization.id user.user_id "platform.organization_context.switch" "organization"
          organization.id (organization_context (home_org user)) dir,
    )

  -- The row of the caller, in a session of its home tenant.
  abbrev pub own_row : Directory → CurrentUser → Result User
  own_row dir user = or_raise (get_user dir.accounts user.user_id) (authentication "User not found")

  -- The endpoints under /auth/mfa: a change of the caller's own row, with its audit entry.
  unfoldable pub change_own :
      ℕ → Directory → Option String → (User → Result User) → String → Result Directory
  change_own now dir creds change action = do
    user ← authenticate now dir creds
    row ← own_row dir user
    changed ← change row
    ok (
        logged_self (home_org user) user.user_id action
          (record dir { accounts = with_user row.id changed dir.accounts }))

  unfoldable pub enroll_mfa : ℕ → Directory → Option String → String → Result Directory
  enroll_mfa now dir creds secret =
      change_own now dir creds (begin_mfa_enrollment otp secret) "auth.mfa.enrollment.started"

  unfoldable pub confirm_mfa : ℕ → Directory → Option String → String → Result Directory
  confirm_mfa now dir creds code =
      change_own now dir creds (λ row. confirm_mfa_enrollment otp now row code) "auth.mfa.enabled"

  unfoldable pub disable_mfa : ℕ → Directory → Option String → String → Result Directory
  disable_mfa now dir creds code =
      change_own now dir creds (λ row. remove_mfa otp now row code) "auth.mfa.disabled"
