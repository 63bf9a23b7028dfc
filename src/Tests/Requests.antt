-- ===== src/Tests/Requests.antt =====
-- Requests of one administrator: with a live token, after the account is disabled, and through a
-- second factor.
use credit_iq_ai.Prelude.{
  ◌≡◌, refl, true, false, ℕ, none, some, [], ◌∷◌, arith, ◌==◌, if◌then◌else◌,
}
use credit_iq_ai.Prelude.Text.{same}
use credit_iq_ai.Errors.{Result, ok, err, AppError}
use credit_iq_ai.Access.{CurrentUser, has, member}
use credit_iq_ai.Identity.Users.{UserStatus, active, disabled, Role, User, Accounts, admin_session}
use credit_iq_ai.Identity.Tokens.{
  TokenType, access, mfa_challenge, Payload, Codec, TokenSettings, create_access_token,
  create_refresh_token, create_mfa_challenge_token,
}
use credit_iq_ai.Identity.Sessions.{
  verify_credentials, complete_login, issue_tokens, revoke_all, revoke_refresh_token,
}
use credit_iq_ai.Identity.Administration.{update_user_status, active_admins}
use credit_iq_ai.Identity.Mfa.{Authenticator, decrypt_mfa_secret, verify_mfa_code_once}
use credit_iq_ai.Identity.Requests.{
  Directory, LoginRequest, LoginResponse, logged, get_active_current_user, get_current_user,
  authenticate, require, challenge, admit, login, verify_mfa,
}
use credit_iq_ai.Tests.Sample.{sample_organization}
use credit_iq_ai.Identity.Requests.Live.{require-IsLive}
use credit_iq_ai.Identity.Requests.Revoked.{at_once, after, disabled_is_refused}
use credit_iq_ai.Identity.Replay.{logs_out}
use credit_iq_ai.Identity.Requests.Challenge.{
  IsGreeted, IsVerified, login-IsGreeted, verify_mfa-IsVerified,
}

unfoldable pub requests : Unit {0}
unfolding same has member admin_session create_access_token create_refresh_token
    create_mfa_challenge_token verify_credentials complete_login issue_tokens revoke_all
    update_user_status active_admins decrypt_mfa_secret verify_mfa_code_once logged
    get_active_current_user get_current_user authenticate require challenge admit login verify_mfa
requests = tt

abbrev administrator : Role
administrator = record {
  id = 1;
  organization_id = none;
  name = "Administrator";
  is_system = true;
  permissions = "user:manage" ∷ [];
}

abbrev account : ℕ → UserStatus → User
account k status = record {
  id = k;
  organization_id = 1;
  branch_id = none;
  applicant_id = none;
  email = "a@b.c";
  password_hash = "H";
  status = status;
  roles = administrator ∷ [];
  mfa_enabled = true;
  mfa_secret_encrypted = some "S";
  mfa_last_verified_step = none;
  last_login_at = none;
}

abbrev directory : Directory
directory = record {
  accounts = record {
    users = account 1 active ∷ account 2 active ∷ [];
    refresh_tokens = [];
    roles = administrator ∷ [];
    permissions = "user:manage" ∷ [];
  };
  organizations = sample_organization ∷ [];
  audit_logs = [];
}

abbrev claims : TokenType → Payload
claims t = record {
  sub = 1;
  token_type = t;
  jti = 5;
  exp = 1000;
  scope = some (record {
    org_id = 1;
    home_org_id = 1;
    branch_id = none;
    applicant_id = none;
    roles = [];
    perms = "role:manage" ∷ [];
  });
}

-- Two texts are tokens: one gives access, the other answers a challenge.
abbrev codec : Codec
codec = record {
  encode = λ p. "N";
  decode = λ now t.
      (if same t "A"
        then some (claims access)
        else if same t "C"
        then some (claims mfa_challenge)
        else none);
  hash_token = λ t. t;
  verify_password = λ p h. same h "H";
}

abbrev settings : TokenSettings
settings = record {
  access_token_expire_minutes = 15;
  refresh_token_expire_days = 7;
  mfa_challenge_expire_minutes = 5;
}

abbrev otp : Authenticator
otp = record {
  interval = 30;
  at = λ secret time. if time == 90 then "123456" else "000000";
  encrypt = λ s. s;
  decrypt = λ s. some s;
}

abbrev caller : CurrentUser
caller = record {
  user_id = 1;
  org_id = 1;
  branch_id = none;
  applicant_id = none;
  roles = "Administrator" ∷ [];
  permissions = "user:manage" ∷ [];
  home_org_id = some 1;
}

-- The permission is that of the row: the token claims another one.
require-IsLive_example : has caller "user:manage" ≡ true
unfolding requests
require-IsLive_example =
    (require-IsLive codec settings otp true 100 directory (some "A") "user:manage" {u = caller}
      refl).1

abbrev value_or : {A : Type 0} → A → Result A → A
value_or default (ok a) = a
value_or default (err e) = default

abbrev change : Result (User × Accounts)
change = update_user_status 100 directory.accounts (record caller { user_id = 2 }) 1 disabled

abbrev changed : User × Accounts
changed = value_or (account 1 active, directory.accounts) change

-- A logout follows.
abbrev left : Accounts
left = (revoke_refresh_token codec settings 150 changed.1 "T").1

disabled_is_refused_example :
    (e : AppError) × (get_active_current_user (record directory { accounts = left }) caller ≡ err e)
unfolding requests
disabled_is_refused_example =
    disabled_is_refused codec settings 100 directory.accounts (record caller { user_id = 2 }) 1
      {r = changed} (omega arith) refl (record directory { accounts = left })
      (after at_once (logs_out 150 "T") tt) caller refl

abbrev body : LoginRequest
body = record { email = "a@b.c"; password = "pw"; organization_id = some 1 }

abbrev none_yet : LoginResponse × Directory
none_yet = (
  record {
    access_token = none;
    refresh_token = none;
    mfa_required = false;
    challenge_token = none;
    cookie = none;
  },
  directory,
)

abbrev greeted : LoginResponse × Directory
greeted = value_or none_yet (
    login codec settings otp true 100 8 9
      (record directory { accounts = record directory.accounts { users = account 1 active ∷ [] } })
      body)

login-IsGreeted_example :
    IsGreeted codec settings otp true 100 9
      (record directory { accounts = record directory.accounts { users = account 1 active ∷ [] } })
      body
      greeted
unfolding requests
login-IsGreeted_example =
    login-IsGreeted codec settings otp true 100 8 9
      (record directory { accounts = record directory.accounts { users = account 1 active ∷ [] } })
      body {r = greeted} refl

abbrev verified : LoginResponse × Directory
verified = value_or none_yet (verify_mfa codec settings otp true 100 8 9 directory "C" "123456")

verify_mfa-IsVerified_example :
    IsVerified codec settings otp true 100 directory "C" "123456" verified
unfolding requests
verify_mfa-IsVerified_example =
    verify_mfa-IsVerified codec settings otp true 100 8 9 directory "C" "123456" {r = verified} refl
