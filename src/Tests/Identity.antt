-- ===== src/Tests/Identity.antt =====
-- Sessions, one-time codes and accounts on one administrator.
use credit_iq_ai.Prelude.{
  ◌≡◌, refl, sym, ◌∙◌, true, false, ℕ, String, none, some, Option, [], ◌∷◌, ◌≤◌, arith,
  if◌then◌else◌, ◌==◌,
}
use credit_iq_ai.Prelude.Text.{same}
use credit_iq_ai.Errors.{Result, ok, err, AppError}
use credit_iq_ai.Access.{CurrentUser, has, member}
use credit_iq_ai.Identity.Users.{
  active, disabled, Role, User, RefreshToken, Accounts, Run, admin_session,
}
use credit_iq_ai.Identity.Tokens.{
  Payload, Codec, TokenSettings, refresh, create_access_token, create_refresh_token,
}
use credit_iq_ai.Identity.Sessions.{refresh_tokens, session_of, rotate, issue_tokens, revoke_all}
use credit_iq_ai.Identity.Administration.{update_user_status, active_admins}
use credit_iq_ai.Identity.Admins.{update_user_status_keeps_admin}
use credit_iq_ai.Prelude.Text.{join_words}
use credit_iq_ai.Identity.Roles.{
  Casing, create_role, ensure_role_name_available, resolve_custom_permissions,
}
use credit_iq_ai.Identity.Grants.{IsBounded, create_role-IsBounded}
use credit_iq_ai.Identity.Replay.{here}
use credit_iq_ai.Identity.Once.{refresh_tokens_once}
use credit_iq_ai.Identity.Mfa.{Authenticator, decrypt_mfa_secret, verify_mfa_code_once}

unfoldable pub identity : Unit {0}
unfolding admin_session same has member create_access_token create_refresh_token refresh_tokens
    session_of rotate issue_tokens revoke_all update_user_status active_admins decrypt_mfa_secret
    verify_mfa_code_once
identity = tt

abbrev role : String → Role
role name = record {
  id = 1;
  organization_id = none;
  name = name;
  is_system = true;
  permissions = [];
}

abbrev account : ℕ → String → User
account k name = record {
  id = k;
  organization_id = 1;
  branch_id = none;
  applicant_id = none;
  email = "a@b.c";
  password_hash = "";
  status = active;
  roles = role name ∷ [];
  mfa_enabled = true;
  mfa_secret_encrypted = some "S";
  mfa_last_verified_step = none;
  last_login_at = none;
}

abbrev session : Option ℕ → RefreshToken
session revoked = record {
  user_id = 1;
  jti = 5;
  token_hash = "T";
  expires_at = 1000;
  revoked_at = revoked;
  replaced_by = none;
}

abbrev accounts : Option ℕ → Accounts
accounts revoked = record {
  users = account 1 "Administrator" ∷ account 2 "Loan Officer" ∷ [];
  refresh_tokens = session revoked ∷ [];
  roles = role "Administrator" ∷ role "Loan Officer" ∷ [];
  permissions = "user:manage" ∷ "loan:approve" ∷ [];
}

abbrev claims : Payload
claims = record { sub = 1; token_type = refresh; jti = 5; exp = 1000; scope = none }

-- Knows one token.
abbrev decode_one : String → Option Payload
decode_one t = if same t "T" then some claims else none

abbrev codec : Codec
codec = record {
  encode = λ p. "N";
  decode = λ now t. decode_one t;
  hash_token = λ t. t;
  verify_password = λ p h. false;
}

abbrev settings : TokenSettings
settings = record {
  access_token_expire_minutes = 15;
  refresh_token_expire_days = 7;
  mfa_challenge_expire_minutes = 5;
}

abbrev rotated : Run (String × String)
rotated = refresh_tokens codec settings 100 8 9 (accounts none) "T"

decode_stable :
    (n n' : ℕ) (t : String) (p p' : Payload)
    → codec.decode n t ≡ some p
    → codec.decode n' t ≡ some p'
    → p ≡ p'
decode_stable n n' t p p' h h' = let both : some p ≡ some p' = sym h ∙ h' in cc

refresh_tokens_once_example :
    (e : AppError) × ((refresh_tokens codec settings 200 10 11 rotated.1 "T").0 ≡ err e)
unfolding identity
refresh_tokens_once_example =
    refresh_tokens_once codec settings decode_stable 100 8 9 (accounts none) "T" refl here 200 10 11

abbrev otp : Authenticator
otp = record {
  interval = 30;
  at = λ secret time. if time == 90 then "123456" else "000000";
  encrypt = λ s. s;
  decrypt = λ s. some s;
}

abbrev administrator : CurrentUser
administrator = record {
  user_id = 1;
  org_id = 1;
  branch_id = none;
  applicant_id = none;
  roles = "Administrator" ∷ [];
  permissions = "user:manage" ∷ [];
  home_org_id = none;
}

abbrev value_of : {A : Type 0} → A → Result A → A
value_of d (ok a) = a
value_of d (err e) = d

update_user_status_keeps_admin_example :
    1
    ≤ active_admins 1
        (value_of
          (account 2 "Loan Officer", accounts none)
          (update_user_status 100 (accounts none) administrator 2 disabled)).1.users
unfolding identity
update_user_status_keeps_admin_example =
    update_user_status_keeps_admin 100 (accounts none) administrator 2 disabled refl refl
      (omega arith, (omega arith, tt)) (omega arith)

-- Texts that are in lower case already.
abbrev casing : Casing
casing = record { lower = λ s. s; sql_lower = λ s. s; casefold = λ s. s }

words_joined : join_words "  Team   Lead " ≡ "Team Lead"
unfolding join_words
words_joined = refl

abbrev created_role : Role × Accounts
created_role =
    value_of (role "", accounts none)
      (create_role casing 30 (accounts none) administrator " Team  Lead" ("user:manage" ∷ []))

create_role-IsBounded_example :
    IsBounded casing (accounts none) administrator " Team  Lead" created_role
unfolding identity create_role ensure_role_name_available resolve_custom_permissions join_words
create_role-IsBounded_example =
    create_role-IsBounded casing 30 (accounts none) administrator " Team  Lead" ("user:manage" ∷ [])
      refl
