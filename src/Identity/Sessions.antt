-- ===== src/Identity/Sessions.antt =====
-- backend/app/modules/identity/service.py: login, and the rotation and revocation of refresh
-- tokens.
use Prim.Native.String.{slice}
use credit_iq_ai.Prelude.{
  ℕ, String, Bool, true, false, not, ◌&&◌, Option, some, none, is_none, List, [], ◌∷◌, ◌++◌, ◌==◌,
  leb, find, select, update_first, update_where, map, or_else, if◌then◌else◌,
}
use credit_iq_ai.Errors.{Result, ok, err, raise_if, or_raise, ◌>>=◌, ◌>>◌, authentication}
use credit_iq_ai.Prelude.Text.{same}
use credit_iq_ai.Identity.Users.{
  active, disabled, eq_user_status, Role, User, RefreshToken, Accounts, Run,
}
use credit_iq_ai.Identity.Tokens.{
  TokenType, refresh, Payload, Codec, TokenSettings, create_access_token, create_refresh_token,
}

abbrev pub get_user : Accounts → ℕ → Option User
get_user db k = find (λ u. u.id == k) db.users

abbrev pub has_jti : ℕ → RefreshToken → Bool
has_jti j t = t.jti == j

-- A live token of a user.
abbrev pub is_open : ℕ → RefreshToken → Bool
is_open user_id t = t.user_id == user_id && is_none t.revoked_at

abbrev pub revoke : ℕ → RefreshToken → RefreshToken
revoke now t = record t { revoked_at = some now }

-- `update({"revoked_at": utcnow()})` on the live tokens of a user.
unfoldable pub revoke_all : ℕ → ℕ → Accounts → Accounts
revoke_all now user_id db = record db {
  refresh_tokens = update_where (is_open user_id) (revoke now) db.refresh_tokens;
}

-- `_collect_permissions`, without the removal of duplicates and the sorting of the set.
abbrev pub collect_permissions : List Role → List String
collect_permissions [] = []
collect_permissions (r ∷ rs) = r.permissions ++ collect_permissions rs

abbrev pub is_refresh : TokenType → Bool
is_refresh refresh = true
is_refresh _ = false

-- `now` is the time of the call; `jti` and `access_jti` are the identifiers it draws.
module _ (codec : Codec) (settings : TokenSettings) where
  unfoldable pub verify_credentials : Accounts → String → String → Option ℕ → Result User
  verify_credentials db email password org_id =
      one_user (select (λ u. same u.email email && in_org org_id u) db.users)
    where
      in_org : Option ℕ → User → Bool
      in_org none u = true
      in_org (some k) u = u.organization_id == k

      one_user : List User → Result User
      one_user (u ∷ []) = do
        raise_if (not (codec.verify_password password u.password_hash))
            (authentication "Invalid credentials")
        raise_if (eq_user_status u.status disabled) (authentication "Account disabled")
        ok u
      one_user _ = err (authentication "Invalid credentials")

  abbrev pub new_row : ℕ → User → ℕ → RefreshToken
  new_row now user jti = record {
    user_id = user.id;
    jti = jti;
    token_hash = codec.hash_token (create_refresh_token codec settings now user.id jti).0;
    expires_at = (create_refresh_token codec settings now user.id jti).1;
    revoked_at = none;
    replaced_by = none;
  }

  -- The access and the refresh token.
  unfoldable pub issue_tokens : ℕ → ℕ → ℕ → Accounts → User → (String × String) × Accounts
  issue_tokens now access_jti jti db user = (
    (
      create_access_token codec settings now access_jti user.id user.organization_id user.branch_id
          user.applicant_id (map (λ r. r.name) user.roles) (collect_permissions user.roles) none,
      (create_refresh_token codec settings now user.id jti).0,
    ),
    record db { refresh_tokens = db.refresh_tokens ++ (new_row now user jti ∷ []) },
  )

  unfoldable pub complete_login :
      ℕ → ℕ → ℕ → Accounts → User → Result ((String × String) × Accounts)
  complete_login now access_jti jti db user = do
    raise_if (not (eq_user_status user.status active)) (authentication "Account is not active")
    ok (
        issue_tokens now access_jti jti
          (record db {
            users =
                update_first (λ u. u.id == user.id) (λ u. record u { last_login_at = some now })
                  db.users;
          })
          user)

  -- The row that a token answers to, once its type, its digest and its expiry are checked.
  unfoldable pub session_of : ℕ → Accounts → String → Result RefreshToken
  session_of now db token = do
    payload ← or_raise (codec.decode now token) (authentication "Invalid refresh token")
    raise_if (not (is_refresh payload.token_type)) (authentication "Wrong token type")
    row ←
        or_raise (find (has_jti payload.jti) db.refresh_tokens)
          (authentication "Unknown refresh token")
    raise_if (not (same row.token_hash (codec.hash_token token)))
        (authentication "Refresh token does not match its session")
    raise_if (leb row.expires_at now) (authentication "Refresh token expired")
    ok row

  -- `record.revoked_at = utcnow()` and `record.replaced_by = ...`
  abbrev pub replace : ℕ → String → RefreshToken → RefreshToken
  replace now hash t = record t { revoked_at = some now; replaced_by = some (slice hash 0 64) }

  abbrev pub active_user : Accounts → ℕ → Result User
  active_user db k = do
    user ← or_raise (get_user db k) (authentication "Account is not active")
    raise_if (not (eq_user_status user.status active)) (authentication "Account is not active")
    ok user

  -- The rotation of a live row.
  unfoldable pub rotate :
      ℕ → ℕ → ℕ → Accounts → RefreshToken → Result ((String × String) × Accounts)
  rotate now access_jti jti db row = do
    user ← active_user db row.user_id
    let issued = issue_tokens now access_jti jti db user
    ok (
      issued.0,
      record issued.1 {
        refresh_tokens =
            update_first (has_jti row.jti) (replace now (codec.hash_token issued.0.1))
              issued.1.refresh_tokens;
      },
    )

  abbrev pub settle_session : {A : Type 0} → Accounts → Result (A × Accounts) → Run A
  settle_session db (ok (a, after)) = (ok a, after)
  settle_session db (err e) = (err e, db)

  abbrev pub rotate_or_kill : ℕ → ℕ → ℕ → Accounts → Option ℕ → RefreshToken → Run (String × String)
  rotate_or_kill now access_jti jti db none row =
      settle_session db (rotate now access_jti jti db row)
  rotate_or_kill now access_jti jti db (some at) row = (
    err (authentication "Refresh token reuse detected; sessions revoked"),
    revoke_all now row.user_id db,
  )

  abbrev pub refresh_session : ℕ → ℕ → ℕ → Accounts → Result RefreshToken → Run (String × String)
  refresh_session now access_jti jti db (err e) = (err e, db)
  refresh_session now access_jti jti db (ok row) =
      rotate_or_kill now access_jti jti db row.revoked_at row

  unfoldable pub refresh_tokens : ℕ → ℕ → ℕ → Accounts → String → Run (String × String)
  refresh_tokens now access_jti jti db token =
      refresh_session now access_jti jti db (session_of now db token)

  -- The row whose digest a token has.
  abbrev matching : String → Option RefreshToken → Option RefreshToken
  matching token none = none
  matching token (some row) =
      if same row.token_hash (codec.hash_token token) then some row else none

  abbrev pub revocable_by : Accounts → String → Option Payload → Option RefreshToken
  revocable_by db token none = none
  revocable_by db token (some payload) =
      if is_refresh payload.token_type
      then matching token (find (has_jti payload.jti) db.refresh_tokens)
      else none

  abbrev pub revoke_live : ℕ → RefreshToken → RefreshToken
  revoke_live now t = record t { revoked_at = or_else t.revoked_at (some now) }

  abbrev pub revoke_found : ℕ → Accounts → Option RefreshToken → Option User × Accounts
  revoke_found now db none = (none, db)
  revoke_found now db (some row) = (
    get_user db row.user_id,
    record db {
      refresh_tokens = update_first (has_jti row.jti) (revoke_live now) db.refresh_tokens;
    },
  )

  unfoldable pub revoke_refresh_token : ℕ → Accounts → String → Option User × Accounts
  revoke_refresh_token now db token =
      revoke_found now db (revocable_by db token (codec.decode now token))
