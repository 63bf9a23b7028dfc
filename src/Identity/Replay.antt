-- ===== src/Identity/Replay.antt =====
-- A refresh token works once: the rotation that accepts it revokes its row for good, whatever
-- logins, rotations, logouts and changes of accounts follow.
use credit_iq_ai.Prelude.{
  ◌≡◌, refl, subst, ℕ, String, Bool, true, false, not, Option, some, none, is_none, List, ◌++◌,
  arith, inl, inr, find, update_first, find-append, find-update_where, find-update_first,
  if◌then◌else◌,
}
use credit_iq_ai.Errors.{Result, ok, err, raise_if, >>=-ok_inv, ok-injective}
use credit_iq_ai.Access.{CurrentUser}
use credit_iq_ai.Identity.Users.{
  UserStatus, invited, active, disabled, eq_user_status, User, RefreshToken, Accounts, Run,
  admin_session,
}
use credit_iq_ai.Identity.Tokens.{Codec, TokenSettings}
use credit_iq_ai.Identity.Sessions.{
  has_jti, is_open, revoke, revoke_all, issue_tokens, complete_login, session_of, active_user,
  rotate, settle_session, rotate_or_kill, refresh_session, refresh_tokens, revoke_live,
  revoke_found, revoke_refresh_token,
}
use credit_iq_ai.Identity.Admins.{update_user_status-IsChanged}
use credit_iq_ai.Identity.Administration.{update_user_status, end_sessions}

-- The row that a token identifier finds is revoked.
pub record IsDead (tokens : List RefreshToken) (j : ℕ) : Type 0 where
  pub row : RefreshToken
  pub found : find (has_jti j) tokens ≡ some row
  pub is_revoked : is_none row.revoked_at ≡ false

append-IsDead : (ts new : List RefreshToken) {j : ℕ} → IsDead ts j → IsDead (ts ++ new) j
append-IsDead ts new {j} d = record {
  row = d.row;
  found = find-append (has_jti j) ts new d.found;
  is_revoked = d.is_revoked;
}

-- Writes that keep identifiers and revocations.
update_first-IsDead :
    (q : RefreshToken → Bool) (f : RefreshToken → RefreshToken) (ts : List RefreshToken) {j : ℕ}
    → ((t : RefreshToken) → has_jti j (f t) ≡ has_jti j t)
    → ((t : RefreshToken) → is_none t.revoked_at ≡ false → is_none (f t).revoked_at ≡ false)
    → IsDead ts j
    → IsDead (update_first q f ts) j
update_first-IsDead q f ts {j} keeps_jti keeps_revoked d =
    elim (find-update_first (has_jti j) q f ts keeps_jti d.found) [
      | inl same_row ↦ record { row = d.row; found = same_row; is_revoked = d.is_revoked }
      | inr written ↦ record {
        row = f d.row;
        found = written;
        is_revoked = keeps_revoked d.row d.is_revoked;
      }
    ]

revoke_all-IsDead :
    (now user_id : ℕ) (db : Accounts) {j : ℕ}
    → IsDead db.refresh_tokens j
    → IsDead (revoke_all now user_id db).refresh_tokens j
unfolding revoke_all
revoke_all-IsDead now user_id db {j} d = record {
  row = if is_open user_id d.row then revoke now d.row else d.row;
  found =
      find-update_where (has_jti j) (is_open user_id) (revoke now) db.refresh_tokens (λ t. refl)
        d.found;
  is_revoked = still (is_open user_id d.row);
}
  where
    still : (b : Bool) → is_none (if b then revoke now d.row else d.row).revoked_at ≡ false
    still true = refl
    still false = d.is_revoked

end_sessions-IsDead :
    (status : UserStatus) (now k : ℕ) (db : Accounts) {j : ℕ}
    → IsDead db.refresh_tokens j
    → IsDead (end_sessions status now k db).refresh_tokens j
end_sessions-IsDead disabled now k db d = revoke_all-IsDead now k db d
end_sessions-IsDead invited now k db d = d
end_sessions-IsDead active now k db d = d

update_user_status-IsDead :
    (now : ℕ) (db : Accounts) (actor : CurrentUser) (k : ℕ) (status : UserStatus)
    {r : User × Accounts} {j : ℕ}
    → update_user_status now db actor k status ≡ ok r
    → IsDead db.refresh_tokens j
    → IsDead r.1.refresh_tokens j
update_user_status-IsDead now db actor k status {r} {j} h d =
    let c = update_user_status-IsChanged now db actor k status h in
    subst (λ x. IsDead x.1.refresh_tokens j) c.written
      (end_sessions-IsDead status now c.target.id _ d)

module _ (codec : Codec) (settings : TokenSettings) where
  rotate-IsDead :
      (now access_jti jti : ℕ) (db : Accounts) (row : RefreshToken)
      {r : (String × String) × Accounts} {j : ℕ}
      → rotate codec settings now access_jti jti db row ≡ ok r
      → IsDead db.refresh_tokens j
      → IsDead r.1.refresh_tokens j
  unfolding rotate issue_tokens
  rotate-IsDead now access_jti jti db row {r} {j} h d =
      let (user, hu, h1) = >>=-ok_inv (active_user codec settings db row.user_id) _ h in
      subst (λ x. IsDead x.1.refresh_tokens j) (ok-injective h1)
        (update_first-IsDead (has_jti row.jti) _ _ (λ t. refl) (λ t e. refl)
          (append-IsDead db.refresh_tokens _ d))

  -- A rotation that raises leaves the tables as they were.
  settle_session-IsDead :
      (db : Accounts) (res : Result ((String × String) × Accounts)) {r : Run (String × String)}
      {j : ℕ}
      → admin_session db (settle_session codec settings db res) ≡ r
      → ((a : (String × String) × Accounts) → res ≡ ok a → IsDead a.1.refresh_tokens j)
      → IsDead db.refresh_tokens j
      → IsDead r.1.refresh_tokens j
  unfolding admin_session
  settle_session-IsDead db (err e) {r} {j} h done d = subst (λ x. IsDead x.1.refresh_tokens j) h d
  settle_session-IsDead db (ok a) {r} {j} h done d =
      subst (λ x. IsDead x.1.refresh_tokens j) h (done a refl)

  rotate_or_kill-IsDead :
      (now access_jti jti : ℕ) (db : Accounts) (revoked : Option ℕ) (row : RefreshToken)
      {r : Run (String × String)} {j : ℕ}
      → admin_session db (rotate_or_kill codec settings now access_jti jti db revoked row) ≡ r
      → IsDead db.refresh_tokens j
      → IsDead r.1.refresh_tokens j
  unfolding admin_session
  rotate_or_kill-IsDead now access_jti jti db none row h d =
      settle_session-IsDead db (rotate codec settings now access_jti jti db row) h
        (λ a e. rotate-IsDead now access_jti jti db row e d) d
  rotate_or_kill-IsDead now access_jti jti db (some at) row {r} {j} h d =
      subst (λ x. IsDead x.1.refresh_tokens j) h d

  refresh_session-IsDead :
      (now access_jti jti : ℕ) (db : Accounts) (session : Result RefreshToken)
      {r : Run (String × String)} {j : ℕ}
      → admin_session db (refresh_session codec settings now access_jti jti db session) ≡ r
      → IsDead db.refresh_tokens j
      → IsDead r.1.refresh_tokens j
  unfolding admin_session
  refresh_session-IsDead now access_jti jti db (err e) {r} {j} h d =
      subst (λ x. IsDead x.1.refresh_tokens j) h d
  refresh_session-IsDead now access_jti jti db (ok row) h d =
      rotate_or_kill-IsDead now access_jti jti db row.revoked_at row h d

  revoke_found-IsDead :
      (now : ℕ) (db : Accounts) (found : Option RefreshToken) {j : ℕ}
      → IsDead db.refresh_tokens j
      → IsDead (revoke_found codec settings now db found).1.refresh_tokens j
  revoke_found-IsDead now db none d = d
  revoke_found-IsDead now db (some row) {j} d =
      update_first-IsDead (has_jti row.jti) (revoke_live codec settings now) db.refresh_tokens
        (λ t. refl) (λ t e. ground arith) d

  -- One committed request of the identity endpoints that writes sessions.
  pub data Step : Accounts → Accounts → Type 0 where
    logs_in :
        {db db' : Accounts} (now access_jti jti : ℕ) (user : User) (tokens : String × String)
        → complete_login codec settings now access_jti jti db user ≡ ok (tokens, db')
        → Step db db'
    refreshes :
        {db db' : Accounts} (now access_jti jti : ℕ) (token : String)
        (answer : Result (String × String))
        → admin_session db (refresh_tokens codec settings now access_jti jti db token)
          ≡ (answer, db')
        → Step db db'
    logs_out :
        {db : Accounts} (now : ℕ) (token : String)
        → Step db (revoke_refresh_token codec settings now db token).1
    changes_status :
        {db db' : Accounts} (now : ℕ) (actor : CurrentUser) (k : ℕ) (status : UserStatus)
        (user : User)
        → update_user_status now db actor k status ≡ ok (user, db')
        → Step db db'

  pub data Reach (start : Accounts) : Accounts → Type 0 where
    here : Reach start start
    next : {db db' : Accounts} → Reach start db → Step db db' → Reach start db'

  Step-IsDead :
      {db db' : Accounts} {j : ℕ}
      → Step db db'
      → IsDead db.refresh_tokens j
      → IsDead db'.refresh_tokens j
  unfolding complete_login issue_tokens refresh_tokens revoke_refresh_token
  Step-IsDead {db} {j = j} (logs_in now access_jti jti user tokens h) d =
      let (u, ha, h1) = >>=-ok_inv (raise_if (not (eq_user_status user.status active)) _) _ h in
      subst (λ x. IsDead x.1.refresh_tokens j) (ok-injective h1)
        (append-IsDead db.refresh_tokens _ d)
  Step-IsDead {db} (refreshes now access_jti jti token answer h) d =
      refresh_session-IsDead now access_jti jti db (session_of codec settings now db token) h d
  Step-IsDead {db} (logs_out now token) d = revoke_found-IsDead now db _ d
  Step-IsDead {db} (changes_status now actor k status user h) d =
      update_user_status-IsDead now db actor k status h d

  pub Reach-IsDead :
      {start db : Accounts} {j : ℕ}
      → Reach start db
      → IsDead start.refresh_tokens j
      → IsDead db.refresh_tokens j
  Reach-IsDead here d = d
  Reach-IsDead (next before step) d = Step-IsDead step (Reach-IsDead before d)
