-- ===== src/Identity/Requests/Revoked.antt =====
-- Disabling an account ends its access at once, also for tokens that are still valid.
use credit_iq_ai.Prelude.{
  ◌≡◌, refl, sym, ap, subst, ◌∙◌, ℕ, ◌≤◌, String, Bool, true, false, not, ◌&&◌, ◌==◌, Option, none,
  some, List, [], ◌∷◌, find, select, length, exists, update_first, arith, inl, inr, Bool-cases,
}
use credit_iq_ai.Errors.{Result, ok, err, AppError, refused, raise_if, >>=-ok_inv, ok-injective}
use credit_iq_ai.Access.{CurrentUser}
use credit_iq_ai.Identity.Users.{
  active, disabled, eq_user_status, User, RefreshToken, Accounts, Run, admin_session,
}
use credit_iq_ai.Identity.Tokens.{Codec, TokenSettings}
use credit_iq_ai.Identity.Sessions.{
  issue_tokens, complete_login, session_of, active_user, rotate, settle_session, rotate_or_kill,
  refresh_session, refresh_tokens, revoke_found, revoke_refresh_token,
}
use credit_iq_ai.Identity.Administration.{update_user_status, with_status}
use credit_iq_ai.Identity.Admins.{update_user_status-IsChanged, end_sessions-users}
use credit_iq_ai.Identity.Replay.{Step, logs_in, refreshes, logs_out, changes_status}
use credit_iq_ai.Identity.Requests.{Directory, is_account, get_active_current_user}
use credit_iq_ai.Identity.Requests.Live.{get_active_current_user-IsLive}

abbrev pub has_id : ℕ → User → Bool
has_id k u = u.id == k

-- The primary key of the table.
abbrev pub IsKey : ℕ → List User → Type 0
IsKey k us = length (select (has_id k) us) ≤ 1

abbrev is_in : ℕ → User → Bool
is_in k u = has_id k u && eq_user_status u.status active

-- No active account has the identifier.
abbrev IsOut : ℕ → List User → Type 0
IsOut k us = exists (is_in k) us ≡ false

counted-IsOut : (k : ℕ) (us : List User) → length (select (has_id k) us) ≡ 0 → IsOut k us
counted-IsOut k [] h = refl
counted-IsOut k (x ∷ xs) h = ground (arith, counted-IsOut k xs)

disabled-IsOut :
    (k : ℕ) (us : List User)
    → IsKey k us
    → IsOut k (update_first (has_id k) (with_status disabled) us)
disabled-IsOut k [] key = refl
disabled-IsOut k (x ∷ xs) key = elim (Bool-cases (has_id k x)) [
  | inl hit ↦
      let counted : length (x ∷ select (has_id k) xs) ≤ 1 = rw hit at key in
      let rest = counted-IsOut k xs (omega arith) in
      let passed : is_in k (with_status disabled x) ≡ false = ground arith in
      rw hit (rw passed rest)
  | inr miss ↦
      let rest = disabled-IsOut k xs (rw miss at key) in
      let passed : is_in k x ≡ false = rw miss refl in rw miss (rw passed rest)
]

update_first-IsOut :
    (k : ℕ) (q : User → Bool) (f : User → User) (us : List User)
    → ((u : User) → q u ≡ true → is_in k u ≡ false → is_in k (f u) ≡ false)
    → IsOut k us
    → IsOut k (update_first q f us)
update_first-IsOut k q f [] stays out = refl
update_first-IsOut k q f (x ∷ xs) stays out =
    let first : is_in k x ≡ false = ground arith in
    let later : IsOut k xs = ground arith in
    elim (Bool-cases (q x)) [
      | inl hit ↦ let now_out = stays x hit first in rw hit (rw (now_out, later) refl)
      | inr miss ↦
          let rest = update_first-IsOut k q f xs stays later in rw miss (rw (first, rest) refl)
    ]

found_is_in :
    (k home : ℕ) (us : List User) {row : User}
    → find (is_account k home) us ≡ some row
    → eq_user_status row.status active ≡ true
    → exists (is_in k) us ≡ true
found_is_in k home [] h live = cc
found_is_in k home (x ∷ xs) {row} h live = elim (Bool-cases (is_account k home x)) [
  | inl hit ↦
      let same_row : x ≡ row = ground arith in
      let live' : eq_user_status x.status active ≡ true =
        subst (λ u. eq_user_status u.status active ≡ true) (sym same_row) live in
      let named : has_id k x ≡ true = ground arith in
      let first : is_in k x ≡ true = rw (named, live') refl in rw first refl
  | inr miss ↦ let rest = found_is_in k home xs (rw miss at h) live in ground arith
]

module _ (codec : Codec) (settings : TokenSettings) where
  rotate-users :
      (now access_jti jti : ℕ) (db : Accounts) (row : RefreshToken)
      {r : (String × String) × Accounts}
      → rotate codec settings now access_jti jti db row ≡ ok r
      → db.users ≡ r.1.users
  unfolding rotate issue_tokens
  rotate-users now access_jti jti db row h =
      let (user, hu, h1) = >>=-ok_inv (active_user codec settings db row.user_id) _ h in
      ap (λ x. x.1.users) (ok-injective h1)

  settle_session-users :
      (db : Accounts) (res : Result ((String × String) × Accounts)) {r : Run (String × String)}
      → admin_session db (settle_session codec settings db res) ≡ r
      → ((a : (String × String) × Accounts) → res ≡ ok a → db.users ≡ a.1.users)
      → db.users ≡ r.1.users
  unfolding admin_session
  settle_session-users db (err e) h done = ap (λ x. x.1.users) h
  settle_session-users db (ok a) h done = done a refl ∙ ap (λ x. x.1.users) h

  rotate_or_kill-users :
      (now access_jti jti : ℕ) (db : Accounts) (revoked : Option ℕ) (row : RefreshToken)
      {r : Run (String × String)}
      → admin_session db (rotate_or_kill codec settings now access_jti jti db revoked row) ≡ r
      → db.users ≡ r.1.users
  unfolding admin_session
  rotate_or_kill-users now access_jti jti db none row h =
      settle_session-users db (rotate codec settings now access_jti jti db row) h
        (λ a e. rotate-users now access_jti jti db row e)
  rotate_or_kill-users now access_jti jti db (some at) row h = ap (λ x. x.1.users) h

  refresh_session-users :
      (now access_jti jti : ℕ) (db : Accounts) (session : Result RefreshToken)
      {r : Run (String × String)}
      → admin_session db (refresh_session codec settings now access_jti jti db session) ≡ r
      → db.users ≡ r.1.users
  unfolding admin_session
  refresh_session-users now access_jti jti db (err e) h = ap (λ x. x.1.users) h
  refresh_session-users now access_jti jti db (ok row) h =
      rotate_or_kill-users now access_jti jti db row.revoked_at row h

  revoke_found-users :
      (now : ℕ) (db : Accounts) (found : Option RefreshToken)
      → db.users ≡ (revoke_found codec settings now db found).1.users
  revoke_found-users now db none = refl
  revoke_found-users now db (some row) = refl

  -- A step other than one that makes the account active.
  abbrev pub IsNoReturn : ℕ → {db db' : Accounts} → Step codec settings db db' → Type 0
  IsNoReturn k (logs_in now access_jti jti user tokens h) = Unit
  IsNoReturn k (refreshes now access_jti jti token answer h) = Unit
  IsNoReturn k (logs_out now token) = Unit
  IsNoReturn k (changes_status now actor target status user h) =
      (target == k && eq_user_status status active) ≡ false

  -- Steps none of which makes the account active.
  pub data Later (k : ℕ) (start : Accounts) : Accounts → Type 0 where
    at_once : Later k start start
    after :
        {db db' : Accounts}
        → Later k start db
        → (step : Step codec settings db db') → IsNoReturn k step
        → Later k start db'

  Step-IsOut :
      {db db' : Accounts} (k : ℕ) (step : Step codec settings db db')
      → IsNoReturn k step
      → IsOut k db.users
      → IsOut k db'.users
  unfolding complete_login issue_tokens refresh_tokens revoke_refresh_token
  Step-IsOut {db} k (logs_in now access_jti jti user tokens h) stays out =
      let (u, ha, h1) = >>=-ok_inv (raise_if (not (eq_user_status user.status active)) _) _ h in
      subst (λ x. IsOut k x.1.users) (ok-injective h1)
        (update_first-IsOut k (has_id user.id) (λ x. record x { last_login_at = some now }) db.users
          (λ x named was_out. was_out) out)
  Step-IsOut {db} k (refreshes now access_jti jti token answer h) stays out =
      subst (IsOut k)
        (refresh_session-users now access_jti jti db (session_of codec settings now db token) h) out
  Step-IsOut {db} k (logs_out now token) stays out =
      subst (IsOut k) (revoke_found-users now db _) out
  Step-IsOut {db} k (changes_status now actor target status user h) stays out =
      let c = update_user_status-IsChanged now db actor target status h in
      let users =
        sym (end_sessions-users status now c.target.id _) ∙ ap (λ x. x.1.users) c.written in
      subst (IsOut k) users (
        update_first-IsOut k (has_id target) (with_status status) db.users
          (λ x named was_out. ground arith) out)

  Later-IsOut :
      (k : ℕ) {start db : Accounts} → Later k start db → IsOut k start.users → IsOut k db.users
  Later-IsOut k at_once out = out
  Later-IsOut k (after before step stays) out = Step-IsOut k step stays (Later-IsOut k before out)

  -- If an account has its identifier alone, then once it is disabled, the authentication of a
  -- request by an access token in its name is refused, whatever rights and tenant the token claims,
  -- at once and after any sequence of logins, rotations, logouts and changes of status, as long as
  -- none of these makes the account active again.
  pub disabled_is_refused :
      (now : ℕ) (accounts : Accounts) (actor : CurrentUser) (k : ℕ) {r : User × Accounts}
      → IsKey k accounts.users
      → update_user_status now accounts actor k disabled ≡ ok r
      → (dir : Directory) → Later k r.1 dir.accounts
      → (claimed : CurrentUser) → claimed.user_id ≡ k
      → (e : AppError) × (get_active_current_user dir claimed ≡ err e)
  disabled_is_refused now accounts actor k {r} key h dir later claimed named =
      refused (get_active_current_user dir claimed) (λ u hu.
        let (live, same_user, _) = get_active_current_user-IsLive dir claimed hu in
        let c = update_user_status-IsChanged now accounts actor k disabled h in
        let users : update_first (has_id k) (with_status disabled) accounts.users ≡ r.1.users =
          sym (end_sessions-users disabled now c.target.id _) ∙ ap (λ x. x.1.users) c.written in
        let out : IsOut k dir.accounts.users =
          Later-IsOut k later (subst (IsOut k) users (disabled-IsOut k accounts.users key)) in
        let found : find (is_account k live.home) dir.accounts.users ≡ some live.row =
          subst (λ i. find (is_account i live.home) dir.accounts.users ≡ some live.row)
            (same_user ∙ named) live.found in
        sym (found_is_in k live.home dir.accounts.users found live.is_active) ∙ out)
