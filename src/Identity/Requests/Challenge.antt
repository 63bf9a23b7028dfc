-- ===== src/Identity/Requests/Challenge.antt =====
-- With a second factor, no tokens without an accepted code.
use credit_iq_ai.Prelude.{
  ◌≡◌, refl, sym, ap, subst, ◌∙◌, ℕ, String, Bool, true, false, not, ◌==◌, ==_refl, some, none,
  List, [], ◌∷◌, if◌then◌else◌, find, find-holds, find-update_found, update_first, arith, inl, inr,
  Bool-cases,
}
use credit_iq_ai.Errors.{
  ok, raise_if, or_raise, or_raise-found, raise_if-not_passed, >>=-ok_inv, ok-injective,
}
use credit_iq_ai.Identity.Users.{active, eq_user_status, User}
use credit_iq_ai.Identity.Tokens.{Codec, TokenSettings, Payload, create_mfa_challenge_token}
use credit_iq_ai.Identity.Sessions.{get_user, verify_credentials, complete_login, issue_tokens}
use credit_iq_ai.Identity.Mfa.{
  Authenticator, verify_mfa_code_once, IsAccepted, verify_mfa_code_once-IsAccepted,
}
use credit_iq_ai.Identity.Requests.{
  Directory, LoginRequest, LoginResponse, is_challenge, login, challenge, admit, verify_mfa,
  with_user, logged,
}

find-update_const :
    (p : User → Bool) (v : User) (us : List User) {u : User}
    → p v ≡ true
    → find p us ≡ some u
    → find p (update_first p (λ x. v) us) ≡ some v
find-update_const p v [] hv h = cc
find-update_const p v (x ∷ xs) hv h = elim (Bool-cases (p x)) [
  | inl hit ↦ rw (hit, hv) refl
  | inr miss ↦ rw (miss, miss) (find-update_const p v xs hv (rw miss at h))
]

module _ (codec : Codec) (settings : TokenSettings) (otp : Authenticator) (in_body : Bool) where
  -- What a login answers: a challenge for the account alone, with no token and no session, to a user
  -- with a second factor; and tokens only to an active user without one.
  pub record IsGreeted (now jti : ℕ) (dir : Directory) (body : LoginRequest)
      (r : LoginResponse × Directory) : Type 0 where
    pub user : User
    pub proved :
        verify_credentials codec settings dir.accounts body.email body.password body.organization_id
        ≡ ok user
    pub challenged :
        user.mfa_enabled ≡ true
        → (r.0.access_token ≡ none)
          × (r.0.refresh_token ≡ none)
          × (r.0.cookie ≡ none)
          × (r.0.mfa_required ≡ true)
          × (r.0.challenge_token ≡ some (create_mfa_challenge_token codec settings now jti user.id))
          × (r.1.accounts ≡ dir.accounts)
    pub admitted : user.mfa_enabled ≡ false → eq_user_status user.status active ≡ true

  admit-is_active :
      (now access_jti jti : ℕ) (dir : Directory) (user : User) (action : String)
      {r : LoginResponse × Directory}
      → admit codec settings otp in_body now access_jti jti dir user action ≡ ok r
      → eq_user_status user.status active ≡ true
  unfolding admit complete_login
  admit-is_active now access_jti jti dir user action h =
      let (done, hd, _) =
        >>=-ok_inv (complete_login codec settings now access_jti jti dir.accounts user) _ h in
      let (u, hu, _) = >>=-ok_inv (raise_if (not (eq_user_status user.status active)) _) _ hd in
      raise_if-not_passed _ _ hu

  greet-IsGreeted :
      (now access_jti jti : ℕ) (dir : Directory) (body : LoginRequest) (user : User) (b : Bool)
      {r : LoginResponse × Directory}
      → verify_credentials codec settings dir.accounts body.email body.password body.organization_id
        ≡ ok user
      → user.mfa_enabled ≡ b
      → (if b
          then ok (challenge codec settings otp in_body now jti dir user)
          else admit codec settings otp in_body now access_jti jti dir user "auth.login.success")
        ≡ ok r
      → IsGreeted now jti dir body r
  unfolding challenge logged
  greet-IsGreeted now access_jti jti dir body user true proved enabled h =
      let e = ok-injective h in
      record {
        user = user;
        proved = proved;
        challenged = λ _. (
          sym (ap (λ x. x.0.access_token) e),
          sym (ap (λ x. x.0.refresh_token) e),
          sym (ap (λ x. x.0.cookie) e),
          sym (ap (λ x. x.0.mfa_required) e),
          sym (ap (λ x. x.0.challenge_token) e),
          sym (ap (λ x. x.1.accounts) e),
        );
        admitted = λ off. cc;
      }
  greet-IsGreeted now access_jti jti dir body user false proved off h = record {
    user = user;
    proved = proved;
    challenged = λ enabled. cc;
    admitted = λ _. admit-is_active now access_jti jti dir user "auth.login.success" h;
  }

  -- A login of a user with a second factor answers that a second factor is required, with a challenge
  -- token for that account, no other token and no session; a user without one gets tokens only while
  -- active.
  pub login-IsGreeted :
      (now access_jti jti : ℕ) (dir : Directory) (body : LoginRequest)
      {r : LoginResponse × Directory}
      → login codec settings otp in_body now access_jti jti dir body ≡ ok r
      → IsGreeted now jti dir body r
  unfolding login
  login-IsGreeted now access_jti jti dir body h =
      let (user, hv, h1) =
        >>=-ok_inv
          (verify_credentials codec settings dir.accounts body.email body.password
            body.organization_id)
          _ h in
      greet-IsGreeted now access_jti jti dir body user user.mfa_enabled hv refl h1

  -- What a second step of a login that succeeds rests on, and what it leaves behind.
  pub record IsVerified (now : ℕ) (dir : Directory) (challenge_token code : String)
      (r : LoginResponse × Directory) : Type 0 where
    pub payload : Payload
    pub decoded : codec.decode now challenge_token ≡ some payload
    pub is_challenge_token : is_challenge payload.token_type ≡ true
    pub user : User
    pub found : get_user dir.accounts payload.sub ≡ some user
    pub enabled : user.mfa_enabled ≡ true
    pub verified : User
    pub accepted : IsAccepted otp now user code verified
    pub is_active : eq_user_status verified.status active ≡ true
    pub kept : User
    pub kept_found : get_user r.1.accounts payload.sub ≡ some kept
    pub spent : kept.mfa_last_verified_step ≡ some accepted.step

  admit_row :
      (now access_jti jti k : ℕ) (dir : Directory) (user verified : User) (action : String)
      {r : LoginResponse × Directory}
      → get_user dir.accounts k ≡ some user
      → verified.id ≡ k
      → admit codec settings otp in_body now access_jti jti
          (record dir { accounts = with_user k verified dir.accounts })
          verified
          action
        ≡ ok r
      → get_user r.1.accounts k ≡ some (record verified { last_login_at = some now })
  unfolding admit complete_login issue_tokens logged
  admit_row now access_jti jti k dir user verified action {r} found same_id h =
      let (done, hd, h1) =
        >>=-ok_inv
          (complete_login codec settings now access_jti jti (with_user k verified dir.accounts)
            verified)
          _ h in
      let (u, hu, h2) =
        >>=-ok_inv (raise_if (not (eq_user_status verified.status active)) _) _ hd in
      let users : done.1.users
          ≡ update_first (λ u. u.id == verified.id) (λ u. record u { last_login_at = some now })
              (update_first (λ u. u.id == k) (λ u. verified) dir.accounts.users) =
        sym (ap (λ x. x.1.users) (ok-injective h2)) in
      let after : r.1.accounts.users ≡ done.1.users =
        sym (ap (λ x. x.1.accounts.users) (ok-injective h1)) in
      subst (λ us. find (λ u. u.id == k) us ≡ some (record verified { last_login_at = some now }))
        (sym (after ∙ users))
        (subst
          (λ i.
            find (λ u. u.id == k)
              (update_first (λ u. u.id == i) (λ u. record u { last_login_at = some now })
                (update_first (λ u. u.id == k) (λ u. verified) dir.accounts.users))
            ≡ some (record verified { last_login_at = some now }))
          (sym same_id)
          (find-update_found (λ u. u.id == k) (λ u. record u { last_login_at = some now }) _
            (λ u. refl)
            (find-update_const (λ u. u.id == k) verified dir.accounts.users
              (subst (λ i. (i == k) ≡ true) (sym same_id) (==_refl k)) found)))

  -- A second step of a login succeeds only on a challenge token for an active user with a second
  -- factor and an accepted code, and leaves the step of the code marked as used.
  pub verify_mfa-IsVerified :
      (now access_jti jti : ℕ) (dir : Directory) (challenge_token code : String)
      {r : LoginResponse × Directory}
      → verify_mfa codec settings otp in_body now access_jti jti dir challenge_token code ≡ ok r
      → IsVerified now dir challenge_token code r
  unfolding verify_mfa
  verify_mfa-IsVerified now access_jti jti dir challenge_token code {r} h =
      let (payload, hp, h1) = >>=-ok_inv (or_raise (codec.decode now challenge_token) _) _ h in
      let (u1, ht, h2) = >>=-ok_inv (raise_if (not (is_challenge payload.token_type)) _) _ h1 in
      let (user, hu, h3) = >>=-ok_inv (or_raise (get_user dir.accounts payload.sub) _) _ h2 in
      let (u2, he, h4) = >>=-ok_inv (raise_if (not user.mfa_enabled) _) _ h3 in
      let (verified, hv, h5) = >>=-ok_inv (verify_mfa_code_once otp now user code) _ h4 in
      let found = or_raise-found _ _ hu in
      let accepted = verify_mfa_code_once-IsAccepted otp now user code hv in
      let hit = find-holds (λ u. u.id == payload.sub) dir.accounts.users found in
      let own : user.id ≡ payload.sub = ground arith in
      let same_id : verified.id ≡ payload.sub = ap (λ x. x.id) accepted.is_recorded ∙ own in
      record {
        payload = payload;
        decoded = or_raise-found _ _ hp;
        is_challenge_token = raise_if-not_passed _ _ ht;
        user = user;
        found = found;
        enabled = raise_if-not_passed _ _ he;
        verified = verified;
        accepted = accepted;
        is_active =
            admit-is_active now access_jti jti
              (record dir { accounts = with_user payload.sub verified dir.accounts }) verified
              "auth.mfa.success" h5;
        kept = record verified { last_login_at = some now };
        kept_found =
            admit_row now access_jti jti payload.sub dir user verified "auth.mfa.success" found
              same_id h5;
        spent = ap (λ x. x.mfa_last_verified_step) accepted.is_recorded;
      }
