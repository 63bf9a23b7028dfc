-- ===== src/Identity/Once.antt =====
-- A refresh token is accepted at most once.
use credit_iq_ai.Prelude.{
  ◌≡◌, refl, sym, ap, subst, ◌∙◌, ℕ, String, false, not, Option, some, none, is_none, List, [], ◌∷◌,
  find, find-append, find-holds, find-update_found, leb, ==_iff, update_first,
}
use credit_iq_ai.Prelude.Text.{same}
use credit_iq_ai.Errors.{
  Result, ok, err, AppError, authentication, raise_if, or_raise, or_raise-found, >>=-ok_inv,
  ok-injective,
}
use credit_iq_ai.Identity.Users.{RefreshToken, Accounts}
use credit_iq_ai.Identity.Tokens.{Payload, Codec, TokenSettings}
use credit_iq_ai.Identity.Sessions.{
  has_jti, is_refresh, new_row, issue_tokens, session_of, active_user, rotate, settle_session,
  rotate_or_kill, refresh_session, refresh_tokens,
}
use credit_iq_ai.Identity.Replay.{IsDead, Reach, Reach-IsDead}

-- A write that revokes the row that was found, by the row's own identifier.
replaced-IsDead :
    (f : RefreshToken → RefreshToken) (ts : List RefreshToken) (k j : ℕ) {row : RefreshToken}
    → k ≡ j
    → ((t : RefreshToken) → has_jti j (f t) ≡ has_jti j t)
    → is_none (f row).revoked_at ≡ false
    → find (has_jti j) ts ≡ some row
    → IsDead (update_first (has_jti k) f ts) j
replaced-IsDead f ts k j {row} named keeps revoked at =
    subst (λ n. IsDead (update_first (has_jti n) f ts) j) (sym named)
      (record {
        row = f row;
        found = find-update_found (has_jti j) f ts keeps at;
        is_revoked = revoked;
      })

module _ (codec : Codec) (settings : TokenSettings) where
  session_of_inv :
      (now : ℕ) (db : Accounts) (token : String) {row : RefreshToken}
      → session_of codec settings now db token ≡ ok row
      → (payload : Payload) × (codec.decode now token ≡ some payload)
        × (find (has_jti payload.jti) db.refresh_tokens ≡ some row)
  unfolding session_of
  session_of_inv now db token {row} h =
      let (payload, hp, h1) = >>=-ok_inv (or_raise (codec.decode now token) _) _ h in
      let (u, ht, h2) = >>=-ok_inv (raise_if (not (is_refresh payload.token_type)) _) _ h1 in
      let (found, hf, h3) =
        >>=-ok_inv (or_raise (find (has_jti payload.jti) db.refresh_tokens) _) _ h2 in
      let (u2, hh, h4) =
        >>=-ok_inv (raise_if (not (same found.token_hash (codec.hash_token token))) _) _ h3 in
      let (u3, he, h5) = >>=-ok_inv (raise_if (leb found.expires_at now) _) _ h4 in
      (payload, or_raise-found _ _ hp, or_raise-found _ _ hf ∙ ap some (ok-injective h5))

  settle_session_inv :
      (db : Accounts) (res : Result ((String × String) × Accounts)) {pair : String × String}
      {after : Accounts}
      → settle_session codec settings db res ≡ (ok pair, after)
      → res ≡ ok (pair, after)
  settle_session_inv db (err e) h = let bad = ap (λ x. x.0) h in cc
  settle_session_inv db (ok (p, a)) {pair} {after} h =
      let same_pair : p ≡ pair = ok-injective (ap (λ x. x.0) h) in
      let same_after : a ≡ after = ap (λ x. x.1) h in cc

  rotate_or_kill_inv :
      (now access_jti jti : ℕ) (db : Accounts) (revoked : Option ℕ) (row : RefreshToken)
      {pair : String × String} {after : Accounts}
      → rotate_or_kill codec settings now access_jti jti db revoked row ≡ (ok pair, after)
      → (revoked ≡ none) × (rotate codec settings now access_jti jti db row ≡ ok (pair, after))
  rotate_or_kill_inv now access_jti jti db none row h = (refl, settle_session_inv db _ h)
  rotate_or_kill_inv now access_jti jti db (some at) row h = let bad = ap (λ x. x.0) h in cc

  -- A rotation that succeeds had a live row.
  refresh_session_inv :
      (now access_jti jti : ℕ) (db : Accounts) (session : Result RefreshToken)
      {pair : String × String} {after : Accounts}
      → refresh_session codec settings now access_jti jti db session ≡ (ok pair, after)
      → (row : RefreshToken) × (session ≡ ok row)
        × (row.revoked_at ≡ none)
        × (rotate codec settings now access_jti jti db row ≡ ok (pair, after))
  refresh_session_inv now access_jti jti db (err e) h = let bad = ap (λ x. x.0) h in cc
  refresh_session_inv now access_jti jti db (ok row) h =
      let (live, rotated) = rotate_or_kill_inv now access_jti jti db row.revoked_at row h in
      (row, refl, live, rotated)

  -- The rotation revokes the row that was found.
  rotated-IsDead :
      (now access_jti jti j : ℕ) (db : Accounts) (row : RefreshToken)
      {r : (String × String) × Accounts}
      → rotate codec settings now access_jti jti db row ≡ ok r
      → find (has_jti j) db.refresh_tokens ≡ some row
      → IsDead r.1.refresh_tokens j
  unfolding rotate issue_tokens
  rotated-IsDead now access_jti jti j db row {r} h at =
      let (user, hu, h1) = >>=-ok_inv (active_user codec settings db row.user_id) _ h in
      let named : row.jti ≡ j =
        (==_iff row.jti j).0 (find-holds (has_jti j) db.refresh_tokens at) in
      subst (λ x. IsDead x.1.refresh_tokens j) (ok-injective h1)
        (replaced-IsDead _ _ row.jti j named (λ t. refl) refl
          (find-append (has_jti j) db.refresh_tokens (new_row codec settings now user jti ∷ []) at))

  killed :
      (now access_jti jti : ℕ) (db : Accounts) (revoked : Option ℕ) (row : RefreshToken)
      → is_none revoked ≡ false
      → (e : AppError) × ((rotate_or_kill codec settings now access_jti jti db revoked row).0
          ≡ err e)
  killed now access_jti jti db none row h = cc
  killed now access_jti jti db (some at) row h = (authentication _, refl)

  -- A token whose row is revoked is refused, by whichever check.
  dead_session :
      (now access_jti jti : ℕ) (db : Accounts) (token : String) (payload : Payload)
      (session : Result RefreshToken)
      → session_of codec settings now db token ≡ session
      → ((p : Payload) → codec.decode now token ≡ some p → p.jti ≡ payload.jti)
      → IsDead db.refresh_tokens payload.jti
      → (e : AppError) × ((refresh_session codec settings now access_jti jti db session).0 ≡ err e)
  dead_session now access_jti jti db token payload (err e) h same_jti d = (e, refl)
  dead_session now access_jti jti db token payload (ok row) h same_jti d =
      let (p, hp, at) = session_of_inv now db token h in
      let at' = subst (λ j. find (has_jti j) db.refresh_tokens ≡ some row) (same_jti p hp) at in
      let both : some d.row ≡ some row = sym d.found ∙ at' in
      let same_row : d.row ≡ row = cc in
      killed now access_jti jti db row.revoked_at row
        (subst (λ r. is_none r.revoked_at ≡ false) same_row d.is_revoked)

  -- A refresh token that was accepted once is refused ever after: no sequence of logins, rotations,
  -- logouts and changes of accounts makes it work again. What a token says does not depend on when
  -- it is decoded.
  pub refresh_tokens_once :
      ((n n' : ℕ) (t : String) (p p' : Payload)
        → codec.decode n t ≡ some p
        → codec.decode n' t ≡ some p'
        → p ≡ p')
      → (now access_jti jti : ℕ) (db : Accounts) (token : String) {pair : String × String}
        {after later : Accounts}
      → refresh_tokens codec settings now access_jti jti db token ≡ (ok pair, after)
      → Reach codec settings after later
      → (now' access_jti' jti' : ℕ)
      → (e : AppError) × ((refresh_tokens codec settings now' access_jti' jti' later token).0
          ≡ err e)
  unfolding refresh_tokens
  refresh_tokens_once stable now access_jti jti db token {later = later} h reach now' access_jti'
        jti' =
      let (row, hs, live, rotated) =
        refresh_session_inv now access_jti jti db (session_of codec settings now db token) h in
      let (p, hp, at) = session_of_inv now db token hs in
      let dead = rotated-IsDead now access_jti jti p.jti db row rotated at in
      dead_session now' access_jti' jti' later token p _ refl
        (λ q hq. ap (λ x. x.jti) (stable now' now token q p hq hp))
        (Reach-IsDead codec settings reach dead)
