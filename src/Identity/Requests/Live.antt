-- ===== src/Identity/Requests/Live.antt =====
-- A request acts with the rights that its account has now, whatever its token says.
use credit_iq_ai.Prelude.{
  ◌≡◌, refl, sym, subst, ℕ, String, Bool, true, false, not, ◌&&◌, ◌||◌, ◌==◌, Option, some, find,
  find-holds, arith,
}
use credit_iq_ai.Errors.{
  ok, raise_if, or_raise, or_raise-found, raise_if-passed, raise_if-not_passed, >>=-ok_inv,
  ok-injective,
}
use credit_iq_ai.Store.{is_operating, Organization}
use credit_iq_ai.Access.{CurrentUser, has, member}
use credit_iq_ai.Identity.Users.{active, eq_user_status, User}
use credit_iq_ai.Identity.Tokens.{Codec, TokenSettings}
use credit_iq_ai.Identity.Sessions.{collect_permissions}
use credit_iq_ai.Identity.Mfa.{Authenticator}
use credit_iq_ai.Identity.Requests.{
  Directory, home_org, is_account, get_organization, at_home, get_active_current_user,
  get_current_user, authenticate, require,
}

-- The row behind a request, and what the request may act on.
pub record IsLive (dir : Directory) (user : CurrentUser) : Type 0 where
  pub row : User
  pub home : ℕ
  pub found : find (is_account user.user_id home) dir.accounts.users ≡ some row
  pub is_active : eq_user_status row.status active ≡ true
  pub live_permissions : user.permissions ≡ collect_permissions row.roles
  pub in_scope : ((user.org_id == home) || member "platform:admin" user.permissions) ≡ true
  pub organization : Organization
  pub org_found : get_organization dir user.org_id ≡ some organization
  pub org_active : is_operating organization ≡ true
  pub own_branch : user.branch_id ≡ at_home user.org_id home row.branch_id
  pub own_applicant : user.applicant_id ≡ at_home user.org_id home row.applicant_id

same_id :
    (dir : Directory) (k home : ℕ) {row : User}
    → find (is_account k home) dir.accounts.users ≡ some row
    → k ≡ row.id
same_id dir k home {row} h =
    let hit = find-holds (is_account k home) dir.accounts.users h in ground arith

pub get_active_current_user-IsLive :
    (dir : Directory) (user : CurrentUser) {u : CurrentUser}
    → get_active_current_user dir user ≡ ok u
    → IsLive dir u × (u.user_id ≡ user.user_id) × (u.org_id ≡ user.org_id)
unfolding get_active_current_user
get_active_current_user-IsLive dir user {u} h =
    let (row, hr, h1) =
      >>=-ok_inv (or_raise (find (is_account user.user_id (home_org user)) dir.accounts.users) _) _
        h in
    let (u1, ha, h2) = >>=-ok_inv (raise_if (not (eq_user_status row.status active)) _) _ h1 in
    let (u2, hs, h3) =
      >>=-ok_inv
        (raise_if
          (not (user.org_id == home_org user)
            && not (member "platform:admin" (collect_permissions row.roles)))
          _)
        _ h2 in
    let (o, ho, h4) = >>=-ok_inv (or_raise (get_organization dir user.org_id) _) _ h3 in
    let (u3, hx, h5) = >>=-ok_inv (raise_if (not (is_operating o)) _) _ h4 in
    let found = or_raise-found _ _ hr in
    let id_eq = same_id dir user.user_id (home_org user) found in
    subst (λ z. IsLive dir z × (z.user_id ≡ user.user_id) × (z.org_id ≡ user.org_id))
      (ok-injective h5)
      (
        record {
          row = row;
          home = home_org user;
          found =
              subst (λ k. find (is_account k (home_org user)) dir.accounts.users ≡ some row) id_eq
                found;
          is_active = raise_if-not_passed _ _ ha;
          live_permissions = refl;
          in_scope =
              one_holds (user.org_id == home_org user)
                (member "platform:admin" (collect_permissions row.roles)) (raise_if-passed _ _ hs);
          organization = o;
          org_found = or_raise-found _ _ ho;
          org_active = raise_if-not_passed _ _ hx;
          own_branch = refl;
          own_applicant = refl;
        },
        sym id_eq,
        refl,
      )
  where
    one_holds : (a b : Bool) → (not a && not b) ≡ false → (a || b) ≡ true
    one_holds a b h = ground arith

module _ (codec : Codec) (settings : TokenSettings) (otp : Authenticator) (in_body : Bool) where
  -- A request that passes a permission check is of an account that is active in its home tenant
  -- now and holds the permission, or that of the platform administrator, through its present
  -- roles; it acts in its home tenant unless it is a platform administrator, and that tenant is
  -- active.
  pub require-IsLive :
      (now : ℕ) (dir : Directory) (creds : Option String) (permission : String) {u : CurrentUser}
      → require codec settings otp in_body now dir creds permission ≡ ok u
      → IsLive dir u × (has u permission ≡ true)
  unfolding require authenticate
  require-IsLive now dir creds permission {u} h =
      let (user, hu, h1) = >>=-ok_inv (authenticate codec settings otp in_body now dir creds) _ h in
      let (claimed, hc, h2) =
        >>=-ok_inv (get_current_user codec settings otp in_body now creds)
          (get_active_current_user dir) hu in
      let (v, hp, h3) = >>=-ok_inv (raise_if (not (has user permission)) _) _ h1 in
      subst (λ z. IsLive dir z × (has z permission ≡ true)) (ok-injective h3)
        ((get_active_current_user-IsLive dir claimed h2).0, raise_if-not_passed _ _ hp)
