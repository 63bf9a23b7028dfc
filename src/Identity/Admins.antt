-- ===== src/Identity/Admins.antt =====
-- When a tenant keeps an administrator.
use credit_iq_ai.Prelude.{
  ◌≡◌, sym, subst, ℕ, ◌+◌, ◌≤◌, Bool, true, false, not, ◌&&◌, some, List, [], ◌∷◌, ◌==◌, leb, find,
  update_first, All, arith, Bool-cases, inl, inr, find-All,
}
use credit_iq_ai.Errors.{
  ok, or_raise-found, raise_if, or_raise, >>=-ok_inv, ok-injective, raise_if-passed,
  raise_if-not_passed,
}
use credit_iq_ai.Access.{CurrentUser, has, member}
use credit_iq_ai.Identity.Users.{
  UserStatus, invited, active, disabled, eq_user_status, User, Accounts,
}
use credit_iq_ai.Identity.Sessions.{get_user, revoke_all}
use credit_iq_ai.Identity.Administration.{
  admin_rows, counted, active_admins, with_status, update_user_status, role_names_of, is_admin,
  end_sessions,
}

-- The count after a write through the row that was found.
active_admins-update_first :
    (org : ℕ) (p : User → Bool) (f : User → User) (us : List User) {u : User}
    → find p us ≡ some u
    → active_admins org (update_first p f us) + counted org u
      ≡ active_admins org us + counted org (f u)
unfolding active_admins
active_admins-update_first org p f [] h = cc
active_admins-update_first org p f (x ∷ xs) {u} h = elim (Bool-cases (p x)) [
  | inl hit ↦ let same_user : x ≡ u = ground arith in rw (hit, same_user) (omega arith)
  | inr miss ↦
      let ih = active_admins-update_first org p f xs (rw miss at h) in rw miss (omega arith)
]

pub end_sessions-users :
    (status : UserStatus) (now k : ℕ) (db : Accounts)
    → (end_sessions status now k db).users ≡ db.users
unfolding revoke_all
end_sessions-users status now k db = ground arith

-- The arithmetic of the guard: `total` and `after` count the administrators, `own` the target's.
guard_keeps :
    (status : UserStatus) (u : User) (org total after : ℕ)
    → eq_user_status status invited ≡ false
    → (u.organization_id == org) ≡ true
    → admin_rows u ≤ 1
    → (eq_user_status status disabled
        && is_admin u
        && eq_user_status u.status active
        && leb total 1)
      ≡ false
    → after + counted org u ≡ total + counted org (with_status status u)
    → 1 ≤ total
    → 1 ≤ after
guard_keeps status u org total after not_invited in_org one guard sum some_admin = ground arith

-- What a change of status that succeeds has passed and written.
pub record IsChanged (now : ℕ) (db : Accounts) (actor : CurrentUser) (target_id : ℕ)
    (status : UserStatus) (r : User × Accounts) : Type 0 where
  pub target : User
  pub found : get_user db target_id ≡ some target
  pub in_org : (target.organization_id == actor.org_id) ≡ true
  pub guard :
      (eq_user_status status disabled
        && is_admin target
        && eq_user_status target.status active
        && leb (active_admins actor.org_id db.users) 1)
      ≡ false
  pub written :
      (
        with_status status target,
        end_sessions status now target.id (record db {
          users = update_first (λ x. x.id == target_id) (with_status status) db.users;
        }),
      )
      ≡ r

pub update_user_status-IsChanged :
    (now : ℕ) (db : Accounts) (actor : CurrentUser) (target_id : ℕ) (status : UserStatus)
    {r : User × Accounts}
    → update_user_status now db actor target_id status ≡ ok r
    → IsChanged now db actor target_id status r
unfolding update_user_status
update_user_status-IsChanged now db actor target_id status h =
    let (u, hu, h1) = >>=-ok_inv (or_raise (get_user db target_id) _) _ h in
    let (u1, ho, h2) = >>=-ok_inv (raise_if (not (u.organization_id == actor.org_id)) _) _ h1 in
    let (u2, hs, h3) =
      >>=-ok_inv
        (raise_if (member "Super Admin" (role_names_of u) && not (has actor "platform:admin")) _) _
        h2 in
    let (u3, hself, h4) =
      >>=-ok_inv (raise_if (eq_user_status status disabled && u.id == actor.user_id) _) _ h3 in
    let (u4, hg, h5) =
      >>=-ok_inv
        (raise_if
          (eq_user_status status disabled
            && is_admin u
            && eq_user_status u.status active
            && leb (active_admins actor.org_id db.users) 1)
          _)
        _ h4 in
    record {
      target = u;
      found = or_raise-found _ _ hu;
      in_org = raise_if-not_passed _ _ ho;
      guard = raise_if-passed _ _ hg;
      written = ok-injective h5;
    }

-- Disabling or activating an account leaves the tenant with an active administrator, if it had one
-- and no account holds two roles of that name.
pub update_user_status_keeps_admin :
    (now : ℕ) (db : Accounts) (actor : CurrentUser) (target_id : ℕ) (status : UserStatus)
    {r : User × Accounts}
    → update_user_status now db actor target_id status ≡ ok r
    → eq_user_status status invited ≡ false
    → All (λ u. admin_rows u ≤ 1) db.users
    → 1 ≤ active_admins actor.org_id db.users
    → 1 ≤ active_admins actor.org_id r.1.users
update_user_status_keeps_admin now db actor target_id status {r} h not_invited one some_admin =
    let c = update_user_status-IsChanged now db actor target_id status h in
    let us = update_first (λ x. x.id == target_id) (with_status status) db.users in
    let sum =
      active_admins-update_first actor.org_id (λ x. x.id == target_id) (with_status status) db.users
        c.found in
    let kept =
      guard_keeps status c.target actor.org_id _ _ not_invited c.in_org
        (find-All _ _ db.users c.found one) c.guard sum some_admin in
    subst (λ x. 1 ≤ active_admins actor.org_id x.1.users) c.written
      (subst (λ x. 1 ≤ active_admins actor.org_id x)
        (sym (end_sessions-users status now c.target.id (record db { users = us }))) kept)
