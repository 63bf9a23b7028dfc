-- ===== src/Identity/Creation.antt =====
-- `create_user` of backend/app/modules/identity/service.py, and what a new account may be.
use credit_iq_ai.Prelude.{
  some-injective, ◌≡◌, refl, sym, subst, ℕ, String, Bool, true, false, not, ◌&&◌, ◌||◌, Option,
  some, none, is_none, List, [], ◌∷◌, ◌++◌, ◌==◌, opt_eq, exists, select, map, arith,
}
use credit_iq_ai.Prelude.Text.{same}
use credit_iq_ai.Errors.{
  Result, ok, raise_if, or_raise, ◌>>=◌, ◌>>◌, conflict, not_found, permission_denied,
  raise_if-passed, raise_if-not_passed, or_raise-found, >>=-ok_inv, ok-injective,
}
use credit_iq_ai.Store.{Applicant, Db, get_applicant_row}
use credit_iq_ai.Access.{CurrentUser, has, member}
use credit_iq_ai.Loan.Service.{require_branch}
use credit_iq_ai.Identity.Users.{active, Role, User, Accounts}
use credit_iq_ai.Identity.Roles.{all_in}
use credit_iq_ai.Identity.Administration.{validate_role_assignment}

-- Without the full name.
pub record UserCreate : Type 0 where
  pub email : String
  pub password : String
  pub role_names : List String
  pub branch_id : Option ℕ
  pub applicant_id : Option ℕ

abbrev pub has_email : ℕ → String → User → Bool
has_email org_id email u = u.organization_id == org_id && same u.email email

-- The roles of the tenant and of the system that are asked for.
abbrev pub is_requested : ℕ → List String → Role → Bool
is_requested org_id names r =
    member r.name names && (opt_eq r.organization_id (some org_id) || is_none r.organization_id)

abbrev pub names_of : List Role → List String
names_of roles = map (λ r. r.name) roles

-- Equality of the two sets of names.
abbrev pub same_names : List String → List String → Bool
same_names a b = all_in a b && all_in b a

-- A custom role with a permission that the caller lacks.
abbrev pub is_broader : CurrentUser → Role → Bool
is_broader actor r =
    not r.is_system
    && not (has actor "platform:admin")
    && not (all_in r.permissions actor.permissions)

unfoldable pub check_applicant_link : UserCreate → Result (Unit {0})
check_applicant_link body = do
  raise_if (member "Applicant" body.role_names && not (all_in body.role_names ("Applicant" ∷ [])))
      (conflict "Applicant accounts cannot be combined with staff roles")
  raise_if (member "Applicant" body.role_names && is_none body.applicant_id)
      (conflict "Applicant accounts require an applicant ownership link")
  raise_if (not (member "Applicant" body.role_names) && not (is_none body.applicant_id))
      (conflict "Only Applicant accounts may have an applicant ownership link")

-- The branch of the account: that of the applicant it belongs to, or the one asked for.
abbrev pub account_branch : Db → ℕ → Option ℕ → Option ℕ → Result (Option ℕ)
account_branch db org_id none branch_id = require_branch db org_id branch_id >> ok branch_id
account_branch db org_id (some k) branch_id = do
  applicant ← or_raise (get_applicant_row db k) (not_found "Applicant ownership target not found")
  raise_if (not (applicant.organization_id == org_id))
      (not_found "Applicant ownership target not found")
  ok applicant.branch_id

abbrev pub account_of : ℕ → String → ℕ → UserCreate → Option ℕ → List Role → User
account_of id password_hash org_id body branch_id roles = record {
  id = id;
  organization_id = org_id;
  branch_id = branch_id;
  applicant_id = body.applicant_id;
  email = body.email;
  password_hash = password_hash;
  status = active;
  roles = roles;
  mfa_enabled = false;
  mfa_secret_encrypted = none;
  mfa_last_verified_step = none;
  last_login_at = none;
}

-- `id` is the fresh identifier, `hash_password` that of passlib.
unfoldable pub create_user :
    (String → String) → ℕ → Db → Accounts → ℕ → UserCreate → CurrentUser → Result (User × Accounts)
create_user hash_password id db accounts org_id body actor = do
  validate_role_assignment actor body.role_names
  raise_if (exists (has_email org_id body.email) accounts.users)
      (conflict "A user with this email already exists in the organization")
  raise_if
      (not (
        same_names (names_of (select (is_requested org_id body.role_names) accounts.roles))
          body.role_names))
      (not_found "One or more requested roles do not exist")
  raise_if (exists (is_broader actor) (select (is_requested org_id body.role_names) accounts.roles))
      (permission_denied "Cannot assign a custom role with broader permissions")
  check_applicant_link body
  branch_id ← account_branch db org_id body.applicant_id body.branch_id
  let user =
      account_of id (hash_password body.password) org_id body branch_id
        (select (is_requested org_id body.role_names) accounts.roles)
  ok (user, record accounts { users = accounts.users ++ (user ∷ []) })

-- What an account that is created may be.
pub record IsAppointed (db : Db) (accounts : Accounts) (org_id : ℕ) (body : UserCreate)
    (actor : CurrentUser) (user : User) : Type 0 where
  pub in_tenant : user.organization_id ≡ org_id
  pub email_free : exists (has_email org_id user.email) accounts.users ≡ false
  pub roles_as_asked : same_names (names_of user.roles) body.role_names ≡ true
  pub no_platform_role :
      (member "Super Admin" body.role_names && not (has actor "platform:admin")) ≡ false
  pub no_broader_role : exists (is_broader actor) user.roles ≡ false
  pub linked : is_none user.applicant_id ≡ not (member "Applicant" body.role_names)
  pub own_applicant :
      (k : ℕ)
      → user.applicant_id ≡ some k
      → (a : Applicant) × (get_applicant_row db k ≡ some a)
        × ((a.organization_id == org_id) ≡ true)
        × (user.branch_id ≡ a.branch_id)
  pub has_no_code : user.mfa_enabled ≡ false

check_applicant_link-linked :
    (body : UserCreate) {u : Unit {0}}
    → check_applicant_link body ≡ ok u
    → is_none body.applicant_id ≡ not (member "Applicant" body.role_names)
unfolding check_applicant_link
check_applicant_link-linked body h = ground arith

account_branch-own :
    (db : Db) (org_id : ℕ) (link branch_id : Option ℕ) {b : Option ℕ}
    → account_branch db org_id link branch_id ≡ ok b
    → (k : ℕ) → link ≡ some k
    → (a : Applicant) × (get_applicant_row db k ≡ some a)
      × ((a.organization_id == org_id) ≡ true)
      × (b ≡ a.branch_id)
account_branch-own db org_id none branch_id h k e = cc
account_branch-own db org_id (some j) branch_id {b} h k e =
    let (a, ha, h1) = >>=-ok_inv (or_raise (get_applicant_row db j) _) _ h in
    let (u, hu, h2) = >>=-ok_inv (raise_if (not (a.organization_id == org_id)) _) _ h1 in
    let same_key : j ≡ k = some-injective e in
    (
      a,
      subst (λ i. get_applicant_row db i ≡ some a) same_key (or_raise-found _ _ ha),
      raise_if-not_passed _ _ hu,
      sym (ok-injective h2),
    )

-- An account that is created has a free email in its tenant and exactly the roles asked for; it is
-- no platform administrator and has no custom role beyond the caller's permissions, unless a
-- platform administrator creates it; and it is linked to an applicant of the tenant, whose branch
-- it gets, exactly when its role is that of an applicant.
pub create_user-IsAppointed :
    (hash_password : String → String) (id : ℕ) (db : Db) (accounts : Accounts) (org_id : ℕ)
    (body : UserCreate) (actor : CurrentUser) {r : User × Accounts}
    → create_user hash_password id db accounts org_id body actor ≡ ok r
    → IsAppointed db accounts org_id body actor r.0 × (r.1.users ≡ accounts.users ++ (r.0 ∷ []))
unfolding create_user validate_role_assignment
create_user-IsAppointed hash_password id db accounts org_id body actor {r} h =
    let roles = select (is_requested org_id body.role_names) accounts.roles in
    let (u1, hv, h1) =
      >>=-ok_inv
        (raise_if (member "Super Admin" body.role_names && not (has actor "platform:admin")) _) _
        h in
    let (u2, he, h2) =
      >>=-ok_inv (raise_if (exists (has_email org_id body.email) accounts.users) _) _ h1 in
    let (u3, hn, h3) =
      >>=-ok_inv (raise_if (not (same_names (names_of roles) body.role_names)) _) _ h2 in
    let (u4, hb, h4) = >>=-ok_inv (raise_if (exists (is_broader actor) roles) _) _ h3 in
    let (u5, hl, h5) = >>=-ok_inv (check_applicant_link body) _ h4 in
    let (branch, hr, h6) =
      >>=-ok_inv (account_branch db org_id body.applicant_id body.branch_id) _ h5 in
    subst
      (λ z.
        IsAppointed db accounts org_id body actor z.0 × (z.1.users ≡ accounts.users ++ (z.0 ∷ [])))
      (ok-injective h6)
      (
        record {
          in_tenant = refl;
          email_free = raise_if-passed _ _ he;
          roles_as_asked = raise_if-not_passed _ _ hn;
          no_platform_role = raise_if-passed _ _ hv;
          no_broader_role = raise_if-passed _ _ hb;
          linked = check_applicant_link-linked body hl;
          own_applicant = account_branch-own db org_id body.applicant_id body.branch_id hr;
          has_no_code = refl;
        },
        refl,
      )
