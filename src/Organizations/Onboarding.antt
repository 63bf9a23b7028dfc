-- ===== src/Organizations/Onboarding.antt =====
-- `onboard_organization` of backend/app/modules/organization/service.py and its endpoint: a tenant
-- with its first branch and its first administrator. The type of the tenant is kept in the log alone.
use credit_iq_ai.Prelude.{
  ℕ, ◌+◌, String, true, false, Option, some, none, List, [], ◌∷◌, ◌++◌, find, exists,
}
use credit_iq_ai.Shared.{OrgStatus}
use credit_iq_ai.Errors.{Result, ok, raise_if, ◌>>◌, ◌>>=◌, conflict}
use credit_iq_ai.Store.{Organization, Branch, Db, nothing, organization_onboarded, record_audit}
use credit_iq_ai.Access.{CurrentUser}
use credit_iq_ai.Identity.Users.{active, Role, User, Accounts}
use credit_iq_ai.Identity.Catalog.{ensure_rbac, is_system_role}
use credit_iq_ai.Identity.Creation.{has_email}
use credit_iq_ai.Organizations.{entry}

pub record OnboardRequest : Type 0 where
  pub organization_name : String
  pub organization_type : String
  pub admin_email : String
  pub admin_password : String

pub record Onboarded : Type 0 where
  pub organization : Organization
  pub admin : User
  pub db : Db
  pub accounts : Accounts

abbrev new_organization : ℕ → OnboardRequest → Organization
new_organization id data_in = record {
  id = id;
  name = data_in.organization_name;
  nrb_license_no = none;
  status = OrgStatus.active;
  general = none;
  loan_workflow = none;
}

abbrev pub head_office : ℕ → ℕ → Branch
head_office id org_id = record {
  id = id;
  organization_id = org_id;
  name = "Head Office";
  code = "HO";
  address = none;
  is_active = true;
}

abbrev role_list : Option Role → List Role
role_list none = []
role_list (some r) = r ∷ []

abbrev new_admin : ℕ → String → ℕ → ℕ → OnboardRequest → List Role → User
new_admin id password_hash org_id branch_id data_in roles = record {
  id = id;
  organization_id = org_id;
  branch_id = some branch_id;
  applicant_id = none;
  email = data_in.admin_email;
  password_hash = password_hash;
  status = active;
  roles = roles;
  mfa_enabled = false;
  mfa_secret_encrypted = none;
  mfa_last_verified_step = none;
  last_login_at = none;
}

-- `role_id` is the first identifier for roles that are missing, `admin_id` that of the account; the
-- tenant and its branch take the next two of the tables.
unfoldable pub onboard_organization :
    (String → String) → ℕ → ℕ → Db → Accounts → OnboardRequest → Result Onboarded
onboard_organization hash_password role_id admin_id db accounts data_in =
    let seeded = ensure_rbac role_id accounts in
    let org = new_organization db.next_id data_in in
    let branch = head_office (db.next_id + 1) db.next_id in
    let admin =
      new_admin admin_id (hash_password data_in.admin_password) db.next_id (db.next_id + 1) data_in
        (role_list (find (is_system_role "Administrator") seeded.roles)) in
    do
      raise_if (exists (has_email db.next_id data_in.admin_email) seeded.users)
          (conflict "Admin email already used in this organization")
      ok (record {
        organization = org;
        admin = admin;
        db = record db {
          next_id = db.next_id + 2;
          organizations = db.organizations ++ (org ∷ []);
          branches = db.branches ++ (branch ∷ []);
        };
        accounts = record seeded { users = seeded.users ++ (admin ∷ []) };
      })

-- The endpoint `onboard`, in a session that is then bound to the new tenant.
unfoldable pub onboard :
    (String → String) → ℕ → ℕ → Db → Accounts → CurrentUser → OnboardRequest → Result Onboarded
onboard hash_password role_id admin_id db accounts user body = do
  made ← onboard_organization hash_password role_id admin_id db accounts body
  ok (record made {
    db =
        record_audit
          (entry made.organization.id user.user_id "platform.organization.onboard" "organization"
            made.organization.id nothing
            (organization_onboarded made.organization.name body.organization_type made.admin.id))
          (record made.db { current_org = made.organization.id });
  })
