-- ===== src/Tests/Tenants.antt =====
-- A tenant that opens a branch, is suspended, and hands out a key and an account.
use credit_iq_ai.Prelude.{◌≡◌, refl, false, String, none, some, List, [], ◌∷◌}
use credit_iq_ai.Prelude.Text.{same, strip}
use credit_iq_ai.Shared.{OrgStatus}
use credit_iq_ai.Errors.{Result, ok, err, AppError}
use credit_iq_ai.Store.{
  Organization, Branch, Db, record_audit, get_organization_row, get_applicant_row,
}
use credit_iq_ai.Access.{CurrentUser, has, member}
use credit_iq_ai.Loan.Service.{require_branch}
use credit_iq_ai.Organizations.{
  BranchCreate, strip_optional, create_branch, create_branch_logged, update_organization_status,
}
use credit_iq_ai.Organizations.Codes.{HasUniqueCodes, created, here, next, Reach-HasUniqueCodes}
use credit_iq_ai.Organizations.Suspension.{suspended_is_refused}
use credit_iq_ai.Integrations.{ApiKey, ApiKeyCreate, KeyMaterial, validate_scopes, create_api_key}
use credit_iq_ai.Integrations.Scopes.{create_api_key-IsDelegated}
use credit_iq_ai.Identity.Users.{active, Role, User, Accounts}
use credit_iq_ai.Identity.Administration.{validate_role_assignment}
use credit_iq_ai.Identity.Creation.{
  UserCreate, check_applicant_link, create_user, create_user-IsAppointed,
}
use credit_iq_ai.Identity.Requests.{Directory, get_active_current_user}
use credit_iq_ai.Tests.Sample.{tenant, manager, branch, sample_organization}

unfoldable pub tenants : Unit {0}
unfolding same strip member has record_audit get_organization_row get_applicant_row require_branch
    strip_optional create_branch create_branch_logged update_organization_status validate_scopes
    create_api_key validate_role_assignment check_applicant_link create_user
tenants = tt

abbrev value_or : {A : Type 0} → A → Result A → A
value_or default (ok a) = a
value_or default (err e) = default

abbrev opening : BranchCreate
opening = record { name = " Lakeside "; code = "LS"; address = none }

abbrev opened : Branch × Db
opened = value_or (branch, tenant) (create_branch_logged tenant manager opening)

opened_name : opened.0.name ≡ "Lakeside"
unfolding tenants
opened_name = refl

refused_again :
    create_branch opened.1 1 opening
    ≡ err (AppError.conflict "Branch code already exists in this organization")
unfolding tenants
refused_again = refl

Reach-HasUniqueCodes_example : HasUniqueCodes opened.1.branches
unfolding tenants
Reach-HasUniqueCodes_example =
    Reach-HasUniqueCodes {db = tenant} {after = opened.1} (refl, tt)
      (next here (created manager opening opened.0 refl))

abbrev platform : CurrentUser
platform = record manager { user_id = 1; org_id = 2; permissions = "platform:admin" ∷ [] }

abbrev suspension : Organization × Db
suspension =
    value_or (sample_organization, tenant)
      (update_organization_status tenant platform 1 OrgStatus.suspended "unpaid")

abbrev after_suspension : Directory
after_suspension = record {
  accounts = record { users = []; refresh_tokens = []; roles = []; permissions = [] };
  organizations = suspension.1.organizations;
  audit_logs = [];
}

suspended_is_refused_example :
    (e : AppError) × (get_active_current_user after_suspension manager ≡ err e)
unfolding tenants
suspended_is_refused_example =
    suspended_is_refused tenant platform 1 "unpaid" {r = suspension} refl after_suspension manager
      refl refl

abbrev key_request : ApiKeyCreate
key_request = record {
  name = "reports";
  scopes = "loan:approve" ∷ "loan:approve" ∷ [];
  expires_at = none;
}

abbrev material : KeyMaterial
material = record { raw_key = "ciq_live_x.y"; prefix = "x"; key_hash = "h" }

abbrev no_key : (ApiKey × String) × List ApiKey
no_key = (
  (
    record {
      id = 0;
      organization_id = 0;
      name = "";
      prefix = "";
      key_hash = "";
      scopes = [];
      created_by_user_id = 0;
      expires_at = none;
      revoked_at = none;
    },
    "",
  ),
  [],
)

abbrev issued : (ApiKey × String) × List ApiKey
issued = value_or no_key (create_api_key 9 material [] manager key_request)

one_scope : issued.0.0.scopes ≡ "loan:approve" ∷ []
unfolding tenants
one_scope = refl

create_api_key-IsDelegated_example : issued.1 ≡ issued.0.0 ∷ []
unfolding tenants
create_api_key-IsDelegated_example =
    (create_api_key-IsDelegated 9 material [] manager key_request {r = issued} refl).1

abbrev officer : Role
officer = record {
  id = 2;
  organization_id = some 1;
  name = "Reviewer";
  is_system = false;
  permissions = "loan:approve" ∷ [];
}

abbrev accounts : Accounts
accounts = record {
  users = [];
  refresh_tokens = [];
  roles = officer ∷ [];
  permissions = "loan:approve" ∷ [];
}

abbrev invitation : UserCreate
invitation = record {
  email = "r@b.c";
  password = "secret";
  role_names = "Reviewer" ∷ [];
  branch_id = some 5;
  applicant_id = none;
}

abbrev no_user : User
no_user = record {
  id = 0;
  organization_id = 0;
  branch_id = none;
  applicant_id = none;
  email = "";
  password_hash = "";
  status = active;
  roles = [];
  mfa_enabled = false;
  mfa_secret_encrypted = none;
  mfa_last_verified_step = none;
  last_login_at = none;
}

abbrev appointed : User × Accounts
appointed =
    value_or (no_user, accounts) (create_user (λ p. p) 9 tenant accounts 1 invitation manager)

create_user-IsAppointed_example : appointed.1.users ≡ appointed.0 ∷ []
unfolding tenants
create_user-IsAppointed_example =
    (create_user-IsAppointed (λ p. p) 9 tenant accounts 1 invitation manager {r = appointed} refl).1
