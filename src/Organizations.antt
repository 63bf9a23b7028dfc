-- ===== src/Organizations.antt =====
-- backend/app/modules/organization/service.py and the endpoints of its router.py that write: the
-- profile of a tenant, its branches and its status.
pub mod Onboarding
pub mod Codes
pub mod Suspension
use credit_iq_ai.Prelude.{
  ℕ, ◌+◌, String, Bool, true, false, not, ◌&&◌, Option, some, none, List, [], ◌∷◌, ◌++◌, ◌==◌, find,
  exists, update_first, if◌then◌else◌,
}
use credit_iq_ai.Prelude.Text.{same, strip}
use credit_iq_ai.Shared.{OrgStatus, is_active_org}
use credit_iq_ai.Errors.{
  Result, ok, err, raise_if, or_raise, ◌>>=◌, ◌>>◌, not_found, conflict, domain_rule,
}
use credit_iq_ai.Store.{
  Organization, Branch, GeneralSettings, LoanWorkflowSettings, Db, AuditLog, Snapshot, nothing,
  organization_profile, organization_status, branch_created, branch_profile, branch_status,
  record_audit, get_organization_row,
}
use credit_iq_ai.Access.{CurrentUser}

pub record OrganizationUpdate : Type 0 where
  pub name : String
  pub nrb_license_no : Option String
  pub general : GeneralSettings
  pub loan_workflow : LoanWorkflowSettings

-- The code is in its normal form.
pub record BranchCreate : Type 0 where
  pub name : String
  pub code : String
  pub address : Option String

pub record BranchUpdate : Type 0 where
  pub name : String
  pub address : Option String
  pub is_active : Bool

-- `text.strip() if text else None`
unfoldable pub strip_optional : Option String → Option String
unfolding same
strip_optional none = none
strip_optional (some text) = if same text "" then none else some (strip text)

-- An entry in the log of a tenant.
abbrev pub entry : ℕ → ℕ → String → String → ℕ → Snapshot → Snapshot → AuditLog
entry org_id actor action entity_type entity_id before_state after_state = record {
  organization_id = org_id;
  actor_user_id = actor;
  action = action;
  entity_type = entity_type;
  entity_id = entity_id;
  before = before_state;
  after = after_state;
}

abbrev pub with_profile : OrganizationUpdate → Organization → Organization
with_profile body o = record o {
  name = strip body.name;
  nrb_license_no = strip_optional body.nrb_license_no;
  general = some body.general;
  loan_workflow = some body.loan_workflow;
}

unfoldable pub update_organization : Db → ℕ → OrganizationUpdate → Result (Organization × Db)
update_organization db org_id body = do
  organization ← or_raise (get_organization_row db org_id) (not_found "Organization not found")
  ok (
    with_profile body organization,
    record db {
      organizations = update_first (λ o. o.id == org_id) (with_profile body) db.organizations;
    },
  )

abbrev pub profile_of : Organization → Snapshot
profile_of o = organization_profile o.name o.nrb_license_no o.general o.loan_workflow

unfoldable pub update_my_org : Db → CurrentUser → OrganizationUpdate → Result (Organization × Db)
update_my_org db user body = do
  current ← or_raise (get_organization_row db user.org_id) (not_found "Organization not found")
  updated ← update_organization db user.org_id body
  ok (
    updated.0,
    record_audit
        (entry user.org_id user.user_id "organization.update" "organization" updated.0.id
          (profile_of current) (profile_of updated.0))
        updated.1,
  )

abbrev pub has_code : ℕ → String → Branch → Bool
has_code org_id code b = b.organization_id == org_id && same b.code code

-- The unique constraint of the table says the same again.
unfoldable pub create_branch : Db → ℕ → BranchCreate → Result (Branch × Db)
create_branch db org_id body = do
  raise_if (exists (has_code org_id body.code) db.branches)
      (conflict "Branch code already exists in this organization")
  let branch : Branch = record {
    id = db.next_id;
    organization_id = org_id;
    name = strip body.name;
    code = body.code;
    address = strip_optional body.address;
    is_active = true;
  }
  ok (branch, record db { next_id = db.next_id + 1; branches = db.branches ++ (branch ∷ []) })

unfoldable pub create_branch_logged : Db → CurrentUser → BranchCreate → Result (Branch × Db)
create_branch_logged db user body = do
  created ← create_branch db user.org_id body
  ok (
    created.0,
    record_audit
        (entry user.org_id user.user_id "branch.create" "branch" created.0.id nothing
          (branch_created created.0.name created.0.code created.0.is_active))
        created.1,
  )

abbrev pub get_branch_row : Db → ℕ → Option Branch
get_branch_row db k = find (λ b. b.id == k) db.branches

abbrev pub with_branch : BranchUpdate → Branch → Branch
with_branch body b = record b {
  name = strip body.name;
  address = strip_optional body.address;
  is_active = body.is_active;
}

unfoldable pub own_branch : Db → ℕ → ℕ → Result Branch
own_branch db org_id branch_id = do
  branch ←
      or_raise (get_branch_row db branch_id) (not_found "Branch not found in this organization")
  raise_if (not (branch.organization_id == org_id))
      (not_found "Branch not found in this organization")
  ok branch

unfoldable pub update_branch : Db → ℕ → ℕ → BranchUpdate → Result (Branch × Db)
update_branch db org_id branch_id body = do
  branch ← own_branch db org_id branch_id
  ok (
    with_branch body branch,
    record db { branches = update_first (λ b. b.id == branch_id) (with_branch body) db.branches },
  )

unfoldable pub update_branch_logged : Db → CurrentUser → ℕ → BranchUpdate → Result (Branch × Db)
update_branch_logged db user branch_id body = do
  current ← own_branch db user.org_id branch_id
  updated ← update_branch db user.org_id branch_id body
  ok (
    updated.0,
    record_audit
        (entry user.org_id user.user_id "branch.update" "branch" updated.0.id
          (branch_profile current.name current.address current.is_active)
          (branch_status updated.0.name updated.0.is_active))
        updated.1,
  )

abbrev pub is_suspension : OrgStatus → Bool
is_suspension OrgStatus.suspended = true
is_suspension _ = false

abbrev pub with_org_status : OrgStatus → Organization → Organization
with_org_status status o = record o { status = status }

-- The schema admits `active` and `suspended`. The session is bound to the organization before the
-- entry is written.
unfoldable pub update_organization_status :
    Db → CurrentUser → ℕ → OrgStatus → String → Result (Organization × Db)
update_organization_status db user organization_id status reason = do
  raise_if (organization_id == user.org_id && is_suspension status)
      (domain_rule "Switch to another active organization before suspending the current one")
  organization ←
      or_raise (get_organization_row db organization_id) (not_found "Organization not found")
  ok (
    with_org_status status organization,
    record_audit
        (entry organization.id user.user_id "platform.organization.status.update" "organization"
          organization.id (organization_status organization.status none)
          (organization_status status (some reason)))
        (record db {
          current_org = organization.id;
          organizations =
              update_first (λ o. o.id == organization_id) (with_org_status status) db.organizations;
        }),
  )
