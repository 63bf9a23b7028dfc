-- ===== src/Identity/Catalog.antt =====
-- backend/app/modules/identity/rbac.py: the permission codes and the system roles, and how
-- `ensure_rbac` of service.py seeds them.
use credit_iq_ai.Prelude.{
  ℕ, ◌+◌, String, Bool, true, ◌&&◌, none, is_none, List, [], ◌∷◌, ◌++◌, exists, update_first,
  if◌then◌else◌,
}
use credit_iq_ai.Prelude.Text.{same}
use credit_iq_ai.Prelude.Dict.{Dict}
use credit_iq_ai.Access.{member}
use credit_iq_ai.Identity.Users.{Role, Accounts}

-- `PERMISSIONS.keys()`
abbrev pub permission_codes : List String
permission_codes =
    "org:configure" ∷ "user:manage" ∷ "role:manage" ∷ "applicant:read" ∷ "applicant:manage"
    ∷ "document:read" ∷ "document:upload" ∷ "loan:create" ∷ "loan:read" ∷ "loan:review"
    ∷ "loan:approve" ∷ "loan:disburse" ∷ "loan:service" ∷ "risk:read" ∷ "risk:override"
    ∷ "credit_score:read" ∷ "default:read" ∷ "explanation:read" ∷ "fraud:read" ∷ "fraud:resolve"
    ∷ "analytics:read" ∷ "report:export" ∷ "audit:read" ∷ "notification:read" ∷ "platform:admin"
    ∷ []

abbrev pub role_permissions : Dict (List String)
role_permissions =
    (
      "Applicant",
      "applicant:read" ∷ "document:read" ∷ "document:upload" ∷ "loan:create" ∷ "loan:read"
          ∷ "notification:read" ∷ [],
    )
    ∷ (
      "Loan Officer",
      "applicant:read" ∷ "applicant:manage" ∷ "document:read" ∷ "document:upload" ∷ "loan:create"
          ∷ "loan:read" ∷ "loan:review" ∷ "risk:read" ∷ "credit_score:read" ∷ "explanation:read"
          ∷ "fraud:read" ∷ "analytics:read" ∷ "notification:read" ∷ [],
    )
    ∷ (
      "Risk Analyst",
      "applicant:read" ∷ "document:read" ∷ "loan:read" ∷ "loan:review" ∷ "risk:read"
          ∷ "risk:override" ∷ "credit_score:read" ∷ "default:read" ∷ "explanation:read"
          ∷ "fraud:read" ∷ "analytics:read" ∷ "notification:read" ∷ [],
    )
    ∷ (
      "Branch Manager",
      "applicant:read" ∷ "document:read" ∷ "loan:read" ∷ "loan:review" ∷ "loan:approve"
          ∷ "loan:disburse" ∷ "loan:service" ∷ "risk:read" ∷ "credit_score:read" ∷ "default:read"
          ∷ "explanation:read" ∷ "fraud:read" ∷ "fraud:resolve" ∷ "analytics:read" ∷ "report:export"
          ∷ "notification:read" ∷ [],
    )
    ∷ (
      "Administrator",
      "org:configure" ∷ "user:manage" ∷ "role:manage" ∷ "applicant:read" ∷ "applicant:manage"
          ∷ "document:read" ∷ "document:upload" ∷ "loan:read" ∷ "loan:review" ∷ "loan:approve"
          ∷ "loan:service" ∷ "risk:read" ∷ "credit_score:read" ∷ "default:read" ∷ "explanation:read"
          ∷ "fraud:read" ∷ "fraud:resolve" ∷ "analytics:read" ∷ "report:export" ∷ "audit:read"
          ∷ "notification:read" ∷ [],
    )
    ∷ ("Super Admin", permission_codes)
    ∷ []

-- The permissions that the table lacks.
abbrev pub missing_permissions : List String → List String → List String
missing_permissions known [] = []
missing_permissions known (c ∷ cs) =
    let rest = missing_permissions known cs in if member c known then rest else c ∷ rest

-- `select(Role).where(Role.name == role_name, Role.organization_id.is_(None))`
abbrev pub is_system_role : String → Role → Bool
is_system_role name r = same r.name name && is_none r.organization_id

-- `id` is the identifier of a role that has to be added.
abbrev pub seed_role : ℕ → String → List String → List Role → List Role
seed_role id name codes roles =
    if exists (is_system_role name) roles
    then update_first (is_system_role name) (λ r. record r { permissions = codes }) roles
    else roles
      ++ (record {
        id = id;
        organization_id = none;
        name = name;
        is_system = true;
        permissions = codes;
      }
          ∷ [])

abbrev pub seed_roles : ℕ → Dict (List String) → List Role → List Role
seed_roles id [] roles = roles
seed_roles id ((name, codes) ∷ rest) roles =
    seed_roles (id + 1) rest (seed_role id name codes roles)

-- Users hold their own copy of a role, so a change of a role is that of every holder too.
unfoldable pub ensure_rbac : ℕ → Accounts → Accounts
ensure_rbac id db = record db {
  permissions = db.permissions ++ missing_permissions db.permissions permission_codes;
  roles = seed_roles id role_permissions db.roles;
}
