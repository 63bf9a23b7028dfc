-- ===== src/Access.antt =====
-- backend/app/core/data_scope.py and the caller of backend/app/core/deps.py: what a user may
-- reach inside the tenant.
use text.Mathlib.Text.{◌==◌ as str_eq}
use credit_iq_ai.Prelude.{
  ℕ, String, Bool, true, false, not, ◌&&◌, ◌||◌, Option, some, List, opt_eq, is_none, or_else,
  exists, if◌then◌else◌,
}
use credit_iq_ai.Errors.{Result, ok, err, permission_denied, raise_if}

pub record CurrentUser : Type 0 where
  pub user_id : ℕ
  pub org_id : ℕ
  pub branch_id : Option ℕ
  pub applicant_id : Option ℕ
  pub roles : List String
  pub permissions : List String
  pub home_org_id : Option ℕ

unfoldable pub member : String → List String → Bool
member s = exists (str_eq s)

-- `CurrentUser.has`
unfoldable pub has : CurrentUser → String → Bool
unfolding member
has user permission = member "platform:admin" user.permissions || member permission user.permissions

unfoldable pub has_org_wide_scope : CurrentUser → Bool
unfolding member
has_org_wide_scope user =
    member "platform:admin" user.permissions
    || member "Administrator" user.roles
    || member "Risk Analyst" user.roles
    || member "Super Admin" user.roles

unfoldable pub is_applicant_user : CurrentUser → Bool
unfolding member
is_applicant_user user = member "Applicant" user.roles

unfoldable pub require_applicant_ownership : CurrentUser → ℕ → Result (Unit {0})
require_applicant_ownership user applicant_id =
    raise_if (is_applicant_user user && not (opt_eq user.applicant_id (some applicant_id)))
      (permission_denied "Record is outside your applicant ownership scope")

-- The SQL predicate, as a test of a row's branch.
unfoldable pub branch_predicate : CurrentUser → Option ℕ → Bool
branch_predicate user branch_column =
    if has_org_wide_scope user
    then true
    else if is_none user.branch_id || is_applicant_user user
    then false
    else opt_eq branch_column user.branch_id

unfoldable pub require_branch_access : CurrentUser → Option ℕ → Result (Unit {0})
require_branch_access user branch_id =
    if has_org_wide_scope user
    then ok tt
    else raise_if
        (is_none user.branch_id || not (opt_eq branch_id user.branch_id) || is_applicant_user user)
        (permission_denied "Record is outside your authorized branch scope")

unfoldable pub resolve_creation_branch : CurrentUser → Option ℕ → Result (Option ℕ)
resolve_creation_branch user requested_branch_id =
    if has_org_wide_scope user
    then ok (or_else requested_branch_id user.branch_id)
    else if is_none user.branch_id || is_applicant_user user
    then err (permission_denied "A staff branch assignment is required")
    else if not (is_none requested_branch_id) && not (opt_eq requested_branch_id user.branch_id)
    then err (permission_denied "Cannot create records for another branch")
    else ok user.branch_id
