-- ===== src/Applicants/Visibility.antt =====
-- Which applicants a caller can list, and which it can open.
use credit_iq_ai.Prelude.{◌≡◌, ◌↔◌, true, ◌&&◌, some, ◌==◌, arith, find-holds, and_right}
use credit_iq_ai.Errors.{ok}
use credit_iq_ai.Store.{Applicant, Db, get_applicant_row}
use credit_iq_ai.Access.{
  CurrentUser, require_applicant_ownership, require_branch_access, branch_predicate,
}
use credit_iq_ai.Applicants.Service.{get_applicant, is_listed}

opens_iff :
    (db : Db) (user : CurrentUser) (a : Applicant)
    → get_applicant_row db a.id ≡ some a
    → user.org_id ≡ db.current_org
    → (a.organization_id == db.current_org) ≡ true
    → (is_listed db user a ≡ true) ↔ (get_applicant db a.id (some user) ≡ ok a)
unfolding get_applicant require_applicant_ownership require_branch_access branch_predicate
opens_iff db user a row bound in_org =
    (λ h. rw row (ground arith), λ h. let h' = rw row at h in ground arith)

-- In a session of its tenant, an applicant that its identifier finds is in the list of a caller
-- exactly when the caller can open it.
pub listed-get_applicant :
    (db : Db) (user : CurrentUser) (a : Applicant)
    → get_applicant_row db a.id ≡ some a
    → user.org_id ≡ db.current_org
    → (is_listed db user a ≡ true) ↔ (get_applicant db a.id (some user) ≡ ok a)
unfolding get_applicant_row
listed-get_applicant db user a row bound = opens_iff db user a row bound (
    and_right _ _
      (find-holds (λ x. x.id == a.id && x.organization_id == db.current_org) db.applicants row))
