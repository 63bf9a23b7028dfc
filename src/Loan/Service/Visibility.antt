-- ===== src/Loan/Service/Visibility.antt =====
-- Which loans a caller can list, and which it can open.
use credit_iq_ai.Prelude.{
  ◌≡◌, ◌↔◌, sym, ap, subst, ◌∙◌, ℕ, Bool, true, not, ◌&&◌, ◌||◌, some, none, is_none, opt_eq, ◌==◌,
  ==_iff, arith, find-holds, and_left, and_right, if◌then◌else◌,
}
use credit_iq_ai.Errors.{ok, or_raise, or_raise-found, >>=-ok_inv, ok-injective}
use credit_iq_ai.Store.{LoanApplication, Db, get_loan_row}
use credit_iq_ai.Access.{
  CurrentUser, has_org_wide_scope, is_applicant_user, require_applicant_ownership,
  require_branch_access, branch_predicate,
}
use credit_iq_ai.Loan.Service.{get_loan, listed}

-- The caller may see a loan of the session's tenant: an applicant its own, staff those of its branch
-- scope.
abbrev pub may_see : CurrentUser → LoanApplication → Bool
may_see user l =
    if is_applicant_user user
    then opt_eq user.applicant_id (some l.applicant_id)
    else has_org_wide_scope user
      || opt_eq l.branch_id user.branch_id && not (is_none user.branch_id)

listed_iff :
    (db : Db) (user : CurrentUser) (l : LoanApplication)
    → user.org_id ≡ db.current_org
    → (l.organization_id == db.current_org) ≡ true
    → listed db user none l ≡ may_see user l
unfolding listed branch_predicate
listed_iff db user l bound in_org = ground arith

pub get_loan_iff :
    (db : Db) (user : CurrentUser) (l : LoanApplication)
    → get_loan_row db l.id ≡ some l
    → (get_loan db l.id user ≡ ok l) ↔ (may_see user l ≡ true)
unfolding get_loan require_applicant_ownership require_branch_access
get_loan_iff db user l row = (λ h. let h' = rw row at h in ground arith, λ h. rw row (ground arith))

-- In a session of the caller's tenant, a loan that its identifier finds is in the caller's list
-- exactly when the caller can open it.
pub listed-get_loan :
    (db : Db) (user : CurrentUser) (l : LoanApplication)
    → user.org_id ≡ db.current_org
    → get_loan_row db l.id ≡ some l
    → (listed db user none l ≡ true) ↔ (get_loan db l.id user ≡ ok l)
unfolding get_loan_row
listed-get_loan db user l bound row =
    let found =
      find-holds (λ x. x.id == l.id && x.organization_id == db.current_org) db.loans row in
    let same_test = listed_iff db user l bound (and_right _ _ found) in
    let opens = get_loan_iff db user l row in
    (λ h. opens.1 (sym same_test ∙ h), λ h. same_test ∙ opens.0 h)

row_of :
    (db : Db) (k : ℕ) {l : LoanApplication}
    → get_loan_row db k ≡ some l
    → (l.id ≡ k) × (l.organization_id ≡ db.current_org)
unfolding get_loan_row
row_of db k {l} row =
    let found = find-holds (λ x. x.id == k && x.organization_id == db.current_org) db.loans row in
    (
      (==_iff l.id k).0 (and_left _ _ found),
      (==_iff l.organization_id db.current_org).0 (and_right _ _ found),
    )

get_loan-row :
    (db : Db) (user : CurrentUser) (k : ℕ) {l : LoanApplication}
    → get_loan db k user ≡ ok l
    → get_loan_row db k ≡ some l
unfolding get_loan
get_loan-row db user k h =
    let (x, hr, h1) = >>=-ok_inv (or_raise (get_loan_row db k) _) _ h in
    let (u, ho, h2) = >>=-ok_inv (require_applicant_ownership user x.applicant_id) _ h1 in
    let (u2, hb, h3) =
      >>=-ok_inv (if is_applicant_user user then ok tt else require_branch_access user x.branch_id)
        _ h2 in
    or_raise-found _ _ hr ∙ ap some (ok-injective h3)

-- A loan that a caller opens is of the session's tenant, and one that the caller may see.
pub get_loan-IsOwn :
    (db : Db) (user : CurrentUser) (k : ℕ) {l : LoanApplication}
    → get_loan db k user ≡ ok l
    → (l.id ≡ k) × (l.organization_id ≡ db.current_org) × (may_see user l ≡ true)
get_loan-IsOwn db user k {l} h =
    let row = get_loan-row db user k h in
    let (named, of_tenant) = row_of db k row in
    let row' = subst (λ n. get_loan_row db n ≡ some l) (sym named) row in
    let h' = subst (λ n. get_loan db n user ≡ ok l) (sym named) h in
    (named, of_tenant, (get_loan_iff db user l row').0 h')
