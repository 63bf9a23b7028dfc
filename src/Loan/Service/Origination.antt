-- ===== src/Loan/Service/Origination.antt =====
-- A new loan application, for the caller that created it.
use credit_iq_ai.Prelude.{
  ◌≡◌, refl, sym, subst, ℕ, String, Bool, true, ◌&&◌, Option, some, none, ◌==◌, List, [], ◌∷◌, ◌++◌,
  ==_iff, ==_refl, arith, find, find-holds, and_left, Bool-cases, inl, inr,
}
use credit_iq_ai.Shared.{draft}
use credit_iq_ai.Errors.{ok, or_raise, or_raise-found, >>=-ok_inv, ok-injective}
use credit_iq_ai.Store.{
  Applicant, LoanApplication, Db, get_loan_row, get_applicant_row, record_audit,
}
use credit_iq_ai.Access.{
  CurrentUser, require_applicant_ownership, require_branch_access, resolve_creation_branch,
}
use credit_iq_ai.Loan.Service.{
  LoanCreate, create_loan, creation_branch, check_product, get_loan, require_branch,
}
use credit_iq_ai.Loan.Service.Visibility.{may_see, get_loan_iff}

find_appended {ℓ} :
    {A : Type ℓ} (p : A → Bool) (xs : List A) (x : A)
    → find p xs ≡ none
    → p x ≡ true
    → find p (xs ++ (x ∷ [])) ≡ some x
find_appended p [] x h px = rw px refl
find_appended p (y ∷ ys) x h px = elim (Bool-cases (p y)) [
  | inl hit ↦ let bad : some y ≡ none = rw hit at h in cc
  | inr miss ↦ rw miss (find_appended p ys x (rw miss at h) px)
]

-- A caller may see what it may create.
created-may_see :
    (user : CurrentUser) (applicant : Applicant) (requested branch : Option ℕ) (l : LoanApplication)
    {u : Unit {0}}
    → require_applicant_ownership user applicant.id ≡ ok u
    → creation_branch user applicant requested ≡ ok branch
    → l.applicant_id ≡ applicant.id
    → l.branch_id ≡ branch
    → may_see user l ≡ true
unfolding require_applicant_ownership creation_branch require_branch_access resolve_creation_branch
created-may_see user applicant requested branch l owned placed same_applicant same_branch =
    ground arith

get_applicant_row-id :
    (db : Db) (k : ℕ) {a : Applicant} → get_applicant_row db k ≡ some a → a.id ≡ k
unfolding get_applicant_row
get_applicant_row-id db k {a} row =
    let found =
      find-holds (λ x. x.id == k && x.organization_id == db.current_org) db.applicants row in
    (==_iff a.id k).0 (and_left _ _ found)

-- In a session of the caller's tenant, a caller opens the loan that it has created, if the fresh
-- identifier was not in use: no branch or ownership rule of creation is wider than that of reading.
pub create_loan-get_loan :
    (db : Db) (user : CurrentUser) (body : LoanCreate) (ref_no : String) {r : LoanApplication × Db}
    → user.org_id ≡ db.current_org
    → find (λ l. l.id == db.next_id && l.organization_id == db.current_org) db.loans ≡ none
    → create_loan db user body ref_no ≡ ok r
    → get_loan r.1 r.0.id user ≡ ok r.0
unfolding create_loan record_audit get_loan_row
create_loan-get_loan db user body ref_no {r} bound unused h =
    let (applicant, ha, h1) =
      >>=-ok_inv (or_raise (get_applicant_row db body.applicant_id) _) _ h in
    let (u, ho, h2) = >>=-ok_inv (require_applicant_ownership user applicant.id) _ h1 in
    let (branch, hb, h3) = >>=-ok_inv (creation_branch user applicant body.branch_id) _ h2 in
    let (u1, hr, h4) = >>=-ok_inv (require_branch db user.org_id branch) _ h3 in
    let (u2, hp, h5) = >>=-ok_inv (check_product db user.org_id body body.product_id) _ h4 in
    let named = get_applicant_row-id db body.applicant_id (or_raise-found _ _ ha) in
    let own : (db.next_id == db.next_id && user.org_id == db.current_org) ≡ true =
      rw (==_refl db.next_id) ((==_iff user.org_id db.current_org).1 bound) in
    let loan : LoanApplication = record {
      id = db.next_id;
      organization_id = user.org_id;
      branch_id = branch;
      applicant_id = body.applicant_id;
      product_id = body.product_id;
      reference_no = ref_no;
      amount = body.amount;
      tenor_months = body.tenor_months;
      purpose = body.purpose;
      status = draft;
      created_by = user.user_id;
    } in
    subst (λ x. get_loan x.1 x.0.id user ≡ ok x.0) (ok-injective h5)
      ((get_loan_iff _ user loan (find_appended _ db.loans loan unused own)).1
        (created-may_see user applicant body.branch_id branch loan ho hb (sym named) refl))
