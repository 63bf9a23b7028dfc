-- ===== src/Loan/Service/Screening.antt =====
-- No loan reaches a status without the stages before it: the history records them.
use mathlib.Core.Path.{subst}
use credit_iq_ai.Prelude.{
  ◌≡◌, ℕ, String, Bool, true, ◌&&◌, Option, List, [], ◌∷◌, ◌++◌, arith, ◌==◌, exists,
  exists-append_left, exists-append_last, ==_refl, All, All-map, All-append, All-update_first,
  find-All,
}
use credit_iq_ai.Shared.{LoanStatus, value, eq_status, loan_transitions, FraudSeverity}
use credit_iq_ai.Errors.{ok, >>=-ok_inv, ok-injective, or_raise}
use credit_iq_ai.Store.{LoanApplication, LoanWorkflowEvent, Db, record_audit, get_applicant_row}
use credit_iq_ai.Access.{CurrentUser, require_applicant_ownership}
use credit_iq_ai.Loan.Workflow.{contains}
use credit_iq_ai.Loan.Workflow.Policy.{presupposes, presupposes-edge, contains-allowed}
use credit_iq_ai.Loan.Service.{
  creation_branch, require_branch, check_product, LoanCreate, DecisionRequest, get_loan,
  create_loan, clearance, decision_target, move, transition, decide, is_row, set_status,
}
use credit_iq_ai.Loan.Service.Effects.{transition_inv, get_loan-id}

-- The history holds a move of loan `k` to `s`.
abbrev pub passed : List LoanWorkflowEvent → ℕ → LoanStatus → Bool
passed events k s = exists (λ e. e.loan_id == k && eq_status e.to_status s) events

abbrev pub IsJustified : List LoanWorkflowEvent → LoanApplication → Type 0
IsJustified events l = All (λ s. passed events l.id s ≡ true) (presupposes l.status)

-- Every loan has passed every stage that its status presupposes.
abbrev pub IsScreened : Db → Type 0
IsScreened db = All (IsJustified db.events) db.loans

IsJustified-append :
    (events more : List LoanWorkflowEvent) (l : LoanApplication)
    → IsJustified events l
    → IsJustified (events ++ more) l
IsJustified-append events more l =
    All-map (λ s. passed events l.id s ≡ true) (λ s. passed (events ++ more) l.id s ≡ true)
      (presupposes l.status)
      (λ s. exists-append_left (λ e. e.loan_id == l.id && eq_status e.to_status s) events more)

passed-last :
    (events : List LoanWorkflowEvent) (e : LoanWorkflowEvent)
    → passed (events ++ (e ∷ [])) e.loan_id e.to_status ≡ true
passed-last events e =
    exists-append_last (λ x. x.loan_id == e.loan_id && eq_status x.to_status e.to_status) events e
      (rw (==_refl e.loan_id, ==_refl (value e.to_status)))

move-IsScreened :
    (db : Db) (user : CurrentUser) (k : ℕ) (loan : LoanApplication) (t : LoanStatus)
    (reason : Option String)
    → get_loan db k user ≡ ok loan
    → contains (loan_transitions loan.status) t ≡ true
    → IsScreened db
    → IsScreened (move db user loan t reason).1
unfolding move record_audit
move-IsScreened db user k loan t reason hl hc h =
    let (_, _, row) = get_loan-id db k user hl in
    let later = (move db user loan t reason).1.events in
    let e : LoanWorkflowEvent = record {
      organization_id = user.org_id;
      loan_id = loan.id;
      from_status = loan.status;
      to_status = t;
      actor_user_id = user.user_id;
      reason = reason;
    } in
    let old =
      All-map (IsJustified db.events) (IsJustified later) db.loans
        (λ l. IsJustified-append db.events (e ∷ []) l) h in
    All-update_first (IsJustified later) (is_row db loan.id) (set_status t) db.loans row
      (presupposes-edge (passed later loan.id) loan.status t hc (passed-last db.events e)
        (find-All (IsJustified later) (is_row db loan.id) db.loans row old))
      old

-- If every loan has passed the stages that its status presupposes, so it is after any successful
-- transition: in particular no loan is ever approved, disbursed or active without AI analysis,
-- fraud screening and officer review in its history, whatever the tenant's settings.
pub transition-IsScreened :
    (db : Db) (user : CurrentUser) (k : ℕ) (t : LoanStatus) (reason : Option String)
    {r : LoanApplication × Db}
    → transition db user k t reason ≡ ok r
    → IsScreened db
    → IsScreened r.1
transition-IsScreened db user k t reason h scr =
    let (loan, s, hl, hs, hc, hm) = transition_inv db user k t reason h in
    rw (← hm) (
      move-IsScreened db user k loan t reason hl
        (ground (arith, contains-allowed s loan.status t loan.amount)) scr)

-- A new loan is a draft, which presupposes nothing, so creating one keeps the history complete.
pub create_loan-IsScreened :
    (db : Db) (user : CurrentUser) (body : LoanCreate) (ref_no : String) {r : LoanApplication × Db}
    → create_loan db user body ref_no ≡ ok r
    → IsScreened db
    → IsScreened r.1
unfolding create_loan record_audit
create_loan-IsScreened db user body ref_no {r} h scr =
    let (applicant, _, h1) = >>=-ok_inv (or_raise (get_applicant_row db body.applicant_id) _) _ h in
    let (_, _, h2) = >>=-ok_inv (require_applicant_ownership user applicant.id) _ h1 in
    let (branch, _, h3) = >>=-ok_inv (creation_branch user applicant body.branch_id) _ h2 in
    let (_, _, h4) = >>=-ok_inv (require_branch db user.org_id branch) _ h3 in
    let (_, _, h5) = >>=-ok_inv (check_product db user.org_id body body.product_id) _ h4 in
    subst (λ x. IsScreened x.1) (ok-injective h5)
      (All-append (IsJustified db.events) db.loans _ scr (tt, tt))

-- A decision keeps the history complete.
pub decide-IsScreened :
    (severities : List FraudSeverity) (db : Db) (user : CurrentUser) (k : ℕ)
    (body : DecisionRequest) {r : LoanApplication × Db}
    → decide severities db user k body ≡ ok r
    → IsScreened db
    → IsScreened r.1
unfolding decide
decide-IsScreened severities db user k body h scr =
    let (loan, hl, h1) = >>=-ok_inv (get_loan db k user) _ h in
    let (_, hc, h2) = >>=-ok_inv (clearance body.decision severities db loan.id) _ h1 in
    transition-IsScreened _ user k (decision_target body.decision) _ h2 scr
