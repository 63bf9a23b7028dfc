-- ===== src/Loan/Service/Effects.antt =====
-- What `transition` writes, and what it leaves alone.
use mathlib.Core.Option
use credit_iq_ai.Prelude.{
  ◌≡◌, ◌∙◌, sym, if_same, refl, find, update_first, length, length-append, ◌==◌, ◌+◌, ℕ, String,
  true, Option, some, List, [], ◌∷◌, ◌++◌, arith, if◌then◌else◌, find-holds,
}
use credit_iq_ai.Shared.{LoanStatus, loan_transitions}
use credit_iq_ai.Errors.{ok, err, domain_rule, >>=-ok_inv}
use credit_iq_ai.Store.{
  LoanApplication, LoanWorkflowSettings, FraudAlert, Db, get_loan_row, get_organization_row,
  record_audit,
}
use credit_iq_ai.Access.{CurrentUser}
use credit_iq_ai.Loan.Workflow.{allowed, contains}
use credit_iq_ai.Loan.Workflow.Policy.{contains-allowed}
use credit_iq_ai.Loan.Service.{get_loan, workflow_settings, move, transition, is_row, set_status}

pub get_loan-row :
    (db : Db) (k : ℕ) (user : CurrentUser) {loan : LoanApplication}
    → get_loan db k user ≡ ok loan
    → get_loan_row db k ≡ some loan
unfolding get_loan
get_loan-row db k user h = ground arith

-- Inversion.
pub transition_inv :
    (db : Db) (user : CurrentUser) (k : ℕ) (to_status : LoanStatus) (reason : Option String)
    {r : LoanApplication × Db}
    → transition db user k to_status reason ≡ ok r
    → (loan : LoanApplication) × (s : LoanWorkflowSettings) × (get_loan db k user ≡ ok loan)
      × (workflow_settings db user ≡ ok s)
      × (contains (allowed s loan.status loan.amount) to_status ≡ true)
      × (move db user loan to_status reason ≡ r)
unfolding transition
transition_inv db user k to_status reason h =
    let (loan, hl, h1) = >>=-ok_inv (get_loan db k user) _ h in
    let (s, hs, h2) = >>=-ok_inv (workflow_settings db user) _ h1 in
    (loan, s, hl, hs, ground arith, ground arith)

-- The transition function, once the loan and the settings are read.
transition_lem :
    (db : Db) (user : CurrentUser) (k : ℕ) (to_status : LoanStatus) (reason : Option String)
    (loan : LoanApplication) (s : LoanWorkflowSettings)
    → get_loan db k user ≡ ok loan
    → workflow_settings db user ≡ ok s
    → transition db user k to_status reason ≡ (
        if contains (allowed s loan.status loan.amount) to_status
        then ok (move db user loan to_status reason)
        else err (domain_rule "Illegal transition"))
unfolding transition
transition_lem db user k to_status reason loan s hl hs = rw (hl, hs) (ground arith)

get_loan-alerts :
    (db : Db) (k : ℕ) (user : CurrentUser) (alerts : List FraudAlert)
    → get_loan (record db { alerts = alerts }) k user ≡ get_loan db k user
unfolding get_loan get_loan_row
get_loan-alerts db k user alerts = refl

workflow_settings-alerts :
    (db : Db) (user : CurrentUser) (alerts : List FraudAlert)
    → workflow_settings (record db { alerts = alerts }) user ≡ workflow_settings db user
unfolding workflow_settings get_organization_row
workflow_settings-alerts db user alerts = refl

-- If a transition succeeds, it succeeds with any other fraud alerts in the tables, with the same
-- loan, and the tables then differ in the alerts alone: no transition, approval included, consults
-- them.
pub transition_ignores_alerts :
    (db : Db) (user : CurrentUser) (k : ℕ) (to_status : LoanStatus) (reason : Option String)
    (alerts : List FraudAlert) {r : LoanApplication × Db}
    → transition db user k to_status reason ≡ ok r
    → transition (record db { alerts = alerts }) user k to_status reason
      ≡ ok (r.0, record (r.1) { alerts = alerts })
unfolding move record_audit
transition_ignores_alerts db user k to_status reason alerts h =
    let (loan, s, hl, hs, hc, hm) = transition_inv db user k to_status reason h in
    let changed = record db { alerts = alerts } in
    rw
      (transition_lem changed user k to_status reason loan s (get_loan-alerts db k user alerts ∙ hl)
        (workflow_settings-alerts db user alerts ∙ hs))
      (rw (hc, ← hm) refl)

find-set_status :
    (db : Db) (j k : ℕ) (t : LoanStatus) (ls : List LoanApplication)
    → find (is_row db j) (update_first (is_row db k) (set_status t) ls) ≡ (
        if j == k then Option.map (set_status t) (find (is_row db k) ls) else find (is_row db j) ls)
find-set_status db j k t [] = ground arith
find-set_status db j k t (l ∷ ls) = ground (arith, find-set_status db j k t ls)

-- A loan that was opened is the row under its own id.
pub get_loan-id :
    (db : Db) (k : ℕ) (user : CurrentUser) {loan : LoanApplication}
    → get_loan db k user ≡ ok loan
    → (loan.id ≡ k)
      × (loan.organization_id ≡ db.current_org)
      × (find (is_row db loan.id) db.loans ≡ some loan)
unfolding get_loan_row
get_loan-id db k user h =
    ground (
      arith,
      get_loan-row db k user h,
      find-holds (is_row db k) db.loans (get_loan-row db k user h),
    )

-- A successful transition sets the status of the loan that it names, to a status that the graph
-- allows after its old one, and changes no other field of it; it changes no other loan; it appends
-- one event, with the old and the new status, the caller and the reason; and it writes one audit
-- entry.
pub transition_effects :
    (db : Db) (user : CurrentUser) (k : ℕ) (to_status : LoanStatus) (reason : Option String)
    {r : LoanApplication × Db}
    → transition db user k to_status reason ≡ ok r
    → (loan : LoanApplication) × (get_loan db k user ≡ ok loan)
      × (contains (loan_transitions loan.status) to_status ≡ true)
      × (r.0 ≡ set_status to_status loan)
      × ((j : ℕ) → get_loan_row r.1 j ≡ (if j == loan.id then some r.0 else get_loan_row db j))
      × (r.1.events
          ≡ db.events
            ++ (record {
              organization_id = user.org_id;
              loan_id = loan.id;
              from_status = loan.status;
              to_status = to_status;
              actor_user_id = user.user_id;
              reason = reason;
            }
                ∷ []))
      × (length r.1.audit_logs ≡ length db.audit_logs + 1)
unfolding move record_audit get_loan_row
transition_effects db user k to_status reason h =
    let (loan, s, hl, hs, hc, hm) = transition_inv db user k to_status reason h in
    let (_, _, row) = get_loan-id db k user hl in
    (
      loan,
      hl,
      ground (arith, contains-allowed s loan.status to_status loan.amount),
      rw (← hm) refl,
      λ j. rw (← hm) (ground (arith, find-set_status db j loan.id to_status db.loans)),
      rw (← hm) refl,
      rw (← hm) (length-append db.audit_logs _),
    )

-- After a transition the row of the loan is the loan that it returns.
pub transition-row :
    (db : Db) (user : CurrentUser) (k : ℕ) (to_status : LoanStatus) (reason : Option String)
    {r : LoanApplication × Db}
    → transition db user k to_status reason ≡ ok r
    → get_loan_row r.1 k ≡ some r.0
transition-row db user k to_status reason {r} h =
    let (loan, hl, _, _, rows, _, _) = transition_effects db user k to_status reason h in
    rows k ∙ if_same k loan.id (some r.0) (get_loan_row db k) (sym (get_loan-id db k user hl).0)
