-- ===== src/Loan/History.antt =====
-- The endpoints of backend/app/modules/loan/router.py that change a loan, as steps of the tables,
-- in any order, by any callers: each is one transaction, which commits or changes nothing.
use credit_iq_ai.Prelude.{◌≡◌, ℕ, String, Option, some, List}
use credit_iq_ai.Shared.{LoanStatus, submitted, under_review, FraudSeverity}
use credit_iq_ai.Errors.{Result, ok, ◌>>=◌, >>=-ok_inv}
use credit_iq_ai.Store.{Date, LoanApplication, LoanRepayment, Db, record_audit}
use credit_iq_ai.Access.{CurrentUser}
use credit_iq_ai.Decimal.{Decimal}
use credit_iq_ai.Loan.Analysis.{Prediction, analyze, analyze-IsScreened}
use credit_iq_ai.Loan.Service.{LoanCreate, create_loan, transition, DecisionRequest, decide}
use credit_iq_ai.Loan.Service.Screening.{
  IsScreened, create_loan-IsScreened, transition-IsScreened, decide-IsScreened,
}
use credit_iq_ai.Loan.Servicing.{
  ServicingSettings, DisbursementRequest, create_disbursement, book_disbursement, RepaymentRequest,
  record_repayment,
}
use credit_iq_ai.Loan.Servicing.Disbursing.{create_disbursement-IsFunded}
use credit_iq_ai.Loan.Servicing.Repaying.{record_repayment-IsScreened}

-- The endpoint `submit`: two transitions in one transaction.
unfoldable pub submit : Db → CurrentUser → ℕ → Result (LoanApplication × Db)
submit db user loan_id = do
  first ← transition db user loan_id submitted (some "Submitted by applicant")
  transition first.1 user loan_id under_review (some "Queued for review")

submit-IsScreened :
    (db : Db) (user : CurrentUser) (k : ℕ) {r : LoanApplication × Db}
    → submit db user k ≡ ok r
    → IsScreened db
    → IsScreened r.1
unfolding submit
submit-IsScreened db user k h scr =
    let (first, hf, h1) =
      >>=-ok_inv (transition db user k submitted (some "Submitted by applicant")) _ h in
    transition-IsScreened first.1 user k under_review _ h1
      (transition-IsScreened db user k submitted _ hf scr)

module _ (D : Decimal) (settings : ServicingSettings) (severities : List FraudSeverity) where
  create_disbursement-IsScreened :
      (db : Db) (user : CurrentUser) (k : ℕ) (body : DisbursementRequest) (now : ℕ) (today : Date)
      {r : LoanApplication × Db}
      → create_disbursement D settings db user k body now today ≡ ok r
      → IsScreened db
      → IsScreened r.1
  unfolding book_disbursement record_audit
  create_disbursement-IsScreened db user k body now today h scr =
      let f = create_disbursement-IsFunded D settings db user k body now today h in
      transition-IsScreened _ user f.loan.id _ _ f.to_active
        (transition-IsScreened _ user f.loan.id _ _ f.to_disbursed scr)

  -- One committed request.
  pub data Step : Db → Db → Type 0 where
    creates :
        {db db' : Db} (user : CurrentUser) (body : LoanCreate) (ref_no : String)
        (loan : LoanApplication)
        → create_loan db user body ref_no ≡ ok (loan, db')
        → Step db db'
    submits :
        {db db' : Db} (user : CurrentUser) (k : ℕ) (loan : LoanApplication)
        → submit db user k ≡ ok (loan, db')
        → Step db db'
    analyzes :
        {db db' : Db} (predict : ℕ → Result Prediction) (user : CurrentUser) (k : ℕ)
        (prediction : Prediction)
        → analyze predict db user k ≡ ok (prediction, db')
        → Step db db'
    moves :
        {db db' : Db} (user : CurrentUser) (k : ℕ) (t : LoanStatus) (reason : Option String)
        (loan : LoanApplication)
        → transition db user k t reason ≡ ok (loan, db')
        → Step db db'
    decides :
        {db db' : Db} (user : CurrentUser) (k : ℕ) (body : DecisionRequest) (loan : LoanApplication)
        → decide severities db user k body ≡ ok (loan, db')
        → Step db db'
    disburses :
        {db db' : Db} (user : CurrentUser) (k : ℕ) (body : DisbursementRequest) (now : ℕ)
        (today : Date) (loan : LoanApplication)
        → create_disbursement D settings db user k body now today ≡ ok (loan, db')
        → Step db db'
    repays :
        {db db' : Db} (user : CurrentUser) (k : ℕ) (body : RepaymentRequest) (now : ℕ)
        (row : LoanRepayment)
        → record_repayment db user k body now ≡ ok (row, db')
        → Step db db'

  pub data Reach (start : Db) : Db → Type 0 where
    here : Reach start start
    next : {db db' : Db} → Reach start db → Step db db' → Reach start db'

  Step-IsScreened : {db db' : Db} → Step db db' → IsScreened db → IsScreened db'
  Step-IsScreened {db} (creates user body ref_no loan h) scr =
      create_loan-IsScreened db user body ref_no h scr
  Step-IsScreened {db} (submits user k loan h) scr = submit-IsScreened db user k h scr
  Step-IsScreened {db} (analyzes predict user k prediction h) scr =
      analyze-IsScreened predict db user k h scr
  Step-IsScreened {db} (moves user k t reason loan h) scr =
      transition-IsScreened db user k t reason h scr
  Step-IsScreened {db} (decides user k body loan h) scr =
      decide-IsScreened severities db user k body h scr
  Step-IsScreened {db} (disburses user k body now today loan h) scr =
      create_disbursement-IsScreened db user k body now today h scr
  Step-IsScreened {db} (repays user k body now row h) scr =
      record_repayment-IsScreened db user k body now h scr

  -- From tables where it holds, as tables without loans, after any sequence of requests that create a
  -- loan or change one, the analysis included, every loan has in its event history a move to each
  -- stage that its status presupposes: to AI analysis, fraud screening and officer review if it is
  -- approved, disbursed, active, closed or defaulted. The history records the moves alone: the
  -- endpoint `transition` makes them without an analysis being run.
  pub Reach-IsScreened : {start db : Db} → IsScreened start → Reach start db → IsScreened db
  Reach-IsScreened scr here = scr
  Reach-IsScreened scr (next before step) = Step-IsScreened step (Reach-IsScreened scr before)
