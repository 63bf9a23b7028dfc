-- ===== src/Loan/Servicing/Repaying.antt =====
-- What a repayment does to the balance of its loan, and when it closes the loan.
use mathlib.Core.Path.{subst}
use mathlib.Core.Bool.{false≢true}
use credit_iq_ai.Prelude.{
  ◌||◌, ◌≡◌, ◌≢◌, ◌∙◌, refl, sym, ap, ℕ, Bool, true, false, not, some, List, [], ◌∷◌, arith, ltb,
  length, select, All, Bool-cases, inl, inr,
}
use credit_iq_ai.Prelude.Int.{
  ℤ, pos, ◌+ℤ◌, ◌≤ℤ◌, ◌<ℤ◌, leb_ℤ, eqb_ℤ, eqb_ℤ-eq, eq-eqb_ℤ, int_laws, parts_of_eq, eq_of_parts,
}
use credit_iq_ai.Shared.{eq_status, active, defaulted, closed}
use credit_iq_ai.Errors.{ok, raise_if, >>=-ok_inv, ok-injective}
use credit_iq_ai.Store.{
  LoanApplication, LoanInstallment, LoanRepayment, Db, record_audit, get_loan_row,
}
use credit_iq_ai.Access.{CurrentUser}
use credit_iq_ai.Loan.Service.{get_loan, transition}
use credit_iq_ai.Loan.Service.Effects.{transition_effects, transition-row, get_loan-id}
use credit_iq_ai.Loan.Service.Screening.{IsScreened, transition-IsScreened}
use credit_iq_ai.Loan.Repayment.{
  total_outstanding, pay, remaining_after, allocate, allocate_repayment,
}
use credit_iq_ai.Loan.Repayment.Allocation.{
  IsOwed, allocate_repayment_conserves, allocate_repayment_inv,
}
use credit_iq_ai.Loan.Servicing.{
  RepaymentRequest, check_reference, time_or, of_loan, replace_where, book_repayment, settle,
  record_repayment,
}
use credit_iq_ai.Loan.Servicing.Disbursing.{transition-installments}

-- What the borrower of loan `k` owes.
abbrev pub owed : Db → ℕ → ℤ
owed db k = total_outstanding (select (of_loan db k) db.installments)

-- No part of an installment of loan `k` is overpaid.
abbrev pub IsSound : Db → ℕ → Type 0
IsSound db k = All IsOwed (select (of_loan db k) db.installments)

select_none :
    (p : LoanInstallment → Bool) (xs : List LoanInstallment)
    → length (select p xs) ≡ 0
    → select p xs ≡ []
select_none p [] h = refl
select_none p (x ∷ xs) h = ground (arith, select_none p xs)

select-All :
    (p : LoanInstallment → Bool) (xs : List LoanInstallment) → All (λ i. p i ≡ true) (select p xs)
select-All p [] = tt
select-All p (x ∷ xs) = elim (Bool-cases (p x)) [
  | inl hit ↦ rw hit (hit, select-All p xs)
  | inr miss ↦ rw miss (select-All p xs)
]

select-replace_where :
    (p : LoanInstallment → Bool) (xs new : List LoanInstallment)
    → length new ≡ length (select p xs)
    → All (λ i. p i ≡ true) new
    → select p (replace_where p xs new) ≡ new
select-replace_where p [] [] h a = refl
select-replace_where p [] (y ∷ ys) h a = absurd (omega arith)
select-replace_where p (x ∷ xs) [] h a = select_none p (x ∷ xs) (sym h)
select-replace_where p (x ∷ xs) (y ∷ ys) h (py, pys) = elim (Bool-cases (p x)) [
  | inl hit ↦ rw (hit, py) (ap (λ l. y ∷ l) (select-replace_where p xs ys (ground arith) pys))
  | inr miss ↦ rw (miss, miss) (select-replace_where p xs (y ∷ ys) (ground arith) (py, pys))
]

length-allocate :
    (now : ℕ) (r : ℤ) (is : List LoanInstallment) → length (allocate now r is) ≡ length is
unfolding allocate
length-allocate now r [] = refl
length-allocate now r (i ∷ is) = ground (arith, length-allocate now (remaining_after r i) is)

of_loan-allocate :
    (db : Db) (k now : ℕ) (r : ℤ) (is : List LoanInstallment)
    → All (λ i. of_loan db k i ≡ true) is
    → All (λ i. of_loan db k i ≡ true) (allocate now r is)
unfolding allocate pay
of_loan-allocate db k now r [] a = tt
of_loan-allocate db k now r (i ∷ is) (a, as') = elim (Bool-cases (leb_ℤ r (pos 0))) [
  | inl spent ↦ rw spent (a, as')
  | inr more ↦ rw more (a, of_loan-allocate db k now (remaining_after r i) is as')
]

-- Before a repayment on the left, after it on the right.
pub record IsRepaid (db after : Db) (k : ℕ) (amount : ℤ) : Type 0 where
  pub balance : owed after k +ℤ amount ≡ owed db k
  pub sound : IsSound after k
  pub positive : pos 0 <ℤ amount
  pub covered : amount ≤ℤ owed db k
  pub closes :
      owed after k ≡ pos 0
      → (loan : LoanApplication) × (get_loan_row after k ≡ some loan) × (loan.status ≡ closed)
  pub stays_open : owed after k ≢ pos 0 → after.loans ≡ db.loans

module _ (db : Db) (user : CurrentUser) (loan : LoanApplication) (body : RepaymentRequest)
    (paid_at : ℕ) (v : IsSound db loan.id) {allocated : List LoanInstallment × ℤ}
    (h : allocate_repayment (select (of_loan db loan.id) db.installments) body.amount paid_at
      ≡ ok allocated) where
  abbrev booked : LoanRepayment × Db
  booked = book_repayment db user loan body paid_at allocated.0

  booked-select : select (of_loan db loan.id) booked.1.installments ≡ allocated.0
  unfolding book_repayment record_audit
  booked-select =
      let is = select (of_loan db loan.id) db.installments in
      let (e, _) = allocate_repayment_inv is body.amount paid_at h in
      select-replace_where (of_loan db loan.id) db.installments allocated.0
        (ap length e ∙ length-allocate paid_at body.amount is)
        (subst (All (λ i. of_loan db loan.id i ≡ true)) (sym e) (
          of_loan-allocate db loan.id paid_at body.amount is
            (select-All (of_loan db loan.id) db.installments)))

  -- Tables with the installments that the repayment wrote have the balance that it left.
  owed-booked :
      (after : Db)
      → after.installments ≡ booked.1.installments
      → after.current_org ≡ db.current_org
      → select (of_loan after loan.id) after.installments ≡ allocated.0
  owed-booked after e o = rw (e, o) booked-select

  -- The balance after the repayment is zero exactly when the amount was all that was owed.
  zero_of_full : eqb_ℤ body.amount allocated.1 ≡ true → total_outstanding allocated.0 ≡ pos 0
  zero_of_full full =
      let c = allocate_repayment_conserves _ body.amount paid_at v h in
      eq_of_parts _ _
        (omega (int_laws, eqb_ℤ-eq body.amount allocated.1 full, parts_of_eq c.0, parts_of_eq c.1))

  full_of_zero : total_outstanding allocated.0 ≡ pos 0 → eqb_ℤ body.amount allocated.1 ≡ true
  full_of_zero z =
      let c = allocate_repayment_conserves _ body.amount paid_at v h in
      eq-eqb_ℤ body.amount allocated.1
        (omega (int_laws, parts_of_eq z, parts_of_eq c.0, parts_of_eq c.1))

  settle-IsRepaid :
      {r : LoanRepayment × Db}
      → settle (eqb_ℤ body.amount allocated.1) user loan booked ≡ ok r
      → IsRepaid db r.1 loan.id body.amount
  unfolding settle book_repayment record_audit
  settle-IsRepaid {r} hs =
      let (balance, before, sound, positive, covered) =
        allocate_repayment_conserves (select (of_loan db loan.id) db.installments) body.amount
          paid_at v h in
      elim (Bool-cases (eqb_ℤ body.amount allocated.1)) [
        | inl full ↦
            let (done, ht, h1) =
              >>=-ok_inv (transition booked.1 user loan.id closed (some "Loan fully repaid")) _
                (rw full at hs) in
            let (e, _, o) =
              transition-installments booked.1 user loan.id closed (some "Loan fully repaid") ht in
            let rows = owed-booked done.1 e o in
            let zero_balance = ap total_outstanding rows ∙ zero_of_full full in
            let (_, _, _, moved, _, _, _) =
              transition_effects booked.1 user loan.id closed (some "Loan fully repaid") ht in
            subst (λ x. IsRepaid db x.1 loan.id body.amount) (ok-injective h1)
              (record {
                balance = rw rows balance;
                sound = rw rows sound;
                positive = positive;
                covered = covered;
                closes = λ _. (
                  done.0,
                  transition-row booked.1 user loan.id closed (some "Loan fully repaid") ht,
                  ap (λ l. l.status) moved,
                );
                stays_open = λ n. absurd (n zero_balance);
              })
        | inr partly ↦
            let e = ok-injective (rw partly at hs) in
            let rows = owed-booked booked.1 refl refl in
            subst (λ x. IsRepaid db x.1 loan.id body.amount) e
              (record {
                balance = rw rows balance;
                sound = rw rows sound;
                positive = positive;
                covered = covered;
                closes = λ z.
                    let full = full_of_zero (sym (ap total_outstanding rows) ∙ z) in
                    absurd (false≢true (sym partly ∙ full));
                stays_open = λ _. refl;
              })
      ]

-- An accepted repayment on a loan of which no installment is overpaid lowers what its borrower owes
-- by exactly the amount, which is positive and at most what was owed, and overpays no installment.
-- If nothing is owed afterwards the loan is closed; if anything is, no loan is changed.
pub record_repayment-IsRepaid :
    (db : Db) (user : CurrentUser) (k : ℕ) (body : RepaymentRequest) (now : ℕ)
    {r : LoanRepayment × Db}
    → IsSound db k
    → record_repayment db user k body now ≡ ok r
    → IsRepaid db r.1 k body.amount
unfolding record_repayment
record_repayment-IsRepaid db user k body now {r} v h =
    let (loan, hl, h1) = >>=-ok_inv (get_loan db k user) _ h in
    let (_, hs, h2) =
      >>=-ok_inv
        (raise_if (not (eq_status loan.status active || eq_status loan.status defaulted)) _) _ h1 in
    let (_, hr, h3) = >>=-ok_inv (check_reference db user.org_id body.external_reference) _ h2 in
    let paid_at = time_or body.paid_at now in
    let (_, ht, h4) = >>=-ok_inv (raise_if (ltb now paid_at) _) _ h3 in
    let (allocated, ha, h5) =
      >>=-ok_inv
        (allocate_repayment (select (of_loan db loan.id) db.installments) body.amount paid_at) _
        h4 in
    let same = (get_loan-id db k user hl).0 in
    subst (λ n. IsRepaid db r.1 n body.amount) same
      (settle-IsRepaid db user loan body paid_at (subst (IsSound db) (sym same) v) ha h5)

-- A repayment makes no transition but the one to closed, and keeps the history complete.
settle-IsScreened :
    (user : CurrentUser) (loan : LoanApplication) (full : Bool) (rows r : LoanRepayment × Db)
    → settle full user loan rows ≡ ok r
    → IsScreened rows.1
    → IsScreened r.1
unfolding settle
settle-IsScreened user loan false rows r h scr = subst (λ x. IsScreened x.1) (ok-injective h) scr
settle-IsScreened user loan true rows r h scr =
    let (done, ht, h1) =
      >>=-ok_inv (transition rows.1 user loan.id closed (some "Loan fully repaid")) _ h in
    subst (λ x. IsScreened x.1) (ok-injective h1)
      (transition-IsScreened rows.1 user loan.id closed (some "Loan fully repaid") ht scr)

pub record_repayment-IsScreened :
    (db : Db) (user : CurrentUser) (k : ℕ) (body : RepaymentRequest) (now : ℕ)
    {r : LoanRepayment × Db}
    → record_repayment db user k body now ≡ ok r
    → IsScreened db
    → IsScreened r.1
unfolding record_repayment book_repayment record_audit
record_repayment-IsScreened db user k body now {r} h scr =
    let (loan, _, h1) = >>=-ok_inv (get_loan db k user) _ h in
    let (_, _, h2) =
      >>=-ok_inv
        (raise_if (not (eq_status loan.status active || eq_status loan.status defaulted)) _) _ h1 in
    let (_, _, h3) = >>=-ok_inv (check_reference db user.org_id body.external_reference) _ h2 in
    let paid_at = time_or body.paid_at now in
    let (_, _, h4) = >>=-ok_inv (raise_if (ltb now paid_at) _) _ h3 in
    let (allocated, _, h5) =
      >>=-ok_inv
        (allocate_repayment (select (of_loan db loan.id) db.installments) body.amount paid_at) _
        h4 in
    settle-IsScreened user loan (eqb_ℤ body.amount allocated.1)
      (book_repayment db user loan body paid_at allocated.0) r h5 scr
