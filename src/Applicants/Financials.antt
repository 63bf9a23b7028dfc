-- ===== src/Applicants/Financials.antt =====
-- `compute_financials` of backend/app/modules/applicant/service.py: the features that the engine
-- reads, over any floating-point arithmetic.
use credit_iq_ai.Prelude.{
  ◌≡◌, refl, sym, ap, subst, ◌∙◌, ℕ, String, Bool, true, false, ◌&&◌, ◌==◌, Option, some, none,
  List, [], ◌∷◌, length, exists, find, update_first, if◌then◌else◌, Bool-cases, inl, inr, arith,
}
use credit_iq_ai.Prelude.Text.{same}
use credit_iq_ai.Prelude.Int.{ℤ, pos, negsuc}
use credit_iq_ai.Float.{Float, zero_float, one_float, min_float, max_float}
use credit_iq_ai.Errors.{Result, ok, ◌>>=◌}
use credit_iq_ai.Store.{Applicant, get_applicant_row}
use credit_iq_ai.Access.{CurrentUser}
use credit_iq_ai.Applicants.{
  Flow, Asset, Liability, ExistingLoan, ApplicantProfileOut, ApplicantProfileUpdate, Records,
}
use credit_iq_ai.Applicants.Service.{all_of, get_applicant}
use credit_iq_ai.Applicants.Update.{updated, written, update_profile}
use credit_iq_ai.Applicants.Changes.{row_is, update_profile-IsChanged, update_profile_frame}
use credit_iq_ai.Applicants.Ledger.{TransactionRecord}

pub record Financials (N : Type 0) : Type 0 where
  pub monthly_income : N
  pub monthly_expenses : N
  pub monthly_debt_payments : N
  pub total_assets : N
  pub total_liabilities : N
  pub net_worth : N
  pub debt_to_income : N
  pub savings_ratio : N
  pub income_stability : N
  pub cashflow_volatility : N
  pub has_delinquency : Bool

-- What the aggregation reads of an applicant.
pub record Sheet : Type 0 where
  pub incomes : List Flow
  pub expenses : List Flow
  pub assets : List Asset
  pub liabilities : List Liability
  pub existing : List ExistingLoan
  pub amounts : List ℤ

abbrev pub amounts_of : ℕ → ℕ → List TransactionRecord → List ℤ
amounts_of org_id k [] = []
amounts_of org_id k (t ∷ ts) =
    let rest = amounts_of org_id k ts in
    if t.organization_id == org_id && t.applicant_id == k then t.amount ∷ rest else rest

abbrev pub amount_or_zero : Option ℤ → ℤ
amount_or_zero none = pos 0
amount_or_zero (some z) = z

module _ (F : Float) where
  open F use {Number, literal, lt, eq, add, sub, mul, div, sqrt, round_to}

  -- `float(amount)` of an amount in cents.
  abbrev pub of_cents : ℤ → Number
  of_cents z = literal z 2

  abbrev pub whole : ℕ → Number
  whole n = literal (pos n) 0

  unfoldable pub factor_of : String → Number
  unfolding same
  factor_of frequency =
      if same frequency "monthly"
      then whole 1
      else if same frequency "weekly"
      then literal (pos 433) 2
      else if same frequency "daily"
      then whole 30
      else if same frequency "yearly"
      then div (whole 1) (whole 12)
      else if same frequency "quarterly"
      then div (whole 1) (whole 3)
      else whole 1

  unfoldable pub monthly : ℤ → String → Number
  monthly amount frequency = mul (of_cents amount) (factor_of frequency)

  -- `sum(f(x) for x in xs)`
  unfoldable pub total : {A : Type 0} → (A → Number) → Number → List A → Number
  total f acc [] = acc
  total f acc (x ∷ xs) = total f (add acc (f x)) xs

  abbrev pub sum_by : {A : Type 0} → (A → Number) → List A → Number
  sum_by f xs = total f (whole 0) xs

  abbrev pub is_zero : Number → Bool
  is_zero x = eq x (zero_float F)

  -- The credits among the transactions.
  abbrev pub credits_of : List ℤ → List Number
  credits_of [] = []
  credits_of (z ∷ zs) =
      let rest = credits_of zs in if lt (zero_float F) (of_cents z) then of_cents z ∷ rest else rest

  abbrev pub square : Number → Number
  square x = mul x x

  unfoldable pub stability : List Number → Number
  stability [] = literal (pos 3) 1
  stability (c ∷ credits) =
      min_float F (one_float F) (div (whole (length (c ∷ credits))) (whole 30))

  unfoldable pub volatility : List Number → Number
  volatility [] = literal (pos 6) 1
  volatility (c ∷ credits) =
      let n = whole (length (c ∷ credits)) in
      let mean = div (sum_by (λ x. x) (c ∷ credits)) n in
      let variance = div (sum_by (λ x. square (sub x mean)) (c ∷ credits)) n in
      if is_zero mean
      then literal (pos 5) 1
      else min_float F (one_float F) (div (sqrt variance) mean)

  unfoldable pub aggregate : Sheet → Financials Number
  aggregate sheet =
      let income = sum_by (λ i. monthly i.amount i.frequency) sheet.incomes in
      let spending = sum_by (λ e. monthly e.amount e.frequency) sheet.expenses in
      let debt =
        add (sum_by (λ x. of_cents (amount_or_zero x.monthly_installment)) sheet.existing)
          (sum_by (λ b. of_cents (amount_or_zero b.monthly_payment)) sheet.liabilities) in
      let assets = sum_by (λ a. of_cents a.worth) sheet.assets in
      let owed =
        add (sum_by (λ b. of_cents b.outstanding_amount) sheet.liabilities)
          (sum_by (λ x. of_cents x.outstanding_amount) sheet.existing) in
      let dti = if is_zero income then one_float F else div debt income in
      let savings = sub (sub income spending) debt in
      let ratio = if is_zero income then zero_float F else div savings income in
      let credits = credits_of sheet.amounts in
      record {
        monthly_income = round_to income 2;
        monthly_expenses = round_to spending 2;
        monthly_debt_payments = round_to debt 2;
        total_assets = round_to assets 2;
        total_liabilities = round_to owed 2;
        net_worth = round_to (sub assets owed) 2;
        debt_to_income = round_to (min_float F dti (whole 2)) 4;
        savings_ratio =
            round_to (max_float F (min_float F ratio (one_float F)) (literal (negsuc 0) 0)) 4;
        income_stability = round_to (stability credits) 4;
        cashflow_volatility = round_to (volatility credits) 4;
        has_delinquency = exists (λ x. x.is_delinquent) sheet.existing;
      }

  abbrev pub sheet_of : Records → List TransactionRecord → ℕ → Sheet
  sheet_of s txns k = record {
    incomes = all_of s.db.current_org k s.profiles.incomes;
    expenses = all_of s.db.current_org k s.profiles.expenses;
    assets = all_of s.db.current_org k s.profiles.assets;
    liabilities = all_of s.db.current_org k s.profiles.liabilities;
    existing = all_of s.db.current_org k s.profiles.existing_loans;
    amounts = amounts_of s.db.current_org k txns;
  }

  unfoldable pub compute_financials :
      Records → List TransactionRecord → ℕ → Result (Financials Number)
  compute_financials s txns k = do
    applicant ← get_applicant s.db k none
    ok (aggregate (sheet_of s txns k))

find_other :
    (p q : Applicant → Bool) (f : Applicant → Applicant) (rows : List Applicant)
    → ((a : Applicant) → p (f a) ≡ p a)
    → ((a : Applicant) → q a ≡ true → p a ≡ false)
    → find p (update_first q f rows) ≡ find p rows
find_other p q f [] same_test apart = refl
find_other p q f (a ∷ rows) same_test apart = elim (Bool-cases (q a)) [
  | inl hit ↦
      let off = apart a hit in
      let off' : p (f a) ≡ false = same_test a ∙ off in rw (hit, off', off) refl
  | inr miss ↦ rw miss (elim (Bool-cases (p a)) [
    | inl seen ↦ rw seen refl
    | inr unseen ↦ rw unseen (find_other p q f rows same_test apart)
  ])
]

module _ (F : Float) (digest : String → String) where
  row_kept :
      (s : Records) (user : CurrentUser) (body : ApplicantProfileUpdate) (a : Applicant)
      (branch_id : Option ℕ) (j : ℕ)
      → (a.id == j) ≡ false
      → get_applicant_row (written digest s user body a branch_id).db j ≡ get_applicant_row s.db j
  unfolding get_applicant_row written
  row_kept s user body a branch_id j other =
      find_other (λ x. x.id == j && x.organization_id == s.db.current_org)
        (λ x. x.id == a.id && x.organization_id == s.db.current_org)
        (updated digest user body branch_id) s.db.applicants (λ x. refl) (λ x hit. ground arith)

  -- A change of the profile of one applicant leaves the financial features of every other
  -- applicant as they were.
  pub compute_financials_frame :
      (s : Records) (txns : List TransactionRecord) (user : CurrentUser) (k j : ℕ)
      (body : ApplicantProfileUpdate) {r : ApplicantProfileOut × Records}
      → update_profile digest s user k body ≡ ok r
      → (k == j) ≡ false
      → compute_financials F r.1 txns j ≡ compute_financials F s txns j
  unfolding compute_financials get_applicant
  compute_financials_frame s txns user k j body {r} h other =
      let c = update_profile-IsChanged digest s user k body h in
      let frame = update_profile_frame digest s user k j s.db.current_org body h other in
      let apart : (c.applicant.id == j) ≡ false =
        subst (λ n. (n == j) ≡ false) (sym (row_is digest s.db k c.found)) other in
      let row : get_applicant_row r.1.db j ≡ get_applicant_row s.db j =
        ap (λ d. get_applicant_row d j) c.tables
        ∙ row_kept s user body c.applicant c.branch_id j apart in
      rw (row, c.current_org, frame.3, frame.4, frame.5, frame.6, frame.7) refl
