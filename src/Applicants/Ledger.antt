-- ===== src/Applicants/Ledger.antt =====
-- `list_transactions` of backend/app/modules/applicant/service.py: a page of the ledger of an
-- applicant, with its totals; and the simulated transactions of the router.
use credit_iq_ai.Prelude.{
  ◌≡◌, ◌∙◌, ap, refl, subst, ℕ, zero, suc, ◌+◌, ◌≤◌, String, Bool, true, not, ◌&&◌, ◌||◌, Option,
  some, none, List, [], ◌∷◌, ◌++◌, ◌==◌, ltb, leb, select, All, length, arith, if◌then◌else◌,
  Bool-cases, inl, inr,
}
use credit_iq_ai.Prelude.Text.{same}
use credit_iq_ai.Prelude.Int.{
  ℤ, pos, ◌+ℤ◌, ◌-ℤ◌, ltb_ℤ, pos_part, neg_part, +ℤ_parts, -ℤ_parts, eq_of_parts, parts_of_eq,
  int_laws,
}
use credit_iq_ai.Prelude.Sorting.{sort_by, sort_by-All}
use credit_iq_ai.Errors.{Result, ok, ◌>>=◌, >>=-ok_inv, ok-injective}
use credit_iq_ai.Float.{Float}
use credit_iq_ai.Store.{Db}
use credit_iq_ai.Access.{CurrentUser}
use credit_iq_ai.Applicants.Service.{get_applicant}

-- Amounts are in cents: a credit is positive, a debit negative.
pub record TransactionRecord : Type 0 where
  pub id : ℕ
  pub organization_id : ℕ
  pub applicant_id : ℕ
  pub source_type : String
  pub txn_date : ℕ
  pub amount : ℤ
  pub description : Option String
  pub is_simulated : Bool

pub record TransactionPage (N : Type 0) : Type 0 where
  pub items : List TransactionRecord
  pub total : ℕ
  pub total_credits : N
  pub total_debits : N
  pub net_cashflow : N
  pub simulated_count : ℕ

abbrev pub of_source : Option String → TransactionRecord → Bool
of_source none t = true
of_source (some source) t = same t.source_type source

-- The conditions of the query, in a session of the caller's tenant.
abbrev pub is_selected : CurrentUser → ℕ → Option String → TransactionRecord → Bool
is_selected user k source t =
    t.organization_id == user.org_id && t.applicant_id == k && of_source source t

-- `case((amount > 0, amount), else_=0)` and its counterpart for debits.
abbrev pub credit : TransactionRecord → ℤ
credit t = if ltb_ℤ (pos 0) t.amount then t.amount else pos 0

abbrev pub debit : TransactionRecord → ℤ
debit t = if ltb_ℤ t.amount (pos 0) then pos 0 -ℤ t.amount else pos 0

-- `coalesce(sum(...), 0)`
unfoldable pub sum_of : (TransactionRecord → ℤ) → List TransactionRecord → ℤ
sum_of f [] = pos 0
sum_of f (t ∷ ts) = f t +ℤ sum_of f ts

-- Latest first, and by identifier among equal dates.
abbrev pub is_later : TransactionRecord → TransactionRecord → Bool
is_later a b = ltb b.txn_date a.txn_date || a.txn_date == b.txn_date && leb b.id a.id

abbrev pub drop_first : {A : Type 0} → ℕ → List A → List A
drop_first zero xs = xs
drop_first (suc n) [] = []
drop_first (suc n) (x ∷ xs) = drop_first n xs

abbrev pub take_first : {A : Type 0} → ℕ → List A → List A
take_first zero xs = []
take_first (suc n) [] = []
take_first (suc n) (x ∷ xs) = x ∷ take_first n xs

module _ (F : Float) where
  open F use {Number, literal, sub, round_to}

  -- `float(...)` of a sum of amounts
  abbrev pub float_of : ℤ → Number
  float_of cents = literal cents 2

  abbrev pub page_of : ℕ → ℕ → List TransactionRecord → TransactionPage Number
  page_of limit offset rows = record {
    items = take_first limit (drop_first offset (sort_by is_later rows));
    total = length rows;
    total_credits = round_to (float_of (sum_of credit rows)) 2;
    total_debits = round_to (float_of (sum_of debit rows)) 2;
    net_cashflow = round_to (sub (float_of (sum_of credit rows)) (float_of (sum_of debit rows))) 2;
    simulated_count = length (select (λ t. t.is_simulated) rows);
  }

  unfoldable pub list_transactions :
      Db
      → List TransactionRecord
      → CurrentUser
      → ℕ
      → Option String
      → ℕ
      → ℕ
      → Result (TransactionPage Number)
  list_transactions db txns user k source limit offset = do
    applicant ← get_applicant db k (some user)
    ok (page_of limit offset (select (is_selected user k source) txns))

-- A transaction of the wallet adapter.
pub record WalletTxn : Type 0 where
  pub txn_date : ℕ
  pub amount : ℤ
  pub description : Option String

abbrev pub is_simulated_wallet : CurrentUser → ℕ → TransactionRecord → Bool
is_simulated_wallet user k t =
    t.organization_id == user.org_id
    && t.applicant_id == k
    && same t.source_type "wallet"
    && t.is_simulated

-- `next` is the first fresh identifier.
abbrev pub wallet_rows : CurrentUser → ℕ → ℕ → List WalletTxn → List TransactionRecord
wallet_rows user k next [] = []
wallet_rows user k next (t ∷ ts) =
    record {
      id = next;
      organization_id = user.org_id;
      applicant_id = k;
      source_type = "wallet";
      txn_date = t.txn_date;
      amount = t.amount;
      description = t.description;
      is_simulated = true;
    }
    ∷ wallet_rows user k (next + 1) ts

-- The count of the rows that are replaced, and the ledger after it.
unfoldable pub simulate_transactions :
    Db
    → List TransactionRecord
    → CurrentUser
    → ℕ
    → ℕ
    → List WalletTxn
    → Result (ℕ × List TransactionRecord)
simulate_transactions db txns user k next fetched = do
  applicant ← get_applicant db k (some user)
  ok (
    length (select (is_simulated_wallet user k) txns),
    select (λ t. not (is_simulated_wallet user k t)) txns ++ wallet_rows user k next fetched,
  )

one_side :
    (t : TransactionRecord)
    → pos_part (credit t) + neg_part (debit t) + neg_part t.amount
      ≡ pos_part t.amount + neg_part (credit t) + pos_part (debit t)
unfolding ◌-ℤ◌
one_side t = ground arith

-- Credits less debits are the sum of the amounts.
balance :
    (ts : List TransactionRecord) → sum_of credit ts -ℤ sum_of debit ts ≡ sum_of (λ t. t.amount) ts
unfolding sum_of
balance [] = eq_of_parts _ _ (let d = -ℤ_parts (pos 0) (pos 0) in omega arith)
balance (t ∷ ts) =
    let rest = parts_of_eq (balance ts) in
    let d = -ℤ_parts (sum_of credit ts) (sum_of debit ts) in
    let e = -ℤ_parts (credit t +ℤ sum_of credit ts) (debit t +ℤ sum_of debit ts) in
    let a = +ℤ_parts (credit t) (sum_of credit ts) in
    let b = +ℤ_parts (debit t) (sum_of debit ts) in
    let c = +ℤ_parts t.amount (sum_of (λ x. x.amount) ts) in
    let f = one_side t in eq_of_parts _ _ (omega arith)

length-take_first : {A : Type 0} (n : ℕ) (xs : List A) → length (take_first n xs) ≤ n
length-take_first zero xs = omega arith
length-take_first (suc n) [] = omega arith
length-take_first (suc n) (x ∷ xs) = omega (arith, length-take_first n xs)

All-take_first {κ} :
    {A : Type 0} (P : A → Type κ) (n : ℕ) (xs : List A) → All P xs → All P (take_first n xs)
All-take_first P zero xs h = tt
All-take_first P (suc n) [] h = tt
All-take_first P (suc n) (x ∷ xs) (p, ps) = (p, All-take_first P n xs ps)

All-drop_first {κ} :
    {A : Type 0} (P : A → Type κ) (n : ℕ) (xs : List A) → All P xs → All P (drop_first n xs)
All-drop_first P zero xs h = h
All-drop_first P (suc n) [] h = tt
All-drop_first P (suc n) (x ∷ xs) (p, ps) = All-drop_first P n xs ps

All-selected : {A : Type 0} (p : A → Bool) (xs : List A) → All (λ x. p x ≡ true) (select p xs)
All-selected p [] = tt
All-selected p (x ∷ xs) = elim (Bool-cases (p x)) [
  | inl hit ↦ rw hit (hit, All-selected p xs)
  | inr miss ↦ rw miss (All-selected p xs)
]

abbrev is_credit : TransactionRecord → Bool
is_credit t = ltb_ℤ (pos 0) t.amount

abbrev is_debit : TransactionRecord → Bool
is_debit t = ltb_ℤ t.amount (pos 0)

zero_plus : (a : ℤ) → pos 0 +ℤ a ≡ a
zero_plus a = omega int_laws

-- A sum where the rows outside a condition count nothing.
sum_of-select :
    (p : TransactionRecord → Bool) (f : TransactionRecord → ℤ) (ts : List TransactionRecord)
    → sum_of (λ t. if p t then f t else pos 0) ts ≡ sum_of f (select p ts)
unfolding sum_of
sum_of-select p f [] = refl
sum_of-select p f (t ∷ ts) = elim (Bool-cases (p t)) [
  | inl hit ↦ rw hit (ap (λ z. f t +ℤ z) (sum_of-select p f ts))
  | inr miss ↦ rw miss (zero_plus _ ∙ sum_of-select p f ts)
]

module _ (F : Float) where
  -- What a page says of the ledger, where `rows` are the transactions that it is about.
  pub record IsStatement (user : CurrentUser) (k : ℕ) (source : Option String) (limit : ℕ)
      (rows : List TransactionRecord) (page : TransactionPage (F.Number)) : Type 0 where
    pub is_short : length page.items ≤ limit
    pub is_own : All (λ t. is_selected user k source t ≡ true) page.items
    pub counts : page.total ≡ length rows
    pub credits : ℤ
    pub debits : ℤ
    pub credits_are : credits ≡ sum_of (λ t. t.amount) (select is_credit rows)
    pub debits_are : debits ≡ sum_of (λ t. pos 0 -ℤ t.amount) (select is_debit rows)
    pub is_balanced : credits -ℤ debits ≡ sum_of (λ t. t.amount) rows
    pub credits_shown : page.total_credits ≡ F.round_to (float_of F credits) 2
    pub debits_shown : page.total_debits ≡ F.round_to (float_of F debits) 2
    pub net_shown :
        page.net_cashflow ≡ F.round_to (F.sub (float_of F credits) (float_of F debits)) 2
    pub simulated : page.simulated_count ≡ length (select (λ t. t.is_simulated) rows)

  -- A page of a ledger has no more transactions than asked for, each of the applicant, the tenant
  -- and the source; its count and its totals are of all of these: the credits are the sum of the
  -- positive amounts, the debits that of the negative ones without their sign, and the net cash flow
  -- is their difference, which before rounding is the sum of the amounts; each is converted to a
  -- float and rounded to two places.
  pub list_transactions-IsStatement :
      (db : Db) (txns : List TransactionRecord) (user : CurrentUser) (k : ℕ)
      (source : Option String) (limit offset : ℕ) {page : TransactionPage (F.Number)}
      → list_transactions F db txns user k source limit offset ≡ ok page
      → IsStatement user k source limit (select (is_selected user k source) txns) page
  unfolding list_transactions
  list_transactions-IsStatement db txns user k source limit offset {page} h =
      let (a, ha, h1) = >>=-ok_inv (get_applicant db k (some user)) _ h in
      let rows = select (is_selected user k source) txns in
      let P : TransactionRecord → Type 0 = λ t. is_selected user k source t ≡ true in
      subst (IsStatement user k source limit rows) (ok-injective h1) (record {
        is_short = length-take_first limit (drop_first offset (sort_by is_later rows));
        is_own = All-take_first P limit (drop_first offset (sort_by is_later rows)) (
            All-drop_first P offset (sort_by is_later rows)
              (sort_by-All P is_later rows (All-selected (is_selected user k source) txns)));
        counts = refl;
        credits = sum_of credit rows;
        debits = sum_of debit rows;
        credits_are = sum_of-select is_credit (λ t. t.amount) rows;
        debits_are = sum_of-select is_debit (λ t. pos 0 -ℤ t.amount) rows;
        is_balanced = balance rows;
        credits_shown = refl;
        debits_shown = refl;
        net_shown = refl;
        simulated = refl;
      })
