-- ===== src/Tests/Applicants.antt =====
-- A profile that gains an income, beside another applicant, and a ledger with its totals.
use credit_iq_ai.Prelude.{◌≡◌, refl, true, false, ℕ, ◌≤◌, none, some, List, [], ◌∷◌, length}
use credit_iq_ai.Prelude.Int.{ℤ, pos, negsuc, ◌+ℤ◌, ◌-ℤ◌}
use credit_iq_ai.Prelude.Text.{same}
use credit_iq_ai.Errors.{Result, ok, err}
use credit_iq_ai.Store.{get_applicant_row}
use credit_iq_ai.Access.{
  has_org_wide_scope, is_applicant_user, require_applicant_ownership, require_branch_access,
  branch_predicate, member,
}
use credit_iq_ai.Applicants.{Flow, ApplicantProfileOut, ApplicantProfileUpdate, Records}
use credit_iq_ai.Applicants.Service.{get_applicant, get_profile, profile_of}
use credit_iq_ai.Applicants.Update.{
  with_person, with_profiles, audit_profile, written, update_profile,
}
use credit_iq_ai.Applicants.Ledger.{
  TransactionRecord, TransactionPage, sum_of, list_transactions, list_transactions-IsStatement,
}
use credit_iq_ai.Tests.Micro.{micro, plus_ℤ, minus_ℤ, times_micro, over_micro, literal_micro}
use credit_iq_ai.Prelude.{Option}
use credit_iq_ai.Prelude.Int.{◌*ℤ◌}
use credit_iq_ai.Tests.Sample.{tenant, manager, applicant}

unfoldable pub applicants : Unit {0}
unfolding same member has_org_wide_scope is_applicant_user require_applicant_ownership
    require_branch_access branch_predicate get_applicant_row get_applicant get_profile profile_of
    with_person with_profiles audit_profile written update_profile sum_of list_transactions ◌+ℤ◌
    ◌-ℤ◌ ◌*ℤ◌ plus_ℤ minus_ℤ times_micro over_micro literal_micro
applicants = tt

abbrev value_or : {A : Type 0} → A → Result A → A
value_or default (ok a) = a
value_or default (err e) = default

abbrev salary : Flow
salary = record { source = "salary"; amount = pos 5000000; frequency = "monthly" }

abbrev records : Records
records = record {
  db = record tenant { applicants = applicant ∷ record applicant { id = 11 } ∷ [] };
  profiles = record {
    kyc = [];
    employment = [];
    business = [];
    incomes = record { organization_id = 1; applicant_id = 11; item = salary } ∷ [];
    expenses = [];
    assets = [];
    liabilities = [];
    existing_loans = [];
  };
  profile_log = [];
}

abbrev change : ApplicantProfileUpdate
change = record {
  full_name = none;
  date_of_birth = none;
  gender = none;
  phone = some none;
  email = none;
  address = none;
  is_self_employed = some true;
  branch_id = none;
  national_id = none;
  employment = none;
  business = none;
  incomes = some (salary ∷ []);
  expenses = none;
  assets = none;
  liabilities = none;
  existing_loans = none;
}

abbrev unchanged : ApplicantProfileOut
unchanged = record {
  id = 0;
  branch_id = none;
  person = applicant.person;
  national_id = none;
  kyc_verification_status = none;
  employment = none;
  business = none;
  incomes = [];
  expenses = [];
  assets = [];
  liabilities = [];
  existing_loans = [];
}

abbrev changed : ApplicantProfileOut × Records
changed = value_or (unchanged, records) (update_profile (λ t. "digest") records manager 10 change)

new_income : changed.0.incomes ≡ salary ∷ []
unfolding applicants
new_income = refl

abbrev transaction : ℕ → ℤ → TransactionRecord
transaction k amount = record {
  id = k;
  organization_id = 1;
  applicant_id = 10;
  source_type = "bank";
  txn_date = k;
  amount = amount;
  description = none;
  is_simulated = false;
}

abbrev ledger : List TransactionRecord
ledger = transaction 1 (pos 500) ∷ transaction 2 (negsuc 199) ∷ transaction 3 (pos 50) ∷ []

abbrev empty_page : TransactionPage (Option ℤ)
empty_page = record {
  items = [];
  total = 0;
  total_credits = none;
  total_debits = none;
  net_cashflow = none;
  simulated_count = 0;
}

abbrev page : TransactionPage (Option ℤ)
page = value_or empty_page (list_transactions micro tenant ledger manager 10 none 2 0)

net : page.net_cashflow ≡ some (pos 3500000)
unfolding applicants
net = refl

list_transactions-IsStatement_example : length page.items ≤ 2
unfolding applicants
list_transactions-IsStatement_example =
    (list_transactions-IsStatement micro tenant ledger manager 10 none 2 0 {page = page}
      refl).is_short
