-- ===== src/Applicants/Service.antt =====
-- backend/app/modules/applicant/service.py: creation, lookup and listing of applicants.
use credit_iq_ai.Prelude.{
  ℕ, ◌+◌, String, Bool, ◌&&◌, Option, some, none, List, [], ◌∷◌, ◌++◌, ◌==◌, opt_eq, find, select,
  if◌then◌else◌,
}
use credit_iq_ai.Prelude.Text.{same}
use credit_iq_ai.Errors.{Result, ok, or_raise, ◌>>=◌, ◌>>◌, not_found}
use credit_iq_ai.Store.{Applicant, Db, get_applicant_row}
use credit_iq_ai.Access.{
  CurrentUser, is_applicant_user, require_applicant_ownership, require_branch_access,
  branch_predicate, resolve_creation_branch,
}
use credit_iq_ai.Loan.Service.{require_branch}
use credit_iq_ai.Applicants.{Kyc, Owned, ApplicantProfileOut, Records, ApplicantCreate}

abbrev pub own : {A : Type 0} → ℕ → ℕ → A → Owned A
own org_id k a = record { organization_id = org_id; applicant_id = k; item = a }

abbrev pub own_all : {A : Type 0} → ℕ → ℕ → List A → List (Owned A)
own_all org_id k [] = []
own_all org_id k (a ∷ rest) = own org_id k a ∷ own_all org_id k rest

abbrev pub own_optional : {A : Type 0} → ℕ → ℕ → Option A → List (Owned A)
own_optional org_id k none = []
own_optional org_id k (some a) = own org_id k a ∷ []

abbrev pub kyc_of : Option String → Option Kyc
kyc_of none = none
kyc_of (some text) =
    if same text ""
    then none
    else some (record {
      national_id = text;
      document_type = "citizenship";
      verification_status = "pending";
    })

unfoldable pub create_applicant :
    Records → CurrentUser → ApplicantCreate → Result (Applicant × Records)
create_applicant s user body = do
  branch_id ← resolve_creation_branch user body.branch_id
  require_branch s.db user.org_id branch_id
  let k = s.db.next_id
  let applicant : Applicant = record {
    id = k;
    organization_id = user.org_id;
    branch_id = branch_id;
    person = body.person;
  }
  ok (
    applicant,
    record s {
      db = record s.db { next_id = k + 1; applicants = s.db.applicants ++ (applicant ∷ []) };
      profiles = record {
        kyc = s.profiles.kyc ++ own_optional user.org_id k (kyc_of body.national_id);
        employment = s.profiles.employment ++ own_optional user.org_id k body.employment;
        business = s.profiles.business ++ own_optional user.org_id k body.business;
        incomes = s.profiles.incomes ++ own_all user.org_id k body.incomes;
        expenses = s.profiles.expenses ++ own_all user.org_id k body.expenses;
        assets = s.profiles.assets ++ own_all user.org_id k body.assets;
        liabilities = s.profiles.liabilities ++ own_all user.org_id k body.liabilities;
        existing_loans = s.profiles.existing_loans ++ own_all user.org_id k body.existing_loans;
      };
    },
  )

unfoldable pub get_applicant : Db → ℕ → Option CurrentUser → Result Applicant
get_applicant db k none = or_raise (get_applicant_row db k) (not_found "Applicant not found")
get_applicant db k (some user) = do
  applicant ← or_raise (get_applicant_row db k) (not_found "Applicant not found")
  require_applicant_ownership user applicant.id
  if is_applicant_user user then ok tt else require_branch_access user applicant.branch_id
  ok applicant

-- A row of an applicant, in a session bound to a tenant.
abbrev pub is_of : {A : Type 0} → ℕ → ℕ → Owned A → Bool
is_of org_id k r = r.organization_id == org_id && r.applicant_id == k

abbrev pub items : {A : Type 0} → List (Owned A) → List A
items [] = []
items (r ∷ rest) = r.item ∷ items rest

-- `_all` and `_first`
abbrev pub all_of : {A : Type 0} → ℕ → ℕ → List (Owned A) → List A
all_of org_id k rows = items (select (is_of org_id k) rows)

abbrev pub item_of : {A : Type 0} → Option (Owned A) → Option A
item_of none = none
item_of (some r) = some r.item

abbrev pub first_of : {A : Type 0} → ℕ → ℕ → List (Owned A) → Option A
first_of org_id k rows = item_of (find (is_of org_id k) rows)

abbrev pub national_id_of : Option Kyc → Option String
national_id_of none = none
national_id_of (some kyc) = some kyc.national_id

abbrev pub verification_of : Option Kyc → Option String
verification_of none = none
verification_of (some kyc) = some kyc.verification_status

-- The profile of an applicant that was found.
unfoldable pub profile_of : Records → Applicant → ApplicantProfileOut
profile_of s a = record {
  id = a.id;
  branch_id = a.branch_id;
  person = a.person;
  national_id = national_id_of (first_of s.db.current_org a.id s.profiles.kyc);
  kyc_verification_status = verification_of (first_of s.db.current_org a.id s.profiles.kyc);
  employment = first_of s.db.current_org a.id s.profiles.employment;
  business = first_of s.db.current_org a.id s.profiles.business;
  incomes = all_of s.db.current_org a.id s.profiles.incomes;
  expenses = all_of s.db.current_org a.id s.profiles.expenses;
  assets = all_of s.db.current_org a.id s.profiles.assets;
  liabilities = all_of s.db.current_org a.id s.profiles.liabilities;
  existing_loans = all_of s.db.current_org a.id s.profiles.existing_loans;
}

unfoldable pub get_profile : Records → ℕ → CurrentUser → Result ApplicantProfileOut
get_profile s k user = do applicant ← get_applicant s.db k (some user); ok (profile_of s applicant)

-- The conditions of the two queries, in a session bound to a tenant.
abbrev pub is_listed : Db → CurrentUser → Applicant → Bool
is_listed db user a =
    if is_applicant_user user
    then a.organization_id == db.current_org
      && a.organization_id == user.org_id
      && opt_eq user.applicant_id (some a.id)
    else a.organization_id == db.current_org
      && a.organization_id == user.org_id
      && branch_predicate user a.branch_id

unfoldable pub list_applicants : Db → CurrentUser → List Applicant
list_applicants db user = select (is_listed db user) db.applicants
