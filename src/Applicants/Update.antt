-- ===== src/Applicants/Update.antt =====
-- `update_profile` of backend/app/modules/applicant/service.py, with its audit entry.
use Prim.Native.String.{◌++◌ as concat}
use credit_iq_ai.Prelude.{
  ℕ, String, not, ◌&&◌, Option, some, none, List, [], ◌∷◌, ◌++◌, ◌==◌, select, update_first,
  if◌then◌else◌,
}
use credit_iq_ai.Prelude.Text.{same}
use credit_iq_ai.Errors.{Result, ok, ◌>>=◌, ◌>>◌}
use credit_iq_ai.Store.{Person, Applicant, Db}
use credit_iq_ai.Access.{CurrentUser, resolve_creation_branch}
use credit_iq_ai.Loan.Service.{require_branch}
use credit_iq_ai.Applicants.{
  Owned, Profiles, ApplicantProfileOut, ApplicantProfileUpdate, ProfileChange, Records,
}
use credit_iq_ai.Applicants.Service.{
  own_all, own_optional, kyc_of, is_of, get_applicant, get_profile,
}

abbrev pub supplied_or : {A : Type 0} → A → Option A → A
supplied_or old none = old
supplied_or old (some value) = value

-- The loop over the personal fields.
unfoldable pub with_person : ApplicantProfileUpdate → Person → Person
with_person body p = record {
  full_name = supplied_or p.full_name body.full_name;
  date_of_birth = supplied_or p.date_of_birth body.date_of_birth;
  gender = supplied_or p.gender body.gender;
  phone = supplied_or p.phone body.phone;
  email = supplied_or p.email body.email;
  address = supplied_or p.address body.address;
  is_self_employed = supplied_or p.is_self_employed body.is_self_employed;
}

abbrev pub new_branch : Db → CurrentUser → Option ℕ → Option (Option ℕ) → Result (Option ℕ)
new_branch db user old none = ok old
new_branch db user old (some requested) = do
  branch_id ← resolve_creation_branch user requested
  require_branch db user.org_id branch_id
  ok branch_id

-- The rows of the applicant are deleted, as far as the session sees them, and new ones added.
abbrev pub replace_rows : {A : Type 0} → ℕ → ℕ → List (Owned A) → List (Owned A) → List (Owned A)
replace_rows org_id k new rows = select (λ r. not (is_of org_id k r)) rows ++ new

abbrev pub replace_one : {A : Type 0} → ℕ → ℕ → Option (Option A) → List (Owned A) → List (Owned A)
replace_one org_id k none rows = rows
replace_one org_id k (some value) rows = replace_rows org_id k (own_optional org_id k value) rows

abbrev pub replace_many : {A : Type 0} → ℕ → ℕ → Option (List A) → List (Owned A) → List (Owned A)
replace_many org_id k none rows = rows
replace_many org_id k (some values) rows = replace_rows org_id k (own_all org_id k values) rows

abbrev pub map_supplied : {A B : Type 0} → (A → B) → Option A → Option B
map_supplied f none = none
map_supplied f (some a) = some (f a)

-- In a session of the caller's tenant.
unfoldable pub with_profiles : ℕ → ℕ → ApplicantProfileUpdate → Profiles → Profiles
with_profiles org_id k body p = record {
  kyc = replace_one org_id k (map_supplied kyc_of body.national_id) p.kyc;
  employment = replace_one org_id k body.employment p.employment;
  business = replace_one org_id k body.business p.business;
  incomes = replace_many org_id k body.incomes p.incomes;
  expenses = replace_many org_id k body.expenses p.expenses;
  assets = replace_many org_id k body.assets p.assets;
  liabilities = replace_many org_id k body.liabilities p.liabilities;
  existing_loans = replace_many org_id k body.existing_loans p.existing_loans;
}

-- `digest` is the keyed digest of a text in hexadecimal.
module _ (digest : String → String) where
  abbrev pub redact_text : String → String
  redact_text text = if same text "" then text else concat "hmac-sha256:" (digest text)

  abbrev pub redact : Option String → Option String
  redact none = none
  redact (some text) = some (redact_text text)

  -- `_audit_profile`
  unfoldable pub audit_profile : ApplicantProfileOut → ApplicantProfileOut
  audit_profile profile = record profile {
    person = record profile.person {
      full_name = redact_text profile.person.full_name;
      phone = redact profile.person.phone;
      email = redact profile.person.email;
      address = redact profile.person.address;
    };
    national_id = redact profile.national_id;
  }

  abbrev pub updated : CurrentUser → ApplicantProfileUpdate → Option ℕ → Applicant → Applicant
  updated user body branch_id a = record a {
    branch_id = branch_id;
    person = with_person body a.person;
  }

  unfoldable pub written :
      Records → CurrentUser → ApplicantProfileUpdate → Applicant → Option ℕ → Records
  written s user body applicant branch_id = record s {
    db = record s.db {
      applicants =
          update_first (λ a. a.id == applicant.id && a.organization_id == s.db.current_org)
            (updated user body branch_id) s.db.applicants;
    };
    profiles = with_profiles user.org_id applicant.id body s.profiles;
  }

  abbrev pub change_entry :
      CurrentUser → ℕ → ApplicantProfileOut → ApplicantProfileOut → ProfileChange
  change_entry user k before after = record {
    organization_id = user.org_id;
    actor_user_id = user.user_id;
    entity_id = k;
    before_change = audit_profile before;
    after_change = audit_profile after;
  }

  -- The row lock of `with_for_update` has no effect of its own here.
  unfoldable pub update_profile :
      Records → CurrentUser → ℕ → ApplicantProfileUpdate → Result (ApplicantProfileOut × Records)
  update_profile s user k body = do
    applicant ← get_applicant s.db k (some user)
    before ← get_profile s k user
    branch_id ← new_branch s.db user applicant.branch_id body.branch_id
    let changed = written s user body applicant branch_id
    after ← get_profile changed k user
    ok (
      after,
      record changed {
        profile_log = changed.profile_log ++ (change_entry user applicant.id before after ∷ []);
      },
    )
