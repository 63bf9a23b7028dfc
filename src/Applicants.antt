-- ===== src/Applicants.antt =====
-- backend/app/modules/applicant/models.py and schemas.py: applicants with their profiles.
pub mod Service
pub mod Update
pub mod Ledger
pub mod Financials
pub mod Changes
pub mod Rows
pub mod Visibility
use credit_iq_ai.Prelude.{ℕ, String, Bool, Option, List}
use credit_iq_ai.Prelude.Int.{ℤ}
use credit_iq_ai.Store.{Date, Person, Db}

pub record Kyc : Type 0 where
  pub national_id : String
  pub document_type : String
  pub verification_status : String

pub record Employment : Type 0 where
  pub employer_name : Option String
  pub position : Option String
  pub monthly_income : Option ℤ
  pub employment_months : Option ℕ

pub record Business : Type 0 where
  pub business_name : Option String
  pub business_type : Option String
  pub monthly_revenue : Option ℤ
  pub years_operating : Option ℤ

-- An income or an expense: what it is from or for, its amount, and how often.
pub record Flow : Type 0 where
  pub source : String
  pub amount : ℤ
  pub frequency : String

pub record Asset : Type 0 where
  pub name : String
  pub category : Option String
  pub worth : ℤ

pub record Liability : Type 0 where
  pub name : String
  pub outstanding_amount : ℤ
  pub monthly_payment : Option ℤ

pub record ExistingLoan : Type 0 where
  pub lender : Option String
  pub outstanding_amount : ℤ
  pub monthly_installment : Option ℤ
  pub is_delinquent : Bool

-- A row of a table of the profile.
pub record Owned (A : Type 0) : Type 0 where
  pub organization_id : ℕ
  pub applicant_id : ℕ
  pub item : A

pub record Profiles : Type 0 where
  pub kyc : List (Owned Kyc)
  pub employment : List (Owned Employment)
  pub business : List (Owned Business)
  pub incomes : List (Owned Flow)
  pub expenses : List (Owned Flow)
  pub assets : List (Owned Asset)
  pub liabilities : List (Owned Liability)
  pub existing_loans : List (Owned ExistingLoan)

pub record ApplicantProfileOut : Type 0 where
  pub id : ℕ
  pub branch_id : Option ℕ
  pub person : Person
  pub national_id : Option String
  pub kyc_verification_status : Option String
  pub employment : Option Employment
  pub business : Option Business
  pub incomes : List Flow
  pub expenses : List Flow
  pub assets : List Asset
  pub liabilities : List Liability
  pub existing_loans : List ExistingLoan

-- The audit entry `applicant.profile.update`, with its two snapshots.
pub record ProfileChange : Type 0 where
  pub organization_id : ℕ
  pub actor_user_id : ℕ
  pub entity_id : ℕ
  pub before_change : ApplicantProfileOut
  pub after_change : ApplicantProfileOut

pub record Records : Type 0 where
  pub db : Db
  pub profiles : Profiles
  pub profile_log : List ProfileChange

-- An empty text counts as no identifier.
pub record ApplicantCreate : Type 0 where
  pub person : Person
  pub branch_id : Option ℕ
  pub national_id : Option String
  pub employment : Option Employment
  pub business : Option Business
  pub incomes : List Flow
  pub expenses : List Flow
  pub assets : List Asset
  pub liabilities : List Liability
  pub existing_loans : List ExistingLoan

-- A field that is not supplied is `none`; one that is supplied may be empty.
pub record ApplicantProfileUpdate : Type 0 where
  pub full_name : Option String
  pub date_of_birth : Option (Option Date)
  pub gender : Option (Option String)
  pub phone : Option (Option String)
  pub email : Option (Option String)
  pub address : Option (Option String)
  pub is_self_employed : Option Bool
  pub branch_id : Option (Option ℕ)
  pub national_id : Option (Option String)
  pub employment : Option (Option Employment)
  pub business : Option (Option Business)
  pub incomes : Option (List Flow)
  pub expenses : Option (List Flow)
  pub assets : Option (List Asset)
  pub liabilities : Option (List Liability)
  pub existing_loans : Option (List ExistingLoan)
