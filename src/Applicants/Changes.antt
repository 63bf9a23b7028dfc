-- ===== src/Applicants/Changes.antt =====
-- What a change of a profile writes, what it leaves alone, and what the audit log keeps of it.
use credit_iq_ai.Prelude.{
  ◌≡◌, sym, ap, subst, ◌∙◌, ℕ, String, false, ◌&&◌, ◌==◌, ==_iff, Option, some, [], ◌∷◌, ◌++◌,
  find-holds, and_left, if◌then◌else◌,
}
use credit_iq_ai.Errors.{ok, or_raise, or_raise-found, >>=-ok_inv, ok-injective}
use credit_iq_ai.Store.{Applicant, Db, get_applicant_row}
use credit_iq_ai.Access.{
  CurrentUser, is_applicant_user, require_applicant_ownership, require_branch_access,
}
use credit_iq_ai.Prelude.{none}
use credit_iq_ai.Prelude.Text.{same}
use credit_iq_ai.Applicants.{ApplicantProfileOut, ApplicantProfileUpdate, Records}
use credit_iq_ai.Applicants.Service.{
  all_of, first_of, get_applicant, get_profile, profile_of, kyc_of,
}
use credit_iq_ai.Applicants.Update.{
  map_supplied, supplied_or, with_person, new_branch, with_profiles, written, change_entry,
  update_profile,
}
use credit_iq_ai.Applicants.Rows.{all_of-replace_other, first_of-replace_other}

-- The row that a caller gets is the one that the identifier finds in the session's tenant.
pub get_applicant-row :
    (db : Db) (k : ℕ) (user : CurrentUser) {a : Applicant}
    → get_applicant db k (some user) ≡ ok a
    → get_applicant_row db k ≡ some a
unfolding get_applicant
get_applicant-row db k user h =
    let (x, hr, h1) = >>=-ok_inv (or_raise (get_applicant_row db k) _) _ h in
    let (u, ho, h2) = >>=-ok_inv (require_applicant_ownership user x.id) _ h1 in
    let (u2, hb, h3) =
      >>=-ok_inv (if is_applicant_user user then ok tt else require_branch_access user x.branch_id)
        _ h2 in
    or_raise-found _ _ hr ∙ ap some (ok-injective h3)

-- The empty text removes the identity document, as no text does.
abbrev national_id_after : Option String → Option (Option String) → Option String
national_id_after old none = old
national_id_after old (some none) = none
national_id_after old (some (some text)) = if same text "" then none else some text

-- A document that is supplied waits for its verification.
abbrev verification_after : Option String → Option (Option String) → Option String
verification_after old none = old
verification_after old (some none) = none
verification_after old (some (some text)) = if same text "" then none else some "pending"

-- The profile after a change, field by field: what was supplied, and the rest as it was.
pub record IsUpdated (body : ApplicantProfileUpdate) (old new : ApplicantProfileOut) : Type 0 where
  pub id : new.id ≡ old.id
  pub person : new.person ≡ with_person body old.person
  pub employment : new.employment ≡ supplied_or old.employment body.employment
  pub business : new.business ≡ supplied_or old.business body.business
  pub incomes : new.incomes ≡ supplied_or old.incomes body.incomes
  pub expenses : new.expenses ≡ supplied_or old.expenses body.expenses
  pub assets : new.assets ≡ supplied_or old.assets body.assets
  pub liabilities : new.liabilities ≡ supplied_or old.liabilities body.liabilities
  pub existing_loans : new.existing_loans ≡ supplied_or old.existing_loans body.existing_loans
  pub national_id : new.national_id ≡ national_id_after old.national_id body.national_id
  pub kyc_verification_status :
      new.kyc_verification_status ≡ verification_after old.kyc_verification_status body.national_id

module _ (digest : String → String) where
  -- The steps of a change that succeeds.
  pub record IsChanged (s : Records) (user : CurrentUser) (k : ℕ) (body : ApplicantProfileUpdate)
      (r : ApplicantProfileOut × Records) : Type 0 where
    pub applicant : Applicant
    pub found : get_applicant_row s.db k ≡ some applicant
    pub branch_id : Option ℕ
    pub branch_eq : new_branch s.db user applicant.branch_id body.branch_id ≡ ok branch_id
    pub after : Applicant
    pub after_found :
        get_applicant_row (written digest s user body applicant branch_id).db k ≡ some after
    pub answer : r.0 ≡ profile_of (written digest s user body applicant branch_id) after
    pub profiles : r.1.profiles ≡ with_profiles user.org_id applicant.id body s.profiles
    pub tables : r.1.db ≡ (written digest s user body applicant branch_id).db
    pub current_org : r.1.db.current_org ≡ s.db.current_org
    pub logged :
        r.1.profile_log
        ≡ s.profile_log ++ (change_entry digest user applicant.id (profile_of s applicant) r.0 ∷ [])

  pub update_profile-IsChanged :
      (s : Records) (user : CurrentUser) (k : ℕ) (body : ApplicantProfileUpdate)
      {r : ApplicantProfileOut × Records}
      → update_profile digest s user k body ≡ ok r
      → IsChanged s user k body r
  unfolding update_profile get_profile written
  update_profile-IsChanged s user k body {r} h =
      let (a, ha, h1) = >>=-ok_inv (get_applicant s.db k (some user)) _ h in
      let (old, ho, h2) = >>=-ok_inv (get_profile s k user) _ h1 in
      let (a', ha', h3) = >>=-ok_inv (get_applicant s.db k (some user)) _ ho in
      let same_row : a' ≡ a = ok-injective (sym ha' ∙ ha) in
      let before_eq : profile_of s a ≡ old =
        subst (λ x. profile_of s x ≡ old) same_row (ok-injective h3) in
      let (branch, hb, h4) = >>=-ok_inv (new_branch s.db user a.branch_id body.branch_id) _ h2 in
      let (new, hn, h5) =
        >>=-ok_inv (get_profile (written digest s user body a branch) k user) _ h4 in
      let (b, hb', h6) =
        >>=-ok_inv (get_applicant (written digest s user body a branch).db k (some user)) _ hn in
      let result = ok-injective h5 in
      let answer : new ≡ r.0 = ap (λ x. x.0) result in
      record {
        applicant = a;
        found = get_applicant-row s.db k user ha;
        branch_id = branch;
        branch_eq = hb;
        after = b;
        after_found = get_applicant-row (written digest s user body a branch).db k user hb';
        answer = sym answer ∙ sym (ok-injective h6);
        profiles = sym (ap (λ x. x.1.profiles) result);
        tables = sym (ap (λ x. x.1.db) result);
        current_org = sym (ap (λ x. x.1.db.current_org) result);
        logged =
            sym (ap (λ x. x.1.profile_log) result)
            ∙ ap (λ x. s.profile_log ++ (change_entry digest user a.id x new ∷ [])) (sym before_eq)
            ∙ ap (λ x. s.profile_log ++ (change_entry digest user a.id (profile_of s a) x ∷ []))
                answer;
      }

  pub row_is : (db : Db) (k : ℕ) {a : Applicant} → get_applicant_row db k ≡ some a → a.id ≡ k
  unfolding get_applicant_row
  row_is db k {a} h =
      let hit =
        find-holds (λ x. x.id == k && x.organization_id == db.current_org) db.applicants h in
      (==_iff a.id k).0 (and_left _ _ hit)

  -- A change of one applicant leaves the tables of every other applicant as they were.
  pub update_profile_frame :
      (s : Records) (user : CurrentUser) (k j org : ℕ) (body : ApplicantProfileUpdate)
      {r : ApplicantProfileOut × Records}
      → update_profile digest s user k body ≡ ok r
      → (k == j) ≡ false
      → (first_of org j r.1.profiles.kyc ≡ first_of org j s.profiles.kyc)
        × (first_of org j r.1.profiles.employment ≡ first_of org j s.profiles.employment)
        × (first_of org j r.1.profiles.business ≡ first_of org j s.profiles.business)
        × (all_of org j r.1.profiles.incomes ≡ all_of org j s.profiles.incomes)
        × (all_of org j r.1.profiles.expenses ≡ all_of org j s.profiles.expenses)
        × (all_of org j r.1.profiles.assets ≡ all_of org j s.profiles.assets)
        × (all_of org j r.1.profiles.liabilities ≡ all_of org j s.profiles.liabilities)
        × (all_of org j r.1.profiles.existing_loans ≡ all_of org j s.profiles.existing_loans)
  unfolding with_profiles
  update_profile_frame s user k j org body {r} h other =
      let c = update_profile-IsChanged s user k body h in
      let o = user.org_id in
      let i = c.applicant.id in
      let apart : (i == j) ≡ false =
        subst (λ n. (n == j) ≡ false) (sym (row_is s.db k c.found)) other in
      rw c.profiles (
        first_of-replace_other o i org j apart (map_supplied kyc_of body.national_id)
            s.profiles.kyc,
        first_of-replace_other o i org j apart body.employment s.profiles.employment,
        first_of-replace_other o i org j apart body.business s.profiles.business,
        all_of-replace_other o i org j apart body.incomes s.profiles.incomes,
        all_of-replace_other o i org j apart body.expenses s.profiles.expenses,
        all_of-replace_other o i org j apart body.assets s.profiles.assets,
        all_of-replace_other o i org j apart body.liabilities s.profiles.liabilities,
        all_of-replace_other o i org j apart body.existing_loans s.profiles.existing_loans,
      )
