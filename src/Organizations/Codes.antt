-- ===== src/Organizations/Codes.antt =====
-- The codes of the branches of a tenant are unique.
use credit_iq_ai.Prelude.{
  ◌≡◌, refl, sym, ap, subst, ◌∙◌, ℕ, String, Bool, true, false, ◌&&◌, ◌==◌, List, [], ◌∷◌, ◌++◌,
  exists, exists-append, update_first, arith, inl, inr, Bool-cases,
}
use credit_iq_ai.Prelude.Text.{same, same_iff}
use credit_iq_ai.Errors.{ok, raise_if, or_raise, raise_if-passed, >>=-ok_inv, ok-injective}
use credit_iq_ai.Shared.{OrgStatus}
use credit_iq_ai.Store.{Organization, Branch, Db, record_audit, get_organization_row}
use credit_iq_ai.Prelude.{◌+◌}
use credit_iq_ai.Access.{CurrentUser}
use credit_iq_ai.Identity.Users.{Accounts}
use credit_iq_ai.Identity.Catalog.{ensure_rbac}
use credit_iq_ai.Identity.Creation.{has_email}
use credit_iq_ai.Organizations.Onboarding.{
  OnboardRequest, Onboarded, head_office, onboard_organization, onboard,
}
use credit_iq_ai.Organizations.{
  OrganizationUpdate, is_suspension, update_organization, BranchCreate, BranchUpdate, has_code,
  with_branch, own_branch, create_branch, update_branch, create_branch_logged, update_branch_logged,
  update_organization_status, update_my_org,
}

-- No two branches of a tenant have one code.
abbrev pub HasUniqueCodes : List Branch → Type 0
HasUniqueCodes [] = Unit
HasUniqueCodes (b ∷ bs) =
    (exists (has_code b.organization_id b.code) bs ≡ false) × HasUniqueCodes bs

has_code_sym :
    (a b : Branch)
    → has_code a.organization_id a.code b ≡ false
    → has_code b.organization_id b.code a ≡ false
has_code_sym a b h = elim (Bool-cases (has_code b.organization_id b.code a)) [
  | inr miss ↦ miss
  | inl hit ↦
      let codes : same a.code b.code ≡ true = ground arith in
      let orgs : (a.organization_id == b.organization_id) ≡ true = ground arith in
      let back : same b.code a.code ≡ true =
        (same_iff b.code a.code).1 (sym ((same_iff a.code b.code).0 codes)) in
      ground arith
]

HasUniqueCodes-append :
    (x : Branch) (bs : List Branch)
    → HasUniqueCodes bs
    → exists (has_code x.organization_id x.code) bs ≡ false
    → HasUniqueCodes (bs ++ (x ∷ []))
HasUniqueCodes-append x [] h miss = (refl, tt)
HasUniqueCodes-append x (b ∷ bs) (fresh, rest) miss =
    let here : has_code x.organization_id x.code b ≡ false = ground arith in
    let later : exists (has_code x.organization_id x.code) bs ≡ false = ground arith in
    let back = has_code_sym x b here in
    (
      exists-append (has_code b.organization_id b.code) bs (x ∷ []) ∙ (rw (fresh, back) refl),
      HasUniqueCodes-append x bs rest later,
    )

exists-update_first :
    (p q : Branch → Bool) (f : Branch → Branch) (bs : List Branch)
    → ((b : Branch) → p (f b) ≡ p b)
    → exists p (update_first q f bs) ≡ exists p bs
exists-update_first p q f [] same_test = refl
exists-update_first p q f (b ∷ bs) same_test = elim (Bool-cases (q b)) [
  | inl hit ↦ rw (hit, same_test b) refl
  | inr miss ↦ rw (miss, exists-update_first p q f bs same_test) refl
]

HasUniqueCodes-update :
    (change : BranchUpdate) (q : Branch → Bool) (bs : List Branch)
    → HasUniqueCodes bs
    → HasUniqueCodes (update_first q (with_branch change) bs)
HasUniqueCodes-update change q [] h = tt
HasUniqueCodes-update change q (b ∷ bs) (fresh, rest) = elim (Bool-cases (q b)) [
  | inl hit ↦ rw hit (fresh, rest)
  | inr miss ↦ rw miss (
    exists-update_first (has_code b.organization_id b.code) q (with_branch change) bs (λ x. refl)
        ∙ fresh,
    HasUniqueCodes-update change q bs rest,
  )
]

abbrev pub is_under : ℕ → Branch → Bool
is_under org_id b = b.organization_id == org_id

-- The requests that write organizations and branches. The identifier that a new tenant gets is a
-- fresh one, under which no branch stands yet.
pub data Step (db : Db) (after : Db) : Type 0 where
  onboarded :
      (hash_password : String → String) (role_id admin_id : ℕ) (accounts : Accounts)
      (user : CurrentUser) (body : OnboardRequest) (made : Onboarded)
      → exists (is_under db.next_id) db.branches ≡ false
      → onboard hash_password role_id admin_id db accounts user body ≡ ok made
      → made.db ≡ after
      → Step db after
  created :
      (user : CurrentUser) (body : BranchCreate) (b : Branch)
      → create_branch_logged db user body ≡ ok (b, after)
      → Step db after
  updated :
      (user : CurrentUser) (k : ℕ) (body : BranchUpdate) (b : Branch)
      → update_branch_logged db user k body ≡ ok (b, after)
      → Step db after
  profiled :
      (user : CurrentUser) (body : OrganizationUpdate) (o : Organization)
      → update_my_org db user body ≡ ok (o, after)
      → Step db after
  switched :
      (user : CurrentUser) (k : ℕ) (status : OrgStatus) (reason : String) (o : Organization)
      → update_organization_status db user k status reason ≡ ok (o, after)
      → Step db after

pub data Reach (db : Db) : Db → Type 0 where
  here : Reach db db
  next : {middle after : Db} → Reach db middle → Step middle after → Reach db after

create_branch-HasUniqueCodes :
    (db : Db) (user : CurrentUser) (body : BranchCreate) {r : Branch × Db}
    → create_branch_logged db user body ≡ ok r
    → HasUniqueCodes db.branches
    → HasUniqueCodes r.1.branches
unfolding create_branch_logged create_branch record_audit
create_branch-HasUniqueCodes db user body {r} h unique =
    let (made, hc, h1) = >>=-ok_inv (create_branch db user.org_id body) _ h in
    let (u, hu, h2) =
      >>=-ok_inv (raise_if (exists (has_code user.org_id body.code) db.branches) _) _ hc in
    let rows =
      ap (λ x. x.1.branches) (ok-injective h2) ∙ ap (λ x. x.1.branches) (ok-injective h1) in
    subst HasUniqueCodes rows (HasUniqueCodes-append _ db.branches unique (raise_if-passed _ _ hu))

update_branch-HasUniqueCodes :
    (db : Db) (user : CurrentUser) (k : ℕ) (body : BranchUpdate) {r : Branch × Db}
    → update_branch_logged db user k body ≡ ok r
    → HasUniqueCodes db.branches
    → HasUniqueCodes r.1.branches
unfolding update_branch_logged update_branch record_audit
update_branch-HasUniqueCodes db user k body {r} h unique =
    let (current, hc, h1) = >>=-ok_inv (own_branch db user.org_id k) _ h in
    let (changed, hu, h2) = >>=-ok_inv (update_branch db user.org_id k body) _ h1 in
    let (again, ha, h3) = >>=-ok_inv (own_branch db user.org_id k) _ hu in
    let rows =
      ap (λ x. x.1.branches) (ok-injective h3) ∙ ap (λ x. x.1.branches) (ok-injective h2) in
    subst HasUniqueCodes rows (HasUniqueCodes-update body (λ b. b.id == k) db.branches unique)

profile-branches :
    (db : Db) (user : CurrentUser) (body : OrganizationUpdate) {r : Organization × Db}
    → update_my_org db user body ≡ ok r
    → db.branches ≡ r.1.branches
unfolding update_my_org update_organization record_audit
profile-branches db user body {r} h =
    let (current, hc, h1) = >>=-ok_inv (or_raise (get_organization_row db user.org_id) _) _ h in
    let (changed, hu, h2) = >>=-ok_inv (update_organization db user.org_id body) _ h1 in
    let (again, ha, h3) = >>=-ok_inv (or_raise (get_organization_row db user.org_id) _) _ hu in
    ap (λ x. x.1.branches) (ok-injective h3) ∙ ap (λ x. x.1.branches) (ok-injective h2)

status-branches :
    (db : Db) (user : CurrentUser) (k : ℕ) (status : OrgStatus) (reason : String)
    {r : Organization × Db}
    → update_organization_status db user k status reason ≡ ok r
    → db.branches ≡ r.1.branches
unfolding update_organization_status record_audit
status-branches db user k status reason {r} h =
    let (u, hu, h1) = >>=-ok_inv (raise_if (k == user.org_id && is_suspension status) _) _ h in
    let (o, ho, h2) = >>=-ok_inv (or_raise (get_organization_row db k) _) _ h1 in
    ap (λ x. x.1.branches) (ok-injective h2)

none_under :
    (org_id : ℕ) (code : String) (bs : List Branch)
    → exists (is_under org_id) bs ≡ false
    → exists (has_code org_id code) bs ≡ false
none_under org_id code [] h = refl
none_under org_id code (b ∷ bs) h = let later = none_under org_id code bs in ground arith

onboard-HasUniqueCodes :
    (hash_password : String → String) (role_id admin_id : ℕ) (db : Db) (accounts : Accounts)
    (user : CurrentUser) (body : OnboardRequest) {made : Onboarded}
    → exists (is_under db.next_id) db.branches ≡ false
    → onboard hash_password role_id admin_id db accounts user body ≡ ok made
    → HasUniqueCodes db.branches
    → HasUniqueCodes made.db.branches
unfolding onboard onboard_organization record_audit
onboard-HasUniqueCodes hash_password role_id admin_id db accounts user body fresh h unique =
    let (made, hm, h1) =
      >>=-ok_inv (onboard_organization hash_password role_id admin_id db accounts body) _ h in
    let (u, hu, h2) =
      >>=-ok_inv
        (raise_if
          (exists (has_email db.next_id body.admin_email) (ensure_rbac role_id accounts).users) _)
        _ hm in
    let rows =
      ap (λ x. x.db.branches) (ok-injective h2) ∙ ap (λ x. x.db.branches) (ok-injective h1) in
    subst HasUniqueCodes rows (
      HasUniqueCodes-append (head_office (db.next_id + 1) db.next_id) db.branches unique
        (none_under db.next_id "HO" db.branches fresh))

Step-HasUniqueCodes :
    (db after : Db) → Step db after → HasUniqueCodes db.branches → HasUniqueCodes after.branches
Step-HasUniqueCodes db after
      (onboarded hash_password role_id admin_id accounts user body made fresh h e) =
    subst (λ x. HasUniqueCodes db.branches → HasUniqueCodes x.branches) e
      (onboard-HasUniqueCodes hash_password role_id admin_id db accounts user body fresh h)
Step-HasUniqueCodes db after (created user body b h) = create_branch-HasUniqueCodes db user body h
Step-HasUniqueCodes db after (updated user k body b h) =
    update_branch-HasUniqueCodes db user k body h
Step-HasUniqueCodes db after (profiled user body o h) =
    subst HasUniqueCodes (profile-branches db user body h)
Step-HasUniqueCodes db after (switched user k status reason o h) =
    subst HasUniqueCodes (status-branches db user k status reason h)

-- From tables where no two branches of a tenant have one code, as empty ones, any sequence of
-- requests that onboard tenants with their first branch, create or change branches, or change the
-- profiles and the status of tenants leads to such tables, as long as each new tenant has an
-- identifier that no branch refers to yet.
pub Reach-HasUniqueCodes :
    {db after : Db} → HasUniqueCodes db.branches → Reach db after → HasUniqueCodes after.branches
Reach-HasUniqueCodes h here = h
Reach-HasUniqueCodes h (next r s) = Step-HasUniqueCodes _ _ s (Reach-HasUniqueCodes h r)
