-- ===== src/Identity/Grants.antt =====
-- No administrator of a tenant hands out more than the own permissions.
use text.Mathlib.Text.{◌==◌ as str_eq}
use text.Mathlib.TextEquality.{eq_iff}
use credit_iq_ai.Prelude.{
  ◌≡◌, refl, sym, subst, ℕ, String, Bool, true, false, not, ◌&&◌, ◌||◌, some, List, [], ◌∷◌, ◌++◌,
  exists, select, All, All-map, arith, Bool-cases, inl, inr, and_left, and_right,
}
use credit_iq_ai.Prelude.Text.{join_words}
use credit_iq_ai.Errors.{ok, raise_if, raise_if-passed, >>=-ok_inv, ok-injective}
use credit_iq_ai.Access.{CurrentUser, has, member}
use credit_iq_ai.Identity.Users.{Role, Accounts}
use credit_iq_ai.Identity.Roles.{
  all_in, resolve_custom_permissions, Casing, is_reserved, ensure_role_name_available, create_role,
  has_duplicates,
}

-- The caller holds the permission or is a platform administrator.
abbrev pub IsGrantable : CurrentUser → String → Type 0
IsGrantable actor c = (has actor "platform:admin" || member c actor.permissions) ≡ true

member-all_in :
    (c : String) (codes known : List String)
    → member c codes ≡ true
    → all_in codes known ≡ true
    → member c known ≡ true
unfolding member
member-all_in c [] known h all = cc
member-all_in c (d ∷ codes) known h all = elim (Bool-cases (str_eq c d)) [
  | inl hit ↦
      let same_code : d ≡ c = sym ((eq_iff c d).0 hit) in
      subst (λ x. member x known ≡ true) same_code (and_left _ _ all)
  | inr miss ↦ member-all_in c codes known (rw miss at h) (and_right _ _ all)
]

All-select {ℓ} : {A : Type ℓ} (p : A → Bool) (xs : List A) → All (λ x. p x ≡ true) (select p xs)
All-select p [] = tt
All-select p (x ∷ xs) = elim (Bool-cases (p x)) [
  | inl hit ↦ rw hit (hit, All-select p xs)
  | inr miss ↦ rw miss (All-select p xs)
]

grant-IsGrantable :
    (actor : CurrentUser) (codes : List String) (c : String)
    → (not (has actor "platform:admin") && not (all_in codes actor.permissions)) ≡ false
    → member c codes ≡ true
    → IsGrantable actor c
grant-IsGrantable actor codes c guard h = elim (Bool-cases (has actor "platform:admin")) [
  | inl admin ↦ rw admin refl
  | inr tenant ↦
      let held : all_in codes actor.permissions ≡ true = ground arith in
      let own = member-all_in c codes actor.permissions h held in rw (tenant, own) refl
]

resolve_custom_permissions-IsGrantable :
    (db : Accounts) (actor : CurrentUser) (codes : List String) {granted : List String}
    → resolve_custom_permissions db actor codes ≡ ok granted
    → All (IsGrantable actor) granted
unfolding resolve_custom_permissions
resolve_custom_permissions-IsGrantable db actor codes h =
    let (u, hd, h1) = >>=-ok_inv (raise_if (has_duplicates codes) _) _ h in
    let (u1, hk, h2) = >>=-ok_inv (raise_if (not (all_in codes db.permissions)) _) _ h1 in
    let (u2, hg, h3) =
      >>=-ok_inv
        (raise_if (not (has actor "platform:admin") && not (all_in codes actor.permissions)) _) _
        h2 in
    let chosen = All-select (λ c. member c codes) db.permissions in
    subst (All (IsGrantable actor)) (ok-injective h3) (
      All-map (λ c. member c codes ≡ true) (IsGrantable actor)
        (select (λ c. member c codes) db.permissions)
        (λ c m. grant-IsGrantable actor codes c (raise_if-passed _ _ hg) m) chosen)

-- The bounds of a created role.
pub record IsBounded (casing : Casing) (db : Accounts) (actor : CurrentUser) (name : String)
    (r : Role × Accounts) : Type 0 where
  pub of_tenant : r.0.organization_id ≡ some actor.org_id
  pub not_system : r.0.is_system ≡ false
  pub was_free : exists (is_reserved casing actor.org_id (join_words name)) db.roles ≡ false
  pub grants : All (IsGrantable actor) r.0.permissions
  pub written : r.1 ≡ record db { roles = db.roles ++ (r.0 ∷ []) }

-- What a caller creates as a role is bounded by what the caller may do: it is of the caller's
-- tenant and no system role, its name was free, and each of its permissions is one that the caller
-- holds, unless the caller is a platform administrator. The tables change by the new row alone.
pub create_role-IsBounded :
    (casing : Casing) (id : ℕ) (db : Accounts) (actor : CurrentUser) (name : String)
    (codes : List String) {r : Role × Accounts}
    → create_role casing id db actor name codes ≡ ok r
    → IsBounded casing db actor name r
unfolding create_role ensure_role_name_available
create_role-IsBounded casing id db actor name codes h =
    let (u, hn, h1) =
      >>=-ok_inv (raise_if (exists (is_reserved casing actor.org_id (join_words name)) db.roles) _)
        _ h in
    let (granted, hp, h2) = >>=-ok_inv (resolve_custom_permissions db actor codes) _ h1 in
    subst (IsBounded casing db actor name) (ok-injective h2) (record {
      of_tenant = refl;
      not_system = refl;
      was_free = raise_if-passed _ _ hn;
      grants = resolve_custom_permissions-IsGrantable db actor codes hp;
      written = refl;
    })
