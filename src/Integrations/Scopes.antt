-- ===== src/Integrations/Scopes.antt =====
-- A key carries no more than its creator holds.
use text.Mathlib.Text.{◌==◌ as str_eq}
use text.Mathlib.TextEquality.{eq_iff}
use credit_iq_ai.Prelude.{
  ◌≡◌, refl, sym, ap, subst, ◌∙◌, ℕ, String, Bool, true, false, not, ◌&&◌, ◌||◌, List, [], ◌∷◌,
  ◌++◌, All, All-map, arith, Bool-cases, inl, inr, none, and_left, and_right,
}
use credit_iq_ai.Prelude.Text.{text_leb}
use credit_iq_ai.Prelude.Sorting.{sort_by, insert_by}
use credit_iq_ai.Errors.{
  ok, raise_if, raise_if-passed, raise_if-not_passed, >>=-ok_inv, ok-injective,
}
use credit_iq_ai.Access.{CurrentUser, has, member}
use credit_iq_ai.Identity.Catalog.{permission_codes}
use credit_iq_ai.Identity.Roles.{all_in}
use credit_iq_ai.Identity.Grants.{IsGrantable}
use credit_iq_ai.Integrations.{
  ApiKey, ApiKeyCreate, KeyMaterial, api_key_of, distinct, validate_scopes, create_api_key,
}

all_in-All :
    (codes known : List String) → all_in codes known ≡ true → All (λ c. member c known ≡ true) codes
all_in-All [] known h = tt
all_in-All (c ∷ cs) known h = (and_left _ _ h, all_in-All cs known (and_right _ _ h))

member-insert_by :
    (before : String → String → Bool) (c x : String) (xs : List String)
    → member c (insert_by before x xs) ≡ (str_eq c x || member c xs)
unfolding member
member-insert_by before c x [] = refl
member-insert_by before c x (y ∷ ys) = elim (Bool-cases (before x y)) [
  | inl first ↦ rw first refl
  | inr later ↦
      let ih = member-insert_by before c x ys in
      rw (later, ih) (swap_or (str_eq c x) (str_eq c y) (member c ys))
]
  where
    swap_or : (a b d : Bool) → (b || (a || d)) ≡ (a || (b || d))
    swap_or a b d = ground arith

member-sort_by :
    (before : String → String → Bool) (c : String) (xs : List String)
    → member c (sort_by before xs) ≡ member c xs
unfolding member
member-sort_by before c [] = refl
member-sort_by before c (x ∷ xs) =
    member-insert_by before c x (sort_by before xs)
    ∙ ap (λ b. str_eq c x || b) (member-sort_by before c xs)

member-distinct : (c : String) (xs : List String) → member c (distinct xs) ≡ member c xs
unfolding member
member-distinct c [] = refl
member-distinct c (x ∷ xs) = elim (Bool-cases (member x xs)) [
  | inr fresh ↦ rw fresh (ap (λ b. str_eq c x || b) (member-distinct c xs))
  | inl again ↦ rw again (elim (Bool-cases (str_eq c x)) [
    | inr other ↦ rw other (member-distinct c xs)
    | inl hit ↦
        let e : c ≡ x = (eq_iff c x).0 hit in
        rw hit (member-distinct c xs ∙ subst (λ z. member z xs ≡ true) (sym e) again)
  ])
]

-- What a key that is created may do, and for whom.
pub record IsDelegated (actor : CurrentUser) (requested : List String) (key : ApiKey) : Type 0 where
  pub of_tenant : key.organization_id ≡ actor.org_id
  pub of_actor : key.created_by_user_id ≡ actor.user_id
  pub is_known : All (λ c. member c permission_codes ≡ true) key.scopes
  pub is_held : All (IsGrantable actor) key.scopes
  pub as_requested : (c : String) → member c key.scopes ≡ member c requested
  pub is_live : key.revoked_at ≡ none

held :
    (actor : CurrentUser) (scopes : List String)
    → (not (has actor "platform:admin") && not (all_in scopes actor.permissions)) ≡ false
    → All (IsGrantable actor) scopes
held actor scopes guard = elim (Bool-cases (has actor "platform:admin")) [
  | inl admin ↦ everyone scopes (λ c. rw admin refl)
  | inr tenant ↦
      let all : all_in scopes actor.permissions ≡ true = ground arith in
      All-map (λ c. member c actor.permissions ≡ true) (IsGrantable actor) scopes
        (λ c own. rw (tenant, own) refl) (all_in-All scopes actor.permissions all)
]
  where
    everyone :
        (xs : List String) → ((c : String) → IsGrantable actor c) → All (IsGrantable actor) xs
    everyone [] h = tt
    everyone (x ∷ xs) h = (h x, everyone xs h)

-- An API key that is created is of the caller's tenant, carries exactly the scopes asked for, all
-- of them in the catalog, and none that the caller does not hold, unless a platform administrator
-- creates it.
pub create_api_key-IsDelegated :
    (id : ℕ) (key : KeyMaterial) (keys : List ApiKey) (actor : CurrentUser) (body : ApiKeyCreate)
    {r : (ApiKey × String) × List ApiKey}
    → create_api_key id key keys actor body ≡ ok r
    → IsDelegated actor body.scopes r.0.0 × (r.1 ≡ keys ++ (r.0.0 ∷ []))
unfolding create_api_key validate_scopes
create_api_key-IsDelegated id key keys actor body {r} h =
    let sorted = sort_by text_leb (distinct body.scopes) in
    let (scopes, hs, h1) = >>=-ok_inv (validate_scopes actor body.scopes) _ h in
    let (u, hu, h2) = >>=-ok_inv (raise_if (not (all_in sorted permission_codes)) _) _ hs in
    let (v, hv, h3) =
      >>=-ok_inv
        (raise_if (not (has actor "platform:admin") && not (all_in sorted actor.permissions)) _) _
        h2 in
    let found : sorted ≡ scopes = ok-injective h3 in
    let delegated : IsDelegated actor body.scopes (api_key_of id key actor body scopes) =
      subst (λ z. IsDelegated actor body.scopes (api_key_of id key actor body z)) found
        (record {
          of_tenant = refl;
          of_actor = refl;
          is_known = all_in-All sorted permission_codes (raise_if-not_passed _ _ hu);
          is_held = held actor sorted (raise_if-passed _ _ hv);
          as_requested =
              λ c. member-sort_by text_leb c (distinct body.scopes) ∙ member-distinct c body.scopes;
          is_live = refl;
        }) in
    subst (λ z. IsDelegated actor body.scopes z.0.0 × (z.1 ≡ keys ++ (z.0.0 ∷ [])))
      (ok-injective h1) (delegated, refl)
