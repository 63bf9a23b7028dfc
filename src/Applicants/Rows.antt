-- ===== src/Applicants/Rows.antt =====
-- Reading back the rows of an applicant after they are replaced.
use credit_iq_ai.Prelude.{
  ◌≡◌, refl, ap, ◌∙◌, ℕ, true, false, not, ◌==◌, ==_refl, Option, some, none, List, [], ◌∷◌, ◌++◌,
  select, arith, inl, inr, Bool-cases,
}
use credit_iq_ai.Applicants.{Owned}
use credit_iq_ai.Applicants.Service.{own, own_all, own_optional, is_of, all_of, first_of}
use credit_iq_ai.Applicants.Update.{replace_one, replace_many, supplied_or}

module _ {A : Type 0} (org k : ℕ) where
  own-is_of : (a : A) → is_of org k (own org k a) ≡ true
  own-is_of a = rw (==_refl org, ==_refl k) refl

  all_own : (xs : List A) → all_of org k (own_all org k xs) ≡ xs
  all_own [] = refl
  all_own (x ∷ xs) = rw (own-is_of x) (ap (λ ys. x ∷ ys) (all_own xs))

  first_own : (o : Option A) → first_of org k (own_optional org k o) ≡ o
  first_own none = refl
  first_own (some a) = rw (own-is_of a) refl

  -- Nothing of the applicant is left among the rows that are kept.
  all_kept :
      (rows new : List (Owned A))
      → all_of org k (select (λ r. not (is_of org k r)) rows ++ new) ≡ all_of org k new
  all_kept [] new = refl
  all_kept (r ∷ rows) new = elim (Bool-cases (is_of org k r)) [
    | inl hit ↦ rw hit (all_kept rows new)
    | inr miss ↦ rw (miss, miss) (all_kept rows new)
  ]

  first_kept :
      (rows new : List (Owned A))
      → first_of org k (select (λ r. not (is_of org k r)) rows ++ new) ≡ first_of org k new
  first_kept [] new = refl
  first_kept (r ∷ rows) new = elim (Bool-cases (is_of org k r)) [
    | inl hit ↦ rw hit (first_kept rows new)
    | inr miss ↦ rw (miss, miss) (first_kept rows new)
  ]

  pub all_of-replace_many :
      (values : Option (List A)) (rows : List (Owned A))
      → all_of org k (replace_many org k values rows) ≡ supplied_or (all_of org k rows) values
  all_of-replace_many none rows = refl
  all_of-replace_many (some values) rows = all_kept rows (own_all org k values) ∙ all_own values

  pub first_of-replace_one :
      (value : Option (Option A)) (rows : List (Owned A))
      → first_of org k (replace_one org k value rows) ≡ supplied_or (first_of org k rows) value
  first_of-replace_one none rows = refl
  first_of-replace_one (some value) rows =
      first_kept rows (own_optional org k value) ∙ first_own value

  module _ (at j : ℕ) (other : (k == j) ≡ false) where
    own_not_of : (a : A) → is_of at j (own org k a) ≡ false
    own_not_of a = ground arith

    all_not_own : (xs : List A) → all_of at j (own_all org k xs) ≡ []
    all_not_own [] = refl
    all_not_own (x ∷ xs) = rw (own_not_of x) (all_not_own xs)

    first_not_own : (o : Option A) → first_of at j (own_optional org k o) ≡ none
    first_not_own none = refl
    first_not_own (some a) = rw (own_not_of a) refl

    not_both : (r : Owned A) → is_of org k r ≡ true → is_of at j r ≡ false
    not_both r h = ground arith

    all_others :
        (rows new : List (Owned A))
        → all_of at j new ≡ []
        → all_of at j (select (λ r. not (is_of org k r)) rows ++ new) ≡ all_of at j rows
    all_others [] new h = h
    all_others (r ∷ rows) new h = elim (Bool-cases (is_of org k r)) [
      | inl hit ↦ rw (hit, not_both r hit) (all_others rows new h)
      | inr miss ↦ rw miss (elim (Bool-cases (is_of at j r)) [
        | inl seen ↦ rw seen (ap (λ xs. r.item ∷ xs) (all_others rows new h))
        | inr unseen ↦ rw unseen (all_others rows new h)
      ])
    ]

    first_others :
        (rows new : List (Owned A))
        → first_of at j new ≡ none
        → first_of at j (select (λ r. not (is_of org k r)) rows ++ new) ≡ first_of at j rows
    first_others [] new h = h
    first_others (r ∷ rows) new h = elim (Bool-cases (is_of org k r)) [
      | inl hit ↦ rw (hit, not_both r hit) (first_others rows new h)
      | inr miss ↦ rw miss (elim (Bool-cases (is_of at j r)) [
        | inl seen ↦ rw seen refl
        | inr unseen ↦ rw unseen (first_others rows new h)
      ])
    ]

    pub all_of-replace_other :
        (values : Option (List A)) (rows : List (Owned A))
        → all_of at j (replace_many org k values rows) ≡ all_of at j rows
    all_of-replace_other none rows = refl
    all_of-replace_other (some values) rows =
        all_others rows (own_all org k values) (all_not_own values)

    pub first_of-replace_other :
        (value : Option (Option A)) (rows : List (Owned A))
        → first_of at j (replace_one org k value rows) ≡ first_of at j rows
    first_of-replace_other none rows = refl
    first_of-replace_other (some value) rows =
        first_others rows (own_optional org k value) (first_not_own value)
