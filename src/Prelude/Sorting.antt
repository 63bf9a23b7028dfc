-- ===== src/Prelude/Sorting.antt =====
-- Python's stable `sorted`, as an insertion sort by a test of order.
use mathlib.Core.Path.{◌≡◌, subst}
use mathlib.Core.Logic.{inl, inr}
use mathlib.Core.Bool.{Bool, true, false}
use mathlib.Core.Option.{some}
use mathlib.Core.List.{List, [], ◌∷◌}
use native.Mathlib.Omega.{arith}
use credit_iq_ai.Prelude.Tests.{if◌then◌else◌, Bool-cases}
use credit_iq_ai.Prelude.Lists.{All, All-map, find}

module _ {ℓ} {A : Type ℓ} where
  abbrev pub insert_by : (A → A → Bool) → A → List A → List A
  insert_by before x [] = x ∷ []
  insert_by before x (y ∷ ys) = if before x y then x ∷ y ∷ ys else y ∷ insert_by before x ys

  abbrev pub sort_by : (A → A → Bool) → List A → List A
  sort_by before [] = []
  sort_by before (x ∷ xs) = insert_by before x (sort_by before xs)

  -- Every element is in order with all that follow.
  abbrev pub IsSorted {κ} : (A → A → Type κ) → List A → Type κ
  IsSorted R [] = Unit
  IsSorted R (x ∷ xs) = All (R x) xs × IsSorted R xs

  insert_by-All {κ} :
      (P : A → Type κ) (before : A → A → Bool) (x : A) (xs : List A)
      → P x
      → All P xs
      → All P (insert_by before x xs)
  insert_by-All P before x [] p ps = (p, tt)
  insert_by-All P before x (y ∷ ys) p (q, qs) = elim (Bool-cases (before x y)) [
    | inl first ↦ rw first (p, (q, qs))
    | inr later ↦ rw later (q, insert_by-All P before x ys p qs)
  ]

  All-insert_by {κ} :
      (P : A → Type κ) (before : A → A → Bool) (x : A) (xs : List A)
      → All P (insert_by before x xs)
      → P x × All P xs
  All-insert_by P before x [] (p, ps) = (p, tt)
  All-insert_by P before x (y ∷ ys) h = elim (Bool-cases (before x y)) [
    | inl first ↦ rw first at h
    | inr later ↦
        let h' : P y × All P (insert_by before x ys) = rw later at h in
        let (p, ps) = All-insert_by P before x ys h'.1 in (p, (h'.0, ps))
  ]

  -- What holds of all elements of the sorted list holds of all elements.
  pub All-sort_by {κ} :
      (P : A → Type κ) (before : A → A → Bool) (xs : List A) → All P (sort_by before xs) → All P xs
  All-sort_by P before [] h = tt
  All-sort_by P before (x ∷ xs) h =
      let (p, ps) = All-insert_by P before x (sort_by before xs) h in
      (p, All-sort_by P before xs ps)

  -- And conversely.
  pub sort_by-All {κ} :
      (P : A → Type κ) (before : A → A → Bool) (xs : List A) → All P xs → All P (sort_by before xs)
  sort_by-All P before [] h = tt
  sort_by-All P before (x ∷ xs) (p, ps) =
      insert_by-All P before x (sort_by before xs) p (sort_by-All P before xs ps)

  module _ {κ} (R : A → A → Type κ) (before : A → A → Bool) where
    insert_by-IsSorted :
        ((x y z : A) → R x y → R y z → R x z)
        → ((x y : A) → before x y ≡ true → R x y)
        → ((x y : A) → before x y ≡ false → R y x)
        → (x : A) (xs : List A) → IsSorted R xs
        → IsSorted R (insert_by before x xs)
    insert_by-IsSorted trans in_order swapped x [] s = (tt, tt)
    insert_by-IsSorted trans in_order swapped x (y ∷ ys) (r, s) = elim (Bool-cases (before x y)) [
      | inl first ↦ rw first (
        (in_order x y first, All-map (R y) (R x) ys (λ z. trans x y z (in_order x y first)) r),
        (r, s),
      )
      | inr later ↦ rw later (
        insert_by-All (R y) before x ys (swapped x y later) r,
        insert_by-IsSorted trans in_order swapped x ys s,
      )
    ]

    pub sort_by-IsSorted :
        ((x y z : A) → R x y → R y z → R x z)
        → ((x y : A) → before x y ≡ true → R x y)
        → ((x y : A) → before x y ≡ false → R y x)
        → (xs : List A) → IsSorted R (sort_by before xs)
    sort_by-IsSorted trans in_order swapped [] = tt
    sort_by-IsSorted trans in_order swapped (x ∷ xs) =
        insert_by-IsSorted trans in_order swapped x (sort_by before xs)
          (sort_by-IsSorted trans in_order swapped xs)

    -- The first element that passes a test is in order with every other that passes it.
    pub find-IsFirst :
        (p : A → Bool) (xs : List A) {c : A}
        → ((x : A) → R x x)
        → IsSorted R xs
        → find p xs ≡ some c
        → All (λ x. p x ≡ true → R c x) xs
    find-IsFirst p [] same s h = tt
    find-IsFirst p (x ∷ xs) {c} same (r, s) h = elim (Bool-cases (p x)) [
      | inl hit ↦
          let e : x ≡ c = ground arith in
          subst (λ z. All (λ y. p y ≡ true → R z y) (x ∷ xs)) e
            ((λ _. same x), All-map (R x) _ xs (λ y ry _. ry) r)
      | inr miss ↦ ((λ hit. cc), find-IsFirst p xs same s (rw miss at h))
    ]
