-- ===== src/Prelude/Positions.antt =====
-- Lists with positions: `enumerate`, reads and writes at an index, and counting.
use Prim.Native.Nat.{ℕ, zero, suc, ◌+◌, ◌-◌, ◌≤◌}
use mathlib.Core.Path.{◌≡◌, refl, sym, ap, subst}
use mathlib.Core.Logic.{◌≢◌, inl, inr}
use mathlib.Core.Bool.{Bool, true, false, ◌&&◌, not}
use mathlib.Core.Option.{Option, none, some}
use mathlib.Core.List.{List, [], ◌∷◌, ◌++◌}
use native.Mathlib.Omega.{arith}
use credit_iq_ai.Prelude.Tests.{if◌then◌else◌, Bool-cases}
use credit_iq_ai.Prelude.Lists.{length, select, exists}

module _ {ℓ} {A : Type ℓ} where
  -- `list(enumerate(xs, start))`
  abbrev pub enumerate : ℕ → List A → List (ℕ × A)
  enumerate start [] = []
  enumerate start (x ∷ xs) = (start, x) ∷ enumerate (suc start) xs

  abbrev pub get_elem? : List A → ℕ → Option A
  get_elem? [] i = none
  get_elem? (x ∷ xs) zero = some x
  get_elem? (x ∷ xs) (suc i) = get_elem? xs i

  -- `xs[i] = y`
  abbrev pub set_at : ℕ → A → List A → List A
  set_at i y [] = []
  set_at zero y (x ∷ xs) = y ∷ xs
  set_at (suc i) y (x ∷ xs) = x ∷ set_at i y xs

  abbrev pub count : (A → Bool) → List A → ℕ
  count p [] = 0
  count p (x ∷ xs) = (if p x then 1 else 0) + count p xs

  pub count-append : (p : A → Bool) (xs ys : List A) → count p (xs ++ ys) ≡ count p xs + count p ys
  count-append p [] ys = omega arith
  count-append p (x ∷ xs) ys = omega (arith, count-append p xs ys)

  pub count-set_at :
      (p : A → Bool) (i : ℕ) (y : A) (xs : List A) {x : A}
      → get_elem? xs i ≡ some x
      → count p (set_at i y xs) + (if p x then 1 else 0) ≡ count p xs + (if p y then 1 else 0)
  count-set_at p i y [] h = cc
  count-set_at p zero y (x ∷ xs) h = ground arith
  count-set_at p (suc i) y (x ∷ xs) h = let ih = count-set_at p i y xs h in omega arith

  pub count_positive :
      (p : A → Bool) (i : ℕ) (xs : List A) {x : A}
      → get_elem? xs i ≡ some x
      → p x ≡ true
      → 1 ≤ count p xs
  count_positive p i [] h q = cc
  count_positive p zero (x ∷ xs) h q = ground arith
  count_positive p (suc i) (x ∷ xs) h q = let ih = count_positive p i xs h q in omega arith

  pub get_elem?-set_at :
      (i j : ℕ) (y : A) (xs : List A) → i ≢ j → get_elem? (set_at j y xs) i ≡ get_elem? xs i
  get_elem?-set_at i j y [] h = refl
  get_elem?-set_at zero zero y (x ∷ xs) h = absurd (h refl)
  get_elem?-set_at zero (suc j) y (x ∷ xs) h = refl
  get_elem?-set_at (suc i) zero y (x ∷ xs) h = refl
  get_elem?-set_at (suc i) (suc j) y (x ∷ xs) h = get_elem?-set_at i j y xs (λ e. h (omega arith))

  pub get_elem?-append :
      (i : ℕ) (xs ys : List A) {x : A} → get_elem? xs i ≡ some x → get_elem? (xs ++ ys) i ≡ some x
  get_elem?-append i [] ys h = cc
  get_elem?-append zero (x ∷ xs) ys h = h
  get_elem?-append (suc i) (x ∷ xs) ys h = get_elem?-append i xs ys h

  pub exists-count : (p : A → Bool) (xs : List A) → exists p xs ≡ false → count p xs ≡ 0
  exists-count p [] h = refl
  exists-count p (x ∷ xs) h = ground (arith, exists-count p xs)

  pub count_split :
      (p q : A → Bool) (xs : List A)
      → count p xs ≡ count (λ x. p x && q x) xs + count (λ x. p x && not (q x)) xs
  count_split p q [] = refl
  count_split p q (x ∷ xs) = ground (arith, count_split p q xs)

  pub count-and_comm :
      (p q : A → Bool) (xs : List A) → count (λ x. p x && q x) xs ≡ count (λ x. q x && p x) xs
  count-and_comm p q [] = refl
  count-and_comm p q (x ∷ xs) = ground (arith, count-and_comm p q xs)

  -- What passes two tests in turn.
  pub select-select :
      (p q : A → Bool) (xs : List A) → select q (select p xs) ≡ select (λ x. p x && q x) xs
  select-select p q [] = refl
  select-select p q (x ∷ xs) = ground (arith, select-select p q xs)

  -- The first entry of an enumeration that passes a test.
  pub enumerate_first :
      (p : A → Bool) (n : ℕ) (xs : List A) {i : ℕ} {x : A} {rest : List (ℕ × A)}
      → select (λ e. p e.1) (enumerate n xs) ≡ (i, x) ∷ rest
      → (n ≤ i) × (get_elem? xs (i - n) ≡ some x) × (p x ≡ true)
  enumerate_first p n [] h = cc
  enumerate_first p n (y ∷ xs) {i} {x} h = elim (Bool-cases (p y)) [
    | inl hit ↦
        let same_i : n ≡ i = ground arith in
        let same_x : y ≡ x = ground arith in
        let zero_i : i - n ≡ 0 = omega arith in
        (omega arith, rw zero_i (ap some same_x), subst (λ z. p z ≡ true) same_x hit)
    | inr miss ↦
        let (later, at, holds) = enumerate_first p (suc n) xs (rw miss at h) in
        let shift : i - n ≡ suc (i - suc n) = omega arith in
        (omega arith, rw (shift, at) refl, holds)
  ]

  pub enumerate_head :
      (p : A → Bool) (xs : List A) {i : ℕ} {x : A} {rest : List (ℕ × A)}
      → select (λ e. p e.1) (enumerate 0 xs) ≡ (i, x) ∷ rest
      → (get_elem? xs i ≡ some x) × (p x ≡ true)
  enumerate_head p xs {i} {x} h =
      let (start, found, holds) = enumerate_first p 0 xs h in
      let same_place : i - 0 ≡ i = omega arith in
      (subst (λ n. get_elem? xs n ≡ some x) same_place found, holds)

  pub length-select-enumerate :
      (p : A → Bool) (n : ℕ) (xs : List A)
      → length (select (λ e. p e.1) (enumerate n xs)) ≡ count p xs
  length-select-enumerate p n [] = refl
  length-select-enumerate p n (x ∷ xs) = ground (arith, length-select-enumerate p (suc n) xs)

  -- The one element that passes a test.
  pub select_none : (p : A → Bool) (xs : List A) → count p xs ≡ 0 → select p xs ≡ []
  select_none p [] h = refl
  select_none p (x ∷ xs) h = ground (arith, select_none p xs)

  pub select_one :
      (p : A → Bool) (i : ℕ) (xs : List A) {x : A}
      → get_elem? xs i ≡ some x
      → p x ≡ true
      → count p xs ≤ 1
      → select p xs ≡ x ∷ []
  select_one p i [] h px single = cc
  select_one p zero (y ∷ xs) {x} h px single =
      let same : y ≡ x = ground arith in
      let hit : p y ≡ true = subst (λ z. p z ≡ true) (sym same) px in
      let none_left : count p xs ≡ 0 = ground arith in
      rw (hit, select_none p xs none_left, same) refl
  select_one p (suc i) (y ∷ xs) h px single =
      let more = count_positive p i xs h px in
      let miss : p y ≡ false = ground arith in rw miss (select_one p i xs h px (omega arith))

  pub get_elem?-set_at_same :
      (i : ℕ) (y : A) (xs : List A) {x : A}
      → get_elem? xs i ≡ some x
      → get_elem? (set_at i y xs) i ≡ some y
  get_elem?-set_at_same i y [] h = cc
  get_elem?-set_at_same zero y (x ∷ xs) h = refl
  get_elem?-set_at_same (suc i) y (x ∷ xs) h = get_elem?-set_at_same i y xs h

  pub set_at_keeps :
      (i j : ℕ) (y : A) (xs : List A) {x : A}
      → get_elem? xs i ≡ some x
      → (z : A) × (get_elem? (set_at j y xs) i ≡ some z)
  set_at_keeps i j y [] h = cc
  set_at_keeps zero zero y (x ∷ xs) h = (y, refl)
  set_at_keeps zero (suc j) y (x ∷ xs) h = (x, refl)
  set_at_keeps (suc i) zero y (x ∷ xs) {x = z} h = (z, h)
  set_at_keeps (suc i) (suc j) y (x ∷ xs) h = set_at_keeps i j y xs h
