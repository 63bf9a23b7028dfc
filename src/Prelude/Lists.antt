-- ===== src/Prelude/Lists.antt =====
-- Lists as the program uses them: queries (`find`, `exists`, `where`), updates in place, sizes.
use Prim.Native.Nat.{ℕ, suc, ◌+◌}
use mathlib.Core.Path.{◌≡◌, refl, ap, ◌∙◌, subst}
use mathlib.Core.Logic.{◌⊎◌, inl, inr}
use mathlib.Core.Bool.{Bool, true, false, ◌||◌}
use mathlib.Core.Option.{Option, none, some}
use mathlib.Core.List.{List, [], ◌∷◌, ◌++◌}
use native.Mathlib.Omega.{arith}
use credit_iq_ai.Prelude.Tests.{if◌then◌else◌, Bool-cases}

module _ {ℓ} {A : Type ℓ} where
  abbrev pub length : List A → ℕ
  length [] = 0
  length (x ∷ xs) = suc (length xs)

  -- The first element that passes a test.
  abbrev pub find : (A → Bool) → List A → Option A
  find p [] = none
  find p (x ∷ xs) = if p x then some x else find p xs

  abbrev pub exists : (A → Bool) → List A → Bool
  exists p [] = false
  exists p (x ∷ xs) = p x || exists p xs

  -- Every element that passes a test, in order.
  abbrev pub select : (A → Bool) → List A → List A
  select p [] = []
  select p (x ∷ xs) = if p x then x ∷ select p xs else select p xs

  -- Applies `f` to each element that passes a test, where it stands.
  abbrev pub update_where : (A → Bool) → (A → A) → List A → List A
  update_where p f [] = []
  update_where p f (x ∷ xs) = (if p x then f x else x) ∷ update_where p f xs

  -- Applies `f` to the first element that passes a test, as a write through the row that `find`
  -- returns.
  abbrev pub update_first : (A → Bool) → (A → A) → List A → List A
  update_first p f [] = []
  update_first p f (x ∷ xs) = if p x then f x ∷ xs else x ∷ update_first p f xs

  abbrev pub All {κ} : (A → Type κ) → List A → Type κ
  All P [] = Unit
  All P (x ∷ xs) = P x × All P xs

  pub length-append : (xs ys : List A) → length (xs ++ ys) ≡ length xs + length ys
  length-append [] ys = omega arith
  length-append (x ∷ xs) ys = omega (arith, length-append xs ys)

  pub All-append {κ} : (P : A → Type κ) (xs ys : List A) → All P xs → All P ys → All P (xs ++ ys)
  All-append P [] ys _ q = q
  All-append P (x ∷ xs) ys (p, ps) q = (p, All-append P xs ys ps q)

  pub All-map {κ μ} :
      (P : A → Type κ) (Q : A → Type μ) (xs : List A) → ((a : A) → P a → Q a) → All P xs → All Q xs
  All-map P Q [] h ps = tt
  All-map P Q (x ∷ xs) h (p, ps) = (h x p, All-map P Q xs h ps)

  pub find-holds : (p : A → Bool) (xs : List A) {a : A} → find p xs ≡ some a → p a ≡ true
  find-holds p [] h = cc
  find-holds p (x ∷ xs) h = elim (Bool-cases (p x)) [
    | inl hit ↦ ground arith
    | inr miss ↦ find-holds p xs (rw miss at h)
  ]

  pub find-All {κ} :
      (P : A → Type κ) (p : A → Bool) (xs : List A) {a : A} → find p xs ≡ some a → All P xs → P a
  find-All P p [] h ps = cc
  find-All P p (x ∷ xs) {a} h (q, ps) = elim (Bool-cases (p x)) [
    | inl hit ↦ let same : x ≡ a = ground arith in subst P same q
    | inr miss ↦ find-All P p xs (rw miss at h) ps
  ]

  -- A write through the row that was found keeps what holds of all rows, if the new row has it.
  pub All-update_first {κ} :
      (P : A → Type κ) (p : A → Bool) (f : A → A) (xs : List A) {a : A}
      → find p xs ≡ some a
      → P (f a)
      → All P xs
      → All P (update_first p f xs)
  All-update_first P p f [] h q ps = tt
  All-update_first P p f (x ∷ xs) {a} h q (px, ps) = elim (Bool-cases (p x)) [
    | inl hit ↦ let same : a ≡ x = ground arith in rw hit (subst (λ y. P (f y)) same q, ps)
    | inr miss ↦ rw miss (px, All-update_first P p f xs (rw miss at h) q ps)
  ]

  pub exists-append :
      (p : A → Bool) (xs ys : List A) → exists p (xs ++ ys) ≡ (exists p xs || exists p ys)
  exists-append p [] ys = refl
  exists-append p (x ∷ xs) ys = ground (arith, exists-append p xs ys)

  pub exists-append_left :
      (p : A → Bool) (xs ys : List A) → exists p xs ≡ true → exists p (xs ++ ys) ≡ true
  exists-append_left p xs ys h = rw (exists-append p xs ys, h)

  pub exists-append_last :
      (p : A → Bool) (xs : List A) (x : A) → p x ≡ true → exists p (xs ++ (x ∷ [])) ≡ true
  exists-append_last p [] x h = rw h
  exists-append_last p (y ∷ xs) x h = ground (arith, exists-append_last p xs x h)

  pub find-append :
      (p : A → Bool) (xs ys : List A) {x : A} → find p xs ≡ some x → find p (xs ++ ys) ≡ some x
  find-append p [] ys h = cc
  find-append p (x ∷ xs) ys h = elim (Bool-cases (p x)) [
    | inl hit ↦ rw hit (rw hit at h)
    | inr miss ↦ rw miss (find-append p xs ys (rw miss at h))
  ]

  if_keeps :
      (p : A → Bool) (f : A → A) (b : Bool) (a : A) → p (f a) ≡ p a → p (if b then f a else a) ≡ p a
  if_keeps p f true a same = same
  if_keeps p f false a same = refl

  -- The element found after writes that do not change which one is found.
  pub find-update_where :
      (p q : A → Bool) (f : A → A) (xs : List A) {x : A}
      → ((a : A) → p (f a) ≡ p a)
      → find p xs ≡ some x
      → find p (update_where q f xs) ≡ some (if q x then f x else x)
  find-update_where p q f [] same h = cc
  find-update_where p q f (y ∷ ys) {x} same h = elim (Bool-cases (p y)) [
    | inl hit ↦
        let found : y ≡ x = ground arith in
        let kept : p (if q y then f y else y) ≡ true = if_keeps p f (q y) y (same y) ∙ hit in
        rw kept
          (subst (λ z. some (if q y then f y else y) ≡ some (if q z then f z else z)) found refl)
    | inr miss ↦
        let kept : p (if q y then f y else y) ≡ false = if_keeps p f (q y) y (same y) ∙ miss in
        rw kept (find-update_where p q f ys same (rw miss at h))
  ]

  pub find-update_first :
      (p q : A → Bool) (f : A → A) (xs : List A) {x : A}
      → ((a : A) → p (f a) ≡ p a)
      → find p xs ≡ some x
      → (find p (update_first q f xs) ≡ some x) ⊎ (find p (update_first q f xs) ≡ some (f x))
  find-update_first p q f [] same h = cc
  find-update_first p q f (y ∷ ys) {x} same h = elim (Bool-cases (q y)) [
    | inl written ↦ elim (Bool-cases (p y)) [
      | inl hit ↦
          let found : y ≡ x = ground arith in
          let kept : p (f y) ≡ true = same y ∙ hit in
          inr (rw (written, kept) (ap (λ z. some (f z)) found))
      | inr miss ↦
          let kept : p (f y) ≡ false = same y ∙ miss in inl (rw (written, kept) (rw miss at h))
    ]
    | inr passed ↦ elim (Bool-cases (p y)) [
      | inl hit ↦ inl (rw (passed, hit) (rw hit at h))
      | inr miss ↦ rw (passed, miss) (find-update_first p q f ys same (rw miss at h))
    ]
  ]

  pub find-update_found :
      (p : A → Bool) (f : A → A) (xs : List A) {x : A}
      → ((a : A) → p (f a) ≡ p a)
      → find p xs ≡ some x
      → find p (update_first p f xs) ≡ some (f x)
  find-update_found p f [] same h = cc
  find-update_found p f (y ∷ ys) {x} same h = elim (Bool-cases (p y)) [
    | inl hit ↦
        let found : y ≡ x = ground arith in
        let kept : p (f y) ≡ true = same y ∙ hit in rw (hit, kept) (ap (λ z. some (f z)) found)
    | inr miss ↦ rw (miss, miss) (find-update_found p f ys same (rw miss at h))
  ]
