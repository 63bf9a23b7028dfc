-- ===== src/Errors.antt =====
-- backend/app/core/exceptions.py: an operation returns a value or one of the application errors.
use credit_iq_ai.Prelude.{String, Bool, true, false, not, Option, none, some, ◌≡◌, refl, ap}

-- `value_error` is Python's ValueError, pydantic's validation errors included, `arithmetic_error` the
-- signals of `decimal` that its context traps.
pub data AppError : Type 0 where
  not_found : String → AppError
  conflict : String → AppError
  permission_denied : String → AppError
  domain_rule : String → AppError
  authentication : String → AppError
  value_error : String → AppError
  arithmetic_error : String → AppError

pub data Outcome {ℓ} (E : Type 0) (A : Type ℓ) : Type ℓ where
  err : E → Outcome E A
  ok : A → Outcome E A

abbrev pub Result {ℓ} : Type ℓ → Type ℓ
Result A = Outcome AppError A

-- The steps of an operation run in order until one raises.
module _ {ℓ κ} {E : Type 0} {A : Type ℓ} {B : Type κ} where
  infixl 5 ◌>>=◌
  abbrev pub ◌>>=◌ : Outcome E A → (A → Outcome E B) → Outcome E B
  err e >>= next = err e
  ok a >>= next = next a

module _ {ℓ} {E : Type 0} {B : Type ℓ} where
  infixl 5 ◌>>◌
  abbrev pub ◌>>◌ : Outcome E (Unit {0}) → Outcome E B → Outcome E B
  check >> rest = check >>= λ _. rest

-- `if test: raise error`
abbrev pub raise_if : {E : Type 0} → Bool → E → Outcome E (Unit {0})
raise_if true e = err e
raise_if false e = ok tt

abbrev pub or_raise {ℓ} : {E : Type 0} {A : Type ℓ} → Option A → E → Outcome E A
or_raise none e = err e
or_raise (some a) e = ok a

-- An operation that succeeds has succeeded at its first step and then at the rest.
pub >>=-ok_inv {ℓ κ} :
    {E : Type 0} {A : Type ℓ} {B : Type κ} (first : Outcome E A) (next : A → Outcome E B) {b : B}
    → (first >>= next) ≡ ok b
    → (a : A) × (first ≡ ok a) × (next a ≡ ok b)
>>=-ok_inv (err e) next h = cc
>>=-ok_inv (ok a) next h = (a, refl, h)

pub ok-injective {ℓ} :
    {E : Type 0} {A : Type ℓ} {a b : A} → ◌≡◌ {A = Outcome E A} (ok a) (ok b) → a ≡ b
ok-injective h = cc

pub raise_if-passed :
    {E : Type 0} (b : Bool) (e : E) {u : Unit {0}} → raise_if b e ≡ ok u → b ≡ false
raise_if-passed true e h = cc
raise_if-passed false e h = refl

pub raise_if-not_passed :
    {E : Type 0} (b : Bool) (e : E) {u : Unit {0}} → raise_if (not b) e ≡ ok u → b ≡ true
raise_if-not_passed true e h = refl
raise_if-not_passed false e h = cc

pub or_raise-found {ℓ} :
    {E : Type 0} {A : Type ℓ} (o : Option A) (e : E) {a : A} → or_raise o e ≡ ok a → o ≡ some a
or_raise-found none e h = cc
or_raise-found (some x) e h = ap some (ok-injective h)

-- A result that would yield a contradiction, if it were a value, is an error.
pub refused :
    {A : Type 0} (res : Result A)
    → ((a : A) → res ≡ ok a → true ≡ false)
    → (e : AppError) × (res ≡ err e)
refused (err e) h = (e, refl)
refused (ok a) h = let bad = h a refl in cc
