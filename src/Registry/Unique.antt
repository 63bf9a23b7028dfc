-- ===== src/Registry/Unique.antt =====
-- The registry's invariant: one model to a reference, and one production model at most to an
-- identity.
use credit_iq_ai.Prelude.{
  ◌≡◌, ap, subst, ◌⊎◌, ℕ, suc, ◌-◌, ◌≤◌, String, Bool, true, false, not, ◌&&◌, some, List, [], ◌∷◌,
  ◌++◌, arith, inl, inr, Bool-cases, find, is_none, refl,
}
use credit_iq_ai.Prelude.Positions.{
  get_elem?, set_at, count, count-append, count-set_at, count_positive, exists-count, count_split,
  count-and_comm,
}
use credit_iq_ai.Errors.{ok, ok-injective, raise_if-passed}
use credit_iq_ai.Prelude.Text.{same, same_iff}
use credit_iq_ai.Registry.Domain.{LifecycleStage, production, eq_stage, key, ModelVersion, ref}
use credit_iq_ai.Registry.File.{
  State, Stored, Disk, absent, unreadable, document, read, write, has_ref, locate, locate_from,
  serves, assert_no_other_production, with_stage,
}

-- The models of the document that stands on the disk.
abbrev pub models_in : Stored → List ModelVersion
models_in absent = []
models_in unreadable = []
models_in (document v state) = state.models

abbrev pub models_on : Disk → List ModelVersion
models_on disk = models_in disk.stored

pub record IsRegistry (ms : List ModelVersion) : Type 0 where
  pub unique : (r : String) → count (has_ref r) ms ≤ 1
  pub single : (k : String) → count (serves k) ms ≤ 1

pub read_models :
    (disk : Disk) {state : State} → read disk ≡ ok state → models_on disk ≡ state.models
unfolding read
read_models disk h = ground arith

pub write_models :
    (disk : Disk) (state : State) {after : Disk}
    → write disk state ≡ ok after
    → models_on after ≡ state.models
unfolding write
write_models disk state h = ground arith

pub locate_from_inv :
    (n : ℕ) (ms : List ModelVersion) (r : String) {at : ℕ × ModelVersion}
    → locate_from n ms r ≡ ok at
    → (n ≤ at.0) × (get_elem? ms (at.0 - n) ≡ some at.1) × (has_ref r at.1 ≡ true)
locate_from_inv n [] r h = cc
locate_from_inv n (m ∷ ms) r {at} h = elim (Bool-cases (has_ref r m)) [
  | inl hit ↦
      let here : (n, m) ≡ at = ok-injective (rw hit at h) in
      let index : n ≡ at.0 = ap (λ e. e.0) here in
      let model : m ≡ at.1 = ap (λ e. e.1) here in
      let start : at.0 - n ≡ 0 = omega arith in
      (omega arith, rw start (ap some model), subst (λ z. has_ref r z ≡ true) model hit)
  | inr miss ↦
      let (later, found, holds) = locate_from_inv (suc n) ms r (rw miss at h) in
      let shift : at.0 - n ≡ suc (at.0 - suc n) = omega arith in
      (omega arith, rw (shift, found) refl, holds)
]

pub locate_inv :
    (state : State) (r : String) {at : ℕ × ModelVersion}
    → locate state r ≡ ok at
    → (get_elem? state.models at.0 ≡ some at.1) × (has_ref r at.1 ≡ true)
unfolding locate
locate_inv state r {at} h =
    let (start, found, holds) = locate_from_inv 0 state.models r h in
    let same_place : at.0 - 0 ≡ at.0 = omega arith in
    (subst (λ n. get_elem? state.models n ≡ some at.1) same_place found, holds)

pub find_none :
    (p : ModelVersion → Bool) (ms : List ModelVersion) → is_none (find p ms) ≡ true → count p ms ≡ 0
find_none p [] h = refl
find_none p (m ∷ ms) h = ground (arith, find_none p ms)

-- A model that enters with a new reference, outside production.
pub append-IsRegistry :
    (ms : List ModelVersion) (m : ModelVersion)
    → is_none (find (has_ref (ref m)) ms) ≡ true
    → eq_stage m.stage production ≡ false
    → IsRegistry ms
    → IsRegistry (ms ++ (m ∷ []))
append-IsRegistry ms m fresh idle inv = record {
  unique = λ r.
      let old = inv.unique r in
      let sum = count-append (has_ref r) ms (m ∷ []) in
      elim (Bool-cases (has_ref r m)) [
        | inl hit ↦
            let named : ref m ≡ r = (same_iff (ref m) r).0 hit in
            let none_before : count (has_ref r) ms ≡ 0 =
              find_none (has_ref r) ms
                (subst (λ z. is_none (find (has_ref z) ms) ≡ true) named fresh) in
            ground arith
        | inr miss ↦ ground arith
      ];
  single =
      λ k. let old = inv.single k in let sum = count-append (serves k) ms (m ∷ []) in ground arith;
}

pub ref-with_stage : (t : LifecycleStage) (m : ModelVersion) → ref (with_stage t m) ≡ ref m
unfolding ref
ref-with_stage t m = refl

-- A model that changes its stage where it stands: to a stage outside production, or to production
-- when no model serves its identity.
pub restage-IsRegistry :
    (ms : List ModelVersion) (i : ℕ) (m : ModelVersion) (t : LifecycleStage)
    → get_elem? ms i ≡ some m
    → (eq_stage t production ≡ false) ⊎ (count (serves (key m.identity)) ms ≡ 0)
    → IsRegistry ms
    → IsRegistry (set_at i (with_stage t m) ms)
restage-IsRegistry ms i m t at free inv = record {
  unique = λ r.
      let old = inv.unique r in
      let same_ref = ref-with_stage t m in
      let sum = count-set_at (has_ref r) i (with_stage t m) ms at in
      let sum' = rw same_ref at sum in omega arith;
  single = λ k.
      let old = inv.single k in
      let sum = count-set_at (serves k) i (with_stage t m) ms at in
      elim free [
        | inl idle ↦ ground arith
        | inr empty ↦ elim (Bool-cases (same (key m.identity) k)) [
          | inl hit ↦
              let named : key m.identity ≡ k = (same_iff (key m.identity) k).0 hit in
              let none_before : count (serves k) ms ≡ 0 =
                subst (λ z. count (serves z) ms ≡ 0) named empty in
              ground arith
          | inr miss ↦ ground arith
        ]
      ];
}

-- No other model serves the identity of one that is not in production itself.
pub assert_no_other_production_inv :
    (state : State) (i : ℕ) (m : ModelVersion) {u : Unit {0}}
    → get_elem? state.models i ≡ some m
    → eq_stage m.stage production ≡ false
    → assert_no_other_production state m ≡ ok u
    → IsRegistry state.models
    → count (serves (key m.identity)) state.models ≡ 0
unfolding assert_no_other_production
assert_no_other_production_inv state i m at idle h inv =
    let p = serves (key m.identity) in
    let q = has_ref (ref m) in
    let others = exists-count (λ x. p x && not (q x)) state.models (raise_if-passed _ _ h) in
    let own : q m ≡ true = (same_iff (ref m) (ref m)).1 refl in
    let alone : (q m && not (p m)) ≡ true = ground arith in
    let here = count_positive (λ x. q x && not (p x)) i state.models at alone in
    let one = inv.unique (ref m) in
    let split_p = count_split p q state.models in
    let split_q = count_split q p state.models in
    let swap = count-and_comm p q state.models in omega arith
