-- ===== src/Registry/Table.antt =====
-- The serving references of file_registry.py as a table by identity, and the steps it takes.
use credit_iq_ai.Prelude.{
  ◌≡◌, ◌≢◌, ap, subst, refl, sym, ◌∙◌, ◌⊎◌, ℕ, zero, suc, ◌≤◌, String, Bool, true, false, Option,
  none, some, List, [], ◌∷◌, ◌++◌, inl, inr, Bool-cases, find, and_left, and_right, arith,
  some-injective,
}
use credit_iq_ai.Prelude.Positions.{
  get_elem?, set_at, count, count_positive, count-set_at, get_elem?-set_at_same, select_one,
}
use credit_iq_ai.Prelude.Text.{same, same_iff}
use credit_iq_ai.Registry.Domain.{
  LifecycleStage, champion, production, eq_stage, key, ModelVersion, ref,
}
use credit_iq_ai.Registry.File.{with_stage, serves, has_ref}
use credit_iq_ai.Registry.Unique.{IsRegistry, ref-with_stage}
use credit_iq_ai.Registry.Swap.{IsPair, step_down, new_stays, swap-IsRegistry}

-- The reference that serves each key, without the list, its order and its other stages.
abbrev pub Table : Type 0
Table = String → Option String

abbrev pub ref_of : Option ModelVersion → Option String
ref_of none = none
ref_of (some m) = some (ref m)

abbrev pub serving : List ModelVersion → Table
serving ms k = ref_of (find (serves k) ms)

-- The steps of the specification.
pub data Serving (before after : Table) : Type 0 where
  stands : ((k : String) → after k ≡ before k) → Serving before after
  enters :
      (k r : String)
      → before k ≡ none
      → after k ≡ some r
      → ((j : String) → j ≢ k → after j ≡ before j)
      → Serving before after
  leaves :
      (k r : String)
      → before k ≡ some r
      → after k ≡ none
      → ((j : String) → j ≢ k → after j ≡ before j)
      → Serving before after
  replaces :
      (k old new : String)
      → before k ≡ some old
      → after k ≡ some new
      → old ≢ new
      → ((j : String) → j ≢ k → after j ≡ before j)
      → Serving before after

module _ {A : Type 0} where
  find-set_at :
      (p : A → Bool) (i : ℕ) (x : A) (xs : List A) {old : A}
      → get_elem? xs i ≡ some old
      → p old ≡ false
      → p x ≡ false
      → find p (set_at i x xs) ≡ find p xs
  find-set_at p i x [] at h h' = refl
  find-set_at p zero x (y ∷ xs) at h h' =
      let same_one : p y ≡ false = subst (λ z. p z ≡ false) (sym (some-injective at)) h in
      ground arith
  find-set_at p (suc i) x (y ∷ xs) at h h' =
      let later = find-set_at p i x xs at h h' in ground arith

  find_missing : (p : A → Bool) (xs : List A) → count p xs ≡ 0 → find p xs ≡ none
  find_missing p [] h = refl
  find_missing p (x ∷ xs) h = ground (arith, find_missing p xs)

  pub find-append_miss :
      (p : A → Bool) (xs : List A) (x : A) → p x ≡ false → find p (xs ++ (x ∷ [])) ≡ find p xs
  find-append_miss p [] x h = ground arith
  find-append_miss p (y ∷ xs) x h = let later = find-append_miss p xs x h in ground arith

  find_only :
      (p : A → Bool) (i : ℕ) (xs : List A) {x : A}
      → get_elem? xs i ≡ some x
      → p x ≡ true
      → count p xs ≤ 1
      → find p xs ≡ some x
  find_only p i [] at h single = cc
  find_only p zero (y ∷ xs) at h single =
      let hit : p y ≡ true = subst (λ z. p z ≡ true) (sym (some-injective at)) h in rw hit at
  find_only p (suc i) (y ∷ xs) at h single =
      let more = count_positive p i xs at h in
      let miss : p y ≡ false = ground arith in rw miss (find_only p i xs at h (omega arith))

-- A model serves no key but that of its identity.
other_key : (j : String) (m : ModelVersion) → j ≢ key m.identity → serves j m ≡ false
other_key j m differ = elim (Bool-cases (same (key m.identity) j)) [
  | inl hit ↦ absurd (differ (sym ((same_iff (key m.identity) j).0 hit)))
  | inr miss ↦ rw miss refl
]

pub idle :
    (j : String) (m : ModelVersion) → eq_stage m.stage production ≡ false → serves j m ≡ false
idle j m h = ground arith

own_key : (m : ModelVersion) → eq_stage m.stage production ≡ true → serves (key m.identity) m ≡ true
own_key m h = let own = (same_iff (key m.identity) (key m.identity)).1 refl in ground arith

-- A write of a model of the same identity leaves the other keys.
others_stay :
    (ms : List ModelVersion) (i : ℕ) (m : ModelVersion) (t : LifecycleStage)
    → get_elem? ms i ≡ some m
    → (j : String) → j ≢ key m.identity
    → serving (set_at i (with_stage t m) ms) j ≡ serving ms j
others_stay ms i m t at j differ = ap ref_of (
    find-set_at (serves j) i (with_stage t m) ms at (other_key j m differ)
      (other_key j (with_stage t m) differ))

-- A model in production is the one of its key.
serving_of :
    (ms : List ModelVersion) (i : ℕ) (m : ModelVersion) (k : String)
    → get_elem? ms i ≡ some m
    → serves k m ≡ true
    → IsRegistry ms
    → serving ms k ≡ some (ref m)
serving_of ms i m k at serving_m inv =
    ap ref_of (find_only (serves k) i ms at serving_m (inv.single k))

enters-Serving :
    (ms : List ModelVersion) (i : ℕ) (m : ModelVersion) (t : LifecycleStage)
    → get_elem? ms i ≡ some m
    → eq_stage t production ≡ true
    → count (serves (key m.identity)) ms ≡ 0
    → IsRegistry (set_at i (with_stage t m) ms)
    → Serving (serving ms) (serving (set_at i (with_stage t m) ms))
enters-Serving ms i m t at enters_production empty inv' =
    enters (key m.identity) (ref (with_stage t m))
      (ap ref_of (find_missing (serves (key m.identity)) ms empty))
      (serving_of (set_at i (with_stage t m) ms) i (with_stage t m) (key m.identity)
        (get_elem?-set_at_same i (with_stage t m) ms at)
        (own_key (with_stage t m) enters_production) inv')
      (others_stay ms i m t at)

leaves-Serving :
    (ms : List ModelVersion) (i : ℕ) (m : ModelVersion) (t : LifecycleStage)
    → get_elem? ms i ≡ some m
    → eq_stage m.stage production ≡ true
    → eq_stage t production ≡ false
    → IsRegistry ms
    → Serving (serving ms) (serving (set_at i (with_stage t m) ms))
leaves-Serving ms i m t at was now inv =
    let k = key m.identity in
    let sum = count-set_at (serves k) i (with_stage t m) ms at in
    let single = inv.single k in
    let mine = own_key m was in
    let gone = idle k (with_stage t m) now in
    let empty : count (serves k) (set_at i (with_stage t m) ms) ≡ 0 = ground arith in
    leaves k (ref m) (serving_of ms i m k at mine inv)
      (ap ref_of (find_missing (serves k) (set_at i (with_stage t m) ms) empty))
      (others_stay ms i m t at)

pub moves-Serving :
    (ms : List ModelVersion) (i : ℕ) (m : ModelVersion) (t : LifecycleStage)
    → get_elem? ms i ≡ some m
    → (eq_stage t production ≡ false) ⊎ (count (serves (key m.identity)) ms ≡ 0)
    → IsRegistry ms
    → IsRegistry (set_at i (with_stage t m) ms)
    → Serving (serving ms) (serving (set_at i (with_stage t m) ms))
moves-Serving ms i m t at free inv inv' = elim (Bool-cases (eq_stage t production)) [
  | inl into ↦ elim free [
    | inl outside ↦ let clash : true ≡ false = sym into ∙ outside in cc
    | inr empty ↦ enters-Serving ms i m t at into empty inv'
  ]
  | inr outside ↦ elim (Bool-cases (eq_stage m.stage production)) [
    | inl was ↦ leaves-Serving ms i m t at was outside inv
    | inr never ↦ stands (λ j. ap ref_of (
        find-set_at (serves j) i (with_stage t m) ms at (idle j m never)
          (idle j (with_stage t m) outside)))
  ]
]

module _ {ms : List ModelVersion} {j : ℕ} {old : ModelVersion} {i : ℕ} {new : ModelVersion}
    (pair : IsPair ms j old i new) where
  same_key : key old.identity ≡ key new.identity
  same_key = (same_iff (key old.identity) (key new.identity)).0 (and_left _ _ pair.is_serving)

  refs_differ : IsRegistry ms → ref old ≢ ref new
  refs_differ inv e =
      let r = ref new in
      let hit_old : has_ref r old ≡ true = (same_iff (ref old) (ref new)).1 e in
      let hit_new : has_ref r new ≡ true = (same_iff (ref new) (ref new)).1 refl in
      let one = select_one (has_ref r) j ms pair.old_at hit_old (inv.unique r) in
      let two = select_one (has_ref r) i ms pair.new_at hit_new (inv.unique r) in
      let both : old ∷ [] ≡ new ∷ [] = sym one ∙ two in
      let same_model : old ≡ new = cc in
      let in_production : eq_stage old.stage production ≡ true = and_right _ _ pair.is_serving in
      let standing : eq_stage old.stage champion ≡ true =
        subst (λ m. eq_stage m.stage champion ≡ true) (sym same_model) pair.is_champion in
      ground arith

  pub swaps-Serving :
      IsRegistry ms
      → Serving (serving ms) (serving (set_at i (with_stage production new) (step_down ms j old)))
  swaps-Serving inv =
      let k = key new.identity in
      replaces k (ref old) (ref new) (serving_of ms j old k pair.old_at pair.is_serving inv)
        (serving_of (set_at i (with_stage production new) (step_down ms j old)) i
            (with_stage production new) k
            (get_elem?-set_at_same i (with_stage production new) (step_down ms j old)
              (new_stays pair))
            (own_key (with_stage production new) refl) (swap-IsRegistry pair inv)
          ∙ ap some (ref-with_stage production new))
        (refs_differ inv)
        (λ l differ.
          others_stay (step_down ms j old) i new production (new_stays pair) l differ
          ∙ others_stay ms j old champion pair.old_at l (λ e. differ (e ∙ same_key)))
