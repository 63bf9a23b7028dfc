-- ===== src/Registry/Refinement.antt =====
-- What file_registry.py promises, whatever it stores: at each time an identity has at most one
-- reference that serves it, the one that `production` answers, and each call changes that of one
-- identity at most.
use credit_iq_ai.Prelude.{
  ◌≡◌, ap, subst, refl, sym, ◌∙◌, ◌≤◌, String, Bool, true, false, Option, none, some, List, [], ◌∷◌,
  inl, inr, Bool-cases, find, select, arith, some-injective,
}
use credit_iq_ai.Prelude.Positions.{select_none, count}
use credit_iq_ai.Prelude.Text.{same}
use credit_iq_ai.Registry.Domain.{production, registered, eq_stage, key, ModelVersion, ref}
use credit_iq_ai.Registry.File.{Disk, serves}
use credit_iq_ai.Registry.Unique.{IsRegistry, models_on}
use credit_iq_ai.Registry.Change.{Change, adds, moves, swaps}
use credit_iq_ai.Registry.History.{
  Step, registers, transitions, promotes, rolls_back, Reach, Step-Change, Change-IsRegistry,
  Step-IsRegistry, Reach-IsRegistry,
}
use credit_iq_ai.Registry.Table.{
  ref_of, serving, Serving, stands, find-append_miss, idle, moves-Serving, swaps-Serving,
}
use credit_iq_ai.Prelude.Positions.{select-select}
use credit_iq_ai.Prelude.{Option-cases}
use credit_iq_ai.Errors.{Outcome, ok, err}
use credit_iq_ai.Registry.Domain.{RegistryError, ModelIdentity}
use credit_iq_ai.Registry.File.{State, read, list_versions, sort_versions}
use credit_iq_ai.Registry.Moves.{the_only, current_production}
use credit_iq_ai.Registry.Unique.{read_models}
use credit_iq_ai.Registry.Serving.{
  sort_one, sort_none, promote_to_production-serves, rollback-serves,
}

abbrev pub ref_if : Outcome RegistryError ModelVersion → Option String
ref_if (ok m) = some (ref m)
ref_if (err e) = none

find-select :
    (p : ModelVersion → Bool) (ms : List ModelVersion) {m : ModelVersion}
    → find p ms ≡ some m
    → count p ms ≤ 1
    → select p ms ≡ m ∷ []
find-select p [] h single = cc
find-select p (x ∷ ms) {m} h single = elim (Bool-cases (p x)) [
  | inl hit ↦
      let here_it_is : x ≡ m = some-injective (rw hit at h) in
      let no_more : count p ms ≡ 0 = ground arith in
      rw hit (rw (select_none p ms no_more) (ap (λ z. z ∷ []) here_it_is))
  | inr miss ↦ rw miss (find-select p ms (rw miss at h) (ground arith))
]

select_absent :
    (p : ModelVersion → Bool) (ms : List ModelVersion) → find p ms ≡ none → select p ms ≡ []
select_absent p [] h = refl
select_absent p (x ∷ ms) h = let later = select_absent p ms in ground arith

-- Where the document can be read, `production` answers the model of the table.
current_production-serving :
    (disk : Disk) (identity : ModelIdentity) {state : State}
    → read disk ≡ ok state
    → IsRegistry (models_on disk)
    → ref_if (current_production disk identity) ≡ serving (models_on disk) (key identity)
unfolding current_production list_versions
current_production-serving disk identity {state} readable inv =
    let k = key identity in
    let p = λ (x : ModelVersion). same (key x.identity) k in
    let q = λ (x : ModelVersion). eq_stage x.stage production in
    let stored = read_models disk readable in
    let single : count (serves k) state.models ≤ 1 =
      subst (λ ms. count (serves k) ms ≤ 1) stored (inv.single k) in
    let answers : ref_if (the_only (select q (sort_versions (select p state.models))))
        ≡ serving state.models k =
      elim (Option-cases (find (serves k) state.models)) [
        | inl missing ↦
            let nothing =
              sort_none q (select p state.models)
                (select-select p q state.models ∙ select_absent (serves k) state.models missing) in
            ap (λ l. ref_if (the_only l)) nothing ∙ sym (ap ref_of missing)
        | inr (m, found) ↦
            let one =
              sort_one q (select p state.models) (
                select-select p q state.models
                ∙ find-select (serves k) state.models found single) in
            ap (λ l. ref_if (the_only l)) one ∙ sym (ap ref_of found)
      ] in
    rw readable (answers ∙ ap (λ ms. serving ms k) (sym stored))

Change-Serving :
    {ms ms' : List ModelVersion}
    → Change ms ms'
    → IsRegistry ms
    → Serving (serving ms) (serving ms')
Change-Serving {ms} (adds m fresh stage) inv =
    let s : eq_stage m.stage registered ≡ true = stage in
    let outside : eq_stage m.stage production ≡ false = ground arith in
    stands (λ j. ap ref_of (find-append_miss (serves j) ms m (idle j m outside)))
Change-Serving {ms} (moves i m t at legal free) inv =
    moves-Serving ms i m t at free inv (Change-IsRegistry (moves i m t at legal free) inv)
Change-Serving (swaps j old i new pair) inv = swaps-Serving pair inv

-- What a call says of the table after it, by the name of its method.
abbrev pub Lands : {disk disk' : Disk} → Step disk disk' → Type 0
Lands (registers m actor added h) = Unit
Lands (transitions r t actor reason moved h) = Unit
Lands {disk} {disk'} (promotes r actor reason m h) =
    (ref m ≡ r) × (serving (models_on disk') (key m.identity) ≡ some r)
Lands {disk} {disk'} (rolls_back identity to_version actor reason m h) =
    (m.version ≡ to_version) × (serving (models_on disk') (key identity) ≡ some (ref m))

-- A model that `production` answers is the one of the table.
answered-serving :
    (disk : Disk) (identity : ModelIdentity) {state : State} {m : ModelVersion}
    → read disk ≡ ok state
    → IsRegistry (models_on disk)
    → current_production disk identity ≡ ok m
    → serving (models_on disk) (key identity) ≡ some (ref m)
answered-serving disk identity readable inv answer =
    sym (current_production-serving disk identity readable inv) ∙ ap ref_if answer

Step-Lands :
    {disk disk' : Disk} {state : State}
    → IsRegistry (models_on disk)
    → (step : Step disk disk') → read disk' ≡ ok state
    → Lands step
Step-Lands inv (registers m actor added h) readable = tt
Step-Lands inv (transitions r t actor reason moved h) readable = tt
Step-Lands {disk} {disk'} inv (promotes r actor reason m h) readable =
    let (named, answer) = promote_to_production-serves disk r actor reason h inv in
    let inv' = Step-IsRegistry (promotes {disk = disk} {disk' = disk'} r actor reason m h) inv in
    (named, answered-serving disk' m.identity readable inv' answer ∙ ap some named)
Step-Lands {disk} {disk'} inv (rolls_back identity to_version actor reason m h) readable =
    let (named, answer) = rollback-serves disk identity to_version actor reason h inv in
    let inv' =
      Step-IsRegistry
        (rolls_back {disk = disk} {disk' = disk'} identity to_version actor reason m h) inv in
    (named, answered-serving disk' identity readable inv' answer)

-- The registry refines a table with one serving reference at most for a key. Start from a registry
-- that keeps its invariant, and let any sequence of registrations, transitions, promotions and
-- rollbacks come before. Then one more such call is one step of the table at most: it leaves it, or
-- fills a free key, frees a key, or replaces the reference of a key by another one, and touches no
-- other key. After a promotion the key of the model has the reference that was asked for, and after
-- a rollback the key of the identity has that of the version that was asked for. And where the
-- document can be read, `production` answers the model that the table names, and an error where it
-- names none.
pub Reach-Serves :
    {start disk disk' : Disk} {state : State}
    → IsRegistry (models_on start)
    → Reach start disk
    → (step : Step disk disk') → read disk' ≡ ok state
    → Serving (serving (models_on disk)) (serving (models_on disk'))
      × Lands step
      × ((identity : ModelIdentity)
          → ref_if (current_production disk' identity) ≡ serving (models_on disk') (key identity))
Reach-Serves {disk' = disk'} start_inv path step readable =
    let inv = Reach-IsRegistry start_inv path in
    let after_inv = Step-IsRegistry step inv in
    (
      Change-Serving (Step-Change step inv) inv,
      Step-Lands inv step readable,
      λ identity. current_production-serving disk' identity readable after_inv,
    )
