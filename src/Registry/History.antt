-- ===== src/Registry/History.antt =====
-- The registry's mutating methods as steps of the disk, in any order: each is atomic, since it
-- holds the lock and replaces the document in one `os.replace`.
use credit_iq_ai.Prelude.{
  ◌≡◌, subst, ℕ, String, true, false, Option, some, List, [], ◌∷◌, arith, sym, ◌∙◌, ◌≢◌, and_right,
}
use credit_iq_ai.Prelude.Positions.{get_elem?, set_at, get_elem?-append, get_elem?-set_at}
use credit_iq_ai.Errors.{ok}
use credit_iq_ai.Registry.Domain.{
  LifecycleStage, champion, production, registered, eq_stage, is_terminal, can_transition,
  ModelIdentity, ModelVersion,
}
use credit_iq_ai.Registry.File.{Disk, register, with_stage}
use credit_iq_ai.Registry.Moves.{transition, rollback, promote_to_production}
use credit_iq_ai.Registry.Unique.{IsRegistry, models_on, append-IsRegistry, restage-IsRegistry}
use credit_iq_ai.Registry.Swap.{swap-IsRegistry, new_stays}
use credit_iq_ai.Registry.Change.{
  Change, adds, moves, swaps, register-Change, transition-Change, promote_to_production-Change,
  rollback-Change,
}

-- One successful call.
pub data Step : Disk → Disk → Type 0 where
  registers :
      {disk disk' : Disk} (m : ModelVersion) (actor : String) (added : ModelVersion)
      → register disk m actor ≡ ok (added, disk')
      → Step disk disk'
  transitions :
      {disk disk' : Disk} (r : String) (t : LifecycleStage) (actor : String)
      (reason : Option String) (moved : ModelVersion)
      → transition disk r t actor reason ≡ ok (moved, disk')
      → Step disk disk'
  promotes :
      {disk disk' : Disk} (r actor : String) (reason : Option String) (promoted : ModelVersion)
      → promote_to_production disk r actor reason ≡ ok (promoted, disk')
      → Step disk disk'
  rolls_back :
      {disk disk' : Disk} (identity : ModelIdentity) (to_version actor reason : String)
      (promoted : ModelVersion)
      → rollback disk identity to_version actor reason ≡ ok (promoted, disk')
      → Step disk disk'

pub data Reach (start : Disk) : Disk → Type 0 where
  here : Reach start start
  next : {disk disk' : Disk} → Reach start disk → Step disk disk' → Reach start disk'

pub Step-Change :
    {disk disk' : Disk}
    → Step disk disk'
    → IsRegistry (models_on disk)
    → Change (models_on disk) (models_on disk')
Step-Change {disk} (registers m actor added h) inv = register-Change disk m actor h
Step-Change {disk} (transitions r t actor reason moved h) inv =
    transition-Change disk r t actor reason h inv
Step-Change {disk} (promotes r actor reason promoted h) inv =
    promote_to_production-Change disk r actor reason h
Step-Change {disk} (rolls_back identity to_version actor reason promoted h) inv =
    rollback-Change disk identity to_version actor reason h

pub Change-IsRegistry :
    {ms ms' : List ModelVersion} → Change ms ms' → IsRegistry ms → IsRegistry ms'
Change-IsRegistry {ms} (adds m fresh stage) inv =
    append-IsRegistry ms m fresh
      (let s : eq_stage m.stage registered ≡ true = stage in ground arith) inv
Change-IsRegistry {ms} (moves i m t at legal free) inv = restage-IsRegistry ms i m t at free inv
Change-IsRegistry {ms} (swaps j old i new pair) inv = swap-IsRegistry pair inv

pub Step-IsRegistry :
    {disk disk' : Disk}
    → Step disk disk'
    → IsRegistry (models_on disk)
    → IsRegistry (models_on disk')
Step-IsRegistry step inv = Change-IsRegistry (Step-Change step inv) inv

-- Start from a document in which references are unique and each identity has one production model
-- at most, as an empty registry does. After any sequence of registrations, transitions, promotions
-- and rollbacks it is still so.
pub Reach-IsRegistry :
    {start disk : Disk}
    → IsRegistry (models_on start)
    → Reach start disk
    → IsRegistry (models_on disk)
Reach-IsRegistry inv here = inv
Reach-IsRegistry inv (next before step) = Step-IsRegistry step (Reach-IsRegistry inv before)

-- A model that stands at an index in a terminal stage: archived, rejected or retired.
pub record IsFinal (ms : List ModelVersion) (i : ℕ) (m : ModelVersion) : Type 0 where
  pub at : get_elem? ms i ≡ some m
  pub is_final : is_terminal m.stage ≡ true

-- A write at an index whose model is not in a terminal stage.
restage-IsFinal :
    (ms : List ModelVersion) (j : ℕ) (old x : ModelVersion) {i : ℕ} {m : ModelVersion}
    → get_elem? ms j ≡ some old
    → is_terminal old.stage ≡ false
    → IsFinal ms i m
    → IsFinal (set_at j x ms) i m
restage-IsFinal ms j old x {i} {m} at is_open final =
    let differ : i ≢ j = λ e.
      let there : get_elem? ms j ≡ some m = subst (λ n. get_elem? ms n ≡ some m) e final.at in
      let both : some old ≡ some m = sym at ∙ there in
      let same_model : old ≡ m = cc in
      let ended : is_terminal old.stage ≡ true =
        subst (λ z. is_terminal z.stage ≡ true) (sym same_model) final.is_final in
      ground arith in
    record { at = get_elem?-set_at i j x ms differ ∙ final.at; is_final = final.is_final }

can_transition-is_terminal :
    (a b : LifecycleStage) → can_transition a b ≡ true → is_terminal a ≡ false
can_transition-is_terminal a b h = ground arith

Change-IsFinal :
    {ms ms' : List ModelVersion} {i : ℕ} {m : ModelVersion}
    → Change ms ms'
    → IsFinal ms i m
    → IsFinal ms' i m
Change-IsFinal {ms} (adds new fresh stage) final = record {
  at = get_elem?-append _ ms (new ∷ []) final.at;
  is_final = final.is_final;
}
Change-IsFinal {ms} {i = i} (moves j old t at legal free) final =
    restage-IsFinal ms j old (with_stage t old) at (can_transition-is_terminal old.stage t legal)
      final
Change-IsFinal {ms} (swaps j old i' new pair) final =
    let serving : eq_stage old.stage production ≡ true = and_right _ _ pair.is_serving in
    let standing : eq_stage new.stage champion ≡ true = pair.is_champion in
    let open_old : is_terminal old.stage ≡ false = ground arith in
    let open_new : is_terminal new.stage ≡ false = ground arith in
    restage-IsFinal _ i' new (with_stage production new) (new_stays pair) open_new
      (restage-IsFinal ms j old (with_stage champion old) pair.old_at open_old final)

-- In a registry that keeps its invariant, a model in a terminal stage stays as it is, whatever calls
-- follow.
pub Reach-IsFinal :
    {start disk : Disk} {i : ℕ} {m : ModelVersion}
    → IsRegistry (models_on start)
    → Reach start disk
    → IsFinal (models_on start) i m
    → IsFinal (models_on disk) i m
Reach-IsFinal inv here final = final
Reach-IsFinal inv (next before step) final =
    Change-IsFinal (Step-Change step (Reach-IsRegistry inv before)) (Reach-IsFinal inv before final)
