-- ===== src/Registry/Change.antt =====
-- What a method of the registry that changes it does to the list of models: it adds one, moves one
-- to another stage, or exchanges the production model with a champion.
use credit_iq_ai.Prelude.{
  ◌≡◌, ap, subst, refl, ◌⊎◌, ℕ, String, true, false, not, Option, some, List, [], ◌∷◌, inl, inr,
  Bool-cases, ◌++◌, find, select, length, ◌∙◌, and_left, is_none, ◌&&◌, arith, sym,
}
use credit_iq_ai.Prelude.Positions.{
  get_elem?, enumerate, enumerate_head, length-select-enumerate, set_at, select-select, count,
}
use credit_iq_ai.Errors.{ok, >>=-ok_inv, ok-injective, raise_if, raise_if-not_passed}
use credit_iq_ai.Prelude.Text.{same, same_iff}
use credit_iq_ai.Registry.Domain.{
  LifecycleStage, champion, production, registered, eq_stage, validate_transition, can_transition,
  ModelIdentity, key, ModelVersion, ref,
}
use credit_iq_ai.Registry.File.{
  State, Disk, read, write, locate, register, validate_artifacts, with_stage, serves, has_ref,
  find_model, audit,
}
use credit_iq_ai.Registry.Moves.{
  transition, check_target, rollback, one_each, current_of, target_of, incumbents,
  promote_to_production, demote,
}
use credit_iq_ai.Registry.Unique.{
  IsRegistry, models_on, read_models, write_models, locate_inv, assert_no_other_production_inv,
}
use credit_iq_ai.Registry.Swap.{IsPair, step_down}

-- The abstract view of a change: the place of a model is its index, and the guards are those that
-- keep references and production models unique.
pub data Change : List ModelVersion → List ModelVersion → Type 0 where
  adds :
      {ms : List ModelVersion} (m : ModelVersion)
      → is_none (find (has_ref (ref m)) ms) ≡ true
      → eq_stage m.stage registered ≡ true
      → Change ms (ms ++ (m ∷ []))
  moves :
      {ms : List ModelVersion} (i : ℕ) (m : ModelVersion) (t : LifecycleStage)
      → get_elem? ms i ≡ some m
      → can_transition m.stage t ≡ true
      → (eq_stage t production ≡ false) ⊎ (count (serves (key m.identity)) ms ≡ 0)
      → Change ms (set_at i (with_stage t m) ms)
  swaps :
      {ms : List ModelVersion} (j : ℕ) (old : ModelVersion) (i : ℕ) (new : ModelVersion)
      → IsPair ms j old i new
      → Change ms (set_at i (with_stage production new) (step_down ms j old))

-- From a read, a change of what was read and its write, to the change on the disk.
changes_from :
    (disk : Disk) {state : State} {after : Disk} {new : List ModelVersion} {m : ModelVersion}
    {r : ModelVersion × Disk}
    → read disk ≡ ok state
    → models_on after ≡ new
    → (m, after) ≡ r
    → Change state.models new
    → Change (models_on disk) (models_on r.1)
changes_from disk {state} {after} {new} hr hw e change =
    subst (λ x. Change (models_on disk) (models_on x.1)) e
      (subst (Change (models_on disk)) (sym hw)
        (subst (λ ms. Change ms new) (sym (read_models disk hr)) change))

pub register-Change :
    (disk : Disk) (m : ModelVersion) (actor : String) {r : ModelVersion × Disk}
    → register disk m actor ≡ ok r
    → Change (models_on disk) (models_on r.1)
unfolding register find_model audit ref
register-Change disk m actor {r} h =
    let (u, h0, h1) = >>=-ok_inv (validate_artifacts m) _ h in
    let (state, hr, h2) = >>=-ok_inv (read disk) _ h1 in
    let (u2, hf, h3) = >>=-ok_inv (raise_if (not (is_none (find_model state (ref m)))) _) _ h2 in
    let (after, hw, h4) = >>=-ok_inv (write disk _) _ h3 in
    let written = write_models disk _ hw in
    let fresh = raise_if-not_passed (is_none (find_model state (ref m))) _ hf in
    changes_from disk hr written (ok-injective h4) (adds (with_stage registered m) fresh refl)

-- The stage that a legal transition leaves is not the one it enters.
validate_transition_inv :
    (a b : LifecycleStage) {u : Unit {0}}
    → validate_transition a b ≡ ok u
    → (eq_stage a b ≡ false) × (can_transition a b ≡ true)
unfolding validate_transition
validate_transition_inv a b h = ground arith

eq_stage_sound : (a b : LifecycleStage) → eq_stage a b ≡ true → a ≡ b
eq_stage_sound a b h = ground arith

check_target_inv :
    (t : LifecycleStage) (state : State) (i : ℕ) (m : ModelVersion)
    → get_elem? state.models i ≡ some m
    → eq_stage m.stage t ≡ false
    → check_target t state m ≡ ok tt
    → IsRegistry state.models
    → (eq_stage t production ≡ false) ⊎ (count (serves (key m.identity)) state.models ≡ 0)
unfolding check_target
check_target_inv t state i m at differs h inv = elim (Bool-cases (eq_stage t production)) [
  | inl hit ↦
      let is_production : t ≡ production = eq_stage_sound t production hit in
      let idle = subst (λ x. eq_stage m.stage x ≡ false) is_production differs in
      let checked = subst (λ x. check_target x state m ≡ ok tt) is_production h in
      inr (assert_no_other_production_inv state i m at idle checked inv)
  | inr miss ↦ inl miss
]

pub transition-Change :
    (disk : Disk) (r : String) (t : LifecycleStage) (actor : String) (reason : Option String)
    {res : ModelVersion × Disk}
    → transition disk r t actor reason ≡ ok res
    → IsRegistry (models_on disk)
    → Change (models_on disk) (models_on res.1)
unfolding transition audit
transition-Change disk r t actor reason {res} h inv =
    let (state, hr, h1) = >>=-ok_inv (read disk) _ h in
    let (at, hl, h2) = >>=-ok_inv (locate state r) _ h1 in
    let (u, hv, h3) = >>=-ok_inv (validate_transition at.1.stage t) _ h2 in
    let (u2, hc, h4) = >>=-ok_inv (check_target t state at.1) _ h3 in
    let (after, hw, h5) = >>=-ok_inv (write disk _) _ h4 in
    let found = (locate_inv state r hl).0 in
    let (differs, legal) = validate_transition_inv at.1.stage t hv in
    let inv_state = subst IsRegistry (read_models disk hr) inv in
    let free = check_target_inv t state at.0 at.1 found differs hc inv_state in
    changes_from disk hr (write_models disk _ hw) (ok-injective h5)
      (moves at.0 at.1 t found legal free)

-- What promotion has found once it accepts: a champion, and at most one model to demote.
demote-Change :
    (state : State) (i : ℕ) (new : ModelVersion) (found : List (ℕ × ModelVersion))
    {demoted : State × Option String}
    → found ≡ select (λ e. serves (key new.identity) e.1) (enumerate 0 state.models)
    → demote found state ≡ ok demoted
    → get_elem? state.models i ≡ some new
    → eq_stage new.stage champion ≡ true
    → Change state.models (set_at i (with_stage production new) demoted.0.models)
demote-Change state i new [] {demoted = demoted} e h at is_champion =
    let p = serves (key new.identity) in
    let same_state : state ≡ demoted.0 = ap (λ d. d.0) (ok-injective h) in
    let none_serves : count p state.models ≡ 0 =
      sym (length-select-enumerate p 0 state.models) ∙ ap length (sym e) in
    let legal : can_transition new.stage production ≡ true = ground arith in
    subst (λ s. Change state.models (set_at i (with_stage production new) s.models)) same_state
      (moves i new production at legal (inr none_serves))
demote-Change state i new ((j, old) ∷ []) e h at is_champion =
    let (found, is_serving) = enumerate_head (serves (key new.identity)) state.models (sym e) in
    let (u, hv, h1) = >>=-ok_inv (validate_transition old.stage champion) _ h in
    let pair : IsPair state.models j old i new = record {
      old_at = found;
      new_at = at;
      is_serving = is_serving;
      is_champion = is_champion;
    } in
    subst (λ d. Change state.models (set_at i (with_stage production new) d.0.models))
      (ok-injective h1) (swaps j old i new pair)
demote-Change state i new (a ∷ b ∷ more) e h at is_champion = cc

pub promote_to_production-Change :
    (disk : Disk) (r : String) (actor : String) (reason : Option String) {res : ModelVersion × Disk}
    → promote_to_production disk r actor reason ≡ ok res
    → Change (models_on disk) (models_on res.1)
unfolding promote_to_production audit
promote_to_production-Change disk r actor reason {res} h =
    let (state, hr, h1) = >>=-ok_inv (read disk) _ h in
    let (at, hl, h2) = >>=-ok_inv (locate state r) _ h1 in
    let (u, hc, h3) = >>=-ok_inv (raise_if (not (eq_stage at.1.stage champion)) _) _ h2 in
    let (u2, hv, h4) = >>=-ok_inv (validate_transition at.1.stage production) _ h3 in
    let (demoted, hd, h5) = >>=-ok_inv (demote (incumbents state at.1) state) _ h4 in
    let (after, hw, h6) = >>=-ok_inv (write disk _) _ h5 in
    changes_from disk hr (write_models disk _ hw) (ok-injective h6) (
      demote-Change state at.0 at.1 (incumbents state at.1) refl hd (locate_inv state r hl).0
        (raise_if-not_passed _ _ hc))

pub one_each_inv :
    (xs ys : List (ℕ × ModelVersion)) {pair : (ℕ × ModelVersion) × (ℕ × ModelVersion)}
    → one_each xs ys ≡ ok pair
    → (xs ≡ pair.0 ∷ []) × (ys ≡ pair.1 ∷ [])
one_each_inv (a ∷ []) (b ∷ []) h =
    let e = ok-injective h in (ap (λ p. p.0 ∷ []) e, ap (λ p. p.1 ∷ []) e)
one_each_inv (a ∷ []) [] h = cc
one_each_inv (a ∷ []) (b ∷ c ∷ more) h = cc
one_each_inv [] ys h = cc
one_each_inv (a ∷ b ∷ more) ys h = cc

pub rollback-Change :
    (disk : Disk) (identity : ModelIdentity) (to_version actor reason : String)
    {res : ModelVersion × Disk}
    → rollback disk identity to_version actor reason ≡ ok res
    → Change (models_on disk) (models_on res.1)
unfolding rollback audit
rollback-Change disk identity to_version actor reason {res} h =
    let (state, hr, h1) = >>=-ok_inv (read disk) _ h in
    let (pair, hp, h2) =
      >>=-ok_inv (one_each (current_of state identity) (target_of state identity to_version)) _
        h1 in
    let (u, hc, h3) = >>=-ok_inv (raise_if (not (eq_stage pair.1.1.stage champion)) _) _ h2 in
    let (u1, hv, h4) = >>=-ok_inv (validate_transition pair.0.1.stage champion) _ h3 in
    let (u2, hv', h5) = >>=-ok_inv (validate_transition pair.1.1.stage production) _ h4 in
    let (after, hw, h6) = >>=-ok_inv (write disk _) _ h5 in
    let (only_old, only_new) = one_each_inv _ _ hp in
    let of_key = λ (m : ModelVersion). same (key m.identity) (key identity) in
    let in_production = λ (m : ModelVersion). eq_stage m.stage production in
    let is_target = λ (m : ModelVersion). same m.version to_version in
    let found_old = enumerate_head (serves (key identity)) state.models (
      sym (select-select (λ e. of_key e.1) (λ e. in_production e.1) (enumerate 0 state.models))
      ∙ only_old) in
    let found_new =
      enumerate_head (λ m. of_key m && is_target m) state.models
        (sym (select-select (λ e. of_key e.1) (λ e. is_target e.1) (enumerate 0 state.models))
          ∙ only_new) in
    let same_key = (same_iff (key pair.1.1.identity) (key identity)).0 (and_left _ _ found_new.1) in
    let swap : IsPair state.models pair.0.0 pair.0.1 pair.1.0 pair.1.1 = record {
      old_at = found_old.0;
      new_at = found_new.0;
      is_serving = subst (λ k. serves k pair.0.1 ≡ true) (sym same_key) found_old.1;
      is_champion = raise_if-not_passed _ _ hc;
    } in
    changes_from disk hr (write_models disk _ hw) (ok-injective h6)
      (swaps pair.0.0 pair.0.1 pair.1.0 pair.1.1 swap)
