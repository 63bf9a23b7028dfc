-- ===== src/Registry/Serving.antt =====
-- What `production` of file_registry.py finds after a promotion or a rollback.
use credit_iq_ai.Prelude.{
  ◌≡◌, ap, subst, refl, sym, ◌∙◌, ℕ, String, Bool, true, false, not, ◌&&◌, Option, some, List, [],
  ◌∷◌, arith, inl, inr, Bool-cases, select, and_left, and_right,
}
use credit_iq_ai.Prelude.Positions.{
  get_elem?, select-select, select_one, get_elem?-set_at_same, set_at_keeps, enumerate,
  enumerate_head,
}
use credit_iq_ai.Errors.{ok, >>=-ok_inv, ok-injective, raise_if, raise_if-not_passed}
use credit_iq_ai.Prelude.Text.{same, same_iff}
use credit_iq_ai.Registry.Domain.{
  champion, production, eq_stage, validate_transition, ModelIdentity, key, ModelVersion, ref,
}
use credit_iq_ai.Registry.File.{
  State, Disk, read, write, locate, with_stage, audit, serves, list_versions, sort_versions,
  insert_sorted,
}
use credit_iq_ai.Registry.Moves.{
  the_only, current_production, promote_to_production, demote, rollback, one_each, current_of,
  target_of, incumbents,
}
use credit_iq_ai.Registry.Unique.{IsRegistry, models_on, write_models, locate_inv, ref-with_stage}
use credit_iq_ai.Registry.Change.{one_each_inv}
use credit_iq_ai.Registry.History.{promotes, rolls_back, Step-IsRegistry}

insert_sorted_skip :
    (q : ModelVersion → Bool) (x : ModelVersion) (xs : List ModelVersion)
    → q x ≡ false
    → select q (insert_sorted x xs) ≡ select q xs
insert_sorted_skip q x [] h = ground arith
insert_sorted_skip q x (y ∷ ys) h = let ih = insert_sorted_skip q x ys h in ground arith

insert_sorted_only :
    (q : ModelVersion → Bool) (x : ModelVersion) (xs : List ModelVersion)
    → q x ≡ true
    → select q xs ≡ []
    → select q (insert_sorted x xs) ≡ x ∷ []
insert_sorted_only q x [] h e = ground arith
insert_sorted_only q x (y ∷ ys) h e = elim (Bool-cases (q y)) [
  | inl hit ↦ ground arith
  | inr miss ↦ let ih = insert_sorted_only q x ys h (rw miss at e) in ground arith
]

pub sort_none :
    (q : ModelVersion → Bool) (xs : List ModelVersion)
    → select q xs ≡ []
    → select q (sort_versions xs) ≡ []
unfolding sort_versions
sort_none q [] e = refl
sort_none q (x ∷ xs) e = elim (Bool-cases (q x)) [
  | inl hit ↦ ground arith
  | inr miss ↦ insert_sorted_skip q x (sort_versions xs) miss ∙ sort_none q xs (rw miss at e)
]

-- Sorting keeps the only element that passes a test.
pub sort_one :
    (q : ModelVersion → Bool) (xs : List ModelVersion) {m : ModelVersion}
    → select q xs ≡ m ∷ []
    → select q (sort_versions xs) ≡ m ∷ []
unfolding sort_versions
sort_one q [] e = cc
sort_one q (x ∷ xs) {m} e = elim (Bool-cases (q x)) [
  | inl hit ↦
      let both : x ∷ select q xs ≡ m ∷ [] = rw hit at e in
      let alone : select q xs ≡ [] = cc in
      let same_model : x ≡ m = cc in
      insert_sorted_only q x (sort_versions xs) hit (sort_none q xs alone)
      ∙ ap (λ z. z ∷ []) same_model
  | inr miss ↦ insert_sorted_skip q x (sort_versions xs) miss ∙ sort_one q xs (rw miss at e)
]

-- After a write, a production model that stands in the written list is the one found.
serves_after :
    (disk : Disk) (state : State) (identity : ModelIdentity) (i : ℕ) (m : ModelVersion)
    {after : Disk}
    → write disk state ≡ ok after
    → IsRegistry state.models
    → get_elem? state.models i ≡ some m
    → serves (key identity) m ≡ true
    → current_production after identity ≡ ok m
unfolding write read current_production list_versions
serves_after disk state identity i m h inv at serving =
    let p = λ (x : ModelVersion). same (key x.identity) (key identity) in
    let q = λ (x : ModelVersion). eq_stage x.stage production in
    let only : select q (select p state.models) ≡ m ∷ [] =
      select-select p q state.models
      ∙ select_one (serves (key identity)) i state.models at serving (inv.single (key identity)) in
    let sorted = sort_one q (select p state.models) only in
    let (u, hw, h1) = >>=-ok_inv (raise_if (not disk.is_writable) _) _ h in
    subst (λ d. current_production d identity ≡ ok m) (ok-injective h1) (ap the_only sorted)

-- A demotion leaves a model at every index that had one.
demote_keeps :
    (found : List (ℕ × ModelVersion)) (state : State) (i : ℕ) {x : ModelVersion}
    {demoted : State × Option String}
    → demote found state ≡ ok demoted
    → get_elem? state.models i ≡ some x
    → (z : ModelVersion) × (get_elem? demoted.0.models i ≡ some z)
demote_keeps [] state i {x} h at =
    (x, subst (λ d. get_elem? d.0.models i ≡ some x) (ok-injective h) at)
demote_keeps (a ∷ []) state i h at =
    let (u, hv, h1) = >>=-ok_inv (validate_transition a.1.stage champion) _ h in
    let (z, kept) = set_at_keeps i a.0 (with_stage champion a.1) state.models at in
    (z, subst (λ d. get_elem? d.0.models i ≡ some z) (ok-injective h1) kept)
demote_keeps (a ∷ b ∷ more) state i h at = cc

-- In a registry that keeps its invariant, after a promotion the promoted model, at the reference
-- that was asked for, is the one that `production` answers for its identity.
pub promote_to_production-serves :
    (disk : Disk) (r actor : String) (reason : Option String) {m : ModelVersion} {after : Disk}
    → promote_to_production disk r actor reason ≡ ok (m, after)
    → IsRegistry (models_on disk)
    → (ref m ≡ r) × (current_production after m.identity ≡ ok m)
unfolding promote_to_production audit
promote_to_production-serves disk r actor reason {m} {after} h inv =
    let (state, hr, h1) = >>=-ok_inv (read disk) _ h in
    let (at, hl, h2) = >>=-ok_inv (locate state r) _ h1 in
    let (u, hc, h3) = >>=-ok_inv (raise_if (not (eq_stage at.1.stage champion)) _) _ h2 in
    let (u2, hv, h4) = >>=-ok_inv (validate_transition at.1.stage production) _ h3 in
    let (demoted, hd, h5) = >>=-ok_inv (demote (incumbents state at.1) state) _ h4 in
    let (disk', hw, h6) = >>=-ok_inv (write disk _) _ h5 in
    let new = with_stage production at.1 in
    let (found, named) = locate_inv state r hl in
    let is_champion = raise_if-not_passed _ _ hc in
    let own : same (key new.identity) (key new.identity) ≡ true = (same_iff _ _).1 refl in
    let serving : serves (key new.identity) new ≡ true = rw own refl in
    let (old, kept) = demote_keeps (incumbents state at.1) state at.0 hd found in
    let placed = get_elem?-set_at_same at.0 new demoted.0.models kept in
    let result = ok-injective h6 in
    let inv' = Step-IsRegistry (promotes {disk = disk} {disk' = after} r actor reason m h) inv in
    let inv_written =
      subst IsRegistry (write_models disk _ hw)
        (subst (λ x. IsRegistry (models_on x.1)) (sym result) inv') in
    subst (λ x. (ref x.0 ≡ r) × (current_production x.1 x.0.identity ≡ ok x.0)) result
      (
        ref-with_stage production at.1 ∙ (same_iff _ _).0 named,
        serves_after disk _ new.identity at.0 new hw inv_written placed serving,
      )

-- In a registry that keeps its invariant, after a rollback the version that was asked for is the
-- one that `production` answers.
pub rollback-serves :
    (disk : Disk) (identity : ModelIdentity) (to_version actor reason : String) {m : ModelVersion}
    {after : Disk}
    → rollback disk identity to_version actor reason ≡ ok (m, after)
    → IsRegistry (models_on disk)
    → (m.version ≡ to_version) × (current_production after identity ≡ ok m)
unfolding rollback audit
rollback-serves disk identity to_version actor reason {m} {after} h inv =
    let (state, hr, h1) = >>=-ok_inv (read disk) _ h in
    let (pair, hp, h2) =
      >>=-ok_inv (one_each (current_of state identity) (target_of state identity to_version)) _
        h1 in
    let (u, hc, h3) = >>=-ok_inv (raise_if (not (eq_stage pair.1.1.stage champion)) _) _ h2 in
    let (u1, hv, h4) = >>=-ok_inv (validate_transition pair.0.1.stage champion) _ h3 in
    let (u2, hv', h5) = >>=-ok_inv (validate_transition pair.1.1.stage production) _ h4 in
    let (disk', hw, h6) = >>=-ok_inv (write disk _) _ h5 in
    let new = with_stage production pair.1.1 in
    let of_key = λ (x : ModelVersion). same (key x.identity) (key identity) in
    let is_target = λ (x : ModelVersion). same x.version to_version in
    let (found, holds) =
      enumerate_head (λ x. of_key x && is_target x) state.models
        (sym (select-select (λ e. of_key e.1) (λ e. is_target e.1) (enumerate 0 state.models))
          ∙ (one_each_inv _ _ hp).1) in
    let serving : serves (key identity) new ≡ true =
      (let hit : same (key pair.1.1.identity) (key identity) ≡ true = and_left _ _ holds in
        rw hit refl) in
    let (old, kept) =
      set_at_keeps pair.1.0 pair.0.0 (with_stage champion pair.0.1) state.models found in
    let placed = get_elem?-set_at_same pair.1.0 new _ kept in
    let result = ok-injective h6 in
    let inv' =
      Step-IsRegistry
        (rolls_back {disk = disk} {disk' = after} identity to_version actor reason m h) inv in
    let inv_written =
      subst IsRegistry (write_models disk _ hw)
        (subst (λ x. IsRegistry (models_on x.1)) (sym result) inv') in
    subst (λ x. (x.0.version ≡ to_version) × (current_production x.1 identity ≡ ok x.0)) result
      (
        (same_iff _ _).0 (and_right _ _ holds),
        serves_after disk _ identity pair.1.0 new hw inv_written placed serving,
      )
