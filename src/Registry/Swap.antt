-- ===== src/Registry/Swap.antt =====
-- The exchange that promotion and rollback make: the production model steps down to champion, a
-- champion takes its place.
use credit_iq_ai.Prelude.{
  ◌≡◌, subst, sym, ◌∙◌, and_right, refl, ◌≢◌, ℕ, true, some, List, arith, inl, inr,
}
use credit_iq_ai.Prelude.Positions.{get_elem?, set_at, count, count-set_at, get_elem?-set_at}
use credit_iq_ai.Registry.Domain.{champion, production, eq_stage, key, ModelVersion}
use credit_iq_ai.Registry.File.{with_stage, serves}
use credit_iq_ai.Registry.Unique.{IsRegistry, restage-IsRegistry}

-- The places of a serving model and of a champion.
pub record IsPair (ms : List ModelVersion) (j : ℕ) (old : ModelVersion) (i : ℕ) (new : ModelVersion)
    : Type 0 where
  pub old_at : get_elem? ms j ≡ some old
  pub new_at : get_elem? ms i ≡ some new
  pub is_serving : serves (key new.identity) old ≡ true
  pub is_champion : eq_stage new.stage champion ≡ true

abbrev pub step_down : List ModelVersion → ℕ → ModelVersion → List ModelVersion
step_down ms j old = set_at j (with_stage champion old) ms

module _ {ms : List ModelVersion} {j : ℕ} {old : ModelVersion} {i : ℕ} {new : ModelVersion}
    (pair : IsPair ms j old i new) where
  pub places_differ : i ≢ j
  places_differ e =
      let here : get_elem? ms i ≡ some old =
        subst (λ n. get_elem? ms n ≡ some old) (sym e) pair.old_at in
      let both : some old ≡ some new = sym here ∙ pair.new_at in
      let same_model : old ≡ new = cc in
      let serving : eq_stage old.stage production ≡ true = and_right _ _ pair.is_serving in
      let stepped : eq_stage old.stage champion ≡ true =
        subst (λ m. eq_stage m.stage champion ≡ true) (sym same_model) pair.is_champion in
      ground arith

  pub new_stays : get_elem? (step_down ms j old) i ≡ some new
  new_stays = get_elem?-set_at i j (with_stage champion old) ms places_differ ∙ pair.new_at

  pub none_serves : IsRegistry ms → count (serves (key new.identity)) (step_down ms j old) ≡ 0
  none_serves inv =
      let sum =
        count-set_at (serves (key new.identity)) j (with_stage champion old) ms pair.old_at in
      let one = inv.single (key new.identity) in let here = pair.is_serving in ground arith

  pub swap-IsRegistry :
      IsRegistry ms → IsRegistry (set_at i (with_stage production new) (step_down ms j old))
  swap-IsRegistry inv =
      restage-IsRegistry (step_down ms j old) i new production new_stays (inr (none_serves inv))
        (restage-IsRegistry ms j old champion pair.old_at (inl refl) inv)
