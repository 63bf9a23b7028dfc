-- ===== src/Registry/Eligible.antt =====
-- What the promotion policy of ai-engine/creditiq_ai/model_operations/promotion demands.
use credit_iq_ai.Prelude.{
  ◌≡◌, refl, sym, ap, subst, ◌∙◌, String, true, false, not, Option, some, List, [], ◌∷◌, length,
  length-append, All, arith, Bool-cases, Option-cases, inl, inr,
}
use credit_iq_ai.Prelude.Int.{ℤ, ltb_ℤ, ◌≤ℤ◌}
use credit_iq_ai.Errors.{ok, raise_if, raise_if-not_passed, >>=-ok_inv, ok-injective}
use credit_iq_ai.Registry.Domain.{champion, eq_stage, ModelVersion, Metric, finite, less}
use credit_iq_ai.Registry.File.{Disk, get}
use credit_iq_ai.Registry.Moves.{current_production, promote_to_production}
use credit_iq_ai.Registry.Promotion.{
  MonitoringConfig, PromotionDecision, lookup, is_below, is_regression, below_reasons, drop_reasons,
  incumbent_reasons, evaluate, promote, production_or_none,
}

-- The metric is known and does not compare below its minimum: of two finite numbers it is at least
-- the minimum, while NaN compares below nothing.
pub record IsMet (metrics : List (String × Metric)) (floor : String × Metric) : Type 0 where
  pub actual : Metric
  pub is_known : lookup metrics floor.0 ≡ some actual
  pub not_less : less actual floor.1 ≡ false
  pub is_enough : (a b : ℤ) → actual ≡ finite a → floor.1 ≡ finite b → b ≤ℤ a

empty_of_length {ℓ} : {A : Type ℓ} (xs : List A) → length xs ≡ 0 → xs ≡ []
empty_of_length [] h = refl
empty_of_length (x ∷ xs) h = cc

not_below : (a b : ℤ) → ltb_ℤ a b ≡ false → b ≤ℤ a
not_below a b h = ground arith

finite_not_less :
    (x y : Metric) → less x y ≡ false → (a b : ℤ) → x ≡ finite a → y ≡ finite b → b ≤ℤ a
finite_not_less x y h a b hx hy =
    not_below a b (subst (λ z. less (finite a) z ≡ false) hy (subst (λ z. less z y ≡ false) hx h))

module _ (sub : Metric → Metric → Metric) where
  -- Where both models have the metric, the loss does not compare above what is allowed: as a finite
  -- number it is no more than a finite allowance.
  pub IsBounded : List (String × Metric) → List (String × Metric) → String × Metric → Type 0
  IsBounded metrics incumbent drop =
      (c i : Metric)
      → lookup metrics drop.0 ≡ some c
      → lookup incumbent drop.0 ≡ some i
      → (less drop.1 (sub i c) ≡ false)
        × ((a b : ℤ) → drop.1 ≡ finite a → sub i c ≡ finite b → b ≤ℤ a)

  is_below-IsMet :
      (metrics : List (String × Metric)) (floor : String × Metric)
      → is_below (lookup metrics floor.0) floor.1 ≡ false
      → IsMet metrics floor
  is_below-IsMet metrics floor h = elim (Option-cases (lookup metrics floor.0)) [
    | inl missing ↦ let bad : true ≡ false = rw missing at h in cc
    | inr (v, known) ↦ record {
      actual = v;
      is_known = known;
      not_less = rw known at h;
      is_enough = finite_not_less v floor.1 (rw known at h);
    }
  ]

  is_regression-IsBounded :
      (metrics incumbent : List (String × Metric)) (drop : String × Metric)
      → is_regression sub (lookup metrics drop.0) (lookup incumbent drop.0) drop.1 ≡ false
      → IsBounded metrics incumbent drop
  unfolding IsBounded
  is_regression-IsBounded metrics incumbent drop h c i hc hi =
      let h' : less drop.1 (sub i c) ≡ false = rw (hc, hi) at h in
      (h', finite_not_less drop.1 (sub i c) h')

  below_reasons-IsMet :
      (floors metrics : List (String × Metric))
      → below_reasons floors metrics ≡ []
      → All (IsMet metrics) floors
  below_reasons-IsMet [] metrics h = tt
  below_reasons-IsMet (floor ∷ rest) metrics h =
      elim (Bool-cases (is_below (lookup metrics floor.0) floor.1)) [
        | inl low ↦ cc
        | inr fine ↦
            (is_below-IsMet metrics floor fine, below_reasons-IsMet rest metrics (rw fine at h))
      ]

  drop_reasons-IsBounded :
      (drops metrics incumbent : List (String × Metric))
      → drop_reasons sub drops metrics incumbent ≡ []
      → All (IsBounded metrics incumbent) drops
  drop_reasons-IsBounded [] metrics incumbent h = tt
  drop_reasons-IsBounded (drop ∷ rest) metrics incumbent h =
      elim (Bool-cases
        (is_regression sub (lookup metrics drop.0) (lookup incumbent drop.0) drop.1)) [
          | inl worse ↦ cc
          | inr fine ↦ (
            is_regression-IsBounded metrics incumbent drop fine,
            drop_reasons-IsBounded rest metrics incumbent (rw fine at h),
          )
        ]

  -- What stands when the policy approves.
  pub record IsEligible (config : MonitoringConfig) (candidate : ModelVersion)
      (incumbent : Option ModelVersion) : Type 0 where
    pub floors : All (IsMet candidate.metrics) config.promotion_required_metrics
    pub drops :
        (old : ModelVersion)
        → incumbent ≡ some old
        → All (IsBounded candidate.metrics old.metrics) config.promotion_max_metric_drop

  evaluate-IsEligible :
      (config : MonitoringConfig) (candidate : ModelVersion) (incumbent : Option ModelVersion)
      → (evaluate sub config candidate incumbent).approved ≡ true
      → IsEligible config candidate incumbent
  unfolding evaluate
  evaluate-IsEligible config candidate incumbent h =
      let low = below_reasons config.promotion_required_metrics candidate.metrics in
      let worse = incumbent_reasons sub config candidate incumbent in
      let sum = length-append low worse in
      let no_low : length low ≡ 0 = ground arith in
      let no_worse : length worse ≡ 0 = ground arith in
      record {
        floors =
            below_reasons-IsMet config.promotion_required_metrics candidate.metrics
              (empty_of_length low no_low);
        drops = λ old e.
            drop_reasons-IsBounded config.promotion_max_metric_drop candidate.metrics old.metrics (
              empty_of_length _
                (subst (λ x. length (incumbent_reasons sub config candidate x) ≡ 0) e no_worse));
      }

  -- Whatever is promoted was a champion that has every required metric, none of which compares below
  -- its minimum, so that a finite one is at a finite minimum or above, while NaN passes; its loss
  -- against the model in production, if there was one, does not compare above what the configuration
  -- allows, so that a finite loss is within a finite allowance; and the registry has changed by the
  -- promotion alone.
  pub promote-IsEligible :
      (config : MonitoringConfig) (disk : Disk) (r actor : String) (reason : Option String)
      {candidate : ModelVersion} {done : (ModelVersion × PromotionDecision) × Disk}
      → get disk r ≡ ok candidate
      → promote sub config disk r actor reason ≡ ok done
      → (eq_stage candidate.stage champion ≡ true)
        × All (IsMet candidate.metrics) config.promotion_required_metrics
        × ((old : ModelVersion)
            → current_production disk candidate.identity ≡ ok old
            → All (IsBounded candidate.metrics old.metrics) config.promotion_max_metric_drop)
        × (promote_to_production disk r actor reason ≡ ok (done.0.0, done.1))
  unfolding promote
  promote-IsEligible config disk r actor reason {candidate} {done} g h =
      let (found, hg, h1) = >>=-ok_inv (get disk r) _ h in
      let (u, hc, h2) = >>=-ok_inv (raise_if (not (eq_stage found.stage champion)) _) _ h1 in
      let (incumbent, hp, h3) =
        >>=-ok_inv (production_or_none (current_production disk found.identity)) _ h2 in
      let (u2, ha, h4) =
        >>=-ok_inv (raise_if (not (evaluate sub config found incumbent).approved) _) _ h3 in
      let (out, hd, h5) = >>=-ok_inv (promote_to_production disk r actor reason) _ h4 in
      let result = ok-injective h5 in
      let same_model : found ≡ candidate = ok-injective (sym hg ∙ g) in
      let eligible =
        subst (λ c. IsEligible config c incumbent) same_model
          (evaluate-IsEligible config found incumbent (raise_if-not_passed _ _ ha)) in
      let hp' =
        subst (λ c. production_or_none (current_production disk c.identity) ≡ ok incumbent)
          same_model hp in
      (
        subst (λ c. eq_stage c.stage champion ≡ true) same_model (raise_if-not_passed _ _ hc),
        eligible.floors,
        λ old served.
            eligible.drops old (sym (ok-injective (sym (ap production_or_none served) ∙ hp'))),
        hd ∙ ap (λ d. ok (d.0.0, d.1)) result,
      )
