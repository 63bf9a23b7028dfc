-- ===== src/Decision/Bounds.antt =====
-- Bounds of the score, and what a band says of it.
use credit_iq_ai.Prelude.{
  ◌≡◌, refl, sym, ap, subst, ◌∙◌, Bool, true, false, not, some, find, All, arith, Bool-cases, inl,
  inr, Option-cases,
}
use credit_iq_ai.Prelude.Int.{ℤ, ◌≤ℤ◌, leb_ℤ, min_ℤ}
use credit_iq_ai.Prelude.Sorting.{sort_by, sort_by-IsSorted, find-IsFirst, All-sort_by}
use credit_iq_ai.Float.{Float, zero_float}
use credit_iq_ai.Errors.{ok, raise_if, or_raise, >>=-ok_inv, ok-injective}
use credit_iq_ai.Decision.{ScoringConfig, ScoreBand, value_error}
use credit_iq_ai.Decision.Score.{
  max_ℤ, higher, sorted_bands, reaches, name_or, band, raw_score, score,
}

clamped :
    (raw low high : ℤ)
    → low ≤ℤ high
    → (low ≤ℤ min_ℤ (max_ℤ raw low) high) × (min_ℤ (max_ℤ raw low) high ≤ℤ high)
unfolding min_ℤ max_ℤ
clamped raw low high h = ground arith

-- A score that is computed is within the configured range, when that range is not empty.
pub score-IsBounded :
    (F : Float) (config : ScoringConfig (F.Number)) (p : F.Number) {s : ℤ}
    → config.min_score ≤ℤ config.max_score
    → score F config p ≡ ok s
    → (config.min_score ≤ℤ s) × (s ≤ℤ config.max_score)
unfolding score
score-IsBounded F config p {s} range h =
    let (u, _, h1) =
      >>=-ok_inv (raise_if (not (F.lt (zero_float F) config.base_odds)) value_error) _ h in
    let (points, _, h2) =
      >>=-ok_inv (or_raise (F.round_int (raw_score F config p)) value_error) _ h1 in
    subst (λ z. (config.min_score ≤ℤ z) × (z ≤ℤ config.max_score)) (ok-injective h2)
      (clamped points config.min_score config.max_score range)

abbrev pub IsAbove : ScoreBand → ScoreBand → Type 0
IsAbove a b = b.min_score ≤ℤ a.min_score

-- The band of a score is the one with the highest threshold that the score reaches: if it reaches
-- any, the answer is the name of a band whose threshold it reaches, and none it reaches is higher.
pub band-IsHighest :
    {N : Type 0} (config : ScoringConfig N) (s : ℤ) {b : ScoreBand}
    → find (reaches s) (sorted_bands config.bands) ≡ some b
    → (band config s ≡ b.band)
      × (b.min_score ≤ℤ s)
      × All (λ c. leb_ℤ c.min_score s ≡ true → c.min_score ≤ℤ b.min_score) config.bands
unfolding band sorted_bands
band-IsHighest config s {b} h = (
  ap (name_or (sort_by higher config.bands)) h,
  (ground (arith, credit_iq_ai.Prelude.find-holds (reaches s) _ h)),
  All-sort_by _ higher config.bands (
      find-IsFirst IsAbove higher (reaches s) (sort_by higher config.bands) (λ x. omega arith)
        (sort_by-IsSorted IsAbove higher (λ x y z p q. omega arith) (λ x y p. ground arith)
          (λ x y p. ground arith) config.bands)
        h),
)
