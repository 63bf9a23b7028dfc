-- ===== src/Decision/Score.antt =====
-- ai-engine/creditiq_ai/decision/credit_score.py: the score of a probability of default, and its
-- risk band.
use credit_iq_ai.Prelude.{String, Bool, not, List, [], ◌∷◌, Option, none, some, find, if◌then◌else◌}
use credit_iq_ai.Prelude.Int.{ℤ, pos, leb_ℤ, ltb_ℤ, min_ℤ}
use credit_iq_ai.Prelude.Sorting.{sort_by}
use credit_iq_ai.Float.{Float, min_float, max_float, zero_float, one_float}
use credit_iq_ai.Errors.{◌>>=◌, or_raise, Outcome, ok, raise_if, ◌>>◌}
use credit_iq_ai.Decision.{ScoringConfig, ScoreBand, Failure, value_error}

unfoldable pub max_ℤ : ℤ → ℤ → ℤ
max_ℤ a b = if ltb_ℤ a b then b else a

-- Highest threshold first, as `sorted(..., reverse=True)` keeps equal ones in order.
abbrev pub higher : ScoreBand → ScoreBand → Bool
higher a b = leb_ℤ b.min_score a.min_score

unfoldable pub sorted_bands : List ScoreBand → List ScoreBand
sorted_bands bands = sort_by higher bands

-- `bands[-1].band if bands else "unknown"`
unfoldable pub last_band : List ScoreBand → String
last_band [] = "unknown"
last_band (b ∷ []) = b.band
last_band (b ∷ c ∷ rest) = last_band (c ∷ rest)

abbrev pub name_or : List ScoreBand → Option ScoreBand → String
name_or bands (some b) = b.band
name_or bands none = last_band bands

abbrev pub reaches : ℤ → ScoreBand → Bool
reaches score b = leb_ℤ b.min_score score

unfoldable pub band : {N : Type 0} → ScoringConfig N → ℤ → String
band config score =
    name_or (sorted_bands config.bands) (find (reaches score) (sorted_bands config.bands))

module _ (F : Float) where
  open F use {Number, literal, lt, add, sub, mul, div, log, round_int}

  abbrev pub epsilon : Number
  epsilon = literal (pos 1) 6

  unfoldable pub clamp01 : Number → Number
  clamp01 x = min_float F (one_float F) (max_float F (zero_float F) x)

  -- The scorecard formula, before rounding.
  unfoldable pub raw_score : ScoringConfig Number → Number → Number
  raw_score config probability_of_default =
      let p =
        min_float F (max_float F probability_of_default epsilon) (sub (one_float F) epsilon) in
      let odds = div (sub (one_float F) p) p in
      add config.base_score
        (mul (div config.pdo (log (literal (pos 2) 0))) (sub (log odds) (log config.base_odds)))

  -- `math.log` raises on base odds that are not positive, `round` on a number that is not finite;
  -- `value_error` stands for OverflowError too.
  unfoldable pub score : ScoringConfig Number → Number → Outcome Failure ℤ
  score config probability_of_default = do
    raise_if (not (lt (zero_float F) config.base_odds)) value_error
    points ← or_raise (round_int (raw_score config probability_of_default)) value_error
    ok (min_ℤ (max_ℤ points config.min_score) config.max_score)
