-- ===== src/Monitoring.antt =====
-- ai-engine/creditiq_ai/model_operations/{monitoring,health,performance,drift}: the state of a model
-- in operation, from the events, the outcomes and the features that are observed.
pub mod Drift
pub mod Window
pub mod Alerts
pub mod Dedup
pub mod Health
use credit_iq_ai.Prelude.{
  ℕ, ◌-◌, String, Bool, true, false, not, ◌&&◌, ◌||◌, Option, some, none, List, [], ◌∷◌, ◌++◌, ◌==◌,
  ltb, length, select, map, if◌then◌else◌,
}
use mathlib.Core.Option
use Prim.Native.String.{◌++◌ as concat}
use credit_iq_ai.Prelude.Text.{same}
use credit_iq_ai.Prelude.Int.{ℤ, pos, pos_part}
use credit_iq_ai.Prelude.Positions.{get_elem?}
use credit_iq_ai.Prelude.Sorting.{sort_by}
use credit_iq_ai.Float.{Float, zero_float, ge_float}
use credit_iq_ai.Access.{member}
use credit_iq_ai.Decision.{InferenceEvent}

-- The thresholds of `MonitoringConfig`.
pub record Thresholds (N : Type 0) : Type 0 where
  pub enabled : Bool
  pub retention_events : ℕ
  pub warning_failure_rate : N
  pub critical_failure_rate : N
  pub warning_average_latency_ms : N
  pub critical_average_latency_ms : N
  pub drift_warning_psi : N
  pub drift_critical_psi : N
  pub minimum_drift_samples : ℕ
  pub minimum_performance_samples : ℕ
  pub performance_metric : String
  pub performance_warning_drop : N
  pub performance_critical_drop : N

pub record MonitoringSnapshot (N : Type 0) : Type 0 where
  pub prediction_count : ℕ
  pub failure_count : ℕ
  pub failure_rate : N
  pub average_latency_ms : N
  pub p95_latency_ms : Option N
  pub status : String
  pub reasons : List String

pub record PerformanceSnapshot (N : Type 0) : Type 0 where
  pub metric : String
  pub baseline : N
  pub current : N
  pub change : N
  pub status : String
  pub sample_count : ℕ

pub record Comparison (N : Type 0) : Type 0 where
  pub feature : String
  pub reference_count : ℕ
  pub current_count : ℕ
  pub psi : N

pub record FeatureDrift (N : Type 0) : Type 0 where
  pub feature : String
  pub psi : N
  pub status : String
  pub reference_count : ℕ
  pub current_count : ℕ

pub record DriftReport (N : Type 0) : Type 0 where
  pub status : String
  pub features : List (FeatureDrift N)
  pub drifted_features : List String

pub record ModelHealthReport : Type 0 where
  pub status : String
  pub operational_status : String
  pub drift_status : Option String
  pub performance_status : Option String
  pub reasons : List String

-- `PerformanceMonitoringError` and `DriftDetectionError`, with their messages.
pub data MonitoringError : Type 0 where
  performance_monitoring : String → MonitoringError
  drift_detection : String → MonitoringError

-- `statuses` by rank: an unknown word counts as the worst.
unfoldable pub rank : String → ℕ
unfolding same
rank status =
    if same status "unknown"
    then 0
    else if same status "healthy" || same status "stable"
    then 1
    else if same status "degraded" || same status "warning"
    then 2
    else 3

-- `max(statuses, key=...)`: the first of the greatest.
unfoldable pub worst_from : String → List String → String
worst_from best [] = best
worst_from best (s ∷ rest) = worst_from (if ltb (rank best) (rank s) then s else best) rest

-- `list(dict.fromkeys(reasons))`: each reason once, where it stands first.
unfoldable pub once_each : List String → List String → List String
once_each seen [] = []
once_each seen (r ∷ rest) =
    let fresh = once_each (r ∷ seen) rest in
    let known = once_each seen rest in if member r seen then known else r ∷ fresh

abbrev pub drift_reasons : {N : Type 0} → Option (DriftReport N) → List String
drift_reasons none = []
drift_reasons (some d) = map (λ f. concat "drift:" f) d.drifted_features

abbrev pub performance_reasons : {N : Type 0} → Option (PerformanceSnapshot N) → List String
performance_reasons none = []
performance_reasons (some p) =
    if same p.status "healthy" then [] else concat "performance:" p.metric ∷ []

abbrev pub drift_status_of : {N : Type 0} → Option (DriftReport N) → Option String
drift_status_of none = none
drift_status_of (some d) = some d.status

abbrev pub performance_status_of : {N : Type 0} → Option (PerformanceSnapshot N) → Option String
performance_status_of none = none
performance_status_of (some p) = some p.status

abbrev pub present : Option String → List String
present none = []
present (some s) = s ∷ []

-- `ModelHealthService.evaluate`
unfoldable pub evaluate_health :
    {N : Type 0}
    → MonitoringSnapshot N
    → Option (DriftReport N)
    → Option (PerformanceSnapshot N)
    → ModelHealthReport
evaluate_health operational drift performance = record {
  status =
      worst_from operational.status
        (present (drift_status_of drift) ++ present (performance_status_of performance));
  operational_status = operational.status;
  drift_status = drift_status_of drift;
  performance_status = performance_status_of performance;
  reasons =
      once_each [] (operational.reasons ++ drift_reasons drift ++ performance_reasons performance);
}

module _ (F : Float) where
  open F use {Number, literal, lt, add, sub, mul, div, ceil_int, round_to}

  -- The three bands of a measured value: from the critical threshold on, from the warning one, below.
  abbrev pub graded : {A : Type 0} → Number → Number → Number → A → A → A → A
  graded value critical warning worst middle best =
      if ge_float F value critical then worst else if ge_float F value warning then middle else best

  -- `_health`
  unfoldable pub health : Number → Number → Thresholds Number → String × List String
  health failure_rate average_latency c =
      let failing =
        graded {A = ℕ × List String} failure_rate c.critical_failure_rate c.warning_failure_rate
          (2, "critical_failure_rate" ∷ []) (1, "elevated_failure_rate" ∷ []) (0, []) in
      let slow =
        graded {A = ℕ × List String} average_latency c.critical_average_latency_ms
          c.warning_average_latency_ms (2, "critical_average_latency" ∷ [])
          (1, "elevated_average_latency" ∷ []) (0, []) in
      (
        (if failing.0 == 2 || slow.0 == 2
            then "unhealthy"
            else if failing.0 == 1 || slow.0 == 1
            then "degraded"
            else "healthy"),
        failing.1 ++ slow.1,
      )

  abbrev pub add_all : Number → List Number → Number
  add_all acc [] = acc
  add_all acc (x ∷ xs) = add_all (add acc x) xs

  abbrev pub durations : List (InferenceEvent Number) → List Number
  durations events = sort_by (λ a b. not (lt b a)) (map (λ e. e.duration_ms) events)

  abbrev pub count_number : List (InferenceEvent Number) → Number
  count_number events = literal (pos (length events)) 0

  abbrev pub failures_of : List (InferenceEvent Number) → ℕ
  failures_of events = length (select (λ e. not e.success) events)

  -- `max(0, ceil(0.95 * count) - 1)`
  abbrev pub percentile_index : Number → ℕ
  percentile_index count = pos_part (ceil_int (mul (literal (pos 95) 2) count)) - 1

  unfoldable pub aggregate_events :
      List (InferenceEvent Number) → Thresholds Number → MonitoringSnapshot Number
  aggregate_events [] c = record {
    prediction_count = 0;
    failure_count = 0;
    failure_rate = zero_float F;
    average_latency_ms = zero_float F;
    p95_latency_ms = some (zero_float F);
    status = "unknown";
    reasons = "no_inference_events" ∷ [];
  }
  aggregate_events (e ∷ rest) c =
      let events = e ∷ rest in
      let count = count_number events in
      let failure_rate = div (literal (pos (failures_of events)) 0) count in
      let average = div (add_all (zero_float F) (durations events)) count in
      let state = health failure_rate average c in
      record {
        prediction_count = length events;
        failure_count = failures_of events;
        failure_rate = round_to failure_rate 6;
        average_latency_ms = round_to average 3;
        p95_latency_ms =
            Option.map (λ x. round_to x 3) (get_elem? (durations events) (percentile_index count));
        status = state.0;
        reasons = state.1;
      }
