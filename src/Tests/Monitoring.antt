-- ===== src/Tests/Monitoring.antt =====
-- Windows, health reports and alerts on samples.
use credit_iq_ai.Prelude.{
  ◌≡◌, refl, ◌≤◌, true, false, Option, none, some, is_none, map, String, List, arith, [], ◌∷◌,
  length, select,
}
use credit_iq_ai.Prelude.Int.{pos}
use credit_iq_ai.Errors.{Outcome, ok, err}
use credit_iq_ai.Decision.{InferenceEvent, UnifiedDecision}
use credit_iq_ai.Decision.Engine.{Engine, decide, event_of}
use credit_iq_ai.Monitoring.{
  Thresholds, MonitoringSnapshot, DriftReport, ModelHealthReport, rank, worst_from, evaluate_health,
  health, once_each, aggregate_events, Comparison, MonitoringError, drift_detection,
}
use credit_iq_ai.Monitoring.Drift.{overall_status, feature_drift, analyze_drift}
use credit_iq_ai.Monitoring.Window.{
  record_window, snapshot, in_memory_monitor, keep_last, Decides, none_taken, taken,
  Decides-keep_last,
}
use credit_iq_ai.Monitoring.Alerts.{
  ModelAlert, AlertError, open_model_alert, is_quiet, is_duplicate, from_health, acknowledge,
  list_alerts,
}
use credit_iq_ai.Monitoring.Dedup.{Reach, here, next, reported, seen, Reach-IsDeduplicated}
use credit_iq_ai.Monitoring.Health.{from_health-evaluate_health}
use credit_iq_ai.Tests.Micro.{micro}
use credit_iq_ai.Tests.Decisions.{N, decisions, engine, request, value_or, sample}

unfoldable pub monitored : Unit {0}
unfolding decisions rank worst_from evaluate_health health once_each aggregate_events overall_status
    feature_drift analyze_drift record_window snapshot is_quiet from_health acknowledge list_alerts
monitored = tt

abbrev thresholds : Thresholds N
thresholds = record {
  enabled = true;
  retention_events = 1;
  warning_failure_rate = some (pos 50000);
  critical_failure_rate = some (pos 200000);
  warning_average_latency_ms = some (pos 500000000);
  critical_average_latency_ms = some (pos 2000000000);
  drift_warning_psi = some (pos 100000);
  drift_critical_psi = some (pos 250000);
  minimum_drift_samples = 30;
  minimum_performance_samples = 30;
  performance_metric = "roc_auc";
  performance_warning_drop = some (pos 30000);
  performance_critical_drop = some (pos 80000);
}

abbrev blank_alert : ModelAlert
blank_alert = record {
  alert_id = 0;
  model_ref = "";
  is_critical = false;
  code = "";
  message = "";
  status = open_model_alert;
}

abbrev acknowledged_or :
    Outcome AlertError (ModelAlert × List ModelAlert) → ModelAlert × List ModelAlert
acknowledged_or (ok r) = r
acknowledged_or (err e) = (blank_alert, [])

abbrev watched : Engine micro (List (InferenceEvent N))
watched = record (engine (ok (some (pos 200000))) (ok (pos 100000))) {
  monitor = some (in_memory_monitor thresholds);
}

abbrev once : UnifiedDecision N × List (InferenceEvent N)
once = value_or sample (decide micro watched [] (some (pos 0)) request)

abbrev twice : UnifiedDecision N × List (InferenceEvent N)
twice = value_or sample (decide micro watched once.1 (some (pos 9)) request)

two_decisions : Decides micro thresholds watched [] (once.0 ∷ twice.0 ∷ []) twice.1
unfolding monitored
two_decisions =
    taken {t = once.1} (some (pos 0)) request refl
      (taken {t = twice.1} (some (pos 9)) request refl none_taken)

Decides-keep_last_example :
    (twice.1 ≡ keep_last 1 (event_of micro once.0 ∷ event_of micro twice.0 ∷ []))
    × (length twice.1 ≤ 1)
Decides-keep_last_example =
    Decides-keep_last micro thresholds watched [] refl refl (omega arith) two_decisions

-- The window holds the event of the second decision.
newest : map (λ e. e.duration_ms) twice.1 ≡ some (pos 9) ∷ []
unfolding monitored
newest = refl

abbrev operational : MonitoringSnapshot N
operational = snapshot micro thresholds twice.1

all_good : operational.status ≡ "healthy"
unfolding monitored
all_good = refl

abbrev drift : Option (DriftReport N)
drift =
    some (record { status = "warning"; features = []; drifted_features = "income" ∷ "income" ∷ [] })

abbrev report : ModelHealthReport
report = evaluate_health operational drift none

abbrev alerted : Option ModelAlert × List ModelAlert
alerted = from_health 1 [] "credit:7" report

one_reason : report.reasons ≡ "drift:income" ∷ []
unfolding monitored
one_reason = refl

from_health-evaluate_health_example : is_none alerted.0 ≡ false
unfolding monitored
from_health-evaluate_health_example =
    from_health-evaluate_health 1 [] "credit:7" operational drift none

abbrev repeated : Option ModelAlert × List ModelAlert
repeated = from_health 2 alerted.1 "credit:7" report

abbrev cleared : Outcome AlertError (ModelAlert × List ModelAlert)
cleared = acknowledge repeated.1 1

-- A report after an acknowledgement opens a second alert.
abbrev reopened : List ModelAlert → List ModelAlert
reopened alerts = (from_health 3 alerts "credit:7" report).1

abbrev after_acknowledgement : ModelAlert × List ModelAlert
after_acknowledgement = acknowledged_or cleared

noticed : Reach [] (reopened after_acknowledgement.1)
unfolding monitored
noticed =
    next
      (next
        (next (next here (reported 1 "credit:7" report refl)) (reported 2 "credit:7" report refl))
        (seen 1 after_acknowledgement.0 refl))
      (reported 3 "credit:7" report refl)

two_alerts : map (λ a. a.alert_id) (reopened after_acknowledgement.1) ≡ 1 ∷ 3 ∷ []
unfolding monitored
two_alerts = refl

Reach-IsDeduplicated_example :
    length
      (select (is_duplicate "credit:7" "model_health_warning") (reopened after_acknowledgement.1))
    ≤ 1
Reach-IsDeduplicated_example =
    Reach-IsDeduplicated {alerts = []} (λ m code. omega arith) noticed "credit:7"
      "model_health_warning"

abbrev moved : Comparison N
moved = record {
  feature = "income";
  reference_count = 40;
  current_count = 40;
  psi = some (pos 300000);
}

abbrev drift_status : Outcome MonitoringError (DriftReport N) → Outcome MonitoringError String
drift_status (ok r) = ok r.status
drift_status (err e) = err e

income_drifts : drift_status (analyze_drift micro thresholds 40 40 (moved ∷ [])) ≡ ok "critical"
unfolding monitored
income_drifts = refl

few_samples :
    drift_status (analyze_drift micro thresholds 40 20 (moved ∷ []))
    ≡ err (drift_detection "Insufficient samples for drift analysis")
unfolding monitored
few_samples = refl
