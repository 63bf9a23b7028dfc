-- ===== src/Monitoring/Alerts.antt =====
-- ai-engine/creditiq_ai/model_operations/alerts/manager.py: health alerts, one open per model and
-- code.
use Prim.Native.String.{◌++◌ as concat}
use credit_iq_ai.Prelude.{
  ℕ, String, Bool, true, false, not, ◌&&◌, ◌||◌, Option, some, none, List, [], ◌∷◌, ◌++◌, ◌==◌,
  find, select, update_first, if◌then◌else◌,
}
use credit_iq_ai.Prelude.Text.{same}
use credit_iq_ai.Errors.{Outcome, ok, or_raise, ◌>>=◌}
use credit_iq_ai.Monitoring.{ModelHealthReport}

pub data AlertStatus : Type 0 where
  open_model_alert acknowledged : AlertStatus

abbrev pub is_open_alert : AlertStatus → Bool
is_open_alert open_model_alert = true
is_open_alert acknowledged = false

pub record ModelAlert : Type 0 where
  pub alert_id : ℕ
  pub model_ref : String
  pub is_critical : Bool
  pub code : String
  pub message : String
  pub status : AlertStatus

pub data AlertError : Type 0 where
  alert_missing : AlertError

unfoldable pub is_quiet : String → Bool
unfolding same
is_quiet status = same status "healthy" || same status "stable" || same status "unknown"

-- `"; ".join(reasons)`
unfoldable pub join_reasons : List String → String
join_reasons [] = ""
join_reasons (r ∷ []) = r
join_reasons (r ∷ s ∷ rest) = concat r (concat "; " (join_reasons (s ∷ rest)))

-- `"; ".join(report.reasons) or report.status`
abbrev pub message_of : ModelHealthReport → String
message_of report =
    if same (join_reasons report.reasons) "" then report.status else join_reasons report.reasons

abbrev pub is_duplicate : String → String → ModelAlert → Bool
is_duplicate model_ref code a =
    same a.model_ref model_ref && same a.code code && is_open_alert a.status

abbrev pub new_alert : ℕ → String → ModelHealthReport → ModelAlert
new_alert id model_ref report = record {
  alert_id = id;
  model_ref = model_ref;
  is_critical = same report.status "critical" || same report.status "unhealthy";
  code = concat "model_health_" report.status;
  message = message_of report;
  status = open_model_alert;
}

abbrev pub raise_alert :
    Option ModelAlert → ModelAlert → List ModelAlert → Option ModelAlert × List ModelAlert
raise_alert (some existing) alert alerts = (some existing, alerts)
raise_alert none alert alerts = (some alert, alerts ++ (alert ∷ []))

-- `id` is the fresh identifier.
unfoldable pub from_health :
    ℕ → List ModelAlert → String → ModelHealthReport → Option ModelAlert × List ModelAlert
from_health id alerts model_ref report =
    if is_quiet report.status
    then (none, alerts)
    else raise_alert (find (is_duplicate model_ref (concat "model_health_" report.status)) alerts)
        (new_alert id model_ref report) alerts

abbrev pub acknowledge_alert : ModelAlert → ModelAlert
acknowledge_alert a = record a { status = acknowledged }

unfoldable pub acknowledge : List ModelAlert → ℕ → Outcome AlertError (ModelAlert × List ModelAlert)
acknowledge alerts k = do
  alert ← or_raise (find (λ a. a.alert_id == k) alerts) alert_missing
  ok (acknowledge_alert alert, update_first (λ a. a.alert_id == k) acknowledge_alert alerts)

abbrev pub has_alert_status : Option AlertStatus → ModelAlert → Bool
has_alert_status none a = true
has_alert_status (some open_model_alert) a = is_open_alert a.status
has_alert_status (some acknowledged) a = not (is_open_alert a.status)

unfoldable pub list_alerts : List ModelAlert → Option AlertStatus → List ModelAlert
list_alerts alerts status = select (has_alert_status status) alerts
