-- ===== src/Tests/Fraud.antt =====
-- An open alert on the sample tenant is dismissed, once.
use credit_iq_ai.Prelude.{◌≡◌, refl}
use credit_iq_ai.Prelude.Text.{strip}
use credit_iq_ai.Shared.{open_alert, dismissed}
use credit_iq_ai.Errors.{Result, ok, err}
use credit_iq_ai.Store.{Db, record_audit}
use credit_iq_ai.Access.{has_org_wide_scope, is_applicant_user, member, branch_predicate}
use credit_iq_ai.Fraud.{FraudAlertOut, get_alert, present_alert, resolve_alert}
use credit_iq_ai.Tests.Sample.{manager, flagged}

unfoldable pub investigation : Unit {0}
unfolding record_audit has_org_wide_scope is_applicant_user member branch_predicate strip get_alert
    present_alert resolve_alert
investigation = tt

abbrev state_of : Db → Result (FraudAlertOut × Db) → Db
state_of d (ok r) = r.1
state_of d (err e) = d

dismissal : Result (FraudAlertOut × Db)
dismissal = resolve_alert 100 (flagged open_alert) manager 20 dismissed "  a false alarm  "

note_is_stripped : strip "  a false alarm  " ≡ "a false alarm"
unfolding strip
note_is_stripped = refl
