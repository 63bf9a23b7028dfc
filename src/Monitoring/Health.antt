-- ===== src/Monitoring/Health.antt =====
-- ai-engine/creditiq_ai/model_operations/{health/service.py, alerts/manager.py}: which signals raise
-- an alert.
use credit_iq_ai.Prelude.{
  ◌≡◌, refl, ap, ◌∙◌, ℕ, String, Bool, true, false, ◌&&◌, Option, some, none, is_none, List, ◌++◌,
  ltb, leb, find, if◌then◌else◌, arith, Bool-cases, inl, inr, Option-cases,
}
use Prim.Native.String.{◌++◌ as concat}
use credit_iq_ai.Monitoring.{
  MonitoringSnapshot, DriftReport, PerformanceSnapshot, ModelHealthReport, rank, worst_from,
  evaluate_health, drift_status_of, performance_status_of, present,
}
use credit_iq_ai.Monitoring.Alerts.{ModelAlert, is_quiet, is_duplicate, from_health}

-- Nothing worse than healthy, or not measured.
abbrev pub is_calm : Option String → Bool
is_calm none = true
is_calm (some s) = is_quiet s

is_quiet-rank : (s : String) → is_quiet s ≡ leb (rank s) 1
unfolding is_quiet rank
is_quiet-rank s = ground arith

quiet_of_better :
    (a b : String) → ltb (rank a) (rank b) ≡ true → is_quiet b ≡ (is_quiet a && is_quiet b)
quiet_of_better a b better = let qa = is_quiet-rank a in let qb = is_quiet-rank b in ground arith

quiet_of_worse :
    (a b : String) → ltb (rank a) (rank b) ≡ false → is_quiet a ≡ (is_quiet a && is_quiet b)
quiet_of_worse a b worse = let qa = is_quiet-rank a in let qb = is_quiet-rank b in ground arith

is_quiet-pick :
    (a b : String) → is_quiet (if ltb (rank a) (rank b) then b else a) ≡ (is_quiet a && is_quiet b)
is_quiet-pick a b = elim (Bool-cases (ltb (rank a) (rank b))) [
  | inl better ↦ rw better (quiet_of_better a b better)
  | inr worse ↦ rw worse (quiet_of_worse a b worse)
]

and_true : (a b : Bool) → (a && b) ≡ (a && b && true)
and_true a b = ground arith

and_middle : (a b : Bool) → (a && b) ≡ (a && true && b)
and_middle a b = ground arith

and_both : (a : Bool) → a ≡ (a && true && true)
and_both a = ground arith

and_assoc : (a b c : Bool) → ((a && b) && c) ≡ (a && b && c)
and_assoc a b c = ground arith

is_quiet-worst_from :
    (s : String) (drift performance : Option String)
    → is_quiet (worst_from s (present drift ++ present performance))
      ≡ (is_quiet s && is_calm drift && is_calm performance)
unfolding worst_from
is_quiet-worst_from s none none = and_both (is_quiet s)
is_quiet-worst_from s (some d) none = is_quiet-pick s d ∙ and_true (is_quiet s) (is_quiet d)
is_quiet-worst_from s none (some p) = is_quiet-pick s p ∙ and_middle (is_quiet s) (is_quiet p)
is_quiet-worst_from s (some d) (some p) =
    is_quiet-pick (if ltb (rank s) (rank d) then d else s) p
    ∙ ap (λ x. x && is_quiet p) (is_quiet-pick s d)
    ∙ and_assoc (is_quiet s) (is_quiet d) (is_quiet p)

is_none-from_health :
    (id : ℕ) (alerts : List ModelAlert) (model_ref : String) (report : ModelHealthReport)
    → is_none (from_health id alerts model_ref report).0 ≡ is_quiet report.status
unfolding from_health
is_none-from_health id alerts model_ref report = elim (Bool-cases (is_quiet report.status)) [
  | inl quiet ↦ rw quiet refl
  | inr loud ↦
      elim (Option-cases
        (find (is_duplicate model_ref (concat "model_health_" report.status)) alerts)) [
          | inl missing ↦ rw loud (rw missing refl)
          | inr (existing, found) ↦ rw loud (rw found refl)
        ]
]

-- A health report yields no alert exactly when each of its signals, the operational state, the drift
-- and the performance, is healthy, stable, unknown or not measured.
pub from_health-evaluate_health :
    {N : Type 0} (id : ℕ) (alerts : List ModelAlert) (model_ref : String)
    (operational : MonitoringSnapshot N) (drift : Option (DriftReport N))
    (performance : Option (PerformanceSnapshot N))
    → is_none (from_health id alerts model_ref (evaluate_health operational drift performance)).0
      ≡ (is_quiet operational.status
          && is_calm (drift_status_of drift)
          && is_calm (performance_status_of performance))
unfolding evaluate_health
from_health-evaluate_health id alerts model_ref operational drift performance =
    is_none-from_health id alerts model_ref (evaluate_health operational drift performance)
    ∙ is_quiet-worst_from operational.status (drift_status_of drift)
        (performance_status_of performance)
