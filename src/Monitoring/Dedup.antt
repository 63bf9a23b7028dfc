-- ===== src/Monitoring/Dedup.antt =====
-- ai-engine/creditiq_ai/model_operations/alerts/manager.py: repeated reports and open alerts.
use Prim.Native.String.{◌++◌ as concat}
use credit_iq_ai.Prelude.{
  ◌≡◌, refl, ap, subst, ℕ, ◌+◌, ◌≤◌, String, Bool, true, false, none, List, [], ◌∷◌, ◌++◌, ◌==◌,
  find, select, length, update_first, if◌then◌else◌, arith, Bool-cases, Option-cases, inl, inr,
}
use credit_iq_ai.Prelude.Text.{same, same_iff}
use credit_iq_ai.Errors.{ok, or_raise, >>=-ok_inv, ok-injective}
use credit_iq_ai.Monitoring.{ModelHealthReport}
use credit_iq_ai.Monitoring.Alerts.{
  ModelAlert, alert_missing, is_quiet, is_duplicate, new_alert, from_health, acknowledge_alert,
  acknowledge,
}

-- At most one open alert for a model and a code.
abbrev pub IsDeduplicated : List ModelAlert → Type 0
IsDeduplicated alerts =
    (model_ref code : String) → length (select (is_duplicate model_ref code) alerts) ≤ 1

-- The calls that write.
pub data Step (alerts after : List ModelAlert) : Type 0 where
  reported :
      (id : ℕ) (model_ref : String) (report : ModelHealthReport)
      → (from_health id alerts model_ref report).1 ≡ after
      → Step alerts after
  seen : (k : ℕ) (a : ModelAlert) → acknowledge alerts k ≡ ok (a, after) → Step alerts after

pub data Reach (alerts : List ModelAlert) : List ModelAlert → Type 0 where
  here : Reach alerts alerts
  next :
      {middle after : List ModelAlert}
      → Reach alerts middle
      → Step middle after
      → Reach alerts after

module _ {A : Type 0} where
  -- A change that takes the property from its elements and gives it to none.
  select-update_first :
      (p q : A → Bool) (f : A → A)
      → ((x : A) → q (f x) ≡ false)
      → (xs : List A) → length (select q (update_first p f xs)) ≤ length (select q xs)
  select-update_first p q f gone [] = omega arith
  select-update_first p q f gone (x ∷ xs) =
      let later = select-update_first p q f gone xs in let lost = gone x in ground arith

  select-append_one :
      (q : A → Bool) (xs : List A) (y : A)
      → length (select q (xs ++ (y ∷ []))) ≡ length (select q xs) + (if q y then 1 else 0)
  select-append_one q [] y = ground arith
  select-append_one q (x ∷ xs) y = let later = select-append_one q xs y in ground arith

  length-select_missing : (q : A → Bool) (xs : List A) → find q xs ≡ none → length (select q xs) ≡ 0
  length-select_missing q [] h = refl
  length-select_missing q (x ∷ xs) h = let later = length-select_missing q xs in ground arith

-- An alert that is open stands for its own model and code.
is_duplicate-same :
    (m code : String) (a : ModelAlert)
    → is_duplicate m code a ≡ true
    → (a.model_ref ≡ m) × (a.code ≡ code)
is_duplicate-same m code a h =
    let model : same a.model_ref m ≡ true = ground arith in
    let word : same a.code code ≡ true = ground arith in
    ((same_iff a.model_ref m).0 model, (same_iff a.code code).0 word)

add_alert-IsDeduplicated :
    (alerts : List ModelAlert) (a : ModelAlert)
    → find (is_duplicate a.model_ref a.code) alerts ≡ none
    → IsDeduplicated alerts
    → IsDeduplicated (alerts ++ (a ∷ []))
add_alert-IsDeduplicated alerts a missing h m code =
    let more = select-append_one (is_duplicate m code) alerts a in
    let before = h m code in
    elim (Bool-cases (is_duplicate m code a)) [
      | inl duplicate ↦
          let (model, word) = is_duplicate-same m code a duplicate in
          let absent =
            subst (λ x. find (is_duplicate x code) alerts ≡ none) model
              (subst (λ x. find (is_duplicate a.model_ref x) alerts ≡ none) word missing) in
          let zero_before = length-select_missing (is_duplicate m code) alerts absent in
          ground arith
      | inr other ↦ ground arith
    ]

from_health-IsDeduplicated :
    (id : ℕ) (alerts : List ModelAlert) (model_ref : String) (report : ModelHealthReport)
    → IsDeduplicated alerts
    → IsDeduplicated (from_health id alerts model_ref report).1
unfolding from_health
from_health-IsDeduplicated id alerts model_ref report h =
    elim (Bool-cases (is_quiet report.status)) [
      | inl quiet ↦ rw quiet h
      | inr loud ↦
          elim (Option-cases
            (find (is_duplicate model_ref (concat "model_health_" report.status)) alerts)) [
              | inl missing ↦ rw loud (
                  rw missing
                    (add_alert-IsDeduplicated alerts (new_alert id model_ref report) missing h))
              | inr (existing, found) ↦ rw loud (rw found h)
            ]
    ]

acknowledge-IsDeduplicated :
    (alerts : List ModelAlert) (k : ℕ) {a : ModelAlert} {after : List ModelAlert}
    → acknowledge alerts k ≡ ok (a, after)
    → IsDeduplicated alerts
    → IsDeduplicated after
unfolding acknowledge
acknowledge-IsDeduplicated alerts k {a} {after} e h m code =
    let (alert, found, rest) =
      >>=-ok_inv (or_raise (find (λ x. x.alert_id == k) alerts) alert_missing) _ e in
    let written = ap (λ x. x.1) (ok-injective rest) in
    let fewer =
      select-update_first (λ x. x.alert_id == k) (is_duplicate m code) acknowledge_alert
        (λ x. ground arith) alerts in
    let before = h m code in
    subst (λ x. length (select (is_duplicate m code) x) ≤ 1) written (omega arith)

-- Whatever reports arrive and whatever alerts are acknowledged, each model has at most one open alert
-- of a code, from alerts of which this holds, as of none.
pub Reach-IsDeduplicated :
    {alerts after : List ModelAlert}
    → IsDeduplicated alerts
    → Reach alerts after
    → IsDeduplicated after
Reach-IsDeduplicated h here = h
Reach-IsDeduplicated h (next path (reported id model_ref report written)) =
    subst IsDeduplicated written
      (from_health-IsDeduplicated id _ model_ref report (Reach-IsDeduplicated h path))
Reach-IsDeduplicated h (next path (seen k a written)) =
    acknowledge-IsDeduplicated _ k written (Reach-IsDeduplicated h path)
