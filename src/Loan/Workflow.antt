-- ===== src/Loan/Workflow.antt =====
-- backend/app/modules/loan/workflow.py: tenant-configurable workflow policy over the mandatory
-- safety graph.
pub mod Policy
use credit_iq_ai.Prelude.{
  ℕ, Bool, true, false, not, ◌&&◌, ◌||◌, Option, none, some, List, if◌then◌else◌, select, exists,
}
use credit_iq_ai.Prelude.Int.{ℤ, pos, leb_ℤ}
use credit_iq_ai.Shared.{
  LoanStatus, eq_status, loan_transitions, officer_review, approved, rejected, needs_more_info,
  defaulted,
}
use credit_iq_ai.Errors.{Result, ok, err, value_error, raise_if, ◌>>◌, ◌>>=◌}
use credit_iq_ai.Store.{LoanWorkflowSettings, ReviewPolicy, optional, required, amount_threshold}

abbrev pub default_settings : LoanWorkflowSettings
default_settings = record {
  analyst_review_policy = optional;
  analyst_review_amount_threshold = none;
  allow_needs_more_information = true;
  allow_default_classification = true;
}

-- `Field(default=None, gt=0)`
abbrev threshold_field : Option ℤ → Result (Unit {0})
threshold_field none = ok tt
threshold_field (some t) = raise_if (leb_ℤ t (pos 0)) (value_error "Input should be greater than 0")

abbrev threshold_policy : ReviewPolicy → Option ℤ → Result (Unit {0})
threshold_policy amount_threshold none =
    err (value_error "Analyst review amount threshold is required for threshold policy")
threshold_policy amount_threshold (some t) = ok tt
threshold_policy _ none = ok tt
threshold_policy _ (some t) =
    err (value_error "Analyst review amount threshold is valid only for threshold policy")

-- `LoanWorkflowSettings.model_validate` with `validate_threshold_policy`; no stored document means
-- the defaults.
unfoldable pub model_validate : Option LoanWorkflowSettings → Result LoanWorkflowSettings
model_validate none = ok default_settings
model_validate (some s) = do
  threshold_field s.analyst_review_amount_threshold
  threshold_policy s.analyst_review_policy s.analyst_review_amount_threshold
  ok s

abbrev at_least : ℤ → Option ℤ → Bool
at_least amount none = false
at_least amount (some t) = leb_ℤ t amount

abbrev required_by : ReviewPolicy → Option ℤ → ℤ → Bool
required_by required threshold amount = true
required_by amount_threshold threshold amount = at_least amount threshold
required_by optional threshold amount = false

unfoldable pub analyst_required : LoanWorkflowSettings → ℤ → Bool
analyst_required s amount =
    required_by s.analyst_review_policy s.analyst_review_amount_threshold amount

-- `set.discard`
abbrev discard : LoanStatus → List LoanStatus → List LoanStatus
discard s = select λ x. not (eq_status x s)

abbrev pub contains : List LoanStatus → LoanStatus → Bool
contains xs s = exists (λ x. eq_status x s) xs

abbrev discard_if : Bool → LoanStatus → List LoanStatus → List LoanStatus
discard_if true s xs = discard s xs
discard_if false s xs = xs

-- `LoanWorkflowPolicy.allowed`
unfoldable pub allowed : LoanWorkflowSettings → LoanStatus → ℤ → List LoanStatus
unfolding analyst_required
allowed s current amount =
    let base = loan_transitions current in
    let informed = discard_if (not s.allow_needs_more_information) needs_more_info base in
    let classified = discard_if (not s.allow_default_classification) defaulted informed in
    let analyst = eq_status current officer_review && analyst_required s amount in
    discard_if analyst rejected (discard_if analyst approved classified)
