-- ===== src/Monitoring/Drift.antt =====
-- ai-engine/creditiq_ai/model_operations/{performance/monitor.py, drift/detector.py}: how far the
-- outcomes and the features have moved.
use credit_iq_ai.Prelude.{
  ℕ, String, Bool, not, ◌||◌, List, [], ◌∷◌, ◌==◌, ltb, select, exists, map, if◌then◌else◌,
}
use credit_iq_ai.Prelude.Text.{same}
use credit_iq_ai.Float.{Float}
use credit_iq_ai.Errors.{Outcome, ok, err, raise_if, ◌>>=◌, ◌>>◌}
use credit_iq_ai.Monitoring.{
  Thresholds, PerformanceSnapshot, FeatureDrift, Comparison, DriftReport, MonitoringError,
  performance_monitoring, drift_detection, graded,
}

module _ (F : Float) where
  open F use {Number, sub, round_to}

  -- `auc` is scikit-learn's score of the outcomes, and `classes` their number of distinct values.
  unfoldable pub evaluate_performance :
      Thresholds Number
      → ℕ
      → ℕ
      → ℕ
      → Number
      → Number
      → Outcome MonitoringError (PerformanceSnapshot Number)
  evaluate_performance c outcomes probabilities classes auc baseline = do
    raise_if (ltb outcomes c.minimum_performance_samples)
        (performance_monitoring "Insufficient labelled outcomes for performance monitoring")
    raise_if (not (outcomes == probabilities) || ltb classes 2)
        (performance_monitoring "Performance inputs are incompatible")
    raise_if (not (same c.performance_metric "roc_auc"))
        (performance_monitoring "Unsupported performance metric")
    ok (record {
      metric = c.performance_metric;
      baseline = baseline;
      current = round_to auc 6;
      change = round_to (sub auc baseline) 6;
      status =
          graded F (sub baseline auc) c.performance_critical_drop c.performance_warning_drop
            "critical" "warning" "healthy";
      sample_count = outcomes;
    })

  abbrev pub psi_status : Thresholds Number → Number → String
  psi_status c psi =
      graded F psi c.drift_critical_psi c.drift_warning_psi "critical" "warning" "stable"

  abbrev pub has_status : String → FeatureDrift Number → Bool
  has_status s f = same f.status s

  -- `_overall_status`
  unfoldable pub overall_status : List (FeatureDrift Number) → String
  overall_status features =
      if exists (has_status "critical") features
      then "critical"
      else if exists (has_status "warning") features
      then "warning"
      else "stable"

  -- `_feature`: the numbers of values of a common numeric feature and the index that NumPy
  -- computes from them.
  unfoldable pub feature_drift :
      Thresholds Number → Comparison Number → Outcome MonitoringError (FeatureDrift Number)
  feature_drift c f = do
    raise_if (f.reference_count == 0 || f.current_count == 0)
        (drift_detection "Feature has no comparable values")
    ok (record {
      feature = f.feature;
      psi = round_to f.psi 6;
      status = psi_status c f.psi;
      reference_count = f.reference_count;
      current_count = f.current_count;
    })

  abbrev pub feature_drifts :
      Thresholds Number
      → List (Comparison Number)
      → Outcome MonitoringError (List (FeatureDrift Number))
  feature_drifts c [] = ok []
  feature_drifts c (f ∷ rest) = do
    first ← feature_drift c f
    others ← feature_drifts c rest
    ok (first ∷ others)

  abbrev pub drift_report : List (FeatureDrift Number) → DriftReport Number
  drift_report results = record {
    status = overall_status results;
    features = results;
    drifted_features = map (λ x. x.feature) (select (λ x. not (same x.status "stable")) results);
  }

  unfoldable pub analyze_drift :
      Thresholds Number
      → ℕ
      → ℕ
      → List (Comparison Number)
      → Outcome MonitoringError (DriftReport Number)
  analyze_drift c reference current [] =
      err (drift_detection "No common numeric features are available for drift analysis")
  analyze_drift c reference current (f ∷ rest) = do
    raise_if (ltb reference c.minimum_drift_samples || ltb current c.minimum_drift_samples)
        (drift_detection "Insufficient samples for drift analysis")
    results ← feature_drifts c (f ∷ rest)
    ok (drift_report results)
