-- ===== src/Quality/Reports.antt =====
-- `aggregate_corpus` and `metric_diagnostics` of benchmarks/asr/quality_metrics.py.
use nadikt.Base.{
  ℕ, ◌+◌, ◌-◌, String, ◌&&◌, ◌||◌, List, [], ◌∷◌, max, leb, ◌==◌, str_eq, if◌then◌else◌,
}
use Prim.Native.String.{◌++◌}
use nadikt.Quality.Metrics.{QualityMetricResult, not_applicable, metric_version}

pub record MetricDiagnostic : Type 0 where
  pub metric_name : String
  pub status : String
  pub numerator : ℕ
  pub denominator : ℕ
  pub reason_code : String
  pub count : ℕ
  pub view : String

unfoldable pub sum_applicable : (QualityMetricResult → ℕ) → List QualityMetricResult → ℕ
sum_applicable part [] = 0
sum_applicable part (r ∷ rs) =
    let rest = sum_applicable part rs in if str_eq r.status "ok" then part r + rest else rest

unfoldable pub aggregate_corpus : String → List QualityMetricResult → QualityMetricResult
unfolding sum_applicable
aggregate_corpus metric_name results =
    let denominator = sum_applicable (λ r. r.denominator) results in
    let numerator = sum_applicable (λ r. r.numerator) results in
    if denominator == 0 then not_applicable metric_name else record {
      metric_name = metric_name;
      value = record { over = numerator; under = denominator };
      numerator = numerator;
      denominator = denominator;
      status = "ok";
      version = metric_version;
    }

-- `_diagnostic`
unfoldable pub diagnostic : QualityMetricResult → String → ℕ → String → MetricDiagnostic
diagnostic r reason_code count view = record {
  metric_name = r.metric_name;
  status = r.status;
  numerator = r.numerator;
  denominator = r.denominator;
  reason_code = reason_code;
  count = count;
  view = view;
}

unfoldable pub metric_diagnostics : QualityMetricResult → String → List MetricDiagnostic
unfolding diagnostic
metric_diagnostics r view =
    if str_eq r.status "not_applicable" || r.denominator == 0
    then diagnostic r "not_applicable" (max 1 r.denominator) view ∷ []
    else if leb r.denominator r.numerator
    then diagnostic r "exact_latin_match" r.denominator view ∷ []
    else if str_eq r.metric_name "latin_preservation_rate" && r.numerator == 0
    then diagnostic r "latin_missing" r.denominator view ∷ []
    else if r.numerator == 0
    then diagnostic r "variant_missing" r.denominator view ∷ []
    else diagnostic r "accepted_variant_match" r.numerator view
      ∷ diagnostic r "occurrence_shortfall" (r.denominator - r.numerator) view
      ∷ []

-- `_renamed_metric`
unfoldable pub renamed_metric : QualityMetricResult → String → QualityMetricResult
renamed_metric r metric_name = record r {
  metric_name = metric_name;
  version = r.version ++ (":" ++ "coding-term-normalization-ru-pronunciation-v1");
}
