-- ===== src/Benchmark/Worker/Measures.antt =====
-- The phases, the metrics and the diagnostics that benchmarks/asr/benchmark_worker.py reports.
use nadikt.Base.{
  ℕ, ◌-◌, String, Option, none, some, List, [], ◌∷◌, ◌++◌, map, if◌then◌else◌, is_empty, contains,
}
use nadikt.Base.Int.{ℤ, pos}
use nadikt.Base.Json.{decimal, Fields}
use nadikt.Protocol.Messages.{WorkerSampleRequest, WorkerPhase, WorkerMetricDiagnostic}
use nadikt.Asr.Ports.{AsrFailure}
use nadikt.Quality.Tokens.{Text}
use nadikt.Quality.Metrics.{
  QualityMetricResult, english_term_accuracy, english_term_accuracy_from_records,
  latin_preservation_rate, latin_preservation_rate_from_records,
}
use nadikt.Quality.Reports.{MetricDiagnostic, metric_diagnostics}
use nadikt.Benchmark.Engines.{code_value}

-- `WorkerPhase(phase, outcome)`
unfoldable pub untimed : String → String → WorkerPhase
untimed phase outcome = record {
  phase = phase;
  outcome = outcome;
  duration_ms = decimal (pos 0) 0;
  segment_id = none;
}

-- `_phase`, at the time `now`.
unfoldable pub timed_phase : String → ℕ → Option ℤ → (now : ℕ) → WorkerPhase
timed_phase phase started segment_id now = record {
  phase = phase;
  outcome = "success";
  duration_ms = decimal (pos (now - started)) 0;
  segment_id = segment_id;
}

-- `WorkerPhase(error.failure.phase, error.failure.code.value)`
unfoldable pub failed_phase : AsrFailure → WorkerPhase
unfolding untimed
failed_phase failure = untimed failure.phase (code_value failure.code)

-- `_english_metric`
unfoldable pub english_metric :
    (Text → Text) → List Fields → List String → Text → QualityMetricResult
english_metric fold records terms hypothesis =
    if is_empty records
    then english_term_accuracy fold terms hypothesis
    else english_term_accuracy_from_records fold records hypothesis

-- `_latin_metric`
unfoldable pub latin_metric : (Text → Text) → List Fields → List String → Text → QualityMetricResult
latin_metric fold records terms hypothesis =
    if is_empty records
    then latin_preservation_rate fold terms hypothesis
    else latin_preservation_rate_from_records fold records hypothesis

abbrev pub raw_names : List String
raw_names = "coding_term_accuracy" ∷ "english_term_accuracy" ∷ "latin_preservation_rate" ∷ []

abbrev pub normalized_names : List String
normalized_names =
    "coding_term_accuracy_normalized" ∷ "english_term_accuracy_normalized"
    ∷ "latin_preservation_rate_normalized" ∷ []

-- `_term_metric_view`
unfoldable pub term_metric_view : String → Option String
term_metric_view name =
    if contains raw_names name
    then some "raw"
    else if contains normalized_names name
    then some "normalized"
    else none

unfoldable pub to_worker_diagnostic :
    WorkerSampleRequest → MetricDiagnostic → WorkerMetricDiagnostic
to_worker_diagnostic sample d = record {
  sample_id = sample.sample_id;
  category = sample.category;
  metric_name = d.metric_name;
  view = d.view;
  status = d.status;
  numerator = pos d.numerator;
  denominator = pos d.denominator;
  reason_code = d.reason_code;
  count = pos d.count;
}

-- `_worker_metric_diagnostics`
unfoldable pub worker_metric_diagnostics :
    WorkerSampleRequest → List QualityMetricResult → List WorkerMetricDiagnostic
unfolding term_metric_view to_worker_diagnostic
worker_metric_diagnostics sample [] = []
worker_metric_diagnostics sample (m ∷ ms) =
    let rest = worker_metric_diagnostics sample ms in
    elim (term_metric_view m.metric_name) [
      | none ↦ rest
      | some view ↦ map (to_worker_diagnostic sample) (metric_diagnostics m view) ++ rest
    ]
