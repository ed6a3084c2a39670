-- ===== src/Benchmark/Worker/Sampling.antt =====
-- One sample of benchmarks/asr/benchmark_worker.py: `_run_sample` with its metrics.
use nadikt.Base.{
  ℕ, String, true, false, Option, none, some, List, [], ◌∷◌, ◌++◌, map, if◌then◌else◌, is_empty,
}
use nadikt.Base.Result.{Result, ok, err, ◌>>=◌ as ◌>>=ᵣ◌}
use nadikt.Base.Exec.{Exec, pure, raise, gets, catch, ◌>>=◌, ◌>>◌}
use nadikt.Base.Int.{ℤ, pos}
use nadikt.Base.Json.{Float, Fields}
use nadikt.Protocol.Messages.{
  WorkerSampleRequest, WorkerPhase, WorkerMetricResult, WorkerMetricDiagnostic, WorkerSampleOutcome,
}
use nadikt.Asr.Ports.{Raised, engine_error, AsrSegmentInput, new_segment}
use nadikt.Quality.Levenshtein.{Eq}
use nadikt.Quality.Tokens.{Text, codes}
use nadikt.Quality.Metrics.{Ratio, QualityMetricResult, wer, cer, coding_term_accuracy}
use nadikt.Quality.Normalization.{normalized_coding_term_metrics, default_normalization_policy_id}
use nadikt.Benchmark.Engines.{AsrEngine, raised_of}
use nadikt.Benchmark.Worker.Measures.{
  timed_phase, failed_phase, english_metric, latin_metric, worker_metric_diagnostics,
}

-- What the worker takes of Python and of the system: the clock in whole milliseconds, the reading of
-- a file, Unicode's tables, the division of a metric and its rounding, and a float of seconds in
-- milliseconds.
pub record Host (World : Type 0) : Type 0 where
  pub monotonic : World → ℕ
  pub read_text : String → World → Result Raised String
  pub fold : Text → Text
  pub lower : ℕ → ℕ
  pub quotient : Ratio → Float
  pub round_6 : Ratio → Float
  pub milliseconds : Float → ℤ

module _ {World : Type 0} (host : Host World) where
  -- `_worker_metrics`, of one metric.
  unfoldable pub to_worker_metric : QualityMetricResult → WorkerMetricResult
  to_worker_metric m = record {
    metric_name = m.metric_name;
    metric_version = m.version;
    value = host.quotient m.value;
    numerator = pos m.numerator;
    denominator = pos m.denominator;
    status = m.status;
  }

  -- The segment of a sample, without the checks of its constructor.
  unfoldable pub segment_of : WorkerSampleRequest → AsrSegmentInput
  segment_of sample = record {
    sample_id = sample.sample_id;
    segment_id = pos 0;
    audio_path = sample.audio_file;
    start_ms = pos 0;
    end_ms = host.milliseconds sample.duration_seconds;
    language_profile = "ru";
    segmentation_policy_id = "worker-repeat-v2";
  }

  unfoldable pub sample_outcome :
      WorkerSampleRequest
      → String
      → List WorkerPhase
      → List WorkerMetricResult
      → List WorkerMetricDiagnostic
      → WorkerSampleOutcome
  sample_outcome sample outcome phases metrics diagnostics = record {
    sample_id = sample.sample_id;
    category = sample.category;
    scored = sample.scored;
    outcome = outcome;
    phases = phases;
    metrics = metrics;
    metric_diagnostics = diagnostics;
  }

  module _ (E : AsrEngine World) where
    unfoldable pub started_at : Exec Raised E.State ℕ
    started_at = gets (λ s. host.monotonic (E.world s))

    unfoldable pub timed : String → ℕ → Option ℤ → Exec Raised E.State WorkerPhase
    unfolding timed_phase
    timed phase started segment_id =
        gets (λ s. timed_phase phase started segment_id (host.monotonic (E.world s)))

    unfoldable pub warm_sample :
        WorkerSampleRequest → AsrSegmentInput → String → Exec Raised E.State WorkerSampleOutcome
    unfolding started_at timed sample_outcome
    warm_sample sample segment phase_name = do
      started ← started_at
      E.warm_up segment
      phase ← timed phase_name started (some (pos 0))
      pure (sample_outcome sample "success" (phase ∷ []) [] [])

    -- The handler of `_run_sample`.
    unfoldable pub sample_failed :
        WorkerSampleRequest → Raised → Exec Raised E.State WorkerSampleOutcome
    unfolding sample_outcome failed_phase
    sample_failed sample (engine_error failure) =
        pure (sample_outcome sample "fail" (failed_phase failure ∷ []) [] [])
    sample_failed sample e = raise e

  module _ ⦃char_eq : Eq ℕ⦄ ⦃text_eq : Eq Text⦄ where
    -- The list of `_quality_metric_results`, of texts that are read.
    unfoldable pub quality_results :
        List Fields
        → List String
        → (reference hypothesis : Text) → Result Raised (List QualityMetricResult)
    unfolding english_metric latin_metric
    quality_results records terms reference hypothesis =
        let metrics : List QualityMetricResult =
          wer host.fold reference hypothesis
          ∷ cer host.fold reference hypothesis
          ∷ english_metric host.fold records terms hypothesis
          ∷ latin_metric host.fold records terms hypothesis
          ∷ coding_term_accuracy host.fold "coding_term_accuracy" records hypothesis
          ∷ [] in
        if is_empty records
        then ok metrics
        else (raised_of (
              normalized_coding_term_metrics host.lower host.fold default_normalization_policy_id
                records hypothesis)
            >>=ᵣ λ more. ok (metrics ++ more))

    -- `_quality_metric_results`, and the same lines of `_quality_metrics`.
    unfoldable pub quality_metric_results :
        Option String
        → List Fields
        → List String
        → String
        → World
        → Result Raised (List QualityMetricResult)
    unfolding quality_results
    quality_metric_results none records terms hypothesis w = ok []
    quality_metric_results (some file) records terms hypothesis w =
        host.read_text file w >>=ᵣ λ reference.
        quality_results records terms (codes reference) (codes hypothesis)

    module _ (E : AsrEngine World) where
      unfoldable pub results_of :
          WorkerSampleRequest → String → Exec Raised E.State (List QualityMetricResult)
      unfolding quality_metric_results
      results_of sample text s = (
        quality_metric_results sample.reference_file sample.expected_coding_terms
            sample.expected_english_terms text (E.world s),
        s,
      )

      unfoldable pub score_sample :
          WorkerSampleRequest → AsrSegmentInput → String → Exec Raised E.State WorkerSampleOutcome
      unfolding started_at timed results_of sample_outcome to_worker_metric
          worker_metric_diagnostics
      score_sample sample segment phase_name = do
        started ← started_at E
        transcript ← E.transcribe_segment segment
        phase ← timed E phase_name started (some (pos 0))
        results ← results_of sample transcript.text
        pure (
            sample_outcome sample "success" (phase ∷ []) (map to_worker_metric results)
              (worker_metric_diagnostics sample results))

      -- The `try` of `_run_sample`.
      unfoldable pub run_segment :
          WorkerSampleRequest → String → AsrSegmentInput → Exec Raised E.State WorkerSampleOutcome
      unfolding score_sample warm_sample sample_failed
      run_segment sample phase_name segment =
          catch
            (elim sample.scored [
              | true ↦ score_sample sample segment phase_name
              | false ↦ warm_sample E sample segment phase_name
            ])
            (sample_failed E sample)

      unfoldable pub run_sample :
          WorkerSampleRequest → String → Exec Raised E.State WorkerSampleOutcome
      unfolding run_segment segment_of
      run_sample sample phase_name s = elim (new_segment (segment_of sample)) [
        | err e ↦ (err e, s)
        | ok segment ↦ run_segment sample phase_name segment s
      ]
