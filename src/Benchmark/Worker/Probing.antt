-- ===== src/Benchmark/Worker/Probing.antt =====
-- `_run_worker_v1` of benchmarks/asr/benchmark_worker.py over any engine.
use nadikt.Base.{ℕ, String, Option, none, some, List, [], ◌∷◌, if◌then◌else◌, str_eq}
use nadikt.Base.Result.{Result, ok, err}
use nadikt.Base.Exec.{Exec, raise, gets, catch, ◌>>=◌, ◌>>◌}
use nadikt.Base.Int.{pos}
use nadikt.Base.Json.{str, int, float, Float, decimal, Fields, end, field, truthy}
use nadikt.Protocol.Messages.{WorkerPhase}
use nadikt.Protocol.Version1.{WorkerRequest, WorkerResult, NamedMetric}
use nadikt.Asr.Ports.{Raised, dict, AsrSegmentInput, new_segment}
use nadikt.Quality.Levenshtein.{Eq}
use nadikt.Quality.Tokens.{Text}
use nadikt.Quality.Metrics.{QualityMetricResult}
use nadikt.Evidence.Records.{unverified_evidence, evidence_to_json}
use nadikt.Benchmark.Engines.{AsrEngine, raised_of}
use nadikt.Benchmark.Worker.Sampling.{Host, timed, started_at, quality_metric_results}
use nadikt.Benchmark.Worker.Measures.{untimed}
use nadikt.Benchmark.Worker.Repeat.{
  Progress, start_progress, on_engine, add_phase, run_failed, finally_do, close_engine,
}

-- `metrics[name] = value`
unfoldable pub set_metric : NamedMetric → List NamedMetric → List NamedMetric
set_metric m [] = m ∷ []
set_metric m (n ∷ ns) =
    let rest = set_metric m ns in if str_eq n.name m.name then m ∷ ns else n ∷ rest

-- `float(request.duration_seconds or 1.0)`
unfoldable pub duration_or_one : Option Float → Float
duration_or_one none = decimal (pos 1) 0
duration_or_one (some x) = if truthy (float x) then x else decimal (pos 1) 0

module _ {World : Type 0} (host : Host World) where
  -- `QualityMetricResult.to_json`
  unfoldable pub metric_to_json : QualityMetricResult → Fields
  metric_to_json m = field "metric_name" (str m.metric_name) (
      field "value" (float (host.round_6 m.value)) (
        field "numerator" (int (pos m.numerator)) (
          field "denominator" (int (pos m.denominator))
            (field "status" (str m.status) (field "version" (str m.version) end)))))

  -- `{metric.metric_name: metric.to_json() for metric in metrics}`
  unfoldable pub metrics_by_name : List NamedMetric → List QualityMetricResult → List NamedMetric
  unfolding set_metric metric_to_json
  metrics_by_name named [] = named
  metrics_by_name named (m ∷ ms) =
      metrics_by_name
        (set_metric (record { name = m.metric_name; metric = metric_to_json m }) named) ms

  -- The segment of the probe, without the checks of its constructor.
  unfoldable pub probe_segment : String → Option Float → AsrSegmentInput
  unfolding duration_or_one
  probe_segment audio_file duration = record {
    sample_id = "worker_sample";
    segment_id = pos 0;
    audio_path = audio_file;
    start_ms = pos 0;
    end_ms = host.milliseconds (duration_or_one duration);
    language_profile = "ru";
    segmentation_policy_id = "worker-probe-v1";
  }

-- `phases`, the status and the engine are those of a run of version 2.
pub record Probe (S : Type 0) : Type 0 where
  pub progress : Progress S
  pub quality_metrics : List NamedMetric

module _ {S : Type 0} where
  unfoldable pub on_progress : {R : Type 0} → Exec Raised (Progress S) R → Exec Raised (Probe S) R
  on_progress op p = let (r, q) = op p.progress in (r, record p { progress = q })

  unfoldable pub set_metrics : List NamedMetric → Exec Raised (Probe S) (Unit {0})
  set_metrics ms p = (ok tt, record p { quality_metrics = ms })

module _ {World : Type 0} (host : Host World) ⦃char_eq : Eq ℕ⦄ ⦃text_eq : Eq Text⦄
    (E : AsrEngine World) where
  unfoldable pub call_engine : {R : Type 0} → Exec Raised E.State R → Exec Raised (Probe E.State) R
  unfolding on_progress on_engine
  call_engine op = on_progress (on_engine op)

  unfoldable pub note : WorkerPhase → Exec Raised (Probe E.State) (Unit {0})
  unfolding on_progress add_phase
  note phase = on_progress (add_phase phase)

  unfoldable pub load_probe : WorkerRequest → Exec Raised (Probe E.State) (Unit {0})
  unfolding call_engine note
  load_probe q = do
    started ← call_engine (started_at host E)
    call_engine (
        E.load (record {
          local_package_path = q.package_dir;
          inference_defaults = dict q.inference_defaults;
        }))
    phase ← call_engine (timed host E "load" started none)
    note phase
    ready ← gets (λ p. E.is_ready p.progress.state)
    note (untimed "readiness" (if ready then "success" else "readiness_failed"))

  -- `_quality_metrics`
  unfoldable pub quality_metrics : WorkerRequest → String → Exec Raised E.State (List NamedMetric)
  unfolding metrics_by_name
  quality_metrics q text s =
      let r =
        quality_metric_results host q.reference_file q.expected_coding_terms
          q.expected_english_terms text (E.world s) in
      (elim r [ ok ms ↦ ok (metrics_by_name host [] ms) | err e ↦ err e ], s)

  unfoldable pub run_probe :
      WorkerRequest → AsrSegmentInput → Exec Raised (Probe E.State) (Unit {0})
  unfolding call_engine note quality_metrics set_metrics
  run_probe q segment = do
    started ← call_engine (started_at host E)
    call_engine (E.warm_up segment)
    phase ← call_engine (timed host E "warmup" started (some (pos 0)))
    note phase
    started' ← call_engine (started_at host E)
    transcript ← call_engine (E.transcribe_segment segment)
    phase' ← call_engine (timed host E "transcribe_probe" started' (some (pos 0)))
    note phase'
    metrics ← call_engine (quality_metrics q transcript.text)
    set_metrics metrics

  unfoldable pub probe_audio : WorkerRequest → Exec Raised (Probe E.State) (Unit {0})
  unfolding note run_probe probe_segment
  probe_audio q = elim q.audio_file [
    | none ↦ note (untimed "warmup" "not_run") >> note (untimed "transcribe_probe" "not_run")
    | some file ↦ elim (new_segment (probe_segment host file q.duration_seconds)) [
      | err e ↦ raise e
      | ok segment ↦ run_probe q segment
    ]
  ]

  -- The block of `try`.
  unfoldable pub try_worker_v1 : WorkerRequest → Exec Raised (Probe E.State) (Unit {0})
  unfolding load_probe probe_audio
  try_worker_v1 q = load_probe q >> probe_audio q

  -- The `try` statement, of what is raised in its block.
  unfoldable pub progress_v1 : WorkerRequest → Exec Raised (Probe E.State) (Unit {0})
  unfolding finally_do run_failed close_engine on_progress
  progress_v1 q p =
      let (r, p') = try_worker_v1 q p in
      on_progress (finally_do (catch (λ g. (r, g)) run_failed) (close_engine host E)) p'

  -- What follows the `try` statement.
  unfoldable pub result_v1_of : WorkerRequest → Probe E.State → Result Raised WorkerResult
  result_v1_of q p =
      elim (raised_of
        (evidence_to_json (unverified_evidence q.nonce "qualified_monitor_not_configured"))) [
          | err e ↦ err e
          | ok evidence ↦ ok (record {
            nonce = q.nonce;
            package_id = q.package_id;
            candidate_id = q.candidate_id;
            backend = q.backend;
            worker_status = p.progress.status;
            phases = p.progress.phases;
            quality_metrics = p.quality_metrics;
            offline_evidence = evidence;
          })
        ]

  unfoldable pub run_worker_v1 : WorkerRequest → Exec Raised E.State WorkerResult
  unfolding progress_v1 result_v1_of
  run_worker_v1 q s =
      let (r, p) = progress_v1 q (record { progress = start_progress s; quality_metrics = [] }) in
      elim r [ ok u ↦ (result_v1_of q p, p.progress.state) | err e ↦ (err e, p.progress.state) ]
