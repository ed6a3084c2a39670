-- ===== src/Protocol/Messages.antt =====
-- The messages of benchmarks/asr/worker_protocol.py.
use nadikt.Base.{ℕ, ◌*◌, String, Bool, Option, List, [], ◌∷◌, contains}
use nadikt.Base.Int.{ℤ}
use nadikt.Base.Json.{Float, Fields}

abbrev pub protocol_version : ℕ
protocol_version = 1

abbrev pub protocol_version_v2 : ℕ
protocol_version_v2 = 2

abbrev pub max_message_bytes : ℕ
max_message_bytes = 128 * 1024

unfoldable pub is_worker_status : String → Bool
is_worker_status = contains ("success" ∷ "fail" ∷ "not_run" ∷ "protocol_error" ∷ [])

unfoldable pub is_supervisor_outcome : String → Bool
is_supervisor_outcome = contains (
    "completed" ∷ "timeout" ∷ "terminated" ∷ "killed" ∷ "protocol_error" ∷ "privacy_error"
    ∷ "spawn_error" ∷ "nonzero_exit" ∷ [])

unfoldable pub is_phase_outcome : String → Bool
is_phase_outcome = contains (
    "success" ∷ "fail" ∷ "not_run" ∷ "readiness_failed" ∷ "protocol_error" ∷ "unsupported_backend"
    ∷ "missing_package" ∷ "invalid_package_path" ∷ "checksum_mismatch" ∷ "missing_critical_file"
    ∷ "incompatible_backend" ∷ "license_not_verified" ∷ "engine_not_ready" ∷ "segment_too_long"
    ∷ "cancelled" ∷ "transcribe_failed" ∷ "warm_up_failed" ∷ "resource_release_failed" ∷ [])

unfoldable pub is_sample_outcome : String → Bool
is_sample_outcome = contains ("success" ∷ "fail" ∷ "not_run" ∷ "skipped" ∷ [])

unfoldable pub is_repeat_outcome : String → Bool
is_repeat_outcome = contains ("success" ∷ "fail" ∷ "not_run" ∷ [])

abbrev pub safe_result_keys : List String
safe_result_keys =
    "schema_version" ∷ "nonce" ∷ "package_id" ∷ "candidate_id" ∷ "backend" ∷ "worker_status"
    ∷ "phases" ∷ "quality_metrics" ∷ "offline_evidence" ∷ []

abbrev pub safe_phase_keys : List String
safe_phase_keys = "phase" ∷ "outcome" ∷ "duration_ms" ∷ "segment_id" ∷ []

abbrev pub safe_request_v2_keys : List String
safe_request_v2_keys =
    "schema_version" ∷ "nonce" ∷ "package_id" ∷ "candidate_id" ∷ "backend" ∷ "package_dir"
    ∷ "capabilities" ∷ "inference_defaults" ∷ "critical_checksum_prefixes" ∷ "repeat" ∷ []

abbrev pub safe_repeat_request_keys : List String
safe_repeat_request_keys = "repeat_index" ∷ "warmup_sample" ∷ "scored_samples" ∷ []

abbrev pub safe_sample_request_keys : List String
safe_sample_request_keys =
    "sample_id" ∷ "category" ∷ "audio_file" ∷ "reference_file" ∷ "duration_seconds" ∷ "scored"
    ∷ "expected_english_terms" ∷ "expected_coding_terms" ∷ []

abbrev pub safe_result_v2_keys : List String
safe_result_v2_keys =
    "schema_version" ∷ "nonce" ∷ "package_id" ∷ "candidate_id" ∷ "backend" ∷ "worker_status"
    ∷ "repeat" ∷ []

abbrev pub safe_repeat_outcome_keys : List String
safe_repeat_outcome_keys = "repeat_index" ∷ "outcome" ∷ "phases" ∷ "samples" ∷ []

abbrev pub safe_sample_outcome_keys : List String
safe_sample_outcome_keys =
    "sample_id" ∷ "category" ∷ "scored" ∷ "outcome" ∷ "phases" ∷ "metrics" ∷ "metric_diagnostics"
    ∷ []

abbrev pub safe_metric_keys : List String
safe_metric_keys =
    "metric_name" ∷ "metric_version" ∷ "value" ∷ "numerator" ∷ "denominator" ∷ "status" ∷ []

abbrev pub safe_metric_diagnostic_keys : List String
safe_metric_diagnostic_keys =
    "sample_id" ∷ "category" ∷ "metric_name" ∷ "view" ∷ "status" ∷ "numerator" ∷ "denominator"
    ∷ "reason_code" ∷ "count" ∷ []

pub record WorkerSampleRequest : Type 0 where
  pub sample_id : String
  pub category : String
  pub audio_file : String
  pub reference_file : Option String
  pub duration_seconds : Float
  pub scored : Bool
  pub expected_english_terms : List String
  pub expected_coding_terms : List Fields

pub record WorkerRepeatRequest : Type 0 where
  pub repeat_index : ℤ
  pub warmup_sample : WorkerSampleRequest
  pub scored_samples : List WorkerSampleRequest

pub record WorkerRequestV2 : Type 0 where
  pub nonce : String
  pub package_id : String
  pub candidate_id : String
  pub backend : String
  pub package_dir : String
  pub capabilities : Fields
  pub inference_defaults : Fields
  pub repeat : WorkerRepeatRequest
  pub critical_checksum_prefixes : List String

pub record WorkerPhase : Type 0 where
  pub phase : String
  pub outcome : String
  pub duration_ms : Float
  pub segment_id : Option ℤ

pub record WorkerMetricResult : Type 0 where
  pub metric_name : String
  pub metric_version : String
  pub value : Float
  pub numerator : ℤ
  pub denominator : ℤ
  pub status : String

pub record WorkerMetricDiagnostic : Type 0 where
  pub sample_id : String
  pub category : String
  pub metric_name : String
  pub view : String
  pub status : String
  pub numerator : ℤ
  pub denominator : ℤ
  pub reason_code : String
  pub count : ℤ

pub record WorkerSampleOutcome : Type 0 where
  pub sample_id : String
  pub category : String
  pub scored : Bool
  pub outcome : String
  pub phases : List WorkerPhase
  pub metrics : List WorkerMetricResult
  pub metric_diagnostics : List WorkerMetricDiagnostic

pub record WorkerRepeatOutcome : Type 0 where
  pub repeat_index : ℤ
  pub outcome : String
  pub phases : List WorkerPhase
  pub samples : List WorkerSampleOutcome

pub record WorkerResultV2 : Type 0 where
  pub nonce : String
  pub package_id : String
  pub candidate_id : String
  pub backend : String
  pub worker_status : String
  pub repeat : WorkerRepeatOutcome
