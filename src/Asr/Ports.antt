-- ===== src/Asr/Ports.antt =====
-- src/nadikt/domain/ports/asr.py: the contract of the ASR engines. Seconds are whole milliseconds.
use nadikt.Base.{ℕ, String, Bool, Option, none, some, List, map, if◌then◌else◌}
use nadikt.Base.Result.{Result, ok, err}
use nadikt.Base.Int.{ℤ, pos, ◌-ℤ◌, lt_ℤ, is_negative}
use nadikt.Base.Json.{Float, null, int, str, arr, Fields, field, end, from_list}

pub data AsrBackend : Type 0 where
  gigaam faster_whisper tone other_local : AsrBackend

-- `AsrBackend.value`
unfoldable pub backend_value : AsrBackend → String
backend_value gigaam = "gigaam"
backend_value faster_whisper = "faster-whisper"
backend_value tone = "tone"
backend_value other_local = "other-local"

pub data AsrFailureCode : Type 0 where
  missing_package invalid_package_path checksum_mismatch missing_critical_file : AsrFailureCode
  incompatible_backend license_not_verified engine_not_ready segment_too_long : AsrFailureCode
  cancelled transcribe_failed warm_up_failed resource_release_failed : AsrFailureCode

pub record AsrFailure : Type 0 where
  pub code : AsrFailureCode
  pub phase : String
  pub recoverable : Bool
  pub retryable : Bool

-- What a method raises: `AsrEngineError`, `ValueError`, `ImportError`, `AttributeError`, another
-- `Exception`, or a `BaseException` that is none.
pub data Raised : Type 0 where
  engine_error : AsrFailure → Raised
  value_error : String → Raised
  import_error attribute_error exception interrupt : Raised

pub record AsrCapabilities : Type 0 where
  pub languages : List String
  pub max_segment_ms : ℤ
  pub punctuation : Bool
  pub streaming : Bool
  pub word_timestamps : Bool

-- `AsrCapabilities.__post_init__`
unfoldable pub new_capabilities : AsrCapabilities → Result Raised AsrCapabilities
new_capabilities c =
    if lt_ℤ (pos 0) c.max_segment_ms
    then ok c
    else err (value_error "max_segment_seconds must be positive")

pub record AsrModelMetadata : Type 0 where
  pub package_id : String
  pub candidate_id : String
  pub backend : AsrBackend
  pub model_name : String
  pub model_revision : String
  pub backend_version : String
  pub license_marker : String
  pub capabilities : AsrCapabilities
  pub checksum_prefixes : List String

-- A `Mapping`, which is a `dict` or not.
pub data Mapping : Type 0 where
  dict other_mapping : Fields → Mapping

pub record AsrLoadOptions : Type 0 where
  pub local_package_path : String
  pub inference_defaults : Mapping

pub record AsrSegmentInput : Type 0 where
  pub sample_id : String
  pub segment_id : ℤ
  pub audio_path : String
  pub start_ms : ℤ
  pub end_ms : ℤ
  pub language_profile : String
  pub segmentation_policy_id : String

-- `duration_seconds`
unfoldable pub duration_ms : AsrSegmentInput → ℤ
duration_ms s = s.end_ms -ℤ s.start_ms

-- `AsrSegmentInput.__post_init__`
unfoldable pub new_segment : AsrSegmentInput → Result Raised AsrSegmentInput
new_segment s =
    if is_negative s.segment_id
    then err (value_error "segment_id must be non-negative")
    else if is_negative s.start_ms
    then err (value_error "start_seconds must be non-negative")
    else if lt_ℤ s.start_ms s.end_ms
    then ok s
    else err (value_error "end_seconds must be greater than start_seconds")

pub record AsrSegmentTranscript : Type 0 where
  pub segment_id : ℤ
  pub text : String
  pub start_ms : ℤ
  pub end_ms : ℤ
  pub confidence : Option Float

pub record AsrTimingEvent : Type 0 where
  pub phase : String
  pub duration_ms : ℕ
  pub package_id : String
  pub segment_id : Option ℤ
  pub outcome : String

unfoldable pub safe_engine_log_context : AsrModelMetadata → Fields
unfolding backend_value
safe_engine_log_context m = field "package_id" (str m.package_id) (
    field "candidate_id" (str m.candidate_id) (
      field "backend" (str (backend_value m.backend)) (
        field "model_revision" (str m.model_revision)
          (field "checksum_prefixes" (arr (from_list (map str m.checksum_prefixes))) end))))

unfoldable pub safe_timing_log_context : AsrTimingEvent → Fields
safe_timing_log_context e = field "phase" (str e.phase) (
    field "duration_ms" (int (pos e.duration_ms)) (
      field "package_id" (str e.package_id) (
        field "segment_id" (elim e.segment_id [ none ↦ null | some id ↦ int id ])
          (field "outcome" (str e.outcome) end))))

unfoldable pub ensure_segment_within_capabilities :
    AsrSegmentInput → AsrCapabilities → Result Raised (Unit {0})
unfolding duration_ms
ensure_segment_within_capabilities segment c =
    if lt_ℤ c.max_segment_ms (duration_ms segment)
    then err (value_error "segment_too_long")
    else ok tt
