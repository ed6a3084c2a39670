-- ===== src/Asr/Whisper.antt =====
-- src/nadikt/infrastructure/asr/faster_whisper.py: the engine of faster-whisper.
use nadikt.Base.{
  ℕ, String, Bool, true, false, not, ◌||◌, Option, none, some, List, [], ◌∷◌, if◌then◌else◌, any_of,
}
use Prim.Native.String.{◌++◌}
use nadikt.Base.Result.{Result, ok, err}
use nadikt.Base.Exec.{Exec, pure, raise, catch, ◌>>=◌, ◌>>◌}
use nadikt.Base.Int.{ℤ, pos, lt_ℤ}
use nadikt.Base.Json.{int, bool, Fields, get, truthy}
use nadikt.Base.Texts.{strip, lower_is, lower_starts_with, starts_with}
use nadikt.Protocol.Python.{Python, Error, to_int}
use nadikt.Asr.Ports.{
  AsrFailureCode, Raised, attribute_error, exception, Mapping, dict, other_mapping, AsrLoadOptions,
  AsrSegmentInput, AsrSegmentTranscript, ensure_segment_within_capabilities,
}
use nadikt.Asr.Engine.{
  Sdk, M, Observer, call, fail, lift, catch_exception, record_event, set_model, set_options,
  set_cancel_requested, warm_up_by, import_failed,
}

-- `dict(options.inference_defaults)`
unfoldable pub mapping_fields : Mapping → Fields
mapping_fields (dict fs) = fs
mapping_fields (other_mapping fs) = fs

-- `_looks_like_hub_identifier`
unfoldable pub looks_like_hub_identifier : String → Bool
unfolding strip lower_is lower_starts_with
looks_like_hub_identifier value =
    any_of (lower_is (strip value))
      ("tiny" ∷ "base" ∷ "small" ∷ "medium" ∷ "large" ∷ "large-v2" ∷ "large-v3" ∷ [])
    || lower_starts_with (strip value) "openai/"
    || lower_starts_with (strip value) "systran/"

-- `_language_argument`
unfoldable pub language_argument : String → Option String
unfolding starts_with
language_argument profile = if starts_with profile "ru" then some "ru" else none

-- The keyword `cpu_threads` of the constructor: `True` is the integer 1.
unfoldable pub cpu_threads : Fields → Option ℤ
cpu_threads fs = elim (get fs "cpu_threads") [
  | some (int n) ↦ if lt_ℤ (pos 0) n then some n else none
  | some (bool true) ↦ some (pos 1)
  | _ ↦ none
]

-- `bool(defaults.get("vad_filter", False))`
unfoldable pub vad_filter : Fields → Bool
vad_filter fs = elim (get fs "vad_filter") [ none ↦ false | some v ↦ truthy v ]

-- The class `WhisperModel` and its models. The segments of a transcription are an iterator: the
-- list of its steps, each of which gives a segment's text or raises.
pub record WhisperSdk (S : Sdk) : Type 1 where
  pub ModelClass : Type 0
  pub whisper_model_cls : Exec Raised S.World ModelClass
  pub new_model : ModelClass → String → Option ℤ → Exec Raised S.World S.Model
  pub transcribe :
      S.Model
      → String
      → (beam_size : ℤ) → (language : Option String) → (vad_filter : Bool)
      → Exec Raised S.World (List (Exec Raised S.World String))

module _ {S : Sdk} where
  -- The handler of `except (AttributeError, ImportError)`.
  unfoldable pub class_failed : {R : Type 0} → Raised → M S Fields R
  unfolding fail import_failed
  class_failed attribute_error = fail AsrFailureCode.incompatible_backend "backend_availability"
  class_failed e = import_failed e

  -- A failing `int` raises `ValueError`, `TypeError` or `OverflowError`.
  abbrev pub as_int : Result Error ℤ → M S Fields ℤ
  as_int (ok n) = pure n
  as_int (err e) = raise exception

  -- The loop over the segments, whose texts are joined.
  unfoldable pub join_segments :
      AsrSegmentInput
      → Observer S
      → ℕ
      → (first_seen : Bool) → List (Exec Raised S.World String)
      → M S Fields String
  unfolding call record_event
  join_segments segment observer started first_seen [] = pure ""
  join_segments segment observer started first_seen (step ∷ steps) = do
    text ← call step
    if first_seen
        then pure tt
        else record_event observer "first_result" started (some segment.segment_id)
    rest ← join_segments segment observer started true steps
    pure (text ++ rest)

module _ {S : Sdk} (sdk : WhisperSdk S) where
  unfoldable pub new_whisper_model : sdk.ModelClass → String → M S Fields (Unit {0})
  unfolding call catch_exception set_model fail cpu_threads
  new_whisper_model model_cls package_dir s =
      catch_exception
        (do
          model ← call (sdk.new_model model_cls package_dir (cpu_threads s.engine.options))
          set_model (some model))
        (fail AsrFailureCode.transcribe_failed "load") s

  unfoldable pub load_directory : String → M S Fields (Unit {0})
  unfolding call fail class_failed new_whisper_model
  load_directory package_dir s =
      (if not (S.is_dir package_dir s.world)
          then fail AsrFailureCode.missing_package "load"
          else (do
            model_cls ← catch (call sdk.whisper_model_cls) class_failed
            new_whisper_model model_cls package_dir))
        s

  unfoldable pub load : AsrLoadOptions → M S Fields (Unit {0})
  unfolding fail set_options mapping_fields looks_like_hub_identifier load_directory
  load options = do
    set_options (mapping_fields options.inference_defaults)
    if looks_like_hub_identifier options.local_package_path
        then fail AsrFailureCode.invalid_package_path "load"
        else load_directory options.local_package_path

module _ {S : Sdk} (py : Python) (sdk : WhisperSdk S) where
  -- `int(defaults.get("beam_size") or 5)`
  unfoldable pub beam_size : Fields → M S Fields ℤ
  unfolding to_int
  beam_size fs = elim (get fs "beam_size") [
    | none ↦ pure (pos 5)
    | some v ↦ if truthy v then as_int (to_int py v) else pure (pos 5)
  ]

  unfoldable pub run_model :
      S.Model → AsrSegmentInput → Observer S → ℕ → M S Fields AsrSegmentTranscript
  unfolding call catch_exception fail record_event beam_size language_argument vad_filter
      join_segments
  run_model model segment observer started s =
      (do
        text ←
            catch_exception
              (do
                beam ← beam_size s.engine.options
                steps ← call (
                    sdk.transcribe model segment.audio_path beam
                      (language_argument segment.language_profile) (vad_filter s.engine.options))
                join_segments segment observer started false steps)
              (fail AsrFailureCode.transcribe_failed "transcribe")
        record_event observer "transcribe_done" started (some segment.segment_id)
        pure (record {
          segment_id = segment.segment_id;
          text = strip text;
          start_ms = segment.start_ms;
          end_ms = segment.end_ms;
          confidence = none;
        }))
        s

  -- The guards of a ready engine.
  unfoldable pub transcribe_with :
      S.Model → AsrSegmentInput → Observer S → M S Fields AsrSegmentTranscript
  unfolding fail lift set_cancel_requested run_model
  transcribe_with model segment observer s =
      (do
        lift (ensure_segment_within_capabilities segment s.engine.metadata.capabilities)
        if s.engine.cancel_requested
            then set_cancel_requested false >> fail AsrFailureCode.cancelled "transcribe"
            else run_model model segment observer (S.monotonic s.world))
        s

  unfoldable pub transcribe_segment : AsrSegmentInput → Observer S → M S Fields AsrSegmentTranscript
  unfolding fail transcribe_with
  transcribe_segment segment observer s = elim s.engine.model [
    | none ↦ fail AsrFailureCode.engine_not_ready "transcribe" s
    | some model ↦ transcribe_with model segment observer s
  ]

  unfoldable pub warm_up : AsrSegmentInput → Observer S → M S Fields (Unit {0})
  unfolding transcribe_segment warm_up_by
  warm_up = warm_up_by transcribe_segment
