-- ===== src/Benchmark/Engines.antt =====
-- What benchmarks/asr/benchmark_worker.py uses of the engines: the protocol `AsrEngine` of
-- src/nadikt/domain/ports/asr.py, which both engines of Asr implement, and `_engine_from_request`.
use nadikt.Base.{String, Bool, false, Option, none, some, List, [], ◌∷◌, map, if◌then◌else◌, str_eq}
use nadikt.Base.Result.{Result, ok, err, ◌>>=◌}
use nadikt.Base.Exec.{Exec}
use nadikt.Base.Int.{ℤ, pos}
use nadikt.Base.Json.{Value, str, float, Float, decimal, Fields, end, get, truthy}
use nadikt.Protocol.Python.{Python, Error, iterate, to_str, to_float, value_error as py_value_error}
use nadikt.Asr.Ports.{
  AsrBackend, gigaam, faster_whisper, tone, other_local, AsrFailureCode, Raised, value_error,
  exception, AsrCapabilities, new_capabilities, AsrModelMetadata, AsrLoadOptions, AsrSegmentInput,
  AsrSegmentTranscript,
}
use nadikt.Asr.Engine.{Sdk, State, close, is_ready}
use nadikt.Asr.Gigaam.{GigaamSdk, load, warm_up, transcribe_segment}
use nadikt.Asr.Whisper
use nadikt.Asr.Whisper.{WhisperSdk}

-- The methods of an engine that the worker calls, without an observer. `State` is the engine with
-- the world around it, and `create` its constructor.
pub record AsrEngine (World : Type 0) : Type 1 where
  pub State : Type 0
  pub create : AsrModelMetadata → World → State
  pub world : State → World
  pub load : AsrLoadOptions → Exec Raised State (Unit {0})
  pub is_ready : State → Bool
  pub warm_up : AsrSegmentInput → Exec Raised State (Unit {0})
  pub transcribe_segment : AsrSegmentInput → Exec Raised State AsrSegmentTranscript
  pub close : Exec Raised State (Unit {0})

module _ {S : Sdk} where
  -- `GigaAMAsrEngine(metadata)`
  abbrev pub gigaam_engine : GigaamSdk S → AsrEngine S.World
  gigaam_engine sdk = record {
    State = State S (Option String);
    create = λ metadata w. record {
      engine = record {
        metadata = metadata;
        model = none;
        options = none;
        cancel_requested = false;
      };
      world = w;
    };
    world = λ s. s.world;
    load = load sdk;
    is_ready = is_ready;
    warm_up = λ segment. warm_up sdk segment none;
    transcribe_segment = λ segment. transcribe_segment sdk segment none;
    close = close;
  }

  -- `FasterWhisperAsrEngine(metadata)`
  abbrev pub whisper_engine : Python → WhisperSdk S → AsrEngine S.World
  whisper_engine py sdk = record {
    State = State S Fields;
    create = λ metadata w. record {
      engine = record {
        metadata = metadata;
        model = none;
        options = end;
        cancel_requested = false;
      };
      world = w;
    };
    world = λ s. s.world;
    load = Whisper.load sdk;
    is_ready = is_ready;
    warm_up = λ segment. Whisper.warm_up py sdk segment none;
    transcribe_segment = λ segment. Whisper.transcribe_segment py sdk segment none;
    close = close;
  }

-- `AsrBackend(value)`
unfoldable pub backend_of : String → Result Raised AsrBackend
backend_of value =
    if str_eq value "gigaam"
    then ok gigaam
    else if str_eq value "faster-whisper"
    then ok faster_whisper
    else if str_eq value "tone"
    then ok tone
    else if str_eq value "other-local"
    then ok other_local
    else err (value_error "AsrBackend")

-- `AsrFailureCode.value`
unfoldable pub code_value : AsrFailureCode → String
code_value AsrFailureCode.missing_package = "missing_package"
code_value AsrFailureCode.invalid_package_path = "invalid_package_path"
code_value AsrFailureCode.checksum_mismatch = "checksum_mismatch"
code_value AsrFailureCode.missing_critical_file = "missing_critical_file"
code_value AsrFailureCode.incompatible_backend = "incompatible_backend"
code_value AsrFailureCode.license_not_verified = "license_not_verified"
code_value AsrFailureCode.engine_not_ready = "engine_not_ready"
code_value AsrFailureCode.segment_too_long = "segment_too_long"
code_value AsrFailureCode.cancelled = "cancelled"
code_value AsrFailureCode.transcribe_failed = "transcribe_failed"
code_value AsrFailureCode.warm_up_failed = "warm_up_failed"
code_value AsrFailureCode.resource_release_failed = "resource_release_failed"

-- A `ValueError` of the parsers, or another exception.
unfoldable pub raised_of : {R : Type 0} → Result Error R → Result Raised R
raised_of (ok r) = ok r
raised_of (err (py_value_error message)) = err (value_error message)
raised_of (err _) = err exception

-- What the requests of both versions say of the engine.
pub record EngineRequest : Type 0 where
  pub package_id : String
  pub candidate_id : String
  pub backend : String
  pub inference_defaults : Fields
  pub capabilities : Fields
  pub critical_checksum_prefixes : List String

-- `fields.get(key) or default`, where the default is given as a value.
unfoldable pub get_or_else : Fields → String → Value → Value
get_or_else fs key default = elim (get fs key) [
  | none ↦ default
  | some v ↦ if truthy v then v else default
]

-- `bool(fields.get(key, False))`
unfoldable pub flag : Fields → String → Bool
flag fs key = elim (get fs key) [ none ↦ false | some v ↦ truthy v ]

-- `milliseconds` reads a float of seconds.
module _ (py : Python) (milliseconds : Float → ℤ) where
  -- `fields.get("languages", ("ru",))`, each as a text.
  unfoldable pub languages_of : Fields → Result Error (List String)
  languages_of fs = elim (get fs "languages") [
    | none ↦ ok ("ru" ∷ [])
    | some v ↦ do items ← iterate v; ok (map (to_str py) items)
  ]

  unfoldable pub capabilities_of : Fields → Result Raised AsrCapabilities
  unfolding flag
  capabilities_of fs = do
    languages ← raised_of (languages_of fs)
    max_segment ←
        raised_of (to_float py (get_or_else fs "max_segment_seconds" (float (decimal (pos 25) 0))))
    new_capabilities (record {
      languages = languages;
      max_segment_ms = milliseconds max_segment;
      punctuation = flag fs "punctuation";
      streaming = flag fs "streaming";
      word_timestamps = flag fs "word_timestamps";
    })

  -- The metadata of `_engine_from_request`.
  unfoldable pub metadata_from_request : EngineRequest → Result Raised AsrModelMetadata
  metadata_from_request q = do
    backend ← backend_of q.backend
    capabilities ← capabilities_of q.capabilities
    ok (record {
      package_id = q.package_id;
      candidate_id = q.candidate_id;
      backend = backend;
      model_name = q.candidate_id;
      model_revision = "worker-request";
      backend_version =
          to_str py (get_or_else q.inference_defaults "backend_version" (str "benchmark-lock"));
      license_marker = "approved";
      capabilities = capabilities;
      checksum_prefixes = q.critical_checksum_prefixes;
    })
