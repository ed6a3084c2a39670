-- ===== src/Asr/Tests.antt =====
-- The engines with an SDK of fixed answers, and their theorems there.
use nadikt.Base.{ℕ, ◌+◌, String, true, false, Option, none, some, [], ◌∷◌, ◌≡◌}
use nadikt.Base.Result.{ok, err}
use nadikt.Base.Int.{pos}
use nadikt.Base.Json.{Fields, field, end, int, null}
use nadikt.Protocol.Python.{Python}
use nadikt.Asr.Ports.{
  AsrFailureCode, Raised, exception, engine_error, AsrBackend, AsrModelMetadata, AsrLoadOptions,
  dict, AsrSegmentInput,
}
use nadikt.Asr.Engine.{Sdk, State}
use nadikt.Asr.Gigaam
use nadikt.Asr.Gigaam.{GigaamSdk}
use nadikt.Asr.Whisper
use nadikt.Asr.Whisper.{WhisperSdk}
use nadikt.Asr.Loading.{IsLoaded, IsRenewed, engines_load}
use nadikt.Asr.Raising.{is_typed, is_warm_up_error, engines_raise}

-- The world counts the calls; a model's release fails.
abbrev counting : Sdk
counting = record {
  World = ℕ;
  Model = String;
  monotonic = λ w. w;
  is_dir = λ path w. true;
  close_model = λ m. some (λ w. (err exception, w + 1));
}

abbrev gigaam_sdk : GigaamSdk counting
gigaam_sdk = record {
  Module = Unit;
  is_file = λ dir name w. true;
  module_loader = λ w. (ok tt, w + 1);
  load_model = λ m. some (λ name dir w. (ok name, w + 1));
  transcribe = λ m path w. (ok " heard ", w + 1);
}

abbrev whisper_sdk : WhisperSdk counting
whisper_sdk = record {
  ModelClass = Unit;
  whisper_model_cls = λ w. (ok tt, w + 1);
  new_model = λ c dir threads w. (err exception, w + 1);
  transcribe = λ m path beam language vad w.
      (ok ((λ v. (ok "a", v + 1)) ∷ (λ v. (err exception, v + 1)) ∷ []), w + 1);
}

abbrev python : Python
python = record {
  render = λ v. "?";
  parse_int = λ s. none;
  parse_float = λ s. none;
  round_3 = λ x. x;
  normal_path = λ p. p;
  json_dumps = λ v. "{}";
  json_loads = λ s. some null;
}

abbrev metadata : AsrModelMetadata
metadata = record {
  package_id = "p";
  candidate_id = "gigaam-v3-e2e-ctc";
  backend = AsrBackend.gigaam;
  model_name = "m";
  model_revision = "r";
  backend_version = "1";
  license_marker = "mit";
  capabilities = record {
    languages = "ru" ∷ [];
    max_segment_ms = pos 30000;
    punctuation = true;
    streaming = false;
    word_timestamps = false;
  };
  checksum_prefixes = [];
}

abbrev engine_with : {O : Type 0} → O → Option String → State counting O
engine_with o m = record {
  engine = record { metadata = metadata; model = m; options = o; cancel_requested = false };
  world = 0;
}

abbrev segment : AsrSegmentInput
segment = record {
  sample_id = "s";
  segment_id = pos 0;
  audio_path = "a.wav";
  start_ms = pos 0;
  end_ms = pos 20000;
  language_profile = "ru-en";
  segmentation_policy_id = "x";
}

abbrev options : AsrLoadOptions
options = record {
  local_package_path = "/models/p";
  inference_defaults = dict (field "cpu_threads" (int (pos 4)) end);
}

abbrev gigaam_engine : State counting (Option String)
gigaam_engine = engine_with none (some "old")

abbrev whisper_engine : State counting Fields
whisper_engine = engine_with end (some "old")

engines_load_example :
    IsLoaded gigaam_engine.engine (Gigaam.load gigaam_sdk options gigaam_engine)
    × IsRenewed whisper_engine.engine
        (Whisper.mapping_fields options.inference_defaults)
        (Whisper.load whisper_sdk options whisper_engine)
engines_load_example = engines_load gigaam_sdk whisper_sdk options gigaam_engine whisper_engine

-- The iterator of this SDK raises at its second step.
abbrev broken : Raised
broken = engine_error (record {
  code = AsrFailureCode.transcribe_failed;
  phase = "transcribe";
  recoverable = true;
  retryable = false;
})

engines_raise_example :
    (((Gigaam.transcribe_segment gigaam_sdk segment none gigaam_engine).0 ≡ err broken
        → is_typed broken ≡ true)
      × ((Gigaam.warm_up gigaam_sdk segment none gigaam_engine).0 ≡ err broken
          → is_warm_up_error broken ≡ true))
    × (((Whisper.transcribe_segment python whisper_sdk segment none whisper_engine).0 ≡ err broken
          → is_typed broken ≡ true)
        × ((Whisper.warm_up python whisper_sdk segment none whisper_engine).0 ≡ err broken
            → is_warm_up_error broken ≡ true))
engines_raise_example =
    engines_raise gigaam_sdk python whisper_sdk segment gigaam_engine whisper_engine broken
