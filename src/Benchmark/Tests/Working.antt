-- ===== src/Benchmark/Tests/Working.antt =====
-- The worker with engines of fixed answers, and its theorems there.
use nadikt.Base.{ℕ, ◌+◌, String, true, false, Option, none, some, [], ◌∷◌, ◌≡◌, refl}
use nadikt.Base.Result.{ok}
use nadikt.Base.Int.{pos}
use nadikt.Base.Json.{decimal, Fields, null}
use nadikt.Base.Texts.{strip, lower_is, lower_starts_with}
use nadikt.Protocol.Python.{Python}
use nadikt.Protocol.Messages.{WorkerResultV2}
use nadikt.Protocol.Versions.{is_ok}
use nadikt.Asr.Ports.{AsrBackend, AsrModelMetadata, new_segment}
use nadikt.Asr.Engine.{Sdk, State, is_ready, call, fail, catch_exception, set_model, set_options}
use nadikt.Asr.Gigaam
use nadikt.Asr.Gigaam.{GigaamSdk}
use nadikt.Asr.Whisper
use nadikt.Asr.Whisper.{WhisperSdk}
use nadikt.Quality.Equality.{eq_char, eq_text}
use nadikt.Benchmark.Engines.{gigaam_engine, whisper_engine, code_value, raised_of}
use nadikt.Benchmark.Wire.{loads_any_request}
use nadikt.Benchmark.Worker.Main.{main}
use nadikt.Benchmark.Worker.Replying.{Writes, read, main-Writes}
use nadikt.Benchmark.Worker.Sampling.{
  run_sample, run_segment, segment_of, score_sample, warm_sample, sample_failed, sample_outcome,
  started_at, timed, results_of, quality_metric_results, to_worker_metric,
}
use nadikt.Benchmark.Worker.Measures.{timed_phase, untimed, failed_phase, worker_metric_diagnostics}
use nadikt.Benchmark.Worker.Repeat.{
  run_worker_v2, progress_v2, try_worker_v2, load_engine, run_repeat, run_one, run_scored,
  result_v2_of, finally_do, close_engine, close_failed, run_failed, on_engine, add_phase,
  add_sample, set_fail, load_options,
}
use nadikt.Benchmark.Worker.Running.{Answered, run_worker_v2-Answered, run_worker_v2-released}
use nadikt.Benchmark.Worker.Escaping.{IsOverlong, run_worker_v2_overlong}
use nadikt.Benchmark.Tests.Runs.{host, cold, request, success_phase, heard}

-- The warm-up fails, and the two samples are heard all the same.
abbrev told : WorkerResultV2
told = record {
  nonce = "n";
  package_id = "p";
  candidate_id = "gigaam-v3-e2e-ctc";
  backend = "gigaam";
  worker_status = "fail";
  repeat = record {
    repeat_index = pos 1;
    outcome = "fail";
    phases =
        success_phase "load" 1 none
        ∷ success_phase "readiness" 0 none
        ∷ success_phase "close" 0 none
        ∷ [];
    samples =
        record {
          sample_id = "s";
          category = "c";
          scored = false;
          outcome = "fail";
          phases =
              record {
                phase = "warm_up";
                outcome = "warm_up_failed";
                duration_ms = decimal (pos 0) 0;
                segment_id = none;
              }
              ∷ [];
          metrics = [];
          metric_diagnostics = [];
        }
        ∷ heard
        ∷ heard
        ∷ [];
  };
}

told_run : (run_worker_v2 host cold (request 5) 0).0 ≡ ok told
unfolding run_worker_v2 progress_v2 try_worker_v2 load_engine run_repeat run_one run_scored
    result_v2_of finally_do close_engine close_failed run_failed on_engine add_phase add_sample
    set_fail run_sample run_segment segment_of score_sample warm_sample sample_failed sample_outcome
    started_at timed timed_phase untimed failed_phase results_of quality_metric_results
    to_worker_metric worker_metric_diagnostics code_value new_segment
told_run = refl

run_worker_v2-Answered_example : Answered (request 5) (run_worker_v2 host cold (request 5) 0).0
run_worker_v2-Answered_example = run_worker_v2-Answered host cold (request 5) 0

-- An SDK whose calls succeed, and count.
abbrev quiet : Sdk
quiet = record {
  World = ℕ;
  Model = String;
  monotonic = λ w. w;
  is_dir = λ path w. true;
  close_model = λ m. none;
}

abbrev gigaam_sdk : GigaamSdk quiet
gigaam_sdk = record {
  Module = Unit;
  is_file = λ dir name w. true;
  module_loader = λ w. (ok tt, w + 1);
  load_model = λ m. some (λ name dir w. (ok name, w + 1));
  transcribe = λ m path w. (ok " heard ", w + 1);
}

abbrev whisper_sdk : WhisperSdk quiet
whisper_sdk = record {
  ModelClass = Unit;
  whisper_model_cls = λ w. (ok tt, w + 1);
  new_model = λ c dir threads w. (ok dir, w + 1);
  transcribe = λ m path beam language vad w. (ok ((λ v. (ok "a", v + 1)) ∷ []), w + 1);
}

abbrev python : Python
python = record {
  render = λ v. "?";
  parse_int = λ s. none;
  parse_float = λ s. none;
  round_3 = λ x. x;
  normal_path = λ p. p;
  json_dumps = λ v. "{}";
  json_loads = λ s. some null;
}

abbrev metadata : AsrModelMetadata
metadata = record {
  package_id = "p";
  candidate_id = "gigaam-v3-e2e-ctc";
  backend = AsrBackend.gigaam;
  model_name = "m";
  model_revision = "r";
  backend_version = "1";
  license_marker = "mit";
  capabilities = record {
    languages = "ru" ∷ [];
    max_segment_ms = pos 30000;
    punctuation = true;
    streaming = false;
    word_timestamps = false;
  };
  checksum_prefixes = [];
}

abbrev gigaam_new : State quiet (Option String)
gigaam_new = (gigaam_engine gigaam_sdk).create metadata 0

abbrev whisper_new : State quiet Fields
whisper_new = (whisper_engine python whisper_sdk).create metadata 0

run_worker_v2-released_example :
    (is_ready (run_worker_v2 host (gigaam_engine gigaam_sdk) (request 5) gigaam_new).1 ≡ false)
    × (is_ready (run_worker_v2 host (whisper_engine python whisper_sdk) (request 5) whisper_new).1
        ≡ false)
run_worker_v2-released_example =
    run_worker_v2-released host gigaam_sdk python whisper_sdk (request 5) gigaam_new whisper_new

-- The warm-up of 31 seconds is too long.
gigaam-IsOverlong :
    IsOverlong host
      (request 31)
      ((gigaam_engine gigaam_sdk).load (load_options (request 31)) gigaam_new)
unfolding Gigaam.load Gigaam.load_named Gigaam.import_and_load Gigaam.load_with
    Gigaam.loader_model_name Gigaam.candidate_model_name Gigaam.missing_required_cache_files
    Gigaam.missing_files Gigaam.required_gigaam_cache_files call fail catch_exception set_model
    set_options
gigaam-IsOverlong = (refl, refl, refl, refl)

whisper-IsOverlong :
    IsOverlong host
      (request 31)
      ((whisper_engine python whisper_sdk).load (load_options (request 31)) whisper_new)
unfolding Whisper.load Whisper.mapping_fields Whisper.looks_like_hub_identifier
    Whisper.load_directory Whisper.new_whisper_model Whisper.cpu_threads lower_is lower_starts_with
    strip call fail catch_exception set_model set_options
whisper-IsOverlong = (refl, refl, refl, refl)

run_worker_v2_overlong_example :
    (is_ok (run_worker_v2 host (gigaam_engine gigaam_sdk) (request 31) gigaam_new).0 ≡ false)
    × (is_ok (run_worker_v2 host (whisper_engine python whisper_sdk) (request 31) whisper_new).0
        ≡ false)
run_worker_v2_overlong_example =
    run_worker_v2_overlong host gigaam_sdk python whisper_sdk (request 31) gigaam_new whisper_new
      gigaam-IsOverlong whisper-IsOverlong

main-Writes_example :
    Writes python
      (read (raised_of (loads_any_request python "{}")))
      (main python host gigaam_sdk whisper_sdk "{}" 0).0
main-Writes_example = main-Writes python host gigaam_sdk whisper_sdk "{}" 0
