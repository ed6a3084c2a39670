-- ===== src/Benchmark/Worker/Main.antt =====
-- `run_worker` and `main` of benchmarks/asr/benchmark_worker.py. What `main` reads is a text, and
-- what it writes its result.
use nadikt.Base.{ℕ, String, [], ◌∷◌, if◌then◌else◌, contains}
use nadikt.Base.Result.{Result, ok, err}
use nadikt.Base.Exec.{Exec}
use nadikt.Base.Json.{end}
use nadikt.Protocol.Python.{Python}
use nadikt.Protocol.Version1.{WorkerResult}
use nadikt.Asr.Ports.{
  AsrBackend, gigaam, faster_whisper, Raised, value_error, interrupt, AsrModelMetadata,
}
use nadikt.Asr.Engine.{Sdk}
use nadikt.Asr.Gigaam.{GigaamSdk}
use nadikt.Asr.Whisper.{WhisperSdk}
use nadikt.Quality.Levenshtein.{Eq}
use nadikt.Quality.Tokens.{Text}
use nadikt.Benchmark.Engines.{
  AsrEngine, gigaam_engine, whisper_engine, metadata_from_request, raised_of,
}
use nadikt.Benchmark.Worker.Sampling.{Host}
use nadikt.Benchmark.Worker.Measures.{untimed}
use nadikt.Benchmark.Worker.Repeat.{run_worker_v2}
use nadikt.Benchmark.Worker.Probing.{run_worker_v1}
use nadikt.Benchmark.Wire.{
  Request, request_v1, request_v2, Reply, reply_v1, reply_v2, reply_status, engine_request,
  loads_any_request, print_reply,
}

-- The result of `main` where an exception was raised.
unfoldable pub invalid_request_result : WorkerResult
unfolding untimed
invalid_request_result = record {
  nonce = "invalid-request";
  package_id = "unknown";
  candidate_id = "unknown";
  backend = "unknown";
  worker_status = "protocol_error";
  phases = untimed "protocol" "fail" ∷ [];
  quality_metrics = [];
  offline_evidence = end;
}

unfoldable pub exit_code : Reply → ℕ
exit_code r = if contains ("success" ∷ "not_run" ∷ []) (reply_status r) then 0 else 2

abbrev pub replied : {A : Type 0} → (A → Reply) → Result Raised A → Result Raised Reply
replied f (ok a) = ok (f a)
replied f (err e) = err e

-- `except Exception`
unfoldable pub recover : Result Raised Reply → Result Raised Reply
unfolding invalid_request_result
recover (ok r) = ok r
recover (err interrupt) = err interrupt
recover (err _) = ok (reply_v1 invalid_request_result)

module _ {World : Type 0} (host : Host World) ⦃char_eq : Eq ℕ⦄ ⦃text_eq : Eq Text⦄ where
  -- `run_worker`, with an engine of this class.
  unfoldable pub run_with : AsrEngine World → AsrModelMetadata → Request → Exec Raised World Reply
  run_with E metadata (request_v1 q) w =
      let (r, s) = run_worker_v1 host E q (E.create metadata w) in (replied reply_v1 r, E.world s)
  run_with E metadata (request_v2 q) w =
      let (r, s) = run_worker_v2 host E q (E.create metadata w) in (replied reply_v2 r, E.world s)

module _ {S : Sdk} (py : Python) (host : Host S.World) ⦃char_eq : Eq ℕ⦄ ⦃text_eq : Eq Text⦄
    (gigaam_sdk : GigaamSdk S) (whisper_sdk : WhisperSdk S) where
  unfoldable pub run_backend : AsrBackend → AsrModelMetadata → Request → Exec Raised S.World Reply
  unfolding run_with
  run_backend gigaam metadata q = run_with host (gigaam_engine gigaam_sdk) metadata q
  run_backend faster_whisper metadata q = run_with host (whisper_engine py whisper_sdk) metadata q
  run_backend _ metadata q = λ w. (err (value_error "unsupported_backend"), w)

  unfoldable pub run_worker : Request → Exec Raised S.World Reply
  unfolding run_backend
  run_worker q w = elim (metadata_from_request py host.milliseconds (engine_request q)) [
    | err e ↦ (err e, w)
    | ok metadata ↦ run_backend metadata.backend metadata q w
  ]

  -- The `try` statement of `main`.
  unfoldable pub answer : String → Exec Raised S.World Reply
  unfolding run_worker recover
  answer text w = elim (raised_of (loads_any_request py text)) [
    | err e ↦ (recover (err e), w)
    | ok q ↦ let (r, w') = run_worker q w in (recover r, w')
  ]

  -- The text that `main` writes, and its exit code.
  unfoldable pub main : String → Exec Raised S.World (String × ℕ)
  unfolding answer exit_code
  main text w =
      let (r, w') = answer text w in
      (
        elim r [
          | err e ↦ err e
          | ok reply ↦ elim (raised_of (print_reply py reply)) [
            | err e ↦ err e
            | ok printed ↦ ok (printed, exit_code reply)
          ]
        ],
        w',
      )
