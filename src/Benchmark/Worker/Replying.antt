-- ===== src/Benchmark/Worker/Replying.antt =====
-- Whose results benchmarks/asr/benchmark_worker.py writes.
use nadikt.Base.{ℕ, String, Option, none, some, [], ◌≡◌, refl, ◌⊎◌, inl, inr, arith}
use nadikt.Base.Result.{Result, ok, err, Result-cases}
use nadikt.Protocol.Python.{Python}
use nadikt.Protocol.Version1.{WorkerRequest, WorkerResult}
use nadikt.Asr.Ports.{
  AsrBackend, gigaam, faster_whisper, tone, other_local, AsrModelMetadata, Raised, engine_error,
  value_error, import_error, attribute_error, exception, interrupt,
}
use nadikt.Asr.Engine.{Sdk}
use nadikt.Asr.Gigaam.{GigaamSdk}
use nadikt.Asr.Whisper.{WhisperSdk}
use nadikt.Evidence.Records.{unverified_evidence, evidence_to_json}
use nadikt.Quality.Levenshtein.{Eq}
use nadikt.Quality.Tokens.{Text}
use nadikt.Benchmark.Engines.{
  AsrEngine, gigaam_engine, whisper_engine, metadata_from_request, raised_of,
}
use nadikt.Benchmark.Worker.Sampling.{Host}
use nadikt.Benchmark.Worker.Repeat.{start_progress, run_worker_v2}
use nadikt.Benchmark.Worker.Probing.{Probe, progress_v1, result_v1_of, run_worker_v1}
use nadikt.Benchmark.Worker.Telling.{run_worker_v2-Tells}
use nadikt.Benchmark.Wire.{
  Request, request_v1, request_v2, Reply, reply_v1, request_identity, reply_identity,
  engine_request, loads_any_request, print_reply,
}
use nadikt.Benchmark.Worker.Main.{
  invalid_request_result, recover, run_with, run_backend, run_worker, answer, exit_code, main,
}

-- A reply to this request.
abbrev pub IsFor : Request → Result Raised Reply → Type 0
IsFor q (ok r) = reply_identity r ≡ request_identity q
IsFor q (err e) = Unit

abbrev pub IsReply : Option Request → Result Raised Reply → Type 0
IsReply none (ok r) = r ≡ reply_v1 invalid_request_result
IsReply (some q) (ok r) =
    (reply_identity r ≡ request_identity q) ⊎ (r ≡ reply_v1 invalid_request_result)
IsReply q (err e) = e ≡ interrupt

-- What `main` ends with: the print of a reply and its exit code, or a raise of an interrupt or of the
-- print.
abbrev pub Writes : Python → Option Request → Result Raised (String × ℕ) → Type 0
Writes py q (ok (printed, code)) =
    (reply : Reply) × IsReply q (ok reply)
    × (raised_of (print_reply py reply) ≡ ok printed)
    × (code ≡ exit_code reply)
Writes py q (err e) =
    (e ≡ interrupt)
    ⊎ ((reply : Reply) × IsReply q (ok reply) × (raised_of (print_reply py reply) ≡ err e))

module _ {World : Type 0} (host : Host World) ⦃char_eq : Eq ℕ⦄ ⦃text_eq : Eq Text⦄
    (E : AsrEngine World) where
  result_v1_of-identity :
      (q : WorkerRequest) (p : Probe E.State) (r : WorkerResult)
      → result_v1_of host E q p ≡ ok r
      → reply_identity (reply_v1 r) ≡ request_identity (request_v1 q)
  unfolding result_v1_of
  result_v1_of-identity q p r e =
      elim (Result-cases (
        raised_of
          (evidence_to_json (unverified_evidence q.nonce "qualified_monitor_not_configured")))) [
            | inl (a, f) ↦ ground arith
            | inr (x, f) ↦ absurd (ground arith)
          ]

  run_worker_v1-identity :
      (q : WorkerRequest) (s : E.State) (r : WorkerResult)
      → (run_worker_v1 host E q s).0 ≡ ok r
      → reply_identity (reply_v1 r) ≡ request_identity (request_v1 q)
  unfolding run_worker_v1
  run_worker_v1-identity q s r e =
      let p : Probe E.State = record { progress = start_progress s; quality_metrics = [] } in
      elim (Result-cases (progress_v1 host E q p).0) [
        | inl (a, f) ↦ result_v1_of-identity q (progress_v1 host E q p).1 r (ground arith)
        | inr (x, f) ↦ absurd (ground arith)
      ]

  run_with-IsFor :
      (metadata : AsrModelMetadata) (q : Request) (w : World)
      → IsFor q (run_with host E metadata q w).0
  unfolding run_with
  run_with-IsFor metadata (request_v1 q) w =
      elim (Result-cases (run_worker_v1 host E q (E.create metadata w)).0) [
        | inl (r, e) ↦ rw e (run_worker_v1-identity q (E.create metadata w) r e)
        | inr (x, e) ↦ rw e tt
      ]
  run_with-IsFor metadata (request_v2 q) w =
      elim (Result-cases (run_worker_v2 host E q (E.create metadata w)).0) [
        | inl (r, e) ↦ rw e (
            let t = run_worker_v2-Tells host E q (E.create metadata w) r e in
            ground (arith, t.0.0, t.0.1, t.0.2, t.0.3))
        | inr (x, e) ↦ rw e tt
      ]

abbrev pub read : {A : Type 0} → Result Raised A → Option A
read (ok a) = some a
read (err e) = none

recover-IsReply : (q : Option Request) (e : Raised) → IsReply q (recover (err e))
unfolding recover
recover-IsReply none (engine_error f) = refl
recover-IsReply none (value_error x) = refl
recover-IsReply none import_error = refl
recover-IsReply none attribute_error = refl
recover-IsReply none exception = refl
recover-IsReply none interrupt = refl
recover-IsReply (some q) (engine_error f) = inr refl
recover-IsReply (some q) (value_error x) = inr refl
recover-IsReply (some q) import_error = inr refl
recover-IsReply (some q) attribute_error = inr refl
recover-IsReply (some q) exception = inr refl
recover-IsReply (some q) interrupt = refl

module _ {S : Sdk} (py : Python) (host : Host S.World) ⦃char_eq : Eq ℕ⦄ ⦃text_eq : Eq Text⦄
    (gigaam_sdk : GigaamSdk S) (whisper_sdk : WhisperSdk S) where
  run_backend-IsFor :
      (backend : AsrBackend) (metadata : AsrModelMetadata) (q : Request) (w : S.World)
      → IsFor q (run_backend py host gigaam_sdk whisper_sdk backend metadata q w).0
  unfolding run_backend
  run_backend-IsFor gigaam metadata q w =
      run_with-IsFor host (gigaam_engine gigaam_sdk) metadata q w
  run_backend-IsFor faster_whisper metadata q w =
      run_with-IsFor host (whisper_engine py whisper_sdk) metadata q w
  run_backend-IsFor tone metadata q w = tt
  run_backend-IsFor other_local metadata q w = tt

  with_metadata :
      (q : Request) (w : S.World) (r : Result Raised AsrModelMetadata)
      → IsFor q
          (elim r as (λ r'. Result Raised Reply × S.World) [
            | err e ↦ (err e, w)
            | ok m ↦ run_backend py host gigaam_sdk whisper_sdk m.backend m q w
          ]).0
  with_metadata q w (ok m) = run_backend-IsFor m.backend m q w
  with_metadata q w (err e) = tt

  run_worker-IsFor :
      (q : Request) (w : S.World) → IsFor q (run_worker py host gigaam_sdk whisper_sdk q w).0
  unfolding run_worker
  run_worker-IsFor q w =
      with_metadata q w (metadata_from_request py host.milliseconds (engine_request q))

  recovered : (q : Request) (r : Result Raised Reply) → IsFor q r → IsReply (some q) (recover r)
  unfolding recover
  recovered q (ok r) h = inl h
  recovered q (err e) h = recover-IsReply (some q) e

  with_request :
      (w : S.World) (r : Result Raised Request)
      → IsReply
          (read r)
          (elim r as (λ r'. Result Raised Reply × S.World) [
            | err e ↦ (recover (err e), w)
            | ok q ↦ (
              recover (run_worker py host gigaam_sdk whisper_sdk q w).0,
              (run_worker py host gigaam_sdk whisper_sdk q w).1,
            )
          ]).0
  with_request w (ok q) =
      recovered q (run_worker py host gigaam_sdk whisper_sdk q w).0 (run_worker-IsFor q w)
  with_request w (err e) = recover-IsReply none e

  answer-IsReply :
      (text : String) (w : S.World)
      → IsReply
          (read (raised_of (loads_any_request py text)))
          (answer py host gigaam_sdk whisper_sdk text w).0
  unfolding answer
  answer-IsReply text w = with_request w (raised_of (loads_any_request py text))

  written :
      (text : String) (w : S.World) (q : Option Request) (r : Result Raised Reply)
      → IsReply q r
      → Writes py q (elim r as (λ r'. Result Raised (String × ℕ)) [
        | err e ↦ err e
        | ok reply ↦ elim (raised_of (print_reply py reply)) [
          | err e ↦ err e
          | ok printed ↦ ok (printed, exit_code reply)
        ]
      ])
  written text w q (err e) h = inl h
  written text w q (ok reply) h = elim (Result-cases (raised_of (print_reply py reply))) [
    | inl (printed, e) ↦ rw e (reply, h, e, refl)
    | inr (x, e) ↦ rw e (inr (reply, h, e))
  ]

  -- Whatever text it is given and whatever the engines do, what the worker writes is the print of a
  -- result that carries the nonce, package, candidate and backend of the request that the text holds,
  -- or of the fixed failure of an invalid request, and of the latter where the text holds none; its
  -- exit code is that of this result. It raises nothing but an interrupt, or what the print of such a
  -- result raises, and then writes nothing.
  pub main-Writes :
      (text : String) (w : S.World)
      → Writes py
          (read (raised_of (loads_any_request py text)))
          (main py host gigaam_sdk whisper_sdk text w).0
  unfolding main
  main-Writes text w =
      written text w (read (raised_of (loads_any_request py text)))
        (answer py host gigaam_sdk whisper_sdk text w).0 (answer-IsReply text w)
