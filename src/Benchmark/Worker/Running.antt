-- ===== src/Benchmark/Worker/Running.antt =====
-- What a run of benchmarks/asr/benchmark_worker.py leaves: its answers and its engine.
use nadikt.Base.{ℕ, String, false, Option, [], ◌∷◌, map, ◌≡◌, refl, ap, ◌∙◌, ◌⊎◌, inl, inr, arith}
use nadikt.Base.Result.{Result, ok, err, Result-cases}
use nadikt.Base.Exec.{Exec, catch}
use nadikt.Protocol.Messages.{WorkerRequestV2, WorkerResultV2}
use nadikt.Asr.Ports.{
  Raised, engine_error, value_error, import_error, attribute_error, exception, interrupt,
}
use nadikt.Base.Json.{Fields}
use nadikt.Protocol.Python.{Python}
use nadikt.Asr.Engine.{Sdk, State, is_ready}
use nadikt.Asr.Gigaam.{GigaamSdk}
use nadikt.Asr.Whisper.{WhisperSdk}
use nadikt.Asr.Closing.{close_twice}
use nadikt.Quality.Levenshtein.{Eq}
use nadikt.Quality.Tokens.{Text}
use nadikt.Benchmark.Engines.{AsrEngine, gigaam_engine, whisper_engine}
use nadikt.Benchmark.Worker.Sampling.{Host}
use nadikt.Benchmark.Worker.Repeat.{
  Progress, start_progress, on_engine, add_phase, set_fail, run_failed, close_failed, finally_do,
  close_engine, try_worker_v2, progress_v2, result_v2_of, run_worker_v2,
}
use nadikt.Benchmark.Worker.Answering.{IsUntyped, request_key, outcome_key}
use nadikt.Benchmark.Worker.Telling.{Tells, run_worker_v2-Tells}
use nadikt.Benchmark.Worker.Ending.{Counted, Ends, progress_v2-Ends}

-- The samples of a result answer the warm-up and then each scored sample, or there are none and the
-- result is a failure.
abbrev pub AnswersAll : WorkerRequestV2 → WorkerResultV2 → Type 0
AnswersAll q r =
    ((r.repeat.samples ≡ []) × (r.worker_status ≡ "fail"))
    ⊎ (map outcome_key r.repeat.samples
        ≡ map request_key (q.repeat.warmup_sample ∷ q.repeat.scored_samples))

abbrev pub Answered : WorkerRequestV2 → Result Raised WorkerResultV2 → Type 0
Answered q (err e) = IsUntyped e
Answered q (ok r) = Tells q r × AnswersAll q r

abbrev Sampled : WorkerRequestV2 → Result Raised WorkerResultV2 → Type 0
Sampled q (err e) = IsUntyped e
Sampled q (ok r) = AnswersAll q r

module _ {World : Type 0} (host : Host World) ⦃char_eq : Eq ℕ⦄ ⦃text_eq : Eq Text⦄
    (E : AsrEngine World) where
  result_v2_of-AnswersAll :
      (q : WorkerRequestV2) (p : Progress E.State)
      → Counted host E q p
      → AnswersAll q (result_v2_of host E q p)
  unfolding result_v2_of
  result_v2_of-AnswersAll q p (inl h) = inl (h.0, rw h.0 h.1)
  result_v2_of-AnswersAll q p (inr h) = inr h

  finished :
      (q : WorkerRequestV2) (x : Result Raised (Unit {0}) × Progress E.State)
      → Ends host E q x
      → Sampled q
          (elim x.0 as (λ r. Result Raised WorkerResultV2 × E.State) [
            | ok u ↦ (ok (result_v2_of host E q x.1), x.1.state)
            | err e ↦ (err e, x.1.state)
          ]).0
  finished q (ok u, p) h = result_v2_of-AnswersAll q p h
  finished q (err e, p) h = h

  run_worker_v2-Sampled :
      (q : WorkerRequestV2) (s : E.State) → Sampled q (run_worker_v2 host E q s).0
  unfolding run_worker_v2
  run_worker_v2-Sampled q s =
      finished q (progress_v2 host E q (start_progress s)) (progress_v2-Ends host E q s)

  with_Tells :
      (q : WorkerRequestV2) (x : Result Raised WorkerResultV2)
      → ((r : WorkerResultV2) → x ≡ ok r → Tells q r)
      → Sampled q x
      → Answered q x
  with_Tells q (ok r) h a = (h r refl, a)
  with_Tells q (err e) h a = a

  -- Where a run returns, its result repeats the request's nonce, package, candidate, backend and
  -- index; its status is that of its repeat, "success" or "fail", and it is "success" exactly when
  -- every phase and every sample it lists is a success. The samples answer the warm-up sample and then
  -- each scored sample of the request, in order and with its id, category and scoring, or there are
  -- none and the result is a failure. What a run raises is no AsrEngineError, whatever the engine
  -- raises and wherever.
  pub run_worker_v2-Answered :
      (q : WorkerRequestV2) (s : E.State) → Answered q (run_worker_v2 host E q s).0
  run_worker_v2-Answered q s =
      with_Tells q (run_worker_v2 host E q s).0 (run_worker_v2-Tells host E q s)
        (run_worker_v2-Sampled q s)

  run_failed-state : (e : Raised) (p : Progress E.State) → (run_failed e p).1.state ≡ p.state
  unfolding run_failed add_phase set_fail
  run_failed-state (engine_error f) p = refl
  run_failed-state (value_error x) p = refl
  run_failed-state import_error p = refl
  run_failed-state attribute_error p = refl
  run_failed-state exception p = refl
  run_failed-state interrupt p = refl

  close_failed-state : (e : Raised) (p : Progress E.State) → (close_failed e p).1.state ≡ p.state
  unfolding close_failed add_phase set_fail
  close_failed-state (engine_error f) p = refl
  close_failed-state (value_error x) p = refl
  close_failed-state import_error p = refl
  close_failed-state attribute_error p = refl
  close_failed-state exception p = refl
  close_failed-state interrupt p = refl

  close_engine-state :
      (p : Progress E.State) → (close_engine host E p).1.state ≡ (E.close p.state).1
  unfolding close_engine on_engine add_phase
  close_engine-state p = elim (Result-cases (E.close p.state).0) [
    | inl (a, e) ↦ ground arith
    | inr (x, e) ↦
        let f = close_failed-state x (record p { state = (E.close p.state).1 }) in ground arith
  ]

  guarded : WorkerRequestV2 → Exec Raised (Progress E.State) (Unit {0})
  guarded q = catch (try_worker_v2 host E q) run_failed

  guarded-state :
      (q : WorkerRequestV2) (p : Progress E.State)
      → (guarded q p).1.state ≡ (try_worker_v2 host E q p).1.state
  unfolding guarded
  guarded-state q p = elim (Result-cases (try_worker_v2 host E q p).0) [
    | inl (a, e) ↦ ground arith
    | inr (x, e) ↦ let f = run_failed-state x (try_worker_v2 host E q p).1 in ground arith
  ]

  finally_do-state :
      (m f : Exec Raised (Progress E.State) (Unit {0})) (p : Progress E.State)
      → (finally_do m f p).1 ≡ (f (m p).1).1
  unfolding finally_do
  finally_do-state m f p = elim (Result-cases (f (m p).1).0) [
    | inl (a, e) ↦ ground arith
    | inr (x, e) ↦ ground arith
  ]

  run_worker_v2-state :
      (q : WorkerRequestV2) (s : E.State)
      → (run_worker_v2 host E q s).1 ≡ (progress_v2 host E q (start_progress s)).1.state
  unfolding run_worker_v2
  run_worker_v2-state q s = elim (Result-cases (progress_v2 host E q (start_progress s)).0) [
    | inl (a, e) ↦ ground arith
    | inr (x, e) ↦ ground arith
  ]

  -- A run ends with `close`: its last state is the one that `close` leaves after the block of `try`,
  -- whatever that block or `close` raises.
  pub run_worker_v2-closes :
      (q : WorkerRequestV2) (s : E.State)
      → (run_worker_v2 host E q s).1
        ≡ (E.close (try_worker_v2 host E q (start_progress s)).1.state).1
  unfolding progress_v2 guarded
  run_worker_v2-closes q s =
      let p = start_progress s in
      run_worker_v2-state q s
      ∙ ap (λ (x : Progress E.State). x.state)
          (finally_do-state (guarded q) (close_engine host E) p)
      ∙ close_engine-state (guarded q p).1
      ∙ ap (λ (t : E.State). (E.close t).1) (guarded-state q p)

module _ {S : Sdk} (host : Host S.World) ⦃char_eq : Eq ℕ⦄ ⦃text_eq : Eq Text⦄ where
  -- After a run over either engine, from any state and whatever the SDK, the files and the clock
  -- answer, also where the run raises, the engine is not ready any more.
  pub run_worker_v2-released :
      (gigaam : GigaamSdk S) (py : Python) (whisper : WhisperSdk S) (q : WorkerRequestV2)
      (s : State S (Option String)) (t : State S Fields)
      → (is_ready (run_worker_v2 host (gigaam_engine gigaam) q s).1 ≡ false)
        × (is_ready (run_worker_v2 host (whisper_engine py whisper) q t).1 ≡ false)
  run_worker_v2-released gigaam py whisper q s t =
      let E = gigaam_engine gigaam in
      let F = whisper_engine py whisper in
      (
        ap is_ready (run_worker_v2-closes host E q s)
            ∙ (close_twice (try_worker_v2 host E q (start_progress s)).1.state).0,
        ap is_ready (run_worker_v2-closes host F q t)
            ∙ (close_twice (try_worker_v2 host F q (start_progress t)).1.state).0,
      )
