-- ===== src/Benchmark/Worker/Repeat.antt =====
-- The runs of benchmarks/asr/benchmark_worker.py: `_run_worker_v2` over any engine.
use nadikt.Base.{
  ℕ, String, Bool, true, false, not, none, List, [], ◌∷◌, ◌++◌, if◌then◌else◌, any_of, str_eq,
}
use nadikt.Base.Result.{ok, err}
use nadikt.Base.Exec.{Exec, pure, raise, gets, catch, ◌>>=◌, ◌>>◌}
use nadikt.Protocol.Messages.{
  WorkerPhase, WorkerSampleRequest, WorkerSampleOutcome, WorkerRequestV2, WorkerResultV2,
}
use nadikt.Asr.Ports.{Raised, engine_error, AsrLoadOptions, dict}
use nadikt.Quality.Levenshtein.{Eq}
use nadikt.Quality.Tokens.{Text}
use nadikt.Benchmark.Engines.{AsrEngine, code_value}
use nadikt.Benchmark.Worker.Sampling.{Host, timed, started_at, run_sample}
use nadikt.Benchmark.Worker.Measures.{untimed, failed_phase}

-- The local variables of a run, beside the engine.
pub record Progress (S : Type 0) : Type 0 where
  pub state : S
  pub phases : List WorkerPhase
  pub samples : List WorkerSampleOutcome
  pub status : String

module _ {S : Type 0} where
  unfoldable pub on_engine : {R : Type 0} → Exec Raised S R → Exec Raised (Progress S) R
  on_engine op p = let (r, s) = op p.state in (r, record p { state = s })

  unfoldable pub add_phase : WorkerPhase → Exec Raised (Progress S) (Unit {0})
  add_phase phase p = (ok tt, record p { phases = p.phases ++ (phase ∷ []) })

  unfoldable pub add_sample : WorkerSampleOutcome → Exec Raised (Progress S) (Unit {0})
  add_sample sample p = (ok tt, record p { samples = p.samples ++ (sample ∷ []) })

  unfoldable pub set_fail : Exec Raised (Progress S) (Unit {0})
  set_fail p = (ok tt, record p { status = "fail" })

  -- `except AsrEngineError` of the run.
  unfoldable pub run_failed : Raised → Exec Raised (Progress S) (Unit {0})
  unfolding add_phase set_fail failed_phase
  run_failed (engine_error failure) = add_phase (failed_phase failure) >> set_fail
  run_failed e = raise e

  -- `except AsrEngineError` of `close`.
  unfoldable pub close_failed : Raised → Exec Raised (Progress S) (Unit {0})
  unfolding add_phase set_fail untimed
  close_failed (engine_error failure) =
      add_phase (untimed "close" (code_value failure.code)) >> set_fail
  close_failed e = raise e

  -- `try: m finally: f`: what `f` raises replaces what `m` raised.
  unfoldable pub finally_do :
      Exec Raised (Progress S) (Unit {0})
      → Exec Raised (Progress S) (Unit {0})
      → Exec Raised (Progress S) (Unit {0})
  finally_do m f p =
      let (r, p') = m p in
      let (r', p'') = f p' in elim r' [ ok u ↦ (r, p'') | err e ↦ (err e, p'') ]

  abbrev pub start_progress : S → Progress S
  start_progress s = record { state = s; phases = []; samples = []; status = "success" }

-- `AsrLoadOptions(request.package_dir, request.inference_defaults)`
abbrev pub load_options : WorkerRequestV2 → AsrLoadOptions
load_options q = record {
  local_package_path = q.package_dir;
  inference_defaults = dict q.inference_defaults;
}

module _ {World : Type 0} (host : Host World) ⦃char_eq : Eq ℕ⦄ ⦃text_eq : Eq Text⦄
    (E : AsrEngine World) where
  -- The block of `finally`.
  unfoldable pub close_engine : Exec Raised (Progress E.State) (Unit {0})
  unfolding on_engine add_phase close_failed untimed
  close_engine = catch (on_engine E.close >> add_phase (untimed "close" "success")) close_failed

  unfoldable pub run_one : String → WorkerSampleRequest → Exec Raised (Progress E.State) (Unit {0})
  unfolding on_engine add_sample
  run_one phase_name sample = on_engine (run_sample host E sample phase_name) >>= add_sample

  -- The loop over the scored samples.
  unfoldable pub run_scored : List WorkerSampleRequest → Exec Raised (Progress E.State) (Unit {0})
  unfolding run_one
  run_scored [] = pure tt
  run_scored (q ∷ qs) = run_one "transcribe" q >> run_scored qs

  unfoldable pub load_engine : WorkerRequestV2 → Exec Raised (Progress E.State) (Unit {0})
  unfolding on_engine add_phase
  load_engine q = do
    started ← on_engine (started_at host E)
    on_engine (E.load (load_options q))
    phase ← on_engine (timed host E "load" started none)
    add_phase phase

  -- What follows `engine.is_ready()`.
  unfoldable pub run_repeat : WorkerRequestV2 → Bool → Exec Raised (Progress E.State) (Unit {0})
  unfolding add_phase run_one run_scored set_fail
  run_repeat q true = do
    add_phase (untimed "readiness" "success")
    run_one "warmup" q.repeat.warmup_sample
    run_scored q.repeat.scored_samples
  run_repeat q false = do add_phase (untimed "readiness" "readiness_failed"); set_fail

  -- The block of `try`.
  unfoldable pub try_worker_v2 : WorkerRequestV2 → Exec Raised (Progress E.State) (Unit {0})
  unfolding load_engine run_repeat
  try_worker_v2 q = do load_engine q; ready ← gets (λ p. E.is_ready p.state); run_repeat q ready

  unfoldable pub progress_v2 : WorkerRequestV2 → Exec Raised (Progress E.State) (Unit {0})
  unfolding finally_do try_worker_v2 run_failed close_engine
  progress_v2 q = finally_do (catch (try_worker_v2 q) run_failed) close_engine

  -- What follows the `try` statement.
  unfoldable pub result_v2_of : WorkerRequestV2 → Progress E.State → WorkerResultV2
  result_v2_of q p =
      let status =
        if any_of (λ (s : WorkerSampleOutcome). not (str_eq s.outcome "success")) p.samples
        then "fail"
        else p.status in
      record {
        nonce = q.nonce;
        package_id = q.package_id;
        candidate_id = q.candidate_id;
        backend = q.backend;
        worker_status = status;
        repeat = record {
          repeat_index = q.repeat.repeat_index;
          outcome = if str_eq status "success" then "success" else "fail";
          phases = p.phases;
          samples = p.samples;
        };
      }

  -- `_run_worker_v2` with an engine in this state.
  unfoldable pub run_worker_v2 : WorkerRequestV2 → Exec Raised E.State WorkerResultV2
  unfolding progress_v2 result_v2_of
  run_worker_v2 q s =
      let (r, p) = progress_v2 q (start_progress s) in
      elim r [ ok u ↦ (ok (result_v2_of q p), p.state) | err e ↦ (err e, p.state) ]
