-- ===== src/Benchmark/Worker/Ending.antt =====
-- How a run of benchmarks/asr/benchmark_worker.py ends: with which samples, and with what raised.
use nadikt.Base.{
  ℕ, Bool, true, false, List, [], ◌∷◌, ◌++◌, map, ◌≡◌, refl, ap, ◌∙◌, ◌⊎◌, inl, inr, arith,
}
use nadikt.Base.Result.{Result, ok, err, Result-cases}
use nadikt.Base.Exec.{catch, ◌>>◌}
use nadikt.Protocol.Messages.{WorkerRequestV2}
use nadikt.Asr.Ports.{
  Raised, engine_error, value_error, import_error, attribute_error, exception, interrupt,
}
use nadikt.Quality.Levenshtein.{Eq}
use nadikt.Quality.Tokens.{Text}
use nadikt.Benchmark.Engines.{AsrEngine}
use nadikt.Benchmark.Worker.Sampling.{Host, timed, started_at}
use nadikt.Benchmark.Worker.Measures.{untimed}
use nadikt.Benchmark.Worker.Repeat.{
  Progress, start_progress, load_options, on_engine, add_phase, set_fail, run_failed, close_failed,
  finally_do, close_engine, run_one, run_scored, load_engine, run_repeat, try_worker_v2,
  progress_v2,
}
use nadikt.Benchmark.Worker.Answering.{
  IsUntyped, Key, request_key, outcome_key, Adds, run_one-Adds, run_scored-Adds, Adds-bind,
}

module _ {World : Type 0} (host : Host World) ⦃char_eq : Eq ℕ⦄ ⦃text_eq : Eq Text⦄
    (E : AsrEngine World) where
  -- What the block of `try` leaves where it does not raise out of the run.
  abbrev pub Counted : WorkerRequestV2 → Progress E.State → Type 0
  Counted q p =
      ((p.samples ≡ []) × (p.status ≡ "fail"))
      ⊎ (map outcome_key p.samples
          ≡ map request_key (q.repeat.warmup_sample ∷ q.repeat.scored_samples))

  abbrev pub keys_of : WorkerRequestV2 → List Key
  keys_of q = map request_key (q.repeat.warmup_sample ∷ q.repeat.scored_samples)

  abbrev Counts : WorkerRequestV2 → Result Raised (Unit {0}) × Progress E.State → Type 0
  Counts q (ok u, p) = Counted q p
  Counts q (err e, p) = IsUntyped e ⊎ (p.samples ≡ [])

  counted :
      (q : WorkerRequestV2) (p : Progress E.State)
      → p.samples ≡ []
      → (x : Result Raised (Unit {0}) × Progress E.State)
      → Adds host E p (q.repeat.warmup_sample ∷ q.repeat.scored_samples) x
      → Counts q x
  counted q p e (ok u, p') h = inr (h.0 ∙ ap (λ o. map outcome_key o ++ keys_of q) e)
  counted q p e (err x, p') h = inl h

  run_repeat-Counts :
      (q : WorkerRequestV2) (ready : Bool) (p : Progress E.State)
      → p.samples ≡ []
      → Counts q (run_repeat host E q ready p)
  unfolding run_repeat add_phase set_fail
  run_repeat-Counts q false p e = inl (e, refl)
  run_repeat-Counts q true p e =
      let phase = untimed "readiness" "success" in
      let p' : Progress E.State = record p { phases = p.phases ++ (phase ∷ []) } in
      let qs = q.repeat.scored_samples in
      counted q p' e
        (elim (run_one host E "warmup" q.repeat.warmup_sample p').0
          as (λ r. Result Raised (Unit {0}) × Progress E.State) [
            | ok u ↦ run_scored host E qs (run_one host E "warmup" q.repeat.warmup_sample p').1
            | err x ↦ (err x, (run_one host E "warmup" q.repeat.warmup_sample p').1)
          ])
        (Adds-bind host E p' (q.repeat.warmup_sample ∷ []) qs
          (run_one host E "warmup" q.repeat.warmup_sample p') (run_scored host E qs)
          (run_one-Adds host E "warmup" q.repeat.warmup_sample p') (run_scored-Adds host E qs))

  -- The same after its handler, and after the block of `finally`.
  abbrev pub Ends : WorkerRequestV2 → Result Raised (Unit {0}) × Progress E.State → Type 0
  Ends q (ok u, p) = Counted q p
  Ends q (err e, p) = IsUntyped e

  load_engine-keeps :
      (q : WorkerRequestV2) (p : Progress E.State) → (load_engine host E q p).1.samples ≡ p.samples
  unfolding load_engine on_engine timed started_at add_phase
  load_engine-keeps q p = elim (Result-cases (E.load (load_options q) p.state).0) [
    | inl (a, e) ↦ ground arith
    | inr (x, e) ↦ ground arith
  ]

  after_load :
      (q : WorkerRequestV2) (x : Result Raised (Unit {0}) × Progress E.State)
      → x.1.samples ≡ []
      → Counts q (elim x.0 as (λ r. Result Raised (Unit {0}) × Progress E.State) [
        | ok u ↦ run_repeat host E q (E.is_ready x.1.state) x.1
        | err e ↦ (err e, x.1)
      ])
  after_load q (ok u, p) e = run_repeat-Counts q (E.is_ready p.state) p e
  after_load q (err x, p) e = inr e

  try_worker_v2-Counts :
      (q : WorkerRequestV2) (s : E.State) → Counts q (try_worker_v2 host E q (start_progress s))
  unfolding try_worker_v2
  try_worker_v2-Counts q s =
      after_load q (load_engine host E q (start_progress s))
        (load_engine-keeps q (start_progress s))

  run_failed-Ends :
      (q : WorkerRequestV2) (e : Raised) (p : Progress E.State)
      → IsUntyped e ⊎ (p.samples ≡ [])
      → Ends q (run_failed e p)
  unfolding run_failed add_phase set_fail
  run_failed-Ends q (engine_error f) p (inl h) = absurd h
  run_failed-Ends q (engine_error f) p (inr h) = inl (h, refl)
  run_failed-Ends q (value_error x) p h = tt
  run_failed-Ends q import_error p h = tt
  run_failed-Ends q attribute_error p h = tt
  run_failed-Ends q exception p h = tt
  run_failed-Ends q interrupt p h = tt

  catch-Ends :
      (q : WorkerRequestV2) (x : Result Raised (Unit {0}) × Progress E.State)
      → Counts q x
      → Ends q (elim x.0 as (λ r. Result Raised (Unit {0}) × Progress E.State) [
        | ok u ↦ (ok u, x.1)
        | err e ↦ run_failed e x.1
      ])
  catch-Ends q (ok u, p) h = h
  catch-Ends q (err e, p) h = run_failed-Ends q e p h

  close_failed-Ends :
      (q : WorkerRequestV2) (e : Raised) (p : Progress E.State)
      → Counted q p
      → Ends q (close_failed e p)
  unfolding close_failed add_phase set_fail
  close_failed-Ends q (engine_error f) p (inl h) = inl (h.0, refl)
  close_failed-Ends q (engine_error f) p (inr h) = inr h
  close_failed-Ends q (value_error x) p h = tt
  close_failed-Ends q import_error p h = tt
  close_failed-Ends q attribute_error p h = tt
  close_failed-Ends q exception p h = tt
  close_failed-Ends q interrupt p h = tt

  closing :
      Result Raised (Unit {0})
      → E.State
      → Progress E.State
      → Result Raised (Unit {0}) × Progress E.State
  closing r s p =
      catch ((λ p'. (r, record p' { state = s })) >> add_phase (untimed "close" "success"))
        close_failed p

  after_close :
      (q : WorkerRequestV2) (p : Progress E.State) (r : Result Raised (Unit {0})) (s : E.State)
      → Counted q p
      → Ends q (closing r s p)
  unfolding add_phase closing
  after_close q p (ok u) s h = h
  after_close q p (err e) s h = close_failed-Ends q e (record p { state = s }) h

  close_engine-Ends :
      (q : WorkerRequestV2) (p : Progress E.State) → Counted q p → Ends q (close_engine host E p)
  unfolding close_engine on_engine closing
  close_engine-Ends q p h = after_close q p (E.close p.state).0 (E.close p.state).1 h

  abbrev Escapes : Result Raised (Unit {0}) × Progress E.State → Type 0
  Escapes (ok u, p) = Unit
  Escapes (err e, p) = IsUntyped e

  close_failed-Escapes : (e : Raised) (p : Progress E.State) → Escapes (close_failed e p)
  unfolding close_failed add_phase set_fail
  close_failed-Escapes (engine_error f) p = tt
  close_failed-Escapes (value_error x) p = tt
  close_failed-Escapes import_error p = tt
  close_failed-Escapes attribute_error p = tt
  close_failed-Escapes exception p = tt
  close_failed-Escapes interrupt p = tt

  after_close-Escapes :
      (p : Progress E.State) (r : Result Raised (Unit {0})) (s : E.State) → Escapes (closing r s p)
  unfolding add_phase closing
  after_close-Escapes p (ok u) s = tt
  after_close-Escapes p (err e) s = close_failed-Escapes e (record p { state = s })

  close_engine-Escapes : (p : Progress E.State) → Escapes (close_engine host E p)
  unfolding close_engine on_engine closing
  close_engine-Escapes p = after_close-Escapes p (E.close p.state).0 (E.close p.state).1

  finally-Ends :
      (q : WorkerRequestV2) (x : Result Raised (Unit {0}) × Progress E.State)
      → Ends q x
      → Ends q (finally_do (λ p. x) (close_engine host E) x.1)
  unfolding finally_do
  finally-Ends q (ok u, p) h = ended q p (close_engine host E p) (close_engine-Ends q p h)
    where
      ended :
          (q : WorkerRequestV2) (p : Progress E.State)
          (y : Result Raised (Unit {0}) × Progress E.State)
          → Ends q y
          → Ends q (elim y.0 as (λ r. Result Raised (Unit {0}) × Progress E.State) [
            | ok v ↦ (ok u, y.1)
            | err e ↦ (err e, y.1)
          ])
      ended q p (ok v, p') k = k
      ended q p (err e, p') k = k
  finally-Ends q (err e, p) h = escaped (close_engine host E p) (close_engine-Escapes p)
    where
      escaped :
          (y : Result Raised (Unit {0}) × Progress E.State)
          → Escapes y
          → Ends q (elim y.0 as (λ r. Result Raised (Unit {0}) × Progress E.State) [
            | ok v ↦ (err e, y.1)
            | err e' ↦ (err e', y.1)
          ])
      escaped (ok v, p') k = h
      escaped (err e', p') k = k

  pub progress_v2-Ends :
      (q : WorkerRequestV2) (s : E.State) → Ends q (progress_v2 host E q (start_progress s))
  unfolding progress_v2 finally_do
  progress_v2-Ends q s =
      finally-Ends q (catch (try_worker_v2 host E q) run_failed (start_progress s))
        (catch-Ends q (try_worker_v2 host E q (start_progress s)) (try_worker_v2-Counts q s))
