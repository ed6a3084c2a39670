-- ===== src/Benchmark/Worker/Escaping.antt =====
-- What an error that is no AsrEngineError does to a run of benchmarks/asr/benchmark_worker.py.
use nadikt.Base.{ℕ, String, true, false, Option, none, ◌≡◌, refl, Option-cases, inl, inr, arith}
use nadikt.Base.Result.{Result, ok, err, Result-cases}
use nadikt.Base.Int.{ℤ, pos, negsuc, ◌-ℤ◌, lt_ℤ}
use nadikt.Protocol.Messages.{WorkerSampleRequest, WorkerRequestV2}
use nadikt.Protocol.Versions.{is_ok}
use nadikt.Asr.Ports.{
  Raised, engine_error, value_error, import_error, attribute_error, exception, interrupt,
  AsrSegmentInput, new_segment, duration_ms, ensure_segment_within_capabilities,
}
use nadikt.Base.Json.{Fields}
use nadikt.Protocol.Python.{Python}
use nadikt.Asr.Engine.{Sdk, State, is_ready, lift, warm_up_by, warm_up_error}
use nadikt.Asr.Gigaam.{GigaamSdk, warm_up, transcribe_segment, transcribe_with}
use nadikt.Asr.Whisper
use nadikt.Asr.Loading.{load-IsLoaded, load-IsRenewed}
use nadikt.Asr.Whisper.{WhisperSdk}
use nadikt.Quality.Levenshtein.{Eq}
use nadikt.Quality.Tokens.{Text}
use nadikt.Benchmark.Engines.{AsrEngine, gigaam_engine, whisper_engine}
use nadikt.Benchmark.Worker.Sampling.{
  Host, timed, started_at, warm_sample, sample_failed, segment_of, run_segment, run_sample,
}
use nadikt.Benchmark.Worker.Repeat.{
  Progress, start_progress, load_options, on_engine, add_phase, run_failed, finally_do,
  close_engine, run_one, load_engine, run_repeat, try_worker_v2, progress_v2, run_worker_v2,
}
use nadikt.Benchmark.Worker.Answering.{IsUntyped}

module _ {World : Type 0} (host : Host World) (E : AsrEngine World) where
  sample_failed-IsUntyped :
      (q : WorkerSampleRequest) (e : Raised) (s : E.State)
      → IsUntyped e
      → sample_failed host E q e s ≡ (err e, s)
  unfolding sample_failed
  sample_failed-IsUntyped q (engine_error f) s h = absurd h
  sample_failed-IsUntyped q (value_error x) s h = refl
  sample_failed-IsUntyped q import_error s h = refl
  sample_failed-IsUntyped q attribute_error s h = refl
  sample_failed-IsUntyped q exception s h = refl
  sample_failed-IsUntyped q interrupt s h = refl

run_failed-IsUntyped :
    {S : Type 0} (e : Raised) (p : Progress S) → IsUntyped e → run_failed e p ≡ (err e, p)
unfolding run_failed
run_failed-IsUntyped (engine_error f) p h = absurd h
run_failed-IsUntyped (value_error x) p h = refl
run_failed-IsUntyped import_error p h = refl
run_failed-IsUntyped attribute_error p h = refl
run_failed-IsUntyped exception p h = refl
run_failed-IsUntyped interrupt p h = refl

module _ {World : Type 0} (host : Host World) ⦃char_eq : Eq ℕ⦄ ⦃text_eq : Eq Text⦄
    (E : AsrEngine World) where
  run_sample-escapes :
      (q : WorkerSampleRequest) (name : String) (s : E.State) (e : Raised)
      → IsUntyped e
      → q.scored ≡ false
      → lt_ℤ (pos 0) (host.milliseconds q.duration_seconds) ≡ true
      → (E.warm_up (segment_of host q) s).0 ≡ err e
      → (run_sample host E q name s).0 ≡ err e
  unfolding run_sample run_segment warm_sample new_segment segment_of started_at
  run_sample-escapes q name s e u scored long h =
      let f = sample_failed-IsUntyped host E q e (E.warm_up (segment_of host q) s).1 u in
      ground arith

  try_worker_v2-escapes :
      (q : WorkerRequestV2) (s : E.State) (e : Raised)
      → (E.load (load_options q) s).0 ≡ ok tt
      → E.is_ready (E.load (load_options q) s).1 ≡ true
      → (run_sample host E q.repeat.warmup_sample "warmup" (E.load (load_options q) s).1).0 ≡ err e
      → (try_worker_v2 host E q (start_progress s)).0 ≡ err e
  unfolding try_worker_v2 load_engine run_repeat run_one on_engine add_phase timed started_at
  try_worker_v2-escapes q s e loaded ready h = ground arith

  progress_v2-escapes :
      (q : WorkerRequestV2) (p : Progress E.State) (e : Raised)
      → IsUntyped e
      → (try_worker_v2 host E q p).0 ≡ err e
      → is_ok (progress_v2 host E q p).0 ≡ false
  unfolding progress_v2 finally_do
  progress_v2-escapes q p e u h =
      let p' = (try_worker_v2 host E q p).1 in
      let f = run_failed-IsUntyped e p' u in
      elim (Result-cases (close_engine host E p').0) [
        | inl (a, c) ↦ ground arith
        | inr (x, c) ↦ ground arith
      ]

  -- A run whose engine loads and is ready, but whose warm-up raises an error that is no
  -- AsrEngineError, has no result at all.
  run_worker_v2-escapes :
      (q : WorkerRequestV2) (s : E.State) (e : Raised)
      → IsUntyped e
      → (E.load (load_options q) s).0 ≡ ok tt
      → E.is_ready (E.load (load_options q) s).1 ≡ true
      → q.repeat.warmup_sample.scored ≡ false
      → lt_ℤ (pos 0) (host.milliseconds q.repeat.warmup_sample.duration_seconds) ≡ true
      → (E.warm_up (segment_of host q.repeat.warmup_sample) (E.load (load_options q) s).1).0 ≡ err e
      → is_ok (run_worker_v2 host E q s).0 ≡ false
  unfolding run_worker_v2
  run_worker_v2-escapes q s e u loaded ready scored long h =
      let t = try_worker_v2-escapes q s e loaded ready (
        run_sample-escapes q.repeat.warmup_sample "warmup" (E.load (load_options q) s).1 e u scored
          long h) in
      let p = progress_v2-escapes q (start_progress s) e u t in
      elim (Result-cases (progress_v2 host E q (start_progress s)).0) [
        | inl (a, c) ↦ absurd (ground arith)
        | inr (x, c) ↦ ground arith
      ]

sub_zero : (x : ℤ) → x -ℤ pos 0 ≡ x
unfolding ◌-ℤ◌
sub_zero (pos n) = ground arith
sub_zero (negsuc n) = ground arith

duration_ms-segment_of :
    {World : Type 0} (host : Host World) (q : WorkerSampleRequest)
    → duration_ms (segment_of host q) ≡ host.milliseconds q.duration_seconds
unfolding duration_ms segment_of
duration_ms-segment_of host q = sub_zero (host.milliseconds q.duration_seconds)

module _ {S : Sdk} (host : Host S.World) ⦃char_eq : Eq ℕ⦄ ⦃text_eq : Eq Text⦄ where
  gigaam-IsOverlong :
      (sdk : GigaamSdk S) (segment : AsrSegmentInput) (s : State S (Option String))
      → is_ready s ≡ true
      → lt_ℤ s.engine.metadata.capabilities.max_segment_ms (duration_ms segment) ≡ true
      → (warm_up sdk segment none s).0 ≡ err (value_error "segment_too_long")
  unfolding warm_up warm_up_by transcribe_segment transcribe_with is_ready lift warm_up_error
      ensure_segment_within_capabilities
  gigaam-IsOverlong sdk segment s ready long = elim (Option-cases s.engine.model) [
    | inl e ↦ absurd (ground arith)
    | inr (m, e) ↦ ground arith
  ]

  whisper-IsOverlong :
      (py : Python) (sdk : WhisperSdk S) (segment : AsrSegmentInput) (s : State S Fields)
      → is_ready s ≡ true
      → lt_ℤ s.engine.metadata.capabilities.max_segment_ms (duration_ms segment) ≡ true
      → (Whisper.warm_up py sdk segment none s).0 ≡ err (value_error "segment_too_long")
  unfolding Whisper.warm_up warm_up_by Whisper.transcribe_segment Whisper.transcribe_with is_ready
      lift warm_up_error ensure_segment_within_capabilities
  whisper-IsOverlong py sdk segment s ready long = elim (Option-cases s.engine.model) [
    | inl e ↦ absurd (ground arith)
    | inr (m, e) ↦ ground arith
  ]

  -- The engine loads, and the warm-up sample is longer than it admits.
  abbrev pub IsOverlong :
      {O : Type 0} → WorkerRequestV2 → Result Raised (Unit {0}) × State S O → Type 0
  IsOverlong q x =
      (x.0 ≡ ok tt)
      × (q.repeat.warmup_sample.scored ≡ false)
      × (lt_ℤ (pos 0) (host.milliseconds q.repeat.warmup_sample.duration_seconds) ≡ true)
      × (lt_ℤ x.1.engine.metadata.capabilities.max_segment_ms
            (host.milliseconds q.repeat.warmup_sample.duration_seconds)
          ≡ true)

  -- Where the engine loads and the warm-up sample is longer than its capabilities admit, the run over
  -- either engine has no result: the ValueError of the segment goes through every handler.
  pub run_worker_v2_overlong :
      (gigaam : GigaamSdk S) (py : Python) (whisper : WhisperSdk S) (q : WorkerRequestV2)
      (s : State S (Option String)) (t : State S Fields)
      → IsOverlong q ((gigaam_engine gigaam).load (load_options q) s)
      → IsOverlong q ((whisper_engine py whisper).load (load_options q) t)
      → (is_ok (run_worker_v2 host (gigaam_engine gigaam) q s).0 ≡ false)
        × (is_ok (run_worker_v2 host (whisper_engine py whisper) q t).0 ≡ false)
  run_worker_v2_overlong gigaam py whisper q s t h k =
      let segment = segment_of host q.repeat.warmup_sample in
      let d = duration_ms-segment_of host q.repeat.warmup_sample in
      let message = value_error "segment_too_long" in
      let ready = (load-IsLoaded gigaam (load_options q) s).ready h.0 in
      let ready' = (load-IsRenewed whisper (load_options q) t).ready k.0 in
      (
        run_worker_v2-escapes host (gigaam_engine gigaam) q s message tt h.0 ready h.1 h.2
            (gigaam-IsOverlong gigaam segment _ ready (rw d h.3)),
        run_worker_v2-escapes host (whisper_engine py whisper) q t message tt k.0 ready' k.1 k.2
            (whisper-IsOverlong py whisper segment _ ready' (rw d k.3)),
      )
