-- ===== src/Benchmark/Worker/Answering.antt =====
-- Which samples a run of benchmarks/asr/benchmark_worker.py answers, and what leaves it.
use nadikt.Base.{
  ℕ, String, Bool, true, false, List, [], ◌∷◌, ◌++◌, map, ◌≡◌, refl, sym, ap, ◌∙◌, inl, inr, arith,
}
use mathlib.Core.List.{append_assoc, append-nil, map-append}
use nadikt.Base.Result.{Result, ok, err, Result-cases}
use nadikt.Base.Exec.{Exec, catch}
use nadikt.Protocol.Messages.{WorkerSampleRequest, WorkerSampleOutcome}
use nadikt.Asr.Ports.{
  Raised, engine_error, value_error, import_error, attribute_error, exception, interrupt,
  new_segment, AsrSegmentInput,
}
use nadikt.Quality.Levenshtein.{Eq}
use nadikt.Quality.Tokens.{Text}
use nadikt.Benchmark.Engines.{AsrEngine}
use nadikt.Benchmark.Worker.Sampling.{
  Host, timed, started_at, run_sample, run_segment, score_sample, warm_sample, sample_failed,
  sample_outcome, segment_of, results_of,
}
use nadikt.Benchmark.Worker.Repeat.{Progress, on_engine, add_sample, run_one, run_scored}

-- No `AsrEngineError`.
abbrev pub IsUntyped : Raised → Type 0
IsUntyped (engine_error f) = ⊥
IsUntyped _ = Unit

abbrev pub Key : Type 0
Key = String × String × Bool

abbrev pub request_key : WorkerSampleRequest → Key
request_key q = (q.sample_id, q.category, q.scored)

abbrev pub outcome_key : WorkerSampleOutcome → Key
outcome_key o = (o.sample_id, o.category, o.scored)

new_segment-IsUntyped :
    (segment : AsrSegmentInput) (e : Raised) → new_segment segment ≡ err e → IsUntyped e
unfolding new_segment
new_segment-IsUntyped segment (engine_error f) h = absurd (ground arith)
new_segment-IsUntyped segment (value_error x) h = tt
new_segment-IsUntyped segment import_error h = tt
new_segment-IsUntyped segment attribute_error h = tt
new_segment-IsUntyped segment exception h = tt
new_segment-IsUntyped segment interrupt h = tt

-- An outcome answers its sample.
abbrev Answers : WorkerSampleRequest → Result Raised WorkerSampleOutcome → Type 0
Answers q (ok o) = outcome_key o ≡ request_key q
Answers q (err e) = IsUntyped e

module _ {World : Type 0} (host : Host World) ⦃char_eq : Eq ℕ⦄ ⦃text_eq : Eq Text⦄
    (E : AsrEngine World) where
  sample_failed-Answers :
      (q : WorkerSampleRequest) (e : Raised) (s : E.State)
      → Answers q (sample_failed host E q e s).0
  unfolding sample_failed sample_outcome
  sample_failed-Answers q (engine_error f) s = refl
  sample_failed-Answers q (value_error x) s = tt
  sample_failed-Answers q import_error s = tt
  sample_failed-Answers q attribute_error s = tt
  sample_failed-Answers q exception s = tt
  sample_failed-Answers q interrupt s = tt

  score_sample-key :
      (q : WorkerSampleRequest) (segment : AsrSegmentInput) (name : String) (s : E.State)
      (o : WorkerSampleOutcome)
      → (score_sample host E q segment name s).0 ≡ ok o
      → outcome_key o ≡ request_key q
  unfolding score_sample started_at timed results_of sample_outcome
  score_sample-key q segment name s o e = elim (Result-cases (E.transcribe_segment segment s).0) [
    | inl (t, f) ↦
        let s' = (E.transcribe_segment segment s).1 in
        elim (Result-cases (results_of host E q t.text s').0) [
          | inl (rs, g) ↦ ground arith
          | inr (x, g) ↦ absurd (ground arith)
        ]
    | inr (x, f) ↦ absurd (ground arith)
  ]

  warm_sample-key :
      (q : WorkerSampleRequest) (segment : AsrSegmentInput) (name : String) (s : E.State)
      (o : WorkerSampleOutcome)
      → (warm_sample host E q segment name s).0 ≡ ok o
      → outcome_key o ≡ request_key q
  unfolding warm_sample started_at timed sample_outcome
  warm_sample-key q segment name s o e = elim (Result-cases (E.warm_up segment s).0) [
    | inl (t, f) ↦ ground arith
    | inr (x, f) ↦ absurd (ground arith)
  ]

  catch-Answers :
      (q : WorkerSampleRequest) (m : Exec Raised E.State WorkerSampleOutcome) (s : E.State)
      → ((o : WorkerSampleOutcome) → (m s).0 ≡ ok o → outcome_key o ≡ request_key q)
      → Answers q (catch m (sample_failed host E q) s).0
  catch-Answers q m s keys = elim (Result-cases (m s).0) [
    | inl (o, e) ↦ rw (e, catch) (keys o e)
    | inr (x, e) ↦ rw (e, catch) (sample_failed-Answers q x (m s).1)
  ]

  run_segment-Answers :
      (q : WorkerSampleRequest) (name : String) (segment : AsrSegmentInput) (s : E.State)
      → Answers q (run_segment host E q name segment s).0
  unfolding run_segment
  run_segment-Answers q name segment s =
      elim q.scored
        as (λ b.
          Answers q
            (catch
              (elim b [
                | true ↦ score_sample host E q segment name
                | false ↦ warm_sample host E q segment name
              ])
              (sample_failed host E q) s).0) [
                | true ↦
                    catch-Answers q (score_sample host E q segment name) s
                      (score_sample-key q segment name s)
                | false ↦
                    catch-Answers q (warm_sample host E q segment name) s
                      (warm_sample-key q segment name s)
              ]

  with_segment :
      (q : WorkerSampleRequest) (name : String) (s : E.State) (r : Result Raised AsrSegmentInput)
      → ((x : Raised) → r ≡ err x → IsUntyped x)
      → Answers q
          (elim r as (λ r'. Result Raised WorkerSampleOutcome × E.State) [
            | err e ↦ (err e, s)
            | ok segment ↦ run_segment host E q name segment s
          ]).0
  with_segment q name s (ok segment) h = run_segment-Answers q name segment s
  with_segment q name s (err x) h = h x refl

  run_sample-Answers :
      (q : WorkerSampleRequest) (name : String) (s : E.State)
      → Answers q (run_sample host E q name s).0
  unfolding run_sample
  run_sample-Answers q name s =
      with_segment q name s (new_segment (segment_of host q))
        (new_segment-IsUntyped (segment_of host q))

  -- A run's samples so far, with the answers to these requests.
  abbrev pub Extends : Progress E.State → List WorkerSampleRequest → Progress E.State → Type 0
  Extends p qs p' =
      (map outcome_key p'.samples ≡ map outcome_key p.samples ++ map request_key qs)
      × (p'.status ≡ p.status)

  abbrev pub Adds :
      Progress E.State
      → List WorkerSampleRequest
      → Result Raised (Unit {0}) × Progress E.State
      → Type 0
  Adds p qs (ok u, p') = Extends p qs p'
  Adds p qs (err e, p') = IsUntyped e

  after_sample :
      (q : WorkerSampleRequest) (p : Progress E.State) (r : Result Raised WorkerSampleOutcome)
      → Answers q r
      → Adds p (q ∷ []) (elim r as (λ r'. Result Raised (Unit {0}) × Progress E.State) [
        | ok o ↦ add_sample o p
        | err e ↦ (err e, p)
      ])
  unfolding add_sample
  after_sample q p (ok o) h = (
    rw (map-append outcome_key p.samples (o ∷ []))
        (ap (λ k. map outcome_key p.samples ++ (k ∷ [])) h),
    refl,
  )
  after_sample q p (err x) h = h

  pub run_one-Adds :
      (name : String) (q : WorkerSampleRequest) (p : Progress E.State)
      → Adds p (q ∷ []) (run_one host E name q p)
  unfolding run_one on_engine
  run_one-Adds name q p =
      let s' = (run_sample host E q name p.state).1 in
      after_sample q (record p { state = s' }) (run_sample host E q name p.state).0
        (run_sample-Answers q name p.state)

  extends :
      (p : Progress E.State) (qs rs : List WorkerSampleRequest) (p' : Progress E.State)
      (x : Result Raised (Unit {0}) × Progress E.State)
      → Extends p qs p'
      → Adds p' rs x
      → Adds p (qs ++ rs) x
  extends p qs rs p' (ok u, p'') h k = (
    rw (k.0, h.0, map-append request_key qs rs)
        (append_assoc (map outcome_key p.samples) (map request_key qs) (map request_key rs)),
    k.1 ∙ h.1,
  )
  extends p qs rs p' (err e, p'') h k = k

  pub Adds-bind :
      (p : Progress E.State) (qs rs : List WorkerSampleRequest)
      (x : Result Raised (Unit {0}) × Progress E.State)
      (m : Exec Raised (Progress E.State) (Unit {0}))
      → Adds p qs x
      → ((p' : Progress E.State) → Adds p' rs (m p'))
      → Adds p (qs ++ rs) (elim x.0 as (λ r. Result Raised (Unit {0}) × Progress E.State) [
        | ok u ↦ m x.1
        | err e ↦ (err e, x.1)
      ])
  Adds-bind p qs rs (ok u, p') m h k = extends p qs rs p' (m p') h (k p')
  Adds-bind p qs rs (err e, p') m h k = h

  pub run_scored-Adds :
      (qs : List WorkerSampleRequest) (p : Progress E.State) → Adds p qs (run_scored host E qs p)
  unfolding run_scored
  run_scored-Adds [] p = (sym (append-nil _), refl)
  run_scored-Adds (q ∷ qs) p =
      Adds-bind p (q ∷ []) qs (run_one host E "transcribe" q p) (run_scored host E qs)
        (run_one-Adds "transcribe" q p) (λ p'. run_scored-Adds qs p')
