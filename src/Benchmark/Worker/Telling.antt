-- ===== src/Benchmark/Worker/Telling.antt =====
-- What the results of `_run_worker_v2` in benchmarks/asr/benchmark_worker.py say of the run.
use mathlib.Core.Path.{subst}
use nadikt.Base.{
  ℕ, String, Bool, true, false, none, List, [], ◌∷◌, ◌++◌, any_of, str_eq, eq_iff, ◌≡◌, refl, All,
  ◌⊎◌, ◌↔◌, inl, inr, arith, Bool-cases,
}
use nadikt.Base.Result.{ok, Result-cases}
use nadikt.Protocol.Messages.{WorkerSampleRequest, WorkerRequestV2, WorkerResultV2}
use nadikt.Quality.Levenshtein.{Eq}
use nadikt.Quality.Tokens.{Text}
use nadikt.Benchmark.Engines.{AsrEngine}
use nadikt.Benchmark.Worker.Sampling.{Host, timed, started_at, run_sample}
use nadikt.Benchmark.Worker.Measures.{untimed, timed_phase}
use nadikt.Benchmark.Worker.Repeat.{
  Progress, start_progress, load_options, on_engine, add_phase, add_sample, set_fail, run_failed,
  finally_do, close_engine, run_one, run_scored, load_engine, run_repeat, try_worker_v2,
  progress_v2, result_v2_of, run_worker_v2,
}
use nadikt.Benchmark.Worker.Phases.{
  bad_phase, bad_sample, IsSuccessPhase, IsSuccessSample, All-phases, All-samples, Told, good_phase,
  bad_phase_failed, run_failed-Told, close_failed-Told,
}

abbrev pub Tells : WorkerRequestV2 → WorkerResultV2 → Type 0
Tells q r =
    ((r.nonce ≡ q.nonce)
      × (r.package_id ≡ q.package_id)
      × (r.candidate_id ≡ q.candidate_id)
      × (r.backend ≡ q.backend)
      × (r.repeat.repeat_index ≡ q.repeat.repeat_index))
    × ((r.worker_status ≡ "success") ⊎ (r.worker_status ≡ "fail"))
    × (r.repeat.outcome ≡ r.worker_status)
    × ((r.worker_status ≡ "success")
        ↔ (All IsSuccessPhase r.repeat.phases × All IsSuccessSample r.repeat.samples))

differ : ◌≡◌ {A = String} "fail" "success" → ⊥
differ e = let f : str_eq "fail" "success" ≡ true = (eq_iff "fail" "success").1 e in cc

module _ {World : Type 0} (host : Host World) ⦃char_eq : Eq ℕ⦄ ⦃text_eq : Eq Text⦄
    (E : AsrEngine World) where
  run_one-Told :
      (name : String) (q : WorkerSampleRequest) (p : Progress E.State)
      → Told p
      → Told (run_one host E name q p).1
  unfolding run_one on_engine add_sample
  run_one-Told name q p t = elim (Result-cases (run_sample host E q name p.state).0) [
    | inl (a, e) ↦ ground arith
    | inr (x, e) ↦ ground arith
  ]

  run_scored-Told :
      (qs : List WorkerSampleRequest) (p : Progress E.State)
      → Told p
      → Told (run_scored host E qs p).1
  unfolding run_scored
  run_scored-Told [] p t = t
  run_scored-Told (q ∷ qs) p t = elim (Result-cases (run_one host E "transcribe" q p).0) [
    | inl (a, e) ↦
        let ih =
          run_scored-Told qs (run_one host E "transcribe" q p).1
            (run_one-Told "transcribe" q p t) in
        ground arith
    | inr (x, e) ↦ let t' = run_one-Told "transcribe" q p t in ground arith
  ]

  load_engine-Told :
      (q : WorkerRequestV2) (p : Progress E.State) → Told p → Told (load_engine host E q p).1
  unfolding load_engine on_engine timed started_at add_phase timed_phase
  load_engine-Told q p t = elim (Result-cases (E.load (load_options q) p.state).0) [
    | inl (a, e) ↦
        let loaded : E.State = (E.load (load_options q) p.state).1 in
        let phase =
          timed_phase "load" (host.monotonic (E.world p.state)) none
            (host.monotonic (E.world loaded)) in
        let t' = good_phase phase (record p { state = loaded }) refl t in ground arith
    | inr (x, e) ↦ ground arith
  ]

  run_repeat-Told :
      (q : WorkerRequestV2) (ready : Bool) (p : Progress E.State)
      → Told p
      → Told (run_repeat host E q ready p).1
  unfolding run_repeat add_phase untimed set_fail
  run_repeat-Told q false p t = bad_phase_failed (untimed "readiness" "readiness_failed") p refl
  run_repeat-Told q true p t =
      let phase = untimed "readiness" "success" in
      let p' : Progress E.State = record p { phases = p.phases ++ (phase ∷ []) } in
      let warm = run_one-Told "warmup" q.repeat.warmup_sample p' (good_phase phase p refl t) in
      elim (Result-cases (run_one host E "warmup" q.repeat.warmup_sample p').0) [
        | inl (a, e) ↦
            let t' =
              run_scored-Told q.repeat.scored_samples
                (run_one host E "warmup" q.repeat.warmup_sample p').1 warm in
            ground arith
        | inr (x, e) ↦ ground arith
      ]

  try_worker_v2-Told :
      (q : WorkerRequestV2) (p : Progress E.State) → Told p → Told (try_worker_v2 host E q p).1
  unfolding try_worker_v2
  try_worker_v2-Told q p t =
      let p' = (load_engine host E q p).1 in
      let t' = load_engine-Told q p t in
      let t'' = run_repeat-Told q (E.is_ready p'.state) p' t' in
      elim (Result-cases (load_engine host E q p).0) [
        | inl (a, e) ↦ ground arith
        | inr (x, e) ↦ ground arith
      ]

  close_engine-Told : (p : Progress E.State) → Told p → Told (close_engine host E p).1
  unfolding close_engine on_engine add_phase untimed
  close_engine-Told p t =
      let p' : Progress E.State = record p { state = (E.close p.state).1 } in
      elim (Result-cases (E.close p.state).0) [
        | inl (a, e) ↦ let t' = good_phase (untimed "close" "success") p' refl t in ground arith
        | inr (x, e) ↦ let t' = close_failed-Told x p' t in ground arith
      ]

  progress_v2-Told :
      (q : WorkerRequestV2) (p : Progress E.State) → Told p → Told (progress_v2 host E q p).1
  unfolding progress_v2 finally_do
  progress_v2-Told q p t =
      let t' = try_worker_v2-Told q p t in
      let p' = (try_worker_v2 host E q p).1 in
      elim (Result-cases (try_worker_v2 host E q p).0) [
        | inl (a, e) ↦
            let c = close_engine-Told p' t' in
            elim (Result-cases (close_engine host E p').0) [
              | inl (b, f) ↦ ground arith
              | inr (y, f) ↦ ground arith
            ]
        | inr (x, e) ↦
            let p'' = (run_failed x p').1 in
            let c = close_engine-Told p'' (run_failed-Told x p' t') in
            elim (Result-cases (close_engine host E p'').0) [
              | inl (b, f) ↦ ground arith
              | inr (y, f) ↦ ground arith
            ]
      ]

  result_v2_of-Tells :
      (q : WorkerRequestV2) (p : Progress E.State) → Told p → Tells q (result_v2_of host E q p)
  unfolding result_v2_of
  result_v2_of-Tells q p t =
      let (f, g) = All-phases p.phases in
      let (h, k) = All-samples p.samples in
      elim (Bool-cases (any_of bad_sample p.samples)) [
        | inl b ↦ rw b (
          (refl, refl, refl, refl, refl),
          inr refl,
          refl,
          (λ e. absurd (differ e), λ z. absurd (ground (arith, k z.1))),
        )
        | inr b ↦ elim (Bool-cases (any_of bad_phase p.phases)) [
          | inl c ↦
              let st : p.status ≡ "fail" = ground arith in
              rw (b, st)
                (
                  (refl, refl, refl, refl, refl),
                  inr refl,
                  refl,
                  (λ e. absurd (differ e), λ z. absurd (ground (arith, g z.0))),
                )
          | inr c ↦
              let st : p.status ≡ "success" = ground arith in
              rw (b, st)
                ((refl, refl, refl, refl, refl), inl refl, refl, (λ e. (f c, h b), λ z. refl))
        ]
      ]

  pub run_worker_v2-Tells :
      (q : WorkerRequestV2) (s : E.State) (r : WorkerResultV2)
      → (run_worker_v2 host E q s).0 ≡ ok r
      → Tells q r
  unfolding run_worker_v2 result_v2_of
  run_worker_v2-Tells q s r e =
      let p' : Progress E.State = (progress_v2 host E q (start_progress s)).1 in
      let t = result_v2_of-Tells q p' (progress_v2-Told q (start_progress s) refl) in
      elim (Result-cases (progress_v2 host E q (start_progress s)).0) [
        | inl (a, x) ↦ let e' : result_v2_of host E q p' ≡ r = ground arith in subst (Tells q) e' t
        | inr (y, x) ↦ absurd (ground arith)
      ]
