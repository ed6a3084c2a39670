-- ===== src/Benchmark/Worker/Phases.antt =====
-- The phases and the status of a run of benchmarks/asr/benchmark_worker.py.
use nadikt.Base.{
  Bool, true, false, not, ◌||◌, List, [], ◌∷◌, ◌++◌, if◌then◌else◌, any_of, str_eq, eq_iff, ◌≡◌,
  refl, All, ◌↔◌, arith,
}
use nadikt.Protocol.Messages.{WorkerPhase, WorkerSampleOutcome}
use nadikt.Asr.Ports.{
  AsrFailureCode, Raised, engine_error, value_error, import_error, attribute_error, exception,
  interrupt,
}
use nadikt.Benchmark.Engines.{code_value}
use nadikt.Benchmark.Worker.Measures.{untimed, failed_phase}
use nadikt.Benchmark.Worker.Repeat.{Progress, add_phase, set_fail, run_failed, close_failed}

abbrev pub bad_phase : WorkerPhase → Bool
bad_phase phase = not (str_eq phase.outcome "success")

pub any_of-append :
    {A : Type 0} (p : A → Bool) (xs ys : List A)
    → any_of p (xs ++ ys) ≡ (any_of p xs || any_of p ys)
any_of-append p [] ys = refl
any_of-append p (x ∷ xs) ys = ground (arith, any_of-append p xs ys)

pub code_value_bad : (c : AsrFailureCode) → str_eq (code_value c) "success" ≡ false
unfolding code_value
code_value_bad AsrFailureCode.missing_package = refl
code_value_bad AsrFailureCode.invalid_package_path = refl
code_value_bad AsrFailureCode.checksum_mismatch = refl
code_value_bad AsrFailureCode.missing_critical_file = refl
code_value_bad AsrFailureCode.incompatible_backend = refl
code_value_bad AsrFailureCode.license_not_verified = refl
code_value_bad AsrFailureCode.engine_not_ready = refl
code_value_bad AsrFailureCode.segment_too_long = refl
code_value_bad AsrFailureCode.cancelled = refl
code_value_bad AsrFailureCode.transcribe_failed = refl
code_value_bad AsrFailureCode.warm_up_failed = refl
code_value_bad AsrFailureCode.resource_release_failed = refl

abbrev pub bad_sample : WorkerSampleOutcome → Bool
bad_sample sample = not (str_eq sample.outcome "success")

abbrev pub IsSuccessPhase : WorkerPhase → Type 0
IsSuccessPhase phase = phase.outcome ≡ "success"

abbrev pub IsSuccessSample : WorkerSampleOutcome → Type 0
IsSuccessSample sample = sample.outcome ≡ "success"

pub All-phases : (xs : List WorkerPhase) → (any_of bad_phase xs ≡ false) ↔ All IsSuccessPhase xs
All-phases [] = (λ e. tt, λ h. refl)
All-phases (x ∷ xs) =
    let (f, g) = All-phases xs in
    (
      λ e. (ground (arith, eq_iff x.outcome "success"), f (ground arith)),
      λ h. let i = g h.1 in ground (arith, eq_iff x.outcome "success", h.0),
    )

pub All-samples :
    (xs : List WorkerSampleOutcome) → (any_of bad_sample xs ≡ false) ↔ All IsSuccessSample xs
All-samples [] = (λ e. tt, λ h. refl)
All-samples (x ∷ xs) =
    let (f, g) = All-samples xs in
    (
      λ e. (ground (arith, eq_iff x.outcome "success"), f (ground arith)),
      λ h. let i = g h.1 in ground (arith, eq_iff x.outcome "success", h.0),
    )

-- The status is the one that the phases give.
abbrev pub Told : {S : Type 0} → Progress S → Type 0
Told p = p.status ≡ (if any_of bad_phase p.phases then "fail" else "success")

module _ {S : Type 0} where
  pub good_phase :
      (phase : WorkerPhase) (p : Progress S)
      → phase.outcome ≡ "success"
      → Told p
      → Told (add_phase phase p).1
  unfolding add_phase
  good_phase phase p e t =
      ground (arith, any_of-append bad_phase p.phases (phase ∷ []), eq_iff phase.outcome "success")

  pub bad_phase_failed :
      (phase : WorkerPhase) (p : Progress S)
      → bad_phase phase ≡ true
      → Told (record p { phases = p.phases ++ (phase ∷ []); status = "fail" })
  bad_phase_failed phase p e = ground (arith, any_of-append bad_phase p.phases (phase ∷ []))

  pub run_failed-Told : (e : Raised) (p : Progress S) → Told p → Told (run_failed e p).1
  unfolding run_failed add_phase set_fail failed_phase untimed
  run_failed-Told (engine_error f) p t =
      bad_phase_failed (failed_phase f) p (ground (arith, code_value_bad f.code))
  run_failed-Told (value_error x) p t = t
  run_failed-Told import_error p t = t
  run_failed-Told attribute_error p t = t
  run_failed-Told exception p t = t
  run_failed-Told interrupt p t = t

  pub close_failed-Told : (e : Raised) (p : Progress S) → Told p → Told (close_failed e p).1
  unfolding close_failed add_phase set_fail untimed
  close_failed-Told (engine_error f) p t =
      bad_phase_failed (untimed "close" (code_value f.code)) p
        (ground (arith, code_value_bad f.code))
  close_failed-Told (value_error x) p t = t
  close_failed-Told import_error p t = t
  close_failed-Told attribute_error p t = t
  close_failed-Told exception p t = t
  close_failed-Told interrupt p t = t
