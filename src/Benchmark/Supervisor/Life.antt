-- ===== src/Benchmark/Supervisor/Life.antt =====
-- The calls that `WorkerSupervisor.run` of benchmarks/asr/worker_supervisor.py makes of a process.
use nadikt.Base.{ℕ, zero, suc, String, some, List, [], ◌∷◌, ◌≡◌, refl, ◌⊎◌, inl, inr, arith}
use nadikt.Base.Result.{Result, ok, err, Result-cases}
use nadikt.Base.Exec.{Exec}
use nadikt.Protocol.Python.{Python}
use nadikt.Benchmark.Wire.{Request, Reply, loads_worker_result}
use nadikt.Benchmark.Supervisor.Process.{
  WorkerSupervisor, Stop, timeout_expired, exception, interrupt, System, Call, spawn, send,
  terminate, wait, kill, reap, Run, add, on_world, bounded_capture,
}
use nadikt.Benchmark.Supervisor.Running.{
  supervised, refuse, accept, check_nonce, parse_stdout, audit_capture, check_capture, make_sampler,
}
use nadikt.Benchmark.Supervisor.Communicating.{Ended}

-- The first n calls of the longest life of a process.
abbrev take : ℕ → List Call → List Call
take zero cs = []
take (suc n) [] = []
take (suc n) (c ∷ cs) = c ∷ take n cs

abbrev pub life : ℕ → List Call
life n = take n (spawn ∷ send ∷ terminate ∷ wait ∷ kill ∷ reap ∷ [])

module _ {World A : Type 0} where
  on_world-calls : (op : Exec Stop World A) (s : Run World) → (on_world op s).1.history ≡ s.history
  unfolding on_world
  on_world-calls op s = refl

module _ {World : Type 0} (py : Python) (lower : ℕ → ℕ) (supervisor : WorkerSupervisor)
    (sys : System World) where
  refuse-calls :
      (q : Request) (report : sys.Report) (event status outcome : String) (s : Run World)
      → (refuse py lower supervisor sys q report event status outcome s).1.history ≡ s.history
  unfolding refuse add supervised
  refuse-calls q report event status outcome s = refl

  accept-calls :
      (q : Request) (process : sys.Process) (report : sys.Report) (outcome : String) (reply : Reply)
      (s : Run World)
      → (accept py lower supervisor sys q process report outcome reply s).1.history ≡ s.history
  unfolding accept add supervised
  accept-calls q process report outcome reply s = ground arith

  check_nonce-calls :
      (q : Request) (process : sys.Process) (report : sys.Report) (outcome : String) (reply : Reply)
      (s : Run World)
      → (check_nonce py lower supervisor sys q process report outcome reply s).1.history ≡ s.history
  unfolding check_nonce
  check_nonce-calls q process report outcome reply s = ground (
    arith,
    accept-calls q process report outcome reply s,
    refuse-calls q report "nonce" "protocol_error" "protocol_error" s,
  )

  parse_stdout-calls :
      (q : Request) (process : sys.Process) (report : sys.Report) (out : Ended) (s : Run World)
      → (parse_stdout py lower supervisor sys q process report out s).1.history ≡ s.history
  unfolding parse_stdout
  parse_stdout-calls q process report out s =
      elim (Result-cases (loads_worker_result py out.stdout)) [
        | inl (reply, e) ↦ ground (arith, check_nonce-calls q process report out.outcome reply s)
        | inr (x, e) ↦
            ground (arith, refuse-calls q report "parse" "protocol_error" "protocol_error" s)
      ]

  audit_capture-calls :
      (q : Request) (process : sys.Process) (report : sys.Report) (out : Ended) (s : Run World)
      → (audit_capture py lower supervisor sys q process report out s).1.history ≡ s.history
  unfolding audit_capture add
  audit_capture-calls q process report out s = ground (
    arith,
    refuse-calls q report "privacy_audit" "fail" "privacy_error" s,
    parse_stdout-calls q process report out (add sys "privacy_audit" "completed" s).1,
  )

  pub check_capture-calls :
      (q : Request) (process : sys.Process) (report : sys.Report) (out : Ended) (s : Run World)
      → (check_capture py lower supervisor sys q process report out s).1.history ≡ s.history
  unfolding check_capture add bounded_capture
  check_capture-calls q process report out s =
      let capture = bounded_capture out.stdout out.stderr supervisor.max_capture_bytes in
      ground (
        arith,
        refuse-calls q report "capture" "protocol_error" "protocol_error" s,
        refuse-calls q report "capture" "fail" "privacy_error" s,
        audit_capture-calls q process report
            (record { stdout = capture.stdout; stderr = capture.stderr; outcome = out.outcome })
            (add sys "capture" "completed" s).1,
      )

  pub make_sampler-calls :
      (s : Run World) → (make_sampler py lower supervisor sys s).1.history ≡ s.history
  unfolding make_sampler on_world add
  make_sampler-calls s = elim (Result-cases (sys.sampler_factory s.world).0) [
    | inl (u, e) ↦ ground arith
    | inr (timeout_expired, e) ↦ ground arith
    | inr (exception, e) ↦ ground arith
    | inr (interrupt, e) ↦ ground arith
  ]

  -- How a process ended, by the calls made.
  abbrev pub Finished : Run World → String → Type 0
  Finished s outcome =
      ((s.history.calls ≡ life 2) × (outcome ≡ "completed"))
      ⊎ ((s.history.calls ≡ life 4) × (outcome ≡ "terminated"))
      ⊎ ((s.history.calls ≡ life 6) × (outcome ≡ "killed"))

  -- The process wrote these texts.
  abbrev pub Wrote : Run World → (stdout stderr : String) → Type 0
  Wrote s stdout stderr = s.history.output ≡ some (stdout, stderr)

  abbrev pub Communicated : Result Stop Ended × Run World → Type 0
  Communicated (ok out, s) = Finished s out.outcome × Wrote s out.stdout out.stderr
  Communicated (err e, s) = (n : ℕ) × (s.history.calls ≡ life n)
