-- ===== src/Benchmark/Supervisor/Handing.antt =====
-- The results of `WorkerSupervisor.run` of benchmarks/asr/worker_supervisor.py.
use nadikt.Base.{ℕ, String, true, [], ◌∷◌, contains, ◌≡◌, ap, ◌⊎◌, inl, inr}
use nadikt.Base.Result.{Result, ok, err}
use nadikt.Protocol.Python.{Python}
use nadikt.Benchmark.Wire.{Request, Identity}
use nadikt.Benchmark.Supervisor.Process.{
  SupervisedWorkerResult, WorkerSupervisor, Stop, System, Run, failure_worker_result,
}
use nadikt.Benchmark.Supervisor.Running.{run}
use nadikt.Benchmark.Supervisor.Life.{life, Finished, Wrote}
use nadikt.Benchmark.Supervisor.Trusting.{SameNonce}
use nadikt.Benchmark.Supervisor.Accepting.{failure-identity, Accepted, Refused, Follows}
use nadikt.Benchmark.Supervisor.Finishing.{NotSpawned, Handed, Final, run-Final}

module _ {World : Type 0} (py : Python) (lower : ℕ → ℕ) (supervisor : WorkerSupervisor)
    (sys : System World) where
  nonce_of :
      (q : Request) (r : SupervisedWorkerResult sys.Report) (status outcome : String)
      → r.worker_result ≡ failure_worker_result q status outcome
      → SameNonce py lower supervisor sys q r.worker_result
  nonce_of q r status outcome e =
      rw e (ap (λ (i : Identity). i.nonce) (failure-identity q status outcome))

  Handed-nonce :
      (q : Request) (r : SupervisedWorkerResult sys.Report) (s : Run World)
      → Handed py lower supervisor sys q r s
      → SameNonce py lower supervisor sys q r.worker_result
  Handed-nonce q r s (inl h) = nonce_of q r "fail" "spawn_error" h.1.1
  Handed-nonce q r s (inr (o, f, w, inl h)) = h.0.4
  Handed-nonce q r s (inr (o, f, w, inr h)) = nonce_of q r h.0 r.supervisor_outcome h.1

  -- Whose a result is.
  abbrev pub Trusted :
      Request → Result Stop (SupervisedWorkerResult sys.Report) × Run World → Type 0
  Trusted q (err e, s) = Unit
  Trusted q (ok r, s) =
      SameNonce py lower supervisor sys q r.worker_result
      × (((stdout stderr : String) × Wrote py lower supervisor sys s stdout stderr
            × Accepted py lower supervisor sys q stdout stderr r)
          ⊎ Refused py lower supervisor sys q r
          ⊎ NotSpawned py lower supervisor sys q r)

  Final-Trusted :
      (q : Request) (x : Result Stop (SupervisedWorkerResult sys.Report) × Run World)
      → Final py lower supervisor sys q x
      → Trusted q x
  Final-Trusted q (err e, s) h = tt
  Final-Trusted q (ok r, s) (inl k) = (Handed-nonce q r s (inl k), inr (inr k.1))
  Final-Trusted q (ok r, s) (inr (o, f, w, inl k)) =
      (Handed-nonce q r s (inr (o, f, w, inl k)), inl (o.stdout, o.stderr, w, k.0))
  Final-Trusted q (ok r, s) (inr (o, f, w, inr k)) =
      (Handed-nonce q r s (inr (o, f, w, inr k)), inr (inl k))

  -- A result that the supervisor hands on has the request's nonce. It is the worker's own only where
  -- the texts that the last `communicate` yielded are no longer than the limit, its stderr is nothing
  -- but white space, the privacy audit finds nothing in them, and its stdout holds that result; else it is the failure that the
  -- supervisor writes for the request, after a check or where no process was spawned.
  pub run-Trusted : (q : Request) (w : World) → Trusted q (run py lower supervisor sys q w)
  run-Trusted q w =
      Final-Trusted q (run py lower supervisor sys q w) (run-Final py lower supervisor sys q w)

  -- The outcomes of a process that ended like this.
  abbrev Told : String → SupervisedWorkerResult sys.Report → Type 0
  Told outcome r =
      Follows py lower supervisor sys outcome r
      ⊎ (contains ("protocol_error" ∷ "privacy_error" ∷ []) r.supervisor_outcome ≡ true)

  -- The calls of a run, by how it ends.
  abbrev pub Lives : Result Stop (SupervisedWorkerResult sys.Report) × Run World → Type 0
  Lives (err e, s) = (n : ℕ) × (s.history.calls ≡ life n)
  Lives (ok r, s) =
      ((s.history.calls ≡ life 1) × (r.supervisor_outcome ≡ "spawn_error"))
      ⊎ ((outcome : String) × Finished py lower supervisor sys s outcome × Told outcome r)

  Final-Lives :
      (q : Request) (x : Result Stop (SupervisedWorkerResult sys.Report) × Run World)
      → Final py lower supervisor sys q x
      → Lives x
  Final-Lives q (err e, s) h = h
  Final-Lives q (ok r, s) (inl h) = inl (h.0, h.1.0)
  Final-Lives q (ok r, s) (inr (o, f, w, inl h)) = inr (o.outcome, f, inl h.1)
  Final-Lives q (ok r, s) (inr (o, f, w, inr h)) = inr (o.outcome, f, inr h.2)

  -- The calls of a process are the first of spawn, send, terminate, wait, kill and reap, whatever is
  -- raised: it is terminated only after the input was sent, and killed only after it was terminated
  -- and waited for. A run that returns after a spawn has waited for the end, and says by its outcome
  -- with which call, unless a check failed.
  pub run-Lives : (q : Request) (w : World) → Lives (run py lower supervisor sys q w)
  run-Lives q w =
      Final-Lives q (run py lower supervisor sys q w) (run-Final py lower supervisor sys q w)
