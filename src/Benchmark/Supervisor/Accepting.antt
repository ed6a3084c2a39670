-- ===== src/Benchmark/Supervisor/Accepting.antt =====
-- Which results `WorkerSupervisor.run` of benchmarks/asr/worker_supervisor.py accepts.
use nadikt.Base.{
  ℕ, zero, suc, ◌+◌, ◌≤◌, String, Bool, true, false, Option, none, some, [], ◌∷◌, eq_iff, contains,
  ◌≡◌, refl, ◌⊎◌, inl, inr, arith,
}
use Prim.Native.String.{len, ◌++◌ as ◌++ₛ◌}
use nadikt.Base.Result.{Result, ok, err}
use nadikt.Base.Exec.{Exec, ◌>>◌}
use nadikt.Base.Texts.{strip}
use nadikt.Base.Int.{ℤ, pos, negsuc}
use nadikt.Protocol.Python.{Python}
use nadikt.Quality.Tokens.{codes}
use nadikt.Benchmark.Wire.{
  Request, request_v1, request_v2, Reply, request_identity, reply_identity, loads_worker_result,
}
use nadikt.Benchmark.Privacy.Audit.{audit_text_artifact, has_violation}
use nadikt.Benchmark.Supervisor.Process.{
  SupervisedWorkerResult, WorkerSupervisor, Stop, System, Run, add, worker_canary,
  failure_worker_result,
}
use nadikt.Benchmark.Supervisor.Running.{
  supervised, supervised_result, refuse, is_nonzero_exit, accept,
}
use nadikt.Benchmark.Supervisor.Communicating.{Ended}

-- What holds of a result that is returned.
abbrev pub Returned : {S A : Type 0} → (A → Type 0) → Result Stop A × S → Type 0
Returned P (ok a, s) = P a
Returned P (err e, s) = Unit

pub failure-identity :
    (q : Request) (status outcome : String)
    → reply_identity (failure_worker_result q status outcome) ≡ request_identity q
unfolding failure_worker_result
failure-identity (request_v1 q) status outcome = refl
failure-identity (request_v2 q) status outcome = refl

module _ {World : Type 0} (py : Python) (lower : ℕ → ℕ) (supervisor : WorkerSupervisor)
    (sys : System World) where
  -- The worker's own result, read from these texts: they are no longer than the limit, stderr is
  -- nothing but white space, the audit finds nothing in them, and the result of stdout has the
  -- request's nonce.
  abbrev pub Accepted :
      Request → (stdout stderr : String) → SupervisedWorkerResult sys.Report → Type 0
  Accepted q stdout stderr r =
      (len stdout + len stderr ≤ supervisor.max_capture_bytes)
      × (strip stderr ≡ "")
      × (has_violation
            (audit_text_artifact lower (codes (stdout ++ₛ stderr)) (some (worker_canary q)))
          ≡ false)
      × (loads_worker_result py stdout ≡ ok r.worker_result)
      × ((reply_identity r.worker_result).nonce ≡ (request_identity q).nonce)

  -- The failure that the supervisor writes for this request after a check.
  abbrev pub Refused : Request → SupervisedWorkerResult sys.Report → Type 0
  Refused q r =
      (status : String) × (r.worker_result ≡ failure_worker_result q status r.supervisor_outcome)
      × (contains ("protocol_error" ∷ "privacy_error" ∷ []) r.supervisor_outcome ≡ true)

  -- The outcome is the one of the process, or a completed one that exited with an error.
  abbrev pub Follows : String → SupervisedWorkerResult sys.Report → Type 0
  Follows outcome r =
      (r.supervisor_outcome ≡ outcome)
      ⊎ ((r.supervisor_outcome ≡ "nonzero_exit") × (outcome ≡ "completed"))

  abbrev pub Judged : Request → Ended → SupervisedWorkerResult sys.Report → Type 0
  Judged q out r = (Accepted q out.stdout out.stderr r × Follows out.outcome r) ⊎ Refused q r

  pub refuse-Judged :
      (q : Request) (ending : Ended) (report : sys.Report) (event status outcome : String)
      (s : Run World)
      → contains ("protocol_error" ∷ "privacy_error" ∷ []) outcome ≡ true
      → Returned (Judged q ending) (refuse py lower supervisor sys q report event status outcome s)
  unfolding refuse add supervised
  refuse-Judged q ending report event status outcome s h = inr (status, refl, h)

  -- Whatever else the result says, it is judged by its worker's result.
  abbrev pub Judges : Request → Ended → Reply → Type 0
  Judges q out reply =
      (r : SupervisedWorkerResult sys.Report)
      → Follows out.outcome r
      → r.worker_result ≡ reply
      → Judged q out r

  abbrev pub M : Type 0
  M = Exec Stop (Run World) (SupervisedWorkerResult sys.Report)

  pub is_nonzero_exit-completed :
      (code : Option ℤ) (outcome : String)
      → is_nonzero_exit py lower supervisor sys code outcome ≡ true
      → outcome ≡ "completed"
  unfolding is_nonzero_exit
  is_nonzero_exit-completed none outcome e = absurd (ground arith)
  is_nonzero_exit-completed (some (pos zero)) outcome e = absurd (ground arith)
  is_nonzero_exit-completed (some (pos (suc n))) outcome e = (eq_iff outcome "completed").0 e
  is_nonzero_exit-completed (some (negsuc n)) outcome e = (eq_iff outcome "completed").0 e

  pub by_exit :
      (q : Request) (report : sys.Report) (out : Ended) (reply : Reply) (nonzero : Bool)
      (s : Run World)
      → (nonzero ≡ true → out.outcome ≡ "completed")
      → Judges q out reply
      → Returned (Judged q out) (
          (elim nonzero as (λ b. M) [
            | true ↦
                add sys "exit_status" "nonzero_exit"
                >> supervised py lower supervisor sys q report "nonzero_exit" reply
            | false ↦ supervised py lower supervisor sys q report out.outcome reply
          ])
            s)
  unfolding add supervised
  by_exit q report out reply true s e h =
      h
        (supervised_result py lower supervisor sys q report "nonzero_exit" reply
          (add sys "exit_status" "nonzero_exit" s).1)
        (inr (refl, e refl)) refl
  by_exit q report out reply false s e h =
      h (supervised_result py lower supervisor sys q report out.outcome reply s) (inl refl) refl

  pub accept-Judged :
      (q : Request) (process : sys.Process) (report : sys.Report) (out : Ended) (reply : Reply)
      (s : Run World)
      → Judges q out reply
      → Returned
          (Judged q out)
          (accept py lower supervisor sys q process report out.outcome reply s)
  unfolding accept add
  accept-Judged q process report out reply s h =
      by_exit q report out reply
        (is_nonzero_exit py lower supervisor sys (sys.returncode process s.world) out.outcome)
        (add sys "parse" "completed" s).1
        (is_nonzero_exit-completed (sys.returncode process s.world) out.outcome) h

  pub by_nonce :
      (q : Request) (process : sys.Process) (report : sys.Report) (out : Ended) (reply : Reply)
      (same : Bool) (s : Run World)
      → (same ≡ true → Judges q out reply)
      → Returned (Judged q out) (
          (elim same as (λ b. M) [
            | true ↦ accept py lower supervisor sys q process report out.outcome reply
            | false ↦
                refuse py lower supervisor sys q report "nonce" "protocol_error" "protocol_error"
          ])
            s)
  by_nonce q process report out reply true s h = accept-Judged q process report out reply s (h refl)
  by_nonce q process report out reply false s h =
      refuse-Judged q out report "nonce" "protocol_error" "protocol_error" s refl
