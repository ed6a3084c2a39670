-- ===== src/Benchmark/Supervisor/Trusting.antt =====
-- Which results `WorkerSupervisor.run` of benchmarks/asr/worker_supervisor.py hands on.
use nadikt.Base.{
  ℕ, ◌+◌, ◌≤◌, Bool, true, false, some, ltb, if◌then◌else◌, str_eq, eq_iff, ◌≡◌, refl, inl, arith,
}
use Prim.Native.String.{len, ◌++◌ as ◌++ₛ◌}
use nadikt.Base.Result.{Result, ok, err}
use nadikt.Base.Exec.{◌>>◌}
use nadikt.Base.Texts.{strip}
use nadikt.Protocol.Python.{Python, Error}
use nadikt.Quality.Tokens.{codes}
use nadikt.Benchmark.Wire.{Request, Reply, request_identity, reply_identity, loads_worker_result}
use nadikt.Benchmark.Privacy.Audit.{audit_text_artifact, has_violation}
use nadikt.Benchmark.Supervisor.Process.{
  WorkerSupervisor, System, Run, add, bounded_capture, worker_canary, CapturedText,
}
use nadikt.Benchmark.Supervisor.Running.{
  refuse, check_nonce, parse_stdout, audit_capture, check_capture,
}
use nadikt.Benchmark.Supervisor.Communicating.{Ended}
use nadikt.Benchmark.Supervisor.Accepting.{Returned, Judged, refuse-Judged, Judges, M, by_nonce}

module _ {World : Type 0} (py : Python) (lower : ℕ → ℕ) (supervisor : WorkerSupervisor)
    (sys : System World) where
  abbrev pub SameNonce : Request → Reply → Type 0
  SameNonce q reply = (reply_identity reply).nonce ≡ (request_identity q).nonce

  check_nonce-Judged :
      (q : Request) (process : sys.Process) (report : sys.Report) (out : Ended) (reply : Reply)
      (s : Run World)
      → (SameNonce q reply → Judges py lower supervisor sys q out reply)
      → Returned
          (Judged py lower supervisor sys q out)
          (check_nonce py lower supervisor sys q process report out.outcome reply s)
  unfolding check_nonce
  check_nonce-Judged q process report out reply s h =
      by_nonce py lower supervisor sys q process report out reply
        (str_eq (reply_identity reply).nonce (request_identity q).nonce) s
        (λ e. h ((eq_iff (reply_identity reply).nonce (request_identity q).nonce).0 e))

  by_parse :
      (q : Request) (process : sys.Process) (report : sys.Report) (out : Ended)
      (x : Result Error Reply) (s : Run World)
      → ((reply : Reply)
          → x ≡ ok reply
          → SameNonce q reply
          → Judges py lower supervisor sys q out reply)
      → Returned (Judged py lower supervisor sys q out) (
          (elim x as (λ r. M py lower supervisor sys) [
            | err e ↦
                refuse py lower supervisor sys q report "parse" "protocol_error" "protocol_error"
            | ok reply ↦ check_nonce py lower supervisor sys q process report out.outcome reply
          ])
            s)
  by_parse q process report out (ok reply) s h =
      check_nonce-Judged q process report out reply s (h reply refl)
  by_parse q process report out (err e) s h =
      refuse-Judged py lower supervisor sys q out report "parse" "protocol_error" "protocol_error" s
        refl

  by_audit :
      (q : Request) (process : sys.Process) (report : sys.Report) (out : Ended) (violation : Bool)
      (s : Run World)
      → (violation ≡ false
          → (reply : Reply) → loads_worker_result py out.stdout ≡ ok reply
          → SameNonce q reply
          → Judges py lower supervisor sys q out reply)
      → Returned (Judged py lower supervisor sys q out) (
          (elim violation as (λ b. M py lower supervisor sys) [
            | true ↦ refuse py lower supervisor sys q report "privacy_audit" "fail" "privacy_error"
            | false ↦
                add sys "privacy_audit" "completed"
                >> parse_stdout py lower supervisor sys q process report out
          ])
            s)
  unfolding add parse_stdout
  by_audit q process report out true s h =
      refuse-Judged py lower supervisor sys q out report "privacy_audit" "fail" "privacy_error" s
        refl
  by_audit q process report out false s h =
      by_parse q process report out (loads_worker_result py out.stdout)
        (add sys "privacy_audit" "completed" s).1 (h refl)

  audit_capture-Judged :
      (q : Request) (process : sys.Process) (report : sys.Report) (out : Ended) (s : Run World)
      → len out.stdout + len out.stderr ≤ supervisor.max_capture_bytes
      → strip out.stderr ≡ ""
      → Returned
          (Judged py lower supervisor sys q out)
          (audit_capture py lower supervisor sys q process report out s)
  unfolding audit_capture
  audit_capture-Judged q process report out s bounded blank =
      by_audit q process report out
        (has_violation
          (audit_text_artifact lower (codes (out.stdout ++ₛ out.stderr)) (some (worker_canary q))))
        s
        (λ clean reply parsed same r follows e.
          inl ((bounded, blank, clean, rw e parsed, rw e same), follows))

  by_blank :
      (q : Request) (process : sys.Process) (report : sys.Report) (out : Ended) (blank : Bool)
      (s : Run World)
      → len out.stdout + len out.stderr ≤ supervisor.max_capture_bytes
      → (blank ≡ true → strip out.stderr ≡ "")
      → Returned (Judged py lower supervisor sys q out) (
          (elim blank as (λ b. M py lower supervisor sys) [
            | false ↦ refuse py lower supervisor sys q report "capture" "fail" "privacy_error"
            | true ↦
                add sys "capture" "completed"
                >> audit_capture py lower supervisor sys q process report out
          ])
            s)
  unfolding add
  by_blank q process report out false s bounded h =
      refuse-Judged py lower supervisor sys q out report "capture" "fail" "privacy_error" s refl
  by_blank q process report out true s bounded h =
      audit_capture-Judged q process report out (add sys "capture" "completed" s).1 bounded (h refl)

  by_size :
      (q : Request) (process : sys.Process) (report : sys.Report) (out : Ended) (oversized : Bool)
      (s : Run World)
      → (oversized ≡ false → len out.stdout + len out.stderr ≤ supervisor.max_capture_bytes)
      → Returned (Judged py lower supervisor sys q out) (
          let capture : CapturedText =
            (if oversized
              then record { stdout = ""; stderr = ""; oversized = true }
              else record { stdout = out.stdout; stderr = out.stderr; oversized = false }) in
          (elim capture.oversized as (λ b. M py lower supervisor sys) [
            | true ↦
                refuse py lower supervisor sys q report "capture" "protocol_error" "protocol_error"
            | false ↦ elim (str_eq (strip capture.stderr) "") as (λ b. M py lower supervisor sys) [
              | false ↦ refuse py lower supervisor sys q report "capture" "fail" "privacy_error"
              | true ↦
                  add sys "capture" "completed"
                  >> audit_capture py lower supervisor sys q process report (record {
                    stdout = capture.stdout;
                    stderr = capture.stderr;
                    outcome = out.outcome;
                  })
            ]
          ])
            s)
  by_size q process report out true s h =
      refuse-Judged py lower supervisor sys q out report "capture" "protocol_error" "protocol_error"
        s refl
  by_size q process report out false s h =
      by_blank q process report out (str_eq (strip out.stderr) "") s (h refl)
        (λ e. (eq_iff (strip out.stderr) "").0 e)

  pub check_capture-Judged :
      (q : Request) (process : sys.Process) (report : sys.Report) (out : Ended) (s : Run World)
      → Returned
          (Judged py lower supervisor sys q out)
          (check_capture py lower supervisor sys q process report out s)
  unfolding check_capture bounded_capture
  check_capture-Judged q process report out s =
      by_size q process report out
        (ltb supervisor.max_capture_bytes (len out.stdout + len out.stderr)) s
        (λ e. ground (arith, e))
