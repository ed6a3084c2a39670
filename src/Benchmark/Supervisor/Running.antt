-- ===== src/Benchmark/Supervisor/Running.antt =====
-- `WorkerSupervisor.run` of benchmarks/asr/worker_supervisor.py.
use nadikt.Base.{ℕ, String, Bool, true, false, Option, none, some, [], str_eq}
use Prim.Native.String.{◌++◌ as ◌++ₛ◌}
use nadikt.Base.Result.{Result, ok, err}
use nadikt.Base.Exec.{pure, raise, gets, catch, ◌>>=◌, ◌>>◌}
use nadikt.Base.Int.{ℤ, pos}
use nadikt.Base.Texts.{strip}
use nadikt.Protocol.Python.{Python}
use nadikt.Evidence.Records.{OfflineEvidence, unverified_evidence}
use nadikt.Quality.Tokens.{codes}
use nadikt.Benchmark.Wire.{Request, Reply, request_identity, reply_identity, loads_worker_result}
use nadikt.Benchmark.Privacy.Audit.{audit_text_artifact, has_violation}
use nadikt.Benchmark.Supervisor.Process.{
  SupervisedWorkerResult, WorkerSupervisor, Stop, interrupt, System, spawn, Run, add, on_world,
  on_process, bounded_capture, worker_canary, failure_worker_result,
}
use nadikt.Benchmark.Supervisor.Communicating.{Ended, M, communicate_process}

module _ {World : Type 0} (py : Python) (lower : ℕ → ℕ) (supervisor : WorkerSupervisor)
    (sys : System World) where
  abbrev pub evidence_of : Request → OfflineEvidence
  evidence_of q = unverified_evidence (request_identity q).nonce "qualified_monitor_not_configured"

  -- `SupervisedWorkerResult(…)`, with the events so far.
  abbrev pub supervised_result :
      Request → sys.Report → String → Reply → Run World → SupervisedWorkerResult sys.Report
  supervised_result q report outcome reply s = record {
    worker_result = reply;
    resource_report = report;
    offline_evidence = evidence_of q;
    supervisor_outcome = outcome;
    timeline = s.events;
  }

  unfoldable pub supervised :
      Request
      → sys.Report
      → String
      → Reply
      → M py lower supervisor sys (SupervisedWorkerResult sys.Report)
  supervised q report outcome reply = gets (supervised_result q report outcome reply)

  -- An event and the failure that follows it.
  unfoldable pub refuse :
      Request
      → sys.Report
      → (event worker_status outcome : String)
      → M py lower supervisor sys (SupervisedWorkerResult sys.Report)
  unfolding add supervised
  refuse q report event worker_status outcome =
      add sys event outcome
      >> supervised q report outcome (failure_worker_result q worker_status outcome)

  -- `isinstance(return_code, int) and return_code != 0 and supervisor_outcome == "completed"`
  unfoldable pub is_nonzero_exit : Option ℤ → String → Bool
  is_nonzero_exit none outcome = false
  is_nonzero_exit (some (pos ℕ.zero)) outcome = false
  is_nonzero_exit (some n) outcome = str_eq outcome "completed"

  unfoldable pub accept :
      Request
      → sys.Process
      → sys.Report
      → String
      → Reply
      → M py lower supervisor sys (SupervisedWorkerResult sys.Report)
  unfolding add supervised is_nonzero_exit
  accept q process report outcome reply s =
      (add sys "parse" "completed"
          >> elim (is_nonzero_exit (sys.returncode process s.world) outcome) [
            | true ↦
                add sys "exit_status" "nonzero_exit" >> supervised q report "nonzero_exit" reply
            | false ↦ supervised q report outcome reply
          ])
        s

  -- From the parsed result on.
  unfoldable pub check_nonce :
      Request
      → sys.Process
      → sys.Report
      → String
      → Reply
      → M py lower supervisor sys (SupervisedWorkerResult sys.Report)
  unfolding refuse accept
  check_nonce q process report outcome reply =
      elim (str_eq (reply_identity reply).nonce (request_identity q).nonce) [
        | true ↦ accept q process report outcome reply
        | false ↦ refuse q report "nonce" "protocol_error" "protocol_error"
      ]

  -- From the audit on.
  unfoldable pub parse_stdout :
      Request
      → sys.Process
      → sys.Report
      → Ended
      → M py lower supervisor sys (SupervisedWorkerResult sys.Report)
  unfolding refuse check_nonce
  parse_stdout q process report out = elim (loads_worker_result py out.stdout) [
    | err e ↦ refuse q report "parse" "protocol_error" "protocol_error"
    | ok reply ↦ check_nonce q process report out.outcome reply
  ]

  unfoldable pub audit_capture :
      Request
      → sys.Process
      → sys.Report
      → Ended
      → M py lower supervisor sys (SupervisedWorkerResult sys.Report)
  unfolding refuse add parse_stdout
  audit_capture q process report out =
      elim (has_violation
        (audit_text_artifact lower (codes (out.stdout ++ₛ out.stderr)) (some (worker_canary q)))) [
          | true ↦ refuse q report "privacy_audit" "fail" "privacy_error"
          | false ↦ add sys "privacy_audit" "completed" >> parse_stdout q process report out
        ]

  -- From `_bounded_capture` on.
  unfoldable pub check_capture :
      Request
      → sys.Process
      → sys.Report
      → Ended
      → M py lower supervisor sys (SupervisedWorkerResult sys.Report)
  unfolding refuse add audit_capture strip bounded_capture
  check_capture q process report out =
      let capture = bounded_capture out.stdout out.stderr supervisor.max_capture_bytes in
      elim capture.oversized [
        | true ↦ refuse q report "capture" "protocol_error" "protocol_error"
        | false ↦ elim (str_eq (strip capture.stderr) "") [
          | false ↦ refuse q report "capture" "fail" "privacy_error"
          | true ↦
              add sys "capture" "completed"
              >> audit_capture q process report (record {
                stdout = capture.stdout;
                stderr = capture.stderr;
                outcome = out.outcome;
              })
        ]
      ]

  -- `except Exception` around the sampler's factory.
  unfoldable pub make_sampler : M py lower supervisor sys Bool
  unfolding on_world add
  make_sampler = catch (on_world sys.sampler_factory >> pure true) (λ e. elim e [
    | interrupt ↦ raise interrupt
    | _ ↦ add sys "sampler" "unavailable" >> pure false
  ])

  -- The report and what follows it, once the process has ended.
  unfoldable pub report_on :
      Request
      → sys.Process
      → Ended
      → sys.Report
      → M py lower supervisor sys (SupervisedWorkerResult sys.Report)
  unfolding add check_capture
  report_on q process out report =
      add sys "resource_collection" (sys.report_status report) >> check_capture q process report out

  unfoldable pub collect :
      Request
      → sys.Process
      → sys.Collector
      → Ended
      → M py lower supervisor sys (SupervisedWorkerResult sys.Report)
  unfolding on_world report_on
  collect q process collector out = on_world (sys.finish collector) >>= report_on q process out

  unfoldable pub communicate :
      Request
      → sys.Process
      → sys.Collector
      → M py lower supervisor sys (SupervisedWorkerResult sys.Report)
  unfolding communicate_process collect
  communicate q process collector =
      communicate_process py lower supervisor sys q process collector
      >>= collect q process collector

  unfoldable pub start :
      Request → sys.Process → Bool → M py lower supervisor sys (SupervisedWorkerResult sys.Report)
  unfolding on_world communicate
  start q process with_sampler =
      on_world (sys.start_collector with_sampler process) >>= communicate q process

  -- What follows a spawned process.
  unfoldable pub supervise :
      Request → sys.Process → M py lower supervisor sys (SupervisedWorkerResult sys.Report)
  unfolding add make_sampler start
  supervise q process = add sys "spawn" "completed" >> (make_sampler >>= start q process)

  -- The handler of the first `try`.
  unfoldable pub not_spawned :
      Request → Stop → M py lower supervisor sys (SupervisedWorkerResult sys.Report)
  unfolding add
  not_spawned q interrupt = raise interrupt
  not_spawned q e =
      add sys "spawn" "spawn_error"
      >> gets (λ s. record {
        worker_result = failure_worker_result q "fail" "spawn_error";
        resource_report = sys.spawn_failed_report;
        offline_evidence =
            unverified_evidence (request_identity q).nonce "spawn_error_before_monitor";
        supervisor_outcome = "spawn_error";
        timeline = s.events;
      })

  unfoldable pub run_from : Request → M py lower supervisor sys (SupervisedWorkerResult sys.Report)
  unfolding on_process not_spawned supervise
  run_from q s =
      let (r, s') = on_process spawn sys.popen s in
      elim r [ ok process ↦ supervise q process s' | err e ↦ not_spawned q e s' ]

  unfoldable pub run : Request → World → Result Stop (SupervisedWorkerResult sys.Report) × Run World
  unfolding run_from
  run q w = run_from q (record {
    world = w;
    started = sys.monotonic w;
    events = [];
    history = record { calls = []; output = none };
  })
