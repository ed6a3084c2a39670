-- ===== src/Benchmark/Supervisor/Process.antt =====
-- benchmarks/asr/worker_supervisor.py: the data, and the calls of the process. The collection of
-- resources is an interface; `history` records the calls of the process for the theorems.
use nadikt.Base.{
  ℕ, ◌+◌, ◌-◌, String, Bool, true, false, ◌||◌, Option, some, List, [], ◌∷◌, ◌++◌, ltb,
  if◌then◌else◌, contains, str_eq,
}
use Prim.Native.String.{◌++◌ as ◌++ₛ◌}
use Prim.Native.String.{len}
use nadikt.Base.Result.{Result, ok, err}
use nadikt.Base.Exec.{Exec}
use nadikt.Base.Int.{ℤ}
use nadikt.Base.Json.{Float, end}
use nadikt.Protocol.Messages.{is_supervisor_outcome}
use nadikt.Evidence.Records.{OfflineEvidence, prefix}
use nadikt.Benchmark.Worker.Measures.{untimed}
use nadikt.Benchmark.Wire.{
  Request, request_v1, request_v2, Reply, reply_v1, reply_v2, request_identity,
}

pub record SupervisorEvent : Type 0 where
  pub event : String
  pub outcome : String
  pub elapsed_ms : ℕ

pub record SupervisedWorkerResult (Report : Type 0) : Type 0 where
  pub worker_result : Reply
  pub resource_report : Report
  pub offline_evidence : OfflineEvidence
  pub supervisor_outcome : String
  pub timeline : List SupervisorEvent

-- The settings of `WorkerSupervisor`.
pub record WorkerSupervisor : Type 0 where
  pub timeout_seconds : Float
  pub terminate_grace_seconds : Float
  pub max_capture_bytes : ℕ

-- What is raised: `subprocess.TimeoutExpired`, another `Exception`, or a `BaseException` that is
-- none.
pub data Stop : Type 0 where
  timeout_expired exception interrupt : Stop

-- `subprocess`, the clock in whole milliseconds, and `_ResourceCollector` with its sampler.
pub record System (World : Type 0) : Type 1 where
  pub Process : Type 0
  pub Collector : Type 0
  pub Report : Type 0
  pub monotonic : World → ℕ
  pub popen : Exec Stop World Process
  pub communicate :
      Process
      → (input : Option String) → (timeout : Option Float) → Exec Stop World (String × String)
  pub terminate : Process → Exec Stop World (Unit {0})
  pub kill : Process → Exec Stop World (Unit {0})
  pub returncode : Process → World → Option ℤ
  pub sampler_factory : Exec Stop World (Unit {0})
  pub start_collector : (with_sampler : Bool) → Process → Exec Stop World Collector
  pub note_missed : Collector → String → Exec Stop World (Unit {0})
  pub finish : Collector → Exec Stop World Report
  pub report_status : Report → String
  pub spawn_failed_report : Report

-- The calls of a process: its input is sent, it is waited for after `terminate` or after `kill`.
pub data Call : Type 0 where
  spawn send terminate wait kill reap : Call

-- The calls of the process so far, and what the last call of `communicate` that returned yielded of
-- its stdout and stderr.
pub record History : Type 0 where
  pub calls : List Call
  pub output : Option (String × String)

-- The local variables of `run`.
pub record Run (World : Type 0) : Type 0 where
  pub world : World
  pub started : ℕ
  pub events : List SupervisorEvent
  pub history : History

-- The outcomes that `_Timeline.add` keeps.
unfoldable pub is_safe_outcome : String → Bool
unfolding is_supervisor_outcome
is_safe_outcome outcome =
    is_supervisor_outcome outcome || contains ("ok" ∷ "partial" ∷ "unavailable" ∷ []) outcome

module _ {World : Type 0} (sys : System World) where
  -- `_Timeline.add`
  unfoldable pub add : String → String → Exec Stop (Run World) (Unit {0})
  unfolding is_safe_outcome
  add event outcome s =
      let e : SupervisorEvent = record {
        event = event;
        outcome = if is_safe_outcome outcome then outcome else "completed";
        elapsed_ms = sys.monotonic s.world - s.started;
      } in
      (ok tt, record s { events = s.events ++ (e ∷ []) })

abbrev pub noted : Call → History → History
noted call h = record h { calls = h.calls ++ (call ∷ []) }

abbrev pub heard : Result Stop (String × String) → History → History
heard (ok out) h = record h { output = some out }
heard (err e) h = h

module _ {World R : Type 0} where
  unfoldable pub on_world : Exec Stop World R → Exec Stop (Run World) R
  on_world op s = let (r, w) = op s.world in (r, record s { world = w })

  -- A call of the process.
  unfoldable pub on_process : Call → Exec Stop World R → Exec Stop (Run World) R
  unfolding on_world
  on_process call op s = on_world op (record s { history = noted call s.history })

-- A call of `process.communicate`, whose answer is recorded.
unfoldable pub on_communicate :
    {World : Type 0}
    → Call
    → Exec Stop World (String × String)
    → Exec Stop (Run World) (String × String)
on_communicate call op s =
    let (r, w) = op s.world in (r, record s { world = w; history = heard r (noted call s.history) })

pub record CapturedText : Type 0 where
  pub stdout : String
  pub stderr : String
  pub oversized : Bool

-- `_bounded_capture`
unfoldable pub bounded_capture : String → String → ℕ → CapturedText
bounded_capture stdout stderr max_capture_bytes =
    if ltb max_capture_bytes (len stdout + len stderr)
    then record { stdout = ""; stderr = ""; oversized = true }
    else record { stdout = stdout; stderr = stderr; oversized = false }

-- `_worker_canary`
unfoldable pub worker_canary : Request → String
unfolding prefix
worker_canary q = "NADIKT_CONTROLLED_CANARY_" ++ₛ prefix 12 (request_identity q).nonce

-- `_failure_worker_result`
unfoldable pub failure_worker_result : Request → String → String → Reply
unfolding untimed
failure_worker_result (request_v1 q) worker_status outcome = reply_v1 (record {
  nonce = q.nonce;
  package_id = q.package_id;
  candidate_id = q.candidate_id;
  backend = q.backend;
  worker_status = worker_status;
  phases =
      untimed "supervisor" (if str_eq outcome "protocol_error" then "protocol_error" else "fail")
      ∷ [];
  quality_metrics = [];
  offline_evidence = end;
})
failure_worker_result (request_v2 q) worker_status outcome = reply_v2 (record {
  nonce = q.nonce;
  package_id = q.package_id;
  candidate_id = q.candidate_id;
  backend = q.backend;
  worker_status = worker_status;
  repeat = record {
    repeat_index = q.repeat.repeat_index;
    outcome = "fail";
    phases =
        untimed "supervisor" (if str_eq outcome "protocol_error" then "protocol_error" else "fail")
        ∷ [];
    samples = [];
  };
})
