-- ===== src/Benchmark/Supervisor/Communicating.antt =====
-- How `WorkerSupervisor.run` of benchmarks/asr/worker_supervisor.py waits for the process's end.
use nadikt.Base.{ℕ, String, none, some}
use nadikt.Base.Result.{ok, err}
use nadikt.Base.Exec.{Exec, pure, raise, catch, ◌>>=◌, ◌>>◌}
use nadikt.Protocol.Python.{Python}
use nadikt.Benchmark.Wire.{Request, print_request}
use nadikt.Benchmark.Supervisor.Process.{
  WorkerSupervisor, Stop, timeout_expired, exception, System, send, terminate, wait, kill, reap,
  Run, add, on_world, on_process, on_communicate,
}

-- What the process wrote, and the outcome so far.
pub record Ended : Type 0 where
  pub stdout : String
  pub stderr : String
  pub outcome : String

abbrev pub ended : String → String × String → Ended
ended outcome out = record { stdout = out.0; stderr = out.1; outcome = outcome }

module _ {World : Type 0} (py : Python) (lower : ℕ → ℕ) (supervisor : WorkerSupervisor)
    (sys : System World) where
  abbrev pub M : Type 0 → Type 0
  M R = Exec Stop (Run World) R

  -- `process.kill()`, and what follows.
  -- What follows a call that returned: the events, and the outcome.
  unfoldable pub was_killed : sys.Collector → String × String → M Ended
  unfolding on_world add
  was_killed collector out = do
    on_world (sys.note_missed collector "worker_killed")
    add sys "kill" "killed"
    pure (ended "killed" out)

  unfoldable pub was_terminated : sys.Collector → String × String → M Ended
  unfolding on_world add
  was_terminated collector out = do
    on_world (sys.note_missed collector "worker_terminated")
    add sys "terminate" "terminated"
    pure (ended "terminated" out)

  unfoldable pub was_completed : String × String → M Ended
  unfolding add
  was_completed out = add sys "communicate" "completed" >> pure (ended "completed" out)

  unfoldable pub reap_process : sys.Process → sys.Collector → M Ended
  unfolding on_communicate was_killed
  reap_process process collector =
      on_communicate reap (sys.communicate process none none) >>= was_killed collector

  -- `process.kill()`, and what follows.
  unfoldable pub kill_process : sys.Process → sys.Collector → M Ended
  unfolding on_process reap_process
  kill_process process collector =
      on_process kill (sys.kill process) >> reap_process process collector

  -- The handler of the inner `try`.
  unfoldable pub not_terminated : sys.Process → sys.Collector → Stop → M Ended
  unfolding kill_process
  not_terminated process collector timeout_expired = kill_process process collector
  not_terminated process collector e = raise e

  unfoldable pub wait_process : sys.Process → sys.Collector → M Ended
  unfolding on_communicate was_terminated not_terminated
  wait_process process collector =
      catch
        (on_communicate wait
            (sys.communicate process none (some supervisor.terminate_grace_seconds))
          >>= was_terminated collector)
        (not_terminated process collector)

  unfoldable pub terminate_process : sys.Process → sys.Collector → M Ended
  unfolding on_process on_world add wait_process
  terminate_process process collector = do
    on_world (sys.note_missed collector "worker_timeout")
    add sys "communicate" "timeout"
    on_process terminate (sys.terminate process)
    wait_process process collector

  -- The handler of the outer `try`.
  unfoldable pub not_completed : sys.Process → sys.Collector → Stop → M Ended
  unfolding terminate_process
  not_completed process collector timeout_expired = terminate_process process collector
  not_completed process collector e = raise e

  -- `request.to_worker_json()`, which may raise.
  abbrev pub printed : Request → M String
  printed q s = elim (print_request py q) [ ok text ↦ (ok text, s) | err e ↦ (err exception, s) ]

  unfoldable pub send_request : sys.Process → String → M Ended
  unfolding on_communicate was_completed
  send_request process text =
      on_communicate send (sys.communicate process (some text) (some supervisor.timeout_seconds))
      >>= was_completed

  -- The outer `try`.
  unfoldable pub communicate_process : Request → sys.Process → sys.Collector → M Ended
  unfolding send_request not_completed
  communicate_process q process collector =
      catch (printed q >>= send_request process) (not_completed process collector)
