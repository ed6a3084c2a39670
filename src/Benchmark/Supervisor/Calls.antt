-- ===== src/Benchmark/Supervisor/Calls.antt =====
-- How `WorkerSupervisor.run` of benchmarks/asr/worker_supervisor.py waits for a process.
use nadikt.Base.{ℕ, String, none, some, [], ◌∷◌, ◌++◌, ◌≡◌, refl, ◌∙◌, inl, inr, arith}
use nadikt.Base.Result.{Result, ok, err, Result-cases}
use nadikt.Base.Exec.{Exec, ◌>>=◌, ◌>>◌}
use nadikt.Protocol.Python.{Python, Error}
use nadikt.Benchmark.Wire.{Request, print_request}
use nadikt.Benchmark.Supervisor.Process.{
  WorkerSupervisor, Stop, timeout_expired, exception, interrupt, System, Call, send, terminate,
  wait, Run, add, on_world, on_process, on_communicate, noted, heard,
}
use nadikt.Benchmark.Supervisor.Communicating.{
  Ended, was_terminated, was_completed, wait_process, send_request, not_terminated,
  terminate_process, not_completed, communicate_process,
}
use nadikt.Benchmark.Supervisor.Life.{life, Communicated}
use nadikt.Benchmark.Supervisor.Steps.{
  one_more, process_call, communicate_call, world_call, was_terminated-Communicated,
  kill_process-Communicated,
}

module _ {World : Type 0} (py : Python) (lower : ℕ → ℕ) (supervisor : WorkerSupervisor)
    (sys : System World) where
  abbrev Ending : Type 0
  Ending = Exec Stop (Run World) Ended

  abbrev Caught : (Stop → Ending) → Result Stop Ended × Run World → Type 0
  Caught handler x =
      Communicated py lower supervisor sys (elim x.0 as (λ r. Result Stop Ended × Run World) [
        | ok a ↦ (ok a, x.1)
        | err e ↦ handler e x.1
      ])

  -- The rule of a handler, which runs in a state with the property.
  handled :
      (P : Run World → Type 0) (handler : Stop → Ending) (x : Result Stop Ended × Run World)
      → Communicated py lower supervisor sys x
      → P x.1
      → ((e : Stop) (s : Run World) → P s → Communicated py lower supervisor sys (handler e s))
      → Caught handler x
  handled P handler (ok a, s) h p k = h
  handled P handler (err e, s) h p k = k e s p

  was_terminated-calls :
      (collector : sys.Collector) (out : String × String) (s : Run World)
      → (was_terminated py lower supervisor sys collector out s).1.history.calls ≡ s.history.calls
  unfolding was_terminated on_world add
  was_terminated-calls collector out s =
      elim (Result-cases (sys.note_missed collector "worker_terminated" s.world).0) [
        | inl (u, e) ↦ ground arith
        | inr (x, e) ↦ ground arith
      ]

  communicate_call-calls :
      (call : Call) (op : Exec Stop World (String × String)) (f : String × String → Ending)
      → ((a : String × String) (s : Run World) → (f a s).1.history.calls ≡ s.history.calls)
      → (s : Run World)
      → ((on_communicate call op >>= f) s).1.history.calls ≡ s.history.calls ++ (call ∷ [])
  unfolding on_communicate
  communicate_call-calls call op f h s = at (op s.world).0 (op s.world).1
    where
      at :
          (r : Result Stop (String × String)) (w : World)
          → (elim r as (λ r'. Result Stop Ended × Run World) [
            | ok a ↦ f a (record s { world = w; history = heard r (noted call s.history) })
            | err x ↦ (err x, record s { world = w; history = heard r (noted call s.history) })
          ]).1.history.calls
            ≡ s.history.calls ++ (call ∷ [])
      at (ok a) w = h a (record s { world = w; history = heard (ok a) (noted call s.history) })
      at (err x) w = refl

  not_terminated-Communicated :
      (process : sys.Process) (collector : sys.Collector) (e : Stop) (s : Run World)
      → s.history.calls ≡ life 4
      → Communicated py lower supervisor sys
          (not_terminated py lower supervisor sys process collector e s)
  unfolding not_terminated
  not_terminated-Communicated process collector timeout_expired s h =
      kill_process-Communicated py lower supervisor sys process collector s h
  not_terminated-Communicated process collector exception s h = (4, h)
  not_terminated-Communicated process collector interrupt s h = (4, h)

  wait_process-Communicated :
      (process : sys.Process) (collector : sys.Collector) (s : Run World)
      → s.history.calls ≡ life 3
      → Communicated py lower supervisor sys
          (wait_process py lower supervisor sys process collector s)
  unfolding wait_process
  wait_process-Communicated process collector s h =
      let op = sys.communicate process none (some supervisor.terminate_grace_seconds) in
      let f = was_terminated py lower supervisor sys collector in
      handled (λ s'. s'.history.calls ≡ life 4)
        (not_terminated py lower supervisor sys process collector)
        ((on_communicate wait op >>= f) s)
        (communicate_call py lower supervisor sys 3 wait op f refl
          (was_terminated-Communicated py lower supervisor sys collector) s h)
        (communicate_call-calls wait op f (was_terminated-calls collector) s
          ∙ one_more py lower supervisor sys s.history.calls (life 3) wait h)
        (not_terminated-Communicated process collector)

  terminate_process-Communicated :
      (process : sys.Process) (collector : sys.Collector) (s : Run World)
      → s.history.calls ≡ life 2
      → Communicated py lower supervisor sys
          (terminate_process py lower supervisor sys process collector s)
  unfolding terminate_process add
  terminate_process-Communicated process collector s h =
      let waiting : Unit {0} → Ending =
        λ u. wait_process py lower supervisor sys process collector in
      let terminating = on_process terminate (sys.terminate process) >>= waiting in
      world_call py lower supervisor sys 2 (sys.note_missed collector "worker_timeout")
        (λ u. add sys "communicate" "timeout" >> terminating) s h
        (λ u w.
          process_call py lower supervisor sys 2 terminate (sys.terminate process) waiting refl
            (λ v. wait_process-Communicated process collector)
            (add sys "communicate" "timeout" (record s { world = w })).1 h)

  not_completed-Communicated :
      (process : sys.Process) (collector : sys.Collector) (e : Stop) (s : Run World)
      → s.history.calls ≡ life 2
      → Communicated py lower supervisor sys
          (not_completed py lower supervisor sys process collector e s)
  unfolding not_completed
  not_completed-Communicated process collector timeout_expired s h =
      terminate_process-Communicated process collector s h
  not_completed-Communicated process collector exception s h = (2, h)
  not_completed-Communicated process collector interrupt s h = (2, h)

  send_request-Communicated :
      (process : sys.Process) (collector : sys.Collector) (text : String) (s : Run World)
      → s.history.calls ≡ life 1
      → Caught
          (not_completed py lower supervisor sys process collector)
          (send_request py lower supervisor sys process text s)
  unfolding send_request was_completed add
  send_request-Communicated process collector text s h =
      let op = sys.communicate process (some text) (some supervisor.timeout_seconds) in
      let f = was_completed py lower supervisor sys in
      handled (λ s'. s'.history.calls ≡ life 2)
        (not_completed py lower supervisor sys process collector) ((on_communicate send op >>= f) s)
        (communicate_call py lower supervisor sys 1 send op f refl
          (λ out s' c o. (inl (c, refl), o)) s h)
        (communicate_call-calls send op f (λ out s'. refl) s
          ∙ one_more py lower supervisor sys s.history.calls (life 1) send h)
        (not_completed-Communicated process collector)

  by_print :
      (process : sys.Process) (collector : sys.Collector) (x : Result Error String) (s : Run World)
      → s.history.calls ≡ life 1
      → Caught (not_completed py lower supervisor sys process collector) (
          ((λ s'. elim x as (λ r. Result Stop String × Run World) [
            | ok text ↦ (ok text, s')
            | err e ↦ (err exception, s')
          ])
              >>= send_request py lower supervisor sys process)
            s)
  unfolding not_completed
  by_print process collector (ok text) s h = send_request-Communicated process collector text s h
  by_print process collector (err e) s h = (1, h)

  pub communicate_process-Communicated :
      (q : Request) (process : sys.Process) (collector : sys.Collector) (s : Run World)
      → s.history.calls ≡ life 1
      → Communicated py lower supervisor sys
          (communicate_process py lower supervisor sys q process collector s)
  unfolding communicate_process
  communicate_process-Communicated q process collector s h =
      by_print process collector (print_request py q) s h
