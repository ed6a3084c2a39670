-- ===== src/Benchmark/Supervisor/Finishing.antt =====
-- How `WorkerSupervisor.run` of benchmarks/asr/worker_supervisor.py ends.
use nadikt.Base.{ℕ, String, none, [], ◌≡◌, refl, ap, ◌∙◌, ◌⊎◌, inl, inr}
use nadikt.Base.Result.{Result, ok, err}
use nadikt.Base.Exec.{Exec, ◌>>=◌}
use nadikt.Protocol.Python.{Python}
use nadikt.Benchmark.Wire.{Request}
use nadikt.Benchmark.Supervisor.Process.{
  SupervisedWorkerResult, WorkerSupervisor, Stop, timeout_expired, exception, interrupt, System,
  Run, History, add, on_world, on_process, spawn, failure_worker_result,
}
use nadikt.Benchmark.Supervisor.Running.{
  check_capture, make_sampler, report_on, collect, communicate, start, supervise, not_spawned,
  run_from, run,
}
use nadikt.Benchmark.Supervisor.Communicating.{Ended, communicate_process}
use nadikt.Benchmark.Supervisor.Life.{
  life, Finished, Wrote, Communicated, check_capture-calls, make_sampler-calls,
}
use nadikt.Benchmark.Supervisor.Calls.{communicate_process-Communicated}
use nadikt.Benchmark.Supervisor.Trusting.{check_capture-Judged}
use nadikt.Benchmark.Supervisor.Accepting.{Returned, Judged, M}

module _ {World : Type 0} (py : Python) (lower : ℕ → ℕ) (supervisor : WorkerSupervisor)
    (sys : System World) where
  abbrev pub Supervised : Type 0
  Supervised = SupervisedWorkerResult sys.Report

  -- The failure that the supervisor writes where no process was spawned.
  abbrev pub NotSpawned : Request → Supervised → Type 0
  NotSpawned q r =
      (r.supervisor_outcome ≡ "spawn_error")
      × (r.worker_result ≡ failure_worker_result q "fail" "spawn_error")

  abbrev pub Handed : Request → Supervised → Run World → Type 0
  Handed q r s =
      ((s.history.calls ≡ life 1) × NotSpawned q r)
      ⊎ ((out : Ended) × Finished py lower supervisor sys s out.outcome
          × Wrote py lower supervisor sys s out.stdout out.stderr
          × Judged py lower supervisor sys q out r)

  -- How a run ends: with a result for the request, or with a raise among the first calls.
  abbrev pub Final : Request → Result Stop Supervised × Run World → Type 0
  Final q (ok r, s) = Handed q r s
  Final q (err e, s) = (n : ℕ) × (s.history.calls ≡ life n)

  pub number_of :
      (s : Run World) (outcome : String)
      → Finished py lower supervisor sys s outcome
      → (n : ℕ) × (s.history.calls ≡ life n)
  number_of s outcome (inl h) = (2, h.0)
  number_of s outcome (inr (inl h)) = (4, h.0)
  number_of s outcome (inr (inr h)) = (6, h.0)

  pub same_calls :
      (s s' : Run World) (outcome : String)
      → s'.history.calls ≡ s.history.calls
      → Finished py lower supervisor sys s outcome
      → Finished py lower supervisor sys s' outcome
  same_calls s s' outcome e (inl h) = inl (e ∙ h.0, h.1)
  same_calls s s' outcome e (inr (inl h)) = inr (inl (e ∙ h.0, h.1))
  same_calls s s' outcome e (inr (inr h)) = inr (inr (e ∙ h.0, h.1))

  pub judged :
      (q : Request) (out : Ended) (s : Run World) (x : Result Stop Supervised × Run World)
      → Returned (Judged py lower supervisor sys q out) x
      → x.1.history ≡ s.history
      → Communicated py lower supervisor sys (ok out, s)
      → Final q x
  judged q out s (ok r, s') h c f = inr (
    out,
    same_calls s s' out.outcome (ap (λ (i : History). i.calls) c) f.0,
    ap (λ (i : History). i.output) c ∙ f.1,
    h,
  )
  judged q out s (err e, s') h c f =
      number_of s' out.outcome (same_calls s s' out.outcome (ap (λ (i : History). i.calls) c) f.0)

  -- The rule of a call that leaves the calls of the process.
  pub keeping :
      {A : Type 0} (q : Request) (n : ℕ) (m : Exec Stop (Run World) A)
      (f : A → M py lower supervisor sys)
      → ((s : Run World) → (m s).1.history ≡ s.history)
      → ((a : A) (s : Run World) → s.history.calls ≡ life n → Final q (f a s))
      → (s : Run World) → s.history.calls ≡ life n
      → Final q ((m >>= f) s)
  keeping {A} q n m f c h s e = at (m s) (ap (λ (i : History). i.calls) (c s) ∙ e)
    where
      at :
          (x : Result Stop A × Run World)
          → x.1.history.calls ≡ life n
          → Final q (elim x.0 as (λ r. Result Stop Supervised × Run World) [
            | ok a ↦ f a x.1
            | err e' ↦ (err e', x.1)
          ])
      at (ok a, s') e' = h a s' e'
      at (err x, s') e' = (n, e')

  pub report_on-Final :
      (q : Request) (process : sys.Process) (out : Ended) (report : sys.Report) (s : Run World)
      → Communicated py lower supervisor sys (ok out, s)
      → Final q (report_on py lower supervisor sys q process out report s)
  unfolding report_on add
  report_on-Final q process out report s f =
      let s' = (add sys "resource_collection" (sys.report_status report) s).1 in
      judged q out s' (check_capture py lower supervisor sys q process report out s')
        (check_capture-Judged py lower supervisor sys q process report out s')
        (check_capture-calls py lower supervisor sys q process report out s') f

  pub collect-Final :
      (q : Request) (process : sys.Process) (collector : sys.Collector) (out : Ended)
      (s : Run World)
      → Communicated py lower supervisor sys (ok out, s)
      → Final q (collect py lower supervisor sys q process collector out s)
  unfolding collect on_world
  collect-Final q process collector out s f =
      at (sys.finish collector s.world).0 (sys.finish collector s.world).1
    where
      at :
          (r : Result Stop sys.Report) (w : World)
          → Final q (elim r as (λ r'. Result Stop Supervised × Run World) [
            | ok report ↦
                report_on py lower supervisor sys q process out report (record s { world = w })
            | err e ↦ (err e, record s { world = w })
          ])
      at (ok report) w = report_on-Final q process out report (record s { world = w }) f
      at (err e) w = number_of s out.outcome f.0

  pub communicate-Final :
      (q : Request) (process : sys.Process) (collector : sys.Collector) (s : Run World)
      → s.history.calls ≡ life 1
      → Final q (communicate py lower supervisor sys q process collector s)
  unfolding communicate
  communicate-Final q process collector s h =
      at (communicate_process py lower supervisor sys q process collector s)
        (communicate_process-Communicated py lower supervisor sys q process collector s h)
    where
      at :
          (x : Result Stop Ended × Run World)
          → Communicated py lower supervisor sys x
          → Final q (elim x.0 as (λ r'. Result Stop Supervised × Run World) [
            | ok out ↦ collect py lower supervisor sys q process collector out x.1
            | err e ↦ (err e, x.1)
          ])
      at (ok out, s') c = collect-Final q process collector out s' c
      at (err e, s') c = c

  pub supervise-Final :
      (q : Request) (process : sys.Process) (s : Run World)
      → s.history.calls ≡ life 1
      → Final q (supervise py lower supervisor sys q process s)
  unfolding supervise start communicate collect report_on on_world add
  supervise-Final q process =
      keeping q 1 (add sys "spawn" "completed")
        (λ u. make_sampler py lower supervisor sys >>= start py lower supervisor sys q process)
        (λ s. refl)
        (λ u.
          keeping q 1 (make_sampler py lower supervisor sys)
            (start py lower supervisor sys q process) (make_sampler-calls py lower supervisor sys)
            (λ ws.
              keeping q 1 (on_world (sys.start_collector ws process))
                (communicate py lower supervisor sys q process) (λ s. refl)
                (communicate-Final q process)))

  pub not_spawned-Final :
      (q : Request) (e : Stop) (s : Run World)
      → s.history.calls ≡ life 1
      → Final q (not_spawned py lower supervisor sys q e s)
  unfolding not_spawned add
  not_spawned-Final q timeout_expired s h = inl (h, (refl, refl))
  not_spawned-Final q exception s h = inl (h, (refl, refl))
  not_spawned-Final q interrupt s h = (1, h)

  pub spawned :
      (q : Request) (x : Result Stop sys.Process × Run World)
      → x.1.history.calls ≡ life 1
      → Final q (elim x.0 as (λ r. Result Stop Supervised × Run World) [
        | ok process ↦ supervise py lower supervisor sys q process x.1
        | err e ↦ not_spawned py lower supervisor sys q e x.1
      ])
  spawned q (ok process, s) h = supervise-Final q process s h
  spawned q (err e, s) h = not_spawned-Final q e s h

  pub run-Final : (q : Request) (w : World) → Final q (run py lower supervisor sys q w)
  unfolding run run_from on_process on_world
  run-Final q w =
      spawned q
        (on_process spawn sys.popen (record {
          world = w;
          started = sys.monotonic w;
          events = [];
          history = record { calls = []; output = none };
        }))
        refl
