-- ===== src/Benchmark/Supervisor/Unsent.antt =====
-- What `WorkerSupervisor.run` of benchmarks/asr/worker_supervisor.py does with a request that cannot
-- be written.
use nadikt.Base.{ℕ, arith, String, [], ◌∷◌, ◌≡◌, refl, ap, none, ◌∙◌}
use nadikt.Base.Result.{Result, ok, err}
use nadikt.Base.Exec.{Exec, catch, ◌>>=◌}
use nadikt.Protocol.Python.{Python, Error}
use nadikt.Benchmark.Wire.{Request, print_request}
use nadikt.Benchmark.Supervisor.Process.{
  SupervisedWorkerResult, WorkerSupervisor, Stop, exception, System, Run, History, spawn, add,
  on_world, on_process,
}
use nadikt.Benchmark.Supervisor.Running.{
  make_sampler, start, communicate, collect, supervise, not_spawned, run_from, run,
}
use nadikt.Benchmark.Supervisor.Communicating.{
  Ended, send_request, not_completed, communicate_process,
}
use nadikt.Benchmark.Supervisor.Life.{life, make_sampler-calls}
use nadikt.Benchmark.Supervisor.Accepting.{M}

-- Something was raised, and the process was only spawned.
abbrev pub LeavesSpawned : {A World : Type 0} → Result Stop A × Run World → Type 0
LeavesSpawned x = (e : Stop) × (x.0 ≡ err e) × (x.1.history.calls ≡ spawn ∷ [])

module _ {World : Type 0} (py : Python) (lower : ℕ → ℕ) (supervisor : WorkerSupervisor)
    (sys : System World) where
  leaving :
      {A : Type 0} (m : Exec Stop (Run World) A) (f : A → M py lower supervisor sys)
      → ((s : Run World) → (m s).1.history ≡ s.history)
      → ((a : A) (s : Run World) → s.history.calls ≡ life 1 → LeavesSpawned (f a s))
      → (s : Run World) → s.history.calls ≡ life 1
      → LeavesSpawned ((m >>= f) s)
  leaving {A} m f c h s e = at (m s) (ap (λ (i : History). i.calls) (c s) ∙ e)
    where
      at :
          (x : Result Stop A × Run World)
          → x.1.history.calls ≡ life 1
          → LeavesSpawned
              (elim x.0 as (λ r. Result Stop (SupervisedWorkerResult sys.Report) × Run World) [
                | ok a ↦ f a x.1
                | err e' ↦ (err e', x.1)
              ])
      at (ok a, s') e' = h a s' e'
      at (err x, s') e' = (x, refl, e')

  unsent :
      (process : sys.Process) (collector : sys.Collector) (f : Ended → M py lower supervisor sys)
      (x : Error) (printed : Result Error String) (s : Run World)
      → printed ≡ err x
      → s.history.calls ≡ life 1
      → LeavesSpawned (
          (catch
                ((λ s'. elim printed as (λ r. Result Stop String × Run World) [
                  | ok text ↦ (ok text, s')
                  | err e ↦ (err exception, s')
                ])
                  >>= send_request py lower supervisor sys process)
                (not_completed py lower supervisor sys process collector)
              >>= f)
            s)
  unfolding not_completed
  unsent process collector f x (ok text) s e h = absurd (ground (arith, e))
  unsent process collector f x (err y) s e h = (exception, refl, h)

  communicate-unsent :
      (q : Request) (x : Error)
      → print_request py q ≡ err x
      → (process : sys.Process) (collector : sys.Collector) (s : Run World)
      → s.history.calls ≡ life 1
      → LeavesSpawned (communicate py lower supervisor sys q process collector s)
  unfolding communicate communicate_process
  communicate-unsent q x e process collector s h =
      unsent process collector (collect py lower supervisor sys q process collector) x
        (print_request py q) s e h

  supervise-unsent :
      (q : Request) (x : Error)
      → print_request py q ≡ err x
      → (process : sys.Process) (s : Run World) → s.history.calls ≡ life 1
      → LeavesSpawned (supervise py lower supervisor sys q process s)
  unfolding supervise start
  supervise-unsent q x e process =
      leaving (add sys "spawn" "completed")
        (λ u. make_sampler py lower supervisor sys >>= start py lower supervisor sys q process)
        (λ s. refl)
        (λ u.
          leaving (make_sampler py lower supervisor sys) (start py lower supervisor sys q process)
            (make_sampler-calls py lower supervisor sys)
            (λ ws.
              leaving (on_world (sys.start_collector ws process))
                (communicate py lower supervisor sys q process) (λ s. refl)
                (communicate-unsent q x e process)))

  spawned-unsent :
      (q : Request) (x : Error)
      → print_request py q ≡ err x
      → (process : sys.Process) (r : Result Stop sys.Process) (s : Run World) → r ≡ ok process
      → s.history.calls ≡ life 1
      → LeavesSpawned
          (elim r as (λ r'. Result Stop (SupervisedWorkerResult sys.Report) × Run World) [
            | ok p ↦ supervise py lower supervisor sys q p s
            | err e ↦ not_spawned py lower supervisor sys q e s
          ])
  spawned-unsent q x e process (ok p) s h c = supervise-unsent q x e p s c
  spawned-unsent q x e process (err y) s h c = absurd (ground (arith, h))

  -- Where the request cannot be written, as one that is too long, a process that was spawned is left
  -- running: the run raises, and makes no further call of the process.
  pub run-unsent :
      (q : Request) (w : World) (process : sys.Process) (x : Error)
      → print_request py q ≡ err x
      → (sys.popen w).0 ≡ ok process
      → LeavesSpawned (run py lower supervisor sys q w)
  unfolding run run_from on_process on_world
  run-unsent q w process x e p =
      spawned-unsent q x e process (sys.popen w).0
        (record {
          world = (sys.popen w).1;
          started = sys.monotonic w;
          events = [];
          history = record { calls = spawn ∷ []; output = none };
        })
        p refl
