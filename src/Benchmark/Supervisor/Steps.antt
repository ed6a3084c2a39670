-- ===== src/Benchmark/Supervisor/Steps.antt =====
-- What the calls of a process by `WorkerSupervisor.run` of benchmarks/asr/worker_supervisor.py add.
use nadikt.Base.{ℕ, suc, String, none, some, List, [], ◌∷◌, ◌++◌, ◌≡◌, refl, ap, ◌∙◌, inl, inr}
use nadikt.Base.Result.{Result, ok, err}
use nadikt.Base.Exec.{Exec, pure, ◌>>=◌, ◌>>◌}
use nadikt.Protocol.Python.{Python}
use nadikt.Benchmark.Supervisor.Process.{
  WorkerSupervisor, Stop, System, Call, kill, reap, Run, add, on_world, on_process, on_communicate,
  noted, heard,
}
use nadikt.Benchmark.Supervisor.Communicating.{
  Ended, ended, was_killed, was_terminated, reap_process, kill_process,
}
use nadikt.Benchmark.Supervisor.Life.{life, Communicated}

module _ {World : Type 0} (py : Python) (lower : ℕ → ℕ) (supervisor : WorkerSupervisor)
    (sys : System World) where
  pub one_more : (cs ds : List Call) (call : Call) → cs ≡ ds → cs ++ (call ∷ []) ≡ ds ++ (call ∷ [])
  one_more cs ds call h = ap (λ xs. xs ++ (call ∷ [])) h

  -- The rule of a call of the process: a raise leaves the calls made so far.
  pub process_call :
      {A : Type 0} (n : ℕ) (call : Call) (op : Exec Stop World A)
      (f : A → Exec Stop (Run World) Ended)
      → life n ++ (call ∷ []) ≡ life (suc n)
      → ((a : A) (s : Run World)
          → s.history.calls ≡ life (suc n)
          → Communicated py lower supervisor sys (f a s))
      → (s : Run World) → s.history.calls ≡ life n
      → Communicated py lower supervisor sys ((on_process call op >>= f) s)
  unfolding on_process on_world
  process_call {A} n call op f e h s c = at (op s.world).0 (op s.world).1
    where
      at :
          (r : Result Stop A) (w : World)
          → Communicated py lower supervisor sys (elim r as (λ r'. Result Stop Ended × Run World) [
            | ok a ↦ f a (record s { world = w; history = noted call s.history })
            | err x ↦ (err x, record s { world = w; history = noted call s.history })
          ])
      at (ok a) w =
          h a (record s { world = w; history = noted call s.history })
            (one_more s.history.calls (life n) call c ∙ e)
      at (err x) w = (suc n, one_more s.history.calls (life n) call c ∙ e)

  -- The rule of a call of `communicate`: what follows runs with its answer recorded.
  pub communicate_call :
      (n : ℕ) (call : Call) (op : Exec Stop World (String × String))
      (f : String × String → Exec Stop (Run World) Ended)
      → life n ++ (call ∷ []) ≡ life (suc n)
      → ((out : String × String) (s : Run World)
          → s.history.calls ≡ life (suc n)
          → s.history.output ≡ some out
          → Communicated py lower supervisor sys (f out s))
      → (s : Run World) → s.history.calls ≡ life n
      → Communicated py lower supervisor sys ((on_communicate call op >>= f) s)
  unfolding on_communicate
  communicate_call n call op f e h s c = at (op s.world).0 (op s.world).1
    where
      at :
          (r : Result Stop (String × String)) (w : World)
          → Communicated py lower supervisor sys (elim r as (λ r'. Result Stop Ended × Run World) [
            | ok a ↦ f a (record s { world = w; history = heard r (noted call s.history) })
            | err x ↦ (err x, record s { world = w; history = heard r (noted call s.history) })
          ])
      at (ok a) w =
          h a (record s { world = w; history = heard (ok a) (noted call s.history) })
            (one_more s.history.calls (life n) call c ∙ e) refl
      at (err x) w = (suc n, one_more s.history.calls (life n) call c ∙ e)

  -- The rule of a call of anything else.
  pub world_call :
      {A : Type 0} (n : ℕ) (op : Exec Stop World A) (f : A → Exec Stop (Run World) Ended)
      (s : Run World)
      → s.history.calls ≡ life n
      → ((a : A) (w : World) → Communicated py lower supervisor sys (f a (record s { world = w })))
      → Communicated py lower supervisor sys ((on_world op >>= f) s)
  unfolding on_world
  world_call {A} n op f s c h = at (op s.world).0 (op s.world).1
    where
      at :
          (r : Result Stop A) (w : World)
          → Communicated py lower supervisor sys (elim r as (λ r'. Result Stop Ended × Run World) [
            | ok a ↦ f a (record s { world = w })
            | err x ↦ (err x, record s { world = w })
          ])
      at (ok a) w = h a w
      at (err x) w = (n, c)

  pub was_killed-Communicated :
      (collector : sys.Collector) (out : String × String) (s : Run World)
      → s.history.calls ≡ life 6
      → s.history.output ≡ some out
      → Communicated py lower supervisor sys (was_killed py lower supervisor sys collector out s)
  unfolding was_killed add
  was_killed-Communicated collector out s h o =
      world_call 6 (sys.note_missed collector "worker_killed")
        (λ u. add sys "kill" "killed" >> pure (ended "killed" out)) s h
        (λ u w. (inr (inr (h, refl)), o))

  pub was_terminated-Communicated :
      (collector : sys.Collector) (out : String × String) (s : Run World)
      → s.history.calls ≡ life 4
      → s.history.output ≡ some out
      → Communicated py lower supervisor sys
          (was_terminated py lower supervisor sys collector out s)
  unfolding was_terminated add
  was_terminated-Communicated collector out s h o =
      world_call 4 (sys.note_missed collector "worker_terminated")
        (λ u. add sys "terminate" "terminated" >> pure (ended "terminated" out)) s h
        (λ u w. (inr (inl (h, refl)), o))

  pub kill_process-Communicated :
      (process : sys.Process) (collector : sys.Collector) (s : Run World)
      → s.history.calls ≡ life 4
      → Communicated py lower supervisor sys
          (kill_process py lower supervisor sys process collector s)
  unfolding kill_process reap_process
  kill_process-Communicated process collector s h =
      process_call 4 kill (sys.kill process)
        (λ u. reap_process py lower supervisor sys process collector) refl
        (λ u.
          communicate_call 5 reap (sys.communicate process none none)
            (was_killed py lower supervisor sys collector) refl (was_killed-Communicated collector))
        s h
