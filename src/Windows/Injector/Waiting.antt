-- ===== src/Windows/Injector/Waiting.antt =====
-- The wait for released modifiers of windows_injector.py ends.
use nadikt.Base.{
  ℕ, zero, suc, ◌+◌, ◌≤◌, Bool, true, false, ◌≡◌, ◌≢◌, arith, Bool-cases, inl, inr, leb, min,
}
use nadikt.Base.Result.{Result, Result-cases, ok, err}
use nadikt.Base.Exec.{Exec}
use nadikt.Insertion.Contracts.{Raised}
use nadikt.Windows.Injector.{
  InputApi, Stopped, stuck, InjectorState, call, wait_loop, wait_for_released_modifiers,
}

-- The clock does not go back, and `sleep` takes the time it is given or raises.
pub record Clock (api : InputApi) : Type 0 where
  pub modifiers_down-clock :
      (w : api.World) → api.monotonic w ≤ api.monotonic (api.modifiers_down w).1
  pub sleep-clock :
      (d : ℕ) (w : api.World)
      → (api.sleep d w).0 ≡ ok tt
      → api.monotonic w + d ≤ api.monotonic (api.sleep d w).1

module _ (api : InputApi) (clock : Clock api) (wait_ms : ℕ) where
  -- The state after a call of the system.
  abbrev moved :
      {R : Type 0} → Exec Raised api.World R → InjectorState api.World → InjectorState api.World
  moved op s = record s { world = (op s.world).1 }

  -- What the end of the loop says of its time.
  abbrev Ended : (deadline : ℕ) → Result Stopped Bool → InjectorState api.World → Type 0
  Ended deadline r s = (r ≢ err stuck) × (r ≡ ok false → deadline ≤ api.monotonic s.world)

  wait_loop-Ended :
      (fuel deadline : ℕ) (s : InjectorState api.World)
      → deadline ≤ api.monotonic s.world + fuel
      → deadline ≤ api.monotonic s.world + wait_ms
      → let end : Result Stopped Bool × InjectorState api.World =
          wait_loop api wait_ms (suc fuel) deadline s in
        Ended deadline end.0 end.1
  unfolding wait_loop call
  wait_loop-Ended zero deadline s h k =
      let t1 = clock.modifiers_down-clock s.world in
      elim (Result-cases (api.modifiers_down s.world).0) [
        | inr (e, p) ↦ ground arith
        | inl (false, p) ↦ ground arith
        | inl (true, p) ↦ ground arith
      ]
  wait_loop-Ended (suc fuel) deadline s h k =
      let s1 = moved api.modifiers_down s in
      let d = min 10 wait_ms in
      let t1 = clock.modifiers_down-clock s.world in
      elim (Result-cases (api.modifiers_down s.world).0) [
        | inr (e, p) ↦ ground arith
        | inl (false, p) ↦ ground arith
        | inl (true, p) ↦ elim (Bool-cases (leb deadline (api.monotonic s1.world))) [
          | inl late ↦ ground arith
          | inr early ↦ elim (Result-cases (api.sleep d s1.world).0) [
            | inr (e, q) ↦ ground arith
            | inl (tt, q) ↦
                let s2 = moved (api.sleep d) s1 in
                let t2 = clock.sleep-clock d s1.world q in
                let ih = wait_loop-Ended fuel deadline s2 (ground arith) (ground arith) in
                ground (arith, ih)
          ]
        ]
      ]

  -- The wait ends, and with `False` only once the whole time has passed.
  pub wait-Ended :
      (s : InjectorState api.World)
      → let end : Result Stopped Bool × InjectorState api.World =
          wait_for_released_modifiers api wait_ms s in
        (end.0 ≢ err stuck)
        × (end.0 ≡ ok false → api.monotonic s.world + wait_ms ≤ api.monotonic end.1.world)
  unfolding wait_for_released_modifiers
  wait-Ended s =
      wait_loop-Ended wait_ms (api.monotonic s.world + wait_ms) s (omega arith) (omega arith)
