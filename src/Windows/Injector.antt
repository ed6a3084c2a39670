-- ===== src/Windows/Injector.antt =====
-- experiments/windows_insertion/insertion_spike/windows_injector.py: `WindowsInputInjector`.
-- `InputApi`, the clock and `sleep` are a parameter on a world; times are whole milliseconds.
pub mod Events
pub mod System
pub mod Waiting
pub mod Poisoned
pub mod Keyboard
pub mod Inserts
pub mod Releasing
pub mod Inserting
use nadikt.Base.{
  ℕ, zero, suc, ◌+◌, Bool, true, false, not, ◌&&◌, Option, none, some, List, [], ◌∷◌, ◌++◌, length,
  ◌==◌, leb, min, if◌then◌else◌,
}
use nadikt.Base.Result.{Result, ok, err}
use nadikt.Base.Exec.{Exec, pure, raise, gets, ◌>>=◌, ◌>>◌}
use nadikt.Insertion.Contracts.{OutcomeCode, DispatchResult, Raised, exception}
use nadikt.Windows.Utf16.{utf16_code_units}
pub use Events.{KeyEvent, vk_control, vk_v, release_of, paste_events}
unfoldable pub use Events.{
  same_key, has_match, remove_match, press, pressed_after, releases, cleanup_of, key_downs, take,
  unicode_events,
}

pub record InputApi : Type 1 where
  pub World : Type 0
  pub modifiers_down : Exec Raised World Bool
  pub send : List KeyEvent → Exec Raised World ℕ
  pub last_error : Exec Raised World ℕ
  pub monotonic : World → ℕ
  pub sleep : ℕ → Exec Raised World (Unit {0})

-- `stuck` stands for a wait that has not ended on its fuel.
pub data Stopped : Type 0 where
  raised : Raised → Stopped
  stuck : Stopped

pub record InjectorState (W : Type 0) : Type 0 where
  pub cleanup_failed : Bool
  pub world : W

abbrev failed : OutcomeCode → DispatchResult
failed code = record { dispatched = false; code = some code }

module _ (api : InputApi) where
  abbrev pub I : Type 0 → Type 0
  I R = Exec Stopped (InjectorState api.World) R

  unfoldable pub call : {R : Type 0} → Exec Raised api.World R → I R
  call op s =
      let (r, w) = op s.world in
      (elim r [ ok a ↦ ok a | err e ↦ err (raised e) ], record s { world = w })

  unfoldable pub set_failed : Bool → I (Unit {0})
  set_failed b s = (ok tt, record s { cleanup_failed = b })

  -- The attempts to release one key; what `send` raises is swallowed.
  unfoldable pub release_key : (attempts : ℕ) → KeyEvent → I Bool
  unfolding call
  release_key zero event s = (ok false, s)
  release_key (suc n) event s =
      let (r, s') = call (api.send (event ∷ [])) s in
      elim r [
        | ok sent ↦ elim (sent == 1) [ true ↦ (ok true, s') | false ↦ release_key n event s' ]
        | err e ↦ release_key n event s'
      ]

  unfoldable pub log_unreleased : Bool → I (Unit {0})
  unfolding call
  log_unreleased true = pure tt
  log_unreleased false = do code ← call api.last_error; pure tt

  unfoldable pub release_each : List KeyEvent → I Bool
  unfolding release_key log_unreleased
  release_each [] = pure true
  release_each (event ∷ cleanup) = do
    released ← release_key 3 event
    log_unreleased released
    others ← release_each cleanup
    pure (released && others)

  -- `_release_synthetic_keys`
  unfoldable pub release_synthetic_keys : List KeyEvent → I Bool
  unfolding cleanup_of release_each
  release_synthetic_keys sent = release_each (cleanup_of sent)

  -- What both failures of `_send_complete` do.
  unfoldable pub clean_up : List KeyEvent → I DispatchResult
  unfolding release_synthetic_keys set_failed
  clean_up sent = do
    released ← release_synthetic_keys sent
    if released
        then (set_failed false >> pure (failed OutcomeCode.dispatch_failed))
        else pure (failed OutcomeCode.cleanup_failed)

  -- `_send_complete` after the call of `send`.
  unfoldable pub after_send : List KeyEvent → Result Stopped ℕ → I DispatchResult
  unfolding call clean_up key_downs take set_failed
  after_send events (err e) = clean_up (key_downs events)
  after_send events (ok sent) =
      if sent == length events
      then (set_failed false >> pure (record { dispatched = true; code = none }))
      else (do code ← call api.last_error; clean_up (take sent events))

  unfoldable pub send_complete : List KeyEvent → I DispatchResult
  unfolding call after_send
  send_complete events s =
      let (r, s') = call (api.send events) (record s { cleanup_failed = true }) in
      after_send events r s'

  -- `_modifier_wait_seconds` in milliseconds; it is not negative.
  module _ (wait_ms : ℕ) where
    -- The loop of `_wait_for_released_modifiers`.
    unfoldable pub wait_loop : (fuel deadline : ℕ) → I Bool
    unfolding call
    wait_loop zero deadline = raise stuck
    wait_loop (suc fuel) deadline = do
      down ← call api.modifiers_down
      now ← gets (λ s. api.monotonic s.world)
      (elim down [
        | false ↦ pure true
        | true ↦ elim (leb deadline now) [
          | true ↦ pure false
          | false ↦ do call (api.sleep (min 10 wait_ms)); wait_loop fuel deadline
        ]
      ])

    -- `_wait_for_released_modifiers`; the fuel is one more than the milliseconds to wait.
    unfoldable pub wait_for_released_modifiers : I Bool
    unfolding wait_loop
    wait_for_released_modifiers s = wait_loop (suc wait_ms) (api.monotonic s.world + wait_ms) s

    unfoldable pub prepare_dispatch : I Bool
    unfolding wait_for_released_modifiers
    prepare_dispatch s = elim s.cleanup_failed [
      | true ↦ (ok false, s)
      | false ↦ wait_for_released_modifiers s
    ]

    -- `_ready_for_immediate_dispatch` after the preparation.
    unfoldable pub ready_now : Bool → I Bool
    unfolding call
    ready_now false = pure false
    ready_now true = do down ← call api.modifiers_down; pure (not down)

    -- `not prepared and not self.prepare_dispatch()`, the other way round.
    unfoldable pub prepared_or_ready : (prepared : Bool) → I Bool
    unfolding prepare_dispatch
    prepared_or_ready true = pure true
    prepared_or_ready false = prepare_dispatch

    -- `_ready_for_immediate_dispatch`
    unfoldable pub ready_for_immediate_dispatch : (prepared : Bool) → I Bool
    unfolding prepared_or_ready ready_now
    ready_for_immediate_dispatch prepared s = elim s.cleanup_failed [
      | true ↦ (ok false, s)
      | false ↦ (prepared_or_ready prepared >>= ready_now) s
    ]

    unfoldable pub send_if : List KeyEvent → (ready : Bool) → I DispatchResult
    unfolding send_complete
    send_if events true = send_complete events
    send_if events false = pure (failed OutcomeCode.dispatch_failed)

    -- `dispatch_paste`, and `dispatch_unicode` once the events are known.
    unfoldable pub dispatch_events : (prepared : Bool) → List KeyEvent → I DispatchResult
    unfolding ready_for_immediate_dispatch send_if
    dispatch_events prepared events s = elim s.cleanup_failed [
      | true ↦ (ok (failed OutcomeCode.cleanup_failed), s)
      | false ↦ (ready_for_immediate_dispatch prepared >>= send_if events) s
    ]

    unfoldable pub dispatch_paste : (prepared : Bool) → I DispatchResult
    unfolding dispatch_events
    dispatch_paste prepared = dispatch_events prepared paste_events

    unfoldable pub dispatch_unicode : (text : List ℕ) (prepared : Bool) → I DispatchResult
    unfolding dispatch_events unicode_events
    dispatch_unicode text prepared = elim (utf16_code_units text) [
      | none ↦ raise (raised exception)
      | some units ↦ dispatch_events prepared (unicode_events units)
    ]
