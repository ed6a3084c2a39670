-- ===== src/Windows/Injector/Poisoned.antt =====
-- When windows_injector.py refuses all further input: `_cleanup_failed`.
use nadikt.Base.{
  ℕ, zero, suc, Bool, true, false, some, List, [], ◌∷◌, ◌≡◌, ◌↔◌, refl, arith, Bool-cases,
  Option-cases, inl, inr, ◌==◌, length,
}
use nadikt.Base.Result.{Result, Result-cases, ok, err}
use nadikt.Insertion.Contracts.{OutcomeCode, DispatchResult}
use nadikt.Windows.Utf16.{utf16_code_units}
use nadikt.Windows.Injector.{
  KeyEvent, InputApi, Stopped, InjectorState, call, set_failed, release_key, log_unreleased,
  release_each, release_synthetic_keys, clean_up, after_send, send_complete, wait_loop,
  wait_for_released_modifiers, prepare_dispatch, ready_now, ready_for_immediate_dispatch,
  prepared_or_ready, send_if, dispatch_events, dispatch_paste, dispatch_unicode, take, key_downs,
  cleanup_of, paste_events, unicode_events,
}

module _ (api : InputApi) where
  release_key-flag :
      (n : ℕ) (event : KeyEvent) (s : InjectorState api.World)
      → (release_key api n event s).1.cleanup_failed ≡ s.cleanup_failed
  unfolding release_key call
  release_key-flag zero event s = refl
  release_key-flag (suc n) event s =
      ground
        (arith, release_key-flag n event (record s { world = (api.send (event ∷ []) s.world).1 }))

  release_each-flag :
      (cleanup : List KeyEvent) (s : InjectorState api.World)
      → (release_each api cleanup s).1.cleanup_failed ≡ s.cleanup_failed
  unfolding release_each log_unreleased call
  release_each-flag [] s = refl
  release_each-flag (event ∷ cleanup) s = grind (arith, release_each-flag cleanup, release_key-flag)

  -- A result that is returned names the state of the flag.
  abbrev pub Told : Result Stopped DispatchResult → InjectorState api.World → Type 0
  Told r s =
      (result : DispatchResult)
      → r ≡ ok result
      → (s.cleanup_failed ≡ true) ↔ (result.code ≡ some OutcomeCode.cleanup_failed)

  clean_up-Told :
      (sent : List KeyEvent) (s : InjectorState api.World)
      → s.cleanup_failed ≡ true
      → Told (clean_up api sent s).0 (clean_up api sent s).1
  unfolding clean_up release_synthetic_keys set_failed
  clean_up-Told sent s h result e =
      let cleanup = cleanup_of sent in
      let flag = release_each-flag cleanup s in
      elim (Result-cases (release_each api cleanup s).0) [
        | inr (x, p) ↦ absurd (ground arith)
        | inl (true, p) ↦ ground arith
        | inl (false, p) ↦ ground (arith, flag)
      ]

  after_send-Told :
      (events : List KeyEvent) (r : Result Stopped ℕ) (s : InjectorState api.World)
      → s.cleanup_failed ≡ true
      → Told (after_send api events r s).0 (after_send api events r s).1
  unfolding after_send set_failed call
  after_send-Told events (err x) s h result e = clean_up-Told (key_downs events) s h result e
  after_send-Told events (ok sent) s h result e = elim (Bool-cases (sent == length events)) [
    | inl p ↦ ground arith
    | inr p ↦ elim (Result-cases (api.last_error s.world).0) [
      | inr (x, q) ↦ absurd (ground arith)
      | inl (code, q) ↦
          let s' = record s { world = (api.last_error s.world).1 } in
          ground (arith, clean_up-Told (take sent events) s' h result)
    ]
  ]

  module _ (wait_ms : ℕ) where
    wait_loop-flag :
        (fuel deadline : ℕ) (s : InjectorState api.World)
        → (wait_loop api wait_ms fuel deadline s).1.cleanup_failed ≡ s.cleanup_failed
    unfolding wait_loop call
    wait_loop-flag zero deadline s = refl
    wait_loop-flag (suc fuel) deadline s = grind (arith, wait_loop-flag fuel)

    ready-flag :
        (prepared : Bool) (s : InjectorState api.World)
        → (ready_for_immediate_dispatch api wait_ms prepared s).1.cleanup_failed ≡ s.cleanup_failed
    unfolding ready_for_immediate_dispatch prepared_or_ready prepare_dispatch
        wait_for_released_modifiers ready_now call
    ready-flag prepared s = grind (arith, wait_loop-flag)

    events-Told :
        (prepared : Bool) (events : List KeyEvent) (s : InjectorState api.World)
        → Told
            (dispatch_events api wait_ms prepared events s).0
            (dispatch_events api wait_ms prepared events s).1
    unfolding dispatch_events send_if send_complete call
    events-Told prepared events s result e =
        let s1 = (ready_for_immediate_dispatch api wait_ms prepared s).1 in
        let flag = ready-flag prepared s in
        elim (Bool-cases s.cleanup_failed) [
          | inl p ↦ ground arith
          | inr p ↦ elim (Result-cases (ready_for_immediate_dispatch api wait_ms prepared s).0) [
            | inr (x, q) ↦ absurd (ground arith)
            | inl (false, q) ↦ ground (arith, flag)
            | inl (true, q) ↦
                let (r, s2) = call api (api.send events) (record s1 { cleanup_failed = true }) in
                ground (arith, after_send-Told events r s2 refl result)
          ]
        ]

    unicode-Told :
        (text : List ℕ) (prepared : Bool) (s : InjectorState api.World)
        → Told
            (dispatch_unicode api wait_ms text prepared s).0
            (dispatch_unicode api wait_ms text prepared s).1
    unfolding dispatch_unicode
    unicode-Told text prepared s result e = elim (Option-cases (utf16_code_units text)) [
      | inl p ↦ absurd (ground arith)
      | inr (units, p) ↦
          let told = events-Told prepared (unicode_events units) s result in ground (arith, told)
    ]

    -- Where a dispatch returns, the injector is poisoned afterwards exactly if the code is
    -- CLEANUP_FAILED. Once poisoned, it stays so and reaches the system no more, neither by a
    -- dispatch nor by a preparation.
    pub dispatch-cleanup_failed :
        (text : List ℕ) (prepared : Bool) (s : InjectorState api.World)
        → let paste : Result Stopped DispatchResult × InjectorState api.World =
            dispatch_paste api wait_ms prepared s in
          let unicode : Result Stopped DispatchResult × InjectorState api.World =
            dispatch_unicode api wait_ms text prepared s in
          Told paste.0 paste.1
          × Told unicode.0 unicode.1
          × (s.cleanup_failed ≡ true
              → (paste.1 ≡ s) × (unicode.1 ≡ s) × ((prepare_dispatch api wait_ms s).1 ≡ s))
    unfolding dispatch_paste dispatch_unicode dispatch_events prepare_dispatch
    dispatch-cleanup_failed text prepared s = (
      events-Told prepared paste_events s,
      unicode-Told text prepared s,
      λ p. (ground arith, ground arith, ground arith),
    )
