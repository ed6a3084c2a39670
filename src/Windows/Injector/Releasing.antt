-- ===== src/Windows/Injector/Releasing.antt =====
-- Whether windows_injector.py leaves a key down.
use nadikt.Base.{
  ℕ, zero, suc, Bool, true, false, some, List, ◌≡◌, ◌≢◌, refl, ◌∙◌, arith, Bool-cases, Option-cases,
  inl, inr, ◌==◌, ==_iff, length, min,
}
use nadikt.Base.Result.{Result, Result-cases, ok, err}
use nadikt.Insertion.Contracts.{OutcomeCode, DispatchResult}
use nadikt.Windows.Utf16.{utf16_code_units}
use nadikt.Windows.Injector.{
  KeyEvent, InputApi, Stopped, raised, InjectorState, call, set_failed, has_match, release_each,
  release_synthetic_keys, clean_up, after_send, send_complete, wait_loop,
  wait_for_released_modifiers, prepare_dispatch, ready_now, ready_for_immediate_dispatch,
  prepared_or_ready, send_if, dispatch_events, dispatch_paste, dispatch_unicode, take, key_downs,
  cleanup_of, paste_events, unicode_events,
}
use nadikt.Windows.Injector.Inserts.{Inserts, held, release_each-held}
use nadikt.Windows.Injector.Keyboard.{
  down_after, cleanup-AllUp, cleanup-covers, downs-covers, paste-up, unicode-up, take-all,
}

module _ (api : InputApi) (law : Inserts api) where
  -- A dispatch that returns another code than CLEANUP_FAILED leaves no key down.
  abbrev pub Lifted : Result Stopped DispatchResult → InjectorState api.World → Type 0
  Lifted r s =
      (result : DispatchResult)
      → r ≡ ok result
      → result.code ≢ some OutcomeCode.cleanup_failed
      → (k : KeyEvent) → held api law s k ≡ false

  clean_up-Lifted :
      (sent : List KeyEvent) (s : InjectorState api.World)
      → ((k : KeyEvent) → held api law s k ≡ true → has_match k (cleanup_of sent) ≡ true)
      → Lifted (clean_up api sent s).0 (clean_up api sent s).1
  unfolding clean_up release_synthetic_keys set_failed
  clean_up-Lifted sent s h result e c k =
      elim (Result-cases (release_each api (cleanup_of sent) s).0) [
        | inr (x, p) ↦ absurd (ground arith)
        | inl (false, p) ↦ absurd (ground arith)
        | inl (true, p) ↦
            let f = release_each-held api law (cleanup_of sent) k s (cleanup-AllUp sent) (h k) p in
            ground (arith, f)
      ]

  -- The keys that are down after a first part of the events.
  abbrev Partly : List KeyEvent → ℕ → InjectorState api.World → Type 0
  Partly events n s = (k : KeyEvent) → held api law s k ≡ down_after k false (take n events)

  after_send-Lifted :
      (events : List KeyEvent) (s : InjectorState api.World)
      → ((k : KeyEvent) → down_after k false events ≡ false)
      → ((n : ℕ)
          → Partly events n s
          → Lifted (after_send api events (ok n) s).0 (after_send api events (ok n) s).1)
        × ((n : ℕ) (x : Stopped)
            → Partly events n s
            → Lifted (after_send api events (err x) s).0 (after_send api events (err x) s).1)
  unfolding after_send set_failed call
  after_send-Lifted events s up = (
    λ n h result e c k. elim (Bool-cases (n == length events)) [
      | inl p ↦
          let all = take-all n events ((==_iff n (length events)).0 p) in
          ground (arith, h k, up k, all)
      | inr p ↦ elim (Result-cases (api.last_error s.world).0) [
        | inr (x, q) ↦ absurd (ground arith)
        | inl (code, q) ↦
            let s' = record s { world = (api.last_error s.world).1 } in
            let f =
              clean_up-Lifted (take n events) s'
                (λ j d.
                  cleanup-covers j (take n events)
                    (ground (arith, h j, law.last_error-held s.world j)))
                result (ground arith) c k in
            ground (arith, f)
      ]
    ],
    λ n x h.
        clean_up-Lifted (key_downs events) s (λ k d. downs-covers k n events (ground (arith, h k))),
  )

  module _ (wait_ms : ℕ) where
    wait_loop-held :
        (fuel deadline : ℕ) (k : KeyEvent) (s : InjectorState api.World)
        → held api law (wait_loop api wait_ms fuel deadline s).1 k ≡ held api law s k
    unfolding wait_loop call
    wait_loop-held zero deadline k s = refl
    wait_loop-held (suc fuel) deadline k s =
        let s1 = record s { world = (api.modifiers_down s.world).1 } in
        let s2 = record s1 { world = (api.sleep (min 10 wait_ms) s1.world).1 } in
        ground (
          arith,
          law.modifiers_down-held s.world k,
          law.sleep-held (min 10 wait_ms) s1.world k,
          wait_loop-held fuel deadline k s2,
        )

    ready-held :
        (prepared : Bool) (k : KeyEvent) (s : InjectorState api.World)
        → held api law (ready_for_immediate_dispatch api wait_ms prepared s).1 k ≡ held api law s k
    unfolding ready_for_immediate_dispatch prepared_or_ready prepare_dispatch
        wait_for_released_modifiers ready_now call
    ready-held prepared k s = grind (arith, wait_loop-held, law.modifiers_down-held)

    events-Lifted :
        (prepared : Bool) (events : List KeyEvent) (s : InjectorState api.World)
        → ((k : KeyEvent) → down_after k false events ≡ false)
        → ((k : KeyEvent) → held api law s k ≡ false)
        → Lifted
            (dispatch_events api wait_ms prepared events s).0
            (dispatch_events api wait_ms prepared events s).1
    unfolding dispatch_events send_if send_complete call
    events-Lifted prepared events s up h result e c k =
        let s1 = (ready_for_immediate_dispatch api wait_ms prepared s).1 in
        let h1 : (j : KeyEvent) → held api law s1 j ≡ false = λ j. ready-held prepared j s ∙ h j in
        let s2 = record s1 { cleanup_failed = true; world = (api.send events s1.world).1 } in
        let after = after_send-Lifted events s2 up in
        elim (Bool-cases s.cleanup_failed) [
          | inl p ↦ absurd (ground arith)
          | inr p ↦ elim (Result-cases (ready_for_immediate_dispatch api wait_ms prepared s).0) [
            | inr (x, q) ↦ absurd (ground arith)
            | inl (false, q) ↦ ground (arith, h1 k)
            | inl (true, q) ↦ elim (Result-cases (api.send events s1.world).0) [
              | inr (x, r) ↦
                  let (n, t) = law.send-raises events s1.world x r in
                  let f =
                    after.1 n (raised x) (λ j. ground (arith, t j, h1 j)) result (ground arith) c
                      k in
                  ground (arith, f)
              | inl (n, r) ↦
                  let t = law.send-held events s1.world n r in
                  let f = after.0 n (λ j. ground (arith, t j, h1 j)) result (ground arith) c k in
                  ground (arith, f)
            ]
          ]
        ]

    -- From a state in which no key is held down, a dispatch of either kind that returns another code
    -- than CLEANUP_FAILED leaves no key held down, whether all the events were inserted, some of
    -- them, or `send` raised.
    pub dispatch-Lifted :
        (text : List ℕ) (prepared : Bool) (s : InjectorState api.World)
        → ((k : KeyEvent) → held api law s k ≡ false)
        → let paste : Result Stopped DispatchResult × InjectorState api.World =
            dispatch_paste api wait_ms prepared s in
          let unicode : Result Stopped DispatchResult × InjectorState api.World =
            dispatch_unicode api wait_ms text prepared s in
          Lifted paste.0 paste.1 × Lifted unicode.0 unicode.1
    unfolding dispatch_paste dispatch_unicode
    dispatch-Lifted text prepared s h = (
      events-Lifted prepared paste_events s paste-up h,
      λ result e c k. elim (Option-cases (utf16_code_units text)) [
        | inl p ↦ absurd (ground arith)
        | inr (units, p) ↦
            let f =
              events-Lifted prepared (unicode_events units) s (λ j. unicode-up j units) h result
                (ground arith) c k in
            ground (arith, f)
      ],
    )
