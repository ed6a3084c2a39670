-- ===== src/Windows/Injector/Inserting.antt =====
-- What a dispatch of windows_injector.py that reports success has inserted.
use nadikt.Base.{
  ℕ, zero, suc, ◌<◌, Bool, true, false, not, ◌&&◌, if◌then◌else◌, Option, none, some, List, [], ◌∷◌,
  ◌++◌, ◌≡◌, refl, ap, arith, Bool-cases, Option-cases, inl, inr, ◌==◌, ==_iff, length, min, All,
}
use nadikt.Base.Result.{Result, Result-cases, ok, err}
use nadikt.Insertion.Contracts.{DispatchResult}
use nadikt.Windows.Utf16.{utf16_code_units}
use nadikt.Windows.Utf16.RoundTrip.{decode_utf16, line_feeds, utf16_code_units-decode}
use nadikt.Windows.Injector.{
  KeyEvent, InputApi, Stopped, raised, InjectorState, call, set_failed, clean_up, after_send,
  send_complete, wait_loop, wait_for_released_modifiers, prepare_dispatch, ready_now,
  ready_for_immediate_dispatch, prepared_or_ready, send_if, dispatch_events, dispatch_paste,
  dispatch_unicode, take, key_downs, paste_events, unicode_events,
}
use nadikt.Windows.Injector.Keyboard.{take-all}

-- `inserted` tells the events in order. `send` inserts as many of its events as it returns, and
-- neither the question for the modifiers nor `sleep` inserts any.
pub record Inserted (api : InputApi) : Type 0 where
  pub inserted : api.World → List KeyEvent
  pub send-inserted :
      (events : List KeyEvent) (w : api.World) (n : ℕ)
      → (api.send events w).0 ≡ ok n
      → inserted (api.send events w).1 ≡ inserted w ++ take n events
  pub modifiers_down-inserted : (w : api.World) → inserted (api.modifiers_down w).1 ≡ inserted w
  pub sleep-inserted : (d : ℕ) (w : api.World) → inserted (api.sleep d w).1 ≡ inserted w

abbrev pub key : ℕ → Bool → KeyEvent
key code up = record { virtual_key = code; code_unit = 0; is_key_up = up; is_unicode = false }

-- The code units that a reader takes from events: each one is pressed and then released, as a code
-- unit and not as a key.
unfoldable pub read_units : List KeyEvent → Option (List ℕ)
read_units [] = some []
read_units (_ ∷ []) = none
read_units (down ∷ up ∷ events) =
    let rest = read_units events in
    if down.is_unicode
      && up.is_unicode
      && not down.is_key_up
      && up.is_key_up
      && down.virtual_key == 0
      && up.virtual_key == 0
      && down.code_unit == up.code_unit
    then elim rest [ none ↦ none | some us ↦ some (down.code_unit ∷ us) ]
    else none

read_units-unicode_events : (units : List ℕ) → read_units (unicode_events units) ≡ some units
unfolding read_units unicode_events
read_units-unicode_events [] = refl
read_units-unicode_events (u ∷ units) = ground (arith, read_units-unicode_events units, ==_iff u u)

module _ (api : InputApi) (law : Inserted api) where
  abbrev pub inserted : InjectorState api.World → List KeyEvent
  inserted s = law.inserted s.world

  clean_up-fails :
      (sent : List KeyEvent) (s : InjectorState api.World) (result : DispatchResult)
      → (clean_up api sent s).0 ≡ ok result
      → result.dispatched ≡ false
  unfolding clean_up set_failed
  clean_up-fails sent s result e = ground arith

  after_send-all :
      (events : List KeyEvent) (r : Result Stopped ℕ) (s : InjectorState api.World)
      (result : DispatchResult)
      → (after_send api events r s).0 ≡ ok result
      → result.dispatched ≡ true
      → (r ≡ ok (length events)) × ((after_send api events r s).1.world ≡ s.world)
  unfolding after_send set_failed call
  after_send-all events (err e) s result p d =
      absurd (ground (arith, clean_up-fails (key_downs events) s result p))
  after_send-all events (ok n) s result p d = elim (Bool-cases (n == length events)) [
    | inl all ↦ (ap ok ((==_iff n (length events)).0 all), ground arith)
    | inr part ↦
        let s' = record s { world = (api.last_error s.world).1 } in
        elim (Result-cases (api.last_error s.world).0) [
          | inr (x, q) ↦ absurd (ground arith)
          | inl (code, q) ↦
              absurd (ground (arith, clean_up-fails (take n events) s' result (ground arith)))
        ]
  ]

  module _ (wait_ms : ℕ) where
    wait_loop-inserted :
        (fuel deadline : ℕ) (s : InjectorState api.World)
        → inserted (wait_loop api wait_ms fuel deadline s).1 ≡ inserted s
    unfolding wait_loop call
    wait_loop-inserted zero deadline s = refl
    wait_loop-inserted (suc fuel) deadline s =
        let s1 = record s { world = (api.modifiers_down s.world).1 } in
        let s2 = record s1 { world = (api.sleep (min 10 wait_ms) s1.world).1 } in
        ground (
          arith,
          law.modifiers_down-inserted s.world,
          law.sleep-inserted (min 10 wait_ms) s1.world,
          wait_loop-inserted fuel deadline s2,
        )

    ready-inserted :
        (prepared : Bool) (s : InjectorState api.World)
        → inserted (ready_for_immediate_dispatch api wait_ms prepared s).1 ≡ inserted s
    unfolding ready_for_immediate_dispatch prepared_or_ready prepare_dispatch
        wait_for_released_modifiers ready_now call
    ready-inserted prepared s = grind (arith, wait_loop-inserted, law.modifiers_down-inserted)

    events-inserted :
        (prepared : Bool) (events : List KeyEvent) (s : InjectorState api.World)
        (result : DispatchResult)
        → (dispatch_events api wait_ms prepared events s).0 ≡ ok result
        → result.dispatched ≡ true
        → inserted (dispatch_events api wait_ms prepared events s).1 ≡ inserted s ++ events
    unfolding dispatch_events send_if send_complete call
    events-inserted prepared events s result e d =
        let s1 = (ready_for_immediate_dispatch api wait_ms prepared s).1 in
        let h = ready-inserted prepared s in
        let s2 = record s1 { cleanup_failed = true; world = (api.send events s1.world).1 } in
        elim (Bool-cases s.cleanup_failed) [
          | inl p ↦ absurd (ground arith)
          | inr p ↦ elim (Result-cases (ready_for_immediate_dispatch api wait_ms prepared s).0) [
            | inr (x, q) ↦ absurd (ground arith)
            | inl (false, q) ↦ absurd (ground arith)
            | inl (true, q) ↦ elim (Result-cases (api.send events s1.world).0) [
              | inr (x, r) ↦
                  let all = after_send-all events (err (raised x)) s2 result (ground arith) d in
                  absurd (ground arith)
              | inl (n, r) ↦
                  let all = after_send-all events (ok n) s2 result (ground arith) d in
                  let same = take-all n events (ground arith) in
                  ground (arith, all, law.send-inserted events s1.world n r, h, same)
            ]
          ]
        ]

    -- A paste that reports success has pressed Ctrl (17), pressed V (86), released V and released Ctrl,
    -- and has inserted nothing else. A text that is dispatched with success has inserted, each pressed
    -- and then released, code units that a reader of UTF-16 decodes to the text with its line breaks
    -- made `\n`, and nothing else.
    pub dispatch-inserted :
        (text : List ℕ) (prepared : Bool) (s : InjectorState api.World) (result : DispatchResult)
        → All (λ c. c < 1114112) text
        → result.dispatched ≡ true
        → let paste : Result Stopped DispatchResult × InjectorState api.World =
            dispatch_paste api wait_ms prepared s in
          let unicode : Result Stopped DispatchResult × InjectorState api.World =
            dispatch_unicode api wait_ms text prepared s in
          (paste.0 ≡ ok result
            → inserted paste.1
              ≡ inserted s ++ key 17 false ∷ key 86 false ∷ key 86 true ∷ key 17 true ∷ [])
          × (unicode.0 ≡ ok result
              → (events : List KeyEvent) × (units : List ℕ) × (inserted unicode.1
                  ≡ inserted s ++ events)
                × (read_units events ≡ some units)
                × (decode_utf16 units ≡ line_feeds false text))
    unfolding dispatch_paste dispatch_unicode
    dispatch-inserted text prepared s result bounded d = (
      λ e. events-inserted prepared paste_events s result e d,
      λ e. elim (Option-cases (utf16_code_units text)) [
        | inl p ↦ absurd (ground arith)
        | inr (units, p) ↦
            let decoded = ((utf16_code_units-decode text bounded).1 units p).1 in
            let f = events-inserted prepared (unicode_events units) s result (ground arith) d in
            (
              unicode_events units,
              units,
              ground (arith, f),
              read_units-unicode_events units,
              decoded,
            )
      ],
    )
