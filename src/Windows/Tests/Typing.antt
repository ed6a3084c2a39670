-- ===== src/Windows/Tests/Typing.antt =====
-- A keyboard that inserts every event, and a clock that only `sleep` moves.
use nadikt.Base.{
  ℕ, ◌+◌, ◌<◌, ◌≤◌, Bool, true, false, not, none, some, List, [], ◌∷◌, ◌++◌, ◌≡◌, ◌≢◌, ◌↔◌, refl,
  arith, length, ltb, All, any_of, if◌then◌else◌,
}
use nadikt.Base.Result.{ok, err}
use nadikt.Insertion.Contracts.{DispatchResult, Raised}
use nadikt.Windows.Utf16.{is_surrogate, utf16_code_units}
use nadikt.Windows.Utf16.RoundTrip.{decode_utf16, line_feeds, utf16_code_units-decode}
use nadikt.Windows.Injector.{
  KeyEvent, InputApi, stuck, InjectorState, same_key, take, dispatch_paste, dispatch_unicode,
  prepare_dispatch, wait_for_released_modifiers,
}
use nadikt.Windows.Injector.Inserting.{key, read_units, Inserted, dispatch-inserted}
use nadikt.Windows.Injector.Waiting.{Clock, wait-Ended}
use nadikt.Windows.Injector.Poisoned.{Told, dispatch-cleanup_failed}
use nadikt.Windows.Injector.Keyboard.{down_after, take-all}
use nadikt.Windows.Injector.Inserts.{Inserts}
use nadikt.Windows.Injector.Releasing.{Lifted, dispatch-Lifted}

-- `a`, a carriage return with a line feed, and an emoji.
abbrev text : List ℕ
text = 97 ∷ 13 ∷ 10 ∷ 128512 ∷ []

utf16_code_units-decode_example :
    ((any_of is_surrogate text ≡ false) ↔ (utf16_code_units text ≢ none))
    × ((units : List ℕ)
        → utf16_code_units text ≡ some units
        → All (λ u. u < 65536) units × (decode_utf16 units ≡ line_feeds false text))
utf16_code_units-decode_example =
    utf16_code_units-decode text (omega arith, (omega arith, (omega arith, (omega arith, tt))))

abbrev Keys : Type 0
Keys = List KeyEvent × ℕ

-- A modifier is held for 20 milliseconds.
abbrev keyboard : InputApi
keyboard = record {
  World = Keys;
  modifiers_down = λ w. (ok (ltb w.1 20), w);
  send = λ events w. (ok (length events), (w.0 ++ events, w.1));
  last_error = λ w. (ok 0, w);
  monotonic = λ w. w.1;
  sleep = λ d w. (ok tt, (w.0, w.1 + d));
}

down-append :
    (k : KeyEvent) (b : Bool) (xs ys : List KeyEvent)
    → down_after k b (xs ++ ys) ≡ down_after k (down_after k b xs) ys
down-append k b [] ys = refl
down-append k b (x ∷ xs) ys = down-append k (if same_key x k then not x.is_key_up else b) xs ys

abbrev keyboard_clock : Clock keyboard
keyboard_clock = record {
  modifiers_down-clock = λ w. omega arith;
  sleep-clock = λ d w h. omega arith;
}

sent :
    (events : List KeyEvent) (w : Keys) (n : ℕ)
    → (keyboard.send events w).0 ≡ ok n
    → (k : KeyEvent)
    → down_after k false (w.0 ++ events) ≡ down_after k (down_after k false w.0) (take n events)
sent events w n e k =
    let all : take n events ≡ events = take-all n events (ground arith) in
    rw all (down-append k false w.0 events)

never_raises : (events : List KeyEvent) (w : Keys) (e : Raised) → (keyboard.send events w).0 ≢ err e
never_raises events w e = ground arith

abbrev keyboard_inserts : Inserts keyboard
keyboard_inserts = record {
  held = λ w k. down_after k false w.0;
  send-held = sent;
  send-raises = λ events w e h. absurd (never_raises events w e h);
  modifiers_down-held = λ w k. refl;
  last_error-held = λ w k. refl;
  sleep-held = λ d w k. refl;
}

abbrev fresh : InjectorState Keys
fresh = record { cleanup_failed = false; world = ([], 0) }

wait-Ended_example :
    ((wait_for_released_modifiers keyboard 150 fresh).0 ≢ err stuck)
    × ((wait_for_released_modifiers keyboard 150 fresh).0 ≡ ok false
        → 150 ≤ (wait_for_released_modifiers keyboard 150 fresh).1.world.1)
wait-Ended_example = wait-Ended keyboard keyboard_clock 150 fresh

dispatch-cleanup_failed_example :
    Told keyboard
      (dispatch_paste keyboard 150 false fresh).0
      (dispatch_paste keyboard 150 false fresh).1
    × Told keyboard
        (dispatch_unicode keyboard 150 text false fresh).0
        (dispatch_unicode keyboard 150 text false fresh).1
    × (fresh.cleanup_failed ≡ true
        → ((dispatch_paste keyboard 150 false fresh).1 ≡ fresh)
          × ((dispatch_unicode keyboard 150 text false fresh).1 ≡ fresh)
          × ((prepare_dispatch keyboard 150 fresh).1 ≡ fresh))
dispatch-cleanup_failed_example = dispatch-cleanup_failed keyboard 150 text false fresh

dispatch-Lifted_example :
    Lifted keyboard keyboard_inserts
      (dispatch_paste keyboard 150 false fresh).0
      (dispatch_paste keyboard 150 false fresh).1
    × Lifted keyboard keyboard_inserts
        (dispatch_unicode keyboard 150 text false fresh).0
        (dispatch_unicode keyboard 150 text false fresh).1
dispatch-Lifted_example = dispatch-Lifted keyboard keyboard_inserts 150 text false fresh (λ k. refl)

appended :
    (events : List KeyEvent) (w : Keys) (n : ℕ)
    → (keyboard.send events w).0 ≡ ok n
    → w.0 ++ events ≡ w.0 ++ take n events
appended events w n e =
    let all : take n events ≡ events = take-all n events (ground arith) in rw all refl

abbrev keyboard_inserted : Inserted keyboard
keyboard_inserted = record {
  inserted = λ w. w.0;
  send-inserted = appended;
  modifiers_down-inserted = λ w. refl;
  sleep-inserted = λ d w. refl;
}

abbrev success : DispatchResult
success = record { dispatched = true; code = none }

dispatch-inserted_example :
    ((dispatch_paste keyboard 150 false fresh).0 ≡ ok success
      → (dispatch_paste keyboard 150 false fresh).1.world.0
        ≡ key 17 false ∷ key 86 false ∷ key 86 true ∷ key 17 true ∷ [])
    × ((dispatch_unicode keyboard 150 text false fresh).0 ≡ ok success
        → (events : List KeyEvent) × (units : List ℕ) × ((dispatch_unicode keyboard 150 text false
              fresh).1.world.0
            ≡ events)
          × (read_units events ≡ some units)
          × (decode_utf16 units ≡ line_feeds false text))
dispatch-inserted_example =
    dispatch-inserted keyboard keyboard_inserted 150 text false fresh success
      (omega arith, (omega arith, (omega arith, (omega arith, tt)))) refl
