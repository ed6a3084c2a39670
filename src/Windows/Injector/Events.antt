-- ===== src/Windows/Injector/Events.antt =====
-- The key events of windows_injector.py, those that release what others press, and those of the
-- two dispatches.
use nadikt.Base.{
  ℕ, zero, suc, Bool, true, false, not, ◌&&◌, List, [], ◌∷◌, ◌++◌, ◌==◌, if◌then◌else◌,
}

abbrev pub vk_control : ℕ
vk_control = 17

abbrev pub vk_v : ℕ
vk_v = 86

pub record KeyEvent : Type 0 where
  pub virtual_key : ℕ
  pub code_unit : ℕ
  pub is_key_up : Bool
  pub is_unicode : Bool

-- Whether an event on one key is on the key of another.
unfoldable pub same_key : KeyEvent → KeyEvent → Bool
same_key a b =
    a.virtual_key == b.virtual_key
    && a.code_unit == b.code_unit
    && elim a.is_unicode [ true ↦ b.is_unicode | false ↦ not b.is_unicode ]

-- Whether `reversed(pressed)` has an event on the key of `event`.
unfoldable pub has_match : KeyEvent → List KeyEvent → Bool
unfolding same_key
has_match event [] = false
has_match event (item ∷ pressed) = elim (same_key item event) [
  | true ↦ true
  | false ↦ has_match event pressed
]

-- `pressed.remove(matching)`: what is pressed are key downs, so an equal event is one on its key.
unfoldable pub remove_match : KeyEvent → List KeyEvent → List KeyEvent
unfolding same_key
remove_match event [] = []
remove_match event (item ∷ pressed) = elim (same_key item event) [
  | true ↦ pressed
  | false ↦ item ∷ remove_match event pressed
]

-- The body of the loop over `sent_events`.
unfoldable pub press : KeyEvent → List KeyEvent → List KeyEvent
unfolding has_match remove_match
press event pressed =
    if event.is_key_up && has_match event pressed
    then remove_match event pressed
    else if event.is_key_up
    then pressed
    else pressed ++ event ∷ []

unfoldable pub pressed_after : List KeyEvent → List KeyEvent → List KeyEvent
unfolding press
pressed_after pressed [] = pressed
pressed_after pressed (event ∷ sent) = pressed_after (press event pressed) sent

abbrev pub release_of : KeyEvent → KeyEvent
release_of event = record event { is_key_up = true }

-- `tuple(release for event in reversed(pressed))`
unfoldable pub releases : List KeyEvent → List KeyEvent
releases [] = []
releases (event ∷ pressed) = releases pressed ++ release_of event ∷ []

unfoldable pub cleanup_of : List KeyEvent → List KeyEvent
unfolding pressed_after releases
cleanup_of sent = releases (pressed_after [] sent)

-- `tuple(event for event in events if not event.is_key_up)`
unfoldable pub key_downs : List KeyEvent → List KeyEvent
key_downs [] = []
key_downs (event ∷ events) =
    let rest = key_downs events in if event.is_key_up then rest else event ∷ rest

-- `events[:n]`
unfoldable pub take : ℕ → List KeyEvent → List KeyEvent
take n [] = []
take zero (event ∷ events) = []
take (suc n) (event ∷ events) = event ∷ take n events

abbrev pub paste_events : List KeyEvent
paste_events =
    record { virtual_key = vk_control; code_unit = 0; is_key_up = false; is_unicode = false }
    ∷ record { virtual_key = vk_v; code_unit = 0; is_key_up = false; is_unicode = false }
    ∷ record { virtual_key = vk_v; code_unit = 0; is_key_up = true; is_unicode = false }
    ∷ record { virtual_key = vk_control; code_unit = 0; is_key_up = true; is_unicode = false }
    ∷ []

unfoldable pub unicode_events : List ℕ → List KeyEvent
unicode_events [] = []
unicode_events (unit ∷ units) =
    record { virtual_key = 0; code_unit = unit; is_key_up = false; is_unicode = true }
    ∷ record { virtual_key = 0; code_unit = unit; is_key_up = true; is_unicode = true }
    ∷ unicode_events units
