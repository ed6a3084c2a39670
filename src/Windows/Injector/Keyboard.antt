-- ===== src/Windows/Injector/Keyboard.antt =====
-- What a sequence of events of windows_injector.py leaves down, and the releases that it computes.
use nadikt.Base.{
  ℕ, zero, suc, Bool, true, false, not, ◌||◌, List, [], ◌∷◌, ◌++◌, ◌≡◌, refl, arith, if◌then◌else◌,
  All, length,
}
use nadikt.Windows.Injector.{
  KeyEvent, same_key, has_match, remove_match, press, pressed_after, release_of, releases,
  cleanup_of, key_downs, take, paste_events, unicode_events,
}

-- Whether the key of `k` is down after the events, `b` telling whether it was before.
abbrev pub down_after : KeyEvent → Bool → List KeyEvent → Bool
down_after k b [] = b
down_after k b (event ∷ events) =
    down_after k (if same_key event k then not event.is_key_up else b) events

-- All the events have `is_key_up` as told.
abbrev pub AllUp : Bool → List KeyEvent → Type 0
AllUp up = All (λ event. event.is_key_up ≡ up)

match-remove :
    (event k : KeyEvent) (pressed : List KeyEvent)
    → same_key event k ≡ false
    → has_match k (remove_match event pressed) ≡ has_match k pressed
unfolding has_match remove_match same_key
match-remove event k [] h = refl
match-remove event k (item ∷ pressed) h = ground (arith, match-remove event k pressed h)

match-append :
    (k : KeyEvent) (xs ys : List KeyEvent)
    → has_match k (xs ++ ys) ≡ has_match k xs || has_match k ys
unfolding has_match
match-append k [] ys = refl
match-append k (x ∷ xs) ys = ground (arith, match-append k xs ys)

press-covers :
    (event k : KeyEvent) (b : Bool) (pressed : List KeyEvent)
    → (b ≡ true → has_match k pressed ≡ true)
    → (if same_key event k then not event.is_key_up else b) ≡ true
    → has_match k (press event pressed) ≡ true
unfolding press has_match
press-covers event k b pressed h d =
    ground (arith, match-remove event k pressed, match-append k pressed (event ∷ []))

pub pressed_after-covers :
    (k : KeyEvent) (b : Bool) (pressed sent : List KeyEvent)
    → (b ≡ true → has_match k pressed ≡ true)
    → down_after k b sent ≡ true
    → has_match k (pressed_after pressed sent) ≡ true
unfolding pressed_after
pressed_after-covers k b pressed [] h d = h d
pressed_after-covers k b pressed (event ∷ sent) h d =
    pressed_after-covers k (if same_key event k then not event.is_key_up else b)
      (press event pressed) sent (press-covers event k b pressed h) d

pub match-releases :
    (k : KeyEvent) (pressed : List KeyEvent) → has_match k (releases pressed) ≡ has_match k pressed
unfolding releases has_match same_key
match-releases k [] = refl
match-releases k (event ∷ pressed) =
    ground
      (arith, match-releases k pressed, match-append k (releases pressed) (release_of event ∷ []))

up-append : (xs ys : List KeyEvent) → AllUp true xs → AllUp true ys → AllUp true (xs ++ ys)
up-append [] ys h k = k
up-append (x ∷ xs) ys h k = (h.0, up-append xs ys h.1 k)

pub releases-AllUp : (pressed : List KeyEvent) → AllUp true (releases pressed)
unfolding releases
releases-AllUp [] = tt
releases-AllUp (event ∷ pressed) =
    up-append (releases pressed) (release_of event ∷ []) (releases-AllUp pressed) (refl, tt)

-- Whatever keys a sequence leaves down, the releases are of those keys.
pub cleanup-covers :
    (k : KeyEvent) (sent : List KeyEvent)
    → down_after k false sent ≡ true
    → has_match k (cleanup_of sent) ≡ true
unfolding cleanup_of
cleanup-covers k sent d =
    let p = pressed_after-covers k false [] sent (λ e. absurd (ground arith)) d in
    ground (arith, p, match-releases k (pressed_after [] sent))

downs-pressed :
    (k : KeyEvent) (pressed events : List KeyEvent)
    → has_match k (pressed_after pressed (key_downs events))
      ≡ has_match k pressed || has_match k (key_downs events)
unfolding pressed_after press key_downs has_match
downs-pressed k pressed [] = ground arith
downs-pressed k pressed (event ∷ events) = ground (
  arith,
  match-append k pressed (event ∷ []),
  downs-pressed k pressed events,
  downs-pressed k (pressed ++ event ∷ []) events,
)

prefix-downs :
    (k : KeyEvent) (b : Bool) (n : ℕ) (events : List KeyEvent)
    → down_after k b (take n events) ≡ true
    → b || has_match k (key_downs events) ≡ true
unfolding take key_downs has_match
prefix-downs k b n [] d = ground arith
prefix-downs k b zero (event ∷ events) d = ground arith
prefix-downs k b (suc n) (event ∷ events) d =
    ground (arith, prefix-downs k (if same_key event k then not event.is_key_up else b) n events)

-- Where any first part of the events was sent, the releases for all their key downs are of the keys
-- that are down.
pub downs-covers :
    (k : KeyEvent) (n : ℕ) (events : List KeyEvent)
    → down_after k false (take n events) ≡ true
    → has_match k (cleanup_of (key_downs events)) ≡ true
unfolding cleanup_of has_match
downs-covers k n events d = ground (
  arith,
  prefix-downs k false n events,
  downs-pressed k [] events,
  match-releases k (pressed_after [] (key_downs events)),
)

-- The events of both dispatches release each key that they press.
pub paste-up : (k : KeyEvent) → down_after k false paste_events ≡ false
unfolding same_key
paste-up k = ground arith

pub unicode-up : (k : KeyEvent) (units : List ℕ) → down_after k false (unicode_events units) ≡ false
unfolding unicode_events same_key
unicode-up k [] = refl
unicode-up k (unit ∷ units) = ground (arith, unicode-up k units)

pub take-all : (n : ℕ) (events : List KeyEvent) → n ≡ length events → take n events ≡ events
unfolding take
take-all n [] h = refl
take-all zero (event ∷ events) h = absurd (ground arith)
take-all (suc n) (event ∷ events) h = ground (arith, take-all n events)

pub cleanup-AllUp : (sent : List KeyEvent) → AllUp true (cleanup_of sent)
unfolding cleanup_of
cleanup-AllUp sent = releases-AllUp (pressed_after [] sent)
