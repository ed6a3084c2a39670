-- ===== src/Windows/Injector/System.antt =====
-- `CtypesInputApi` of windows_injector.py. `GetAsyncKeyState`, `SendInput` and the last error are a
-- parameter on a world.
use nadikt.Base.{
  ℕ, ◌+◌, ◌/◌, ◌%◌, ◌^◌, Bool, true, false, List, [], ◌∷◌, map, length, ◌≡◌, arith, ◌==◌,
  if◌then◌else◌,
}
use nadikt.Base.Exec.{Exec, pure, ◌>>=◌}
use nadikt.Insertion.Contracts.{Raised}
use nadikt.Windows.Injector.{KeyEvent, InputApi, vk_control}

abbrev keyeventf_keyup : ℕ
keyeventf_keyup = 2

abbrev keyeventf_unicode : ℕ
keyeventf_unicode = 4

-- The fields of `KEYBDINPUT` that are not always 0.
pub record KeybdInput : Type 0 where
  pub w_vk : ℕ
  pub w_scan : ℕ
  pub dw_flags : ℕ

-- The body of the loop of `send`. The two flags are bits of their own, so `|=` adds them.
unfoldable pub keybd_input : KeyEvent → KeybdInput
keybd_input event = record {
  w_vk = if event.is_unicode then 0 else event.virtual_key;
  w_scan = if event.is_unicode then event.code_unit else 0;
  dw_flags =
      (if event.is_unicode then keyeventf_unicode else 0)
      + (if event.is_key_up then keyeventf_keyup else 0);
}

pub record InputSystem : Type 1 where
  pub World : Type 0
  pub get_async_key_state : ℕ → Exec Raised World ℕ
  pub send_input : (count : ℕ) → List KeybdInput → Exec Raised World ℕ
  pub get_last_error : Exec Raised World ℕ
  pub monotonic : World → ℕ
  pub sleep : ℕ → Exec Raised World (Unit {0})

-- VK_CONTROL, VK_SHIFT, VK_MENU, VK_LWIN and VK_RWIN.
abbrev modifiers : List ℕ
modifiers = vk_control ∷ 16 ∷ 18 ∷ 91 ∷ 92 ∷ []

module _ (sys : InputSystem) where
  -- `any(GetAsyncKeyState(key) & 0x8000 for key in keys)`
  unfoldable pub any_down : List ℕ → Exec Raised sys.World Bool
  any_down [] = pure false
  any_down (key ∷ keys) = do
    state ← sys.get_async_key_state key
    (elim (state / 2 ^ 15 % 2 == 1) [ true ↦ pure true | false ↦ any_down keys ])

  unfoldable pub send : List KeyEvent → Exec Raised sys.World ℕ
  unfolding keybd_input
  send [] = pure 0
  send (event ∷ events) =
      sys.send_input (length (event ∷ events)) (map keybd_input (event ∷ events))

  unfoldable pub ctypes_input_api : InputApi
  unfolding any_down send
  ctypes_input_api = record {
    World = sys.World;
    modifiers_down = any_down modifiers;
    send = send;
    last_error = sys.get_last_error;
    monotonic = sys.monotonic;
    sleep = sys.sleep;
  }

-- The event that an input of `SendInput` stands for.
unfoldable key_event : KeybdInput → KeyEvent
key_event input = record {
  virtual_key = input.w_vk;
  code_unit = input.w_scan;
  is_key_up = input.dw_flags / keyeventf_keyup % 2 == 1;
  is_unicode = input.dw_flags / keyeventf_unicode % 2 == 1;
}

-- The event that names no field the system does not read.
abbrev Plain : KeyEvent → Type 0
Plain event = if event.is_unicode then event.virtual_key ≡ 0 else event.code_unit ≡ 0

-- The input that `send` builds for a plain event tells the event again.
key_event-keybd_input : (event : KeyEvent) → Plain event → key_event (keybd_input event) ≡ event
unfolding key_event keybd_input
key_event-keybd_input event h = ground arith
