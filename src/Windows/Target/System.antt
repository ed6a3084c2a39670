-- ===== src/Windows/Target/System.antt =====
-- `CtypesWindowsTargetApi` of windows_target.py. The functions of user32, kernel32 and advapi32 are a
-- parameter on a world; handles and windows are numbers, 0 for none. Each handle that is opened or
-- closed is recorded, the last one first.
use nadikt.Base.{
  ℕ, ◌+◌, ◌-◌, ◌*◌, ◌/◌, ◌%◌, ◌^◌, String, Bool, not, ◌&&◌, Option, none, some, List, ◌∷◌, ◌==◌,
  ltb, str_eq, if◌then◌else◌,
}
use nadikt.Base.Result.{ok}
use nadikt.Base.Exec.{Exec, pure, finally, ◌>>=◌, ◌>>◌}
use nadikt.Insertion.Contracts.{Raised}
use nadikt.Windows.Target.{WindowsIdentity, WindowsTargetApi}

abbrev pub es_password : ℕ
es_password = 32

-- A successful call that writes to an address gives what it writes.
pub record TargetSystem : Type 1 where
  pub World : Type 0
  pub Label : Type 0
  pub casefold : String → String
  pub get_foreground_window : Exec Raised World ℕ
  pub get_window_thread_process_id : ℕ → Exec Raised World (ℕ × ℕ)
  pub get_focus_of_thread : ℕ → Exec Raised World (Option ℕ)
  pub get_root_ancestor : ℕ → Exec Raised World ℕ
  pub is_window : ℕ → Exec Raised World Bool
  pub get_class_name : ℕ → Exec Raised World (Option String)
  pub get_window_style : ℕ → Exec Raised World (ℕ × ℕ)
  pub get_current_process_id : Exec Raised World ℕ
  pub open_process : ℕ → Exec Raised World ℕ
  pub open_process_token : ℕ → Exec Raised World (Bool × ℕ)
  pub get_token_information_size : ℕ → Exec Raised World ℕ
  pub get_token_label : ℕ → ℕ → Exec Raised World (Option Label)
  pub get_sub_authority_count : Label → Exec Raised World (Option ℕ)
  pub get_sub_authority : Label → ℕ → Exec Raised World (Option ℕ)
  pub get_process_creation_time : ℕ → Exec Raised World (Option (ℕ × ℕ))
  pub close_handle : ℕ → World → World

pub data HandleEvent : Type 0 where
  opened closed : ℕ → HandleEvent

pub record SystemState (W : Type 0) : Type 0 where
  pub world : W
  pub log : List HandleEvent

abbrev is_higher : Option ℕ → Option ℕ → Option Bool
is_higher none current = none
is_higher (some target) none = none
is_higher (some target) (some current) = some (ltb current target)

module _ (sys : TargetSystem) where
  abbrev pub H : Type 0 → Type 0
  H R = Exec Raised (SystemState sys.World) R

  unfoldable pub ask : {R : Type 0} → Exec Raised sys.World R → H R
  ask op s = let (r, w) = op s.world in (r, record s { world = w })

  -- A handle that is not null is recorded as opened.
  unfoldable pub log_opened : ℕ → H (Unit {0})
  log_opened h s = (ok tt, if h == 0 then s else record s { log = opened h ∷ s.log })

  unfoldable pub close_handle : ℕ → SystemState sys.World → SystemState sys.World
  close_handle h s = record s { world = sys.close_handle h s.world; log = closed h ∷ s.log }

  -- `if token: CloseHandle(token)`
  unfoldable pub close_token : ℕ → SystemState sys.World → SystemState sys.World
  unfolding close_handle
  close_token h s = if h == 0 then s else close_handle h s

  unfoldable pub open_process : ℕ → H ℕ
  unfolding ask log_opened
  open_process id = do h ← ask (sys.open_process id); log_opened h; pure h

  unfoldable pub open_process_token : ℕ → H (Bool × ℕ)
  unfolding ask log_opened
  open_process_token process = do
    answer ← ask (sys.open_process_token process)
    log_opened answer.1
    pure answer

  -- `_integrity_rid_for_process` from the first `GetTokenInformation` on. The index is a DWORD, so
  -- a count of 0 asks for the last one.
  unfoldable pub rid_of_label : sys.Label → H (Option ℕ)
  unfolding ask
  rid_of_label label = do
    count ← ask (sys.get_sub_authority_count label)
    elim count [
      | none ↦ pure none
      | some n ↦ ask (sys.get_sub_authority label ((n + (2 ^ 32 - 1)) % 2 ^ 32))
    ]

  unfoldable pub rid_of_token : ℕ → H (Option ℕ)
  unfolding ask rid_of_label
  rid_of_token token = do
    required ← ask (sys.get_token_information_size token)
    if required == 0 then pure none else do
      answer ← ask (sys.get_token_label token required)
      elim answer [ none ↦ pure none | some label ↦ rid_of_label label ]

  unfoldable pub rid_of_process : ℕ → H (Option ℕ)
  unfolding open_process_token rid_of_token close_token
  rid_of_process process = do
    answer ← open_process_token process
    finally (if answer.0 then rid_of_token answer.1 else pure none) (close_token answer.1)

  unfoldable pub integrity_rid_for_process : ℕ → H (Option ℕ)
  unfolding open_process rid_of_process close_handle
  integrity_rid_for_process process_id = do
    process ← open_process process_id
    if process == 0 then pure none else finally (rid_of_process process) (close_handle process)

  unfoldable pub creation_time : ℕ → H (Option ℕ)
  unfolding ask
  creation_time process = do
    times ← ask (sys.get_process_creation_time process)
    elim times [ none ↦ pure none | some (high, low) ↦ pure (some (high * 2 ^ 32 + low)) ]

  unfoldable pub process_creation_marker : ℕ → H (Option ℕ)
  unfolding open_process creation_time close_handle
  process_creation_marker process_id = do
    process ← open_process process_id
    if process == 0 then pure none else finally (creation_time process) (close_handle process)

  -- `capture_identity` for a foreground window with its thread and process.
  unfoldable pub identity_of : ℕ → ℕ → ℕ → ℕ → H (Option WindowsIdentity)
  unfolding ask process_creation_marker
  identity_of foreground thread_id process_id focus = do
    root ← ask (sys.get_root_ancestor foreground)
    marker ← process_creation_marker process_id
    elim marker [
      | none ↦ pure none
      | some m ↦ pure (
          some (record {
            top_window = if root == 0 then foreground else root;
            process_id = process_id;
            thread_id = thread_id;
            focused_control = if focus == 0 then foreground else focus;
            automation_id = none;
            process_marker = m;
          }))
    ]

  unfoldable pub capture_identity : H (Option WindowsIdentity)
  unfolding ask identity_of
  capture_identity = do
    foreground ← ask sys.get_foreground_window
    if foreground == 0 then pure none else do
      ids ← ask (sys.get_window_thread_process_id foreground)
      if ids.0 == 0 then pure none else do
        focus ← ask (sys.get_focus_of_thread ids.0)
        elim focus [ none ↦ pure none | some f ↦ identity_of foreground ids.0 ids.1 f ]

  unfoldable pub classic_password_state : WindowsIdentity → H (Option Bool)
  unfolding ask
  classic_password_state identity = do
    name ← ask (sys.get_class_name identity.focused_control)
    elim name [
      | none ↦ pure none
      | some n ↦ if not (str_eq (sys.casefold n) "edit") then pure none else do
        style ← ask (sys.get_window_style identity.focused_control)
        if style.0 == 0 && not (style.1 == 0)
            then pure none
            else pure (some (style.0 / es_password % 2 == 1))
    ]

  unfoldable pub is_higher_integrity : WindowsIdentity → H (Option Bool)
  unfolding ask integrity_rid_for_process
  is_higher_integrity identity = do
    target_rid ← integrity_rid_for_process identity.process_id
    current_id ← ask sys.get_current_process_id
    current_rid ← integrity_rid_for_process current_id
    pure (is_higher target_rid current_rid)

  -- `CtypesWindowsTargetApi`, with `automation_password_state` always unknown.
  unfoldable pub ctypes_target_api : WindowsTargetApi
  ctypes_target_api = record {
    World = SystemState sys.World;
    capture_identity = capture_identity;
    is_window = λ identity. ask (sys.is_window identity.top_window);
    classic_password_state = classic_password_state;
    automation_password_state = λ identity. pure none;
    is_higher_integrity = is_higher_integrity;
  }
