-- ===== src/Windows/Tests/Targets.antt =====
-- An editor's window as the target.
use nadikt.Base.{ℕ, ◌+◌, true, false, none, some, [], ◌∷◌, ◌≡◌, refl}
use nadikt.Base.Dict
use nadikt.Base.Result.{ok}
use nadikt.Insertion.Contracts.{TargetToken, TargetAssessment}
use nadikt.Windows.Target.{
  WindowsIdentity, WindowsTargetApi, TargetState, assess, assess_captured, assess_current,
  assess_integrity, assess_protection, call, same_identity, protection,
}
use nadikt.Windows.Target.Assessing.{IsClear, assess-IsClear}
use nadikt.Windows.Target.System.{TargetSystem, capture_identity, is_higher_integrity}
use nadikt.Windows.Target.Handles.{Closes, probes-Closes}

abbrev editor : WindowsIdentity
editor = record {
  top_window = 10;
  process_id = 20;
  thread_id = 30;
  focused_control = 11;
  automation_id = none;
  process_marker = 99;
}

abbrev desktop : WindowsTargetApi
desktop = record {
  World = Unit;
  capture_identity = λ w. (ok (some editor), w);
  is_window = λ identity w. (ok true, w);
  classic_password_state = λ identity w. (ok (some false), w);
  automation_password_state = λ identity w. (ok none, w);
  is_higher_integrity = λ identity w. (ok (some false), w);
}

abbrev token : TargetToken
token = record { key = "k1" }

abbrev captured_state : TargetState Unit
captured_state = record { captured_identities = ("k1", editor) ∷ []; world = tt }

assess_safe : (assess desktop token captured_state).0 ≡ ok (record { code = none })
unfolding assess assess_captured assess_current assess_integrity assess_protection call
    same_identity protection Dict.get
assess_safe = refl

assess-IsClear_example :
    ((a : TargetAssessment)
      → (assess desktop token captured_state).0 ≡ ok a
      → a.code ≡ none
      → IsClear desktop token captured_state)
    × (IsClear desktop token captured_state
        → (assess desktop token captured_state).0 ≡ ok (record { code = none }))
assess-IsClear_example = assess-IsClear desktop token captured_state

-- Handles are the process numbers plus 1000; the token of a process is its handle plus 1.
abbrev machine : TargetSystem
machine = record {
  World = Unit;
  Label = ℕ;
  casefold = λ s. s;
  get_foreground_window = λ w. (ok 10, w);
  get_window_thread_process_id = λ window w. (ok (30, 20), w);
  get_focus_of_thread = λ thread w. (ok (some 11), w);
  get_root_ancestor = λ window w. (ok window, w);
  is_window = λ window w. (ok true, w);
  get_class_name = λ window w. (ok (some "edit"), w);
  get_window_style = λ window w. (ok (32, 0), w);
  get_current_process_id = λ w. (ok 40, w);
  open_process = λ id w. (ok (id + 1000), w);
  open_process_token = λ process w. (ok (true, process + 1), w);
  get_token_information_size = λ token' w. (ok 28, w);
  get_token_label = λ token' size w. (ok (some token'), w);
  get_sub_authority_count = λ label w. (ok (some 1), w);
  get_sub_authority = λ label index w. (ok (some 8192), w);
  get_process_creation_time = λ process w. (ok (some (1, 2)), w);
  close_handle = λ h w. w;
}

probes-Closes_example :
    Closes machine (capture_identity machine)
    × ((identity : WindowsIdentity) → Closes machine (is_higher_integrity machine identity))
probes-Closes_example = probes-Closes machine
