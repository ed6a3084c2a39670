-- ===== src/Windows/Tests/Commands.antt =====
-- The command line with adapters of fixed answers.
use nadikt.Base.{ℕ, ◌+◌, Bool, true, false, none, some, [], ◌∷◌, ◌++◌, ◌≡◌, refl, arith, str_eq}
use nadikt.Base.Dict
use nadikt.Base.Int.{pos}
use nadikt.Base.Texts.{strip, lstrip, rstrip, is_space}
use nadikt.Base.Result.{Result, ok, err}
use nadikt.Insertion.Contracts.{Adapters, InsertionMethod, ClipboardSnapshot}
use nadikt.Insertion.Boundary.{
  retain_result, assess_target, call, prepare_input_dispatch, safe_dispatch, finish,
}
use nadikt.Insertion.Service.{
  deliver, set_locked, attempt, check_and_dispatch, dispatch_assessed, dispatch, dispatch_direct,
  dispatch_code,
}
use nadikt.Windows.Cli.{
  Arguments, line, interrupted, end_of_file, Ended, Handler, CliSystem, CliState,
  resolve_pending_restoration, uses_clipboard, print, at_the_end, countdown, sleep_times, sleep,
  defer_sigint, serve, exit_code,
}
use nadikt.Windows.Cli.Create.{create_runtime, close_and_raise}
use nadikt.Windows.Cli.Running.{
  start_runtime, run, run_with, capture_target, deliver_to, new_service, deliver_request, settle,
}
use nadikt.Windows.Cli.Resolving.{retained, CanRestore, CanSleep, resolve-ends}
use nadikt.Windows.Cli.Ending.{is_allowed, run-Ended}

abbrev willing : Adapters
willing = record {
  World = ℕ;
  Object = ℕ;
  monotonic = λ w. w;
  assess = λ target w. (ok (record { code = none }), w);
  prepare =
      λ w. (ok (record { is_safe = true; snapshot = some (record { state = 7 }); code = none }), w);
  commit_mutation = λ text w. (ok tt, w);
  restore = λ snapshot w. (ok (record { restored = true; external_change = false }), w);
  discard = λ snapshot w. (ok tt, w);
  prepare_dispatch = λ w. (ok true, w);
  dispatch_paste = λ w. (ok (record { dispatched = true; code = none }), w);
  dispatch_unicode = λ text w. (ok (record { dispatched = true; code = none }), w);
}

abbrev terminal : CliSystem willing
terminal = record {
  new_target_api = λ w. (ok tt, w);
  new_clipboard_api = λ w. (ok tt, w);
  new_input_api = λ w. (ok tt, w);
  capture = λ w. (ok (record { key = "k1" }), w);
  sleep_second = λ w. (ok tt, w + 1000);
  new_request_id = λ w. "manual-1";
  in_main_thread = true;
  close_clipboard = λ w. w;
}

abbrev kept : ClipboardSnapshot ℕ
kept = record { state = 7 }

-- The service keeps the original of the request.
abbrev pending : CliState willing
pending = record {
  state = record {
    service = record {
      delivery_locked = false;
      attempted_request_ids = "manual-1" ∷ [];
      retained_results = [];
      retained_snapshots = ("manual-1", kept) ∷ [];
    };
    world = 0;
    trace = [];
  };
  output = [];
  inputs = [];
  sigint = Handler.python 1;
  clipboard_closed = false;
}

retained_eq : retained "manual-1" pending ≡ some kept
unfolding Dict.get
retained_eq = refl

stripped_eq : str_eq (strip " RESTORE ") "RESTORE" ≡ true
unfolding strip lstrip rstrip is_space
stripped_eq = refl

abbrev ending : Result Ended (Unit {0}) × CliState willing
ending =
    resolve_pending_restoration terminal "manual-1"
      ((interrupted ∷ end_of_file ∷ line "yes" ∷ []) ++ line " RESTORE " ∷ []) pending

resolve-ends_example : (ending.0 ≡ ok tt) × (retained "manual-1" ending.1 ≡ none)
resolve-ends_example =
    resolve-ends terminal "manual-1" can sleeps kept (interrupted ∷ end_of_file ∷ line "yes" ∷ [])
      " RESTORE " [] pending retained_eq stripped_eq
  where
    can : CanRestore terminal "manual-1"
    can snapshot w = (record { restored = true; external_change = false }, refl, refl)

    sleeps : CanSleep terminal "manual-1"
    sleeps w = refl

abbrev arguments : (confirm : Bool) → Arguments
arguments confirm = record {
  method = InsertionMethod.direct;
  capture_countdown = pos 3;
  delivery_countdown = pos 3;
  confirm = confirm;
  cancel = false;
  dry_run = false;
  hold = false;
}

allowed : is_allowed false true (arguments true) ≡ true
unfolding uses_clipboard
allowed = refl

abbrev delivered : Result Ended ℕ × CliState willing
delivered = run terminal false true (arguments true) pending

delivered_eq : delivered.0 ≡ ok 0
unfolding run start_runtime create_runtime close_and_raise print run_with at_the_end countdown
    sleep_times sleep capture_target deliver_to new_service defer_sigint uses_clipboard
    deliver_request serve settle exit_code deliver set_locked attempt retain_result
    check_and_dispatch assess_target call dispatch_assessed dispatch dispatch_direct
    prepare_input_dispatch safe_dispatch dispatch_code finish
delivered_eq = refl

run-Ended_example :
    (delivered.1.sigint ≡ Handler.python 1)
    × ((start_runtime terminal false pending).0 ≡ ok tt → delivered.1.clipboard_closed ≡ true)
    × ((e : Ended)
        → (start_runtime terminal false pending).0 ≡ err e
        → delivered ≡ (err e, (start_runtime terminal false pending).1))
run-Ended_example =
    run-Ended terminal false true (arguments true) pending allowed (ground arith)
      (ground (arith, delivered_eq))
