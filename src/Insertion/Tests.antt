-- ===== src/Insertion/Tests.antt =====
-- Runs of the insertion service with adapters of fixed answers, and its theorems at these runs.
use nadikt.Base.{ℕ, ◌+◌, String, true, false, none, some, List, [], ◌∷◌, ◌≡◌, refl, arith}
use nadikt.Base.Dict
use nadikt.Base.Result.{ok}
use nadikt.Insertion.Contracts.{
  Adapters, InsertionRequest, InsertionMethod, TargetToken, OutcomeCode,
}
use nadikt.Insertion.Boundary.{State}
use nadikt.Insertion.Service.{
  deliver, retained_result, attempt, check_and_dispatch, dispatch, dispatch_with_clipboard,
  prepare_clipboard, dispatch_prepared_clipboard, dispatch_paste, mutate_clipboard,
  revalidate_before_paste, restore_after_dispatch, paste, dispatch_assessed, dispatch_direct,
}
use nadikt.Insertion.Run.{Operation, deliver_op, restore_op, run}
use nadikt.Insertion.Safety.{IsGuarded, run-IsGuarded}
use nadikt.Insertion.Once.{IsOnce, run-IsOnce}
use nadikt.Insertion.Retention.{retained_result-deliver}
use nadikt.Insertion.Custody.{Runs, custody}
use nadikt.Insertion.Custody.Refining.{run-Runs}
use nadikt.Insertion.Clipboard.{IsKept, Reports, deliver-Reports, run-IsKept}

-- Every check passes and every call succeeds; the world counts the calls.
abbrev willing : Adapters
willing = record {
  World = ℕ;
  Object = String;
  monotonic = λ w. w;
  assess = λ target w. (ok (record { code = none }), w + 1);
  prepare = λ w. (
    ok (record { is_safe = true; snapshot = some (record { state = "original" }); code = none }),
    w + 1,
  );
  commit_mutation = λ text w. (ok tt, w + 1);
  restore = λ snapshot w. (ok (record { restored = true; external_change = false }), w + 1);
  discard = λ snapshot w. (ok tt, w + 1);
  prepare_dispatch = λ w. (ok true, w + 1);
  dispatch_paste = λ w. (ok (record { dispatched = true; code = none }), w + 1);
  dispatch_unicode = λ text w. (ok (record { dispatched = true; code = none }), w + 1);
}

abbrev start : State willing
start = record {
  service = record {
    delivery_locked = false;
    attempted_request_ids = [];
    retained_results = [];
    retained_snapshots = [];
  };
  world = 0;
  trace = [];
}

abbrev request : InsertionRequest
request = record { request_id = "r1"; text = "hello"; method = InsertionMethod.auto }

abbrev editor : TargetToken
editor = record { key = "editor" }

abbrev script : List Operation
script = deliver_op request editor false ∷ deliver_op request editor false ∷ restore_op "r1" ∷ []

all_of_deliver : State willing
unfolding deliver attempt check_and_dispatch dispatch_assessed dispatch dispatch_with_clipboard
    dispatch_prepared_clipboard dispatch_paste mutate_clipboard revalidate_before_paste
    restore_after_dispatch paste dispatch_direct prepare_clipboard Dict.insert Dict.get
all_of_deliver = (deliver request editor false start).1

deliver_example :
    (deliver request editor false start).0
    ≡ ok (record {
      request_id = "r1";
      code = OutcomeCode.dispatched;
      retained_in_memory = true;
      original_snapshot_retained = true;
      duration_ms = 6;
    })
unfolding all_of_deliver
deliver_example = refl

run-IsGuarded_example : IsGuarded (run script start).trace
run-IsGuarded_example = run-IsGuarded script start tt

run-IsOnce_example : IsOnce "r1" (run script start)
run-IsOnce_example =
    run-IsOnce "r1" script start (record { at_most = omega arith; fresh = λ e. refl })

run-IsKept_example : IsKept (run script start)
run-IsKept_example = run-IsKept script start (record { same = refl; single = omega arith })

run-Runs_example : Runs script (custody start) (custody (run script start))
run-Runs_example = run-Runs script start (record { same = refl; single = omega arith })

deliver-Reports_example : let x = deliver request editor false start in Reports "r1" x.0 x.1
deliver-Reports_example = deliver-Reports request editor false start refl refl (refl, refl)

retained_result-deliver_example :
    retained_result "r1" (deliver request editor true start).1 ≡ some "hello"
retained_result-deliver_example = retained_result-deliver request editor true "r1" start
