-- ===== src/Windows/Cli/Running.antt =====
-- `run` of cli.py, for parsed arguments.
use nadikt.Base.{ℕ, String, Bool, true, false, not, ◌&&◌, ◌||◌, Option, none, some, []}
use nadikt.Base.Result.{ok, err}
use nadikt.Base.Exec.{pure, gets, ◌>>=◌, ◌>>◌}
use nadikt.Insertion.Contracts.{Adapters, InsertionOutcome, OutcomeCode, TargetToken}
use nadikt.Insertion.Service.{deliver}
use nadikt.Windows.Target.{target_capture_error, other}
use nadikt.Windows.Cli.{
  synthetic_payload, Arguments, outcome, capture_dry_run, deliver_dry_run, confirmation_required,
  terminal_required, capture_prepare, capture_complete, deliver_keep_focus, result_retained,
  original_retained, restoration_pending, raised, Handler, CliSystem, CliState, uses_clipboard,
  exit_code, C, print, serve, countdown, defer_sigint, resolve_pending_restoration, press_enter,
  at_the_end,
}
use nadikt.Windows.Cli.Create.{create_runtime}

module _ {A : Adapters} (sys : CliSystem A) where
  -- `runtime.target.capture()`; nothing where it raises `TargetCaptureError`.
  unfoldable pub capture_target : C sys (Option TargetToken)
  capture_target s =
      let t = s.state in
      let (r, w) = sys.capture t.world in
      (
        elim r [
          | ok token ↦ ok (some token)
          | err target_capture_error ↦ ok none
          | err (other e) ↦ err (raised e)
        ],
        record s { state = record t { world = w } },
      )

  -- A new `InsertionService`.
  unfoldable pub new_service : C sys (Unit {0})
  new_service s =
      let t = s.state in
      (
        ok tt,
        record s {
          state = record t {
            service = record {
              delivery_locked = false;
              attempted_request_ids = [];
              retained_results = [];
              retained_snapshots = [];
            };
          };
        },
      )

  -- What follows the prints of an outcome.
  unfoldable pub settle : Arguments → String → InsertionOutcome → C sys (Unit {0})
  unfolding print resolve_pending_restoration press_enter
  settle args id result s = elim result.original_snapshot_retained [
    | true ↦ (print sys restoration_pending >> resolve_pending_restoration sys id s.inputs) s
    | false ↦ elim args.hold [ true ↦ press_enter sys s.inputs s | false ↦ (ok tt, s) ]
  ]

  -- `run` while SIGINT is deferred.
  unfoldable pub deliver_request : Arguments → String → TargetToken → C sys ℕ
  unfolding serve print settle exit_code
  deliver_request args id target = do
    result ← serve sys (
        deliver (record { request_id = id; text = synthetic_payload; method = args.method }) target
          false)
    print sys (outcome result.code)
    print sys (result_retained result.retained_in_memory)
    print sys (original_retained result.original_snapshot_retained)
    settle args id result
    pure (exit_code result.code)

  unfoldable pub restore_sigint : Option Handler → CliState A → CliState A
  restore_sigint none s = s
  restore_sigint (some previous) s = record s { sigint = previous }

  -- `run` for a captured target.
  unfoldable pub deliver_to : Arguments → TargetToken → C sys ℕ
  unfolding print countdown new_service defer_sigint at_the_end deliver_request restore_sigint
  deliver_to args target = do
    print sys capture_complete
    print sys deliver_keep_focus
    countdown sys args.delivery_countdown
    id ← gets (λ s. sys.new_request_id s.state.world)
    new_service
    previous ← defer_sigint sys args.method
    at_the_end sys (deliver_request args id target) (restore_sigint previous)

  -- `run` with its runtime.
  unfoldable pub run_with : Arguments → C sys ℕ
  unfolding print countdown capture_target deliver_to
  run_with args = do
    print sys capture_prepare
    countdown sys args.capture_countdown
    captured ← capture_target
    (elim captured [
      | none ↦ (print sys (outcome OutcomeCode.target_unavailable) >> pure 1)
      | some target ↦ deliver_to args target
    ])

  unfoldable pub close_clipboard : CliState A → CliState A
  close_clipboard s =
      let t = s.state in
      record s { state = record t { world = sys.close_clipboard t.world }; clipboard_closed = true }

  -- `dependencies or create_runtime()`
  unfoldable pub start_runtime : (is_given : Bool) → C sys (Unit {0})
  unfolding create_runtime
  start_runtime true s = (ok tt, s)
  start_runtime false s =
      let t = s.state in
      let (r, w) = create_runtime sys t.world in
      (elim r [ ok a ↦ ok a | err e ↦ err (raised e) ], record s { state = record t { world = w } })

  -- `run`; `is_given` tells that the dependencies are arguments, `is_terminal` is
  -- `sys.stdin.isatty()`.
  unfoldable pub run : (is_given is_terminal : Bool) → Arguments → C sys ℕ
  unfolding print uses_clipboard start_runtime run_with at_the_end close_clipboard
  run is_given is_terminal args = elim (not args.confirm || args.cancel) [
    | true ↦ (print sys (outcome OutcomeCode.cancelled) >> pure 2)
    | false ↦ elim args.dry_run [
      | true ↦ do
        print sys capture_dry_run
        print sys deliver_dry_run
        print sys (outcome OutcomeCode.cancelled)
        pure 0
      | false ↦ elim (uses_clipboard args.method && not args.hold) [
        | true ↦ (print sys confirmation_required >> pure 2)
        | false ↦ elim (uses_clipboard args.method && not is_given && not is_terminal) [
          | true ↦ (print sys terminal_required >> pure 2)
          | false ↦ (start_runtime is_given >> at_the_end sys (run_with args) close_clipboard)
        ]
      ]
    ]
  ]
