-- ===== src/Windows/Cli.antt =====
-- experiments/windows_insertion/insertion_spike/cli.py. `argparse` gives the arguments; the target's
-- `capture`, `sleep`, the name of a request and the end of the clipboard are a parameter over the
-- adapters. What `input` yields is a sequence; where it is used up the program still waits.
pub mod Create
pub mod Resolving
pub mod Running
pub mod Ending
use nadikt.Base.{
  ℕ, suc, zero, String, Bool, true, false, not, ◌&&◌, ◌||◌, Option, none, some, List, [], ◌∷◌,
  str_eq, if◌then◌else◌,
}
use nadikt.Base.Int.{ℤ, at_least_zero}
use nadikt.Base.Texts.{strip}
use nadikt.Base.Result.{Result, ok, err}
use nadikt.Base.Exec.{Exec, pure, raise, gets, ◌>>=◌, ◌>>◌}
use nadikt.Insertion.Contracts.{
  Adapters, InsertionMethod, InsertionRequest, InsertionOutcome, OutcomeCode, TargetToken,
  RestoreResult, Raised,
}
use nadikt.Insertion.Boundary.{State, M}
use nadikt.Insertion.Service.{deliver, restore_original, discard_original}
use nadikt.Windows.Target.{CaptureRaised, target_capture_error, other}

abbrev pub synthetic_payload : String
synthetic_payload = "NADIKT_SPIKE_Русский_English_😀\nLINE_2"

-- What `build_parser` gives.
pub record Arguments : Type 0 where
  pub method : InsertionMethod
  pub capture_countdown : ℤ
  pub delivery_countdown : ℤ
  pub confirm : Bool
  pub cancel : Bool
  pub dry_run : Bool
  pub hold : Bool

-- The printed lines.
pub data Message : Type 0 where
  outcome : OutcomeCode → Message
  capture_dry_run deliver_dry_run confirmation_required terminal_required : Message
  capture_prepare capture_complete deliver_keep_focus : Message
  result_retained original_retained : Bool → Message
  restoration_pending input_interrupted eof_wait : Message
  restored external_change original_discarded : Bool → Message
  restore_failed discard_failed invalid_confirmation : Message

-- One call of `input`: a line, `KeyboardInterrupt` or `EOFError`.
pub data Input : Type 0 where
  line : String → Input
  interrupted end_of_file : Input

-- `end` is an `EOFError` that is not caught; `waiting` is no end of the program.
pub data Ended : Type 0 where
  raised : Raised → Ended
  end waiting : Ended

-- The handler of SIGINT: one set outside Python, one set in it, or the one that defers the signal.
pub data Handler : Type 0 where
  native deferring : Handler
  python : ℕ → Handler

pub record CliSystem (A : Adapters) : Type 0 where
  pub new_target_api : Exec Raised A.World (Unit {0})
  pub new_clipboard_api : Exec Raised A.World (Unit {0})
  pub new_input_api : Exec Raised A.World (Unit {0})
  pub capture : Exec CaptureRaised A.World TargetToken
  pub sleep_second : Exec Raised A.World (Unit {0})
  pub new_request_id : A.World → String
  pub in_main_thread : Bool
  pub close_clipboard : A.World → A.World

pub record CliState (A : Adapters) : Type 0 where
  pub state : State A
  pub output : List Message
  pub inputs : List Input
  pub sigint : Handler
  pub clipboard_closed : Bool

-- `args.method != InsertionMethod.DIRECT.value`
unfoldable pub uses_clipboard : InsertionMethod → Bool
uses_clipboard InsertionMethod.direct = false
uses_clipboard _ = true

-- The returned status for an outcome.
unfoldable pub exit_code : OutcomeCode → ℕ
exit_code OutcomeCode.dispatched = 0
exit_code OutcomeCode.direct_dispatched = 0
exit_code _ = 1

module _ {A : Adapters} (sys : CliSystem A) where
  abbrev pub C : Type 0 → Type 0
  C R = Exec Ended (CliState A) R

  unfoldable pub print : Message → C (Unit {0})
  print message s = (ok tt, record s { output = message ∷ s.output })

  -- A call of the service.
  unfoldable pub serve : {R : Type 0} → M A R → C R
  serve m s =
      let (r, t) = m s.state in
      (elim r [ ok a ↦ ok a | err e ↦ err (raised e) ], record s { state = t })

  unfoldable pub sleep : C (Unit {0})
  sleep s =
      let (r, w) = sys.sleep_second s.state.world in
      let t = s.state in
      (elim r [ ok a ↦ ok a | err e ↦ err (raised e) ], record s { state = record t { world = w } })

  -- The loop of `_countdown`.
  unfoldable pub sleep_times : ℕ → C (Unit {0})
  unfolding sleep
  sleep_times zero = pure tt
  sleep_times (suc n) = sleep >> sleep_times n

  unfoldable pub countdown : ℤ → C (Unit {0})
  unfolding sleep_times
  countdown seconds = sleep_times (at_least_zero seconds)

  -- `_defer_sigint_for_clipboard`
  unfoldable pub defer_sigint : InsertionMethod → C (Option Handler)
  unfolding uses_clipboard
  defer_sigint method s = elim (uses_clipboard method && sys.in_main_thread) [
    | false ↦ (ok none, s)
    | true ↦ (
      ok (elim s.sigint [
        | native ↦ none
        | deferring ↦ some deferring
        | python h ↦ some (python h)
      ]),
      record s { sigint = deferring },
    )
  ]

  -- `RESTORE` in `_resolve_pending_restoration`; whether the loop ends.
  unfoldable pub try_restore : (request_id : String) → C Bool
  unfolding serve print
  try_restore id = do
    restore ← serve (restore_original id)
    print (restored restore.restored)
    print (external_change restore.external_change)
    (elim (restore.restored || restore.external_change) [
      | true ↦ pure true
      | false ↦ (print restore_failed >> pure false)
    ])

  -- `DISCARD_ORIGINAL`; whether the loop ends.
  unfoldable pub try_discard : (request_id : String) → C Bool
  unfolding serve print
  try_discard id = do
    discarded ← serve (discard_original id)
    print (original_discarded discarded)
    (elim discarded [ true ↦ pure true | false ↦ (print discard_failed >> pure false) ])

  unfoldable pub confirm_with : (request_id confirmation : String) → C Bool
  unfolding try_restore try_discard
  confirm_with id confirmation = elim (str_eq confirmation "RESTORE") [
    | true ↦ try_restore id
    | false ↦ elim (str_eq confirmation "DISCARD_ORIGINAL") [
      | true ↦ try_discard id
      | false ↦ (print invalid_confirmation >> pure false)
    ]
  ]

  -- The loop body of `_resolve_pending_restoration`; whether the loop ends.
  unfoldable pub resolve_step : (request_id : String) → Input → C Bool
  unfolding confirm_with sleep
  resolve_step id interrupted = print input_interrupted >> pure false
  resolve_step id end_of_file = do print eof_wait; sleep; pure false
  resolve_step id (line text) = confirm_with id (strip text)

  -- `_resolve_pending_restoration` on the inputs.
  unfoldable pub resolve_pending_restoration : (request_id : String) → List Input → C (Unit {0})
  unfolding resolve_step
  resolve_pending_restoration id [] s = (err waiting, record s { inputs = [] })
  resolve_pending_restoration id (input ∷ inputs) s =
      let (r, s') = resolve_step id input s in
      elim r [
        | err e ↦ (err e, record s' { inputs = inputs })
        | ok true ↦ (ok tt, record s' { inputs = inputs })
        | ok false ↦ resolve_pending_restoration id inputs s'
      ]

  -- `input("Press Enter ...")`
  unfoldable pub press_enter : List Input → C (Unit {0})
  press_enter [] s = (err waiting, s)
  press_enter (line text ∷ inputs) s = (ok tt, record s { inputs = inputs })
  press_enter (interrupted ∷ inputs) s =
      (err (raised Raised.interrupt), record s { inputs = inputs })
  press_enter (end_of_file ∷ inputs) s = (err end, record s { inputs = inputs })

  -- `try: m finally: f`; a program that waits does not come to `f`.
  unfoldable pub at_the_end : {R : Type 0} → C R → (CliState A → CliState A) → C R
  at_the_end m f s =
      let (r, s') = m s in
      elim r [ ok a ↦ (ok a, f s') | err waiting ↦ (err waiting, s') | err e ↦ (err e, f s') ]
