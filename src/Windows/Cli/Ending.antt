-- ===== src/Windows/Cli/Ending.antt =====
-- When cli.py reaches the system at all, and what it leaves behind.
use nadikt.Base.{
  ℕ, zero, suc, String, Bool, true, false, not, ◌&&◌, ◌||◌, none, some, List, [], ◌∷◌, ◌≡◌, ◌≢◌,
  refl, arith, Bool-cases, inl, inr,
}
use nadikt.Base.Int.{at_least_zero}
use nadikt.Base.Result.{Result-cases, ok, err}
use nadikt.Base.Exec.{◌>>=◌}
use nadikt.Insertion.Contracts.{Adapters, InsertionOutcome, TargetToken}
use nadikt.Windows.Cli.{
  Arguments, capture_prepare, capture_complete, deliver_keep_focus, Input, line, interrupted,
  end_of_file, waiting, Ended, Handler, native, CliSystem, CliState, uses_clipboard, C, print,
  serve, sleep, sleep_times, countdown, defer_sigint, try_restore, try_discard, confirm_with,
  resolve_step, resolve_pending_restoration, press_enter, at_the_end,
}
use nadikt.Windows.Cli.Running.{
  capture_target, new_service, settle, deliver_request, restore_sigint, deliver_to, run_with,
  close_clipboard, start_runtime, run,
}

-- The arguments ask for a real delivery that `run` carries out.
abbrev pub is_allowed : (is_given is_terminal : Bool) → Arguments → Bool
is_allowed is_given is_terminal args =
    args.confirm
    && not args.cancel
    && not args.dry_run
    && (not (uses_clipboard args.method) || (args.hold && (is_given || is_terminal)))

module _ {A : Adapters} (sys : CliSystem A) where
  -- The handler of SIGINT stays.
  abbrev Keeps : {R : Type 0} → C sys R → Type 0
  Keeps m = (s : CliState A) → (m s).1.sigint ≡ s.sigint

  sleep_times-Keeps : (n : ℕ) → Keeps (sleep_times sys n)
  unfolding sleep_times sleep
  sleep_times-Keeps zero s = refl
  sleep_times-Keeps (suc n) s = grind (arith, sleep_times-Keeps n)

  step-Keeps : (id : String) (input : Input) → Keeps (resolve_step sys id input)
  unfolding resolve_step confirm_with try_restore try_discard print serve sleep
  step-Keeps id interrupted s = refl
  step-Keeps id end_of_file s = ground arith
  step-Keeps id (line text) s = ground arith

  resolve-Keeps :
      (id : String) (inputs : List Input) → Keeps (resolve_pending_restoration sys id inputs)
  unfolding resolve_pending_restoration
  resolve-Keeps id [] s = refl
  resolve-Keeps id (input ∷ inputs) s = grind (arith, step-Keeps id input, resolve-Keeps id inputs)

  enter-Keeps : (inputs : List Input) → Keeps (press_enter sys inputs)
  unfolding press_enter
  enter-Keeps [] s = refl
  enter-Keeps (line text ∷ inputs) s = refl
  enter-Keeps (interrupted ∷ inputs) s = refl
  enter-Keeps (end_of_file ∷ inputs) s = refl

  settle-Keeps :
      (args : Arguments) (id : String) (result : InsertionOutcome)
      → Keeps (settle sys args id result)
  unfolding settle print press_enter
  settle-Keeps args id result s = grind (arith, resolve-Keeps id s.inputs, enter-Keeps)

  request-Keeps :
      (args : Arguments) (id : String) (target : TargetToken)
      → Keeps (deliver_request sys args id target)
  unfolding deliver_request serve print
  request-Keeps args id target s = grind (arith, settle-Keeps args id)

  -- At the end of the program the handler of SIGINT is the one before, unless it was set outside
  -- Python.
  abbrev Restores : {R : Type 0} → C sys R → Type 0
  Restores m =
      (s : CliState A) → s.sigint ≢ native → (m s).0 ≢ err waiting → (m s).1.sigint ≡ s.sigint

  request-Restores :
      (args : Arguments) (id : String) (target : TargetToken)
      → Restores (
          defer_sigint sys args.method >>= λ previous.
          at_the_end sys (deliver_request sys args id target) (restore_sigint sys previous))
  unfolding defer_sigint at_the_end restore_sigint
  request-Restores args id target s h w =
      let keeps = request-Keeps args id target in
      let deferred = record s { sigint = Handler.deferring } in
      elim (Bool-cases (uses_clipboard args.method && sys.in_main_thread)) [
        | inr p ↦ ground (arith, keeps s)
        | inl p ↦ ground (arith, keeps deferred)
      ]

  deliver_to-Restores :
      (args : Arguments) (target : TargetToken) → Restores (deliver_to sys args target)
  unfolding deliver_to countdown print new_service
  deliver_to-Restores args target s h w =
      let n = at_least_zero args.delivery_countdown in
      let s1 = record s { output = deliver_keep_focus ∷ capture_complete ∷ s.output } in
      let s2 = (sleep_times sys n s1).1 in
      let s3 = (new_service sys s2).1 in
      let id = sys.new_request_id s2.state.world in
      let keeps : s2.sigint ≡ s.sigint = sleep_times-Keeps n s1 in
      elim (Result-cases (sleep_times sys n s1).0) [
        | inr (e, p) ↦ ground (arith, keeps)
        | inl (done, p) ↦
            let restores =
              request-Restores args id target s3 (ground (arith, keeps)) (ground arith) in
            ground (arith, restores, keeps)
      ]

  run_with-Restores : (args : Arguments) → Restores (run_with sys args)
  unfolding run_with countdown print capture_target
  run_with-Restores args s h w =
      let n = at_least_zero args.capture_countdown in
      let s1 = record s { output = capture_prepare ∷ s.output } in
      let s2 = (sleep_times sys n s1).1 in
      let s3 = (capture_target sys s2).1 in
      let keeps : s2.sigint ≡ s.sigint = sleep_times-Keeps n s1 in
      elim (Result-cases (sleep_times sys n s1).0) [
        | inr (e, p) ↦ ground (arith, keeps)
        | inl (done, p) ↦ elim (Result-cases (capture_target sys s2).0) [
          | inr (e, q) ↦ ground (arith, keeps)
          | inl (none, q) ↦ ground (arith, keeps)
          | inl (some target, q) ↦
              let restores =
                deliver_to-Restores args target s3 (ground (arith, keeps)) (ground arith) in
              ground (arith, restores, keeps)
        ]
      ]

  start-Keeps : (is_given : Bool) → Keeps (start_runtime sys is_given)
  unfolding start_runtime
  start-Keeps true s = refl
  start-Keeps false s = refl

  -- With leave, however `run` ends, be it by a status or by what it raises, the handler of SIGINT is
  -- the one before, unless that was set outside Python; and the clipboard is closed, unless
  -- `create_runtime` raised, in which case `run` raises the same and does nothing more.
  pub run-Ended :
      (is_given is_terminal : Bool) (args : Arguments) (s : CliState A)
      → is_allowed is_given is_terminal args ≡ true
      → s.sigint ≢ native
      → let start = start_runtime sys is_given s in
        let after = run sys is_given is_terminal args s in
        after.0 ≢ err waiting
        → (after.1.sigint ≡ s.sigint)
          × (start.0 ≡ ok tt → after.1.clipboard_closed ≡ true)
          × ((e : Ended) → start.0 ≡ err e → after ≡ (err e, start.1))
  unfolding run at_the_end close_clipboard uses_clipboard
  run-Ended is_given is_terminal args s h n w =
      let keeps = start-Keeps is_given s in
      let s1 = (start_runtime sys is_given s).1 in
      elim (Result-cases (start_runtime sys is_given s).0) [
        | inr (e, p) ↦ ground (arith, keeps)
        | inl (done, p) ↦
            let restores = run_with-Restores args s1 (ground (arith, keeps)) (ground arith) in
            ground (arith, keeps, restores)
      ]
