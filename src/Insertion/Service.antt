-- ===== src/Insertion/Service.antt =====
-- experiments/windows_insertion/insertion_spike/service.py: the delivery of a request, and the
-- explicit restoration and discarding of the original clipboard.
use nadikt.Base.{ℕ, String, Bool, true, false, not, ◌||◌, Option, none, some}
use nadikt.Base.{if◌then◌else◌, contains, is_some, is_empty}
use nadikt.Base.Dict
use nadikt.Base.Dict.{Dict}
use nadikt.Base.Result.{ok, err}
use nadikt.Base.Exec.{pure, gets, catch, finally, ◌>>=◌, ◌>>◌}
use nadikt.Insertion.Contracts.{
  InsertionMethod, InsertionRequest, TargetToken, ClipboardSnapshot, ClipboardPreparation,
  RestoreResult, DispatchResult, InsertionOutcome, OutcomeCode, Adapters,
}
use nadikt.Insertion.Boundary.{
  State, M, call, catch_exception, retain_snapshot, forget_snapshot, retain_result, finish,
  assess_target, prepare_input_dispatch, safe_dispatch, clipboard_prepared, clipboard_restored,
  clipboard_discarded, clipboard_mutated, pasted, typed,
}

unfoldable pub dispatch_code : OutcomeCode → DispatchResult → OutcomeCode
dispatch_code success result =
    if result.dispatched
    then success
    else elim result.code [ none ↦ OutcomeCode.dispatch_failed | some c ↦ c ]

unfoldable pub usable_snapshot :
    {Object : Type 0} → ClipboardPreparation Object → Option (ClipboardSnapshot Object)
usable_snapshot p = if p.is_safe then p.snapshot else none

abbrev pub not_restored : RestoreResult
not_restored = record { restored = false; external_change = false }

module _ {A : Adapters} where
  unfoldable pub restore_after_dispatch :
      String → ClipboardSnapshot A.Object → OutcomeCode → ℕ → M A InsertionOutcome
  unfolding call forget_snapshot finish
  restore_after_dispatch id snapshot code started s =
      let (r, s') = call (A.restore snapshot) clipboard_restored s in
      elim r [
        | err e ↦ finish id OutcomeCode.restore_failed started true s'
        | ok restore ↦
            if restore.external_change
            then (do forget_snapshot id; finish id code started false) s'
            else if not restore.restored
            then finish id OutcomeCode.restore_failed started true s'
            else (do forget_snapshot id; finish id code started false) s'
      ]

  -- `_injector.dispatch_unicode(text)`, for a request and a target.
  unfoldable pub type_text : InsertionRequest → TargetToken → String → M A DispatchResult
  unfolding call
  type_text q target text = call (A.dispatch_unicode text) (typed q text target)

  -- `_clipboard.commit_mutation(text)`, for a request.
  unfoldable pub write_text : (request_id text : String) → M A (Unit {0})
  unfolding call
  write_text id text = call (A.commit_mutation text) (clipboard_mutated id text)

  unfoldable pub dispatch_direct : InsertionRequest → TargetToken → ℕ → M A InsertionOutcome
  unfolding prepare_input_dispatch finish assess_target safe_dispatch type_text dispatch_code
  dispatch_direct q target started = do
    ready ← prepare_input_dispatch
    if not ready then finish q.request_id OutcomeCode.dispatch_failed started false else do
      assessment_code ← assess_target target
      elim assessment_code [
        | some code ↦ finish q.request_id code started false
        | none ↦ do
          result ← safe_dispatch (type_text q target q.text)
          finish q.request_id (dispatch_code OutcomeCode.direct_dispatched result) started false
      ]

  -- The second `try` block of `_dispatch_with_clipboard`; `none` when it falls through.
  unfoldable pub revalidate_before_paste :
      InsertionRequest
      → TargetToken
      → ClipboardSnapshot A.Object
      → ℕ
      → M A (Option InsertionOutcome)
  unfolding prepare_input_dispatch assess_target restore_after_dispatch
  revalidate_before_paste q target snapshot started =
      let give_up = λ (code : OutcomeCode). do
        outcome ← restore_after_dispatch q.request_id snapshot code started
        pure (some outcome)
      in catch
        (do
          ready ← prepare_input_dispatch
          if not ready then give_up OutcomeCode.dispatch_failed else do
            assessment_code ← assess_target target
            elim assessment_code [ some code ↦ give_up code | none ↦ pure none ])
        (λ e. give_up OutcomeCode.cancelled)

  -- The last part of `_dispatch_with_clipboard`: the snapshot stays retained.
  unfoldable pub paste : InsertionRequest → TargetToken → ℕ → M A InsertionOutcome
  unfolding call safe_dispatch dispatch_code finish
  paste q target started s =
      let (r, s') = safe_dispatch (call A.dispatch_paste (pasted q target)) s in
      let code : OutcomeCode = elim r [
        | err e ↦ OutcomeCode.dispatch_failed
        | ok result ↦ dispatch_code OutcomeCode.dispatched result
      ] in
      finish q.request_id code started true s'

  -- The snapshot is retained before the clipboard is changed.
  unfoldable pub mutate_clipboard : InsertionRequest → ClipboardSnapshot A.Object → M A (Unit {0})
  unfolding retain_snapshot write_text
  mutate_clipboard q snapshot = do
    retain_snapshot q.request_id snapshot
    write_text q.request_id q.text

  unfoldable pub dispatch_paste :
      InsertionRequest → TargetToken → ℕ → ClipboardSnapshot A.Object → M A InsertionOutcome
  dispatch_paste q target started snapshot s =
      let (mutated, s') = mutate_clipboard q snapshot s in
      elim mutated [
        | err e ↦
            restore_after_dispatch q.request_id snapshot OutcomeCode.clipboard_failed started s'
        | ok done ↦
            let (early, s'') = revalidate_before_paste q target snapshot started s' in
            elim early [
              | err e ↦ (err e, s'')
              | ok none ↦ paste q target started s''
              | ok (some outcome) ↦ (ok outcome, s'')
            ]
      ]

  unfoldable pub unsafe_clipboard :
      InsertionMethod → InsertionRequest → TargetToken → ℕ → M A InsertionOutcome
  unfolding finish
  unsafe_clipboard InsertionMethod.auto q target started = dispatch_direct q target started
  unsafe_clipboard _ q target started =
      finish q.request_id OutcomeCode.clipboard_unsafe started false

  -- `_clipboard.prepare()`; `none` when an `Exception` was caught.
  unfoldable pub prepare_clipboard : M A (Option (ClipboardPreparation A.Object))
  unfolding call
  prepare_clipboard =
      catch_exception
        (do preparation ← call A.prepare (λ _. clipboard_prepared); pure (some preparation))
        (pure none)

  unfoldable pub dispatch_prepared_clipboard :
      InsertionRequest
      → TargetToken
      → ℕ
      → Option (ClipboardPreparation A.Object)
      → M A InsertionOutcome
  unfolding unsafe_clipboard usable_snapshot finish
  dispatch_prepared_clipboard q target started none =
      finish q.request_id OutcomeCode.clipboard_failed started false
  dispatch_prepared_clipboard q target started (some preparation) =
      elim (usable_snapshot preparation) [
        | none ↦ unsafe_clipboard q.method q target started
        | some snapshot ↦ dispatch_paste q target started snapshot
      ]

  unfoldable pub dispatch_with_clipboard : InsertionRequest → TargetToken → ℕ → M A InsertionOutcome
  dispatch_with_clipboard q target started = do
    preparation ← prepare_clipboard
    dispatch_prepared_clipboard q target started preparation

  unfoldable pub dispatch :
      InsertionMethod → InsertionRequest → TargetToken → ℕ → M A InsertionOutcome
  dispatch InsertionMethod.direct q target started = dispatch_direct q target started
  dispatch _ q target started = dispatch_with_clipboard q target started

  -- The target check of `deliver`, and the choice of the method.
  unfoldable pub dispatch_assessed :
      InsertionRequest → TargetToken → ℕ → Option OutcomeCode → M A InsertionOutcome
  unfolding finish
  dispatch_assessed q target started (some code) = finish q.request_id code started false
  dispatch_assessed q target started none = dispatch q.method q target started

  unfoldable pub check_and_dispatch : InsertionRequest → TargetToken → ℕ → M A InsertionOutcome
  check_and_dispatch q target started = do
    assessment_code ← assess_target target
    dispatch_assessed q target started assessment_code

  -- The `try` block of `deliver`, under the delivery lock.
  unfoldable pub attempt : InsertionRequest → TargetToken → Bool → ℕ → M A InsertionOutcome
  unfolding retain_result finish
  attempt q target cancelled started = do
    v ← gets (λ s. s.service)
    if contains v.attempted_request_ids q.request_id
        then finish q.request_id OutcomeCode.already_delivered started false
        else do
          retain_result q
          if not (is_empty v.retained_snapshots)
              then finish q.request_id OutcomeCode.busy started false
              else if cancelled
              then finish q.request_id OutcomeCode.cancelled started false
              else check_and_dispatch q target started

  -- `_delivery_lock` by its state.
  unfoldable pub set_locked : Bool → State A → State A
  set_locked b s = let v = s.service in record s { service = record v { delivery_locked = b } }

  -- A delivery that finds the lock taken.
  unfoldable pub reject_busy : InsertionRequest → ℕ → M A InsertionOutcome
  unfolding retain_result finish
  reject_busy q started = do
    v ← gets (λ s. s.service)
    if contains v.attempted_request_ids q.request_id then pure tt else retain_result q
    finish q.request_id OutcomeCode.busy started false

  unfoldable pub deliver : InsertionRequest → TargetToken → Bool → M A InsertionOutcome
  unfolding reject_busy set_locked
  deliver q target cancelled s =
      let started = A.monotonic s.world in
      if s.service.delivery_locked
      then reject_busy q started s
      else finally (attempt q target cancelled started) (set_locked false) (set_locked true s)

  unfoldable pub retained_result : String → State A → Option String
  retained_result id s = Dict.get s.service.retained_results id

  unfoldable pub retained_snapshot : String → State A → Option (ClipboardSnapshot A.Object)
  retained_snapshot id s = Dict.get s.service.retained_snapshots id

  -- `restore_original` once it holds the delivery lock.
  unfoldable pub restore_original : String → M A RestoreResult
  unfolding call forget_snapshot
  restore_original id s = elim (Dict.get s.service.retained_snapshots id) [
    | none ↦ pure not_restored s
    | some snapshot ↦
        let (r, s') = call (A.restore snapshot) clipboard_restored s in
        elim r [
          | err e ↦ pure not_restored s'
          | ok restore ↦
              if restore.restored || restore.external_change
              then (do forget_snapshot id; pure restore) s'
              else pure restore s'
        ]
  ]

  -- `discard_original` once it holds the delivery lock.
  unfoldable pub discard_original : String → M A Bool
  unfolding call forget_snapshot
  discard_original id s = elim (Dict.get s.service.retained_snapshots id) [
    | none ↦ pure false s
    | some snapshot ↦
        let (r, s') = call (A.discard snapshot) clipboard_discarded s in
        elim r [
          | err e ↦ pure false s'
          | ok done ↦
              let discarded = is_some (Dict.get s'.service.retained_snapshots id) in
              (do forget_snapshot id; pure discarded) s'
        ]
  ]
