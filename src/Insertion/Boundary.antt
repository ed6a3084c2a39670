-- ===== src/Insertion/Boundary.antt =====
-- experiments/windows_insertion/insertion_spike/service.py: the fields of
-- `InsertionService` and its calls of the adapters. Each adapter call is
-- recorded in a trace, newest first, beside the service and the adapters' world. The log is left out.
use nadikt.Base.{ℕ, ◌-◌, String, Bool, true, false, Option, some}
use nadikt.Base.{List, ◌∷◌}
use nadikt.Base.Dict
use nadikt.Base.Dict.{Dict}
use nadikt.Base.Result.{Result, ok}
use nadikt.Base.Exec.{Exec, pure, raise, catch, ◌>>=◌}
use nadikt.Insertion.Contracts.{
  InsertionRequest, TargetToken, TargetAssessment, ClipboardSnapshot, DispatchResult, RestoreResult,
  InsertionOutcome, OutcomeCode, Raised, exception, interrupt, Adapters,
}

-- `_delivery_lock`, `_attempted_request_ids`, `_retained_results`, `_retained_snapshots`.
-- `_state_lock` guards single reads and writes of these.
pub record InsertionService (Object : Type 0) : Type 0 where
  pub delivery_locked : Bool
  pub attempted_request_ids : List String
  pub retained_results : Dict String
  pub retained_snapshots : Dict (ClipboardSnapshot Object)

-- An adapter call as an observer of the boundary sees it, with the text that it was given. A
-- dispatch also names the request and the target that it is for.
pub data Event : Type 0 where
  assessed : TargetToken → Result Raised TargetAssessment → Event
  clipboard_prepared : Event
  clipboard_restored : Result Raised RestoreResult → Event
  clipboard_discarded : Result Raised (Unit {0}) → Event
  clipboard_mutated : (request_id text : String) → Result Raised (Unit {0}) → Event
  dispatch_prepared : Result Raised Bool → Event
  pasted : InsertionRequest → TargetToken → Result Raised DispatchResult → Event
  typed : InsertionRequest → (text : String) → TargetToken → Result Raised DispatchResult → Event

pub record State (A : Adapters) : Type 0 where
  pub service : InsertionService A.Object
  pub world : A.World
  pub trace : List Event

abbrev pub M : Adapters → Type 0 → Type 0
M A R = Exec Raised (State A) R

module _ {A : Adapters} where
  -- One call of an adapter.
  unfoldable pub call : {R : Type 0} → Exec Raised A.World R → (Result Raised R → Event) → M A R
  call op event s =
      let (r, w) = op s.world in (r, record s { world = w; trace = event r ∷ s.trace })

  -- `except Exception`: an interrupt goes on.
  abbrev pub catch_exception : {R : Type 0} → M A R → M A R → M A R
  catch_exception m handler =
      catch m (λ e. elim e [ exception ↦ handler | interrupt ↦ raise interrupt ])

  unfoldable pub retain_snapshot : String → ClipboardSnapshot A.Object → M A (Unit {0})
  retain_snapshot id snapshot s =
      let v = s.service in
      (
        ok tt,
        record s {
          service = record v { retained_snapshots = Dict.insert id snapshot v.retained_snapshots };
        },
      )

  unfoldable pub forget_snapshot : String → M A (Unit {0})
  forget_snapshot id s =
      let v = s.service in
      (
        ok tt,
        record s { service = record v { retained_snapshots = Dict.erase id v.retained_snapshots } },
      )

  -- `_retained_results[request_id] = text` and `_attempted_request_ids.add(request_id)`.
  unfoldable pub retain_result : InsertionRequest → M A (Unit {0})
  retain_result q s =
      let v = s.service in
      (
        ok tt,
        record s {
          service = record v {
            retained_results = Dict.insert q.request_id q.text v.retained_results;
            attempted_request_ids = q.request_id ∷ v.attempted_request_ids;
          };
        },
      )

  unfoldable pub finish : String → OutcomeCode → ℕ → Bool → M A InsertionOutcome
  finish id code started retained s = (
    ok (record {
      request_id = id;
      code = code;
      retained_in_memory = true;
      original_snapshot_retained = retained;
      duration_ms = A.monotonic s.world - started;
    }),
    s,
  )

  unfoldable pub assess_target : TargetToken → M A (Option OutcomeCode)
  unfolding call
  assess_target target =
      catch_exception
        (do assessment ← call (A.assess target) (assessed target); pure assessment.code)
        (pure (some OutcomeCode.boundary_failure))

  unfoldable pub prepare_input_dispatch : M A Bool
  unfolding call
  prepare_input_dispatch = catch_exception (call A.prepare_dispatch dispatch_prepared) (pure false)

  unfoldable pub safe_dispatch : M A DispatchResult → M A DispatchResult
  safe_dispatch operation =
      catch_exception operation
        (pure (record { dispatched = false; code = some OutcomeCode.dispatch_failed }))
