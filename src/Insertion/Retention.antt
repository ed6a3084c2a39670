-- ===== src/Insertion/Retention.antt =====
-- What a delivery leaves retained in memory, and when it does nothing.
use nadikt.Base.{ℕ, String, Bool, true, some, ◌≡◌, refl, arith, str_eq, if◌then◌else◌, contains}
use nadikt.Base.Dict.{get-insert}
use nadikt.Base.Result.{Result, ok, err}
use nadikt.Insertion.Contracts.{
  Adapters, InsertionRequest, TargetToken, OutcomeCode, InsertionOutcome, Raised,
}
use nadikt.Insertion.Boundary.{State, retain_result}
use nadikt.Insertion.Frame.{check_and_dispatch-Framed}
use nadikt.Insertion.Service.{set_locked, attempt, check_and_dispatch, deliver, retained_result}

abbrev pub HasCode : Result Raised InsertionOutcome → OutcomeCode → Type 0
HasCode (ok o) code = o.code ≡ code
HasCode (err e) code = ⊥

module _ {A : Adapters} where
  results-check_and_dispatch :
      (q : InsertionRequest) (target : TargetToken) (started : ℕ) (s : State A)
      → (check_and_dispatch q target started s).1.service.retained_results
        ≡ s.service.retained_results
  results-check_and_dispatch q target started s =
      (check_and_dispatch-Framed s.service.delivery_locked s.service.attempted_request_ids
        s.service.retained_results q target started s
        (record { locked_eq = refl; attempted_eq = refl; results_eq = refl })).results_eq

  -- After a delivery, on every branch and also when it raises or finds the lock taken, the text of a
  -- request that was not attempted before is retained under its id; every other retained text, and
  -- that of a request that was attempted before, is what it was.
  pub retained_result-deliver :
      (q : InsertionRequest) (target : TargetToken) (cancelled : Bool) (id : String) (s : State A)
      → retained_result id (deliver q target cancelled s).1 ≡ (
          if contains s.service.attempted_request_ids q.request_id
          then retained_result id s
          else (if str_eq q.request_id id then some q.text else retained_result id s))
  unfolding retained_result deliver attempt
  retained_result-deliver q target cancelled id s = ground (
    arith,
    get-insert q.request_id id q.text s.service.retained_results,
    results-check_and_dispatch q target (A.monotonic s.world)
        (retain_result q (set_locked true s)).1,
  )

  -- A delivery of a request that was attempted before calls no adapter and leaves the whole state as
  -- it was. It answers `already_delivered`, or `busy` when another delivery holds the lock.
  pub deliver_repeated :
      (q : InsertionRequest) (target : TargetToken) (cancelled : Bool) (s : State A)
      → contains s.service.attempted_request_ids q.request_id ≡ true
      → ((deliver q target cancelled s).1 ≡ s)
        × HasCode
            (deliver q target cancelled s).0
            (if s.service.delivery_locked then OutcomeCode.busy else OutcomeCode.already_delivered)
  unfolding deliver attempt
  deliver_repeated q target cancelled s h = ground arith

  -- A delivery leaves the lock as it found it, also when it raises.
  delivery_locked-deliver :
      (q : InsertionRequest) (target : TargetToken) (cancelled : Bool) (s : State A)
      → (deliver q target cancelled s).1.service.delivery_locked ≡ s.service.delivery_locked
  unfolding deliver
  delivery_locked-deliver q target cancelled s = ground arith

  -- A delivery that finds the lock taken calls no adapter, keeps the snapshots, and
  -- answers `busy`.
  pub deliver_locked :
      (q : InsertionRequest) (target : TargetToken) (cancelled : Bool) (s : State A)
      → s.service.delivery_locked ≡ true
      → let t = (deliver q target cancelled s).1 in
        (t.trace ≡ s.trace)
        × (t.world ≡ s.world)
        × (t.service.retained_snapshots ≡ s.service.retained_snapshots)
        × HasCode (deliver q target cancelled s).0 OutcomeCode.busy
  unfolding deliver
  deliver_locked q target cancelled s h = ground arith
