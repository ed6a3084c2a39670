-- ===== src/Insertion/Once.antt =====
-- A request is dispatched at most once.
use nadikt.Base.{
  ℕ, ◌+◌, ◌≤◌, String, Bool, true, false, List, [], ◌∷◌, ◌≡◌, refl, arith, str_eq, eq_iff,
  if◌then◌else◌, contains,
}
use nadikt.Insertion.Contracts.{
  Adapters, InsertionRequest, TargetToken, ClipboardSnapshot, OutcomeCode,
}
use nadikt.Insertion.Boundary.{State, Event, pasted, typed, assess_target, finish, retain_result}
use nadikt.Insertion.Service.{
  dispatch_direct, dispatch_paste, mutate_clipboard, restore_after_dispatch,
  revalidate_before_paste, paste, prepare_clipboard, set_locked, attempt, deliver,
  check_and_dispatch, restore_original, discard_original,
}
use nadikt.Insertion.Flow.{Parts, check_and_dispatch-Leads}
use nadikt.Insertion.Frame.{check_and_dispatch-Framed}
use nadikt.Insertion.Run.{Operation, deliver_op, restore_op, discard_op, step, run, run_induction}

-- How often request `id` was dispatched.
abbrev pub dispatches : String → List Event → ℕ
dispatches id [] = 0
dispatches id (pasted q target r ∷ rest) =
    (if str_eq q.request_id id then 1 else 0) + dispatches id rest
dispatches id (typed q text target r ∷ rest) =
    (if str_eq q.request_id id then 1 else 0) + dispatches id rest
dispatches id (_ ∷ rest) = dispatches id rest

-- A request that was not attempted was not dispatched, and no request was dispatched twice.
pub record IsOnce {A : Adapters} (id : String) (s : State A) : Type 0 where
  pub at_most : dispatches id s.trace ≤ 1
  pub fresh : contains s.service.attempted_request_ids id ≡ false → dispatches id s.trace ≡ 0

-- What one delivery of `q` may add to the dispatches of `id`.
abbrev share : String → InsertionRequest → ℕ
share id q = if str_eq q.request_id id then 1 else 0

module _ {A : Adapters} (id : String) where
  abbrev AtMost : ℕ → State A → Type 0
  AtMost n s = dispatches id s.trace ≤ n

  dispatch_direct-le :
      (q : InsertionRequest) (target : TargetToken) (started n : ℕ) (s : State A)
      → AtMost n s
      → AtMost (share id q + n) (dispatch_direct q target started s).1
  unfolding dispatch_direct
  dispatch_direct-le q target started n s h = ground arith

  mutate_clipboard-eq :
      (q : InsertionRequest) (snapshot : ClipboardSnapshot A.Object) (s : State A)
      → dispatches id (mutate_clipboard q snapshot s).1.trace ≡ dispatches id s.trace
  unfolding mutate_clipboard
  mutate_clipboard-eq q snapshot s = refl

  restore_after_dispatch-eq :
      (q : InsertionRequest) (snapshot : ClipboardSnapshot A.Object) (code : OutcomeCode)
      (started : ℕ) (s : State A)
      → dispatches id (restore_after_dispatch q.request_id snapshot code started s).1.trace
        ≡ dispatches id s.trace
  unfolding restore_after_dispatch
  restore_after_dispatch-eq q snapshot code started s = ground arith

  revalidate_before_paste-eq :
      (q : InsertionRequest) (target : TargetToken) (snapshot : ClipboardSnapshot A.Object)
      (started : ℕ) (s : State A)
      → dispatches id (revalidate_before_paste q target snapshot started s).1.trace
        ≡ dispatches id s.trace
  unfolding revalidate_before_paste
  revalidate_before_paste-eq q target snapshot started s = ground arith

  paste-le :
      (q : InsertionRequest) (target : TargetToken) (started : ℕ) (s : State A)
      → dispatches id (paste q target started s).1.trace ≤ share id q + dispatches id s.trace
  unfolding paste
  paste-le q target started s = ground arith

  dispatch_paste-le :
      (q : InsertionRequest) (target : TargetToken) (started n : ℕ)
      (snapshot : ClipboardSnapshot A.Object) (s : State A)
      → AtMost n s
      → AtMost (share id q + n) (dispatch_paste q target started snapshot s).1
  unfolding dispatch_paste
  dispatch_paste-le q target started n snapshot s h =
      let s' = (mutate_clipboard q snapshot s).1 in
      let s'' = (revalidate_before_paste q target snapshot started s').1 in
      ground (
        arith,
        mutate_clipboard-eq q snapshot s,
        restore_after_dispatch-eq q snapshot OutcomeCode.clipboard_failed started s',
        revalidate_before_paste-eq q target snapshot started s',
        paste-le q target started s'',
      )

  Parts-AtMost :
      (q : InsertionRequest) (target : TargetToken) (n : ℕ)
      → Parts (AtMost n) (λ _. AtMost (share id q + n)) q target
  unfolding prepare_clipboard assess_target finish
  Parts-AtMost q target n = record {
    raises = λ s h. omega arith;
    finishes = λ code started. record { from = λ s h. omega arith };
    assesses = record { from = λ s h. ground arith };
    prepares = record { from = λ s h. ground arith };
    directs = λ started. record { from = dispatch_direct-le q target started n };
    pastes = λ started snapshot. record { from = dispatch_paste-le q target started n snapshot };
  }

  check_and_dispatch-le :
      (q : InsertionRequest) (target : TargetToken) (started : ℕ) (s : State A)
      → dispatches id (check_and_dispatch q target started s).1.trace
        ≤ share id q + dispatches id s.trace
  check_and_dispatch-le q target started s =
      (check_and_dispatch-Leads q target (Parts-AtMost q target (dispatches id s.trace))
          started).from
        s (omega arith)

  attempt-IsOnce :
      (q : InsertionRequest) (target : TargetToken) (cancelled : Bool) (started : ℕ) (s : State A)
      → IsOnce id s
      → IsOnce id (attempt q target cancelled started s).1
  unfolding attempt
  attempt-IsOnce q target cancelled started s h =
      let t = (retain_result q s).1 in
      ground (
        arith,
        eq_iff q.request_id id,
        check_and_dispatch-le q target started t,
        (check_and_dispatch-Framed t.service.delivery_locked t.service.attempted_request_ids
            t.service.retained_results q target started t
            (record { locked_eq = refl; attempted_eq = refl; results_eq = refl })).attempted_eq,
      )

  deliver-IsOnce :
      (q : InsertionRequest) (target : TargetToken) (cancelled : Bool) (s : State A)
      → IsOnce id s
      → IsOnce id (deliver q target cancelled s).1
  unfolding deliver
  deliver-IsOnce q target cancelled s h = ground (
    arith,
    eq_iff q.request_id id,
    attempt-IsOnce q target cancelled (A.monotonic s.world) (set_locked true s)
        (record { at_most = h.at_most; fresh = h.fresh }),
  )

  step-IsOnce : (o : Operation) (s : State A) → IsOnce id s → IsOnce id (step o s)
  unfolding step restore_original discard_original
  step-IsOnce (deliver_op q target cancelled) s h = deliver-IsOnce q target cancelled s h
  step-IsOnce (restore_op j) s h = ground arith
  step-IsOnce (discard_op j) s h = ground arith

  -- From a state in which no request was dispatched twice, and none that is not marked as attempted
  -- was dispatched, any sequence of calls leads to such a state: no request is ever dispatched
  -- twice, by either method.
  pub run-IsOnce : (ops : List Operation) (s : State A) → IsOnce id s → IsOnce id (run ops s)
  run-IsOnce = run_induction (IsOnce id) step-IsOnce
