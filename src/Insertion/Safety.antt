-- ===== src/Insertion/Safety.antt =====
-- What every dispatch of the insertion service follows at the boundary.
use nadikt.Base.{ℕ, Bool, true, none, List, [], ◌∷◌, ◌≡◌, arith}
use nadikt.Base.Result.{ok}
use nadikt.Insertion.Contracts.{Adapters, InsertionRequest, TargetToken, ClipboardSnapshot}
use nadikt.Insertion.Boundary.{
  State, Event, assessed, dispatch_prepared, pasted, typed, clipboard_mutated, assess_target,
  finish, retain_result,
}
use nadikt.Insertion.Run.{Operation, deliver_op, restore_op, discard_op, step, run, run_induction}
use nadikt.Insertion.Flow.{Parts, check_and_dispatch-Leads}
use nadikt.Insertion.Service.{
  dispatch_direct, paste, revalidate_before_paste, restore_after_dispatch, mutate_clipboard,
  dispatch_paste, attempt, prepare_clipboard, set_locked, deliver, restore_original,
  discard_original,
}

-- The last two calls made sure that no modifier is held, and found `target` safe.
abbrev pub IsCleared : TargetToken → List Event → Type 0
IsCleared target (assessed t (ok a) ∷ dispatch_prepared (ok ready) ∷ rest) =
    (t ≡ target) × (a.code ≡ none) × (ready ≡ true)
IsCleared target _ = ⊥

-- The call before those two put the text of the request on the clipboard.
abbrev pub IsMutated : InsertionRequest → List Event → Type 0
IsMutated q (a ∷ b ∷ clipboard_mutated id text (ok done) ∷ rest) =
    (id ≡ q.request_id) × (text ≡ q.text)
IsMutated q _ = ⊥

abbrev pub IsGuarded : List Event → Type 0
IsGuarded [] = Unit
IsGuarded (typed q text target r ∷ rest) = (text ≡ q.text) × IsCleared target rest × IsGuarded rest
IsGuarded (pasted q target r ∷ rest) = IsCleared target rest × IsMutated q rest × IsGuarded rest
IsGuarded (_ ∷ rest) = IsGuarded rest

abbrev IsGuardedState : {A : Adapters} → State A → Type 0
IsGuardedState s = IsGuarded s.trace

module _ {A : Adapters} where
  dispatch_direct-IsGuarded :
      (q : InsertionRequest) (target : TargetToken) (started : ℕ) (s : State A)
      → IsGuarded s.trace
      → IsGuarded (dispatch_direct q target started s).1.trace
  unfolding dispatch_direct
  dispatch_direct-IsGuarded q target started s h = ground arith

  dispatch_paste-IsGuarded :
      (q : InsertionRequest) (target : TargetToken) (started : ℕ)
      (snapshot : ClipboardSnapshot A.Object) (s : State A)
      → IsGuarded s.trace
      → IsGuarded (dispatch_paste q target started snapshot s).1.trace
  unfolding dispatch_paste mutate_clipboard restore_after_dispatch revalidate_before_paste paste
  dispatch_paste-IsGuarded q target started snapshot s h = ground arith

  Parts-IsGuarded :
      (q : InsertionRequest) (target : TargetToken)
      → Parts {A = A} IsGuardedState (λ _. IsGuardedState) q target
  unfolding prepare_clipboard assess_target finish
  Parts-IsGuarded q target = record {
    raises = λ s h. h;
    finishes = λ code started. record { from = λ s h. h };
    assesses = record { from = λ s h. ground arith };
    prepares = record { from = λ s h. ground arith };
    directs = λ started. record { from = dispatch_direct-IsGuarded q target started };
    pastes =
        λ started snapshot. record { from = dispatch_paste-IsGuarded q target started snapshot };
  }

  deliver-IsGuarded :
      (q : InsertionRequest) (target : TargetToken) (cancelled : Bool) (s : State A)
      → IsGuarded s.trace
      → IsGuarded (deliver q target cancelled s).1.trace
  unfolding deliver attempt
  deliver-IsGuarded q target cancelled s h = ground (
    arith,
    (check_and_dispatch-Leads q target (Parts-IsGuarded q target) (A.monotonic s.world)).from
        (retain_result q (set_locked true s)).1 h,
  )

  step-IsGuarded : (o : Operation) (s : State A) → IsGuarded s.trace → IsGuarded (step o s).trace
  unfolding step restore_original discard_original
  step-IsGuarded (deliver_op q target cancelled) s h = deliver-IsGuarded q target cancelled s h
  step-IsGuarded (restore_op id) s h = ground arith
  step-IsGuarded (discard_op id) s h = ground arith

  -- Whatever calls a client makes, one after another, and whatever the adapters answer or raise,
  -- each dispatch of the run directly follows an assessment that found its own target safe, and
  -- before it a check that no modifier key is held; what is typed is the request's text, and a paste
  -- also follows the successful write of its own request's text to the clipboard.
  pub run-IsGuarded :
      (ops : List Operation) (s : State A) → IsGuarded s.trace → IsGuarded (run ops s).trace
  run-IsGuarded = run_induction (λ s. IsGuarded s.trace) step-IsGuarded
