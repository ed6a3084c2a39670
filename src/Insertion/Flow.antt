-- ===== src/Insertion/Flow.antt =====
-- What the parts of a delivery preserve, the delivery preserves.
use nadikt.Base.{ℕ, false, Option, none, some}
use nadikt.Base.Result.{Result, ok, err}
use nadikt.Base.Exec.Preserve.{Leads, Leads-bind}
use nadikt.Insertion.Contracts.{
  Adapters, InsertionRequest, InsertionMethod, TargetToken, OutcomeCode, ClipboardSnapshot,
  ClipboardPreparation, InsertionOutcome, Raised, exception, interrupt,
}
use nadikt.Insertion.Boundary.{State, assess_target, finish}
use nadikt.Insertion.Service.{
  dispatch_direct, dispatch_paste, unsafe_clipboard, usable_snapshot, prepare_clipboard,
  dispatch_prepared_clipboard, dispatch_with_clipboard, dispatch, dispatch_assessed,
  check_and_dispatch,
}

-- The parts of the delivery of `q` to `target`.
-- A caught call keeps `P`, and only an interrupt passes through it.
abbrev pub Kept :
    {A : Adapters} {R : Type 0} → (State A → Type 0) → Result Raised R → State A → Type 0
Kept P (ok a) s = P s
Kept P (err exception) s = ⊥
Kept P (err interrupt) s = P s

-- From `P` each part that ends the delivery leads to `Q`; the checks before keep `P`.
pub record Parts {A : Adapters} (P : State A → Type 0)
    (Q : Result Raised InsertionOutcome → State A → Type 0) (q : InsertionRequest)
    (target : TargetToken) : Type 0 where
  pub raises : (s : State A) → P s → Q (err interrupt) s
  pub finishes :
      (code : OutcomeCode) (started : ℕ) → Leads P Q (finish q.request_id code started false)
  pub assesses : Leads P (Kept P) (assess_target target)
  pub prepares : Leads P (Kept P) (prepare_clipboard {A = A})
  pub directs : (started : ℕ) → Leads P Q (dispatch_direct q target started)
  pub pastes :
      (started : ℕ) (snapshot : ClipboardSnapshot A.Object)
      → Leads P Q (dispatch_paste q target started snapshot)

module _ {A : Adapters} {P : State A → Type 0}
    {Q : Result Raised InsertionOutcome → State A → Type 0} (q : InsertionRequest)
    (target : TargetToken) (parts : Parts P Q q target) where
  raises : (e : Raised) (s : State A) → Kept {R = Unit {0}} P (err e) s → Q (err e) s
  raises exception s h = absurd h
  raises interrupt s h = parts.raises s h

  unsafe_clipboard-Leads :
      (m : InsertionMethod) (started : ℕ) → Leads P Q (unsafe_clipboard m q target started)
  unfolding unsafe_clipboard
  unsafe_clipboard-Leads InsertionMethod.auto started = parts.directs started
  unsafe_clipboard-Leads _ started = parts.finishes OutcomeCode.clipboard_unsafe started

  prepared-Leads :
      (started : ℕ) (p : Option (ClipboardPreparation A.Object))
      → Leads P Q (dispatch_prepared_clipboard q target started p)
  unfolding dispatch_prepared_clipboard
  prepared-Leads started none = parts.finishes OutcomeCode.clipboard_failed started
  prepared-Leads started (some p) =
      elim (usable_snapshot p)
        as (λ o. Leads P Q (elim o [
          | none ↦ unsafe_clipboard q.method q target started
          | some snapshot ↦ dispatch_paste q target started snapshot
        ])) [
          | none ↦ unsafe_clipboard-Leads q.method started
          | some snapshot ↦ parts.pastes started snapshot
        ]

  with_clipboard-Leads : (started : ℕ) → Leads P Q (dispatch_with_clipboard q target started)
  unfolding dispatch_with_clipboard
  with_clipboard-Leads started =
      Leads-bind (Kept P) prepare_clipboard (dispatch_prepared_clipboard q target started) raises
        parts.prepares (prepared-Leads started)

  dispatch-Leads : (m : InsertionMethod) (started : ℕ) → Leads P Q (dispatch m q target started)
  unfolding dispatch
  dispatch-Leads InsertionMethod.direct started = parts.directs started
  dispatch-Leads _ started = with_clipboard-Leads started

  assessed-Leads :
      (started : ℕ) (code : Option OutcomeCode)
      → Leads P Q (dispatch_assessed q target started code)
  unfolding dispatch_assessed
  assessed-Leads started none = dispatch-Leads q.method started
  assessed-Leads started (some code) = parts.finishes code started

  pub check_and_dispatch-Leads : (started : ℕ) → Leads P Q (check_and_dispatch q target started)
  unfolding check_and_dispatch
  check_and_dispatch-Leads started =
      Leads-bind (Kept P) (assess_target target) (dispatch_assessed q target started) raises
        parts.assesses (assessed-Leads started)
