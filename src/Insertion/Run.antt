-- ===== src/Insertion/Run.antt =====
-- Sequences of calls of the service, and induction over them.
use nadikt.Base.{String, Bool, List, [], ◌∷◌}
use nadikt.Insertion.Contracts.{Adapters, InsertionRequest, TargetToken}
use nadikt.Insertion.Boundary.{State}
use nadikt.Insertion.Service.{deliver, restore_original, discard_original}

-- One call by a client.
pub data Operation : Type 0 where
  deliver_op : InsertionRequest → TargetToken → (cancelled : Bool) → Operation
  restore_op discard_op : (request_id : String) → Operation

module _ {A : Adapters} where
  unfoldable pub step : Operation → State A → State A
  step (deliver_op q target cancelled) s = (deliver q target cancelled s).1
  step (restore_op id) s = (restore_original id s).1
  step (discard_op id) s = (discard_original id s).1

  unfoldable pub run : List Operation → State A → State A
  run [] s = s
  run (o ∷ rest) s = run rest (step o s)

  pub run_induction :
      (P : State A → Type 0) (keep : (o : Operation) (s : State A) → P s → P (step o s))
      (ops : List Operation) (s : State A)
      → P s
      → P (run ops s)
  unfolding run
  run_induction P keep [] s h = h
  run_induction P keep (o ∷ rest) s h = run_induction P keep rest (step o s) (keep o s h)
