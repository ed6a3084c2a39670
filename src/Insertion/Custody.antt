-- ===== src/Insertion/Custody.antt =====
-- The original clipboard in the hands of service.py: an abstract machine that the service refines.
-- It knows which requests were tried and the one whose original it holds, if any.
pub mod Refining
use nadikt.Base.{String, Bool, false, Option, none, some, List, [], ◌∷◌, ◌≡◌, contains}
use nadikt.Base.Dict.{Dict}
use nadikt.Insertion.Contracts.{Adapters, InsertionRequest, TargetToken}
use nadikt.Insertion.Boundary.{State}
use nadikt.Insertion.Run.{Operation, deliver_op, restore_op, discard_op}

pub record Custody : Type 0 where
  pub tried : List String
  pub held : Option String

-- What a call may do. Only the delivery of a request that was not tried, and is not cancelled, takes
-- an original into custody, and only where none is held; only a call that names the request that
-- holds it gives it back or gives it up.
pub data Moves : Operation → Custody → Custody → Type 0 where
  stays : {o : Operation} → {c d : Custody} → d.tried ≡ c.tried → d.held ≡ c.held → Moves o c d
  tries :
      {q : InsertionRequest}
      → {target : TargetToken} → {cancelled : Bool} → {c d : Custody}
      → contains c.tried q.request_id ≡ false
      → d.tried ≡ q.request_id ∷ c.tried
      → d.held ≡ c.held
      → Moves (deliver_op q target cancelled) c d
  takes :
      {q : InsertionRequest}
      → {target : TargetToken} → {c d : Custody} → contains c.tried q.request_id ≡ false
      → c.held ≡ none
      → d.tried ≡ q.request_id ∷ c.tried
      → d.held ≡ some q.request_id
      → Moves (deliver_op q target false) c d
  gives_back :
      {id : String}
      → {c d : Custody} → c.held ≡ some id
      → d.tried ≡ c.tried
      → d.held ≡ none
      → Moves (restore_op id) c d
  gives_up :
      {id : String}
      → {c d : Custody} → c.held ≡ some id
      → d.tried ≡ c.tried
      → d.held ≡ none
      → Moves (discard_op id) c d

-- The runs of the machine on a sequence of calls.
pub data Runs : List Operation → Custody → Custody → Type 0 where
  done : {c : Custody} → Runs [] c c
  next :
      {o : Operation}
      → {rest : List Operation} → {c d e : Custody} → Moves o c d
      → Runs rest d e
      → Runs (o ∷ rest) c e

abbrev pub first_key : {V : Type 0} → Dict V → Option String
first_key [] = none
first_key ((k, v) ∷ d) = some k

-- What the machine knows of the service.
abbrev pub custody : {A : Adapters} → State A → Custody
custody s = record {
  tried = s.service.attempted_request_ids;
  held = first_key s.service.retained_snapshots;
}
