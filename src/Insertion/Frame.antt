-- ===== src/Insertion/Frame.antt =====
-- The fields of the service that a dispatch leaves alone: only the retained snapshots change.
use nadikt.Base.{ℕ, String, Bool, List, ◌≡◌, arith}
use nadikt.Base.Dict.{Dict}
use nadikt.Insertion.Contracts.{
  Adapters, InsertionRequest, TargetToken, ClipboardSnapshot, OutcomeCode,
}
use nadikt.Insertion.Boundary.{State, assess_target, finish}
use nadikt.Insertion.Service.{
  dispatch_direct, dispatch_paste, mutate_clipboard, restore_after_dispatch,
  revalidate_before_paste, paste, prepare_clipboard, check_and_dispatch,
}
use nadikt.Insertion.Flow.{Parts, check_and_dispatch-Leads}

pub record Framed {A : Adapters} (locked : Bool) (attempted : List String) (results : Dict String)
    (s : State A) : Type 0 where
  pub locked_eq : s.service.delivery_locked ≡ locked
  pub attempted_eq : s.service.attempted_request_ids ≡ attempted
  pub results_eq : s.service.retained_results ≡ results

module _ {A : Adapters} (locked : Bool) (attempted : List String) (results : Dict String) where
  abbrev Here : State A → Type 0
  Here = Framed locked attempted results

  dispatch_direct-Framed :
      (q : InsertionRequest) (target : TargetToken) (started : ℕ) (s : State A)
      → Here s
      → Here (dispatch_direct q target started s).1
  unfolding dispatch_direct
  dispatch_direct-Framed q target started s h = ground arith

  mutate_clipboard-Framed :
      (q : InsertionRequest) (snapshot : ClipboardSnapshot A.Object) (s : State A)
      → Here s
      → Here (mutate_clipboard q snapshot s).1
  unfolding mutate_clipboard
  mutate_clipboard-Framed q snapshot s h = ground arith

  restore_after_dispatch-Framed :
      (q : InsertionRequest) (snapshot : ClipboardSnapshot A.Object) (code : OutcomeCode)
      (started : ℕ) (s : State A)
      → Here s
      → Here (restore_after_dispatch q.request_id snapshot code started s).1
  unfolding restore_after_dispatch
  restore_after_dispatch-Framed q snapshot code started s h = ground arith

  revalidate_before_paste-Framed :
      (q : InsertionRequest) (target : TargetToken) (snapshot : ClipboardSnapshot A.Object)
      (started : ℕ) (s : State A)
      → Here s
      → Here (revalidate_before_paste q target snapshot started s).1
  unfolding revalidate_before_paste
  revalidate_before_paste-Framed q target snapshot started s h = ground arith

  paste-Framed :
      (q : InsertionRequest) (target : TargetToken) (started : ℕ) (s : State A)
      → Here s
      → Here (paste q target started s).1
  unfolding paste
  paste-Framed q target started s h = ground arith

  dispatch_paste-Framed :
      (q : InsertionRequest) (target : TargetToken) (started : ℕ)
      (snapshot : ClipboardSnapshot A.Object) (s : State A)
      → Here s
      → Here (dispatch_paste q target started snapshot s).1
  unfolding dispatch_paste
  dispatch_paste-Framed q target started snapshot s h =
      let s' = (mutate_clipboard q snapshot s).1 in
      let s'' = (revalidate_before_paste q target snapshot started s').1 in
      let h' : Here s' = mutate_clipboard-Framed q snapshot s h in
      let h'' : Here s'' = revalidate_before_paste-Framed q target snapshot started s' h' in
      ground (
        arith,
        restore_after_dispatch-Framed q snapshot OutcomeCode.clipboard_failed started s' h',
        paste-Framed q target started s'' h'',
      )

  Parts-Framed : (q : InsertionRequest) (target : TargetToken) → Parts Here (λ _. Here) q target
  unfolding prepare_clipboard assess_target finish
  Parts-Framed q target = record {
    raises = λ s h. h;
    finishes = λ code started. record { from = λ s h. h };
    assesses = record { from = λ s h. ground arith };
    prepares = record { from = λ s h. ground arith };
    directs = λ started. record { from = dispatch_direct-Framed q target started };
    pastes = λ started snapshot. record { from = dispatch_paste-Framed q target started snapshot };
  }

  pub check_and_dispatch-Framed :
      (q : InsertionRequest) (target : TargetToken) (started : ℕ) (s : State A)
      → Here s
      → Here (check_and_dispatch q target started s).1
  check_and_dispatch-Framed q target started =
      (check_and_dispatch-Leads q target (Parts-Framed q target) started).from
