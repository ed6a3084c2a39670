-- ===== src/Insertion/Custody/Refining.antt =====
-- service.py refines the machine of custody.
use nadikt.Base.{
  ℕ, String, Bool, true, false, none, some, List, [], ◌∷◌, ◌≡◌, refl, ap, sym, ◌∙◌, arith, ◌||◌,
  ◌⊎◌, eq_iff, contains, length, is_empty, ◌≤◌, Bool-cases, Option-cases, inl, inr, if◌then◌else◌,
}
use nadikt.Base.Dict
use nadikt.Base.Dict.{Dict}
use nadikt.Base.Result.{Result, Result-cases}
use nadikt.Insertion.Contracts.{
  Adapters, InsertionRequest, TargetToken, InsertionOutcome, ClipboardSnapshot, Raised,
}
use nadikt.Insertion.Boundary.{State, assess_target, finish, retain_result}
use nadikt.Insertion.Flow.{Parts, check_and_dispatch-Leads}
use nadikt.Insertion.Frame.{check_and_dispatch-Framed}
use nadikt.Insertion.Retention.{deliver_repeated, deliver_locked}
use nadikt.Insertion.Clipboard.{keys, IsKept, step-IsKept, deliver_pending, erase_single}
use nadikt.Insertion.Run.{Operation, deliver_op, restore_op, discard_op, step, run}
use nadikt.Insertion.Service.{
  dispatch_direct, dispatch_paste, mutate_clipboard, restore_after_dispatch,
  revalidate_before_paste, paste, prepare_clipboard, set_locked, attempt, deliver, restore_original,
  discard_original,
}
use nadikt.Insertion.Custody.{
  Custody, Moves, stays, tries, takes, gives_back, gives_up, Runs, done, next, custody, first_key,
}

-- Nothing is retained but one snapshot of the request.
abbrev Owns : {V : Type 0} → String → Dict V → Type 0
Owns id [] = Unit
Owns id ((k, v) ∷ d) = (k ≡ id) × (d ≡ [])

module _ {A : Adapters} (q : InsertionRequest) where
  abbrev IsOwn : State A → Type 0
  IsOwn s = Owns q.request_id s.service.retained_snapshots

  abbrev IsEmpty : State A → Type 0
  IsEmpty s = s.service.retained_snapshots ≡ []

  abbrev EndsOwn : Result Raised InsertionOutcome → State A → Type 0
  EndsOwn r s = IsOwn s

  paste-IsOwn :
      (target : TargetToken) (started : ℕ) (snapshot : ClipboardSnapshot A.Object) (s : State A)
      → IsEmpty s
      → IsOwn (dispatch_paste q target started snapshot s).1
  unfolding dispatch_paste mutate_clipboard restore_after_dispatch revalidate_before_paste paste
      Dict.insert Dict.erase
  paste-IsOwn target started snapshot s h = ground (arith, eq_iff q.request_id q.request_id)

  Parts-IsOwn : (target : TargetToken) → Parts {A = A} IsEmpty EndsOwn q target
  unfolding prepare_clipboard assess_target finish dispatch_direct
  Parts-IsOwn target = record {
    raises = λ s h. ground arith;
    finishes = λ code started. record { from = λ s h. ground arith };
    assesses = record { from = λ s h. ground arith };
    prepares = record { from = λ s h. ground arith };
    directs = λ started. record { from = λ s h. ground arith };
    pastes = λ started snapshot. record { from = λ s h. paste-IsOwn target started snapshot s h };
  }

  tried-deliver :
      (target : TargetToken) (cancelled : Bool) (s : State A)
      → (deliver q target cancelled s).1.service.attempted_request_ids ≡ (
          if contains s.service.attempted_request_ids q.request_id
          then s.service.attempted_request_ids
          else q.request_id ∷ s.service.attempted_request_ids)
  unfolding deliver attempt
  tried-deliver target cancelled s =
      let s' = (retain_result q (set_locked true s)).1 in
      let v = s'.service in
      let framed =
        (check_and_dispatch-Framed v.delivery_locked v.attempted_request_ids v.retained_results q
          target (A.monotonic s.world) s'
          (record { locked_eq = refl; attempted_eq = refl; results_eq = refl })).attempted_eq in
      ground (arith, framed)

  deliver-IsOwn :
      (target : TargetToken) (s : State A)
      → s.service.delivery_locked ≡ false
      → contains s.service.attempted_request_ids q.request_id ≡ false
      → IsEmpty s
      → IsOwn (deliver q target false s).1
  unfolding deliver attempt
  deliver-IsOwn target s free new h =
      let s' = (retain_result q (set_locked true s)).1 in
      let own =
        (check_and_dispatch-Leads q target (Parts-IsOwn target) (A.monotonic s.world)).from s' h in
      ground (arith, own)

  cancelled-deliver :
      (target : TargetToken) (s : State A)
      → (deliver q target true s).1.service.retained_snapshots ≡ s.service.retained_snapshots
  unfolding deliver attempt
  cancelled-deliver target s = ground arith

  kept-Moves :
      (target : TargetToken) (cancelled : Bool) (s : State A)
      → (deliver q target cancelled s).1.service.retained_snapshots ≡ s.service.retained_snapshots
      → Moves (deliver_op q target cancelled) (custody s) (custody (deliver q target cancelled s).1)
  kept-Moves target cancelled s h =
      let t = tried-deliver target cancelled s in
      elim (Bool-cases (contains s.service.attempted_request_ids q.request_id)) [
        | inl p ↦ stays (ground (arith, t)) (ap first_key h)
        | inr p ↦ tries p (ground (arith, t)) (ap first_key h)
      ]

  own-Moves :
      (target : TargetToken) (s : State A) (d : Dict (ClipboardSnapshot A.Object))
      → contains s.service.attempted_request_ids q.request_id ≡ false
      → IsEmpty s
      → (deliver q target false s).1.service.retained_snapshots ≡ d
      → Owns q.request_id d
      → Moves (deliver_op q target false) (custody s) (custody (deliver q target false s).1)
  own-Moves target s [] new h e own =
      tries new (ground (arith, tried-deliver target false s))
        (ap first_key e ∙ sym (ap first_key h))
  own-Moves target s ((k, v) ∷ d) new h e own =
      takes new (ap first_key h) (ground (arith, tried-deliver target false s)) (ground arith)

  deliver-Moves :
      (target : TargetToken) (cancelled : Bool) (s : State A)
      → Moves (deliver_op q target cancelled) (custody s) (custody (deliver q target cancelled s).1)
  deliver-Moves target true s = kept-Moves target true s (cancelled-deliver target s)
  deliver-Moves target false s = elim (Bool-cases (is_empty s.service.retained_snapshots)) [
    | inr some_left ↦ kept-Moves target false s (deliver_pending q target false s some_left).1
    | inl none_left ↦ elim (Bool-cases s.service.delivery_locked) [
      | inl locked ↦ kept-Moves target false s (deliver_locked q target false s locked).2
      | inr free ↦ elim (Bool-cases (contains s.service.attempted_request_ids q.request_id)) [
        | inl known ↦
            kept-Moves target false s
              (ap (λ t. t.service.retained_snapshots) (deliver_repeated q target false s known).0)
        | inr new ↦
            let empty : IsEmpty s = ground arith in
            own-Moves target s (deliver q target false s).1.service.retained_snapshots new empty
              refl (deliver-IsOwn target s free new empty)
      ]
    ]
  ]

first_key-single :
    {V : Type 0} (id : String) (d : Dict V) (v : V)
    → Dict.get d id ≡ some v
    → length (keys d) ≤ 1
    → first_key d ≡ some id
unfolding Dict.get
first_key-single id [] v g h = absurd (ground arith)
first_key-single id ((k, w) ∷ []) v g h = ground (arith, eq_iff k id)
first_key-single id (_ ∷ _ ∷ d) v g h = absurd (omega arith)

module _ {A : Adapters} where
  -- A call keeps the snapshots, or forgets the one of the request that it names.
  abbrev KeepsOrForgets : String → State A → State A → Type 0
  KeepsOrForgets id s t =
      let d = s.service.retained_snapshots in
      (t.service.attempted_request_ids ≡ s.service.attempted_request_ids)
      × ((t.service.retained_snapshots ≡ d)
          ⊎ ((snapshot : ClipboardSnapshot A.Object) × (Dict.get d id ≡ some snapshot)
              × (t.service.retained_snapshots ≡ Dict.erase id d)))

  restore-KeepsOrForgets :
      (id : String) (s : State A) → KeepsOrForgets id s (restore_original id s).1
  unfolding restore_original
  restore-KeepsOrForgets id s = elim (Option-cases (Dict.get s.service.retained_snapshots id)) [
    | inl e ↦ (ground arith, inl (ground arith))
    | inr (snapshot, e) ↦ elim (Result-cases (A.restore snapshot s.world).0) [
      | inr (x, p) ↦ (ground arith, inl (ground arith))
      | inl (r, p) ↦ elim (Bool-cases (r.restored || r.external_change)) [
        | inl over ↦ (ground arith, inr (snapshot, e, ground arith))
        | inr still ↦ (ground arith, inl (ground arith))
      ]
    ]
  ]

  discard-KeepsOrForgets :
      (id : String) (s : State A) → KeepsOrForgets id s (discard_original id s).1
  unfolding discard_original
  discard-KeepsOrForgets id s = elim (Option-cases (Dict.get s.service.retained_snapshots id)) [
    | inl e ↦ (ground arith, inl (ground arith))
    | inr (snapshot, e) ↦ elim (Result-cases (A.discard snapshot s.world).0) [
      | inr (x, p) ↦ (ground arith, inl (ground arith))
      | inl (r, p) ↦ (ground arith, inr (snapshot, e, ground arith))
    ]
  ]

  -- The move of such a call, `give` being its own one.
  forgetting-Moves :
      (o : Operation) (id : String) (s t : State A)
      → ((c d : Custody) → c.held ≡ some id → d.tried ≡ c.tried → d.held ≡ none → Moves o c d)
      → IsKept s
      → KeepsOrForgets id s t
      → Moves o (custody s) (custody t)
  forgetting-Moves o id s t give h (tried, inl kept) = stays tried (ap first_key kept)
  forgetting-Moves o id s t give h (tried, inr (snapshot, e, forgotten)) =
      let d = s.service.retained_snapshots in
      give (custody s) (custody t) (first_key-single id d snapshot e h.single) tried
        (ap first_key (forgotten ∙ erase_single id d e h.single))

  step-Moves : (o : Operation) (s : State A) → IsKept s → Moves o (custody s) (custody (step o s))
  unfolding step
  step-Moves (deliver_op q target cancelled) s h = deliver-Moves q target cancelled s
  step-Moves (restore_op id) s h =
      forgetting-Moves (restore_op id) id s (restore_original id s).1 (λ c d. gives_back) h
        (restore-KeepsOrForgets id s)
  step-Moves (discard_op id) s h =
      forgetting-Moves (discard_op id) id s (discard_original id s).1 (λ c d. gives_up) h
        (discard-KeepsOrForgets id s)

  -- From a state whose retained snapshots are those of the requests with an unsettled write, one at
  -- most, each sequence of calls of the service is a run of the machine of custody, whatever the
  -- adapters do.
  pub run-Runs :
      (ops : List Operation) (s : State A) → IsKept s → Runs ops (custody s) (custody (run ops s))
  unfolding run
  run-Runs [] s h = done
  run-Runs (o ∷ rest) s h = next (step-Moves o s h) (run-Runs rest (step o s) (step-IsKept o s h))
