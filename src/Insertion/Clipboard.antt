-- ===== src/Insertion/Clipboard.antt =====
-- The original clipboard is kept exactly as long as the write of a request's text to the clipboard
-- is unsettled.
use nadikt.Base.{
  ℕ, String, Bool, true, false, ◌||◌, Option, none, some, List, [], ◌∷◌, ◌≡◌, arith, eq_iff,
  if◌then◌else◌, contains, length, Bool-cases, Option-cases, inl, inr, ◌≤◌, is_empty,
}
use nadikt.Base.Dict
use nadikt.Base.Dict.{Dict}
use nadikt.Base.Result.{Result, ok, err}
use nadikt.Base.Exec.Preserve.{Leads}
use nadikt.Insertion.Contracts.{
  Adapters, InsertionRequest, TargetToken, OutcomeCode, InsertionOutcome, ClipboardSnapshot, Raised,
  interrupt,
}
use nadikt.Insertion.Boundary.{
  State, Event, clipboard_mutated, clipboard_restored, clipboard_discarded, assess_target, finish,
  retain_result,
}
use nadikt.Insertion.Flow.{Parts, check_and_dispatch-Leads}
use nadikt.Insertion.Retention.{deliver_repeated, deliver_locked}
use nadikt.Insertion.Run.{Operation, deliver_op, restore_op, discard_op, step, run, run_induction}
use nadikt.Insertion.Service.{
  dispatch_direct, dispatch_paste, mutate_clipboard, restore_after_dispatch,
  revalidate_before_paste, paste, prepare_clipboard, set_locked, attempt, deliver, restore_original,
  discard_original,
}

-- The requests with an unsettled write: one whose write of its text to the clipboard was called, be
-- it that it returned or that it raised, which leaves open what it did; with the original neither
-- restored, nor overwritten from outside, nor given up since.
abbrev pub unsettled_writes : List Event → List String
unsettled_writes [] = []
unsettled_writes (clipboard_mutated id text r ∷ rest) = id ∷ unsettled_writes rest
unsettled_writes (clipboard_restored (ok r) ∷ rest) =
    if r.restored || r.external_change then [] else unsettled_writes rest
unsettled_writes (clipboard_discarded (ok r) ∷ rest) = []
unsettled_writes (_ ∷ rest) = unsettled_writes rest

abbrev pub keys {ℓ} : {V : Type ℓ} → Dict V → List String
keys [] = []
keys ((k, v) ∷ d) = k ∷ keys d

-- The snapshots that are retained are those of the requests with an unsettled write, and there is
-- one at most.
pub record IsKept {A : Adapters} (s : State A) : Type 0 where
  pub same : keys s.service.retained_snapshots ≡ unsettled_writes s.trace
  pub single : length (keys s.service.retained_snapshots) ≤ 1

abbrev IsClear : {A : Adapters} → State A → Type 0
IsClear s = (s.service.retained_snapshots ≡ []) × (unsettled_writes s.trace ≡ [])

-- If the flag is set, `id` alone has a retained snapshot and an unsettled write; if not, no request
-- has either.
abbrev pub Holds : {A : Adapters} → String → Bool → State A → Type 0
Holds id retained s =
    let ids : List String = if retained then id ∷ [] else [] in
    (keys s.service.retained_snapshots ≡ ids) × (unsettled_writes s.trace ≡ ids)

abbrev pub Reports : {A : Adapters} → String → Result Raised InsertionOutcome → State A → Type 0
Reports id (ok o) s = Holds id o.original_snapshot_retained s
Reports id (err e) s = (e ≡ interrupt) × IsKept s

module _ {A : Adapters} (q : InsertionRequest) where
  dispatch_direct-Reports :
      (target : TargetToken) (started : ℕ)
      → Leads {S = State A} IsClear (Reports q.request_id) (dispatch_direct q target started)
  unfolding dispatch_direct
  dispatch_direct-Reports target started = record { from = λ s h. ground arith }

  module _ (snapshot : ClipboardSnapshot A.Object) where
    abbrev IsMutated : State A → Type 0
    IsMutated s =
        (s.service.retained_snapshots ≡ (q.request_id, snapshot) ∷ [])
        × (unsettled_writes s.trace ≡ q.request_id ∷ [])

    mutate_clipboard-IsMutated :
        (s : State A) → IsClear s → IsMutated (mutate_clipboard q snapshot s).1
    unfolding mutate_clipboard Dict.insert
    mutate_clipboard-IsMutated s h = ground arith

    restore_after_dispatch-Reports :
        (code : OutcomeCode) (started : ℕ) (s : State A)
        → IsMutated s
        → let x = restore_after_dispatch q.request_id snapshot code started s in
          Reports q.request_id x.0 x.1
    unfolding restore_after_dispatch Dict.erase
    restore_after_dispatch-Reports code started s h =
        ground (arith, eq_iff q.request_id q.request_id)

    abbrev ReportsEarly : Result Raised (Option InsertionOutcome) → State A → Type 0
    ReportsEarly (ok none) s = IsMutated s
    ReportsEarly (ok (some o)) s = Reports q.request_id (ok o) s
    ReportsEarly (err e) s = ⊥

    revalidate_before_paste-ReportsEarly :
        (target : TargetToken) (started : ℕ) (s : State A)
        → IsMutated s
        → let x = revalidate_before_paste q target snapshot started s in ReportsEarly x.0 x.1
    unfolding revalidate_before_paste Dict.erase
    revalidate_before_paste-ReportsEarly target started s h =
        ground (arith, eq_iff q.request_id q.request_id)

    paste-Reports :
        (target : TargetToken) (started : ℕ) (s : State A)
        → IsMutated s
        → let x = paste q target started s in Reports q.request_id x.0 x.1
    unfolding paste
    paste-Reports target started s h = ground arith

    dispatch_paste-Reports :
        (target : TargetToken) (started : ℕ)
        → Leads {S = State A} IsClear
            (Reports q.request_id)
            (dispatch_paste q target started snapshot)
    unfolding dispatch_paste
    dispatch_paste-Reports target started = record {
      from = λ s h.
          let s' = (mutate_clipboard q snapshot s).1 in
          let h' : IsMutated s' = mutate_clipboard-IsMutated s h in
          let early = revalidate_before_paste q target snapshot started s' in
          ground (
            arith,
            restore_after_dispatch-Reports OutcomeCode.clipboard_failed started s' h',
            revalidate_before_paste-ReportsEarly target started s' h',
            paste-Reports target started early.1,
          );
    }

  Parts-Reports : (target : TargetToken) → Parts {A = A} IsClear (Reports q.request_id) q target
  unfolding prepare_clipboard assess_target finish
  Parts-Reports target = record {
    raises = λ s h. ground arith;
    finishes = λ code started. record { from = λ s h. ground arith };
    assesses = record { from = λ s h. ground arith };
    prepares = record { from = λ s h. ground arith };
    directs = dispatch_direct-Reports target;
    pastes = λ started snapshot. dispatch_paste-Reports snapshot target started;
  }

  attempt-Reports :
      (target : TargetToken) (cancelled : Bool) (started : ℕ) (s : State A)
      → contains s.service.attempted_request_ids q.request_id ≡ false
      → IsClear s
      → let x = attempt q target cancelled started s in Reports q.request_id x.0 x.1
  unfolding attempt
  attempt-Reports target cancelled started s new h = ground (
    arith,
    (check_and_dispatch-Leads q target (Parts-Reports target) started).from (retain_result q s).1 h,
  )

  -- A delivery of a request that was not attempted before, with the lock free and no snapshot
  -- retained or write unsettled, ends in one of two ways: its outcome says that the original snapshot
  -- is retained, and this request alone has one and its write alone is unsettled, be it that the
  -- write returned or raised; or its outcome says that it is not, no snapshot is retained, and no
  -- write was called or each was settled again. It raises nothing but an interrupt, and then the
  -- retained snapshots are those of the requests with an unsettled write.
  pub deliver-Reports :
      (target : TargetToken) (cancelled : Bool) (s : State A)
      → s.service.delivery_locked ≡ false
      → contains s.service.attempted_request_ids q.request_id ≡ false
      → IsClear s
      → let x = deliver q target cancelled s in Reports q.request_id x.0 x.1
  unfolding deliver
  deliver-Reports target cancelled s free new h =
      ground
        (arith, attempt-Reports target cancelled (A.monotonic s.world) (set_locked true s) new h)

  Reports-IsKept :
      (r : Result Raised InsertionOutcome) (s : State A) → Reports q.request_id r s → IsKept s
  Reports-IsKept (ok o) s h = grind arith
  Reports-IsKept (err e) s h = h.1

  -- A delivery with a snapshot still to be restored leaves the clipboard alone.
  pub deliver_pending :
      (target : TargetToken) (cancelled : Bool) (s : State A)
      → is_empty s.service.retained_snapshots ≡ false
      → let t = (deliver q target cancelled s).1 in
        (t.trace ≡ s.trace) × (t.service.retained_snapshots ≡ s.service.retained_snapshots)
  unfolding deliver attempt
  deliver_pending target cancelled s h = ground arith

  deliver-IsKept :
      (target : TargetToken) (cancelled : Bool) (s : State A)
      → IsKept s
      → IsKept (deliver q target cancelled s).1
  deliver-IsKept target cancelled s h = elim (Bool-cases (is_empty s.service.retained_snapshots)) [
    | inr some_left ↦ grind (arith, deliver_pending target cancelled s some_left)
    | inl none_left ↦ elim (Bool-cases s.service.delivery_locked) [
      | inl locked ↦ grind (arith, deliver_locked q target cancelled s locked)
      | inr free ↦ elim (Bool-cases (contains s.service.attempted_request_ids q.request_id)) [
        | inl known ↦ rw (deliver_repeated q target cancelled s known).0 h
        | inr new ↦
            let x = deliver q target cancelled s in
            Reports-IsKept x.0 x.1 (deliver-Reports target cancelled s free new (ground arith))
      ]
    ]
  ]

pub erase_single {ℓ} :
    {V : Type ℓ} (id : String) (d : Dict V) {v : V}
    → Dict.get d id ≡ some v
    → length (keys d) ≤ 1
    → Dict.erase id d ≡ []
unfolding Dict.get Dict.erase
erase_single id [] g h = cc
erase_single id ((k, w) ∷ []) g h = ground arith
erase_single id (_ ∷ _ ∷ d) g h = absurd (omega arith)

module _ {A : Adapters} where
  pub step-IsKept : (o : Operation) (s : State A) → IsKept s → IsKept (step o s)
  unfolding step restore_original discard_original
  step-IsKept (deliver_op q target cancelled) s h = deliver-IsKept q target cancelled s h
  step-IsKept (restore_op id) s h = elim (Option-cases (Dict.get s.service.retained_snapshots id)) [
    | inl e ↦ ground arith
    | inr (v, e) ↦ ground (arith, erase_single id s.service.retained_snapshots e h.single)
  ]
  step-IsKept (discard_op id) s h = elim (Option-cases (Dict.get s.service.retained_snapshots id)) [
    | inl e ↦ ground arith
    | inr (v, e) ↦ ground (arith, erase_single id s.service.retained_snapshots e h.single)
  ]

  -- In any sequence of calls from a state where it is so, the retained snapshots are exactly those of
  -- the requests with an unsettled write to the clipboard, one that raised included, and there is one
  -- at most.
  pub run-IsKept : (ops : List Operation) (s : State A) → IsKept s → IsKept (run ops s)
  run-IsKept = run_induction IsKept step-IsKept
