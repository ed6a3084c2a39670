-- ===== src/Windows/Cli/Resolving.antt =====
-- The end of a pending restoration in cli.py.
use nadikt.Base.{
  String, Bool, true, false, ◌||◌, Option, none, some, List, [], ◌∷◌, ◌++◌, ◌≡◌, ◌≢◌, arith,
  Bool-cases, Option-cases, inl, inr, str_eq, eq_iff,
}
use nadikt.Base.Dict
use nadikt.Base.Dict.{Dict, get-erase}
use nadikt.Base.Texts.{strip}
use nadikt.Base.Result.{Result, Result-cases, ok, err}
use nadikt.Insertion.Contracts.{Adapters, ClipboardSnapshot, RestoreResult}
use nadikt.Insertion.Boundary.{call, forget_snapshot}
use nadikt.Insertion.Service.{restore_original, discard_original}
use nadikt.Windows.Cli.{
  Input, line, interrupted, end_of_file, Ended, CliSystem, CliState, C, print, serve, sleep,
  try_restore, try_discard, confirm_with, resolve_step, resolve_pending_restoration,
}

abbrev pub retained : {A : Adapters} → String → CliState A → Option (ClipboardSnapshot A.Object)
retained id s = Dict.get s.state.service.retained_snapshots id

module _ {A : Adapters} (sys : CliSystem A) (id : String) where
  -- An action that tells the end forgets the snapshot, and any other end keeps it.
  abbrev Tells : C sys Bool → CliState A → Type 0
  Tells m s =
      ((m s).0 ≡ ok true → retained id (m s).1 ≡ none)
      × ((m s).0 ≢ ok true → retained id (m s).1 ≡ retained id s)

  restore-Tells : (s : CliState A) → Tells (try_restore sys id) s
  unfolding try_restore serve print restore_original call forget_snapshot
  restore-Tells s =
      let d = s.state.service.retained_snapshots in
      elim (Option-cases (Dict.get d id)) [
        | inl p ↦ ground arith
        | inr (snapshot, p) ↦ elim (Result-cases (A.restore snapshot s.state.world).0) [
          | inr (e, q) ↦ ground arith
          | inl (r, q) ↦ ground (arith, get-erase id id d, eq_iff id id)
        ]
      ]

  discard-Tells : (s : CliState A) → Tells (try_discard sys id) s
  unfolding try_discard serve print discard_original call forget_snapshot
  discard-Tells s =
      let d = s.state.service.retained_snapshots in
      elim (Option-cases (Dict.get d id)) [
        | inl p ↦ ground arith
        | inr (snapshot, p) ↦ elim (Result-cases (A.discard snapshot s.state.world).0) [
          | inr (e, q) ↦ ground arith
          | inl (r, q) ↦ ground (arith, get-erase id id d, eq_iff id id)
        ]
      ]

  step-Tells : (input : Input) (s : CliState A) → Tells (resolve_step sys id input) s
  unfolding resolve_step confirm_with print sleep
  step-Tells interrupted s = ground arith
  step-Tells end_of_file s = ground arith
  step-Tells (line text) s = elim (Bool-cases (str_eq (strip text) "RESTORE")) [
    | inl p ↦ ground (arith, restore-Tells s)
    | inr p ↦ elim (Bool-cases (str_eq (strip text) "DISCARD_ORIGINAL")) [
      | inl q ↦ ground (arith, discard-Tells s)
      | inr q ↦ ground arith
    ]
  ]

  -- The resolution of a pending restoration ends only once the service keeps the original no more;
  -- as long as it waits, and where it raises, the service keeps the same original.
  resolve-Tells :
      (inputs : List Input) (s : CliState A)
      → let end : Result Ended (Unit {0}) × CliState A =
          resolve_pending_restoration sys id inputs s in
        (end.0 ≡ ok tt → retained id end.1 ≡ none)
        × (end.0 ≢ ok tt → retained id end.1 ≡ retained id s)
  unfolding resolve_pending_restoration
  resolve-Tells [] s = ground arith
  resolve-Tells (input ∷ inputs) s =
      let told = step-Tells input s in
      elim (Result-cases (resolve_step sys id input s).0) [
        | inr (e, p) ↦ ground (arith, told)
        | inl (true, p) ↦ ground (arith, told)
        | inl (false, p) ↦
            ground (arith, told, resolve-Tells inputs (resolve_step sys id input s).1)
      ]

  -- The clipboard adapter can always restore or tells that the contents are another's.
  abbrev pub CanRestore : Type 0
  CanRestore =
      (snapshot : ClipboardSnapshot A.Object) (w : A.World)
      → (r : RestoreResult) × ((A.restore snapshot w).0 ≡ ok r)
        × (r.restored || r.external_change ≡ true)

  abbrev pub CanSleep : Type 0
  CanSleep = (w : A.World) → (sys.sleep_second w).0 ≡ ok tt

  restore-ends :
      CanRestore
      → (snapshot : ClipboardSnapshot A.Object) (s : CliState A) → retained id s ≡ some snapshot
      → (try_restore sys id s).0 ≡ ok true
  unfolding try_restore serve print restore_original call forget_snapshot
  restore-ends can snapshot s h = let (r, p, q) = can snapshot s.state.world in ground (arith, p, q)

  restore-returns : (s : CliState A) (e : Ended) → (try_restore sys id s).0 ≢ err e
  unfolding try_restore serve print restore_original call forget_snapshot
  restore-returns s e = ground arith

  discard-returns : (s : CliState A) (e : Ended) → (try_discard sys id s).0 ≢ err e
  unfolding try_discard serve print discard_original call forget_snapshot
  discard-returns s e = ground arith

  step-returns :
      CanSleep
      → (input : Input) (s : CliState A) (e : Ended) → (resolve_step sys id input s).0 ≢ err e
  unfolding resolve_step confirm_with print sleep
  step-returns can interrupted s e = ground arith
  step-returns can end_of_file s e = ground (arith, can s.state.world)
  step-returns can (line text) s e = elim (Bool-cases (str_eq (strip text) "RESTORE")) [
    | inl p ↦ ground (arith, restore-returns s e)
    | inr p ↦ elim (Bool-cases (str_eq (strip text) "DISCARD_ORIGINAL")) [
      | inl q ↦ ground (arith, discard-returns s e)
      | inr q ↦ ground arith
    ]
  ]

  -- Where the clipboard adapter can always restore or tells that the contents are another's, and
  -- `sleep` does not raise, the resolution ends at the latest with a line that confirms RESTORE,
  -- whatever was put in before, interrupts and ends of file included, and the service keeps the
  -- original no more.
  pub resolve-ends :
      CanRestore
      → CanSleep
      → (snapshot : ClipboardSnapshot A.Object) (before : List Input) (text : String)
        (after : List Input) (s : CliState A)
      → retained id s ≡ some snapshot
      → str_eq (strip text) "RESTORE" ≡ true
      → let end : Result Ended (Unit {0}) × CliState A =
          resolve_pending_restoration sys id (before ++ line text ∷ after) s in
        (end.0 ≡ ok tt) × (retained id end.1 ≡ none)
  unfolding resolve_pending_restoration resolve_step confirm_with
  resolve-ends can sleeps snapshot [] text after s h t =
      ground (arith, restore-ends can snapshot s h, restore-Tells s)
  resolve-ends can sleeps snapshot (input ∷ before) text after s h t =
      let told = step-Tells input s in
      let s' = (resolve_step sys id input s).1 in
      elim (Result-cases (resolve_step sys id input s).0) [
        | inr (e, p) ↦ absurd (step-returns sleeps input s e p)
        | inl (true, p) ↦ ground (arith, told)
        | inl (false, p) ↦
            let kept : retained id s' ≡ some snapshot = ground (arith, told) in
            let ih = resolve-ends can sleeps snapshot before text after s' kept t in
            ground (arith, ih)
      ]
