-- ===== src/Windows/Clipboard/Ownership.antt =====
-- Whose contents windows_clipboard.py replaces.
pub mod Commit
pub mod Reading
pub mod Transaction
use nadikt.Base.{
  ℕ, Bool, true, false, Option, none, some, List, [], ◌∷◌, ◌++◌, ◌≡◌, ◌≢◌, refl, arith, Bool-cases,
  Option-cases, inl, inr, ◌==◌, ==_iff,
}
use nadikt.Base.Result.{Result, Result-cases, ok, err}
use nadikt.Base.Exec.{Exec, pure, raise, finally, ◌>>=◌, ◌>>◌}
use nadikt.Insertion.Contracts.{ClipboardSnapshot, RestoreResult, Raised, exception}
use nadikt.Windows.Utf16.{encode_utf_16_le}
use nadikt.Windows.Clipboard.Heap.{lookup, update, lookup-update}
use nadikt.Windows.Clipboard.{
  ClipboardItems, ClipboardApi, WindowsClipboardState, StateObject, at, ClipboardState, K, call,
  with_opened, mark, release_prepared, access_error, replace_marked, commit_opened, commit_encoded,
  commit_mutation, replace_or_mark, restore_opened, restore_state, restore, cf_unicodetext,
}

-- The clipboard of the system: its contents, which are the formats that were placed on it, and its
-- sequence number. While it is open only
-- `replace_contents` changes it; another program may do so before `enter` returns.
pub record Clipboard (api : ClipboardApi) : Type 0 where
  pub contents : api.World → ClipboardItems
  pub sequence : api.World → ℕ
  pub leave-contents : (w : api.World) → contents (api.leave w) ≡ contents w
  pub leave-sequence : (w : api.World) → sequence (api.leave w) ≡ sequence w
  pub number-contents : (w : api.World) → contents (api.sequence_number w).1 ≡ contents w
  pub number-sequence : (w : api.World) → sequence (api.sequence_number w).1 ≡ sequence w
  pub number-value : (w : api.World) (n : ℕ) → (api.sequence_number w).0 ≡ ok n → n ≡ sequence w
  pub replace-contents :
      (items : ClipboardItems) (w : api.World)
      → (api.replace_contents items w).0 ≡ ok tt
      → contents (api.replace_contents items w).1 ≡ items

module _ (api : ClipboardApi) (law : Clipboard api) where
  abbrev S : Type 0
  S = ClipboardState api.World

  -- The state in which the clipboard is open.
  abbrev pub entered : S → S
  entered s = record s { world = (api.enter s.world).1 }

  -- The body of `restore` on a clipboard that is open.
  restore_opened-Owned :
      (address marker : ℕ) (items : ClipboardItems) (s : S)
      → let end : Result Raised Bool × S = restore_opened api address marker items s in
        (law.sequence s.world ≢ marker
          → (law.contents end.1.world ≡ law.contents s.world) × (end.0 ≢ ok true))
        × (end.0 ≡ ok true → (law.sequence s.world ≡ marker) × (law.contents end.1.world ≡ items))
  unfolding restore_opened release_prepared replace_or_mark call mark
  restore_opened-Owned address marker items s =
      let s1 = record s { world = (api.sequence_number s.world).1 } in
      let c = law.number-contents s.world in
      elim (Result-cases (api.sequence_number s.world).0) [
        | inr (e, p) ↦ ground (arith, c)
        | inl (n, p) ↦
            let v = law.number-value s.world n p in
            elim (Bool-cases (n == marker)) [
              | inr other ↦ ground (arith, c, v)
              | inl same ↦ elim (Result-cases (api.replace_contents items s1.world).0) [
                | inr (e, q) ↦ ground (arith, v)
                | inl (tt, q) ↦ ground (arith, v, law.replace-contents items s1.world q)
              ]
            ]
      ]

  -- A failed `restore` on a clipboard that is open and its own keeps a marker for another try.
  restore_opened-marks :
      (address marker : ℕ) (items : ClipboardItems) (state : WindowsClipboardState) (e : Raised)
      (s : S)
      → ((w : api.World) → (n : ℕ) × ((api.sequence_number w).0 ≡ ok n))
      → lookup address s.heap ≡ some state
      → (restore_opened api address marker items s).0 ≡ err e
      → lookup address (restore_opened api address marker items s).1.heap
        ≡ some (record state {
          mutation_sequence =
              some (law.sequence (restore_opened api address marker items s).1.world);
        })
  unfolding restore_opened release_prepared replace_or_mark call mark
  restore_opened-marks address marker items state e s answers h r =
      let (n, p) = answers s.world in
      let w1 = (api.sequence_number s.world).1 in
      let w2 = (api.replace_contents items w1).1 in
      let (m, q) = answers w2 in
      elim (Bool-cases (n == marker)) [
        | inr other ↦ absurd (ground arith)
        | inl same ↦ elim (Result-cases (api.replace_contents items w1).0) [
          | inl (tt, t) ↦ absurd (ground arith)
          | inr (x, t) ↦
              let f : WindowsClipboardState → WindowsClipboardState =
                λ state'. record state' { mutation_sequence = some m } in
              ground (
                arith,
                lookup-update address f s.heap state h,
                law.number-value w2 m q,
                law.number-sequence w2,
              )
        ]
      ]

  -- What `restore` does with the contents of the clipboard that it opens: contents that are not the
  -- adapter's own it leaves as they are, and it tells that the original is back exactly of contents
  -- that were its own and are the original now.
  pub restore-Owned :
      (address marker : ℕ) (state : WindowsClipboardState) (s : S)
      → lookup address s.heap ≡ some state
      → state.mutation_sequence ≡ some marker
      → (api.enter s.world).0 ≡ ok tt
      → let end : Result Raised RestoreResult × S = restore api (record { state = at address }) s in
        (law.sequence (entered s).world ≢ marker
          → law.contents end.1.world ≡ law.contents (entered s).world)
        × ((result : RestoreResult)
            → end.0 ≡ ok result
            → result.restored ≡ true
            → (law.sequence (entered s).world ≡ marker)
              × (law.contents end.1.world ≡ state.original_items))
  unfolding restore restore_state with_opened call release_prepared
  restore-Owned address marker state s h m e =
      let items = state.original_items in
      let opened = restore_opened-Owned address marker items (entered s) in
      let s1 = (restore_opened api address marker items (entered s)).1 in
      let leave = law.leave-contents s1.world in
      elim (Result-cases (restore_opened api address marker items (entered s)).0) [
        | inr (x, p) ↦ ground (arith, opened, leave)
        | inl (true, p) ↦ ground (arith, opened, leave)
        | inl (false, p) ↦ ground (arith, opened, leave)
      ]

  -- Where `restore` raises although the clipboard opened and its number can be read, the marker is
  -- the number that the clipboard has then: undisturbed,
  -- another `restore` finds the contents its own.
  restore-retry :
      (address marker : ℕ) (state : WindowsClipboardState) (e : Raised) (s : S)
      → ((w : api.World) → (n : ℕ) × ((api.sequence_number w).0 ≡ ok n))
      → lookup address s.heap ≡ some state
      → state.mutation_sequence ≡ some marker
      → (api.enter s.world).0 ≡ ok tt
      → let end : Result Raised RestoreResult × S = restore api (record { state = at address }) s in
        end.0 ≡ err e
        → lookup address end.1.heap
          ≡ some (record state { mutation_sequence = some (law.sequence end.1.world) })
  unfolding restore restore_state with_opened call release_prepared
  restore-retry address marker state e s answers h m o r =
      let items = state.original_items in
      let s1 = (restore_opened api address marker items (entered s)).1 in
      let leave = law.leave-sequence s1.world in
      elim (Result-cases (restore_opened api address marker items (entered s)).0) [
        | inr (x, p) ↦ ground (
          arith,
          restore_opened-marks address marker items state x (entered s) answers h p,
          leave,
        )
        | inl (true, p) ↦ absurd (ground arith)
        | inl (false, p) ↦ absurd (ground arith)
      ]
