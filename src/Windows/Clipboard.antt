-- ===== src/Windows/Clipboard.antt =====
-- experiments/windows_insertion/insertion_spike/windows_clipboard.py: `WindowsClipboardAdapter`.
-- `ClipboardApi` is a protocol, so it is a parameter on a world, with the `close` that it may have;
-- `with opened()` calls `enter`, and `leave` in any case. The states stand in a heap, since a
-- snapshot and the adapter share one.
pub mod Items
pub mod Heap
pub mod System
pub mod Ownership
pub mod Locks
pub mod Memory
pub mod Listing
pub mod Unencodable
use nadikt.Base.{
  ℕ, zero, suc, Bool, true, false, not, Option, none, some, List, [], ◌∷◌, ◌++◌, length, ◌==◌,
  if◌then◌else◌, ◌||◌,
}
use nadikt.Base.Result.{Result, ok, err}
use nadikt.Base.Exec.{Exec, pure, raise, finally, ◌>>=◌, ◌>>◌}
use nadikt.Insertion.Contracts.{
  OutcomeCode, ClipboardSnapshot, ClipboardPreparation, RestoreResult, Raised, exception, interrupt,
}
use nadikt.Windows.Utf16.{encode_utf_16_le}
unfoldable pub use Items.{cf_unicodetext, is_supported, ClipboardItems, set_item, all_supported}
use Heap.{lookup, update}

pub record ClipboardApi : Type 1 where
  pub World : Type 0
  pub enter : Exec Raised World (Unit {0})
  pub leave : World → World
  pub sequence_number : Exec Raised World ℕ
  pub list_formats : Exec Raised World (List ℕ)
  pub read_format : ℕ → Exec Raised World (Option (List ℕ))
  pub replace_contents : ClipboardItems → Exec Raised World (Unit {0})
  pub close : Option (Exec Raised World (Unit {0}))

pub record WindowsClipboardState : Type 0 where
  pub original_items : ClipboardItems
  pub sequence_before_mutation : ℕ
  pub mutation_sequence : Option ℕ

-- The state of a snapshot: one of the adapter's states by its address, or any other object.
pub data StateObject : Type 0 where
  at : (address : ℕ) → StateObject
  foreign : StateObject

pub record ClipboardState (W : Type 0) : Type 0 where
  pub heap : List WindowsClipboardState
  pub prepared_state : Option ℕ
  pub world : W

abbrev unsafe : ClipboardPreparation StateObject
unsafe = record { is_safe = false; snapshot = none; code = some OutcomeCode.clipboard_unsafe }

module _ (api : ClipboardApi) where
  abbrev pub K : Type 0 → Type 0
  K R = Exec Raised (ClipboardState api.World) R

  unfoldable pub call : {R : Type 0} → Exec Raised api.World R → K R
  call op s = let (r, w) = op s.world in (r, record s { world = w })

  unfoldable pub with_opened : {R : Type 0} → K R → K R
  unfolding call
  with_opened body = do call api.enter; finally body (λ s. record s { world = api.leave s.world })

  -- `state.mutation_sequence = marker`
  unfoldable pub mark : (address marker : ℕ) → ClipboardState api.World → ClipboardState api.World
  mark address marker s = record s {
    heap = update address (λ state. record state { mutation_sequence = some marker }) s.heap;
  }

  unfoldable pub release_prepared : K (Unit {0})
  release_prepared s = (ok tt, record s { prepared_state = none })

  -- The loop of `prepare` over the formats; nothing where one cannot be read.
  unfoldable pub clone_formats : List ℕ → ClipboardItems → K (Option ClipboardItems)
  unfolding call set_item
  clone_formats [] cloned = pure (some cloned)
  clone_formats (format ∷ formats) cloned = do
    payload ← call (api.read_format format)
    elim payload [ none ↦ pure none | some p ↦ clone_formats formats (set_item format p cloned) ]

  -- The body of `prepare` while the clipboard is open.
  unfoldable pub prepare_opened : K (ℕ × Option ClipboardItems)
  unfolding call clone_formats all_supported
  prepare_opened = do
    sequence ← call api.sequence_number
    formats ← call api.list_formats
    cloned ← (elim (all_supported formats) [ true ↦ clone_formats formats [] | false ↦ pure none ])
    pure (sequence, cloned)

  unfoldable pub prepare : K (ClipboardPreparation StateObject)
  unfolding with_opened prepare_opened
  prepare s =
      let (r, s') = with_opened prepare_opened s in
      elim r [
        | err exception ↦ (ok unsafe, s')
        | err interrupt ↦ (err interrupt, s')
        | ok (sequence, none) ↦ (ok unsafe, s')
        | ok (sequence, some cloned) ↦
            let address = length s'.heap in
            let state : WindowsClipboardState = record {
              original_items = cloned;
              sequence_before_mutation = sequence;
              mutation_sequence = none;
            } in
            (
              ok (record {
                is_safe = true;
                snapshot = some (record { state = at address });
                code = none;
              }),
              record s' { heap = s'.heap ++ state ∷ []; prepared_state = some address },
            )
      ]

  -- `except BaseException: raise ClipboardAccessError`
  unfoldable pub access_error : {R : Type 0} → Result Raised R → Result Raised R
  access_error (ok a) = ok a
  access_error (err e) = err exception

  -- `try: replace_contents(...)`, with the new marker written `finally`.
  unfoldable pub replace_marked : (address : ℕ) → ClipboardItems → K (Unit {0})
  unfolding call mark
  replace_marked address items s =
      let (r, s1) = call (api.replace_contents items) s in
      let (q, s2) = call api.sequence_number s1 in
      elim q [ err e ↦ (err e, s2) | ok marker ↦ (r, mark address marker s2) ]

  -- The body of `commit_mutation` while the clipboard is open.
  unfoldable pub commit_opened : (address before : ℕ) → ClipboardItems → K (Unit {0})
  unfolding call replace_marked
  commit_opened address before items = do
    sequence ← call api.sequence_number
    (elim (sequence == before) [ true ↦ replace_marked address items | false ↦ raise exception ])

  -- `commit_mutation` for a prepared state and its encoded text.
  unfoldable pub commit_encoded : (address before : ℕ) → List ℕ → K (Unit {0})
  unfolding mark with_opened commit_opened access_error
  commit_encoded address before encoded s =
      let (r, s') =
        with_opened (commit_opened address before ((cf_unicodetext, encoded ++ 0 ∷ 0 ∷ []) ∷ []))
          (mark address before s) in
      (access_error r, s')

  unfoldable pub commit_mutation : List ℕ → K (Unit {0})
  unfolding commit_encoded encode_utf_16_le lookup
  commit_mutation text s = elim s.prepared_state [
    | none ↦ (err exception, s)
    | some address ↦ elim (lookup address s.heap) [
      | none ↦ (err exception, s)
      | some state ↦ elim (encode_utf_16_le text) [
        | none ↦ (err exception, s)
        | some encoded ↦ commit_encoded address state.sequence_before_mutation encoded s
      ]
    ]
  ]

  -- `try: replace_contents(...)`, with the new marker written on a failure.
  unfoldable pub replace_or_mark : (address : ℕ) → ClipboardItems → K (Unit {0})
  unfolding call mark
  replace_or_mark address items s =
      let (r, s1) = call (api.replace_contents items) s in
      elim r [
        | ok done ↦ (ok done, s1)
        | err e ↦
            let (q, s2) = call api.sequence_number s1 in
            elim q [ err e' ↦ (err e', s2) | ok marker ↦ (err e, mark address marker s2) ]
      ]

  -- The body of `restore` while the clipboard is open; whether the contents were written.
  unfoldable pub restore_opened : (address marker : ℕ) → ClipboardItems → K Bool
  unfolding call release_prepared replace_or_mark
  restore_opened address marker items = do
    sequence ← call api.sequence_number
    (elim (sequence == marker) [
      | true ↦ (replace_or_mark address items >> pure true)
      | false ↦ (release_prepared >> pure false)
    ])

  -- `restore` for a state and its marker.
  unfoldable pub restore_state : (address marker : ℕ) → ClipboardItems → K RestoreResult
  unfolding with_opened restore_opened release_prepared
  restore_state address marker items s =
      let (r, s') = with_opened (restore_opened address marker items) s in
      elim r [
        | err e ↦ (err exception, s')
        | ok true ↦
            (ok (record { restored = true; external_change = false }), (release_prepared s').1)
        | ok false ↦ (ok (record { restored = false; external_change = true }), s')
      ]

  unfoldable pub restore : ClipboardSnapshot StateObject → K RestoreResult
  unfolding restore_state lookup
  restore snapshot s = elim snapshot.state [
    | foreign ↦ (err exception, s)
    | at address ↦ elim (lookup address s.heap) [
      | none ↦ (err exception, s)
      | some state ↦ elim state.mutation_sequence [
        | none ↦ (err exception, s)
        | some marker ↦ restore_state address marker state.original_items s
      ]
    ]
  ]

  unfoldable pub discard : ClipboardSnapshot StateObject → K (Unit {0})
  discard snapshot s = elim snapshot.state [
    | foreign ↦ (err exception, s)
    | at address ↦ elim s.prepared_state [
      | none ↦ (ok tt, s)
      | some prepared ↦
          (ok tt, if prepared == address then record s { prepared_state = none } else s)
    ]
  ]

  unfoldable pub close : K (Unit {0})
  unfolding call
  close s = elim api.close [ none ↦ (ok tt, s) | some op ↦ call op s ]
