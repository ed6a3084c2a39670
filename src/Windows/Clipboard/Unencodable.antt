-- ===== src/Windows/Clipboard/Unencodable.antt =====
-- A text of windows_clipboard.py that has no encoding.
use nadikt.Base.{ℕ, none, some, List, ◌≡◌, arith, any_of, true}
use nadikt.Base.Result.{err}
use nadikt.Insertion.Contracts.{exception}
use nadikt.Windows.Utf16.{is_surrogate}
use nadikt.Windows.Utf16.RoundTrip.{encode-IsNone}
use nadikt.Windows.Clipboard.Heap.{lookup}
use nadikt.Windows.Clipboard.{
  ClipboardApi, WindowsClipboardState, at, ClipboardState, commit_mutation, restore,
}

module _ (api : ClipboardApi) where
  -- For a prepared state without a marker and a text with a surrogate, `commit_mutation` raises
  -- without a call of the system and leaves the state without a marker, so that `restore` of its
  -- snapshot raises too, and would in any world.
  commit_mutation-surrogate :
      (text : List ℕ) (address : ℕ) (state : WindowsClipboardState) (s : ClipboardState api.World)
      → any_of is_surrogate text ≡ true
      → s.prepared_state ≡ some address
      → lookup address s.heap ≡ some state
      → state.mutation_sequence ≡ none
      → (commit_mutation api text s ≡ (err exception, s))
        × ((w : api.World)
            → let t : ClipboardState api.World = record s { world = w } in
              restore api (record { state = at address }) t ≡ (err exception, t))
  unfolding commit_mutation restore
  commit_mutation-surrogate text address state s surrogate p h m =
      let e = encode-IsNone text surrogate in (ground (arith, e), λ w. ground arith)
