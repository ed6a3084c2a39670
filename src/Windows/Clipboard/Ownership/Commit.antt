-- ===== src/Windows/Clipboard/Ownership/Commit.antt =====
-- `commit_mutation` of windows_clipboard.py.
use nadikt.Base.{
  ℕ, none, some, List, [], ◌∷◌, ◌++◌, ◌≡◌, ◌≢◌, arith, Bool-cases, Option-cases, inl, inr, ◌==◌,
}
use nadikt.Base.Result.{Result-cases, ok}
use nadikt.Windows.Utf16.{encode_utf_16_le}
use nadikt.Windows.Clipboard.Heap.{lookup, lookup-update}
use nadikt.Windows.Clipboard.{
  ClipboardItems, ClipboardApi, WindowsClipboardState, ClipboardState, call, with_opened, mark,
  access_error, replace_marked, commit_opened, commit_encoded, commit_mutation, cf_unicodetext,
}
use nadikt.Windows.Clipboard.Ownership.{Clipboard, entered}

-- What `commit_mutation` writes for an encoded text.
abbrev pub Written : List ℕ → ClipboardItems
Written encoded = (cf_unicodetext, encoded ++ 0 ∷ 0 ∷ []) ∷ []

module _ (api : ClipboardApi) (law : Clipboard api) where
  abbrev S : Type 0
  S = ClipboardState api.World

  commit_opened-Owned :
      (address before : ℕ) (items : ClipboardItems) (state : WindowsClipboardState) (s : S)
      → lookup address s.heap ≡ some state
      → (commit_opened api address before items s).0 ≡ ok tt
      → let after = (commit_opened api address before items s).1 in
        (law.sequence s.world ≡ before)
        × (law.contents after.world ≡ items)
        × (lookup address after.heap
            ≡ some (record state { mutation_sequence = some (law.sequence after.world) }))
  unfolding commit_opened replace_marked call mark
  commit_opened-Owned address before items state s h e =
      let w1 = (api.sequence_number s.world).1 in
      let w2 = (api.replace_contents items w1).1 in
      elim (Result-cases (api.sequence_number s.world).0) [
        | inr (x, p) ↦ absurd (ground arith)
        | inl (n, p) ↦
            let v = law.number-value s.world n p in
            elim (Bool-cases (n == before)) [
              | inr other ↦ absurd (ground arith)
              | inl same ↦ elim (Result-cases (api.replace_contents items w1).0) [
                | inr (x, q) ↦ elim (Result-cases (api.sequence_number w2).0) [
                  | inr (y, r) ↦ absurd (ground arith)
                  | inl (m, r) ↦ absurd (ground arith)
                ]
                | inl (done, q) ↦ elim (Result-cases (api.sequence_number w2).0) [
                  | inr (y, r) ↦ absurd (ground arith)
                  | inl (m, r) ↦
                      let f : WindowsClipboardState → WindowsClipboardState =
                        λ state'. record state' { mutation_sequence = some m } in
                      ground (
                        arith,
                        v,
                        law.replace-contents items w1 q,
                        law.number-value w2 m r,
                        law.number-sequence w2,
                        law.number-contents w2,
                        lookup-update address f s.heap state h,
                      )
                ]
              ]
            ]
      ]

  commit_opened-foreign :
      (address before : ℕ) (items : ClipboardItems) (s : S)
      → law.sequence s.world ≢ before
      → let after = (commit_opened api address before items s).1 in
        (law.contents after.world ≡ law.contents s.world) × (after.heap ≡ s.heap)
  unfolding commit_opened replace_marked call mark
  commit_opened-foreign address before items s h =
      let c = law.number-contents s.world in
      elim (Result-cases (api.sequence_number s.world).0) [
        | inr (x, p) ↦ ground (arith, c)
        | inl (n, p) ↦
            let v = law.number-value s.world n p in
            elim (Bool-cases (n == before)) [
              | inl same ↦ absurd (ground arith)
              | inr other ↦ ground (arith, c)
            ]
      ]

  -- What `commit_mutation` does with the contents of the clipboard that it opens, for the prepared
  -- state: where they are not those that were prepared it leaves them and raises. Where it succeeds,
  -- they were, the clipboard holds the text alone, and the number that it has now marks the state.
  pub commit-Owned :
      (text : List ℕ) (address : ℕ) (state : WindowsClipboardState) (s : S)
      → s.prepared_state ≡ some address
      → lookup address s.heap ≡ some state
      → (api.enter s.world).0 ≡ ok tt
      → let end = commit_mutation api text s in
        (law.sequence (entered api law s).world ≢ state.sequence_before_mutation
          → encode_utf_16_le text ≢ none
          → (law.contents end.1.world ≡ law.contents (entered api law s).world) × (end.0 ≢ ok tt))
        × (end.0 ≡ ok tt
            → (law.sequence (entered api law s).world ≡ state.sequence_before_mutation)
              × ((encoded : List ℕ) × (encode_utf_16_le text ≡ some encoded)
                  × (law.contents end.1.world ≡ Written encoded))
              × (lookup address end.1.heap
                  ≡ some (record state { mutation_sequence = some (law.sequence end.1.world) })))
  unfolding commit_mutation commit_encoded with_opened call mark access_error
  commit-Owned text address state s p h o = elim (Option-cases (encode_utf_16_le text)) [
    | inl none_encoded ↦
        (λ other is_text. absurd (is_text none_encoded), λ e. absurd (ground arith))
    | inr (encoded, q) ↦
        let before = state.sequence_before_mutation in
        let f : WindowsClipboardState → WindowsClipboardState =
          λ state'. record state' { mutation_sequence = some before } in
        let s1 = record (mark api address before s) { world = (api.enter s.world).1 } in
        let known : lookup address s1.heap ≡ some (f state) =
          lookup-update address f s.heap state h in
        let body = commit_opened api address before (Written encoded) s1 in
        let owned = commit_opened-Owned address before (Written encoded) (f state) s1 known in
        let others = commit_opened-foreign address before (Written encoded) s1 in
        let c = law.leave-contents body.1.world in
        let n = law.leave-sequence body.1.world in
        elim (Result-cases body.0) [
          | inr (x, r) ↦
              (λ other is_text. ground (arith, others other, c), λ e. absurd (ground arith))
          | inl (done, r) ↦ (
            λ other is_text. absurd (other (owned r).0),
            λ e.
                ((owned r).0, (encoded, q, ground (arith, owned r, c)), ground (arith, owned r, n)),
          )
        ]
  ]
