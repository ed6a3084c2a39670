-- ===== src/Windows/Clipboard/Ownership/Transaction.antt =====
-- The transaction of windows_clipboard.py: `prepare`, `commit_mutation` and `restore`.
use nadikt.Base.{
  ℕ, true, none, some, List, [], ◌∷◌, ◌++◌, ◌≡◌, refl, ap, sym, ◌∙◌, arith, Bool-cases, inl, inr,
  length, map,
}
use nadikt.Base.Result.{Result-cases, ok}
use nadikt.Insertion.Contracts.{ClipboardPreparation, RestoreResult, exception, interrupt}
use nadikt.Windows.Utf16.{encode_utf_16_le}
use nadikt.Windows.Clipboard.Heap.{lookup, lookup-append}
use nadikt.Windows.Clipboard.{
  ClipboardItems, ClipboardApi, WindowsClipboardState, StateObject, at, ClipboardState, call,
  with_opened, all_supported, clone_formats, prepare_opened, prepare, commit_mutation, restore,
}
use nadikt.Windows.Clipboard.Ownership.{Clipboard, entered, restore-Owned}
use nadikt.Windows.Clipboard.Ownership.Reading.{
  Distinct, Readable, set-fresh, get-middle, append_assoc, append_nil,
}
use nadikt.Windows.Clipboard.Ownership.Commit.{Written, commit-Owned}

module _ (api : ClipboardApi) (law : Clipboard api) (reads : Readable api law) where
  abbrev S : Type 0
  S = ClipboardState api.World

  -- The action changes nothing but the world, and neither contents nor number there.
  abbrev Reading : S → S → Type 0
  Reading before after =
      (after.heap ≡ before.heap)
      × (after.prepared_state ≡ before.prepared_state)
      × (law.contents after.world ≡ law.contents before.world)
      × (law.sequence after.world ≡ law.sequence before.world)

  clone-contents :
      (done rest cloned : ClipboardItems) (s : S)
      → reads.listed (law.contents s.world) ≡ done ++ rest
      → Distinct done rest
      → (clone_formats api (map (λ item. item.0) rest) done s).0 ≡ ok (some cloned)
      → (cloned ≡ reads.listed (law.contents s.world))
        × Reading s (clone_formats api (map (λ item. item.0) rest) done s).1
  unfolding clone_formats call
  clone-contents done [] cloned s h d e = ground (arith, append_nil done)
  clone-contents done ((f, p) ∷ rest) cloned s h d e =
      let s' = record s { world = (api.read_format f s.world).1 } in
      elim (Result-cases (api.read_format f s.world).0) [
        | inr (x, q) ↦ absurd (ground arith)
        | inl (none, q) ↦ absurd (ground arith)
        | inl (some payload, q) ↦
            let v = reads.read-value f s.world payload q in
            let g = get-middle f p done rest d.0 in
            let same : payload ≡ p = ground arith in
            let fresh = set-fresh f p done d.0 in
            let c = reads.read-contents f s.world in
            let n = reads.read-sequence f s.world in
            let same_list = ap reads.listed c in
            let held : reads.listed (law.contents s'.world) ≡ (done ++ (f, p) ∷ []) ++ rest =
              same_list ∙ h ∙ sym (append_assoc done (f, p) rest) in
            let ih = clone-contents (done ++ (f, p) ∷ []) rest cloned s' held d.1 (ground arith) in
            ground (arith, ih)
      ]

  clone-listed :
      (formats : List ℕ) (cloned : ClipboardItems) (s : S)
      → formats ≡ map (λ item. item.0) (reads.listed (law.contents s.world))
      → (clone_formats api formats [] s).0 ≡ ok (some cloned)
      → (cloned ≡ reads.listed (law.contents s.world))
        × Reading s (clone_formats api formats [] s).1
  clone-listed formats cloned s f e =
      let g =
        clone-contents [] (reads.listed (law.contents s.world)) cloned s refl
          (reads.listed-Distinct s.world) in
      rw f (g (rw (← f) e))

  prepare_opened-clones :
      (n : ℕ) (cloned : ClipboardItems) (s : S)
      → (prepare_opened api s).0 ≡ ok (n, some cloned)
      → (n ≡ law.sequence s.world)
        × (cloned ≡ reads.listed (law.contents s.world))
        × Reading s (prepare_opened api s).1
  unfolding prepare_opened call
  prepare_opened-clones n cloned s e =
      let w1 = (api.sequence_number s.world).1 in
      let s2 = record s { world = (api.list_formats w1).1 } in
      elim (Result-cases (api.sequence_number s.world).0) [
        | inr (x, p) ↦ absurd (ground arith)
        | inl (m, p) ↦ elim (Result-cases (api.list_formats w1).0) [
          | inr (x, q) ↦ absurd (ground arith)
          | inl (formats, q) ↦ elim (Bool-cases (all_supported formats)) [
            | inr unsupported ↦ absurd (ground arith)
            | inl all ↦
                let number = law.number-value s.world m p in
                let c1 = law.number-contents s.world in
                let n1 = law.number-sequence s.world in
                let c2 = reads.list-contents w1 in
                let n2 = reads.list-sequence w1 in
                let same_list = ap reads.listed (c2 ∙ c1) in
                let listed : formats ≡ map (λ item. item.0) (reads.listed (law.contents s2.world)) =
                  rw c2 (reads.list-value w1 formats q) in
                let clones = clone-listed formats cloned s2 listed in
                elim (Result-cases (clone_formats api formats [] s2).0) [
                  | inr (x, r) ↦ absurd (ground arith)
                  | inl (none, r) ↦ absurd (ground arith)
                  | inl (some items, r) ↦ ground (arith, clones (ground arith))
                ]
          ]
        ]
      ]

  -- What `prepare` keeps of a clipboard.
  abbrev pub Kept : S → WindowsClipboardState
  Kept s = record {
    original_items = reads.listed (law.contents s.world);
    sequence_before_mutation = law.sequence s.world;
    mutation_sequence = none;
  }

  prepare-Kept :
      (prep : ClipboardPreparation StateObject) (s : S)
      → (prepare api s).0 ≡ ok prep
      → prep.is_safe ≡ true
      → let after = (prepare api s).1 in
        (prep.snapshot ≡ some (record { state = at (length s.heap) }))
        × (after.prepared_state ≡ some (length s.heap))
        × (lookup (length s.heap) after.heap ≡ some (Kept (entered api law s)))
        × (law.contents after.world ≡ law.contents (entered api law s).world)
  unfolding prepare with_opened call
  prepare-Kept prep s e safe = elim (Result-cases (api.enter s.world).0) [
    | inr (exception, p) ↦ absurd (ground arith)
    | inr (interrupt, p) ↦ absurd (ground arith)
    | inl (done, p) ↦
        let s1 = entered api law s in
        let s2 = (prepare_opened api s1).1 in
        elim (Result-cases (prepare_opened api s1).0) [
          | inr (exception, q) ↦ absurd (ground arith)
          | inr (interrupt, q) ↦ absurd (ground arith)
          | inl ((n, none), q) ↦ absurd (ground arith)
          | inl ((n, some cloned), q) ↦
              let clones = prepare_opened-clones n cloned s1 q in
              ground (arith, clones, law.leave-contents s2.world, lookup-append s.heap (Kept s1))
        ]
  ]

  -- The three calls one after another, each on a clipboard that opens: where `prepare` finds it
  -- safe, `commit_mutation` succeeds and `restore` of the snapshot tells that the original is back,
  -- each format that could be listed and read at `prepare` is placed in the end, so that the same can
  -- be listed and read as then, also where the system makes formats of others; and in between the
  -- text alone was placed.
  pub prepare-commit_mutation-restore :
      (text : List ℕ) (prep : ClipboardPreparation StateObject) (result : RestoreResult) (s : S)
      → let first = prepare api s in
        let second = commit_mutation api text first.1 in
        let third = restore api (record { state = at (length s.heap) }) second.1 in
        first.0 ≡ ok prep
        → prep.is_safe ≡ true
        → (api.enter first.1.world).0 ≡ ok tt
        → second.0 ≡ ok tt
        → (api.enter second.1.world).0 ≡ ok tt
        → third.0 ≡ ok result
        → result.restored ≡ true
        → (prep.snapshot ≡ some (record { state = at (length s.heap) }))
          × (law.contents third.1.world ≡ reads.listed (law.contents (entered api law s).world))
          × (reads.listed (law.contents third.1.world)
              ≡ reads.listed (law.contents (entered api law s).world))
          × ((encoded : List ℕ) × (encode_utf_16_le text ≡ some encoded)
              × (law.contents second.1.world ≡ Written encoded))
  prepare-commit_mutation-restore text prep result s p safe o q o' r restored =
      let first = (prepare api s).1 in
      let second = (commit_mutation api text first).1 in
      let kept = prepare-Kept prep s p safe in
      let state = Kept (entered api law s) in
      let committed = (commit-Owned api law text (length s.heap) state first kept.1 kept.2 o).1 q in
      let marked : WindowsClipboardState = record state {
        mutation_sequence = some (law.sequence second.world);
      } in
      let back =
        (restore-Owned api law (length s.heap) (law.sequence second.world) marked second committed.2
            refl o').1
          result r restored in
      let again = reads.listed-listed (law.contents (entered api law s).world) in
      (kept.0, back.1, ap reads.listed back.1 ∙ again, committed.1)
