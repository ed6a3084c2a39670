-- ===== src/Windows/Clipboard/Locks.antt =====
-- What windows_clipboard.py does with the memory that it locks.
use nadikt.Base.{
  ℕ, zero, suc, ◌+◌, length, Bool, true, false, List, [], ◌∷◌, ◌++◌, ◌≡◌, arith, inl, inr, ◌==◌,
  if◌then◌else◌,
}
use nadikt.Base.Result.{Result-cases}
use nadikt.Insertion.Contracts.{exception, interrupt}
use nadikt.Windows.Clipboard.{ClipboardItems}
use nadikt.Windows.Clipboard.System.{
  ClipboardSystem, MemoryEvent, allocated, locked, unlocked, MemoryState, Handles, ask, tell, note,
  global_lock, global_unlock, global_free, read_locked, read_format, fill, allocate_bytes, free_all,
  allocate_all, place_all, place, replace_attempts,
}

abbrev pub one : Bool → ℕ
one b = if b then 1 else 0

-- How often a handle was locked, and how often it was unlocked.
abbrev pub locks : ℕ → List MemoryEvent → ℕ
locks h [] = 0
locks h (locked x ∷ log) = one (x == h) + locks h log
locks h (_ ∷ log) = locks h log

abbrev pub unlocks : ℕ → List MemoryEvent → ℕ
unlocks h [] = 0
unlocks h (unlocked x ∷ log) = one (x == h) + unlocks h log
unlocks h (_ ∷ log) = unlocks h log

module _ (sys : ClipboardSystem) where
  abbrev S : Type 0
  S = MemoryState sys.World

  -- From the first state to the second, as often locked as unlocked.
  abbrev pub Unlocks : ℕ → S → S → Type 0
  Unlocks h before after =
      locks h after.log + unlocks h before.log ≡ locks h before.log + unlocks h after.log

  pub read_format-Unlocks : (h format : ℕ) (s : S) → Unlocks h s (read_format sys format s).1
  unfolding read_format read_locked global_lock global_unlock ask tell note
  read_format-Unlocks h format s = ground arith

  fill-Unlocks :
      (h handle : ℕ) (payload : List ℕ) (s : S) → Unlocks h s (fill sys handle payload s).1
  unfolding fill global_lock global_unlock global_free ask tell note
  fill-Unlocks h handle payload s =
      let (pointer, w) = sys.global_lock handle s.world in
      elim (Result-cases (sys.memmove pointer payload w).0) [
        | inl (moved, p) ↦ ground arith
        | inr (e, p) ↦ ground arith
      ]

  allocate_bytes-Unlocks :
      (h : ℕ) (payload : List ℕ) (s : S) → Unlocks h s (allocate_bytes sys payload s).1
  unfolding allocate_bytes ask note
  allocate_bytes-Unlocks h payload s =
      let (handle, w) = sys.global_alloc (length payload) s.world in
      let s1 = record s { world = w; log = allocated handle ∷ s.log } in
      ground (arith, fill-Unlocks h handle payload s1)

  free_all-Unlocks : (h : ℕ) (handles : Handles) (s : S) → Unlocks h s (free_all sys handles s).1
  unfolding free_all global_free tell note
  free_all-Unlocks h [] s = ground arith
  free_all-Unlocks h ((f, x) ∷ handles) s = grind (arith, free_all-Unlocks h handles)

  allocate_all-Unlocks :
      (h : ℕ) (items : ClipboardItems) (handles : Handles) (s : S)
      → Unlocks h s (allocate_all sys items handles s).1
  unfolding allocate_all
  allocate_all-Unlocks h [] handles s = ground arith
  allocate_all-Unlocks h ((f, payload) ∷ items) handles s =
      let s1 = (allocate_bytes sys payload s).1 in
      let bytes = allocate_bytes-Unlocks h payload s in
      elim (Result-cases (allocate_bytes sys payload s).0) [
        | inl (x, p) ↦
            let ih = allocate_all-Unlocks h items (handles ++ (f, x) ∷ []) s1 in
            ground (arith, bytes, ih)
        | inr (exception, p) ↦ ground (arith, bytes, free_all-Unlocks h handles s1)
        | inr (interrupt, p) ↦ ground (arith, bytes)
      ]

  place_all-Unlocks : (h : ℕ) (handles : Handles) (s : S) → Unlocks h s (place_all sys handles s).1
  unfolding place_all ask note
  place_all-Unlocks h [] s = ground arith
  place_all-Unlocks h ((f, x) ∷ handles) s = grind (arith, place_all-Unlocks h handles)

  place-Unlocks : (h : ℕ) (handles : Handles) (s : S) → Unlocks h s (place sys handles s).1
  unfolding place ask
  place-Unlocks h handles s =
      ground
        (arith, place_all-Unlocks h handles (record s { world = (sys.empty_clipboard s.world).1 }))

  pub replace_attempts-Unlocks :
      (h attempts : ℕ) (items : ClipboardItems) (s : S)
      → Unlocks h s (replace_attempts sys attempts items s).1
  unfolding replace_attempts
  replace_attempts-Unlocks h zero items s = ground arith
  replace_attempts-Unlocks h (suc attempts) items s =
      let s1 = (allocate_all sys items [] s).1 in
      let all = allocate_all-Unlocks h items [] s in
      elim (Result-cases (allocate_all sys items [] s).0) [
        | inr (e, p) ↦ ground (arith, all)
        | inl (handles, p) ↦
            let s2 = (place sys handles s1).1 in
            let placed = place-Unlocks h handles s1 in
            elim (Result-cases (place sys handles s1).0) [
              | inr (e, q) ↦ ground (arith, all, placed)
              | inl ((true, rest), q) ↦ ground (arith, all, placed)
              | inl ((false, rest), q) ↦
                  let s3 = (free_all sys rest s2).1 in
                  let freed = free_all-Unlocks h rest s2 in
                  let ih = replace_attempts-Unlocks h attempts items s3 in
                  elim (Result-cases (free_all sys rest s2).0) [
                    | inl (u, r) ↦ ground (arith, all, placed, freed, ih)
                    | inr (e, r) ↦ ground (arith, all, placed, freed)
                  ]
            ]
      ]
