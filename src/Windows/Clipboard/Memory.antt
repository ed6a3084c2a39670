-- ===== src/Windows/Clipboard/Memory.antt =====
-- What windows_clipboard.py does with the memory that it allocates and locks.
use nadikt.Base.{ℕ, ◌+◌, List, [], ◌∷◌, ◌≡◌, ◌==◌}
use nadikt.Windows.Clipboard.System.{
  ClipboardSystem, MemoryEvent, allocated, freed, given, torn, MemoryState, Handles,
}
use nadikt.Windows.Clipboard.Locks.{one}

-- How often a handle was allocated, and how often it was freed, given away or torn.
abbrev pub taken : ℕ → List MemoryEvent → ℕ
taken h [] = 0
taken h (allocated x ∷ log) = one (x == h) + taken h log
taken h (_ ∷ log) = taken h log

abbrev pub returned : ℕ → List MemoryEvent → ℕ
returned h [] = 0
returned h (freed x ∷ log) = one (x == h) + returned h log
returned h (given x ∷ log) = one (x == h) + returned h log
returned h (torn x ∷ log) = one (x == h) + returned h log
returned h (_ ∷ log) = returned h log

-- How often a handle is among those still to be returned.
abbrev owed : ℕ → Handles → ℕ
owed h [] = 0
owed h ((format, x) ∷ handles) = one (x == h) + owed h handles

module _ (sys : ClipboardSystem) where
  abbrev S : Type 0
  S = MemoryState sys.World

  -- From the first state to the second, `d` more times taken than returned.
  abbrev pub Owes : (h d : ℕ) → S → S → Type 0
  Owes h d before after =
      taken h after.log + returned h before.log ≡ taken h before.log + returned h after.log + d
