-- ===== src/Windows/Clipboard/System/Calls.antt =====
-- What windows_clipboard.py asks of user32 and kernel32, and what is recorded of it.
use nadikt.Base.{ℕ, Bool, List}
use nadikt.Base.Exec.{Exec}
use nadikt.Insertion.Contracts.{Raised}

pub record ClipboardSystem : Type 1 where
  pub World : Type 0
  pub open_clipboard : (window : ℕ) → World → Bool × World
  pub close_clipboard : World → World
  pub sleep : ℕ → Exec Raised World (Unit {0})
  pub get_clipboard_sequence_number : World → ℕ × World
  pub set_last_error : ℕ → World → World
  pub get_last_error : World → ℕ
  pub enum_clipboard_formats : ℕ → World → ℕ × World
  pub get_clipboard_data : ℕ → World → ℕ × World
  pub global_size : ℕ → World → ℕ × World
  pub global_lock : ℕ → World → ℕ × World
  pub global_unlock : ℕ → World → World
  pub string_at : (pointer size : ℕ) → World → List ℕ
  pub empty_clipboard : World → Bool × World
  pub set_clipboard_data : (format handle : ℕ) → World → ℕ × World
  pub global_alloc : (size : ℕ) → World → ℕ × World
  pub global_free : ℕ → World → World
  pub memmove : (pointer : ℕ) → List ℕ → Exec Raised World (Unit {0})
  pub create_window : World → ℕ × World
  pub destroy_window : ℕ → World → World

-- A handle is given where the clipboard takes it over, and torn where `memmove` to its memory raised.
pub data MemoryEvent : Type 0 where
  allocated freed given torn locked unlocked : ℕ → MemoryEvent

pub record MemoryState (W : Type 0) : Type 0 where
  pub owner_window : ℕ
  pub world : W
  pub log : List MemoryEvent

abbrev pub Handles : Type 0
Handles = List (ℕ × ℕ)
