-- ===== src/Windows/Clipboard/Items.antt =====
-- The formats of windows_clipboard.py and the dict of their contents.
use nadikt.Base.{ℕ, Bool, true, false, ◌||◌, List, [], ◌∷◌, ◌==◌, if◌then◌else◌}

abbrev pub cf_unicodetext : ℕ
cf_unicodetext = 13

-- Membership in `SUPPORTED_FORMATS`.
unfoldable pub is_supported : ℕ → Bool
is_supported format = format == 8 || format == cf_unicodetext || format == 15 || format == 17

-- `dict[int, bytes]`, in insertion order.
abbrev pub ClipboardItems : Type 0
ClipboardItems = List (ℕ × List ℕ)

-- `cloned[format_id] = bytes(payload)`
unfoldable pub set_item : ℕ → List ℕ → ClipboardItems → ClipboardItems
set_item format payload [] = (format, payload) ∷ []
set_item format payload ((f, p) ∷ items) = elim (f == format) [
  | true ↦ (f, payload) ∷ items
  | false ↦ (f, p) ∷ set_item format payload items
]

unfoldable pub all_supported : List ℕ → Bool
unfolding is_supported
all_supported [] = true
all_supported (format ∷ formats) =
    let rest = all_supported formats in if is_supported format then rest else false
