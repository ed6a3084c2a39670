-- ===== src/Windows/Clipboard/Listing.antt =====
-- The fuel of `list_formats` of windows_clipboard.py.
use nadikt.Base.{ℕ, zero, suc, ◌<◌, some, List, [], ◌∷◌, ◌≡◌, ◌≢◌, arith, length}
use nadikt.Base.Result.{ok}
use nadikt.Windows.Clipboard.System.{ClipboardSystem, MemoryState, tell, list_from, list_formats}

module _ (sys : ClipboardSystem) where
  -- From one format on, the system enumerates these, and then no other and no error.
  abbrev Enumerates : (formats : List ℕ) (current : ℕ) → sys.World → Type 0
  Enumerates [] current w =
      let (next, w') = sys.enum_clipboard_formats current w in
      (next ≡ 0) × (sys.get_last_error w' ≡ 0)
  Enumerates (format ∷ formats) current w =
      let (next, w') = sys.enum_clipboard_formats current w in
      (next ≡ format) × (format ≢ 0) × Enumerates formats format w'

  list_from-Enumerates :
      (formats : List ℕ) (fuel current : ℕ) (s : MemoryState sys.World)
      → length formats < fuel
      → Enumerates formats current s.world
      → (list_from sys fuel current s).0 ≡ ok (some formats)
  unfolding list_from
  list_from-Enumerates formats zero current s l h = absurd (omega arith)
  list_from-Enumerates [] (suc fuel) current s l h = ground arith
  list_from-Enumerates (format ∷ formats) (suc fuel) current s l h =
      let s' = record s { world = (sys.enum_clipboard_formats current s.world).1 } in
      ground (arith, list_from-Enumerates formats fuel format s' (omega arith) h.2)

  -- Where the system enumerates finitely many formats, any fuel above their number gives them all.
  list_formats-Enumerates :
      (formats : List ℕ) (fuel : ℕ) (s : MemoryState sys.World)
      → length formats < fuel
      → Enumerates formats 0 (sys.set_last_error 0 s.world)
      → (list_formats sys fuel s).0 ≡ ok (some formats)
  unfolding list_formats tell
  list_formats-Enumerates formats fuel s l h =
      list_from-Enumerates formats fuel 0 (record s { world = sys.set_last_error 0 s.world }) l h
