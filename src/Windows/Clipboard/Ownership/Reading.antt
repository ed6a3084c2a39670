-- ===== src/Windows/Clipboard/Ownership/Reading.antt =====
-- What windows_clipboard.py can read of a clipboard.
use nadikt.Base.{
  ℕ, true, false, Option, none, some, List, [], ◌∷◌, ◌++◌, ◌≡◌, refl, arith, ◌==◌, map,
}
use nadikt.Base.Result.{ok}
use nadikt.Windows.Clipboard.{ClipboardItems, ClipboardApi, set_item}
use nadikt.Windows.Clipboard.Ownership.{Clipboard}

unfoldable pub get_item : ℕ → ClipboardItems → Option (List ℕ)
get_item format [] = none
get_item format ((f, p) ∷ items) = elim (f == format) [
  | true ↦ some p
  | false ↦ get_item format items
]

-- No format of the second part stands twice, or in the first part.
abbrev pub Distinct : ClipboardItems → ClipboardItems → Type 0
Distinct done [] = Unit
Distinct done ((f, p) ∷ rest) = (get_item f done ≡ none) × Distinct (done ++ (f, p) ∷ []) rest

-- What can be listed and read where certain formats were placed, each format once: these, and those
-- that the system makes of them, as of a text its other text formats. Where all of these are placed
-- nothing more is listed.
pub record Readable (api : ClipboardApi) (law : Clipboard api) : Type 0 where
  pub listed : ClipboardItems → ClipboardItems
  pub listed-listed : (items : ClipboardItems) → listed (listed items) ≡ listed items
  pub listed-Distinct : (w : api.World) → Distinct [] (listed (law.contents w))
  pub list-contents : (w : api.World) → law.contents (api.list_formats w).1 ≡ law.contents w
  pub list-sequence : (w : api.World) → law.sequence (api.list_formats w).1 ≡ law.sequence w
  pub list-value :
      (w : api.World) (formats : List ℕ)
      → (api.list_formats w).0 ≡ ok formats
      → formats ≡ map (λ item. item.0) (listed (law.contents w))
  pub read-contents :
      (f : ℕ) (w : api.World) → law.contents (api.read_format f w).1 ≡ law.contents w
  pub read-sequence :
      (f : ℕ) (w : api.World) → law.sequence (api.read_format f w).1 ≡ law.sequence w
  pub read-value :
      (f : ℕ) (w : api.World) (payload : List ℕ)
      → (api.read_format f w).0 ≡ ok (some payload)
      → get_item f (listed (law.contents w)) ≡ some payload

pub set-fresh :
    (f : ℕ) (p : List ℕ) (items : ClipboardItems)
    → get_item f items ≡ none
    → set_item f p items ≡ items ++ (f, p) ∷ []
unfolding get_item set_item
set-fresh f p [] h = refl
set-fresh f p ((g, q) ∷ items) h = ground (arith, set-fresh f p items)

pub get-middle :
    (f : ℕ) (p : List ℕ) (done rest : ClipboardItems)
    → get_item f done ≡ none
    → get_item f (done ++ (f, p) ∷ rest) ≡ some p
unfolding get_item
get-middle f p [] rest h = ground arith
get-middle f p ((g, q) ∷ done) rest h = ground (arith, get-middle f p done rest)

pub append_assoc :
    (xs : ClipboardItems) (y : ℕ × List ℕ) (zs : ClipboardItems)
    → (xs ++ y ∷ []) ++ zs ≡ xs ++ y ∷ zs
append_assoc [] y zs = refl
append_assoc (x ∷ xs) y zs = ground (arith, append_assoc xs y zs)

pub append_nil : (xs : ClipboardItems) → xs ++ [] ≡ xs
append_nil [] = refl
append_nil (x ∷ xs) = ground (arith, append_nil xs)
