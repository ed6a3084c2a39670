-- ===== src/Windows/Utf16.antt =====
-- `str.encode("utf-16-le")`, and `_utf16_code_units` of windows_injector.py. A text of Python is the
-- list of its code points, surrogates included.
pub mod RoundTrip
use nadikt.Base.{
  ℕ, ◌+◌, ◌-◌, ◌*◌, ◌/◌, ◌%◌, Bool, true, false, ◌&&◌, Option, none, some, List, [], ◌∷◌, ◌++◌, map,
  leb, ltb, ◌==◌, if◌then◌else◌,
}

unfoldable pub is_surrogate : ℕ → Bool
is_surrogate c = leb 55296 c && leb c 57343

-- The code units of one character.
unfoldable pub units_of : ℕ → List ℕ
units_of c =
    if ltb c 65536 then c ∷ [] else (55296 + (c - 65536) / 1024) ∷ (56320 + (c - 65536) % 1024) ∷ []

unfoldable pub bytes_of : List ℕ → List ℕ
bytes_of [] = []
bytes_of (u ∷ us) = u % 256 ∷ u / 256 ∷ bytes_of us

-- Nothing where Python raises `UnicodeEncodeError`.
unfoldable pub encode_utf_16_le : List ℕ → Option (List ℕ)
unfolding is_surrogate units_of bytes_of
encode_utf_16_le [] = some []
encode_utf_16_le (c ∷ cs) = elim (encode_utf_16_le cs) [
  | none ↦ none
  | some rest ↦ if is_surrogate c then none else some (bytes_of (units_of c) ++ rest)
]

-- `int.from_bytes(encoded[offset : offset + 2], "little")` at each even offset.
unfoldable pub little_pairs : List ℕ → List ℕ
little_pairs [] = []
little_pairs (a ∷ []) = a ∷ []
little_pairs (a ∷ b ∷ rest) = (a + 256 * b) ∷ little_pairs rest

-- `text.replace("\r\n", "\n")`
unfoldable pub replace_cr_lf : List ℕ → List ℕ
replace_cr_lf [] = []
replace_cr_lf (c ∷ []) = c ∷ []
replace_cr_lf (c ∷ d ∷ rest) = elim (c == b'\r' && d == b'\n') [
  | true ↦ b'\n' ∷ replace_cr_lf rest
  | false ↦ c ∷ replace_cr_lf (d ∷ rest)
]

-- `text.replace("\r", "\n")`
abbrev replace_cr : List ℕ → List ℕ
replace_cr = map (λ c. if c == b'\r' then b'\n' else c)

unfoldable pub normalize_newlines : List ℕ → List ℕ
unfolding replace_cr_lf
normalize_newlines text = replace_cr (replace_cr_lf text)

-- `_utf16_code_units`
unfoldable pub utf16_code_units : List ℕ → Option (List ℕ)
unfolding normalize_newlines encode_utf_16_le little_pairs
utf16_code_units text = elim (encode_utf_16_le (normalize_newlines text)) [
  | none ↦ none
  | some encoded ↦ some (little_pairs encoded)
]
