-- ===== src/Base/Texts.antt =====
-- The methods of Python's `str` that the components use, on native strings.
use Prim.Native.Nat.{ℕ, ◌+◌}
use Prim.Native.Char.{code}
use Prim.Native.String.{String}
use mathlib.Core.Bool.{Bool, true, false, ◌&&◌, ◌||◌}
use nadikt.Base.Tests.{leb, ◌==◌, if◌then◌else◌}
use text.Mathlib.Text.{◌==◌ as str_eq}

-- `str.isspace` of one character.
unfoldable pub is_space : ℕ → Bool
is_space c =
    (leb 9 c && leb c 13)
    || (leb 28 c && leb c 32)
    || c == 133
    || c == 160
    || c == 5760
    || (leb 8192 c && leb c 8202)
    || c == 8232
    || c == 8233
    || c == 8239
    || c == 8287
    || c == 12288

unfoldable pub lstrip : String → String
unfolding is_space
lstrip String.[] = ""
lstrip (String.◌∷◌ c s) = let rest = lstrip s in if is_space (code c) then rest else String.◌∷◌ c s

unfoldable pub rstrip : String → String
unfolding is_space
rstrip String.[] = ""
rstrip (String.◌∷◌ c s) =
    let rest = rstrip s in if is_space (code c) && str_eq rest "" then "" else String.◌∷◌ c rest

-- `str.strip()`
unfoldable pub strip : String → String
unfolding lstrip rstrip
strip s = rstrip (lstrip s)

-- A character of `s.lower()`, of ASCII letters only.
unfoldable pub lower_code : ℕ → ℕ
lower_code c = if leb b'A' c && leb c b'Z' then c + 32 else c

-- `s.lower().startswith(prefix)` for a prefix of lower-case ASCII characters.
unfoldable pub lower_starts_with : String → String → Bool
unfolding lower_code
lower_starts_with s String.[] = true
lower_starts_with String.[] (String.◌∷◌ p ps) = false
lower_starts_with (String.◌∷◌ c s) (String.◌∷◌ p ps) =
    lower_code (code c) == code p && lower_starts_with s ps

-- `s.lower() == word`
unfoldable pub lower_is : String → String → Bool
unfolding lower_code
lower_is String.[] String.[] = true
lower_is String.[] (String.◌∷◌ p ps) = false
lower_is (String.◌∷◌ c s) String.[] = false
lower_is (String.◌∷◌ c s) (String.◌∷◌ p ps) = lower_code (code c) == code p && lower_is s ps

-- `s.startswith(prefix)`
unfoldable pub starts_with : String → String → Bool
starts_with s String.[] = true
starts_with String.[] (String.◌∷◌ p ps) = false
starts_with (String.◌∷◌ c s) (String.◌∷◌ p ps) = code c == code p && starts_with s ps
