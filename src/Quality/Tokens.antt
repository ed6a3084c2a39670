-- ===== src/Quality/Tokens.antt =====
-- `normalize_tokens` and the phrases of benchmarks/asr/quality_metrics.py. A text is the list of its
-- code points. The Unicode tables (NFKC, then case folding) are a parameter.
use Prim.Native.Char.{code}
use nadikt.Base.{
  ℕ, String, Bool, true, false, ◌&&◌, ◌||◌, List, [], ◌∷◌, ◌++◌, map, ltb, leb, ◌==◌, if◌then◌else◌,
  length, is_empty,
}

abbrev pub Text : Type 0
Text = List ℕ

abbrev pub codes : String → Text
codes String.[] = []
codes (String.◌∷◌ c s) = code c ∷ codes s

abbrev between : ℕ → ℕ → ℕ → Bool
between lo hi c = leb lo c && leb c hi

-- `[0-9a-zа-яё_./+\-]`
unfoldable pub is_word_char : ℕ → Bool
is_word_char c =
    between b'0' b'9' c
    || between b'a' b'z' c
    || between 1072 1103 c
    || c == 1105
    || c == b'_'
    || c == b'.'
    || c == b'/'
    || c == b'+'
    || c == b'-'

-- The characters of `TOKEN_RE`: `[0-9A-Za-zА-Яа-яЁё_./+\-]`
unfoldable pub is_token_char : ℕ → Bool
unfolding is_word_char
is_token_char c = is_word_char c || between b'A' b'Z' c || between 1040 1071 c || c == 1025

-- `normalized.replace("/", " ")`
unfoldable pub replace_slashes : Text → Text
replace_slashes = map (λ c. if c == b'/' then 32 else c)

-- `token.rstrip(".")`
unfoldable pub strip_dots : Text → Text
strip_dots [] = []
strip_dots (c ∷ cs) =
    let rest = strip_dots cs in if c == b'.' && is_empty rest then [] else c ∷ rest

unfoldable pub trim_token : Text → Text
unfolding strip_dots
trim_token token = if ltb 1 (length token) then strip_dots token else token

unfoldable pub keep_token : Text → List Text → List Text
unfolding trim_token
keep_token token tokens = if is_empty (trim_token token) then tokens else trim_token token ∷ tokens

-- `TOKEN_RE.finditer`, with the loop over the matches; `run` is the match so far.
unfoldable pub find_tokens : Text → Text → List Text
unfolding is_token_char keep_token
find_tokens run [] = keep_token run []
find_tokens run (c ∷ cs) = elim (is_token_char c) [
  | true ↦ find_tokens (run ++ (c ∷ [])) cs
  | false ↦ keep_token run (find_tokens [] cs)
]

-- `" ".join(tokens)`
unfoldable pub join : List Text → Text
join [] = []
join (t ∷ []) = t
join (t ∷ u ∷ ts) = t ++ (32 ∷ join (u ∷ ts))

-- `"".join(tokens)`
unfoldable pub concat : List Text → Text
concat [] = []
concat (t ∷ ts) = t ++ concat ts

module _ (fold : Text → Text) where
  unfoldable pub normalize_tokens : Text → List Text
  unfolding replace_slashes find_tokens
  normalize_tokens text = find_tokens [] (replace_slashes (fold text))

  unfoldable pub normalized_phrase : Text → Text
  unfolding normalize_tokens join
  normalized_phrase text = join (normalize_tokens text)
