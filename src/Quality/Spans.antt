-- ===== src/Quality/Spans.antt =====
-- The occurrences of accepted variants in benchmarks/asr/quality_metrics.py: where they are found,
-- and which of them are counted.
use nadikt.Base.{
  ℕ, ◌+◌, ◌-◌, Bool, true, false, not, ◌&&◌, ◌||◌, Option, none, some, List, [], ◌∷◌, ◌++◌, ltb,
  leb, ◌==◌, if◌then◌else◌, length, is_empty, any_of,
}
use nadikt.Quality.Tokens.{Text, is_word_char, codes, normalized_phrase}
use nadikt.Base.Json.{Value, str}

pub record Span : Type 0 where
  pub start : ℕ
  pub stop : ℕ

-- A text that begins with `variant`, with what follows it.
unfoldable pub after_prefix : Text → Text → Option Text
after_prefix [] text = some text
after_prefix (v ∷ vs) [] = none
after_prefix (v ∷ vs) (c ∷ cs) = let rest = after_prefix vs cs in if v == c then rest else none

-- The lookahead and the lookbehind.
unfoldable pub is_free : Option ℕ → Bool
unfolding is_word_char
is_free none = true
is_free (some c) = not (is_word_char c)

abbrev pub head? : Text → Option ℕ
head? [] = none
head? (c ∷ cs) = some c

-- Whether the pattern matches here, `before` being the character to the left.
unfoldable pub matches_here : Text → Option ℕ → Text → Bool
unfolding is_free after_prefix
matches_here variant before text =
    is_free before
    && elim (after_prefix variant text) [ none ↦ false | some rest ↦ is_free (head? rest) ]

-- `re.finditer` from position `at`; the next `skip` characters belong to the last match.
unfoldable pub find_spans : Text → Option ℕ → ℕ → ℕ → Text → List Span
unfolding matches_here
find_spans variant before at skip [] = []
find_spans variant before at skip (c ∷ cs) =
    let found = skip == 0 && matches_here variant before (c ∷ cs) in
    let left = if found then length variant - 1 else skip - 1 in
    let rest = find_spans variant (some c) (at + 1) left cs in
    if found then record { start = at; stop = at + length variant } ∷ rest else rest

-- `_spans_overlap`
unfoldable pub spans_overlap : Span → Span → Bool
spans_overlap left right = ltb left.start right.stop && ltb right.start left.stop

-- The key `(start, -(stop - start))`: which span is sorted first.
unfoldable pub comes_first : Span → Span → Bool
comes_first a b = ltb a.start b.start || (a.start == b.start && ltb b.stop a.stop)

unfoldable pub same_span : Span → Span → Bool
same_span a b = a.start == b.start && a.stop == b.stop

-- `sorted(set(spans), key=…)`: the key tells two spans apart.
unfoldable pub insert_span : Span → List Span → List Span
unfolding comes_first same_span
insert_span s [] = s ∷ []
insert_span s (t ∷ ts) =
    let rest = insert_span s ts in
    if same_span s t then t ∷ ts else if comes_first s t then s ∷ t ∷ ts else t ∷ rest

unfoldable pub sort_spans : List Span → List Span
unfolding insert_span
sort_spans [] = []
sort_spans (s ∷ ss) = insert_span s (sort_spans ss)

-- The greedy loop over the sorted spans.
unfoldable pub select_spans : List Span → List Span → List Span
unfolding spans_overlap
select_spans selected [] = selected
select_spans selected (s ∷ ss) =
    select_spans (if any_of (spans_overlap s) selected then selected else selected ++ (s ∷ [])) ss

-- `_has_latin`
unfoldable pub has_latin : Text → Bool
has_latin = any_of (λ c. (leb b'a' c && leb c b'z') || (leb b'A' c && leb c b'Z'))

module _ (fold : Text → Text) where
  unfoldable pub variant_spans : Text → Text → List Span
  unfolding find_spans
  variant_spans hypothesis variant =
      let normalized = normalized_phrase fold variant in
      if is_empty normalized then [] else find_spans normalized none 0 0 hypothesis

  unfoldable pub count_variant : Text → Text → ℕ
  count_variant hypothesis variant = length (variant_spans hypothesis variant)

  unfoldable pub collect_spans : Text → Bool → List Value → List Span
  unfolding has_latin variant_spans
  collect_spans hypothesis require_latin [] = []
  collect_spans hypothesis require_latin (str v ∷ vs) =
      let rest = collect_spans hypothesis require_latin vs in
      if not require_latin || has_latin (codes v)
      then variant_spans hypothesis (codes v) ++ rest
      else rest
  collect_spans hypothesis require_latin (_ ∷ vs) = collect_spans hypothesis require_latin vs

  unfoldable pub count_record_matches : Text → List Value → Bool → ℕ
  unfolding collect_spans sort_spans select_spans
  count_record_matches hypothesis variants require_latin =
      length (select_spans [] (sort_spans (collect_spans hypothesis require_latin variants)))
