-- ===== src/Quality/Tests.antt =====
-- The quality metrics at concrete texts, and their theorems there.
use nadikt.Base.{ℕ, ◌+◌, ◌≤◌, String, true, List, [], ◌∷◌, ◌≡◌, refl, All, max, length, ◌↔◌, none}
use nadikt.Base.Json.{Fields, field, end, str, int, arr, from_list}
use nadikt.Base.Int.{pos}
use nadikt.Quality.Levenshtein.{levenshtein, last, rows, fill_row, count_up, differ}
use nadikt.Quality.Equality.{eq_char, eq_text}
use nadikt.Quality.Edits.{Edit}
use nadikt.Quality.Distance.{levenshtein_least}
use nadikt.Quality.Tokens.{Text, codes, normalize_tokens, normalized_phrase}
use nadikt.Quality.Spans.{Span, select_spans, sort_spans, variant_spans, count_record_matches}
use nadikt.Quality.Metrics.{
  expected_occurrences, accepted_variants, requires_latin, wer, coding_term_accuracy,
}
use nadikt.Quality.Reports.{aggregate_corpus}
use nadikt.Quality.Selection.{IsApart, IsAmong, is_covered, select_spans-sort_spans}
use nadikt.Quality.Occurrences.{IsOccurrence, variant_spans-IsOccurrence}
use nadikt.Quality.Rates.{IsShare, accuracies, term_accuracies-IsShare, wer_bounds}

abbrev unfolded : Text → Text
unfolded t = t

abbrev short : List ℕ
short = 1 ∷ 2 ∷ []

abbrev long : List ℕ
long = 7 ∷ 1 ∷ 3 ∷ 9 ∷ []

-- Two insertions and a replacement.
distance_run : levenshtein {A = ℕ} short long ≡ 3
unfolding levenshtein last rows fill_row count_up differ eq_char
distance_run = refl

levenshtein_least_example :
    Edit short long (levenshtein {A = ℕ} short long)
    × ((n : ℕ) → Edit short long n → levenshtein {A = ℕ} short long ≤ n)
levenshtein_least_example = levenshtein_least {A = ℕ} short long

abbrev reference : Text
reference = codes "open the api"

abbrev hypothesis : Text
hypothesis = codes "open a api."

wer_run : (wer unfolded reference hypothesis).numerator ≡ 1
unfolding wer levenshtein last rows normalize_tokens fill_row count_up differ eq_text
wer_run = refl

wer_bounds_example :
    (((wer unfolded reference hypothesis).value.over ≡ 0)
      ↔ (normalize_tokens unfolded reference ≡ normalize_tokens unfolded hypothesis))
    × (1 ≤ (wer unfolded reference hypothesis).value.under)
    × (length (normalize_tokens unfolded hypothesis)
        ≤ length (normalize_tokens unfolded reference)
          + (wer unfolded reference hypothesis).numerator)
    × ((wer unfolded reference hypothesis).numerator
        ≤ max
            (length (normalize_tokens unfolded reference))
            (length (normalize_tokens unfolded hypothesis)))
wer_bounds_example = wer_bounds unfolded reference hypothesis

-- Of `api gateway` and `api` at the same place, the longer occurrence is counted.
abbrev spans : List Span
spans =
    record { start = 0; stop = 3 }
    ∷ record { start = 0; stop = 11 }
    ∷ record { start = 20; stop = 23 }
    ∷ []

select_spans_run :
    select_spans [] (sort_spans spans)
    ≡ record { start = 0; stop = 11 } ∷ record { start = 20; stop = 23 } ∷ []
unfolding select_spans sort_spans
select_spans_run = refl

select_spans-sort_spans_example :
    IsApart (select_spans [] (sort_spans spans))
    × ((u : Span) → IsAmong u (select_spans [] (sort_spans spans)) → IsAmong u spans)
    × ((u : Span) → IsAmong u spans → is_covered u (select_spans [] (sort_spans spans)) ≡ true)
select_spans-sort_spans_example = select_spans-sort_spans spans

abbrev spoken : Text
spoken = codes "api v rapid api"

variant_spans_run :
    variant_spans unfolded spoken (codes "api")
    ≡ record { start = 0; stop = 3 } ∷ record { start = 12; stop = 15 } ∷ []
unfolding variant_spans normalized_phrase
variant_spans_run = refl

variant_spans-IsOccurrence_example :
    All
      (IsOccurrence (normalized_phrase unfolded (codes "api")) none 0 spoken)
      (variant_spans unfolded spoken (codes "api"))
variant_spans-IsOccurrence_example = variant_spans-IsOccurrence unfolded spoken (codes "api")

abbrev term : String → ℕ → Fields
term name n = field "canonical" (str name) (
    field "accepted_variants" (arr (from_list (str name ∷ [])))
      (field "expected_occurrences" (int (pos n)) end))

abbrev records : List Fields
records = term "api" 3 ∷ term "git" 1 ∷ []

accuracy_run : (coding_term_accuracy unfolded "coding_term_accuracy" records spoken).numerator ≡ 2
unfolding coding_term_accuracy normalized_phrase expected_occurrences count_record_matches
    accepted_variants requires_latin
accuracy_run = refl

term_accuracies-IsShare_example :
    All IsShare (accuracies unfolded "coding_term_accuracy" ((records, spoken) ∷ []))
    × IsShare (
        aggregate_corpus "coding_term_accuracy"
          (accuracies unfolded "coding_term_accuracy" ((records, spoken) ∷ [])))
term_accuracies-IsShare_example =
    term_accuracies-IsShare unfolded "coding_term_accuracy" ((records, spoken) ∷ [])
