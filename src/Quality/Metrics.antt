-- ===== src/Quality/Metrics.antt =====
-- The metrics and diagnostics of benchmarks/asr/quality_metrics.py. A rate is the pair of its
-- numerator and its denominator; the division and its rounding in `to_json` are left out.
use nadikt.Base.{
  ℕ, ◌+◌, String, Bool, true, false, ◌&&◌, none, some, List, [], ◌∷◌, map, min, leb, ◌==◌,
  if◌then◌else◌, length, any_of, is_empty,
}
use nadikt.Base.Int.{pos}
use nadikt.Base.Json.{
  Value, int, str, bool, arr, Fields, end, field, get, truthy, to_list, from_list, set_field,
}
use nadikt.Quality.Levenshtein.{Eq, levenshtein}
use nadikt.Quality.Tokens.{Text, codes, normalize_tokens, concat, normalized_phrase}
use nadikt.Quality.Spans.{count_record_matches}

pub record Ratio : Type 0 where
  pub over : ℕ
  pub under : ℕ

pub record QualityMetricResult : Type 0 where
  pub metric_name : String
  pub value : Ratio
  pub numerator : ℕ
  pub denominator : ℕ
  pub status : String
  pub version : String

abbrev pub metric_version : String
metric_version = "quality-metrics-v2"

-- A result with the defaults of the class for a rate that does not apply.
abbrev pub not_applicable : String → QualityMetricResult
not_applicable name = record {
  metric_name = name;
  value = record { over = 0; under = 1 };
  numerator = 0;
  denominator = 0;
  status = "not_applicable";
  version = metric_version;
}

-- `_rate`
unfoldable pub rate : ℕ → ℕ → ℕ → Ratio
rate numerator denominator empty_value =
    if denominator == 0
    then record { over = empty_value; under = 1 }
    else record { over = numerator; under = denominator }

-- `_status`
unfoldable pub status_of : ℕ → String
status_of denominator = if denominator == 0 then "not_applicable" else "ok"

-- `_expected_occurrences`
unfoldable pub expected_occurrences : Fields → ℕ
expected_occurrences fs = elim (get fs "expected_occurrences") [ some (int (pos n)) ↦ n | _ ↦ 0 ]

-- `bool(record.get("require_latin", False))`
unfoldable pub requires_latin : Fields → Bool
requires_latin fs = elim (get fs "require_latin") [ none ↦ false | some v ↦ truthy v ]

-- `record.get("accepted_variants", [])`, or nothing if it is no list.
unfoldable pub accepted_variants : Fields → List Value
accepted_variants fs = elim (get fs "accepted_variants") [ some (arr vs) ↦ to_list vs | _ ↦ [] ]

-- `_with_latin_requirement`
unfoldable pub with_latin_requirement : Bool → Fields → Fields
with_latin_requirement required fs = set_field "require_latin" (bool required) fs

unfoldable pub total_expected : List Fields → ℕ
total_expected [] = 0
total_expected (r ∷ rs) = expected_occurrences r + total_expected rs

-- The record that the callers with plain terms build.
abbrev pub plain_record : Bool → String → Fields
plain_record required term = field "canonical" (str term) (
    field "accepted_variants" (arr (from_list (str term ∷ [])))
      (field "expected_occurrences" (int (pos 1)) (field "require_latin" (bool required) end)))

abbrev pub only_latin_records : List Fields → List Fields
only_latin_records [] = []
only_latin_records (r ∷ rs) =
    let rest = only_latin_records rs in if requires_latin r then r ∷ rest else rest

-- `any("A" <= char <= "z" for char in term)`
abbrev pub only_latin_terms : List String → List String
only_latin_terms [] = []
only_latin_terms (t ∷ ts) =
    let rest = only_latin_terms ts in
    if any_of (λ c. leb b'A' c && leb c b'z') (codes t) then t ∷ rest else rest

module _ (fold : Text → Text) where
  module _ ⦃char_eq : Eq ℕ⦄ ⦃text_eq : Eq Text⦄ where
    unfoldable pub wer : Text → Text → QualityMetricResult
    unfolding rate status_of
    wer reference hypothesis =
        let reference_tokens = normalize_tokens fold reference in
        let hypothesis_tokens = normalize_tokens fold hypothesis in
        let distance = levenshtein reference_tokens hypothesis_tokens in
        let denominator = length reference_tokens in
        record {
          metric_name = "wer";
          value = rate distance denominator (if is_empty hypothesis_tokens then 0 else 1);
          numerator = distance;
          denominator = denominator;
          status = status_of denominator;
          version = metric_version;
        }

    unfoldable pub cer : Text → Text → QualityMetricResult
    unfolding rate status_of
    cer reference hypothesis =
        let reference_chars = concat (normalize_tokens fold reference) in
        let hypothesis_chars = concat (normalize_tokens fold hypothesis) in
        let distance = levenshtein reference_chars hypothesis_chars in
        let denominator = length reference_chars in
        record {
          metric_name = "cer";
          value = rate distance denominator (if is_empty hypothesis_chars then 0 else 1);
          numerator = distance;
          denominator = denominator;
          status = status_of denominator;
          version = metric_version;
        }

  unfoldable pub total_matched : Text → List Fields → ℕ
  total_matched hypothesis [] = 0
  total_matched hypothesis (r ∷ rs) =
      min (expected_occurrences r)
        (count_record_matches fold hypothesis (accepted_variants r) (requires_latin r))
      + total_matched hypothesis rs

  unfoldable pub coding_term_accuracy : String → List Fields → Text → QualityMetricResult
  unfolding total_expected total_matched
  coding_term_accuracy metric_name records hypothesis =
      let denominator = total_expected records in
      let matched = total_matched (normalized_phrase fold hypothesis) records in
      if denominator == 0 then not_applicable metric_name else record {
        metric_name = metric_name;
        value = record { over = matched; under = denominator };
        numerator = matched;
        denominator = denominator;
        status = "ok";
        version = metric_version;
      }

  unfoldable pub english_term_accuracy_from_records : List Fields → Text → QualityMetricResult
  english_term_accuracy_from_records records hypothesis =
      coding_term_accuracy "english_term_accuracy" (map (with_latin_requirement false) records)
        hypothesis

  unfoldable pub latin_preservation_rate_from_records : List Fields → Text → QualityMetricResult
  latin_preservation_rate_from_records records hypothesis =
      coding_term_accuracy "latin_preservation_rate"
        (map (with_latin_requirement true) (only_latin_records records)) hypothesis

  unfoldable pub english_term_accuracy : List String → Text → QualityMetricResult
  english_term_accuracy terms hypothesis =
      if is_empty terms
      then not_applicable "english_term_accuracy"
      else english_term_accuracy_from_records (map (plain_record false) terms) hypothesis

  unfoldable pub latin_preservation_rate : List String → Text → QualityMetricResult
  latin_preservation_rate terms hypothesis =
      if is_empty (only_latin_terms terms)
      then not_applicable "latin_preservation_rate"
      else latin_preservation_rate_from_records (map (plain_record true) (only_latin_terms terms))
          hypothesis
