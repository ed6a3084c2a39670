-- ===== src/Quality/Rates.antt =====
-- Bounds of the metrics of benchmarks/asr/quality_metrics.py, and what their diagnostics count.
use nadikt.Base.{
  ℕ, suc, ◌+◌, ◌≤◌, String, false, ◌||◌, ◌&&◌, List, [], ◌∷◌, ◌≡◌, refl, arith, Bool-cases, inl,
  inr, All, max, length, str_eq, eq_iff, is_empty, if◌then◌else◌, ◌==◌, leb, ◌↔◌,
}
use nadikt.Base.Json.{Fields}
use nadikt.Quality.Levenshtein.{Eq}
use nadikt.Quality.Distance.{levenshtein_bounds}
use nadikt.Quality.Tokens.{Text, normalize_tokens, normalized_phrase}
use nadikt.Quality.Metrics.{
  QualityMetricResult, wer, coding_term_accuracy, total_expected, total_matched, not_applicable,
  rate,
}
use nadikt.Quality.Reports.{
  MetricDiagnostic, aggregate_corpus, sum_applicable, metric_diagnostics, diagnostic,
}

-- A share of a whole: the numerator is at most the denominator, the value is their quotient, and the
-- status tells whether there is anything to measure.
pub record IsShare (r : QualityMetricResult) : Type 0 where
  pub bounded : r.numerator ≤ r.denominator
  pub over : r.value.over ≡ r.numerator
  pub under : r.value.under ≡ max 1 r.denominator
  pub applicable : (r.status ≡ "ok") ↔ (1 ≤ r.denominator)

IsShare-not_applicable : (name : String) → IsShare (not_applicable name)
IsShare-not_applicable name = record {
  bounded = omega arith;
  over = refl;
  under = refl;
  applicable =
      (λ p. absurd (grind (arith, (eq_iff "not_applicable" "ok").1 p)), λ p. absurd (omega arith));
}

total_matched-le :
    (fold : Text → Text) (hypothesis : Text) (records : List Fields)
    → total_matched fold hypothesis records ≤ total_expected records
unfolding total_matched total_expected
total_matched-le fold hypothesis [] = omega arith
total_matched-le fold hypothesis (r ∷ rs) = omega (arith, total_matched-le fold hypothesis rs)

-- For any records and hypothesis, the coding-term accuracy is a share: no more matches are counted
-- than occurrences are expected, and it is applicable when any is expected.
pub coding_term_accuracy-IsShare :
    (fold : Text → Text) (name : String) (records : List Fields) (hypothesis : Text)
    → IsShare (coding_term_accuracy fold name records hypothesis)
unfolding coding_term_accuracy
coding_term_accuracy-IsShare fold name records hypothesis =
    elim (Bool-cases (total_expected records == 0)) [
      | inl q ↦ rw q (IsShare-not_applicable name)
      | inr q ↦ rw q (record {
        bounded = total_matched-le fold (normalized_phrase fold hypothesis) records;
        over = refl;
        under = grind arith;
        applicable = (λ p. grind arith, λ p. refl);
      })
    ]

-- The sums over the applicable results of a list of shares.
sum_applicable-le :
    (results : List QualityMetricResult)
    → All IsShare results
    → sum_applicable (λ r. r.numerator) results ≤ sum_applicable (λ r. r.denominator) results
unfolding sum_applicable
sum_applicable-le [] h = omega arith
sum_applicable-le (r ∷ rs) h = elim (Bool-cases (str_eq r.status "ok")) [
  | inl q ↦ rw q (omega (arith, h.0.bounded, sum_applicable-le rs h.1))
  | inr q ↦ rw q (sum_applicable-le rs h.1)
]

-- The corpus aggregate of shares is a share.
pub aggregate_corpus-IsShare :
    (name : String) (results : List QualityMetricResult)
    → All IsShare results
    → IsShare (aggregate_corpus name results)
unfolding aggregate_corpus
aggregate_corpus-IsShare name results h =
    elim (Bool-cases (sum_applicable (λ r. r.denominator) results == 0)) [
      | inl q ↦ rw q (IsShare-not_applicable name)
      | inr q ↦ rw q (record {
        bounded = sum_applicable-le results h;
        over = refl;
        under = grind arith;
        applicable = (λ p. grind arith, λ p. refl);
      })
    ]

-- One accuracy for each list of expected terms with its hypothesis.
abbrev pub accuracies :
    (Text → Text) → String → List (List Fields × Text) → List QualityMetricResult
accuracies fold name [] = []
accuracies fold name ((records, hypothesis) ∷ rest) =
    coding_term_accuracy fold name records hypothesis ∷ accuracies fold name rest

accuracies-IsShare :
    (fold : Text → Text) (name : String) (inputs : List (List Fields × Text))
    → All IsShare (accuracies fold name inputs)
accuracies-IsShare fold name [] = tt
accuracies-IsShare fold name ((records, hypothesis) ∷ rest) =
    (coding_term_accuracy-IsShare fold name records hypothesis, accuracies-IsShare fold name rest)

-- The coding term accuracy of any terms and hypothesis is a share: the matches are at most the
-- expected occurrences, its rate is their quotient with a divisor that is not 0, and it applies exactly
-- where an occurrence is expected; and so is the corpus aggregate of any such accuracies.
pub term_accuracies-IsShare :
    (fold : Text → Text) (name : String) (inputs : List (List Fields × Text))
    → All IsShare (accuracies fold name inputs)
      × IsShare (aggregate_corpus name (accuracies fold name inputs))
term_accuracies-IsShare fold name inputs =
    let shares = accuracies-IsShare fold name inputs in
    (shares, aggregate_corpus-IsShare name (accuracies fold name inputs) shares)

abbrev pub total_count : List MetricDiagnostic → ℕ
total_count [] = 0
total_count (d ∷ ds) = d.count + total_count ds

-- `d` repeats the numbers and the status of `r`, and counts at least 1.
abbrev pub Describes : QualityMetricResult → String → MetricDiagnostic → Type 0
Describes r view d =
    (1 ≤ d.count)
    × (d.numerator ≡ r.numerator)
    × (d.denominator ≡ r.denominator)
    × (d.status ≡ r.status)
    × (d.view ≡ view)

-- The diagnostics of `r`, which share out its denominator (1 where that is 0).
abbrev pub Explains : QualityMetricResult → String → List MetricDiagnostic → Type 0
Explains r view ds = (total_count ds ≡ max 1 r.denominator) × All (Describes r view) ds

diagnostic-Explains :
    (r : QualityMetricResult) (reason_code : String) (n : ℕ) (view : String)
    → n ≡ max 1 r.denominator
    → Explains r view (diagnostic r reason_code n view ∷ [])
unfolding diagnostic
diagnostic-Explains r reason_code n view h =
    (omega arith, ((omega arith, refl, refl, refl, refl), tt))

-- The diagnostics of any result share out its denominator (1 where that is 0), each with a count
-- of at least 1, and each repeats the result's numbers, its status and the view.
pub metric_diagnostics-Explains :
    (r : QualityMetricResult) (view : String) → Explains r view (metric_diagnostics r view)
unfolding metric_diagnostics diagnostic
metric_diagnostics-Explains r view =
    elim (Bool-cases (str_eq r.status "not_applicable" || r.denominator == 0)) [
      | inl q ↦ rw q (diagnostic-Explains r "not_applicable" (max 1 r.denominator) view refl)
      | inr q ↦ rw q (elim (Bool-cases (leb r.denominator r.numerator)) [
        | inl p ↦ rw p (diagnostic-Explains r "exact_latin_match" r.denominator view (ground arith))
        | inr p ↦
            rw p
              (elim (Bool-cases
                (str_eq r.metric_name "latin_preservation_rate" && r.numerator == 0)) [
                  | inl l ↦
                      rw l (diagnostic-Explains r "latin_missing" r.denominator view (ground arith))
                  | inr l ↦ rw l (elim (Bool-cases (r.numerator == 0)) [
                    | inl z ↦
                        rw z (
                          diagnostic-Explains r "variant_missing" r.denominator view (ground arith))
                    | inr z ↦ rw z (
                      ground arith,
                      (
                        (ground arith, refl, refl, refl, refl),
                        ((ground arith, refl, refl, refl, refl), tt),
                      ),
                    )
                  ])
                ])
      ])
    ]

rate_under : (n d e : ℕ) → 1 ≤ (rate n d e).under
unfolding rate
rate_under n d e = ground arith

rate_zero {ℓ} :
    {A : Type ℓ} (left right : List A) (n : ℕ)
    → ((n ≡ 0) ↔ (left ≡ right))
    → ((rate n (length left) (if is_empty right then 0 else 1)).over ≡ 0) ↔ (left ≡ right)
unfolding rate
rate_zero [] [] n h = (λ p. refl, λ p. refl)
rate_zero [] (y ∷ ys) n h = (λ p. absurd (omega arith), λ p. absurd (grind arith))
rate_zero (x ∷ xs) right n h = let q : (suc (length xs) == 0) ≡ false = ground arith in rw q h

module _ (fold : Text → Text) ⦃char_eq : Eq ℕ⦄ ⦃text_eq : Eq Text⦄ where
  -- For any reference and hypothesis, the word error rate is 0 exactly when their tokens are equal,
  -- also where the reference has no token; its divisor is never 0; and the errors are at least what
  -- the hypothesis has more tokens than the reference, and at most the greater token count.
  pub wer_bounds :
      (reference hypothesis : Text)
      → (((wer fold reference hypothesis).value.over ≡ 0)
          ↔ (normalize_tokens fold reference ≡ normalize_tokens fold hypothesis))
        × (1 ≤ (wer fold reference hypothesis).value.under)
        × (length (normalize_tokens fold hypothesis)
            ≤ length (normalize_tokens fold reference) + (wer fold reference hypothesis).numerator)
        × ((wer fold reference hypothesis).numerator
            ≤ max
                (length (normalize_tokens fold reference))
                (length (normalize_tokens fold hypothesis)))
  unfolding wer rate
  wer_bounds reference hypothesis =
      let (zero, below, above, greatest) =
        levenshtein_bounds (normalize_tokens fold reference) (normalize_tokens fold hypothesis) in
      (
        rate_zero (normalize_tokens fold reference) (normalize_tokens fold hypothesis) _ zero,
        rate_under _ (length (normalize_tokens fold reference)) _,
        above,
        greatest,
      )
