-- ===== src/Quality/Normalization.antt =====
-- benchmarks/asr/coding_term_normalization.py, and the metrics that quality_metrics.py takes of a
-- normalized text. `lower` is the lower-case letter for which `re.IGNORECASE` takes a character.
use nadikt.Base.{
  ℕ, ◌+◌, ◌-◌, String, not, ◌&&◌, Option, none, some, List, [], ◌∷◌, ◌++◌, map, ◌≡◌, refl, All,
  arith, Bool-cases, inl, inr, ◌==◌, str_eq, if◌then◌else◌, length,
}
use nadikt.Base.Result.{Result, ok, err, ◌>>=◌}
use nadikt.Base.Json.{Fields}
use nadikt.Protocol.Python.{Error, value_error}
use nadikt.Quality.Tokens.{Text, codes}
use nadikt.Quality.Spans.{matches_here, find_spans}
use nadikt.Quality.Metrics.{
  QualityMetricResult, english_term_accuracy_from_records, latin_preservation_rate_from_records,
  coding_term_accuracy,
}
use nadikt.Quality.Reports.{renamed_metric}

abbrev pub default_normalization_policy_id : String
default_normalization_policy_id = "coding-term-normalization-ru-pronunciation-v1"

-- `_PUBLIC_REPLACEMENTS.items()`
abbrev pub public_replacements : List (String × String)
public_replacements =
    ("пайтест", "pytest")
    ∷ ("докер компоуз", "docker compose")
    ∷ ("докер-компоуз", "docker compose")
    ∷ ("реакт компонент", "React component")
    ∷ ("фаст апи роут", "FastAPI route")
    ∷ ("фастапи роут", "FastAPI route")
    ∷ ("аксес токен", "access token")
    ∷ ("эксес токен", "access token")
    ∷ ("пул реквест", "pull request")
    ∷ []

module _ (lower : ℕ → ℕ) where
  -- `re.sub`, of a pattern in lower case between its boundaries; `before` is the character to the
  -- left, and the next `skip` characters belong to the last match.
  unfoldable pub substitute : Text → Text → Option ℕ → ℕ → Text → Text
  unfolding matches_here
  substitute source replacement before skip [] = []
  substitute source replacement before skip (c ∷ cs) =
      let found = skip == 0 && matches_here source before (map lower (c ∷ cs)) in
      let left = if found then length source - 1 else skip - 1 in
      let rest = substitute source replacement (some (lower c)) left cs in
      if found then replacement ++ rest else if skip == 0 then c ∷ rest else rest

  -- The loop over the replacements.
  unfoldable pub replace_terms : List (String × String) → Text → Text
  unfolding substitute
  replace_terms [] text = text
  replace_terms ((source, replacement) ∷ rs) text =
      replace_terms rs (substitute (codes source) (codes replacement) none 0 text)

  unfoldable pub normalize_coding_terms_for_scoring : String → Text → Result Error Text
  unfolding replace_terms
  normalize_coding_terms_for_scoring policy_id text =
      if not (str_eq policy_id default_normalization_policy_id)
      then err (value_error "unknown_coding_term_normalization_policy")
      else ok (replace_terms public_replacements text)

  module _ (fold : Text → Text) where
    unfoldable pub normalized_coding_term_metrics :
        String → List Fields → Text → Result Error (List QualityMetricResult)
    normalized_coding_term_metrics policy_id records hypothesis = do
      normalized ← normalize_coding_terms_for_scoring policy_id hypothesis
      ok (
          renamed_metric (english_term_accuracy_from_records fold records normalized)
            "english_term_accuracy_normalized"
          ∷ renamed_metric (latin_preservation_rate_from_records fold records normalized)
              "latin_preservation_rate_normalized"
          ∷ renamed_metric (coding_term_accuracy fold "coding_term_accuracy" records normalized)
              "coding_term_accuracy_normalized"
          ∷ [])

  -- The pattern matches nowhere in the text.
  abbrev pub Lacks : Text → Text → Type 0
  Lacks source text = find_spans source none 0 0 (map lower text) ≡ []

  substitute-Lacks :
      (source replacement : Text) (before : Option ℕ) (at : ℕ) (text : Text)
      → find_spans source before at 0 (map lower text) ≡ []
      → substitute source replacement before 0 text ≡ text
  unfolding substitute find_spans
  substitute-Lacks source replacement before at [] e = refl
  substitute-Lacks source replacement before at (c ∷ cs) e =
      elim (Bool-cases (matches_here source before (map lower (c ∷ cs)))) [
        | inl m ↦ absurd (ground arith)
        | inr m ↦
            let ih = substitute-Lacks source replacement (some (lower c)) (at + 1) cs in
            ground (arith, ih (ground arith))
      ]

  normalize_terms-Lacks :
      (rs : List (String × String)) (text : Text)
      → All (λ r. Lacks (codes r.0) text) rs
      → replace_terms rs text ≡ text
  unfolding replace_terms
  normalize_terms-Lacks [] text h = refl
  normalize_terms-Lacks ((source, replacement) ∷ rs) text h =
      rw (substitute-Lacks (codes source) (codes replacement) none 0 text h.0)
        (normalize_terms-Lacks rs text h.1)

  -- Under the default policy a text in which none of the spoken forms stands alone, whatever the
  -- case of its letters, is left as it is; every other policy is refused.
  pub normalize_coding_terms-leaves :
      (policy_id : String) (text : Text)
      → All (λ r. Lacks (codes r.0) text) public_replacements
      → normalize_coding_terms_for_scoring policy_id text ≡ (
          if str_eq policy_id default_normalization_policy_id
          then ok text
          else err (value_error "unknown_coding_term_normalization_policy"))
  unfolding normalize_coding_terms_for_scoring
  normalize_coding_terms-leaves policy_id text h =
      elim (Bool-cases (str_eq policy_id default_normalization_policy_id)) [
        | inl e ↦ rw (e, normalize_terms-Lacks public_replacements text h) refl
        | inr e ↦ rw e refl
      ]
