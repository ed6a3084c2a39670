-- ===== src/Quality/Equality.antt =====
-- The comparisons of characters and of tokens in benchmarks/asr/quality_metrics.py.
use nadikt.Base.{ℕ, Bool, true, false, ◌&&◌, [], ◌∷◌, ◌≡◌, refl, ◌↔◌, arith, ◌==◌, ==_iff}
use nadikt.Quality.Levenshtein.{Eq}
use nadikt.Quality.Tokens.{Text}

abbrev pub same_text : Text → Text → Bool
same_text [] [] = true
same_text [] (d ∷ ds) = false
same_text (c ∷ cs) [] = false
same_text (c ∷ cs) (d ∷ ds) = c == d && same_text cs ds

pub same_text_iff : (a b : Text) → (same_text a b ≡ true) ↔ (a ≡ b)
same_text_iff [] [] = (λ p. refl, λ p. refl)
same_text_iff [] (d ∷ ds) = (λ p. absurd (ground arith), λ p. absurd (ground arith))
same_text_iff (c ∷ cs) [] = (λ p. absurd (ground arith), λ p. absurd (ground arith))
same_text_iff (c ∷ cs) (d ∷ ds) =
    let ih = same_text_iff cs ds in (λ p. ground (arith, ih), λ p. ground (arith, ih))

instance unfoldable pub eq_char : Eq ℕ
eq_char = record { equals = ◌==◌; equals_iff = λ a b. ((==_iff a b).1, (==_iff a b).0) }

instance unfoldable pub eq_text : Eq Text
eq_text = record {
  equals = same_text;
  equals_iff = λ a b. ((same_text_iff a b).1, (same_text_iff a b).0);
}
