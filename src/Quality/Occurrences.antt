-- ===== src/Quality/Occurrences.antt =====
-- What an occurrence is that `_variant_spans` of benchmarks/asr/quality_metrics.py finds.
use nadikt.Base.{
  ℕ, ◌+◌, ◌-◌, true, Option, none, some, List, [], ◌∷◌, ◌++◌, ◌≡◌, refl, ap, arith, Bool-cases, inl,
  inr, All, length, Option-cases, ◌==◌, is_empty, ◌&&◌,
}
use nadikt.Quality.Tokens.{Text, normalized_phrase}
use nadikt.Quality.Spans.{
  Span, after_prefix, is_free, head?, matches_here, find_spans, variant_spans,
}

-- The character to the left of what follows `text`.
abbrev pub last_char : Option ℕ → Text → Option ℕ
last_char before [] = before
last_char before (c ∷ cs) = last_char (some c) cs

-- `text`, which begins at position `at` after `before`, has `variant` at the span, between two
-- characters (or ends) that are no word characters.
pub record IsOccurrence (variant : Text) (before : Option ℕ) (at : ℕ) (text : Text) (s : Span)
    : Type 0 where
  pub left : Text
  pub right : Text
  pub splits : text ≡ left ++ (variant ++ right)
  pub starts : s.start ≡ at + length left
  pub stops : s.stop ≡ s.start + length variant
  pub free_left : is_free (last_char before left) ≡ true
  pub free_right : is_free (head? right) ≡ true

after_prefix-eq :
    (variant text rest : Text) → after_prefix variant text ≡ some rest → text ≡ variant ++ rest
unfolding after_prefix
after_prefix-eq [] text rest h = ground arith
after_prefix-eq (v ∷ vs) [] rest h = absurd (ground arith)
after_prefix-eq (v ∷ vs) (c ∷ cs) rest h = elim (Bool-cases (v == c)) [
  | inl q ↦ ground (arith, after_prefix-eq vs cs rest)
  | inr q ↦ absurd (ground arith)
]

IsOccurrence-here :
    (variant text : Text) (before : Option ℕ) (at : ℕ)
    → matches_here variant before text ≡ true
    → IsOccurrence variant before at text (record { start = at; stop = at + length variant })
unfolding matches_here
IsOccurrence-here variant text before at h = elim (Option-cases (after_prefix variant text)) [
  | inl q ↦ absurd (ground arith)
  | inr (rest, q) ↦ record {
    left = [];
    right = rest;
    splits = after_prefix-eq variant text rest q;
    starts = omega arith;
    stops = refl;
    free_left = ground arith;
    free_right = ground arith;
  }
]

IsOccurrence-later :
    {variant text : Text} {c : ℕ} {before : Option ℕ} {at : ℕ} {s : Span}
    → IsOccurrence variant (some c) (at + 1) text s
    → IsOccurrence variant before at (c ∷ text) s
IsOccurrence-later {c = c} o = record {
  left = c ∷ o.left;
  right = o.right;
  splits = ap (λ t. c ∷ t) o.splits;
  starts = omega (arith, o.starts);
  stops = o.stops;
  free_left = o.free_left;
  free_right = o.free_right;
}

All-map {ℓ κ κ'} :
    {A : Type ℓ} {P : A → Type κ} {Q : A → Type κ'}
    → ((a : A) → P a → Q a)
    → (xs : List A) → All P xs
    → All Q xs
All-map f [] h = tt
All-map f (x ∷ xs) h = (f x h.0, All-map f xs h.1)

find_spans-IsOccurrence :
    (variant : Text) (before : Option ℕ) (at skip : ℕ) (text : Text)
    → All (IsOccurrence variant before at text) (find_spans variant before at skip text)
unfolding find_spans
find_spans-IsOccurrence variant before at skip [] = tt
find_spans-IsOccurrence variant before at skip (c ∷ cs) =
    elim (Bool-cases (skip == 0 && matches_here variant before (c ∷ cs))) [
      | inl q ↦ rw q (
        IsOccurrence-here variant (c ∷ cs) before at (ground arith),
        All-map (λ s. IsOccurrence-later) _
            (find_spans-IsOccurrence variant (some c) (at + 1) (length variant - 1) cs),
      )
      | inr q ↦ rw q (
          All-map (λ s. IsOccurrence-later) _
            (find_spans-IsOccurrence variant (some c) (at + 1) (skip - 1) cs))
    ]

-- Each span found for a variant is an occurrence of its normalized phrase in the hypothesis, and no
-- word character stands directly before or after it.
pub variant_spans-IsOccurrence :
    (fold : Text → Text) (hypothesis variant : Text)
    → All
        (IsOccurrence (normalized_phrase fold variant) none 0 hypothesis)
        (variant_spans fold hypothesis variant)
unfolding variant_spans
variant_spans-IsOccurrence fold hypothesis variant =
    elim (Bool-cases (is_empty (normalized_phrase fold variant))) [
      | inl q ↦ rw q tt
      | inr q ↦ rw q (find_spans-IsOccurrence (normalized_phrase fold variant) none 0 0 hypothesis)
    ]
