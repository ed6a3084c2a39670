-- ===== src/Quality/Levenshtein.antt =====
-- `_levenshtein` of benchmarks/asr/quality_metrics.py, over any type whose `==` is decided.
use nadikt.Base.{ℕ, zero, suc, ◌+◌, Bool, true, List, [], ◌∷◌, ◌≡◌, min, if◌then◌else◌, length, ◌↔◌}

pub record Eq {ℓ} (A : Type ℓ) : Type ℓ where
  pub equals : (left right : A) → Bool
  pub equals_iff : (left right : A) → (left ≡ right) ↔ (equals left right ≡ true)

-- `list(range(start, start + n + 1))`, as `previous` begins.
unfoldable pub count_up : ℕ → ℕ → List ℕ
count_up start zero = start ∷ []
count_up start (suc n) = start ∷ count_up (suc start) n

-- `previous[-1]`; the row is never empty.
unfoldable pub last : List ℕ → ℕ
last [] = 0
last (x ∷ []) = x
last (x ∷ y ∷ ys) = last (y ∷ ys)

module _ {ℓ} {A : Type ℓ} ⦃e : Eq A⦄ where
  -- `left_value != right_value`, as a number.
  unfoldable pub differ : A → A → ℕ
  differ x y = if e.equals x y then 0 else 1

  -- The inner loop: `cell` is `current[right_index - 1]`, and the list begins at
  -- `previous[right_index - 1]`.
  unfoldable pub fill_row : A → List A → ℕ → List ℕ → List ℕ
  fill_row x (y ∷ right) cell (diagonal ∷ above ∷ previous) =
      let next = min (min (cell + 1) (above + 1)) (diagonal + differ x y) in
      next ∷ fill_row x right next (above ∷ previous)
  fill_row x _ cell _ = []

  -- The outer loop, with `left_index` counted from `index`.
  unfoldable pub rows : ℕ → List A → List A → List ℕ → List ℕ
  rows index [] right previous = previous
  rows index (x ∷ left) right previous =
      rows (suc index) left right (index ∷ fill_row x right index previous)

  unfoldable pub levenshtein : List A → List A → ℕ
  levenshtein left right = last (rows 1 left right (count_up 0 (length right)))
