-- ===== src/Quality/Edits.antt =====
-- Edit scripts: what `_levenshtein` of benchmarks/asr/quality_metrics.py minimises.
use nadikt.Base.{ℕ, suc, ◌+◌, ◌≤◌, List, [], ◌∷◌, ◌++◌, ◌≡◌, refl, ◌∙◌, arith, length}
use mathlib.Core.List.{append-nil}

module _ {ℓ} {A : Type ℓ} where
  -- `Edit xs ys n`: a script of cost `n` turns `xs` into `ys`. An equal element is kept for nothing;
  -- to insert, to delete or to replace an element costs 1.
  pub data Edit : List A → List A → ℕ → Type ℓ where
    done : Edit [] [] 0
    keep : (x : A) {xs ys : List A} {n : ℕ} → Edit xs ys n → Edit (x ∷ xs) (x ∷ ys) n
    replace : (x y : A) {xs ys : List A} {n : ℕ} → Edit xs ys n → Edit (x ∷ xs) (y ∷ ys) (suc n)
    insert : (y : A) {xs ys : List A} {n : ℕ} → Edit xs ys n → Edit xs (y ∷ ys) (suc n)
    delete : (x : A) {xs ys : List A} {n : ℕ} → Edit xs ys n → Edit (x ∷ xs) ys (suc n)

  -- The list read backwards, before `acc`.
  abbrev pub onto : List A → List A → List A
  onto [] acc = acc
  onto (x ∷ xs) acc = onto xs (x ∷ acc)

  onto-onto : (xs us vs : List A) → onto (onto xs us) vs ≡ onto us (xs ++ vs)
  onto-onto [] us vs = refl
  onto-onto (x ∷ xs) us vs = onto-onto xs (x ∷ us) vs

  pub onto-onto_self : (xs : List A) → onto (onto xs []) [] ≡ xs
  onto-onto_self xs = onto-onto xs [] [] ∙ append-nil xs

  -- A script can be read backwards.
  pub Edit-onto :
      {xs ys us vs : List A} {n m : ℕ}
      → Edit xs ys n
      → Edit us vs m
      → (k : ℕ) × (k ≡ n + m) × Edit (onto xs us) (onto ys vs) k
  Edit-onto {m = m} done f = (m, omega arith, f)
  Edit-onto (keep x e) f = let (k, p, g) = Edit-onto e (keep x f) in (k, omega arith, g)
  Edit-onto (replace x y e) f = let (k, p, g) = Edit-onto e (replace x y f) in (k, omega arith, g)
  Edit-onto (insert y e) f = let (k, p, g) = Edit-onto e (insert y f) in (k, omega arith, g)
  Edit-onto (delete x e) f = let (k, p, g) = Edit-onto e (delete x f) in (k, omega arith, g)

  pub length-le_Edit :
      {xs ys : List A} {n : ℕ}
      → Edit xs ys n
      → (length xs ≤ length ys + n) × (length ys ≤ length xs + n)
  length-le_Edit done = omega arith
  length-le_Edit (keep x e) = omega (arith, length-le_Edit e)
  length-le_Edit (replace x y e) = omega (arith, length-le_Edit e)
  length-le_Edit (insert y e) = omega (arith, length-le_Edit e)
  length-le_Edit (delete x e) = omega (arith, length-le_Edit e)
