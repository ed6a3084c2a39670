-- ===== src/Quality/Distance.antt =====
-- `_levenshtein` of benchmarks/asr/quality_metrics.py computes the least cost of an edit script.
use nadikt.Base.{
  ℕ, suc, ◌+◌, ◌≤◌, List, [], ◌∷◌, ◌≡◌, refl, ap, arith, min, length, Bool-cases, inl, inr, ◌↔◌,
  max,
}
use mathlib.Core.Path.{subst, subst₂}
use native.Mathlib.Decide.{dec_le}
use native.Mathlib.Nat.{add-zero}
use native.Mathlib.Numerals.{add-one}
use nadikt.Quality.Levenshtein.{Eq, count_up, last, differ, fill_row, rows, levenshtein}
use nadikt.Quality.Edits.{
  Edit, done, keep, replace, insert, delete, onto, onto-onto_self, Edit-onto, length-le_Edit,
}

module _ {ℓ} {A : Type ℓ} ⦃e : Eq A⦄ where
  -- The distance by its recursion, over the lists read backwards.
  dist : List A → List A → ℕ
  dist [] ys = length ys
  dist (x ∷ xs) [] = suc (length xs)
  dist (x ∷ xs) (y ∷ ys) =
      min (min (dist (x ∷ xs) ys + 1) (dist xs (y ∷ ys) + 1)) (dist xs ys + differ x y)

  row_tail : List A → List A → List A → List ℕ
  row_tail rx ry [] = []
  row_tail rx ry (y ∷ ys) = dist rx (y ∷ ry) ∷ row_tail rx (y ∷ ry) ys

  fill_row-eq :
      (x : A) (rx ry ys : List A)
      → fill_row x ys (dist (x ∷ rx) ry) (dist rx ry ∷ row_tail rx ry ys) ≡ row_tail (x ∷ rx) ry ys
  unfolding fill_row row_tail dist
  fill_row-eq x rx ry [] = refl
  fill_row-eq x rx ry (y ∷ ys) = ap (λ t. dist (x ∷ rx) (y ∷ ry) ∷ t) (fill_row-eq x rx (y ∷ ry) ys)

  dist-nil : (rx : List A) → dist rx [] ≡ length rx
  unfolding dist
  dist-nil [] = refl
  dist-nil (x ∷ rx) = refl

  rows-eq :
      (left right rx : List A)
      → rows (suc (length rx)) left right (dist rx [] ∷ row_tail rx [] right)
        ≡ dist (onto left rx) [] ∷ row_tail (onto left rx) [] right
  unfolding rows dist
  rows-eq [] right rx = refl
  rows-eq (x ∷ left) right rx = rw (fill_row-eq x rx [] right) (rows-eq left right (x ∷ rx))

  count_up-eq : (ry ys : List A) → count_up (length ry) (length ys) ≡ dist [] ry ∷ row_tail [] ry ys
  unfolding count_up row_tail dist
  count_up-eq ry [] = refl
  count_up-eq ry (y ∷ ys) = ap (λ t. length ry ∷ t) (count_up-eq (y ∷ ry) ys)

  last-row : (rx ry ys : List A) → last (dist rx ry ∷ row_tail rx ry ys) ≡ dist rx (onto ys ry)
  unfolding last row_tail
  last-row rx ry [] = refl
  last-row rx ry (y ∷ ys) = last-row rx (y ∷ ry) ys

  levenshtein-eq_dist :
      (left right : List A) → levenshtein left right ≡ dist (onto left []) (onto right [])
  unfolding levenshtein
  levenshtein-eq_dist left right =
      rw (count_up-eq [] right, rows-eq left right []) (last-row (onto left []) [] right)

  dist-le_insert : (xs ys : List A) (y : A) → dist xs (y ∷ ys) ≤ dist xs ys + 1
  unfolding dist
  dist-le_insert [] ys y = omega arith
  dist-le_insert (x ∷ xs) ys y = omega arith

  dist-le_delete : (xs ys : List A) (x : A) → dist (x ∷ xs) ys ≤ dist xs ys + 1
  unfolding dist
  dist-le_delete xs [] x = omega (arith, dist-nil xs)
  dist-le_delete xs (y ∷ ys) x = omega arith

  differ-le : (x y : A) → differ x y ≤ 1
  unfolding differ
  differ-le x y = ground arith

  differ_self : (x : A) → differ x x ≡ 0
  unfolding differ
  differ_self x = rw ((e.equals_iff x x).0 refl)

  dist-le_Edit : {xs ys : List A} {n : ℕ} → Edit xs ys n → dist xs ys ≤ n
  unfolding dist
  dist-le_Edit done = omega arith
  dist-le_Edit (keep x s) = omega (arith, dist-le_Edit s, differ_self x)
  dist-le_Edit (replace x y s) = omega (arith, dist-le_Edit s, differ-le x y)
  dist-le_Edit (insert y {xs} {ys} s) = omega (arith, dist-le_Edit s, dist-le_insert xs ys y)
  dist-le_Edit (delete x {xs} {ys} s) = omega (arith, dist-le_Edit s, dist-le_delete xs ys x)

  -- The empty case of `dist-Edit`.
  inserts : (ys : List A) → Edit [] ys (length ys)
  inserts [] = done
  inserts (y ∷ ys) = insert y (inserts ys)

  deletes : (xs : List A) → Edit xs [] (length xs)
  deletes [] = done
  deletes (x ∷ xs) = delete x (deletes xs)

  substitute :
      (x y : A) {xs ys : List A} {n : ℕ} → Edit xs ys n → Edit (x ∷ xs) (y ∷ ys) (n + differ x y)
  unfolding differ
  substitute x y {xs} {ys} {n} s = elim (Bool-cases (e.equals x y)) [
    | inl same ↦
        rw (same, add-zero)
          (subst (λ z. Edit (x ∷ xs) (z ∷ ys) n) ((e.equals_iff x y).1 same) (keep x s))
    | inr other ↦ rw (other, add-one) (replace x y s)
  ]

  smaller : {xs ys : List A} (a b : ℕ) → Edit xs ys a → Edit xs ys b → Edit xs ys (min a b)
  smaller {xs} {ys} a b s t = elim (dec_le a b) [
    | yes p ↦ let q : a ≡ min a b = omega arith in subst (Edit xs ys) q s
    | no p ↦ let q : b ≡ min a b = omega arith in subst (Edit xs ys) q t
  ]

  least :
      {xs ys : List A} (a b c : ℕ)
      → Edit xs ys a
      → Edit xs ys b
      → Edit xs ys c
      → Edit xs ys (min (min a b) c)
  least a b c s t u = smaller (min a b) c (smaller a b s t) u

  dist-Edit : (xs ys : List A) → Edit xs ys (dist xs ys)
  unfolding dist
  dist-Edit [] ys = inserts ys
  dist-Edit (x ∷ xs) [] = delete x (deletes xs)
  dist-Edit (x ∷ xs) (y ∷ ys) =
      least _ _ _ (rw add-one (insert y (dist-Edit (x ∷ xs) ys)))
        (rw add-one (delete x (dist-Edit xs (y ∷ ys)))) (substitute x y (dist-Edit xs ys))

  -- `_levenshtein` returns the cost of an edit script from the first list to the second, and no
  -- script between them costs less.
  pub levenshtein_least :
      (left right : List A)
      → Edit left right (levenshtein left right)
        × ((n : ℕ) → Edit left right n → levenshtein left right ≤ n)
  levenshtein_least left right =
      let (k, p, back) = Edit-onto (dist-Edit (onto left []) (onto right [])) done in
      let q : k ≡ levenshtein left right = omega (arith, p, levenshtein-eq_dist left right) in
      (
        subst (Edit left right) q
            (subst₂ (λ xs ys. Edit xs ys k) (onto-onto_self left) (onto-onto_self right) back),
        λ n s.
            let (m, r, t) = Edit-onto s done in
            omega (arith, dist-le_Edit t, levenshtein-eq_dist left right),
      )

  Edit-zero : {xs ys : List A} {n : ℕ} → Edit xs ys n → n ≡ 0 → xs ≡ ys
  Edit-zero done z = refl
  Edit-zero (keep x s) z = ap (λ t. x ∷ t) (Edit-zero s z)
  Edit-zero (replace x y s) z = absurd (omega arith)
  Edit-zero (insert y s) z = absurd (omega arith)
  Edit-zero (delete x s) z = absurd (omega arith)

  same : (xs : List A) → Edit xs xs 0
  same [] = done
  same (x ∷ xs) = keep x (same xs)

  crude : (xs ys : List A) → (n : ℕ) × (n ≤ max (length xs) (length ys)) × Edit xs ys n
  crude [] ys = (length ys, omega arith, inserts ys)
  crude (x ∷ xs) [] = (suc (length xs), omega arith, delete x (deletes xs))
  crude (x ∷ xs) (y ∷ ys) = let (n, p, s) = crude xs ys in (suc n, omega arith, replace x y s)

  -- The distance of two lists is 0 exactly when they are equal; it is at least the difference of
  -- their lengths, and at most the greater length.
  pub levenshtein_bounds :
      (left right : List A)
      → ((levenshtein left right ≡ 0) ↔ (left ≡ right))
        × (length left ≤ length right + levenshtein left right)
        × (length right ≤ length left + levenshtein left right)
        × (levenshtein left right ≤ max (length left) (length right))
  levenshtein_bounds left right =
      let (best, least) = levenshtein_least left right in
      let (n, p, s) = crude left right in
      let (l, r) = length-le_Edit best in
      (
        (
          λ z. Edit-zero best z,
          λ q. omega (arith, least 0 (subst (λ t. Edit left t 0) q (same left))),
        ),
        l,
        r,
        omega (arith, p, least n s),
      )
