-- ===== src/Windows/Clipboard/Heap.antt =====
-- The objects of windows_clipboard.py by their addresses.
use nadikt.Base.{ℕ, zero, suc, Option, none, some, List, [], ◌∷◌, ◌++◌, length, ◌≡◌, refl, arith}

module _ {A : Type 0} where
  unfoldable pub lookup : ℕ → List A → Option A
  lookup address [] = none
  lookup zero (x ∷ xs) = some x
  lookup (suc address) (x ∷ xs) = lookup address xs

  unfoldable pub update : ℕ → (A → A) → List A → List A
  update address f [] = []
  update zero f (x ∷ xs) = f x ∷ xs
  update (suc address) f (x ∷ xs) = x ∷ update address f xs

  pub lookup-update :
      (address : ℕ) (f : A → A) (xs : List A) (x : A)
      → lookup address xs ≡ some x
      → lookup address (update address f xs) ≡ some (f x)
  unfolding lookup update
  lookup-update address f [] x h = absurd (ground arith)
  lookup-update zero f (y ∷ xs) x h = ground arith
  lookup-update (suc address) f (y ∷ xs) x h = lookup-update address f xs x h

  pub lookup-append : (xs : List A) (x : A) → lookup (length xs) (xs ++ x ∷ []) ≡ some x
  unfolding lookup
  lookup-append [] x = refl
  lookup-append (y ∷ xs) x = lookup-append xs x
