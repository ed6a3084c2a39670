-- ===== src/Base/Exec/Preserve.antt =====
-- What an action makes of a fact about its state, whether it returns or raises.
use nadikt.Base.Result.{Result, ok, err}
use nadikt.Base.Exec.{Exec, ◌>>=◌}

-- From a state with `P` the action ends with a result and a state that `Q` relates.
pub record Leads {ℓ} {E S A : Type ℓ} (P : S → Type ℓ) (Q : Result E A → S → Type ℓ)
    (m : Exec E S A) : Type ℓ where
  pub from : (s : S) → P s → Q (m s).0 (m s).1

module _ {ℓ} {E S A B : Type ℓ} {P : S → Type ℓ} {Q : Result E B → S → Type ℓ} where
  pub Leads-bind :
      (R : Result E A → S → Type ℓ) (m : Exec E S A) (f : A → Exec E S B)
      → ((e : E) (s : S) → R (err e) s → Q (err e) s)
      → Leads P R m
      → ((a : A) → Leads (R (ok a)) Q (f a))
      → Leads P Q (m >>= f)
  Leads-bind R m f raises km kf = record { from = λ s h. go (m s).0 (m s).1 (km.from s h) }
    where
      go :
          (r : Result E A) (s' : S)
          → R r s'
          → let x : Result E B × S = elim r [ ok a ↦ f a s' | err e ↦ (err e, s') ] in Q x.0 x.1
      go (ok a) s' h = (kf a).from s' h
      go (err e) s' h = raises e s' h
