-- ===== src/Asr/Closing.antt =====
-- `close` of the engines of src/nadikt/infrastructure/asr.
use nadikt.Base.{false, some, ◌≡◌, refl, arith, Option-cases, inl, inr}
use nadikt.Base.Result.{Result, ok, err}
use nadikt.Base.Exec.{Exec}
use nadikt.Asr.Ports.{
  AsrFailureCode, Raised, engine_error, value_error, import_error, attribute_error, exception,
  interrupt,
}
use nadikt.Asr.Engine.{Sdk, State, close, is_ready, call, fail, catch_exception, set_model}

-- Raised by the engine as this failure, or an interrupt.
abbrev pub IsFailure : AsrFailureCode → Raised → Type 0
IsFailure code (engine_error f) = f.code ≡ code
IsFailure code interrupt = Unit
IsFailure code _ = ⊥

-- What is raised, if anything is, has the property.
abbrev pub Raises : {R : Type 0} → (Raised → Type 0) → Result Raised R → Type 0
Raises P (ok r) = Unit
Raises P (err e) = P e

-- Not ready, only a failed release is raised, and a second `close` does nothing.
abbrev Closed : {S : Sdk} {O : Type 0} → State S O → Type 0
Closed s =
    (is_ready (close s).1 ≡ false)
    × Raises (IsFailure AsrFailureCode.resource_release_failed) (close s).0
    × (close (close s).1 ≡ (ok tt, (close s).1))

released :
    {S : Sdk} {O : Type 0} (s : State S O) (m : S.Model) (op : Exec Raised S.World (Unit {0}))
    → s.engine.model ≡ some m
    → S.close_model m ≡ some op
    → (r : Result Raised (Unit {0})) (w : S.World) → op s.world ≡ (r, w)
    → Closed s
unfolding close is_ready call fail catch_exception set_model
released s m op e f (ok u) w q = ground arith
released s m op e f (err (engine_error x)) w q = ground arith
released s m op e f (err (value_error x)) w q = ground arith
released s m op e f (err import_error) w q = ground arith
released s m op e f (err attribute_error) w q = ground arith
released s m op e f (err exception) w q = ground arith
released s m op e f (err interrupt) w q = ground arith

-- After `close` the engine is not ready, also where the release of the model fails; only that
-- failure or an interrupt is raised; and to close again does nothing and succeeds.
pub close_twice :
    {S : Sdk} {O : Type 0} (s : State S O)
    → (is_ready (close s).1 ≡ false)
      × Raises (IsFailure AsrFailureCode.resource_release_failed) (close s).0
      × (close (close s).1 ≡ (ok tt, (close s).1))
unfolding close is_ready set_model
close_twice {S} s = elim (Option-cases s.engine.model) [
  | inl e ↦ rw e (refl, tt, refl)
  | inr (m, e) ↦ elim (Option-cases (S.close_model m)) [
    | inl f ↦ rw e (rw f (refl, tt, refl))
    | inr (op, f) ↦ released s m op e f (op s.world).0 (op s.world).1 refl
  ]
]
