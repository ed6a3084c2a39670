-- ===== src/Insertion/Contracts.antt =====
-- experiments/windows_insertion/insertion_spike/contracts.py: the platform-neutral data of the
-- insertion spike and the three adapters. The adapters are protocols, so they are a parameter over
-- a world of their own; a call of theirs may raise an `Exception` or another `BaseException`.
use nadikt.Base.{ℕ, String, Bool, true, false, Option, none, some}
use nadikt.Base.Exec.{Exec}

pub data InsertionMethod : Type 0 where
  auto paste direct : InsertionMethod

pub data OutcomeCode : Type 0 where
  dispatched direct_dispatched cancelled busy already_delivered : OutcomeCode
  target_changed target_unavailable target_protected target_elevated : OutcomeCode
  clipboard_unsafe clipboard_failed dispatch_failed : OutcomeCode
  cleanup_failed restore_failed boundary_failure : OutcomeCode

-- Membership in `SAFE_ERROR_CODES`.
unfoldable pub is_safe_error : OutcomeCode → Bool
is_safe_error dispatched = false
is_safe_error direct_dispatched = false
is_safe_error _ = true

pub record InsertionRequest : Type 0 where
  pub request_id : String
  pub text : String
  pub method : InsertionMethod

pub record TargetToken : Type 0 where
  pub key : String

pub record TargetAssessment : Type 0 where
  pub code : Option OutcomeCode

unfoldable pub is_safe : TargetAssessment → Bool
is_safe a = elim a.code [ none ↦ true | some c ↦ false ]

-- The state that the clipboard adapter keeps is opaque.
pub record ClipboardSnapshot (Object : Type 0) : Type 0 where
  pub state : Object

pub record ClipboardPreparation (Object : Type 0) : Type 0 where
  pub is_safe : Bool
  pub snapshot : Option (ClipboardSnapshot Object)
  pub code : Option OutcomeCode

pub record RestoreResult : Type 0 where
  pub restored : Bool
  pub external_change : Bool

pub record DispatchResult : Type 0 where
  pub dispatched : Bool
  pub code : Option OutcomeCode

pub record InsertionOutcome : Type 0 where
  pub request_id : String
  pub code : OutcomeCode
  pub retained_in_memory : Bool
  pub original_snapshot_retained : Bool
  pub duration_ms : ℕ

-- `interrupt` is a `BaseException` that is no `Exception`, such as `KeyboardInterrupt`.
pub data Raised : Type 0 where
  exception interrupt : Raised

-- `TargetAdapter`, `ClipboardAdapter` and `InputInjector`, and the clock in whole milliseconds.
pub record Adapters : Type 1 where
  pub World : Type 0
  pub Object : Type 0
  pub monotonic : World → ℕ
  pub assess : TargetToken → Exec Raised World TargetAssessment
  pub prepare : Exec Raised World (ClipboardPreparation Object)
  pub commit_mutation : String → Exec Raised World (Unit {0})
  pub restore : ClipboardSnapshot Object → Exec Raised World RestoreResult
  pub discard : ClipboardSnapshot Object → Exec Raised World (Unit {0})
  pub prepare_dispatch : Exec Raised World Bool
  pub dispatch_paste : Exec Raised World DispatchResult
  pub dispatch_unicode : String → Exec Raised World DispatchResult
