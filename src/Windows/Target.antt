-- ===== src/Windows/Target.antt =====
-- experiments/windows_insertion/insertion_spike/windows_target.py: the identities of targets and
-- `WindowsTargetAdapter`. `WindowsTargetApi` is a protocol, so it is a parameter on a world.
pub mod Assessing
pub mod System
pub mod Handles
use nadikt.Base.{
  ℕ, String, Bool, true, false, not, ◌&&◌, ◌||◌, Option, none, some, List, [], ◌∷◌, ◌==◌,
  if◌then◌else◌,
}
use nadikt.Base.Dict
use nadikt.Base.Dict.{Dict}
use nadikt.Base.Result.{Result, ok, err}
use nadikt.Base.Exec.{Exec, pure, raise, ◌>>=◌}
use nadikt.Insertion.Contracts.{OutcomeCode, TargetToken, TargetAssessment, Raised}

pub record WindowsIdentity : Type 0 where
  pub top_window : ℕ
  pub process_id : ℕ
  pub thread_id : ℕ
  pub focused_control : ℕ
  pub automation_id : Option (List ℕ)
  pub process_marker : ℕ

pub record WindowsTargetApi : Type 1 where
  pub World : Type 0
  pub capture_identity : Exec Raised World (Option WindowsIdentity)
  pub is_window : WindowsIdentity → Exec Raised World Bool
  pub classic_password_state : WindowsIdentity → Exec Raised World (Option Bool)
  pub automation_password_state : WindowsIdentity → Exec Raised World (Option Bool)
  pub is_higher_integrity : WindowsIdentity → Exec Raised World (Option Bool)

-- What `capture` raises: `TargetCaptureError`, or what the system's part raised.
pub data CaptureRaised : Type 0 where
  target_capture_error : CaptureRaised
  other : Raised → CaptureRaised

-- The fields of the adapter beside the world.
pub record TargetState (W : Type 0) : Type 0 where
  pub captured_identities : Dict WindowsIdentity
  pub world : W

unfoldable pub same_ids : List ℕ → List ℕ → Bool
same_ids [] [] = true
same_ids [] (y ∷ ys) = false
same_ids (x ∷ xs) [] = false
same_ids (x ∷ xs) (y ∷ ys) = x == y && same_ids xs ys

-- `captured.automation_id == current.automation_id`, where the first is given.
unfoldable pub same_automation : Option (List ℕ) → Option (List ℕ) → Bool
unfolding same_ids
same_automation none current = true
same_automation (some xs) none = false
same_automation (some xs) (some ys) = same_ids xs ys

-- `_same_identity`
unfoldable pub same_identity : WindowsIdentity → WindowsIdentity → Bool
unfolding same_automation
same_identity captured current =
    captured.top_window == current.top_window
    && captured.process_id == current.process_id
    && captured.thread_id == current.thread_id
    && captured.focused_control == current.focused_control
    && captured.process_marker == current.process_marker
    && same_automation captured.automation_id current.automation_id

-- The last part of `assess`: what the two probes for a password field say.
unfoldable pub protection : Option Bool → Option Bool → Option OutcomeCode
protection (some true) automation = some OutcomeCode.target_protected
protection classic (some true) = some OutcomeCode.target_protected
protection none none = some OutcomeCode.target_unavailable
protection classic automation = none

module _ (api : WindowsTargetApi) where
  abbrev pub T : Type 0 → Type 0
  T R = Exec Raised (TargetState api.World) R

  unfoldable pub call : {R : Type 0} → Exec Raised api.World R → T R
  call op s = let (r, w) = op s.world in (r, record s { world = w })

  abbrev pub found : OutcomeCode → T TargetAssessment
  found code = pure (record { code = some code })

  -- `capture`, the key being the text of a new `uuid4`.
  unfoldable pub capture : String → Exec CaptureRaised (TargetState api.World) TargetToken
  unfolding call
  capture key s =
      let (r, s') = call api.capture_identity s in
      elim r [
        | err e ↦ (err (other e), s')
        | ok none ↦ (err target_capture_error, s')
        | ok (some identity) ↦ (
          ok (record { key = key }),
          record s' { captured_identities = Dict.insert key identity s'.captured_identities },
        )
      ]

  unfoldable pub assess_protection : WindowsIdentity → T TargetAssessment
  unfolding call protection
  assess_protection current = do
    classic ← call (api.classic_password_state current)
    automation ← call (api.automation_password_state current)
    pure (record { code = protection classic automation })

  unfoldable pub assess_integrity : WindowsIdentity → T TargetAssessment
  unfolding call assess_protection
  assess_integrity current = do
    elevated ← call (api.is_higher_integrity current)
    elim elevated [
      | none ↦ found OutcomeCode.target_unavailable
      | some true ↦ found OutcomeCode.target_elevated
      | some false ↦ assess_protection current
    ]

  unfoldable pub assess_current : WindowsIdentity → T TargetAssessment
  unfolding call same_identity assess_integrity
  assess_current captured = do
    answer ← call api.capture_identity
    elim answer [
      | none ↦ found OutcomeCode.target_unavailable
      | some current ↦
          if same_identity captured current
          then assess_integrity current
          else found OutcomeCode.target_changed
    ]

  unfoldable pub assess_captured : WindowsIdentity → T TargetAssessment
  unfolding call assess_current
  assess_captured captured = do
    there ← call (api.is_window captured)
    if there then assess_current captured else found OutcomeCode.target_unavailable

  unfoldable pub assess : TargetToken → T TargetAssessment
  unfolding assess_captured
  assess token s = elim (Dict.get s.captured_identities token.key) [
    | none ↦ found OutcomeCode.target_unavailable s
    | some captured ↦ assess_captured captured s
  ]
