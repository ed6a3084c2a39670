-- ===== src/Windows/Target/Handles.antt =====
-- Handles that windows_target.py opens are closed.
use nadikt.Base.{ℕ, List, [], ◌∷◌, ◌==◌, ◌≡◌, arith, if◌then◌else◌, inl, inr}
use nadikt.Base.Result.{Result-cases}
use nadikt.Windows.Target.{WindowsIdentity}
use nadikt.Windows.Target.System.{
  TargetSystem, HandleEvent, opened, closed, SystemState, H, ask, rid_of_token, rid_of_process,
  integrity_rid_for_process, process_creation_marker, identity_of, capture_identity,
  is_higher_integrity,
}

abbrev without : ℕ → List ℕ → List ℕ
without h [] = []
without h (x ∷ xs) = if x == h then xs else x ∷ without h xs

-- The handles that are open after the recorded events.
abbrev pub open_handles : List HandleEvent → List ℕ
open_handles [] = []
open_handles (opened h ∷ rest) = h ∷ open_handles rest
open_handles (closed h ∷ rest) = without h (open_handles rest)

module _ (sys : TargetSystem) where
  -- The action leaves the same handles open, also where it raises.
  abbrev pub Closes : {R : Type 0} → H sys R → Type 0
  Closes m = (s : SystemState sys.World) → open_handles (m s).1.log ≡ open_handles s.log

  rid_of_token-log :
      (token : ℕ) (s : SystemState sys.World) → (rid_of_token sys token s).1.log ≡ s.log
  unfolding rid_of_token
  rid_of_token-log token s = ground arith

  rid_of_process-Closes : (process : ℕ) → Closes (rid_of_process sys process)
  unfolding rid_of_process
  rid_of_process-Closes process s = grind (arith, rid_of_token-log)

  integrity_rid-Closes : (id : ℕ) → Closes (integrity_rid_for_process sys id)
  unfolding integrity_rid_for_process
  integrity_rid-Closes id s = grind (arith, rid_of_process-Closes)

  creation_marker-Closes : (id : ℕ) → Closes (process_creation_marker sys id)
  unfolding process_creation_marker
  creation_marker-Closes id s = ground arith

  capture_identity-Closes : Closes (capture_identity sys)
  unfolding capture_identity identity_of ask
  capture_identity-Closes s = grind (arith, creation_marker-Closes)

  is_higher_integrity-Closes :
      (identity : WindowsIdentity) → Closes (is_higher_integrity sys identity)
  unfolding is_higher_integrity ask
  is_higher_integrity-Closes identity s =
      let p = integrity_rid-Closes identity.process_id s in
      let s' = (integrity_rid_for_process sys identity.process_id s).1 in
      let q = integrity_rid-Closes in
      elim (Result-cases (integrity_rid_for_process sys identity.process_id s).0) [
        | inr (e, r) ↦ ground (arith, p)
        | inl (t, r) ↦ elim (Result-cases (sys.get_current_process_id s'.world).0) [
          | inr (e, r') ↦ ground (arith, p)
          | inl (id, r') ↦
              ground
                (arith, p, q id (record s' { world = (sys.get_current_process_id s'.world).1 }))
        ]
      ]

  -- `capture_identity` and `is_higher_integrity` close each handle that they open: they leave the
  -- same handles open, also where they raise.
  pub probes-Closes :
      Closes (capture_identity sys)
      × ((identity : WindowsIdentity) → Closes (is_higher_integrity sys identity))
  probes-Closes = (capture_identity-Closes, is_higher_integrity-Closes)
