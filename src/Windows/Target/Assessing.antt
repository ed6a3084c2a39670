-- ===== src/Windows/Target/Assessing.antt =====
-- When `assess` of windows_target.py finds a target safe.
use nadikt.Base.{
  ℕ, Bool, true, false, Option, none, some, List, [], ◌∷◌, ◌≡◌, ◌≢◌, ◌⊎◌, ◌↔◌, refl, ap, arith,
  ==_iff, Option-cases, Bool-cases, inl, inr,
}
use nadikt.Base.Dict
use nadikt.Base.Result.{Result-cases, ok}
use nadikt.Insertion.Contracts.{TargetToken, TargetAssessment}
use nadikt.Windows.Target.{
  WindowsIdentity, WindowsTargetApi, TargetState, call, same_ids, same_automation, same_identity,
  protection, assess, assess_captured, assess_current, assess_integrity, assess_protection,
}

-- The current window, process, thread, focused control and process marker are the captured ones, and
-- so is the automation id where one was captured.
pub record IsSame (captured current : WindowsIdentity) : Type 0 where
  pub window : captured.top_window ≡ current.top_window
  pub process : captured.process_id ≡ current.process_id
  pub thread : captured.thread_id ≡ current.thread_id
  pub control : captured.focused_control ≡ current.focused_control
  pub marker : captured.process_marker ≡ current.process_marker
  pub automation :
      (captured.automation_id ≡ none) ⊎ (captured.automation_id ≡ current.automation_id)

-- Of the two probes for a password field one says no and none says yes.
abbrev pub IsUnprotected : Option Bool → Option Bool → Type 0
IsUnprotected classic automation =
    (classic ≢ some true)
    × (automation ≢ some true)
    × ((classic ≡ some false) ⊎ (automation ≡ some false))

same_ids_iff : (xs ys : List ℕ) → (same_ids xs ys ≡ true) ↔ (xs ≡ ys)
unfolding same_ids
same_ids_iff [] [] = (λ e. refl, λ e. refl)
same_ids_iff [] (y ∷ ys) = (λ e. absurd (ground arith), λ e. absurd (ground arith))
same_ids_iff (x ∷ xs) [] = (λ e. absurd (ground arith), λ e. absurd (ground arith))
same_ids_iff (x ∷ xs) (y ∷ ys) = (
  λ e. ground (arith, ==_iff x y, same_ids_iff xs ys),
  λ e. ground (arith, ==_iff x y, same_ids_iff xs ys),
)

same_automation_iff :
    (a b : Option (List ℕ)) → (same_automation a b ≡ true) ↔ ((a ≡ none) ⊎ (a ≡ b))
unfolding same_automation
same_automation_iff none b = (λ e. inl refl, λ e. refl)
same_automation_iff (some xs) none = (λ e. absurd (ground arith), λ e. absurd (ground arith))
same_automation_iff (some xs) (some ys) =
    (λ e. inr (ap some ((same_ids_iff xs ys).0 e)), λ e. ground (arith, same_ids_iff xs ys))

same_identity_iff : (a b : WindowsIdentity) → (same_identity a b ≡ true) ↔ IsSame a b
unfolding same_identity
same_identity_iff a b =
    let w = ==_iff a.top_window b.top_window in
    let p = ==_iff a.process_id b.process_id in
    let t = ==_iff a.thread_id b.thread_id in
    let c = ==_iff a.focused_control b.focused_control in
    let m = ==_iff a.process_marker b.process_marker in
    let u = same_automation_iff a.automation_id b.automation_id in
    (
      λ e. record {
        window = ground (arith, w);
        process = ground (arith, p);
        thread = ground (arith, t);
        control = ground (arith, c);
        marker = ground (arith, m);
        automation = u.0 (ground arith);
      },
      λ h.
          let u' = u.1 h.automation in
          let w' = w.1 h.window in
          let p' = p.1 h.process in
          let t' = t.1 h.thread in let c' = c.1 h.control in let m' = m.1 h.marker in ground arith,
    )

protection_iff :
    (classic automation : Option Bool)
    → (protection classic automation ≡ none) ↔ IsUnprotected classic automation
unfolding protection
protection_iff (some true) a = (λ e. absurd (ground arith), λ h. absurd (h.0 refl))
protection_iff none (some true) = (λ e. absurd (ground arith), λ h. absurd (h.1 refl))
protection_iff (some false) (some true) = (λ e. absurd (ground arith), λ h. absurd (h.1 refl))
protection_iff none none = (λ e. absurd (ground arith), λ h. absurd (ground arith))
protection_iff none (some false) = (λ e. ground arith, λ h. refl)
protection_iff (some false) none = (λ e. ground arith, λ h. refl)
protection_iff (some false) (some false) = (λ e. ground arith, λ h. refl)

module _ (api : WindowsTargetApi) where
  -- The answers of the system that clear a target: the captured window is still there, the current
  -- identity is the captured one, it is not elevated, and of the two probes for a password field
  -- one says no and none says yes. Each question is asked in the world that the last one left.
  pub record IsClear (token : TargetToken) (s : TargetState api.World) : Type 0 where
    pub captured : WindowsIdentity
    pub current : WindowsIdentity
    pub classic : Option Bool
    pub automation : Option Bool
    pub known : Dict.get s.captured_identities token.key ≡ some captured
    pub is_there : (api.is_window captured s.world).0 ≡ ok true
    pub is_current : (api.capture_identity (api.is_window captured s.world).1).0 ≡ ok (some current)
    pub is_same : IsSame captured current
    pub is_level :
        (api.is_higher_integrity current
          (api.capture_identity (api.is_window captured s.world).1).1).0
        ≡ ok (some false)
    pub is_classic :
        (api.classic_password_state current
          (api.is_higher_integrity current
            (api.capture_identity (api.is_window captured s.world).1).1).1).0
        ≡ ok classic
    pub is_automation :
        (api.automation_password_state current
          (api.classic_password_state current
            (api.is_higher_integrity current
              (api.capture_identity (api.is_window captured s.world).1).1).1).1).0
        ≡ ok automation
    pub unprotected : IsUnprotected classic automation

  -- What one stage of `assess` says of the next, `w` being the world that it begins in.
  abbrev IsCleared : WindowsIdentity → api.World → Type 0
  IsCleared current w =
      (classic : Option Bool) × (automation : Option Bool) × ((api.classic_password_state current
          w).0
        ≡ ok classic)
      × ((api.automation_password_state current (api.classic_password_state current w).1).0
          ≡ ok automation)
      × (protection classic automation ≡ none)

  unprotected :
      (current : WindowsIdentity) (s : TargetState api.World) (a : TargetAssessment)
      → (assess_protection api current s).0 ≡ ok a
      → a.code ≡ none
      → IsCleared current s.world
  unfolding assess_protection call
  unprotected current s a h q = elim (Result-cases (api.classic_password_state current s.world).0) [
    | inr (e, p) ↦ absurd (ground arith)
    | inl (classic, p) ↦
        elim (Result-cases
          (api.automation_password_state current
            (api.classic_password_state current s.world).1).0) [
              | inr (e, p') ↦ absurd (ground arith)
              | inl (automation, p') ↦ (classic, automation, p, p', ground arith)
            ]
  ]

  level :
      (current : WindowsIdentity) (s : TargetState api.World) (a : TargetAssessment)
      → (assess_integrity api current s).0 ≡ ok a
      → a.code ≡ none
      → ((api.is_higher_integrity current s.world).0 ≡ ok (some false))
        × IsCleared current (api.is_higher_integrity current s.world).1
  unfolding assess_integrity call
  level current s a h q = elim (Result-cases (api.is_higher_integrity current s.world).0) [
    | inr (e, p) ↦ absurd (ground arith)
    | inl (none, p) ↦ absurd (ground arith)
    | inl (some true, p) ↦ absurd (ground arith)
    | inl (some false, p) ↦ (
      p,
      unprotected current (record s { world = (api.is_higher_integrity current s.world).1 }) a
          (ground arith) q,
    )
  ]

  unchanged :
      (captured : WindowsIdentity) (s : TargetState api.World) (a : TargetAssessment)
      → (assess_current api captured s).0 ≡ ok a
      → a.code ≡ none
      → (current : WindowsIdentity) × ((api.capture_identity s.world).0 ≡ ok (some current))
        × (same_identity captured current ≡ true)
        × ((api.is_higher_integrity current (api.capture_identity s.world).1).0 ≡ ok (some false))
        × IsCleared current (api.is_higher_integrity current (api.capture_identity s.world).1).1
  unfolding assess_current call
  unchanged captured s a h q = elim (Result-cases (api.capture_identity s.world).0) [
    | inr (e, p) ↦ absurd (ground arith)
    | inl (none, p) ↦ absurd (ground arith)
    | inl (some current, p) ↦ elim (Bool-cases (same_identity captured current)) [
      | inr different ↦ absurd (ground arith)
      | inl same ↦
          let (l, u) =
            level current (record s { world = (api.capture_identity s.world).1 }) a (ground arith)
              q in
          (current, p, same, l, u)
    ]
  ]

  -- `assess` finds a target safe exactly when the system's answers clear it: the captured window is
  -- still there; the current window, process, thread, focused control, process marker and, where one
  -- was captured, automation id are the captured ones; the process is not elevated; and of the two
  -- probes for a password field one says no and none says yes.
  pub assess-IsClear :
      (token : TargetToken) (s : TargetState api.World)
      → ((a : TargetAssessment) → (assess api token s).0 ≡ ok a → a.code ≡ none → IsClear token s)
        × (IsClear token s → (assess api token s).0 ≡ ok (record { code = none }))
  unfolding assess assess_captured assess_current assess_integrity assess_protection call
  assess-IsClear token s = (
    λ a h q. elim (Option-cases (Dict.get s.captured_identities token.key)) [
      | inl p ↦ absurd (ground arith)
      | inr (captured, p) ↦ elim (Result-cases (api.is_window captured s.world).0) [
        | inr (e, p') ↦ absurd (ground arith)
        | inl (false, p') ↦ absurd (ground arith)
        | inl (true, p') ↦
            let (current, c, same, l, (classic, automation, x, y, z)) =
              unchanged captured (record s { world = (api.is_window captured s.world).1 }) a
                (ground arith) q in
            record {
              captured = captured;
              current = current;
              classic = classic;
              automation = automation;
              known = p;
              is_there = p';
              is_current = c;
              is_same = (same_identity_iff captured current).0 same;
              is_level = l;
              is_classic = x;
              is_automation = y;
              unprotected = (protection_iff classic automation).0 z;
            }
      ]
    ],
    λ c.
        let same = (same_identity_iff c.captured c.current).1 c.is_same in
        let clear = (protection_iff c.classic c.automation).1 c.unprotected in ground arith,
  )
