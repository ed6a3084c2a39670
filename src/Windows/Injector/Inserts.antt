-- ===== src/Windows/Injector/Inserts.antt =====
-- The releases of windows_injector.py on a system that inserts events.
use nadikt.Base.{
  ℕ, zero, suc, Bool, true, false, List, [], ◌∷◌, ◌≡◌, arith, Bool-cases, inl, inr, ◌==◌,
}
use nadikt.Base.Result.{Result-cases, ok, err}
use nadikt.Insertion.Contracts.{Raised}
use nadikt.Windows.Injector.{
  KeyEvent, InputApi, InjectorState, call, same_key, has_match, release_key, log_unreleased,
  release_each, take,
}
use nadikt.Windows.Injector.Keyboard.{down_after, AllUp}

-- `held` tells the keys that inserted input holds down. `send` inserts as many of the events as it
-- returns, and a first part of them where it raises; nothing else inserts any.
pub record Inserts (api : InputApi) : Type 0 where
  pub held : api.World → KeyEvent → Bool
  pub send-held :
      (events : List KeyEvent) (w : api.World) (n : ℕ)
      → (api.send events w).0 ≡ ok n
      → (k : KeyEvent) → held (api.send events w).1 k ≡ down_after k (held w k) (take n events)
  pub send-raises :
      (events : List KeyEvent) (w : api.World) (e : Raised)
      → (api.send events w).0 ≡ err e
      → (n : ℕ) × ((k : KeyEvent)
          → held (api.send events w).1 k ≡ down_after k (held w k) (take n events))
  pub modifiers_down-held :
      (w : api.World) (k : KeyEvent) → held (api.modifiers_down w).1 k ≡ held w k
  pub last_error-held : (w : api.World) (k : KeyEvent) → held (api.last_error w).1 k ≡ held w k
  pub sleep-held : (d : ℕ) (w : api.World) (k : KeyEvent) → held (api.sleep d w).1 k ≡ held w k

one-release :
    (k event : KeyEvent) (b : Bool) (n : ℕ)
    → event.is_key_up ≡ true
    → (down_after k b (take n (event ∷ [])) ≡ true → b ≡ true)
      × (n ≡ 1 → same_key event k ≡ true → down_after k b (take n (event ∷ [])) ≡ false)
unfolding take
one-release k event b zero up = ground arith
one-release k event b (suc n) up = ground arith

module _ (api : InputApi) (law : Inserts api) where
  abbrev pub held : InjectorState api.World → KeyEvent → Bool
  held s k = law.held s.world k

  release_key-held :
      (n : ℕ) (event k : KeyEvent) (s : InjectorState api.World)
      → event.is_key_up ≡ true
      → (held (release_key api n event s).1 k ≡ true → held s k ≡ true)
        × ((release_key api n event s).0 ≡ ok true
            → same_key event k ≡ true
            → held (release_key api n event s).1 k ≡ false)
  unfolding release_key call
  release_key-held zero event k s up = ground arith
  release_key-held (suc n) event k s up =
      let s' = record s { world = (api.send (event ∷ []) s.world).1 } in
      let ih = release_key-held n event k s' up in
      elim (Result-cases (api.send (event ∷ []) s.world).0) [
        | inr (e, p) ↦
            let (m, q) = law.send-raises (event ∷ []) s.world e p in
            ground (arith, q k, one-release k event (held s k) m up, ih)
        | inl (m, p) ↦
            let q = law.send-held (event ∷ []) s.world m p k in
            elim (Bool-cases (m == 1)) [
              | inl one ↦ ground (arith, q, one-release k event (held s k) m up)
              | inr more ↦ ground (arith, q, one-release k event (held s k) m up, ih)
            ]
      ]

  pub release_each-held :
      (cleanup : List KeyEvent) (k : KeyEvent) (s : InjectorState api.World)
      → AllUp true cleanup
      → (held s k ≡ true → has_match k cleanup ≡ true)
      → (release_each api cleanup s).0 ≡ ok true
      → held (release_each api cleanup s).1 k ≡ false
  unfolding release_each log_unreleased call has_match
  release_each-held [] k s up h e = ground arith
  release_each-held (event ∷ cleanup) k s up h e =
      let s1 = (release_key api 3 event s).1 in
      let f = release_key-held 3 event k s up.0 in
      elim (Result-cases (release_key api 3 event s).0) [
        | inr (x, p) ↦ absurd (ground arith)
        | inl (true, p) ↦ elim (Result-cases (release_each api cleanup s1).0) [
          | inr (x, q) ↦ absurd (ground arith)
          | inl (false, q) ↦ absurd (ground arith)
          | inl (true, q) ↦
              let ih = release_each-held cleanup k s1 up.1 (ground arith) q in ground (arith, ih)
        ]
        | inl (false, p) ↦ elim (Result-cases (api.last_error s1.world).0) [
          | inr (x, q) ↦ absurd (ground arith)
          | inl (code, q) ↦
              let s2 = record s1 { world = (api.last_error s1.world).1 } in
              elim (Result-cases (release_each api cleanup s2).0) [
                | inr (x, r) ↦ absurd (ground arith)
                | inl (b, r) ↦ absurd (ground arith)
              ]
        ]
      ]
