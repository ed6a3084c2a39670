-- ===== src/Benchmark/Privacy/Auditing.antt =====
-- What an audit of benchmarks/asr/privacy_audit.py finds.
use nadikt.Base.{
  ℕ, ◌+◌, String, Bool, true, false, ◌||◌, Option, some, List, [], ◌∷◌, ◌++◌, str_eq, eq_iff,
  length, is_some, is_empty, any_of, contains, Bool-cases, ◌≡◌, refl, ◌⊎◌, inl, inr, arith,
}
use nadikt.Base.Result.{Result, ok, err, Result-cases}
use nadikt.Asr.Ports.{Raised}
use nadikt.Quality.Tokens.{Text, codes}
use nadikt.Benchmark.Privacy.Audit.{
  PrivacyAuditResult, forbidden_markers, after_word, occurs, count_matches, marker_length, count,
  count_all, has_canary, has_violation, audit_text_artifact, add_audit, audit_loop, audit_files,
}

after_word-append : (m post : Text) → after_word (λ x. x) m (m ++ post) ≡ some post
unfolding after_word
after_word-append [] post = refl
after_word-append (c ∷ cs) post = ground (arith, after_word-append cs post)

occurs-append : (pre m post : Text) → occurs m (pre ++ (m ++ post)) ≡ true
unfolding occurs after_word
occurs-append [] [] [] = refl
occurs-append [] [] (c ∷ cs) = refl
occurs-append [] (c ∷ cs) post = ground (arith, after_word-append (c ∷ cs) post)
occurs-append (c ∷ cs) m post = ground (arith, occurs-append cs m post)

-- A marker that occurs is counted.
count-occurs :
    (m text : Text)
    → is_empty m ≡ false
    → count_matches (marker_length m) 0 text ≡ 0
    → occurs m text ≡ false
unfolding count_matches marker_length occurs
count-occurs [] text h e = absurd (ground arith)
count-occurs (c ∷ cs) [] h e = refl
count-occurs (c ∷ cs) (d ∷ ds) h e =
    let ih = count-occurs (c ∷ cs) ds h in
    elim (Bool-cases (is_some (after_word (λ x. x) (c ∷ cs) (d ∷ ds)))) [
      | inl f ↦ absurd (ground arith)
      | inr f ↦ ground (arith, ih (ground arith))
    ]

count_all-contains :
    (ms : List String) (m : String) (text : Text)
    → contains ms m ≡ true
    → count_all ms text ≡ 0
    → count (codes m) text ≡ 0
unfolding count_all
count_all-contains [] m text h e = absurd (ground arith)
count_all-contains (x ∷ xs) m text h e = elim (Bool-cases (str_eq x m)) [
  | inl f ↦ let g : x ≡ m = (eq_iff x m).0 f in rw⁻¹ g (ground arith)
  | inr f ↦ count_all-contains xs m text (ground arith) (ground arith)
]

-- Each of the markers has a character.
markers_full : (m : String) → contains forbidden_markers m ≡ true → is_empty (codes m) ≡ false
markers_full String.[] h = absurd (cc h)
markers_full (String.◌∷◌ c s) h = refl

add_audit-has_violation :
    (a b : PrivacyAuditResult)
    → has_violation (add_audit a b) ≡ (has_violation a || has_violation b)
unfolding has_violation add_audit
add_audit-has_violation a b = ground arith

module _ (lower : ℕ → ℕ) where
  audit-forbidden :
      (text : Text) (canary : Option String) (m : String)
      → has_violation (audit_text_artifact lower text canary) ≡ false
      → contains forbidden_markers m ≡ true
      → occurs (codes m) text ≡ false
  unfolding has_violation audit_text_artifact count
  audit-forbidden text canary m h k =
      count-occurs (codes m) text (markers_full m k)
        (count_all-contains forbidden_markers m text k (ground arith))

  audit-canary :
      (text : Text) (canary : String)
      → has_violation (audit_text_artifact lower text (some canary)) ≡ false
      → is_empty (codes canary) ≡ false
      → occurs (codes canary) text ≡ false
  unfolding has_violation audit_text_artifact has_canary
  audit-canary text canary h k = ground arith

  -- The audit reports a violation wherever one of the forbidden markers stands in the text, and
  -- wherever the canary does, if there is one with a character.
  pub audit_text_artifact-finds :
      (pre post : Text) (marker : String) (canary : Option String)
      → (contains forbidden_markers marker ≡ true)
        ⊎ ((canary ≡ some marker) × (is_empty (codes marker) ≡ false))
      → has_violation (audit_text_artifact lower (pre ++ (codes marker ++ post)) canary) ≡ true
  audit_text_artifact-finds pre post marker canary h =
      let text = pre ++ (codes marker ++ post) in
      let there = occurs-append pre (codes marker) post in
      elim (Bool-cases (has_violation (audit_text_artifact lower text canary))) [
        | inl e ↦ e
        | inr e ↦ elim h [
          | inl k ↦ absurd (cc (there, audit-forbidden text canary marker e k))
          | inr k ↦
              let e' : has_violation (audit_text_artifact lower text (some marker)) ≡ false =
                rw⁻¹ k.0 e in
              absurd (cc (there, audit-canary text marker e' k.1))
        ]
      ]

  -- Whether this file has a violation, if it can be read.
  abbrev pub violates : Option String → Result Raised Text → Bool
  violates canary (ok text) = has_violation (audit_text_artifact lower text canary)
  violates canary (err e) = false

  audit_loop-has_violation :
      (read : String → Result Raised Text) (canary : Option String) (total : PrivacyAuditResult)
      (paths : List String) (r : PrivacyAuditResult)
      → audit_loop lower read canary total paths ≡ ok r
      → (has_violation r
          ≡ (has_violation total || any_of (λ path. violates canary (read path)) paths))
        × (r.checked_artifacts ≡ total.checked_artifacts + length paths)
  unfolding audit_loop audit_text_artifact add_audit
  audit_loop-has_violation read canary total [] r e = ground arith
  audit_loop-has_violation read canary total (path ∷ paths) r e = elim (Result-cases (read path)) [
    | inl (text, f) ↦
        let a = audit_text_artifact lower text canary in
        let (g, h) =
          audit_loop-has_violation read canary (add_audit total a) paths r (ground arith) in
        let k = add_audit-has_violation total a in ground (arith, g, h, k)
    | inr (x, f) ↦ absurd (ground arith)
  ]

  -- An audit of files that can all be read covers each of them, and reports a violation exactly when
  -- the audit of one of them does.
  pub audit_files-has_violation :
      (read : String → Result Raised Text) (paths : List String) (canary : Option String)
      (r : PrivacyAuditResult)
      → audit_files lower read paths canary ≡ ok r
      → (has_violation r ≡ any_of (λ path. violates canary (read path)) paths)
        × (r.checked_artifacts ≡ length paths)
  unfolding audit_files has_violation
  audit_files-has_violation read paths canary r e =
      ground (arith, audit_loop-has_violation read canary _ paths r e)
