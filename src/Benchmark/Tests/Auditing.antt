-- ===== src/Benchmark/Tests/Auditing.antt =====
-- The audit at concrete texts, and its theorems there.
use nadikt.Base.{ℕ, String, true, none, some, [], ◌∷◌, ◌++◌, ◌≡◌, refl, inl, length, any_of}
use nadikt.Base.Result.{Result, ok}
use nadikt.Base.Texts.{is_space}
use nadikt.Asr.Ports.{Raised}
use nadikt.Quality.Tokens.{Text, codes}
use nadikt.Benchmark.Privacy.Audit.{
  PrivacyAuditResult, audit_text_artifact, audit_files, has_violation, count, count_all,
  count_matches, marker_length, after_word, has_canary, occurs, private_path_length,
  segments_length, drive_length, unquoted_length, is_path_char, secret_length, sign_length,
  audit_loop, add_audit,
}
use nadikt.Benchmark.Privacy.Auditing.{
  violates, audit_text_artifact-finds, audit_files-has_violation,
}

abbrev lower : ℕ → ℕ
lower c = c

-- A path of two segments is private, one of one segment is not; a key needs its sign.
paths_run :
    (count_matches private_path_length 0 (codes "see /tmp /home/me/x. and C:\\\\a b") ≡ 2)
    × (count_matches (secret_length lower ("token" ∷ [])) 0 (codes "token x token : y") ≡ 1)
unfolding count_matches private_path_length segments_length drive_length unquoted_length
    is_path_char secret_length sign_length after_word is_space
paths_run = (refl, refl)

audit_text_artifact-finds_example :
    has_violation (audit_text_artifact lower (codes "x " ++ (codes "traceback" ++ codes "!")) none)
    ≡ true
audit_text_artifact-finds_example =
    audit_text_artifact-finds lower (codes "x ") (codes "!") "traceback" none (inl refl)

abbrev read : String → Result Raised Text
read path = ok (codes path)

abbrev audited : PrivacyAuditResult
audited = record {
  checked_artifacts = 2;
  canary_present = true;
  forbidden_payload_count = 0;
  private_path_count = 0;
  credential_marker_count = 0;
  exception_marker_count = 0;
}

audited_run : audit_files lower read ("a" ∷ "b" ∷ []) (some "b") ≡ ok audited
unfolding audit_files audit_loop add_audit audit_text_artifact has_canary occurs count_all count
    count_matches marker_length private_path_length segments_length drive_length secret_length
    after_word
audited_run = refl

audit_files-has_violation_example :
    (has_violation audited
      ≡ any_of (λ path. violates lower (some "b") (read path)) ("a" ∷ "b" ∷ []))
    × (audited.checked_artifacts ≡ length {A = String} ("a" ∷ "b" ∷ []))
audit_files-has_violation_example =
    audit_files-has_violation lower read ("a" ∷ "b" ∷ []) (some "b") audited audited_run
