-- ===== src/Benchmark/Privacy/Audit.antt =====
-- benchmarks/asr/privacy_audit.py. A text is the list of its code points, the regular expressions are
-- written out as scanners, and `lower` is the lower-case letter for which `(?i)` takes a character.
use nadikt.Base.{
  ℕ, ◌+◌, ◌-◌, String, Bool, false, not, ◌&&◌, ◌||◌, Option, none, some, List, [], ◌∷◌, ltb, leb,
  ◌==◌, if◌then◌else◌, length, is_some, is_empty,
}
use nadikt.Base.Result.{Result, ok, ◌>>=◌}
use nadikt.Base.Texts.{is_space}
use nadikt.Asr.Ports.{Raised}
use nadikt.Quality.Tokens.{Text, codes}

abbrev pub forbidden_markers : List String
forbidden_markers =
    "raw_audio" ∷ "audio_bytes" ∷ "transcript_text" ∷ "hypothesis_text" ∷ "reference_text"
    ∷ "clipboard_payload" ∷ "user_dictionary_entry" ∷ "private_path" ∷ "credential" ∷ "traceback"
    ∷ "NADIKT_CONTROLLED_CANARY" ∷ []

-- What follows `word` at the beginning of a text, each character of which is read by `f`.
unfoldable pub after_word : (ℕ → ℕ) → Text → Text → Option Text
after_word f [] text = some text
after_word f (w ∷ ws) [] = none
after_word f (w ∷ ws) (c ∷ cs) = let rest = after_word f ws cs in if w == f c then rest else none

-- `needle in text`
unfoldable pub occurs : Text → Text → Bool
unfolding after_word
occurs needle [] = is_empty needle
occurs needle (c ∷ cs) = is_some (after_word (λ x. x) needle (c ∷ cs)) || occurs needle cs

-- How many matches a left-to-right search finds. `matched` is the length of the match at the
-- beginning of a text, or 0; the next `skip` characters belong to the last match.
unfoldable pub count_matches : (Text → ℕ) → ℕ → Text → ℕ
count_matches matched skip [] = 0
count_matches matched skip (c ∷ cs) =
    let found = skip == 0 && ltb 0 (matched (c ∷ cs)) in
    let rest = count_matches matched (if found then matched (c ∷ cs) - 1 else skip - 1) cs in
    if found then 1 + rest else rest

-- A marker, which is not empty.
unfoldable pub marker_length : Text → Text → ℕ
unfolding after_word
marker_length marker text = if is_some (after_word (λ x. x) marker text) then length marker else 0

-- `text.count(marker)`
unfoldable pub count : Text → Text → ℕ
unfolding count_matches marker_length
count marker text = count_matches (marker_length marker) 0 text

-- `[A-Za-z0-9_.-]`
unfoldable pub is_path_char : ℕ → Bool
is_path_char c =
    (leb b'A' c && leb c b'Z')
    || (leb b'a' c && leb c b'z')
    || (leb b'0' c && leb c b'9')
    || c == b'_'
    || c == b'.'
    || c == b'-'

-- `(?:/[A-Za-z0-9_.-]+){2,}` after `taken` characters with this many segments; `inside` a segment
-- that has a character, or just behind a slash.
unfoldable pub segments_length : (segments taken : ℕ) → (inside : Bool) → Text → ℕ
unfolding is_path_char
segments_length segments taken inside [] =
    if leb 2 segments then (if inside then taken else taken - 1) else 0
segments_length segments taken inside (c ∷ cs) =
    let next =
      segments_length (if is_path_char c && not inside then segments + 1 else segments) (taken + 1)
        (is_path_char c) cs in
    if is_path_char c || (inside && c == b'/')
    then next
    else if leb 2 segments
    then (if inside then taken else taken - 1)
    else 0

-- `[^\s\"']+`
unfoldable pub unquoted_length : Text → ℕ
unfolding is_space
unquoted_length [] = 0
unquoted_length (c ∷ cs) =
    let rest = unquoted_length cs in if is_space c || c == b'"' || c == b'\'' then 0 else 1 + rest

-- `[A-Za-z]:\\\\[^\s\"']+`
unfoldable pub drive_length : Text → ℕ
unfolding unquoted_length
drive_length (c ∷ d ∷ e ∷ f ∷ cs) =
    if ((leb b'A' c && leb c b'Z') || (leb b'a' c && leb c b'z'))
      && d == b':'
      && e == b'\\'
      && f == b'\\'
      && ltb 0 (unquoted_length cs)
    then 4 + unquoted_length cs
    else 0
drive_length _ = 0

-- `PRIVATE_PATH_PATTERN`
unfoldable pub private_path_length : Text → ℕ
unfolding segments_length drive_length
private_path_length [] = 0
private_path_length (c ∷ cs) =
    if c == b'/' then segments_length 0 1 false cs else drive_length (c ∷ cs)

-- `\s*[:=]`
unfoldable pub sign_length : Text → ℕ
unfolding is_space
sign_length [] = 0
sign_length (c ∷ cs) =
    let rest = sign_length cs in
    if c == b':' || c == b'=' then 1 else if is_space c && ltb 0 rest then 1 + rest else 0

abbrev pub secret_words : List String
secret_words =
    "token" ∷ "password" ∷ "secret" ∷ "credential" ∷ "api_key" ∷ "api-key" ∷ "apikey" ∷ []

-- `SECRET_PATTERN`; no word is the beginning of another.
unfoldable pub secret_length : (ℕ → ℕ) → List String → Text → ℕ
unfolding after_word sign_length
secret_length lower [] text = 0
secret_length lower (w ∷ ws) text =
    let rest = secret_length lower ws text in
    elim (after_word lower (codes w) text) [
      | none ↦ rest
      | some after ↦ if ltb 0 (sign_length after) then length (codes w) + sign_length after else 0
    ]

pub record PrivacyAuditResult : Type 0 where
  pub checked_artifacts : ℕ
  pub canary_present : Bool
  pub forbidden_payload_count : ℕ
  pub private_path_count : ℕ
  pub credential_marker_count : ℕ
  pub exception_marker_count : ℕ

unfoldable pub has_violation : PrivacyAuditResult → Bool
has_violation r =
    r.canary_present
    || ltb 0 r.forbidden_payload_count
    || ltb 0 r.private_path_count
    || ltb 0 r.credential_marker_count
    || ltb 0 r.exception_marker_count

-- `sum(text.count(marker) for marker in markers)`
unfoldable pub count_all : List String → Text → ℕ
unfolding count
count_all [] text = 0
count_all (m ∷ ms) text = count (codes m) text + count_all ms text

-- `bool(canary and canary in text)`
unfoldable pub has_canary : Option String → Text → Bool
unfolding occurs
has_canary none text = false
has_canary (some canary) text = not (is_empty (codes canary)) && occurs (codes canary) text

-- One round of the loop.
unfoldable pub add_audit : PrivacyAuditResult → PrivacyAuditResult → PrivacyAuditResult
add_audit total r = record {
  checked_artifacts = total.checked_artifacts + r.checked_artifacts;
  canary_present = r.canary_present || total.canary_present;
  forbidden_payload_count = total.forbidden_payload_count + r.forbidden_payload_count;
  private_path_count = total.private_path_count + r.private_path_count;
  credential_marker_count = total.credential_marker_count + r.credential_marker_count;
  exception_marker_count = total.exception_marker_count + r.exception_marker_count;
}

module _ (lower : ℕ → ℕ) where
  unfoldable pub audit_text_artifact : Text → Option String → PrivacyAuditResult
  unfolding has_canary count_all count_matches private_path_length secret_length
  audit_text_artifact text canary = record {
    checked_artifacts = 1;
    canary_present = has_canary canary text;
    forbidden_payload_count = count_all forbidden_markers text;
    private_path_count = count_matches private_path_length 0 text;
    credential_marker_count = count_matches (secret_length lower secret_words) 0 text;
    exception_marker_count = count_all ("Traceback (" ∷ "Exception:" ∷ []) text;
  }

  -- The loop of `audit_files`; `read` reads a file.
  unfoldable pub audit_loop :
      (String → Result Raised Text)
      → Option String
      → PrivacyAuditResult
      → List String
      → Result Raised PrivacyAuditResult
  unfolding audit_text_artifact add_audit
  audit_loop read canary total [] = ok total
  audit_loop read canary total (path ∷ paths) = read path >>= λ text.
      audit_loop read canary (add_audit total (audit_text_artifact text canary)) paths

  unfoldable pub audit_files :
      (String → Result Raised Text) → List String → Option String → Result Raised PrivacyAuditResult
  unfolding audit_loop
  audit_files read paths canary =
      audit_loop read canary
        (record {
          checked_artifacts = 0;
          canary_present = false;
          forbidden_payload_count = 0;
          private_path_count = 0;
          credential_marker_count = 0;
          exception_marker_count = 0;
        })
        paths
