-- ===== src/Evidence/Records.antt =====
-- The data and the functions of benchmarks/asr/offline_evidence.py.
use Prim.Native.String.{◌++◌}
use nadikt.Base.{
  ℕ, zero, suc, String, Bool, false, not, ◌||◌, Option, none, some, List, [], ◌∷◌, if◌then◌else◌,
  contains,
}
use nadikt.Base.Result.{Result, ok, err}
use nadikt.Base.Int.{ℤ, pos, lt_ℤ}
use nadikt.Base.Json.{Value, str, int, bool, obj, Fields, end, field}
use nadikt.Protocol.Python.{Error, value_error}

abbrev pub offline_evidence_statuses : List String
offline_evidence_statuses = "PASS" ∷ "FAIL" ∷ "NOT VERIFIED" ∷ []

pub record OfflineEvidence : Type 0 where
  pub evidence_id : String
  pub mechanism : String
  pub mechanism_version : String
  pub status : String
  pub network_attempted : Bool
  pub missed_event_count : ℤ
  pub finalized_after_reap : Bool
  pub monitor_interval_ms : Option ℤ
  pub reason : Option String
  pub nonce_prefix : Option String
  pub nadikt_revision : Option String
  pub lock_digest_prefix : Option String
  pub package_digest_prefix : Option String
  pub process_identity : Option Fields

-- `if value is not None: data[key] = value`
abbrev pub optional : {A : Type 0} → (A → Value) → String → Option A → Fields → Fields
optional value key none rest = rest
optional value key (some a) rest = field key (value a) rest

-- The object that `to_json` builds for a known status.
unfoldable pub evidence_fields : OfflineEvidence → Fields
evidence_fields e = field "evidence_id" (str e.evidence_id) (
    field "mechanism" (str e.mechanism) (
      field "mechanism_version" (str e.mechanism_version) (
        field "status" (str e.status) (
          field "network_attempted" (bool e.network_attempted) (
            field "missed_event_count" (int e.missed_event_count) (
              field "finalized_after_reap" (bool e.finalized_after_reap) (
                optional int "monitor_interval_ms" e.monitor_interval_ms (
                  optional str "reason" e.reason (
                    optional str "nonce_prefix" e.nonce_prefix (
                      optional str "nadikt_revision" e.nadikt_revision (
                        optional str "lock_digest_prefix" e.lock_digest_prefix (
                          optional str "package_digest_prefix" e.package_digest_prefix
                            (optional obj "process_identity" e.process_identity end)))))))))))))

-- `OfflineEvidence.to_json`
unfoldable pub evidence_to_json : OfflineEvidence → Result Error Fields
unfolding evidence_fields
evidence_to_json e =
    if contains offline_evidence_statuses e.status
    then ok (evidence_fields e)
    else err (value_error "offline_evidence_invalid_status")

-- `text[:n]`
unfoldable pub prefix : ℕ → String → String
prefix zero s = ""
prefix (suc n) String.[] = ""
prefix (suc n) (String.◌∷◌ c s) = String.◌∷◌ c (prefix n s)

unfoldable pub unverified_evidence : String → String → OfflineEvidence
unfolding prefix
unverified_evidence nonce reason = record {
  evidence_id = "offline-evidence-" ++ prefix 12 nonce;
  mechanism = "external_default_deny_required";
  mechanism_version = "v1";
  status = "NOT VERIFIED";
  network_attempted = false;
  missed_event_count = pos 0;
  finalized_after_reap = false;
  monitor_interval_ms = none;
  reason = some reason;
  nonce_prefix = some (prefix 12 nonce);
  nadikt_revision = none;
  lock_digest_prefix = none;
  package_digest_prefix = none;
  process_identity = none;
}

pub record OfflineMonitorObservation : Type 0 where
  pub mechanism : String
  pub mechanism_version : String
  pub finalized_after_reap : Bool
  pub observed_attempt_count : ℤ
  pub missed_event_count : ℤ
  pub monitor_interval_ms : ℤ
  pub positive_control_passed : Bool
  pub negative_control_passed : Bool
  pub process_identity : Fields

pub record Judgement : Type 0 where
  pub status : String
  pub reason : String

-- The chain of tests.
unfoldable pub judge_by : (attempted finalized missed positive negative : Bool) → Judgement
judge_by attempted finalized missed positive negative =
    if attempted
    then record { status = "FAIL"; reason = "network_attempt_observed" }
    else if not finalized
    then record { status = "NOT VERIFIED"; reason = "monitor_not_finalized_after_reap" }
    else if missed
    then record { status = "NOT VERIFIED"; reason = "monitor_missed_events" }
    else if not positive || not negative
    then record { status = "NOT VERIFIED"; reason = "monitor_controls_incomplete" }
    else record { status = "PASS"; reason = "default_deny_observed_zero_attempts" }

-- The status and the reason of an observation.
unfoldable pub judge : OfflineMonitorObservation → Judgement
unfolding judge_by
judge o =
    judge_by (lt_ℤ (pos 0) o.observed_attempt_count) o.finalized_after_reap
      (lt_ℤ (pos 0) o.missed_event_count) o.positive_control_passed o.negative_control_passed

unfoldable pub qualified_evidence :
    String
    → Option OfflineMonitorObservation
    → (nadikt_revision lock_digest_prefix package_digest_prefix : String) → OfflineEvidence
unfolding judge prefix unverified_evidence
qualified_evidence nonce none revision lock package_digest =
    unverified_evidence nonce "qualified_monitor_not_configured"
qualified_evidence nonce (some o) revision lock package_digest = record {
  evidence_id = "offline-evidence-" ++ prefix 12 nonce;
  mechanism = o.mechanism;
  mechanism_version = o.mechanism_version;
  status = (judge o).status;
  network_attempted = lt_ℤ (pos 0) o.observed_attempt_count;
  missed_event_count = o.missed_event_count;
  finalized_after_reap = o.finalized_after_reap;
  monitor_interval_ms = some o.monitor_interval_ms;
  reason = some (judge o).reason;
  nonce_prefix = some (prefix 12 nonce);
  nadikt_revision = some revision;
  lock_digest_prefix = some lock;
  package_digest_prefix = some package_digest;
  process_identity = some o.process_identity;
}
