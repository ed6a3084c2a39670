-- ===== src/Evidence/Verdict.antt =====
-- When the evidence of benchmarks/asr/offline_evidence.py passes, and when it fails.
use nadikt.Base.{
  String, Bool, true, false, not, ◌&&◌, Option, none, some, ◌≡◌, refl, str_eq, contains,
}
use nadikt.Base.Result.{ok}
use nadikt.Base.Int.{pos, lt_ℤ}
use nadikt.Evidence.Records.{
  OfflineMonitorObservation, qualified_evidence, unverified_evidence, judge, judge_by,
  evidence_to_json, evidence_fields, offline_evidence_statuses,
}

-- A monitor that saw no attempt, was finalized after the worker was reaped, missed no event, and
-- passed both of its controls.
abbrev pub is_clean : Option OfflineMonitorObservation → Bool
is_clean none = false
is_clean (some o) =
    not (lt_ℤ (pos 0) o.observed_attempt_count)
    && o.finalized_after_reap
    && not (lt_ℤ (pos 0) o.missed_event_count)
    && o.positive_control_passed
    && o.negative_control_passed

abbrev pub saw_attempt : Option OfflineMonitorObservation → Bool
saw_attempt none = false
saw_attempt (some o) = lt_ℤ (pos 0) o.observed_attempt_count

judge_by-status :
    (a f m p n : Bool)
    → (str_eq (judge_by a f m p n).status "PASS" ≡ not a && f && not m && p && n)
      × (str_eq (judge_by a f m p n).status "FAIL" ≡ a)
      × (contains offline_evidence_statuses (judge_by a f m p n).status ≡ true)
unfolding judge_by
judge_by-status true f m p n = (refl, refl, refl)
judge_by-status false false m p n = (refl, refl, refl)
judge_by-status false true true p n = (refl, refl, refl)
judge_by-status false true false false n = (refl, refl, refl)
judge_by-status false true false true false = (refl, refl, refl)
judge_by-status false true false true true = (refl, refl, refl)

judge-status :
    (o : OfflineMonitorObservation)
    → (str_eq (judge o).status "PASS" ≡ is_clean (some o))
      × (str_eq (judge o).status "FAIL" ≡ saw_attempt (some o))
      × (contains offline_evidence_statuses (judge o).status ≡ true)
unfolding judge
judge-status o =
    judge_by-status (lt_ℤ (pos 0) o.observed_attempt_count) o.finalized_after_reap
      (lt_ℤ (pos 0) o.missed_event_count) o.positive_control_passed o.negative_control_passed

-- The evidence of any run passes exactly when there is an observation by a monitor that saw no
-- attempt, was finalized after the reap, missed no event and passed both controls; it fails exactly
-- when an attempt was seen, which `network_attempted` repeats; and it can be written as JSON.
pub qualified_evidence-verdict :
    (nonce : String) (o : Option OfflineMonitorObservation) (revision lock package_digest : String)
    → (str_eq (qualified_evidence nonce o revision lock package_digest).status "PASS" ≡ is_clean o)
      × (str_eq (qualified_evidence nonce o revision lock package_digest).status "FAIL"
          ≡ saw_attempt o)
      × ((qualified_evidence nonce o revision lock package_digest).network_attempted
          ≡ saw_attempt o)
      × (evidence_to_json (qualified_evidence nonce o revision lock package_digest)
          ≡ ok (evidence_fields (qualified_evidence nonce o revision lock package_digest)))
unfolding qualified_evidence unverified_evidence evidence_to_json
qualified_evidence-verdict nonce none revision lock package_digest = (refl, refl, refl, refl)
qualified_evidence-verdict nonce (some o) revision lock package_digest =
    let (passed, failed, known) = judge-status o in (passed, failed, refl, rw known refl)
