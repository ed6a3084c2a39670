-- ===== src/Evidence/Tests.antt =====
-- The evidence of a clean run.
use nadikt.Base.{true, some, ◌≡◌, refl, str_eq}
use nadikt.Base.Result.{ok}
use nadikt.Base.Int.{pos}
use nadikt.Base.Json.{end}
use nadikt.Evidence.Records.{
  OfflineMonitorObservation, OfflineEvidence, qualified_evidence, judge, evidence_to_json,
  evidence_fields,
}
use nadikt.Evidence.Verdict.{is_clean, saw_attempt, qualified_evidence-verdict}

abbrev clean : OfflineMonitorObservation
clean = record {
  mechanism = "netns";
  mechanism_version = "v1";
  finalized_after_reap = true;
  observed_attempt_count = pos 0;
  missed_event_count = pos 0;
  monitor_interval_ms = pos 100;
  positive_control_passed = true;
  negative_control_passed = true;
  process_identity = end;
}

abbrev evidence : OfflineEvidence
evidence = qualified_evidence "0123456789abcdef" (some clean) "rev" "lock" "package"

evidence_run : evidence.status ≡ "PASS"
unfolding qualified_evidence judge
evidence_run = refl

qualified_evidence-verdict_example :
    (str_eq evidence.status "PASS" ≡ is_clean (some clean))
    × (str_eq evidence.status "FAIL" ≡ saw_attempt (some clean))
    × (evidence.network_attempted ≡ saw_attempt (some clean))
    × (evidence_to_json evidence ≡ ok (evidence_fields evidence))
qualified_evidence-verdict_example =
    qualified_evidence-verdict "0123456789abcdef" (some clean) "rev" "lock" "package"
