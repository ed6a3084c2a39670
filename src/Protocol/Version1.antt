-- ===== src/Protocol/Version1.antt =====
-- The messages of version 1 of benchmarks/asr/worker_protocol.py.
use nadikt.Base.{String, not, Option, none, some, List, [], ◌∷◌, map, if◌then◌else◌}
use nadikt.Base.Result.{Result, ok, ◌>>=◌, ◌>>◌}
use nadikt.Base.Int.{pos}
use nadikt.Base.Json.{
  Value, null, int, str, float, obj, Float, decimal, Fields, end, field, get, truthy,
}
use nadikt.Protocol.Python.{Error, Python, index, traverse, to_str, to_float}
use nadikt.Protocol.Messages.{WorkerPhase, protocol_version, safe_result_keys, safe_phase_keys}
use nadikt.Protocol.Encode.{array, opt_str, phase_to_json, insert_field}
use nadikt.Protocol.Decode.{
  fail, as_mapping, allow_keys, require_keys, opt_int, mapping_or_empty, iterate_or_empty,
  only_mappings, is_version, loads_bounded,
}
use nadikt.Protocol.Requests.{to_path, opt_path}

pub record WorkerRequest : Type 0 where
  pub nonce : String
  pub package_id : String
  pub candidate_id : String
  pub backend : String
  pub package_dir : String
  pub capabilities : Fields
  pub inference_defaults : Fields
  pub critical_checksum_prefixes : List String
  pub audio_file : Option String
  pub reference_file : Option String
  pub expected_english_terms : List String
  pub expected_coding_terms : List Fields
  pub duration_seconds : Option Float

-- An entry of `quality_metrics`.
pub record NamedMetric : Type 0 where
  pub name : String
  pub metric : Fields

pub record WorkerResult : Type 0 where
  pub nonce : String
  pub package_id : String
  pub candidate_id : String
  pub backend : String
  pub worker_status : String
  pub phases : List WorkerPhase
  pub quality_metrics : List NamedMetric
  pub offline_evidence : Fields

abbrev pub opt_float : Option Float → Value
opt_float none = null
opt_float (some x) = float x

-- The payload of `WorkerRequest.to_worker_json`.
unfoldable pub request_to_json : WorkerRequest → Value
request_to_json q = obj (
    field "schema_version" (int (pos protocol_version)) (
      field "nonce" (str q.nonce) (
        field "package_id" (str q.package_id) (
          field "candidate_id" (str q.candidate_id) (
            field "backend" (str q.backend) (
              field "package_dir" (str q.package_dir) (
                field "capabilities" (obj q.capabilities) (
                  field "inference_defaults" (obj q.inference_defaults) (
                    field "critical_checksum_prefixes" (array str q.critical_checksum_prefixes) (
                      field "audio_file" (opt_str q.audio_file) (
                        field "reference_file" (opt_str q.reference_file) (
                          field "expected_english_terms" (array str q.expected_english_terms) (
                            field "expected_coding_terms" (array obj q.expected_coding_terms) (
                              field "duration_seconds" (opt_float q.duration_seconds)
                                end))))))))))))))

-- `{name: dict(value) for name, value in sorted(quality_metrics.items())}`
unfoldable pub sorted_metrics : List NamedMetric → Fields
unfolding insert_field
sorted_metrics [] = end
sorted_metrics (m ∷ ms) = insert_field m.name (obj m.metric) (sorted_metrics ms)

-- `_quality_mapping`, of an object.
unfoldable pub quality_entries : Fields → List NamedMetric
quality_entries end = []
quality_entries (field name (obj metric) fs) =
    record { name = name; metric = metric } ∷ quality_entries fs
quality_entries (field name _ fs) = quality_entries fs

-- `_quality_mapping(payload.get("quality_metrics"))`
unfoldable pub quality_mapping : Option Value → List NamedMetric
unfolding quality_entries
quality_mapping (some (obj fs)) = quality_entries fs
quality_mapping _ = []

module _ (py : Python) where
  unfoldable pub result_to_json : WorkerResult → Value
  unfolding phase_to_json sorted_metrics
  result_to_json r = obj (
      field "schema_version" (int (pos protocol_version)) (
        field "nonce" (str r.nonce) (
          field "package_id" (str r.package_id) (
            field "candidate_id" (str r.candidate_id) (
              field "backend" (str r.backend) (
                field "worker_status" (str r.worker_status) (
                  field "phases" (array (phase_to_json py) r.phases) (
                    field "quality_metrics" (obj (sorted_metrics r.quality_metrics))
                      (field "offline_evidence" (obj r.offline_evidence) end)))))))))

  -- `float(payload["duration_seconds"])`, unless it is missing or `None`.
  unfoldable pub opt_duration : Option Value → Result Error (Option Float)
  opt_duration none = ok none
  opt_duration (some null) = ok none
  opt_duration (some v) = do x ← to_float py v; ok (some x)

  -- `float(phase.get("duration_ms") or 0.0)`
  unfoldable pub duration_or_zero : Option Value → Result Error Float
  duration_or_zero none = ok (decimal (pos 0) 0)
  duration_or_zero (some v) = if truthy v then to_float py v else ok (decimal (pos 0) 0)

  unfoldable pub parse_request : Fields → Result Error WorkerRequest
  parse_request payload =
      if not (is_version protocol_version (get payload "schema_version"))
      then fail "invalid_worker_protocol_version"
      else do
        require_keys payload
            ("schema_version" ∷ "nonce" ∷ "package_id" ∷ "candidate_id" ∷ "backend" ∷ "package_dir"
              ∷ [])
            "worker_request_missing_fields"
        nonce ← index payload "nonce"
        package_id ← index payload "package_id"
        candidate_id ← index payload "candidate_id"
        backend ← index payload "backend"
        package_dir ← index payload "package_dir"
        prefixes ← iterate_or_empty (get payload "critical_checksum_prefixes")
        english ← iterate_or_empty (get payload "expected_english_terms")
        coding ← iterate_or_empty (get payload "expected_coding_terms")
        duration ← opt_duration (get payload "duration_seconds")
        ok (record {
          nonce = to_str py nonce;
          package_id = to_str py package_id;
          candidate_id = to_str py candidate_id;
          backend = to_str py backend;
          package_dir = to_path py package_dir;
          capabilities = mapping_or_empty (get payload "capabilities");
          inference_defaults = mapping_or_empty (get payload "inference_defaults");
          critical_checksum_prefixes = map (to_str py) prefixes;
          audio_file = opt_path py (get payload "audio_file");
          reference_file = opt_path py (get payload "reference_file");
          expected_english_terms = map (to_str py) english;
          expected_coding_terms = only_mappings coding;
          duration_seconds = duration;
        })

  unfoldable pub loads_request : String → Result Error WorkerRequest
  loads_request text = do payload ← loads_bounded py text; parse_request payload

  -- The body of the loop over the phases.
  unfoldable pub parse_phase_v1 : Value → Result Error WorkerPhase
  parse_phase_v1 value = do
    phase ← as_mapping value "worker_result_invalid_phase"
    allow_keys phase safe_phase_keys "worker_phase_unknown_fields"
    name ← index phase "phase"
    outcome ← index phase "outcome"
    duration ← duration_or_zero (get phase "duration_ms")
    segment ← opt_int py (get phase "segment_id")
    ok (record {
      phase = to_str py name;
      outcome = to_str py outcome;
      duration_ms = duration;
      segment_id = segment;
    })

  unfoldable pub parse_result : Fields → Result Error WorkerResult
  parse_result payload =
      if not (is_version protocol_version (get payload "schema_version"))
      then fail "invalid_worker_protocol_version"
      else do
        allow_keys payload safe_result_keys "worker_result_unknown_fields"
        raw_phases ← iterate_or_empty (get payload "phases")
        phases ← traverse parse_phase_v1 raw_phases
        nonce ← index payload "nonce"
        package_id ← index payload "package_id"
        candidate_id ← index payload "candidate_id"
        backend ← index payload "backend"
        worker_status ← index payload "worker_status"
        ok (record {
          nonce = to_str py nonce;
          package_id = to_str py package_id;
          candidate_id = to_str py candidate_id;
          backend = to_str py backend;
          worker_status = to_str py worker_status;
          phases = phases;
          quality_metrics = quality_mapping (get payload "quality_metrics");
          offline_evidence = mapping_or_empty (get payload "offline_evidence");
        })

  unfoldable pub loads_result : String → Result Error WorkerResult
  loads_result text = do payload ← loads_bounded py text; parse_result payload
