-- ===== src/Protocol/Decode.antt =====
-- The parsers of benchmarks/asr/worker_protocol.py for messages of version 2.
pub mod Reading
use Prim.Native.String.{len}
use nadikt.Base.{
  ℕ, ◌*◌, ◌^◌, ◌==◌, String, Bool, true, false, not, Option, none, some, List, [], ◌∷◌, ltb,
  if◌then◌else◌, contains,
}
use nadikt.Base.Result.{Result, ok, err, ◌>>=◌, ◌>>◌}
use nadikt.Base.Int.{ℤ, pos}
use nadikt.Base.Json.{
  Value, null, bool, int, float, arr, obj, nil, Fields, end, Float, decimal, get, only_keys,
  to_list, fits_float, is_finite, truthy,
}
use nadikt.Protocol.Python.{
  Error, value_error, overflow_error, Python, index, iterate, traverse, to_str, to_int,
}
use nadikt.Protocol.Messages.{
  WorkerPhase, WorkerMetricResult, WorkerMetricDiagnostic, WorkerSampleOutcome, WorkerRepeatOutcome,
  WorkerResultV2, protocol_version_v2, max_message_bytes, is_worker_status, is_phase_outcome,
  is_sample_outcome, is_repeat_outcome, safe_result_v2_keys, safe_repeat_outcome_keys,
  safe_sample_outcome_keys, safe_phase_keys, safe_metric_keys, safe_metric_diagnostic_keys,
}
use nadikt.Protocol.Encode.{validate_finite_json}
pub use Reading.{fail, has_keys, only_mappings}
unfoldable pub use Reading.{
  require_keys, allow_keys, as_mapping, as_list, float_required, int_required, mapping_or_empty,
  iterate_or_empty, is_version,
}

module _ (py : Python) where
  -- `_loads_bounded`
  unfoldable pub loads_bounded : String → Result Error Fields
  loads_bounded text =
      if ltb max_message_bytes (len text) then fail "worker_message_too_large" else do
        payload ← elim (py.json_loads text) [ none ↦ fail "json" | some v ↦ ok v ]
        fs ← as_mapping payload "worker_message_not_object"
        validate_finite_json (obj fs)
        ok fs

  -- `payload.get("segment_id")`, through `int`.
  unfoldable pub opt_int : Option Value → Result Error (Option ℤ)
  opt_int none = ok none
  opt_int (some null) = ok none
  opt_int (some v) = do n ← to_int py v; ok (some n)

  unfoldable pub parse_phase : Value → Result Error WorkerPhase
  parse_phase value = do
    phase ← as_mapping value "worker_result_invalid_phase"
    allow_keys phase safe_phase_keys "worker_phase_unknown_fields"
    require_keys phase ("phase" ∷ "outcome" ∷ "duration_ms" ∷ []) "worker_phase_missing_fields"
    outcome ← index phase "outcome"
    if not (is_phase_outcome (to_str py outcome)) then fail "worker_phase_invalid_outcome" else do
      name ← index phase "phase"
      raw_duration ← index phase "duration_ms"
      duration ← float_required raw_duration "worker_phase_invalid_duration"
      segment ← opt_int (get phase "segment_id")
      ok (record {
        phase = to_str py name;
        outcome = to_str py outcome;
        duration_ms = duration;
        segment_id = segment;
      })

  unfoldable pub parse_phases : Value → Result Error (List WorkerPhase)
  parse_phases value = do
    phases ← as_list value "worker_phases_not_list"
    traverse parse_phase phases

  unfoldable pub parse_metric : Value → Result Error WorkerMetricResult
  parse_metric value = do
    m ← as_mapping value "worker_metric_not_object"
    allow_keys m safe_metric_keys "worker_metric_unknown_fields"
    require_keys m safe_metric_keys "worker_metric_missing_fields"
    name ← index m "metric_name"
    version ← index m "metric_version"
    raw_value ← index m "value"
    v ← float_required raw_value "worker_metric_invalid_value"
    raw_numerator ← index m "numerator"
    numerator ← int_required raw_numerator "worker_metric_invalid_numerator"
    raw_denominator ← index m "denominator"
    denominator ← int_required raw_denominator "worker_metric_invalid_denominator"
    status ← index m "status"
    ok (record {
      metric_name = to_str py name;
      metric_version = to_str py version;
      value = v;
      numerator = numerator;
      denominator = denominator;
      status = to_str py status;
    })

  unfoldable pub parse_metric_diagnostic : Value → Result Error WorkerMetricDiagnostic
  parse_metric_diagnostic value = do
    d ← as_mapping value "worker_metric_diagnostic_not_object"
    allow_keys d safe_metric_diagnostic_keys "worker_metric_diagnostic_unknown_fields"
    require_keys d safe_metric_diagnostic_keys "worker_metric_diagnostic_missing_fields"
    sample_id ← index d "sample_id"
    category ← index d "category"
    name ← index d "metric_name"
    view ← index d "view"
    status ← index d "status"
    raw_numerator ← index d "numerator"
    numerator ← int_required raw_numerator "worker_metric_diagnostic_invalid_numerator"
    raw_denominator ← index d "denominator"
    denominator ← int_required raw_denominator "worker_metric_diagnostic_invalid_denominator"
    reason ← index d "reason_code"
    raw_count ← index d "count"
    count ← int_required raw_count "worker_metric_diagnostic_invalid_count"
    ok (record {
      sample_id = to_str py sample_id;
      category = to_str py category;
      metric_name = to_str py name;
      view = to_str py view;
      status = to_str py status;
      numerator = numerator;
      denominator = denominator;
      reason_code = to_str py reason;
      count = count;
    })

  unfoldable pub parse_sample_outcome : Value → Result Error WorkerSampleOutcome
  parse_sample_outcome value = do
    o ← as_mapping value "worker_sample_not_object"
    allow_keys o safe_sample_outcome_keys "worker_sample_unknown_fields"
    require_keys o ("sample_id" ∷ "category" ∷ "scored" ∷ "outcome" ∷ "phases" ∷ "metrics" ∷ [])
        "worker_sample_missing_fields"
    outcome ← index o "outcome"
    if not (is_sample_outcome (to_str py outcome)) then fail "worker_sample_invalid_outcome" else do
      raw_metrics ← index o "metrics"
      metrics_raw ← as_list raw_metrics "worker_metrics_not_list"
      diagnostics_raw ←
          as_list (elim (get o "metric_diagnostics") [ none ↦ arr nil | some v ↦ v ])
            "worker_metric_diagnostics_not_list"
      sample_id ← index o "sample_id"
      category ← index o "category"
      scored ← index o "scored"
      raw_phases ← index o "phases"
      phases ← parse_phases raw_phases
      metrics ← traverse parse_metric metrics_raw
      diagnostics ← traverse parse_metric_diagnostic diagnostics_raw
      ok (record {
        sample_id = to_str py sample_id;
        category = to_str py category;
        scored = truthy scored;
        outcome = to_str py outcome;
        phases = phases;
        metrics = metrics;
        metric_diagnostics = diagnostics;
      })

  unfoldable pub parse_repeat_outcome : Value → Result Error WorkerRepeatOutcome
  parse_repeat_outcome value = do
    r ← as_mapping value "worker_repeat_not_object"
    allow_keys r safe_repeat_outcome_keys "worker_repeat_unknown_fields"
    require_keys r ("repeat_index" ∷ "outcome" ∷ "phases" ∷ "samples" ∷ [])
        "worker_repeat_missing_fields"
    outcome ← index r "outcome"
    if not (is_repeat_outcome (to_str py outcome)) then fail "worker_repeat_invalid_outcome" else do
      raw_phases ← index r "phases"
      phases ← parse_phases raw_phases
      raw_samples ← index r "samples"
      samples_raw ← as_list raw_samples "worker_samples_not_list"
      raw_index ← index r "repeat_index"
      repeat_index ← int_required raw_index "worker_repeat_invalid_index"
      samples ← traverse parse_sample_outcome samples_raw
      ok (record {
        repeat_index = repeat_index;
        outcome = to_str py outcome;
        phases = phases;
        samples = samples;
      })

  unfoldable pub parse_result_v2 : Fields → Result Error WorkerResultV2
  parse_result_v2 payload =
      if not (is_version protocol_version_v2 (get payload "schema_version"))
      then fail "invalid_worker_protocol_version"
      else do
        allow_keys payload safe_result_v2_keys "worker_result_unknown_fields"
        require_keys payload
            ("nonce" ∷ "package_id" ∷ "candidate_id" ∷ "backend" ∷ "worker_status" ∷ "repeat" ∷ [])
            "worker_result_missing_fields"
        status ← index payload "worker_status"
        if not (is_worker_status (to_str py status))
            then fail "worker_result_invalid_status"
            else do
              nonce ← index payload "nonce"
              package_id ← index payload "package_id"
              candidate_id ← index payload "candidate_id"
              backend ← index payload "backend"
              raw_repeat ← index payload "repeat"
              repeat ← parse_repeat_outcome raw_repeat
              ok (record {
                nonce = to_str py nonce;
                package_id = to_str py package_id;
                candidate_id = to_str py candidate_id;
                backend = to_str py backend;
                worker_status = to_str py status;
                repeat = repeat;
              })

  unfoldable pub loads_result_v2 : String → Result Error WorkerResultV2
  unfolding loads_bounded
  loads_result_v2 text = do payload ← loads_bounded text; parse_result_v2 payload
