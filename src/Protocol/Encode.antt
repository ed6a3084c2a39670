-- ===== src/Protocol/Encode.antt =====
-- `to_json` and `dumps_bounded` of benchmarks/asr/worker_protocol.py.
use Prim.Native.Nat.{Ordering}
use Prim.Native.String.{len, compare}
use nadikt.Base.{String, Option, none, some, List, map, ltb, if◌then◌else◌}
use nadikt.Base.Result.{Result, ok, err, ◌>>=◌, ◌>>◌}
use nadikt.Base.Int.{pos}
use nadikt.Base.Json.{
  Value, null, bool, int, float, str, arr, obj, Items, nil, cons, Fields, end, field, from_list,
  fits_float, is_finite,
}
use nadikt.Protocol.Python.{Error, value_error, overflow_error, Python}
use nadikt.Protocol.Messages.{
  WorkerSampleRequest, WorkerRepeatRequest, WorkerRequestV2, WorkerPhase, WorkerMetricResult,
  WorkerMetricDiagnostic, WorkerSampleOutcome, WorkerRepeatOutcome, WorkerResultV2,
  protocol_version_v2, max_message_bytes,
}

-- `[f(x) for x in xs]`
abbrev pub array : {A : Type 0} → (A → Value) → List A → Value
array f xs = arr (from_list (map f xs))

abbrev pub opt_str : Option String → Value
opt_str none = null
opt_str (some s) = str s

unfoldable pub sample_request_to_json : WorkerSampleRequest → Value
sample_request_to_json q = obj (
    field "sample_id" (str q.sample_id) (
      field "category" (str q.category) (
        field "audio_file" (str q.audio_file) (
          field "reference_file" (opt_str q.reference_file) (
            field "duration_seconds" (float q.duration_seconds) (
              field "scored" (bool q.scored) (
                field "expected_english_terms" (array str q.expected_english_terms)
                  (field "expected_coding_terms" (array obj q.expected_coding_terms) end))))))))

unfoldable pub repeat_request_to_json : WorkerRepeatRequest → Value
repeat_request_to_json q = obj (
    field "repeat_index" (int q.repeat_index) (
      field "warmup_sample" (sample_request_to_json q.warmup_sample)
        (field "scored_samples" (array sample_request_to_json q.scored_samples) end)))

unfoldable pub request_v2_to_json : WorkerRequestV2 → Value
request_v2_to_json q = obj (
    field "schema_version" (int (pos protocol_version_v2)) (
      field "nonce" (str q.nonce) (
        field "package_id" (str q.package_id) (
          field "candidate_id" (str q.candidate_id) (
            field "backend" (str q.backend) (
              field "package_dir" (str q.package_dir) (
                field "capabilities" (obj q.capabilities) (
                  field "inference_defaults" (obj q.inference_defaults) (
                    field "critical_checksum_prefixes" (array str q.critical_checksum_prefixes)
                      (field "repeat" (repeat_request_to_json q.repeat) end))))))))))

unfoldable pub metric_to_json : WorkerMetricResult → Value
metric_to_json m = obj (
    field "metric_name" (str m.metric_name) (
      field "metric_version" (str m.metric_version) (
        field "value" (float m.value) (
          field "numerator" (int m.numerator)
            (field "denominator" (int m.denominator) (field "status" (str m.status) end))))))

unfoldable pub diagnostic_to_json : WorkerMetricDiagnostic → Value
diagnostic_to_json d = obj (
    field "sample_id" (str d.sample_id) (
      field "category" (str d.category) (
        field "metric_name" (str d.metric_name) (
          field "view" (str d.view) (
            field "status" (str d.status) (
              field "numerator" (int d.numerator) (
                field "denominator" (int d.denominator)
                  (field "reason_code" (str d.reason_code) (field "count" (int d.count) end)))))))))

module _ (py : Python) where
  unfoldable pub phase_to_json : WorkerPhase → Value
  phase_to_json p = obj (
      field "phase" (str p.phase) (
        field "outcome" (str p.outcome) (
          field "duration_ms" (float (py.round_3 p.duration_ms))
            (elim p.segment_id [ none ↦ end | some n ↦ field "segment_id" (int n) end ]))))

  unfoldable pub sample_outcome_to_json : WorkerSampleOutcome → Value
  sample_outcome_to_json o = obj (
      field "sample_id" (str o.sample_id) (
        field "category" (str o.category) (
          field "scored" (bool o.scored) (
            field "outcome" (str o.outcome) (
              field "phases" (array phase_to_json o.phases) (
                field "metrics" (array metric_to_json o.metrics) (
                  field "metric_diagnostics" (array diagnostic_to_json o.metric_diagnostics)
                    end)))))))

  unfoldable pub repeat_outcome_to_json : WorkerRepeatOutcome → Value
  repeat_outcome_to_json o = obj (
      field "repeat_index" (int o.repeat_index) (
        field "outcome" (str o.outcome) (
          field "phases" (array phase_to_json o.phases)
            (field "samples" (array sample_outcome_to_json o.samples) end))))

  unfoldable pub result_v2_to_json : WorkerResultV2 → Value
  result_v2_to_json r = obj (
      field "schema_version" (int (pos protocol_version_v2)) (
        field "nonce" (str r.nonce) (
          field "package_id" (str r.package_id) (
            field "candidate_id" (str r.candidate_id) (
              field "backend" (str r.backend) (
                field "worker_status" (str r.worker_status)
                  (field "repeat" (repeat_outcome_to_json r.repeat) end)))))))

-- `_validate_finite_json`
unfoldable mutual
  pub validate_finite_json : Value → Result Error (Unit {0})
  validate_finite_json null = ok tt
  validate_finite_json (bool b) = ok tt
  validate_finite_json (str s) = ok tt
  validate_finite_json (int n) = if fits_float n then ok tt else err overflow_error
  validate_finite_json (float x) =
      if is_finite x then ok tt else err (value_error "worker_message_non_finite_number")
  validate_finite_json (arr vs) = validate_items vs
  validate_finite_json (obj fs) = validate_fields fs

  pub validate_items : Items → Result Error (Unit {0})
  validate_items nil = ok tt
  validate_items (cons v vs) = validate_finite_json v >>= λ _. validate_items vs

  pub validate_fields : Fields → Result Error (Unit {0})
  validate_fields end = ok tt
  validate_fields (field k v fs) = validate_finite_json v >>= λ _. validate_fields fs

-- `sort_keys=True`, at every depth.
unfoldable pub insert_field : String → Value → Fields → Fields
insert_field k v end = field k v end
insert_field k v (field j w fs) =
    let rest = insert_field k v fs in
    elim (compare k j) [ Ordering.gt ↦ field j w rest | _ ↦ field k v (field j w fs) ]

unfoldable mutual
  pub sort_keys : Value → Value
  sort_keys null = null
  sort_keys (bool b) = bool b
  sort_keys (int n) = int n
  sort_keys (float x) = float x
  sort_keys (str s) = str s
  sort_keys (arr vs) = arr (sort_items vs)
  sort_keys (obj fs) = obj (sort_fields fs)

  pub sort_items : Items → Items
  sort_items nil = nil
  sort_items (cons v vs) = cons (sort_keys v) (sort_items vs)

  pub sort_fields : Fields → Fields
  sort_fields end = end
  sort_fields (field k v fs) = insert_field k (sort_keys v) (sort_fields fs)

module _ (py : Python) where
  unfoldable pub dumps_bounded : Value → Result Error String
  dumps_bounded payload = do
    validate_finite_json payload
    let text = py.json_dumps (sort_keys payload)
    if ltb max_message_bytes (len text)
        then err (value_error "worker_message_too_large")
        else ok text
