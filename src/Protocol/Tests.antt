-- ===== src/Protocol/Tests.antt =====
-- The theorems of the protocol at a concrete request and result.
use nadikt.Base.{Bool, true, false, ◌&&◌, none, some, [], ◌∷◌, ◌≡◌, refl, contains}
use nadikt.Base.Result.{ok, err}
use nadikt.Base.Int.{pos}
use nadikt.Base.Json.{
  Value, null, int, str, obj, Fields, end, field, bool, decimal, only_keys, fits_float,
}
use nadikt.Protocol.Python.{Python, index, value_error}
use nadikt.Protocol.Messages.{
  WorkerSampleRequest, WorkerRequestV2, WorkerResultV2, is_worker_status, is_repeat_outcome,
  is_phase_outcome, is_sample_outcome, safe_result_v2_keys,
}
use nadikt.Protocol.Encode.{
  validate_finite_json, sort_keys, dumps_bounded, result_v2_to_json, request_v2_to_json,
  repeat_outcome_to_json, sample_outcome_to_json, metric_to_json, phase_to_json,
  repeat_request_to_json, sample_request_to_json,
}
use nadikt.Protocol.Decode.{
  require_keys, iterate_or_empty, loads_result_v2, loads_bounded, is_version, parse_metric,
  as_mapping, allow_keys,
}
use nadikt.Protocol.Requests.{loads_request_v2}
use nadikt.Protocol.RoundTrip.{rounded_result, loads_result_v2-dumps_bounded}
use nadikt.Protocol.RequestTrip.{sorted_request, loads_request_v2-dumps_bounded}
use nadikt.Protocol.Version1.{opt_duration, loads_request, parse_request, loads_result}
use nadikt.Protocol.Versions.{is_ok, loads-one_version}
use nadikt.Protocol.Sound.{IsSafeRepeat, loads_result_v2-IsSafe}

-- A `json` that reads and writes one message.
abbrev speaking : Value → Python
speaking message = record {
  render = λ v. "?";
  parse_int = λ s. none;
  parse_float = λ s. none;
  round_3 = λ x. x;
  normal_path = λ p. p;
  json_dumps = λ v. "{}";
  json_loads = λ s. some message;
}

abbrev result : WorkerResultV2
result = record {
  nonce = "n";
  package_id = "p";
  candidate_id = "c";
  backend = "gigaam";
  worker_status = "success";
  repeat = record {
    repeat_index = pos 0;
    outcome = "success";
    phases =
        record {
          phase = "load";
          outcome = "success";
          duration_ms = decimal (pos 125) 1;
          segment_id = some (pos 0);
        }
        ∷ [];
    samples =
        record {
          sample_id = "s";
          category = "ru";
          scored = true;
          outcome = "success";
          phases = [];
          metrics =
              record {
                metric_name = "wer";
                metric_version = "v2";
                value = decimal (pos 25) 2;
                numerator = pos 1;
                denominator = pos 4;
                status = "ok";
              }
              ∷ [];
          metric_diagnostics = [];
        }
        ∷ [];
  };
}

sample : Bool → WorkerSampleRequest
sample scored = record {
  sample_id = "s";
  category = "ru";
  audio_file = "a.wav";
  reference_file = none;
  duration_seconds = decimal (pos 3) 0;
  scored = scored;
  expected_english_terms = "pytest" ∷ [];
  expected_coding_terms = [];
}

abbrev request : WorkerRequestV2
request = record {
  nonce = "n";
  package_id = "p";
  candidate_id = "c";
  backend = "gigaam";
  package_dir = "models";
  capabilities = field "streaming" (bool false) end;
  inference_defaults = end;
  repeat = record {
    repeat_index = pos 0;
    warmup_sample = sample false;
    scored_samples = sample true ∷ [];
  };
  critical_checksum_prefixes = "ab" ∷ [];
}

abbrev for_result : Python
for_result = speaking (sort_keys (result_v2_to_json (speaking null) result))

abbrev for_request : Python
for_request = speaking (sort_keys (request_v2_to_json request))

loads_result_v2-dumps_bounded_example :
    loads_result_v2 for_result "{}" ≡ ok (rounded_result for_result result)
unfolding dumps_bounded validate_finite_json fits_float result_v2_to_json repeat_outcome_to_json
    sample_outcome_to_json metric_to_json phase_to_json is_worker_status is_repeat_outcome
    is_phase_outcome is_sample_outcome
loads_result_v2-dumps_bounded_example =
    loads_result_v2-dumps_bounded for_result result "{}"
      (refl, refl, ((refl, refl), tt), ((refl, tt, (refl, tt)), tt)) refl refl

loads_request_v2-dumps_bounded_example :
    loads_request_v2 for_request "{}" ≡ ok (sorted_request for_request request)
unfolding dumps_bounded validate_finite_json fits_float request_v2_to_json repeat_request_to_json
    sample_request_to_json sample
loads_request_v2-dumps_bounded_example =
    loads_request_v2-dumps_bounded for_request request "{}"
      (
        (refl, refl),
        (refl, refl, (refl, refl), tt),
        (λ e. cc),
        ((refl, refl, (refl, refl), tt), tt),
      )
      refl refl

loads_result_v2-IsSafe_example :
    (is_worker_status "success" ≡ true)
    × IsSafeRepeat for_result result.repeat
    × ((fs : Fields) × (for_result.json_loads "{}" ≡ some (obj fs))
        × (only_keys (contains safe_result_v2_keys) fs ≡ true))
loads_result_v2-IsSafe_example =
    loads_result_v2-IsSafe for_result "{}" result loads_result_v2-dumps_bounded_example

-- A key that is not allowed is refused.
unknown_metric_key :
    parse_metric for_result (obj (field "transcript" (bool true) end))
    ≡ err (value_error "worker_metric_unknown_fields")
unfolding parse_metric as_mapping allow_keys
unknown_metric_key = refl

-- A text of version 1.
abbrev first_version : Python
first_version = speaking (
    obj (
      field "schema_version" (int (pos 1)) (
        field "nonce" (str "n") (
          field "package_id" (str "p") (
            field "candidate_id" (str "c")
              (field "backend" (str "b") (field "package_dir" (str "d") end)))))))

first_version_run : is_ok (loads_request first_version "{}") ≡ true
unfolding loads_request parse_request loads_bounded is_version validate_finite_json as_mapping
    fits_float require_keys index iterate_or_empty opt_duration
first_version_run = refl

loads-one_version_example :
    (is_ok (loads_request first_version "{}") && is_ok (loads_request_v2 first_version "{}")
      ≡ false)
    × (is_ok (loads_result first_version "{}") && is_ok (loads_result_v2 first_version "{}")
        ≡ false)
loads-one_version_example = loads-one_version first_version "{}"
