-- ===== src/Protocol/Requests.antt =====
-- The parsers of benchmarks/asr/worker_protocol.py for requests of version 2.
use nadikt.Base.{
  String, Bool, true, false, not, Option, none, some, List, [], ◌∷◌, map, if◌then◌else◌,
}
use nadikt.Base.Result.{Result, ok, ◌>>=◌, ◌>>◌}
use nadikt.Base.Json.{Value, Fields, get, truthy}
use nadikt.Protocol.Python.{Error, Python, index, traverse, to_str}
use nadikt.Protocol.Messages.{
  WorkerSampleRequest, WorkerRepeatRequest, WorkerRequestV2, protocol_version_v2,
  safe_request_v2_keys, safe_repeat_request_keys, safe_sample_request_keys,
}
use nadikt.Protocol.Decode.{
  fail, as_mapping, as_list, allow_keys, require_keys, float_required, int_required,
  mapping_or_empty, iterate_or_empty, only_mappings, is_version, loads_bounded,
}

-- `isinstance(value, list) and value`, or the error.
unfoldable pub as_full_list : Value → String → Result Error (List Value)
as_full_list v message = do
  vs ← as_list v message
  elim vs [ [] ↦ fail message | x ∷ xs ↦ ok (x ∷ xs) ]

unfoldable pub same_bool : Bool → Bool → Bool
same_bool true b = b
same_bool false b = not b

module _ (py : Python) where
  -- `Path(str(value))`
  unfoldable pub to_path : Value → String
  to_path v = py.normal_path (to_str py v)

  -- `Path(str(fields[key])) if fields.get(key) else None`
  unfoldable pub opt_path : Option Value → Option String
  opt_path none = none
  opt_path (some v) = if truthy v then some (to_path v) else none

  unfoldable pub parse_sample_request : Bool → Value → Result Error WorkerSampleRequest
  parse_sample_request expected_scored value = do
    q ← as_mapping value "worker_sample_not_object"
    allow_keys q safe_sample_request_keys "worker_sample_unknown_fields"
    require_keys q ("sample_id" ∷ "category" ∷ "audio_file" ∷ "duration_seconds" ∷ "scored" ∷ [])
        "worker_sample_missing_fields"
    raw_scored ← index q "scored"
    if not (same_bool (truthy raw_scored) expected_scored)
        then fail "worker_sample_scored_mismatch"
        else do
          sample_id ← index q "sample_id"
          category ← index q "category"
          audio_file ← index q "audio_file"
          raw_duration ← index q "duration_seconds"
          duration ← float_required raw_duration "worker_sample_invalid_duration"
          english ← iterate_or_empty (get q "expected_english_terms")
          coding ← iterate_or_empty (get q "expected_coding_terms")
          ok (record {
            sample_id = to_str py sample_id;
            category = to_str py category;
            audio_file = to_path audio_file;
            reference_file = opt_path (get q "reference_file");
            duration_seconds = duration;
            scored = truthy raw_scored;
            expected_english_terms = map (to_str py) english;
            expected_coding_terms = only_mappings coding;
          })

  unfoldable pub parse_repeat_request : Value → Result Error WorkerRepeatRequest
  parse_repeat_request value = do
    r ← as_mapping value "worker_repeat_not_object"
    allow_keys r safe_repeat_request_keys "worker_repeat_unknown_fields"
    require_keys r safe_repeat_request_keys "worker_repeat_missing_fields"
    raw_scored ← index r "scored_samples"
    scored_raw ← as_full_list raw_scored "worker_scored_samples_required"
    raw_index ← index r "repeat_index"
    repeat_index ← int_required raw_index "worker_repeat_invalid_index"
    raw_warmup ← index r "warmup_sample"
    warmup ← parse_sample_request false raw_warmup
    scored ← traverse (parse_sample_request true) scored_raw
    ok (record { repeat_index = repeat_index; warmup_sample = warmup; scored_samples = scored })

  unfoldable pub parse_request_v2 : Fields → Result Error WorkerRequestV2
  parse_request_v2 payload =
      if not (is_version protocol_version_v2 (get payload "schema_version"))
      then fail "invalid_worker_protocol_version"
      else do
        allow_keys payload safe_request_v2_keys "worker_request_unknown_fields"
        require_keys payload
            ("nonce" ∷ "package_id" ∷ "candidate_id" ∷ "backend" ∷ "package_dir" ∷ "repeat" ∷ [])
            "worker_request_missing_fields"
        raw_repeat ← index payload "repeat"
        repeat ← parse_repeat_request raw_repeat
        nonce ← index payload "nonce"
        package_id ← index payload "package_id"
        candidate_id ← index payload "candidate_id"
        backend ← index payload "backend"
        package_dir ← index payload "package_dir"
        prefixes ← iterate_or_empty (get payload "critical_checksum_prefixes")
        ok (record {
          nonce = to_str py nonce;
          package_id = to_str py package_id;
          candidate_id = to_str py candidate_id;
          backend = to_str py backend;
          package_dir = to_path package_dir;
          capabilities = mapping_or_empty (get payload "capabilities");
          inference_defaults = mapping_or_empty (get payload "inference_defaults");
          repeat = repeat;
          critical_checksum_prefixes = map (to_str py) prefixes;
        })

  unfoldable pub loads_request_v2 : String → Result Error WorkerRequestV2
  loads_request_v2 text = do payload ← loads_bounded py text; parse_request_v2 payload
