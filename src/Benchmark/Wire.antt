-- ===== src/Benchmark/Wire.antt =====
-- The messages of both versions together, as benchmarks/asr/benchmark_worker.py and
-- worker_supervisor.py pass them.
use nadikt.Base.{String, if◌then◌else◌, str_eq}
use nadikt.Base.Result.{Result, ok, err, ◌>>=◌}
use nadikt.Protocol.Python.{Python, Error, value_error}
use nadikt.Protocol.Messages.{WorkerRequestV2, WorkerResultV2}
use nadikt.Protocol.Version1.{
  WorkerRequest, WorkerResult, request_to_json, result_to_json, loads_request, loads_result,
}
use nadikt.Protocol.Requests.{loads_request_v2}
use nadikt.Protocol.Decode.{loads_result_v2}
use nadikt.Protocol.Encode.{request_v2_to_json, result_v2_to_json, dumps_bounded}
use nadikt.Benchmark.Engines.{EngineRequest}

-- `WorkerRequest | WorkerRequestV2`
pub data Request : Type 0 where
  request_v1 : WorkerRequest → Request
  request_v2 : WorkerRequestV2 → Request

-- `WorkerResult | WorkerResultV2`
pub data Reply : Type 0 where
  reply_v1 : WorkerResult → Reply
  reply_v2 : WorkerResultV2 → Reply

-- The fields by which a message says whose it is.
pub record Identity : Type 0 where
  pub nonce : String
  pub package_id : String
  pub candidate_id : String
  pub backend : String

abbrev pub request_identity : Request → Identity
request_identity (request_v1 q) = record {
  nonce = q.nonce;
  package_id = q.package_id;
  candidate_id = q.candidate_id;
  backend = q.backend;
}
request_identity (request_v2 q) = record {
  nonce = q.nonce;
  package_id = q.package_id;
  candidate_id = q.candidate_id;
  backend = q.backend;
}

abbrev pub reply_identity : Reply → Identity
reply_identity (reply_v1 r) = record {
  nonce = r.nonce;
  package_id = r.package_id;
  candidate_id = r.candidate_id;
  backend = r.backend;
}
reply_identity (reply_v2 r) = record {
  nonce = r.nonce;
  package_id = r.package_id;
  candidate_id = r.candidate_id;
  backend = r.backend;
}

abbrev pub reply_status : Reply → String
reply_status (reply_v1 r) = r.worker_status
reply_status (reply_v2 r) = r.worker_status

abbrev pub engine_request : Request → EngineRequest
engine_request (request_v1 q) = record {
  package_id = q.package_id;
  candidate_id = q.candidate_id;
  backend = q.backend;
  inference_defaults = q.inference_defaults;
  capabilities = q.capabilities;
  critical_checksum_prefixes = q.critical_checksum_prefixes;
}
engine_request (request_v2 q) = record {
  package_id = q.package_id;
  candidate_id = q.candidate_id;
  backend = q.backend;
  inference_defaults = q.inference_defaults;
  capabilities = q.capabilities;
  critical_checksum_prefixes = q.critical_checksum_prefixes;
}

-- `except ValueError as error: if str(error) != "invalid_worker_protocol_version": raise`, and what
-- follows.
unfoldable pub or_version_1 : {A : Type 0} → Result Error A → Result Error A → Result Error A
or_version_1 (ok a) first = ok a
or_version_1 (err (value_error message)) first =
    if str_eq message "invalid_worker_protocol_version" then first else err (value_error message)
or_version_1 (err e) first = err e

module _ (py : Python) where
  -- `_loads_request` of the worker.
  unfoldable pub loads_any_request : String → Result Error Request
  unfolding or_version_1
  loads_any_request text =
      or_version_1 (do q ← loads_request_v2 py text; ok (request_v2 q))
        (do q ← loads_request py text; ok (request_v1 q))

  -- `_loads_worker_result` of the supervisor.
  unfoldable pub loads_worker_result : String → Result Error Reply
  unfolding or_version_1
  loads_worker_result text =
      or_version_1 (do r ← loads_result_v2 py text; ok (reply_v2 r))
        (do r ← loads_result py text; ok (reply_v1 r))

  -- `request.to_worker_json()`
  unfoldable pub print_request : Request → Result Error String
  print_request (request_v1 q) = dumps_bounded py (request_to_json q)
  print_request (request_v2 q) = dumps_bounded py (request_v2_to_json q)

  -- `result.to_worker_json()`
  unfoldable pub print_reply : Reply → Result Error String
  print_reply (reply_v1 r) = dumps_bounded py (result_to_json py r)
  print_reply (reply_v2 r) = dumps_bounded py (result_v2_to_json py r)
