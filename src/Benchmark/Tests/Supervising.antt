-- ===== src/Benchmark/Tests/Supervising.antt =====
-- The supervisor with processes of fixed answers, and its theorems there.
use nadikt.Base.{ℕ, String, false, none, some, [], ◌∷◌, ◌≡◌, refl}
use nadikt.Base.Result.{ok, err}
use nadikt.Base.Int.{pos}
use nadikt.Base.Json.{decimal, nan, end, field, null, Fields, float, fits_float}
use nadikt.Protocol.Python.{Python, value_error}
use nadikt.Protocol.Encode.{
  request_v2_to_json, repeat_request_to_json, sample_request_to_json, dumps_bounded,
  validate_finite_json,
}
use nadikt.Protocol.Messages.{WorkerSampleRequest}
use nadikt.Benchmark.Wire.{Request, request_v2, print_request}
use nadikt.Benchmark.Supervisor.Process.{WorkerSupervisor, System, timeout_expired}
use nadikt.Benchmark.Supervisor.Running.{run}
use nadikt.Benchmark.Supervisor.Handing.{Trusted, Lives, run-Trusted, run-Lives}
use nadikt.Benchmark.Supervisor.Unsent.{LeavesSpawned, run-unsent}

abbrev python : Python
python = record {
  render = λ v. "?";
  parse_int = λ s. none;
  parse_float = λ s. none;
  round_3 = λ x. x;
  normal_path = λ p. p;
  json_dumps = λ v. "{}";
  json_loads = λ s. some null;
}

abbrev settings : WorkerSupervisor
settings = record {
  timeout_seconds = decimal (pos 120) 0;
  terminate_grace_seconds = decimal (pos 5) 0;
  max_capture_bytes = 131072;
}

-- A process that answers only once it is killed.
abbrev stubborn : System ℕ
stubborn = record {
  Process = Unit;
  Collector = Unit;
  Report = String;
  monotonic = λ w. w;
  popen = λ w. (ok tt, w);
  communicate = λ process input timeout w. elim timeout [
    | none ↦ (ok ("", ""), w)
    | some t ↦ (err timeout_expired, w)
  ];
  terminate = λ process w. (ok tt, w);
  kill = λ process w. (ok tt, w);
  returncode = λ process w. none;
  sampler_factory = λ w. (ok tt, w);
  start_collector = λ with_sampler process w. (ok tt, w);
  note_missed = λ collector reason w. (ok tt, w);
  finish = λ collector w. (ok "partial", w);
  report_status = λ r. r;
  spawn_failed_report = "unavailable";
}

abbrev sample : WorkerSampleRequest
sample = record {
  sample_id = "s";
  category = "c";
  audio_file = "a.wav";
  reference_file = none;
  duration_seconds = decimal (pos 2) 0;
  scored = false;
  expected_english_terms = [];
  expected_coding_terms = [];
}

-- Its defaults are these.
abbrev request : Fields → Request
request defaults = request_v2 (record {
  nonce = "n";
  package_id = "p";
  candidate_id = "c";
  backend = "gigaam";
  package_dir = "/models/p";
  capabilities = end;
  inference_defaults = defaults;
  repeat = record { repeat_index = pos 1; warmup_sample = sample; scored_samples = sample ∷ [] };
  critical_checksum_prefixes = [];
})

run-Trusted_example :
    Trusted python
      (λ c. c)
      settings
      stubborn
      (request end)
      (run python (λ c. c) settings stubborn (request end) 0)
run-Trusted_example = run-Trusted python (λ c. c) settings stubborn (request end) 0

run-Lives_example :
    Lives python (λ c. c) settings stubborn (run python (λ c. c) settings stubborn (request end) 0)
run-Lives_example = run-Lives python (λ c. c) settings stubborn (request end) 0

-- A number that JSON has not.
abbrev broken : Request
broken = request (field "beam_size" (float nan) end)

unprintable : print_request python broken ≡ err (value_error "worker_message_non_finite_number")
unfolding print_request request_v2_to_json repeat_request_to_json sample_request_to_json
    dumps_bounded validate_finite_json fits_float
unprintable = refl

run-unsent_example : LeavesSpawned (run python (λ c. c) settings stubborn broken 0)
run-unsent_example =
    run-unsent python (λ c. c) settings stubborn broken 0 tt
      (value_error "worker_message_non_finite_number") unprintable refl
