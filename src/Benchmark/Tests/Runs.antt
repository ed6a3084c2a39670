-- ===== src/Benchmark/Tests/Runs.antt =====
-- An engine whose warm-up fails, and a request of benchmarks/asr/benchmark_worker.py.
use nadikt.Base.{ℕ, ◌+◌, ◌*◌, String, Bool, true, false, Option, none, some, [], ◌∷◌}
use nadikt.Base.Result.{ok, err}
use nadikt.Base.Int.{ℤ, pos}
use nadikt.Base.Json.{Float, decimal, nan, end}
use nadikt.Protocol.Messages.{
  WorkerSampleRequest, WorkerRequestV2, WorkerPhase, WorkerSampleOutcome,
}
use nadikt.Asr.Ports.{AsrFailureCode, exception, engine_error}
use nadikt.Quality.Equality.{eq_char, eq_text}
use nadikt.Benchmark.Engines.{AsrEngine}
use nadikt.Benchmark.Worker.Sampling.{Host}

-- The world counts the calls. A float of seconds is a number of whole ones.
abbrev pub milliseconds : Float → ℤ
milliseconds (decimal (pos n) k) = pos (n * 1000)
milliseconds _ = pos 0

abbrev pub host : Host ℕ
host = record {
  monotonic = λ w. w;
  read_text = λ path w. err exception;
  fold = λ t. t;
  lower = λ c. c;
  quotient = λ r. nan;
  round_6 = λ r. nan;
  milliseconds = milliseconds;
}

-- An engine whose warm-up fails, and which hears the same always.
abbrev pub cold : AsrEngine ℕ
cold = record {
  State = ℕ;
  create = λ metadata w. w;
  world = λ s. s;
  load = λ options s. (ok tt, s + 1);
  is_ready = λ s. true;
  warm_up = λ segment s. (
    err (
        engine_error (record {
          code = AsrFailureCode.warm_up_failed;
          phase = "warm_up";
          recoverable = true;
          retryable = false;
        })),
    s + 1,
  );
  transcribe_segment = λ segment s. (
    ok (record {
      segment_id = pos 0;
      text = "heard";
      start_ms = pos 0;
      end_ms = pos 1;
      confidence = none;
    }),
    s + 1,
  );
  close = λ s. (ok tt, s + 1);
}

abbrev pub sample : Bool → ℕ → WorkerSampleRequest
sample scored seconds = record {
  sample_id = "s";
  category = "c";
  audio_file = "a.wav";
  reference_file = none;
  duration_seconds = decimal (pos seconds) 0;
  scored = scored;
  expected_english_terms = [];
  expected_coding_terms = [];
}

abbrev pub request : ℕ → WorkerRequestV2
request seconds = record {
  nonce = "n";
  package_id = "p";
  candidate_id = "gigaam-v3-e2e-ctc";
  backend = "gigaam";
  package_dir = "/models/p";
  capabilities = end;
  inference_defaults = end;
  repeat = record {
    repeat_index = pos 1;
    warmup_sample = sample false seconds;
    scored_samples = sample true 2 ∷ sample true 3 ∷ [];
  };
  critical_checksum_prefixes = [];
}

abbrev pub success_phase : String → ℕ → Option ℤ → WorkerPhase
success_phase name took segment_id = record {
  phase = name;
  outcome = "success";
  duration_ms = decimal (pos took) 0;
  segment_id = segment_id;
}

abbrev pub heard : WorkerSampleOutcome
heard = record {
  sample_id = "s";
  category = "c";
  scored = true;
  outcome = "success";
  phases = success_phase "transcribe" 1 (some (pos 0)) ∷ [];
  metrics = [];
  metric_diagnostics = [];
}
