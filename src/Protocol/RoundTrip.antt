-- ===== src/Protocol/RoundTrip.antt =====
-- A result of version 2 that was written is read back.
use nadikt.Base.{String, true, some, List, [], ◌∷◌, map, ◌≡◌, refl, arith, All}
use nadikt.Base.Result.{Result, ok, ◌>>=◌}
use nadikt.Base.Json.{Value, is_finite, to_list, from_list, truthy}
use nadikt.Protocol.Python.{Error, Python, index, traverse, to_str, to_int}
use nadikt.Protocol.Messages.{
  WorkerPhase, WorkerMetricResult, WorkerMetricDiagnostic, WorkerSampleOutcome, WorkerResultV2,
  is_phase_outcome, is_sample_outcome, is_repeat_outcome, is_worker_status,
}
use nadikt.Protocol.Encode.{
  dumps_bounded, array, metric_to_json, sort_keys, sort_items, insert_field, diagnostic_to_json,
  phase_to_json, sample_outcome_to_json, repeat_outcome_to_json, result_v2_to_json,
}
use nadikt.Protocol.Sorting.{loads_bounded-dumps_bounded}
use nadikt.Protocol.Decode.{
  as_mapping, as_list, allow_keys, require_keys, float_required, int_required, opt_int, parse_phase,
  parse_phases, parse_metric, parse_metric_diagnostic, parse_sample_outcome, parse_repeat_outcome,
  parse_result_v2, is_version, loads_result_v2,
}

pub traverse-map :
    {A B C : Type 0} (f : B → Result Error C) (g : A → B) (h : A → C) (xs : List A)
    → All (λ x. f (g x) ≡ ok (h x)) xs
    → traverse f (map g xs) ≡ ok (map h xs)
traverse-map f g h [] a = refl
traverse-map f g h (x ∷ xs) (e, a) = rw (e, traverse-map f g h xs a)

traverse_inverse :
    {A B : Type 0} (f : B → Result Error A) (g : A → B) (xs : List A)
    → All (λ x. f (g x) ≡ ok x) xs
    → traverse f (map g xs) ≡ ok xs
traverse_inverse f g [] a = refl
traverse_inverse f g (x ∷ xs) (e, a) = rw (e, traverse_inverse f g xs a)

-- Sorting the keys of an array's items.
pub to_list-sort_items :
    {A : Type 0} (f : A → Value) (xs : List A)
    → to_list (sort_items (from_list (map f xs))) ≡ map (λ x. sort_keys (f x)) xs
unfolding sort_keys
to_list-sort_items f [] = refl
to_list-sort_items f (x ∷ xs) = rw (to_list-sort_items f xs)

All-of : {A : Type 0} {P : A → Type 0} → ((x : A) → P x) → (xs : List A) → All P xs
All-of f [] = tt
All-of f (x ∷ xs) = (f x, All-of f xs)

pub All-map :
    {A : Type 0} {P Q : A → Type 0} → ((x : A) → P x → Q x) → (xs : List A) → All P xs → All Q xs
All-map f [] a = tt
All-map f (x ∷ xs) (p, a) = (f x p, All-map f xs a)

module _ (py : Python) where
  parse_metric-metric_to_json :
      (m : WorkerMetricResult)
      → is_finite m.value ≡ true
      → parse_metric py (sort_keys (metric_to_json m)) ≡ ok m
  unfolding parse_metric sort_keys insert_field metric_to_json as_mapping allow_keys require_keys
      index float_required int_required to_str
  parse_metric-metric_to_json m h = rw h

  parse_diagnostic-diagnostic_to_json :
      (d : WorkerMetricDiagnostic)
      → parse_metric_diagnostic py (sort_keys (diagnostic_to_json d)) ≡ ok d
  unfolding parse_metric_diagnostic sort_keys insert_field diagnostic_to_json as_mapping allow_keys
      require_keys index int_required to_str
  parse_diagnostic-diagnostic_to_json d = refl

  -- What a phase reads back as: its duration is rounded.
  abbrev rounded : WorkerPhase → WorkerPhase
  rounded p = record p { duration_ms = py.round_3 p.duration_ms }

  parse_phase-phase_to_json :
      (p : WorkerPhase)
      → is_phase_outcome p.outcome ≡ true
      → is_finite (py.round_3 p.duration_ms) ≡ true
      → parse_phase py (sort_keys (phase_to_json py p)) ≡ ok (rounded p)
  unfolding parse_phase sort_keys insert_field phase_to_json as_mapping allow_keys require_keys
      index float_required opt_int to_int to_str
  parse_phase-phase_to_json p h k = ground (arith, h, k)

  abbrev IsPhase : WorkerPhase → Type 0
  IsPhase p = (is_phase_outcome p.outcome ≡ true) × (is_finite (py.round_3 p.duration_ms) ≡ true)

  abbrev IsSample : WorkerSampleOutcome → Type 0
  IsSample o =
      (is_sample_outcome o.outcome ≡ true)
      × All IsPhase o.phases
      × All (λ m. is_finite m.value ≡ true) o.metrics

  -- What the protocol allows in a result: known outcomes and finite numbers.
  abbrev pub IsResult : WorkerResultV2 → Type 0
  IsResult r =
      (is_worker_status r.worker_status ≡ true)
      × (is_repeat_outcome r.repeat.outcome ≡ true)
      × All IsPhase r.repeat.phases
      × All IsSample r.repeat.samples

  abbrev rounded_sample : WorkerSampleOutcome → WorkerSampleOutcome
  rounded_sample o = record o { phases = map rounded o.phases }

  -- What a result reads back as: the durations of its phases are rounded.
  abbrev pub rounded_result : WorkerResultV2 → WorkerResultV2
  rounded_result r =
      let o = r.repeat in
      record r {
        repeat = record o { phases = map rounded o.phases; samples = map rounded_sample o.samples };
      }

  parse_phases-phase_to_json :
      (ps : List WorkerPhase)
      → All IsPhase ps
      → parse_phases py (sort_keys (array (phase_to_json py) ps)) ≡ ok (map rounded ps)
  unfolding parse_phases as_list sort_keys
  parse_phases-phase_to_json ps h = rw to_list-sort_items (
      traverse-map (parse_phase py) (λ p. sort_keys (phase_to_json py p)) rounded ps
        (All-map (λ p (v : IsPhase p). parse_phase-phase_to_json p v.0 v.1) ps h))

  parse_sample-sample_outcome_to_json :
      (o : WorkerSampleOutcome)
      → IsSample o
      → parse_sample_outcome py (sort_keys (sample_outcome_to_json py o)) ≡ ok (rounded_sample o)
  unfolding parse_sample_outcome sort_keys insert_field sample_outcome_to_json as_mapping as_list
      allow_keys require_keys index to_str truthy
  parse_sample-sample_outcome_to_json o (h, phases, metrics) = rw (
    h,
    parse_phases-phase_to_json o.phases phases,
    to_list-sort_items metric_to_json o.metrics,
    to_list-sort_items diagnostic_to_json o.metric_diagnostics,
    traverse_inverse (parse_metric py) (λ m. sort_keys (metric_to_json m)) o.metrics
        (All-map parse_metric-metric_to_json o.metrics metrics),
    traverse_inverse (parse_metric_diagnostic py) (λ d. sort_keys (diagnostic_to_json d))
        o.metric_diagnostics (All-of parse_diagnostic-diagnostic_to_json o.metric_diagnostics),
  )

  parse_samples-sample_outcome_to_json :
      (os : List WorkerSampleOutcome)
      → All IsSample os
      → traverse (parse_sample_outcome py) (map (λ o. sort_keys (sample_outcome_to_json py o)) os)
        ≡ ok (map rounded_sample os)
  parse_samples-sample_outcome_to_json os h =
      traverse-map (parse_sample_outcome py) (λ o. sort_keys (sample_outcome_to_json py o))
        rounded_sample os (All-map parse_sample-sample_outcome_to_json os h)

  parse_result_v2-result_v2_to_json :
      (r : WorkerResultV2)
      → IsResult r
      → (as_mapping (sort_keys (result_v2_to_json py r)) "worker_message_not_object"
          >>= parse_result_v2 py)
        ≡ ok (rounded_result r)
  unfolding parse_result_v2 result_v2_to_json parse_repeat_outcome repeat_outcome_to_json as_mapping
      as_list allow_keys require_keys index int_required to_str is_version sort_keys insert_field
  parse_result_v2-result_v2_to_json r (status, outcome, phases, samples) = rw (
    status,
    outcome,
    parse_phases-phase_to_json r.repeat.phases phases,
    to_list-sort_items (sample_outcome_to_json py) r.repeat.samples,
    parse_samples-sample_outcome_to_json r.repeat.samples samples,
  )

  -- An allowed result of version 2 that was written within the size limit is read back from its text,
  -- where `json` reads that text as the message with its keys sorted: the durations of its phases
  -- come back rounded to three places, and all else as it was.
  pub loads_result_v2-dumps_bounded :
      (r : WorkerResultV2) (text : String)
      → IsResult r
      → dumps_bounded py (result_v2_to_json py r) ≡ ok text
      → py.json_loads text ≡ some (sort_keys (result_v2_to_json py r))
      → loads_result_v2 py text ≡ ok (rounded_result r)
  unfolding loads_result_v2 result_v2_to_json as_mapping sort_keys
  loads_result_v2-dumps_bounded r text valid written read =
      rw (loads_bounded-dumps_bounded py _ text written read)
        (parse_result_v2-result_v2_to_json r valid)
