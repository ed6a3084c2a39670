-- ===== src/Protocol/Sound.antt =====
-- What a result of version 2 that was read satisfies.
use nadikt.Base.{String, true, some, List, [], ◌∷◌, ◌≡◌, refl, arith, All, contains}
use nadikt.Base.Result.{Result, ok, err, ◌>>=◌}
use nadikt.Base.Json.{Value, obj, arr, Fields, Float, int, float, is_finite, only_keys, to_list}
use nadikt.Protocol.Python.{Error, Python, index, traverse}
use nadikt.Protocol.Messages.{
  WorkerPhase, WorkerMetricResult, WorkerSampleOutcome, WorkerRepeatOutcome, WorkerResultV2,
  is_phase_outcome, is_sample_outcome, is_repeat_outcome, is_worker_status, safe_result_v2_keys,
}
use nadikt.Protocol.Decode.{
  as_mapping, as_list, allow_keys, require_keys, float_required, parse_phase, parse_phases,
  parse_metric, parse_sample_outcome, parse_repeat_outcome, parse_result_v2, loads_result_v2,
  loads_bounded,
}

>>=-eq_ok :
    {A B : Type 0} (m : Result Error A) (f : A → Result Error B) {b : B}
    → (m >>= f) ≡ ok b
    → (a : A) × (m ≡ ok a) × (f a ≡ ok b)
>>=-eq_ok (ok a) f h = (a, refl, h)
>>=-eq_ok (err e) f h = cc

traverse-All :
    {A B : Type 0} (f : A → Result Error B) (P : B → Type 0)
    (sound : (x : A) (y : B) → f x ≡ ok y → P y) (xs : List A) (ys : List B)
    → traverse f xs ≡ ok ys
    → All P ys
traverse-All f P sound [] ys h = ground arith
traverse-All f P sound (x ∷ xs) ys h =
    let (y, fx, rest) = >>=-eq_ok (f x) _ h in
    let (zs, fxs, done) = >>=-eq_ok (traverse f xs) _ rest in
    ground (arith, sound x y fx, traverse-All f P sound xs zs fxs)

float_required-is_finite :
    (v : Value) (message : String) (x : Float)
    → float_required v message ≡ ok x
    → is_finite x ≡ true
unfolding float_required
float_required-is_finite (int n) message x h = ground arith
float_required-is_finite (float y) message x h = ground arith
float_required-is_finite _ message x h = cc

module _ (py : Python) where
  abbrev pub IsSafePhase : WorkerPhase → Type 0
  IsSafePhase p = (is_phase_outcome p.outcome ≡ true) × (is_finite p.duration_ms ≡ true)

  parse_phase-IsSafePhase : (v : Value) (p : WorkerPhase) → parse_phase py v ≡ ok p → IsSafePhase p
  unfolding parse_phase as_mapping allow_keys require_keys index
  parse_phase-IsSafePhase (obj fs) p h = grind (arith, float_required-is_finite)
  parse_phase-IsSafePhase _ p h = cc

  parse_metric-is_finite :
      (v : Value) (m : WorkerMetricResult) → parse_metric py v ≡ ok m → is_finite m.value ≡ true
  unfolding parse_metric as_mapping allow_keys require_keys index
  parse_metric-is_finite (obj fs) m h = grind (arith, float_required-is_finite)
  parse_metric-is_finite _ m h = cc

  parse_phases-All :
      (v : Value) (ps : List WorkerPhase) → parse_phases py v ≡ ok ps → All IsSafePhase ps
  unfolding parse_phases as_list
  parse_phases-All (arr vs) ps h =
      traverse-All (parse_phase py) IsSafePhase parse_phase-IsSafePhase (to_list vs) ps h
  parse_phases-All _ ps h = cc

  abbrev pub IsSafeSample : WorkerSampleOutcome → Type 0
  IsSafeSample o =
      (is_sample_outcome o.outcome ≡ true)
      × All IsSafePhase o.phases
      × All (λ m. is_finite m.value ≡ true) o.metrics

  metrics-All :
      (vs : List Value) (ms : List WorkerMetricResult)
      → traverse (parse_metric py) vs ≡ ok ms
      → All (λ m. is_finite m.value ≡ true) ms
  metrics-All =
      traverse-All (parse_metric py) (λ m. is_finite m.value ≡ true) parse_metric-is_finite

  parse_sample-IsSafeSample :
      (v : Value) (o : WorkerSampleOutcome) → parse_sample_outcome py v ≡ ok o → IsSafeSample o
  unfolding parse_sample_outcome as_mapping allow_keys require_keys index
  parse_sample-IsSafeSample (obj fs) o h = grind (arith, parse_phases-All, metrics-All)
  parse_sample-IsSafeSample _ o h = cc

  samples-All :
      (vs : List Value) (os : List WorkerSampleOutcome)
      → traverse (parse_sample_outcome py) vs ≡ ok os
      → All IsSafeSample os
  samples-All = traverse-All (parse_sample_outcome py) IsSafeSample parse_sample-IsSafeSample

  abbrev pub IsSafeRepeat : WorkerRepeatOutcome → Type 0
  IsSafeRepeat o =
      (is_repeat_outcome o.outcome ≡ true) × All IsSafePhase o.phases × All IsSafeSample o.samples

  parse_repeat-IsSafeRepeat :
      (v : Value) (o : WorkerRepeatOutcome) → parse_repeat_outcome py v ≡ ok o → IsSafeRepeat o
  unfolding parse_repeat_outcome as_mapping allow_keys require_keys index
  parse_repeat-IsSafeRepeat (obj fs) o h = grind (arith, parse_phases-All, samples-All)
  parse_repeat-IsSafeRepeat _ o h = cc

  parse_result_v2_lem :
      (fs : Fields) (r : WorkerResultV2)
      → parse_result_v2 py fs ≡ ok r
      → (is_worker_status r.worker_status ≡ true)
        × ((index fs "repeat" >>= parse_repeat_outcome py) ≡ ok r.repeat)
        × (only_keys (contains safe_result_v2_keys) fs ≡ true)
  unfolding parse_result_v2 allow_keys require_keys index
  parse_result_v2_lem fs r h = ground arith

  loads_bounded-eq_obj :
      (text : String) (fs : Fields)
      → loads_bounded py text ≡ ok fs
      → py.json_loads text ≡ some (obj fs)
  unfolding loads_bounded as_mapping
  loads_bounded-eq_obj text fs h = ground arith

  -- A result of version 2 that is read, from whatever text, has a known worker status and a known
  -- repeat outcome; each phase in it has a known outcome and a finite duration; each sample has a
  -- known outcome, and its phases and metric values are such too; and the text was an object with
  -- none but the allowed keys.
  pub loads_result_v2-IsSafe :
      (text : String) (r : WorkerResultV2)
      → loads_result_v2 py text ≡ ok r
      → (is_worker_status r.worker_status ≡ true)
        × IsSafeRepeat r.repeat
        × ((fs : Fields) × (py.json_loads text ≡ some (obj fs))
            × (only_keys (contains safe_result_v2_keys) fs ≡ true))
  unfolding loads_result_v2
  loads_result_v2-IsSafe text r h =
      let (fs, loaded, parsed) = >>=-eq_ok (loads_bounded py text) (parse_result_v2 py) h in
      let (status, part, closed) = parse_result_v2_lem fs r parsed in
      let (v, _, repeat) = >>=-eq_ok (index fs "repeat") (parse_repeat_outcome py) part in
      (
        status,
        parse_repeat-IsSafeRepeat v r.repeat repeat,
        (fs, loads_bounded-eq_obj text fs loaded, closed),
      )
