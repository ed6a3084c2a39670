-- ===== src/Protocol/RequestTrip.antt =====
-- A request of version 2 that was written is read back.
use nadikt.Base.{
  String, Bool, true, false, Option, none, some, List, [], ◌∷◌, map, ◌≡◌, ◌≢◌, refl, All, str_eq,
}
use nadikt.Base.Result.{ok, ◌>>=◌}
use nadikt.Base.Json.{str, obj, Fields, truthy, is_finite}
use nadikt.Protocol.Python.{Python, index, traverse, iterate, to_str}
use nadikt.Protocol.Messages.{WorkerSampleRequest, WorkerRepeatRequest, WorkerRequestV2}
use nadikt.Protocol.Encode.{
  sort_keys, sort_fields, insert_field, array, opt_str, dumps_bounded, sample_request_to_json,
  repeat_request_to_json, request_v2_to_json,
}
use nadikt.Protocol.Decode.{
  as_mapping, as_list, allow_keys, require_keys, float_required, int_required, mapping_or_empty,
  iterate_or_empty, only_mappings, is_version,
}
use nadikt.Protocol.Sorting.{loads_bounded-dumps_bounded}
use nadikt.Protocol.RoundTrip.{traverse-map, All-map, to_list-sort_items}
use nadikt.Protocol.Requests.{
  as_full_list, same_bool, to_path, opt_path, parse_sample_request, parse_repeat_request,
  parse_request_v2, loads_request_v2,
}

map-to_str :
    (py : Python) (xs : List String) → map (to_str py) (map (λ s. sort_keys (str s)) xs) ≡ xs
unfolding to_str sort_keys
map-to_str py [] = refl
map-to_str py (x ∷ xs) = rw (map-to_str py xs)

only_mappings-map :
    (xs : List Fields) → only_mappings (map (λ fs. sort_keys (obj fs)) xs) ≡ map sort_fields xs
unfolding sort_keys
only_mappings-map [] = refl
only_mappings-map (x ∷ xs) = rw (only_mappings-map xs)

same_bool_self : (b : Bool) → same_bool b b ≡ true
unfolding same_bool
same_bool_self true = refl
same_bool_self false = refl

module _ (py : Python) where
  -- A path in the normal form of `Path`, and not empty.
  abbrev IsPath : String → Type 0
  IsPath p = (py.normal_path p ≡ p) × (str_eq p "" ≡ false)

  abbrev IsOptPath : Option String → Type 0
  IsOptPath none = Unit
  IsOptPath (some p) = IsPath p

  abbrev IsSampleRequest : Bool → WorkerSampleRequest → Type 0
  IsSampleRequest scored q =
      (q.scored ≡ scored)
      × (is_finite q.duration_seconds ≡ true)
      × IsPath q.audio_file
      × IsOptPath q.reference_file

  abbrev sorted_sample : WorkerSampleRequest → WorkerSampleRequest
  sorted_sample q = record q { expected_coding_terms = map sort_fields q.expected_coding_terms }

  opt_path-opt_str :
      (o : Option String) → IsOptPath o → opt_path py (some (sort_keys (opt_str o))) ≡ o
  unfolding opt_path to_path to_str truthy sort_keys
  opt_path-opt_str none h = refl
  opt_path-opt_str (some p) h = rw (h.1, h.0)

  parse_sample-sample_request_to_json :
      (scored : Bool) (q : WorkerSampleRequest)
      → IsSampleRequest scored q
      → parse_sample_request py scored (sort_keys (sample_request_to_json q)) ≡ ok (sorted_sample q)
  unfolding parse_sample_request sample_request_to_json as_mapping allow_keys require_keys index
      float_required iterate_or_empty iterate to_path to_str truthy sort_keys insert_field
  parse_sample-sample_request_to_json scored q (s, f, a, r) = rw (
    s,
    same_bool_self scored,
    f,
    to_list-sort_items str q.expected_english_terms,
    to_list-sort_items obj q.expected_coding_terms,
    map-to_str py q.expected_english_terms,
    only_mappings-map q.expected_coding_terms,
    opt_path-opt_str q.reference_file r,
    a.0,
  )

  abbrev sorted_repeat : WorkerRepeatRequest → WorkerRepeatRequest
  sorted_repeat q = record q {
    warmup_sample = sorted_sample q.warmup_sample;
    scored_samples = map sorted_sample q.scored_samples;
  }

  -- What the protocol allows in a request: an unscored warm-up, at least one scored sample and no
  -- other, finite durations, and paths in their normal form.
  abbrev pub IsRequest : WorkerRequestV2 → Type 0
  IsRequest q =
      IsPath q.package_dir
      × IsSampleRequest false q.repeat.warmup_sample
      × (q.repeat.scored_samples ≢ [])
      × All (IsSampleRequest true) q.repeat.scored_samples

  -- The request with the keys of its mappings sorted.
  abbrev pub sorted_request : WorkerRequestV2 → WorkerRequestV2
  sorted_request q = record q {
    capabilities = sort_fields q.capabilities;
    inference_defaults = sort_fields q.inference_defaults;
    repeat = sorted_repeat q.repeat;
  }

  parse_samples-sample_request_to_json :
      (qs : List WorkerSampleRequest)
      → All (IsSampleRequest true) qs
      → traverse (parse_sample_request py true) (map (λ q. sort_keys (sample_request_to_json q)) qs)
        ≡ ok (map sorted_sample qs)
  parse_samples-sample_request_to_json qs h =
      traverse-map (parse_sample_request py true) (λ q. sort_keys (sample_request_to_json q))
        sorted_sample qs (All-map (parse_sample-sample_request_to_json true) qs h)

  as_full_list-array :
      (qs : List WorkerSampleRequest)
      → qs ≢ []
      → as_full_list (sort_keys (array sample_request_to_json qs)) "worker_scored_samples_required"
        ≡ ok (map (λ q. sort_keys (sample_request_to_json q)) qs)
  unfolding as_full_list as_list sort_keys
  as_full_list-array [] h = absurd (h refl)
  as_full_list-array (q ∷ qs) h = rw (to_list-sort_items sample_request_to_json qs)

  parse_repeat-repeat_request_to_json :
      (q : WorkerRepeatRequest)
      → IsSampleRequest false q.warmup_sample
      → q.scored_samples ≢ []
      → All (IsSampleRequest true) q.scored_samples
      → parse_repeat_request py (sort_keys (repeat_request_to_json q)) ≡ ok (sorted_repeat q)
  unfolding parse_repeat_request repeat_request_to_json as_mapping allow_keys require_keys index
      int_required sort_keys insert_field
  parse_repeat-repeat_request_to_json q warmup full scored = rw (
    as_full_list-array q.scored_samples full,
    parse_sample-sample_request_to_json false q.warmup_sample warmup,
    parse_samples-sample_request_to_json q.scored_samples scored,
  )

  parse_request_v2-request_v2_to_json :
      (q : WorkerRequestV2)
      → IsRequest q
      → (as_mapping (sort_keys (request_v2_to_json q)) "worker_message_not_object"
          >>= parse_request_v2 py)
        ≡ ok (sorted_request q)
  unfolding parse_request_v2 request_v2_to_json as_mapping allow_keys require_keys index is_version
      sort_keys insert_field iterate_or_empty iterate mapping_or_empty to_path to_str
  parse_request_v2-request_v2_to_json q (dir, warmup, full, scored) = rw (
    parse_repeat-repeat_request_to_json q.repeat warmup full scored,
    to_list-sort_items str q.critical_checksum_prefixes,
    map-to_str py q.critical_checksum_prefixes,
    dir.0,
  )

  -- An allowed request of version 2 that was written within the size limit is read back from its
  -- text, where `json` reads that text as the message with its keys sorted: its mappings come back
  -- with their keys sorted, and all else as it was.
  pub loads_request_v2-dumps_bounded :
      (q : WorkerRequestV2) (text : String)
      → IsRequest q
      → dumps_bounded py (request_v2_to_json q) ≡ ok text
      → py.json_loads text ≡ some (sort_keys (request_v2_to_json q))
      → loads_request_v2 py text ≡ ok (sorted_request q)
  unfolding loads_request_v2 request_v2_to_json as_mapping sort_keys
  loads_request_v2-dumps_bounded q text valid written read =
      rw (loads_bounded-dumps_bounded py _ text written read)
        (parse_request_v2-request_v2_to_json q valid)
