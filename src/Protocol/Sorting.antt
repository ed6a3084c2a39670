-- ===== src/Protocol/Sorting.antt =====
-- Sorting the keys of a message keeps its numbers finite, so a message that was written within the
-- size limit is read back with its keys sorted.
use nadikt.Base.{String, some, ◌≡◌, arith}
use nadikt.Base.Result.{ok}
use nadikt.Base.Json.{
  Value, null, bool, int, float, str, arr, obj, Items, nil, cons, Fields, end, field,
}
use nadikt.Protocol.Python.{Python}
use nadikt.Protocol.Encode.{
  validate_finite_json, validate_items, validate_fields, insert_field, sort_keys, sort_items,
  sort_fields, dumps_bounded,
}
use nadikt.Protocol.Decode.{loads_bounded, as_mapping}

validate-insert_field :
    (k : String) (v : Value) (fs : Fields)
    → validate_finite_json v ≡ ok tt
    → validate_fields fs ≡ ok tt
    → validate_fields (insert_field k v fs) ≡ ok tt
unfolding insert_field validate_finite_json
validate-insert_field k v end h g = rw h
validate-insert_field k v (field j w fs) h g = ground (arith, h, validate-insert_field k v fs h)

mutual
  unfolding sort_keys validate_finite_json

  validate-sort_keys :
      (v : Value) → validate_finite_json v ≡ ok tt → validate_finite_json (sort_keys v) ≡ ok tt
  validate-sort_keys null h = h
  validate-sort_keys (bool b) h = h
  validate-sort_keys (int n) h = h
  validate-sort_keys (float x) h = h
  validate-sort_keys (str s) h = h
  validate-sort_keys (arr vs) h = validate-sort_items vs h
  validate-sort_keys (obj fs) h = validate-sort_fields fs h

  validate-sort_items :
      (vs : Items) → validate_items vs ≡ ok tt → validate_items (sort_items vs) ≡ ok tt
  validate-sort_items nil h = h
  validate-sort_items (cons v vs) h = ground (arith, validate-sort_keys v, validate-sort_items vs)

  validate-sort_fields :
      (fs : Fields) → validate_fields fs ≡ ok tt → validate_fields (sort_fields fs) ≡ ok tt
  validate-sort_fields end h = h
  validate-sort_fields (field k v fs) h = ground (
    arith,
    validate-sort_keys v,
    validate-sort_fields fs,
    validate-insert_field k (sort_keys v) (sort_fields fs),
  )

pub validate-sort :
    (fs : Fields) → validate_fields fs ≡ ok tt → validate_fields (sort_fields fs) ≡ ok tt
validate-sort fs h = validate-sort_fields fs h

module _ (py : Python) where
  pub loads_bounded-dumps_bounded :
      (fs : Fields) (text : String)
      → dumps_bounded py (obj fs) ≡ ok text
      → py.json_loads text ≡ some (sort_keys (obj fs))
      → loads_bounded py text ≡ ok (sort_fields fs)
  unfolding loads_bounded dumps_bounded validate_finite_json sort_keys as_mapping
  loads_bounded-dumps_bounded fs text h g = ground (arith, validate-sort fs)
