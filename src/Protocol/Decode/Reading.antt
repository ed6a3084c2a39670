-- ===== src/Protocol/Decode/Reading.antt =====
-- What the parsers of benchmarks/asr/worker_protocol.py read of one JSON value.
use nadikt.Base.{
  ℕ, ◌*◌, ◌^◌, ◌==◌, String, Bool, true, false, Option, none, some, List, [], ◌∷◌, if◌then◌else◌,
  contains,
}
use nadikt.Base.Result.{Result, ok, err}
use nadikt.Base.Int.{ℤ, pos}
use nadikt.Base.Json.{
  Value, bool, int, float, arr, obj, Fields, end, Float, decimal, get, only_keys, to_list,
  fits_float, is_finite,
}
use nadikt.Protocol.Python.{Error, value_error, overflow_error, iterate}

-- `raise ValueError(message)`
abbrev pub fail : {A : Type 0} → String → Result Error A
fail message = err (value_error message)

abbrev pub has_keys : List String → Fields → Bool
has_keys [] fs = true
has_keys (k ∷ ks) fs = elim (get fs k) [ none ↦ false | some v ↦ has_keys ks fs ]

-- `_require_keys`
unfoldable pub require_keys : Fields → List String → String → Result Error (Unit {0})
require_keys fs required message = if has_keys required fs then ok tt else fail message

-- The check of the keys against an allowlist.
unfoldable pub allow_keys : Fields → List String → String → Result Error (Unit {0})
allow_keys fs allowed message = if only_keys (contains allowed) fs then ok tt else fail message

-- `isinstance(value, Mapping)`, or the error.
unfoldable pub as_mapping : Value → String → Result Error Fields
as_mapping (obj fs) message = ok fs
as_mapping _ message = fail message

-- `isinstance(value, list)`, or the error.
unfoldable pub as_list : Value → String → Result Error (List Value)
as_list (arr vs) message = ok (to_list vs)
as_list _ message = fail message

-- `_float_required`
unfoldable pub float_required : Value → String → Result Error Float
float_required (int n) message = if fits_float n then ok (decimal n 0) else err overflow_error
float_required (float x) message = if is_finite x then ok x else fail message
float_required _ message = fail message

-- `_int_required`
unfoldable pub int_required : Value → String → Result Error ℤ
int_required (int n) message = ok n
int_required _ message = fail message

-- `_mapping(payload.get(key))`
unfoldable pub mapping_or_empty : Option Value → Fields
mapping_or_empty (some (obj fs)) = fs
mapping_or_empty _ = end

-- `payload.get(key, ())`, iterated.
unfoldable pub iterate_or_empty : Option Value → Result Error (List Value)
iterate_or_empty none = ok []
iterate_or_empty (some v) = iterate v

abbrev pub only_mappings : List Value → List Fields
only_mappings [] = []
only_mappings (obj fs ∷ vs) = fs ∷ only_mappings vs
only_mappings (_ ∷ vs) = only_mappings vs

unfoldable pub is_version : ℕ → Option Value → Bool
is_version n (some (int (pos m))) = m == n
is_version n (some (float (decimal (pos m) k))) = m == n * 10 ^ k
is_version n (some (bool b)) = (if b then 1 else 0) == n
is_version n _ = false
