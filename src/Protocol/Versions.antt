-- ===== src/Protocol/Versions.antt =====
-- The two versions of the messages of benchmarks/asr/worker_protocol.py do not mix.
use nadikt.Base.{
  ℕ, zero, suc, ◌^◌, ◌≤◌, String, Bool, true, false, ◌&&◌, Option, some, ◌≡◌, refl, arith,
}
use native.Mathlib.Nat.{pow-suc}
use nadikt.Base.Result.{Result, ok, err, ◌>>=◌}
use nadikt.Base.Int.{pos}
use nadikt.Base.Json.{Value, Fields, int, float, bool, decimal, get}
use nadikt.Protocol.Python.{Error, Python}
use nadikt.Protocol.Decode.{is_version, loads_bounded, parse_result_v2, loads_result_v2}
use nadikt.Protocol.Requests.{parse_request_v2, loads_request_v2}
use nadikt.Protocol.Version1.{parse_request, loads_request, parse_result, loads_result}

-- Nothing was raised.
abbrev pub is_ok : {E A : Type 0} → Result E A → Bool
is_ok (ok a) = true
is_ok (err e) = false

pow-pos : (k : ℕ) → 1 ≤ 10 ^ k
pow-pos zero = omega arith
pow-pos (suc k) = omega (arith, pow-suc 10 k, pow-pos k)

one_version : (v : Option Value) → is_version 1 v && is_version 2 v ≡ false
unfolding is_version
one_version (some (int (pos m))) = ground arith
one_version (some (float (decimal (pos m) k))) = ground (arith, pow-pos k)
one_version (some (bool b)) = ground arith
one_version v = refl

module _ (py : Python) where
  parse_request-is_version :
      (fs : Fields)
      → is_version 1 (get fs "schema_version") ≡ false
      → is_ok (parse_request py fs) ≡ false
  unfolding parse_request
  parse_request-is_version fs h = rw h refl

  parse_request_v2-is_version :
      (fs : Fields)
      → is_version 2 (get fs "schema_version") ≡ false
      → is_ok (parse_request_v2 py fs) ≡ false
  unfolding parse_request_v2
  parse_request_v2-is_version fs h = rw h refl

  parse_result-is_version :
      (fs : Fields)
      → is_version 1 (get fs "schema_version") ≡ false
      → is_ok (parse_result py fs) ≡ false
  unfolding parse_result
  parse_result-is_version fs h = rw h refl

  parse_result_v2-is_version :
      (fs : Fields)
      → is_version 2 (get fs "schema_version") ≡ false
      → is_ok (parse_result_v2 py fs) ≡ false
  unfolding parse_result_v2
  parse_result_v2-is_version fs h = rw h refl

  one_version_of :
      (loaded : Result Error Fields)
      → (is_ok (loaded >>= parse_request py) && is_ok (loaded >>= parse_request_v2 py) ≡ false)
        × (is_ok (loaded >>= parse_result py) && is_ok (loaded >>= parse_result_v2 py) ≡ false)
  one_version_of (err e) = (refl, refl)
  one_version_of (ok fs) =
      let once = one_version (get fs "schema_version") in
      (
        ground (arith, once, parse_request-is_version fs, parse_request_v2-is_version fs),
        ground (arith, once, parse_result-is_version fs, parse_result_v2-is_version fs),
      )

  -- No text is read as a message of both versions, be it a request or a result.
  pub loads-one_version :
      (text : String)
      → (is_ok (loads_request py text) && is_ok (loads_request_v2 py text) ≡ false)
        × (is_ok (loads_result py text) && is_ok (loads_result_v2 py text) ≡ false)
  unfolding loads_request loads_request_v2 loads_result loads_result_v2
  loads-one_version text = one_version_of (loads_bounded py text)
