-- ===== src/Protocol/Python.antt =====
-- What the worker protocol uses of Python: errors, `str`, `int`, `float`, `round`, `Path` and `json`,
-- on the values that `json` reads.
use Prim.Native.String.{String}
use nadikt.Base.{suc, ◌/◌, ◌^◌, true, false, Option, none, some, List, [], ◌∷◌, if◌then◌else◌}
use nadikt.Base.Result.{Result, ok, err, ◌>>=◌}
use nadikt.Base.Int.{ℤ, pos, negsuc, sub_ℕ}
use nadikt.Base.Json.{
  Value, bool, int, float, str, arr, obj, Fields, end, field, Float, decimal, infinite, nan, get,
  to_list, fits_float,
}

pub data Error : Type 0 where
  value_error : String → Error
  key_error type_error overflow_error : Error

-- `str` of a value that is no text, `int` and `float` of a text, `round(x, 3)`, the normal form that
-- `Path` gives a path, and `json`: what the code takes from the standard library.
pub record Python : Type 0 where
  pub render : Value → String
  pub parse_int : String → Option ℤ
  pub parse_float : String → Option Float
  pub round_3 : Float → Float
  pub normal_path : String → String
  pub json_dumps : Value → String
  pub json_loads : String → Option Value

-- `value[key]`
unfoldable pub index : Fields → String → Result Error Value
index fs k = elim (get fs k) [ none ↦ err key_error | some v ↦ ok v ]

-- `for item in value`: a text gives its characters, an object its keys.
characters : String → List Value
characters String.[] = []
characters (String.◌∷◌ c s) = str (String.◌∷◌ c String.[]) ∷ characters s

key_list : Fields → List Value
key_list end = []
key_list (field k v fs) = str k ∷ key_list fs

unfoldable pub iterate : Value → Result Error (List Value)
unfolding characters key_list
iterate (arr vs) = ok (to_list vs)
iterate (str s) = ok (characters s)
iterate (obj fs) = ok (key_list fs)
iterate _ = err type_error

-- `tuple(f(item) for item in items)`: the first failure is raised.
abbrev pub traverse : {A B : Type 0} → (A → Result Error B) → List A → Result Error (List B)
traverse f [] = ok []
traverse f (x ∷ xs) = f x >>= λ y. traverse f xs >>= λ ys. ok (y ∷ ys)

module _ (py : Python) where
  -- `str(value)`
  unfoldable pub to_str : Value → String
  to_str (str s) = s
  to_str v = py.render v

  -- `float(value)`
  unfoldable pub to_float : Value → Result Error Float
  to_float (float x) = ok x
  to_float (int n) = if fits_float n then ok (decimal n 0) else err overflow_error
  to_float (bool true) = ok (decimal (pos 1) 0)
  to_float (bool false) = ok (decimal (pos 0) 0)
  to_float (str s) = elim (py.parse_float s) [ none ↦ err (value_error "float") | some x ↦ ok x ]
  to_float _ = err type_error

  -- `int(value)`
  unfoldable pub to_int : Value → Result Error ℤ
  to_int (int n) = ok n
  to_int (bool true) = ok (pos 1)
  to_int (bool false) = ok (pos 0)
  to_int (float (decimal (pos n) k)) = ok (pos (n / 10 ^ k))
  to_int (float (decimal (negsuc n) k)) = ok (sub_ℕ 0 (suc n / 10 ^ k))
  to_int (float infinite) = err overflow_error
  to_int (float nan) = err (value_error "int")
  to_int (str s) = elim (py.parse_int s) [ none ↦ err (value_error "int") | some n ↦ ok n ]
  to_int _ = err type_error
