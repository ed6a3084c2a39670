-- ===== src/Base/Json.antt =====
-- The values that Python's `json` reads and writes, and what the code asks of them. A float is a
-- decimal fraction or one of the values that are not finite; its rounding to 64 bits is left out.
use Prim.Native.Nat.{ℕ, zero, ◌^◌, ◌-◌}
use Prim.Native.String.{String}
use mathlib.Core.Path.{◌≡◌, refl, ap}
use mathlib.Core.Bool.{Bool, true, false, ◌&&◌}
use mathlib.Core.Option.{Option, none, some}
use mathlib.Core.List.{List, [], ◌∷◌}
use text.Mathlib.Text.{◌==◌}
use nadikt.Base.Tests.{if◌then◌else◌, leb}
use nadikt.Base.Int.{ℤ, pos, negsuc}

-- `decimal m k` is m / 10 ^ k.
pub data Float : Type 0 where
  decimal : ℤ → ℕ → Float
  infinite nan : Float

mutual
  pub data Value : Type 0 where
    null : Value
    bool : Bool → Value
    int : ℤ → Value
    float : Float → Value
    str : String → Value
    arr : Items → Value
    obj : Fields → Value

  -- The members of an object, in order.
  pub data Fields : Type 0 where
    end : Fields
    field : (key : String) (member : Value) (others : Fields) → Fields

  -- The elements of an array.
  pub data Items : Type 0 where
    nil : Items
    cons : (element : Value) (others : Items) → Items

-- `mapping.get(key)`; a parsed object has one value for a key, the last one.
abbrev pub get : Fields → String → Option Value
get end k = none
get (field j v fs) k = if j == k then some v else get fs k

-- `set(mapping).difference(allowed)` is empty.
abbrev pub only_keys : (String → Bool) → Fields → Bool
only_keys allowed end = true
only_keys allowed (field j v fs) = allowed j && only_keys allowed fs

abbrev pub to_list : Items → List Value
to_list nil = []
to_list (cons v vs) = v ∷ to_list vs

abbrev pub from_list : List Value → Items
from_list [] = nil
from_list (v ∷ vs) = cons v (from_list vs)

pub to_list-from_list : (vs : List Value) → to_list (from_list vs) ≡ vs
to_list-from_list [] = refl
to_list-from_list (v ∷ vs) = ap (λ t. v ∷ t) (to_list-from_list vs)

-- `float(n)` overflows from here on.
abbrev pub float_limit : ℕ
float_limit = 2 ^ 1024 - 2 ^ 970

-- Whether `float(n)` is a float.
unfoldable pub fits_float : ℤ → Bool
fits_float (pos n) = if leb float_limit n then false else true
fits_float (negsuc n) = if leb (float_limit - 1) n then false else true

-- `math.isfinite`
abbrev pub is_finite : Float → Bool
is_finite (decimal m k) = true
is_finite infinite = false
is_finite nan = false

-- `bool(value)`
unfoldable pub truthy : Value → Bool
truthy null = false
truthy (bool b) = b
truthy (int (pos zero)) = false
truthy (int _) = true
truthy (float (decimal (pos zero) k)) = false
truthy (float _) = true
truthy (str s) = if s == "" then false else true
truthy (arr nil) = false
truthy (arr (cons v vs)) = true
truthy (obj end) = false
truthy (obj (field k v fs)) = true

-- `mapping[key] = value`
abbrev pub set_field : String → Value → Fields → Fields
set_field k v end = field k v end
set_field k v (field j w fs) =
    let rest = set_field k v fs in if j == k then field k v fs else field j w rest
