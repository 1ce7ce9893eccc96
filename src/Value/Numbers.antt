-- ===== src/Value/Numbers.antt =====
-- Python's comparison of numbers, which is exact between `int` and `float`, and `math.isfinite`.
use astraship.Base.{
  ℕ, suc, ◌+◌, ◌-◌, ◌*◌, ◌^◌, Bool, true, false, Option, none, some, leb, if◌then◌else◌,
}
use astraship.Base.Int.{ℤ, pos, negsuc, ltb_ℤ}
use astraship.Errors.{Result, ok, raise, type_error, overflow_error}
use astraship.Value.{Value, bool, int, float, Float, finite, nan, infinity, minus_infinity}

-- n * 2 ^ k
pub scale : ℤ → ℕ → ℤ
scale (pos n) k = pos (n * 2 ^ k)
scale (negsuc n) k = negsuc ((n + 1) * 2 ^ k - 1)

-- `a < b`
unfoldable pub float_lt : Float → Float → Bool
unfolding scale
float_lt nan b = false
float_lt a nan = false
float_lt infinity b = false
float_lt a minus_infinity = false
float_lt minus_infinity b = true
float_lt a infinity = true
float_lt (finite a k) (finite b m) = ltb_ℤ (scale a m) (scale b k)

-- The number of a value for a comparison; `bool` is a subclass of `int`.
unfoldable pub number_of : Value → Option Float
number_of (bool true) = some (finite (pos 1) 0)
number_of (bool false) = some (finite (pos 0) 0)
number_of (int n) = some (finite n 0)
number_of (float x) = some x
number_of _ = none

-- `a < b` raises TypeError where a side is no number. (Texts and lists are only compared to numbers.)
unfoldable pub py_lt : Value → Value → Result Bool
unfolding number_of float_lt
py_lt a b = elim (number_of a) [
  | none ↦ raise type_error "'<' not supported"
  | some x ↦ elim (number_of b) [
    | none ↦ raise type_error "'<' not supported"
    | some y ↦ ok (float_lt x y)
  ]
]

-- The integers that `float` rounds to 2 ^ 1024 or more.
pub is_too_large : ℤ → Bool
is_too_large (pos n) = leb (2 ^ 1024 - 2 ^ 970) n
is_too_large (negsuc n) = leb (2 ^ 1024 - 2 ^ 970) (suc n)

-- `math.isfinite` of an `int` or a `float`; of another value the code does not ask it.
unfoldable pub is_finite : Value → Result Bool
is_finite (int n) =
    if is_too_large n then raise overflow_error "int too large to convert to float" else ok true
is_finite (float (finite n k)) = ok true
is_finite (float _) = ok false
is_finite _ = raise type_error "must be real number"
