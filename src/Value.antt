-- ===== src/Value.antt =====
-- The Python values that the program passes around: JSON values, and objects that are none.
pub mod Numbers
pub mod Json
use astraship.Base.{
  ℕ, String, Bool, true, false, Option, none, some, List, [], ◌∷◌, str_eq, is_some, if◌then◌else◌,
}
use astraship.Base.Int.{ℤ}

-- A Python float. A finite one is a dyadic fraction: `finite n k` is n / 2 ^ k.
pub data Float : Type 0 where
  finite : ℤ → ℕ → Float
  nan infinity minus_infinity : Float

mutual
  pub data Value : Type 0 where
    null : Value
    bool : Bool → Value
    int : ℤ → Value
    float : Float → Value
    str : String → Value
    arr : Items → Value
    obj : Fields → Value
    -- an object of another class, by a name for it
    other : String → Value

  pub data Items : Type 0 where
    nil : Items
    cons : Value → Items → Items

  -- A dict in insertion order.
  pub data Fields : Type 0 where
    end : Fields
    field : String → Value → Fields → Fields

-- `d.get(k)`, with `none` for a key that is absent.
unfoldable pub get : Fields → String → Option Value
get end k = none
get (field j v fs) k = if str_eq j k then some v else get fs k

-- `k in d`
abbrev pub has_key : Fields → String → Bool
has_key fs k = is_some (get fs k)

abbrev pub keys : Fields → List String
keys end = []
keys (field j v fs) = j ∷ keys fs

abbrev pub items : Items → List Value
items nil = []
items (cons v vs) = v ∷ items vs

abbrev pub of_list : List Value → Items
of_list [] = nil
of_list (v ∷ vs) = cons v (of_list vs)

-- `isinstance(v, str)`, with the text.
abbrev pub as_str : Value → Option String
as_str (str s) = some s
as_str _ = none

-- `isinstance(v, int) and not isinstance(v, bool)`, with the number.
abbrev pub as_int : Value → Option ℤ
as_int (int n) = some n
as_int _ = none

-- `isinstance(v, dict)`
abbrev pub as_obj : Value → Option Fields
as_obj (obj fs) = some fs
as_obj _ = none

-- `v is None`, also for the result of `d.get(k)` on a missing key.
abbrev pub is_none : Option Value → Bool
is_none none = true
is_none (some null) = true
is_none (some _) = false

-- `d.get(k)` where the code then asks for the class of the result.
abbrev pub get_str : Fields → String → Option String
get_str fs k = elim (get fs k) [ none ↦ none | some v ↦ as_str v ]

abbrev pub get_int : Fields → String → Option ℤ
get_int fs k = elim (get fs k) [ none ↦ none | some v ↦ as_int v ]

abbrev pub get_obj : Fields → String → Option Fields
get_obj fs k = elim (get fs k) [ none ↦ none | some v ↦ as_obj v ]

-- `d.get(k)` as a value: `None` for a missing key.
abbrev pub get_or_null : Fields → String → Value
get_or_null fs k = elim (get fs k) [ none ↦ null | some v ↦ v ]
