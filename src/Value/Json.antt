-- ===== src/Value/Json.antt =====
-- The module `json` as the program uses it: an interface, with the laws that the round trips need.
pub mod Sample
use Prim.Native.String.{◌++◌ as str_append}
use astraship.Base.{String, ◌≡◌, Bool, false, Option, none, some}
use astraship.Base.Text.{has_char, is_blank}
use astraship.Errors.{Result, ok}
use astraship.Value.{Value}

pub record Json : Type 0 where
  -- `json.dumps(v, ensure_ascii=False, allow_nan=...)`, which raises TypeError or ValueError
  pub dumps : Bool → Value → Result String
  -- `json.loads(s)`, with `none` for a JSONDecodeError
  pub loads : String → Option Value

-- What is written can be read back, and holds no line break: JSON escapes those in texts. A reader
-- skips a line break at the end, and refuses a blank text.
pub record IsJson (j : Json) : Type 0 where
  pub round_trip : (nan : Bool) (v : Value) (s : String) → j.dumps nan v ≡ ok s → j.loads s ≡ some v
  pub one_line :
      (nan : Bool) (v : Value) (s : String) → j.dumps nan v ≡ ok s → has_char 10 s ≡ false
  pub no_return :
      (nan : Bool) (v : Value) (s : String) → j.dumps nan v ≡ ok s → has_char 13 s ≡ false
  pub newline : (s : String) → j.loads (str_append s "\n") ≡ j.loads s
  pub not_blank : (s : String) (v : Value) → j.loads s ≡ some v → is_blank s ≡ false
