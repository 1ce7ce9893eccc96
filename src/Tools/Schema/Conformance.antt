-- ===== src/Tools/Schema/Conformance.antt =====
-- When a value conforms to a schema of tools/schema.py, as a relation.
pub mod Keywords
pub mod Sound
pub mod Passing
pub mod Complete
use astraship.Base.{
  ℕ, String, ◌≡◌, ◌≢◌, ◌⊎◌, Bool, true, false, Option, none, some, List, All, length, map, [], ◌∷◌,
}
use astraship.Base.Int.{ℤ, pos}
use astraship.Base.Text.{str_length}
use astraship.Errors.{ok}
use astraship.Value.{
  Value, null, bool, int, float, str, arr, obj, Float, Items, nil, cons, Fields, end, field, get,
  has_key, items, get_or_null, is_none, keys,
}
use astraship.Value.Numbers.{float_lt, number_of, is_finite}
use astraship.Tools.Schema.Node.{Regex}
use astraship.Tools.Schema.Check.{characters}
use Prim.Native.Char.{Char, code}

-- Both are numbers, and the first is not above the second.
pub record NotAbove (a b : Value) : Type 0 where
  pub low : Float
  pub high : Float
  pub is_low : number_of a ≡ some low
  pub is_high : number_of b ≡ some high
  pub in_order : float_lt high low ≡ false

-- What a keyword asks for, if it is there.
pub data When (s : Fields) (k : String) (P : Value → Type 0) : Type 0 where
  absent : get s k ≡ none → When s k P
  present : {v : Value} → get s k ≡ some v → P v → When s k P

abbrev pub Within : Fields → String → String → Value → Type 0
Within s low high v = When s low (λ b. NotAbove b v) × When s high (λ b. NotAbove v b)

-- The text is one of these values.
pub data Among (t : String) : List Value → Type 0 where
  here : {vs : List Value} → Among t (str t ∷ vs)
  there : {v : Value} {vs : List Value} → Among t vs → Among t (v ∷ vs)

-- The first text is the start of the second one, and a part of it.
pub data IsStart : String → String → Type 0 where
  no_more : {u : String} → IsStart String.[] u
  next_same :
      {c d : Char} {t u : String}
      → code c ≡ code d
      → IsStart t u
      → IsStart (String.◌∷◌ c t) (String.◌∷◌ d u)

pub data IsPart (t : String) : String → Type 0 where
  starts : {u : String} → IsStart t u → IsPart t u
  later : {d : Char} {u : String} → IsPart t u → IsPart t (String.◌∷◌ d u)

-- The text is in the value of `enum`: an item of a list, a key of a dict, or a part of a text.
pub data Enumerates (t : String) : Value → Type 0 where
  listed : {vs : Items} → Among t (items vs) → Enumerates t (arr vs)
  keyed : {gs : Fields} {v : Value} → get gs t ≡ some v → Enumerates t (obj gs)
  part : {u : String} → IsPart t u → Enumerates t (str u)

pub data Matches (re : Regex) (t : String) : Value → Type 0 where
  matched : {p : String} → re.search p t ≡ true → Matches re t (str p)

pub data HasProperties (s : Fields) : Fields → Type 0 where
  given : {ps : Fields} → get s "properties" ≡ some (obj ps) → HasProperties s ps
  no_table : get s "properties" ≡ none → HasProperties s end

-- What a loop over the value goes over.
pub data Iterates : Value → List Value → Type 0 where
  a_list : {vs : Items} → Iterates (arr vs) (items vs)
  a_dict : {gs : Fields} → Iterates (obj gs) (map str (keys gs))
  a_text : {u : String} → Iterates (str u) (characters u)

pub data Requires (s : Fields) : List Value → Type 0 where
  given : {v : Value} {ks : List Value} → get s "required" ≡ some v → Iterates v ks → Requires s ks
  no_list : get s "required" ≡ none → Requires s []

-- The value is a text, and a key of the object.
abbrev pub HasKey : Fields → Value → Type 0
HasKey fs (str k) = has_key fs k ≡ true
HasKey fs v = ⊥

abbrev pub IsType : Fields → String → Type 0
IsType s name = get s "type" ≡ some (str name)

-- The schema lets keys through that are none of its properties.
abbrev pub IsOpen : Fields → Type 0
IsOpen s = get s "additionalProperties" ≢ some (bool false)

mutual
  pub data Conforms (re : Regex) : Value → Value → Type 0 where
    an_object :
        {fs s ps : Fields} {ks : List Value}
        → IsType s "object"
        → HasProperties s ps
        → Requires s ks
        → All (HasKey fs) ks
        → EachField re s ps fs
        → Conforms re (obj fs) (obj s)
    -- the properties of the schema do not matter for an empty object
    an_empty_object :
        {s : Fields} {ks : List Value}
        → IsType s "object"
        → Requires s ks
        → All (HasKey end) ks
        → Conforms re (obj end) (obj s)
    an_array :
        {vs : Items} {s : Fields}
        → IsType s "array"
        → Within s "minItems" "maxItems" (int (pos (length (items vs))))
        → EachItem re s vs
        → Conforms re (arr vs) (obj s)
    a_string :
        {t : String} {s : Fields}
        → IsType s "string"
        → Within s "minLength" "maxLength" (int (pos (str_length t)))
        → When s "enum" (Enumerates t)
        → When s "pattern" (Matches re t)
        → Conforms re (str t) (obj s)
    an_integer :
        {n : ℤ} {s : Fields}
        → IsType s "integer" ⊎ IsType s "number"
        → is_finite (int n) ≡ ok true
        → Within s "minimum" "maximum" (int n)
        → Conforms re (int n) (obj s)
    a_float :
        {x : Float} {s : Fields}
        → IsType s "number"
        → is_finite (float x) ≡ ok true
        → Within s "minimum" "maximum" (float x)
        → Conforms re (float x) (obj s)
    a_boolean : {b : Bool} {s : Fields} → IsType s "boolean" → Conforms re (bool b) (obj s)
    a_null : {s : Fields} → IsType s "null" → Conforms re null (obj s)

  pub data EachItem (re : Regex) : Fields → Items → Type 0 where
    none_left : {s : Fields} → EachItem re s nil
    next_item :
        {s : Fields} {v child : Value} {vs : Items}
        → get s "items" ≡ some child
        → Conforms re v child
        → EachItem re s vs
        → EachItem re s (cons v vs)

  -- A value under a key with a schema conforms to it; another key has to be let through.
  pub data EachField (re : Regex) : Fields → Fields → Fields → Type 0 where
    no_field : {s ps : Fields} → EachField re s ps end
    known :
        {s ps : Fields} {k : String} {v : Value} {fs : Fields}
        → is_none (get ps k) ≡ false
        → Conforms re v (get_or_null ps k)
        → EachField re s ps fs
        → EachField re s ps (field k v fs)
    extra :
        {s ps : Fields} {k : String} {v : Value} {fs : Fields}
        → is_none (get ps k) ≡ true
        → IsOpen s
        → EachField re s ps fs
        → EachField re s ps (field k v fs)
