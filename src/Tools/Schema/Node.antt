-- ===== src/Tools/Schema/Node.antt =====
-- `validate_schema` of tools/schema.py. The fuel of `validate_node` stands for the interpreter's
-- recursion limit: at 0 the call raises RecursionError.
use astraship.Base.{
  ℕ, zero, suc, String, Bool, true, false, not, ◌&&◌, Option, none, some, List, [], ◌∷◌, ◌++◌,
  str_eq, if◌then◌else◌,
}
use astraship.Base.Int.{pos}
use astraship.Errors.{
  shown, caught, Message, lit, text, repr, Result, ok, raise, raise_f, raise_f_if, ◌>>=◌, ◌>>◌,
  tool_registration, type_error, recursion_error,
}
use astraship.Value.{
  Value, null, bool, int, float, str, arr, obj, Items, nil, cons, Fields, end, field, infinity,
  minus_infinity, get, keys, get_or_null, as_obj, is_none,
}
use astraship.Value.Numbers.{py_lt, is_finite}
use astraship.Tools.Schema.Keywords.{
  SchemaType, object, array, string, integer, number, boolean, null_type, type_of, keywords,
  is_unique, difference, smallest, property_path,
}

-- The module `re`: does a pattern compile, and does it match somewhere in a text.
pub record Regex : Type 0 where
  pub compiles : String → Bool
  pub search : String → String → Bool

-- `schema.get(k, default)`
abbrev pub get_or : Fields → String → Value → Value
get_or fs k d = elim (get fs k) [ none ↦ d | some v ↦ v ]

abbrev pub registration {ℓ} : {A : Type ℓ} → Message → Result A
registration = raise_f tool_registration

abbrev pub at : Message → String → Message
at path s = lit "schema " ∷ path ++ lit s ∷ []

-- `all(isinstance(item, str) for item in xs)`, with the texts.
unfoldable pub strings_of : Items → Option (List String)
strings_of nil = some []
strings_of (cons (str s) vs) = elim (strings_of vs) [ none ↦ none | some ss ↦ some (s ∷ ss) ]
strings_of (cons _ vs) = none

-- `isinstance(v, list)`, all of it texts, none twice.
unfoldable pub unique_strings : Value → Option (List String)
unfolding strings_of is_unique
unique_strings (arr vs) = elim (strings_of vs) [
  | none ↦ none
  | some ss ↦ if is_unique ss then some ss else none
]
unique_strings _ = none

-- The `type` keyword. The set test hashes the value, which a list or a dict does not allow.
unfoldable pub schema_type : Fields → Message → Result SchemaType
unfolding type_of
schema_type fs path = elim (get_or_null fs "type") [
  | str s ↦ elim (type_of s) [
    | some t ↦ ok t
    | none ↦ registration (at path " has unsupported type " ++ repr s ∷ [])
  ]
  | arr vs ↦ raise type_error "unhashable type: 'list'"
  | obj gs ↦ raise type_error "unhashable type: 'dict'"
  | v ↦ registration (at path " has unsupported type " ++ shown v ∷ [])
]

unfoldable pub check_keywords : SchemaType → Fields → Message → Result (Unit {0})
unfolding keywords smallest
check_keywords t fs path = elim (difference (keys fs) (keywords t)) [
  | [] ↦ ok tt
  | k ∷ ks ↦ registration (at path " has unsupported keyword " ++ repr (smallest k ks) ∷ [])
]

-- `schema.get("properties", {})`
unfoldable pub properties_of : Fields → Message → Result Fields
properties_of fs path = elim (as_obj (get_or fs "properties" (obj end))) [
  | none ↦ registration (at path ".properties must be an object")
  | some ps ↦ ok ps
]

-- `schema.get("required", [])`
unfoldable pub required_of : Fields → Message → Result (List String)
unfolding unique_strings
required_of fs path = elim (unique_strings (get_or fs "required" (arr nil))) [
  | none ↦ registration (at path ".required must contain unique strings")
  | some ss ↦ ok ss
]

unfoldable pub check_known : List String → Fields → Message → Result (Unit {0})
unfolding smallest
check_known required ps path = elim (difference required (keys ps)) [
  | [] ↦ ok tt
  | k ∷ ks ↦
      registration (at path ".required references unknown property " ++ repr (smallest k ks) ∷ [])
]

unfoldable pub check_additional : Fields → Message → Result (Unit {0})
check_additional fs path = elim (get_or fs "additionalProperties" (bool true)) [
  | bool b ↦ ok tt
  | _ ↦ registration (at path ".additionalProperties must be boolean")
]

unfoldable pub is_nonnegative_integer : Value → Bool
is_nonnegative_integer (int (pos n)) = true
is_nonnegative_integer _ = false

-- `_validate_nonnegative_integer`. A `None` passes.
unfoldable pub check_nonnegative : Fields → String → Message → Result (Unit {0})
unfolding is_nonnegative_integer
check_nonnegative fs keyword path = elim (get fs keyword) [
  | none ↦ ok tt
  | some v ↦
      raise_f_if (not (is_none (some v)) && not (is_nonnegative_integer v)) tool_registration
        (at path "." ++ text keyword ∷ lit " must be a non-negative integer" ∷ [])
]

-- `if schema.get(low, default) > schema.get(high, math.inf): raise`
unfoldable pub check_order : Fields → String → Value → String → Message → Result (Unit {0})
unfolding py_lt
check_order fs low default high path = do
  greater ← py_lt (get_or fs high (float infinity)) (get_or fs low default)
  raise_f_if greater tool_registration
      (at path " has " ++ text low ∷ lit " greater than " ∷ text high ∷ [])

-- `not enum` refuses the empty list.
unfoldable pub check_enum : Fields → Message → Result (Unit {0})
unfolding unique_strings
check_enum fs path = elim (get_or_null fs "enum") [
  | null ↦ ok tt
  | v ↦ elim (unique_strings v) [
    | some (s ∷ ss) ↦ ok tt
    | _ ↦ registration (at path ".enum must contain unique strings")
  ]
]

unfoldable pub check_pattern : Regex → Fields → Message → Result (Unit {0})
check_pattern re fs path = elim (get_or_null fs "pattern") [
  | null ↦ ok tt
  | str p ↦
      raise_f_if (not (re.compiles p)) tool_registration
        (at path ".pattern is invalid: " ++ caught ∷ [])
  | _ ↦ registration (at path ".pattern must be a string")
]

-- `isinstance(value, bool) or not isinstance(value, (int, float)) or not math.isfinite(value)`
unfoldable pub is_bad_bound : Value → Result Bool
unfolding is_finite
is_bad_bound (int n) = do f ← is_finite (int n); ok (not f)
is_bad_bound (float x) = do f ← is_finite (float x); ok (not f)
is_bad_bound _ = ok true

unfoldable pub check_bound : Fields → String → Message → Result (Unit {0})
unfolding is_bad_bound
check_bound fs keyword path = elim (get_or_null fs keyword) [
  | null ↦ ok tt
  | v ↦ do
    bad ← is_bad_bound v
    raise_f_if bad tool_registration
        (at path "." ++ text keyword ∷ lit " must be finite numeric" ∷ [])
]

-- The loop over `properties.items()`.
unfoldable pub each_property :
    (Value → Message → Result (Unit {0})) → Fields → Message → Result (Unit {0})
unfolding property_path
each_property rec end path = ok tt
each_property rec (field key child ps) path =
    rec child (property_path path key) >> each_property rec ps path

-- What follows the keyword test, by the schema type; `rec` is the call of the function itself.
unfoldable pub check_body :
    Regex
    → (Value → Message → Result (Unit {0}))
    → SchemaType
    → Fields
    → Message
    → Result (Unit {0})
unfolding properties_of each_property required_of check_known check_additional check_nonnegative
    check_order check_enum check_pattern check_bound
check_body re rec object fs path = do
  ps ← properties_of fs path
  each_property rec ps path
  required ← required_of fs path
  check_known required ps path
  check_additional fs path
check_body re rec array fs path = elim (get fs "items") [
  | none ↦ registration (at path ".items is required")
  | some child ↦ do
    rec child (path ++ lit "[]" ∷ [])
    check_nonnegative fs "minItems" path
    check_nonnegative fs "maxItems" path
    check_order fs "minItems" (int (pos 0)) "maxItems" path
]
check_body re rec string fs path = do
  check_nonnegative fs "minLength" path
  check_nonnegative fs "maxLength" path
  check_order fs "minLength" (int (pos 0)) "maxLength" path
  check_enum fs path
  check_pattern re fs path
check_body re rec integer fs path = do
  check_bound fs "minimum" path
  check_bound fs "maximum" path
  check_order fs "minimum" (float minus_infinity) "maximum" path
check_body re rec number fs path = do
  check_bound fs "minimum" path
  check_bound fs "maximum" path
  check_order fs "minimum" (float minus_infinity) "maximum" path
check_body re rec boolean fs path = ok tt
check_body re rec null_type fs path = ok tt

-- `_validate_schema_node` on a mapping.
unfoldable pub validate_mapping :
    Regex → (Value → Message → Result (Unit {0})) → Fields → Message → Result (Unit {0})
unfolding schema_type check_keywords check_body
validate_mapping re rec fs path = do
  t ← schema_type fs path
  check_keywords t fs path
  check_body re rec t fs path

-- `_validate_schema_node`
unfoldable pub validate_node : Regex → ℕ → Value → Message → Result (Unit {0})
unfolding validate_mapping
validate_node re zero schema path = raise recursion_error "maximum recursion depth exceeded"
validate_node re (suc n) schema path = elim (as_obj schema) [
  | none ↦ registration (at path " must be an object")
  | some fs ↦ validate_mapping re (validate_node re n) fs path
]

-- `schema.get("type") != "object"`
is_object_type : Value → Bool
is_object_type (str s) = str_eq s "object"
is_object_type _ = false

unfoldable pub check_root : Bool → Value → Result (Unit {0})
unfolding is_object_type
check_root root_object schema = elim (as_obj schema) [
  | none ↦ ok tt
  | some fs ↦
      raise_f_if (root_object && not (is_object_type (get_or_null fs "type"))) tool_registration
        (lit "tool parameters schema root must have type object" ∷ [])
]

-- `validate_schema`
unfoldable pub validate_schema : Regex → ℕ → Value → Bool → Result (Unit {0})
unfolding validate_node check_root
validate_schema re n schema root_object = do
  validate_node re n schema (lit "$" ∷ [])
  check_root root_object schema
