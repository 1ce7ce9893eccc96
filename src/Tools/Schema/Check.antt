-- ===== src/Tools/Schema/Check.antt =====
-- `validate_arguments` of tools/schema.py. The recursion is on the value, so it needs no fuel.
use astraship.Base.{
  ℕ, suc, String, Bool, true, false, not, Option, none, some, List, [], ◌∷◌, ◌++◌, if◌then◌else◌,
  length, map, str_eq, ◌==◌, ◌&&◌, ◌||◌, exists,
}
use Prim.Native.Char.{code}
use astraship.Base.Int.{pos}
use astraship.Base.Text.{str_length}
use astraship.Errors.{
  Part, shown, Message, lit, text, nat, Result, ok, err, raise, ◌>>=◌, ◌>>◌, type_error, key_error,
  attribute_error,
}
use astraship.Value.{
  Value, null, bool, int, float, str, arr, obj, other, Items, nil, cons, Fields, end, field,
  infinity, minus_infinity, get, has_key, items, get_or_null, as_obj, is_none, keys,
}
use astraship.Value.Numbers.{py_lt, is_finite}
use astraship.Tools.Schema.Keywords.{
  SchemaType, object, array, string, integer, number, boolean, null_type, type_of, type_name,
  property_path,
}
use astraship.Tools.Schema.Node.{Regex, get_or, validate_schema}

-- The first error, or none.
abbrev pub Verdict : Type 0
Verdict = Result (Option Message)

abbrev fine : Verdict
fine = ok none

abbrev wrong : Message → Verdict
wrong m = ok (some m)

-- `error = ...; if error is not None: return error`, and then the rest.
abbrev pub then_check : Verdict → Verdict → Verdict
then_check (err e) rest = err e
then_check (ok (some m)) rest = ok (some m)
then_check (ok none) rest = rest

-- `if bad: return message`
abbrev pub return_if : Result Bool → Message → Verdict
return_if (err e) m = err e
return_if (ok true) m = ok (some m)
return_if (ok false) m = ok none

-- `_matches_type`
unfoldable pub matches_type : SchemaType → Value → Bool
matches_type object (obj fs) = true
matches_type array (arr vs) = true
matches_type string (str s) = true
matches_type integer (int n) = true
matches_type number (int n) = true
matches_type number (float x) = true
matches_type boolean (bool b) = true
matches_type null_type null = true
matches_type _ _ = false

-- `schema["type"]`, and its key in the table of `_matches_type`.
unfoldable pub type_key : Value → Result SchemaType
unfolding type_of
type_key (obj fs) = elim (get fs "type") [
  | some (str s) ↦ elim (type_of s) [ some t ↦ ok t | none ↦ raise key_error s ]
  | some (arr vs) ↦ raise type_error "unhashable type: 'list'"
  | some (obj gs) ↦ raise type_error "unhashable type: 'dict'"
  | _ ↦ raise key_error "type"
]
type_key _ = raise type_error "indices must be integers or slices"

abbrev pub fields_of : Value → Fields
fields_of (obj fs) = fs
fields_of _ = end

-- The loop over `schema.get("required", [])`. A list or a dict cannot be looked up in the value; what
-- else is no text is not in it, and then `re.fullmatch` refuses it.
unfoldable pub check_required : List Value → Fields → Message → Verdict
unfolding property_path
check_required [] fs path = fine
check_required (str k ∷ ks) fs path =
    if has_key fs k
    then check_required ks fs path
    else wrong (property_path path k ++ lit ": required property is missing" ∷ [])
check_required (v ∷ ks) fs path = raise type_error "unhashable type, or expected string"

pub characters : String → List Value
characters String.[] = []
characters (String.◌∷◌ c s) = str (String.◌∷◌ c String.[]) ∷ characters s

-- What the loop goes over: the items of a list, the keys of a dict, the characters of a text.
unfoldable pub iterated : Value → Result (List Value)
unfolding characters
iterated (arr vs) = ok (items vs)
iterated (obj gs) = ok (map str (keys gs))
iterated (str s) = ok (characters s)
iterated v = raise type_error "object is not iterable"

unfoldable pub required_list : Fields → Result (List Value)
unfolding iterated
required_list schema = iterated (get_or schema "required" (arr nil))

-- `schema.get("properties", {})`, when it is asked for its `get`.
unfoldable pub property_table : Fields → Result Fields
property_table schema = elim (as_obj (get_or schema "properties" (obj end))) [
  | some ps ↦ ok ps
  | none ↦ raise attribute_error "get"
]

-- It is asked once for each item of the value, so never where there is none.
abbrev pub with_table : Fields → Fields → (Fields → Verdict) → Verdict
with_table end schema k = fine
with_table (field key v fs) schema k = do ps ← property_table schema; k ps

-- `schema.get("additionalProperties", True) is False`
unfoldable pub forbids_additional : Fields → Bool
forbids_additional schema = elim (get schema "additionalProperties") [
  | some (bool false) ↦ true
  | _ ↦ false
]

-- `{schema['k']}` in a message that is sent only where the key is there.
abbrev bound : Fields → String → Part
bound schema k = shown (get_or_null schema k)

-- `if size < schema.get(low, 0): ...; if size > schema.get(high, math.inf): ...`
unfoldable pub check_size : Fields → String → String → ℕ → Message → Message → Verdict
unfolding py_lt
check_size schema low high size below above =
    then_check (return_if (py_lt (int (pos size)) (get_or schema low (int (pos 0)))) below)
      (return_if (py_lt (get_or schema high (float infinity)) (int (pos size))) above)

-- `t == s`, for a text and any object.
abbrev pub is_text : String → Value → Bool
is_text s (str t) = str_eq t s
is_text s v = false

-- `t.startswith(s)`, and `s in t`.
unfoldable pub starts_with : String → String → Bool
starts_with String.[] t = true
starts_with (String.◌∷◌ c s) String.[] = false
starts_with (String.◌∷◌ c s) (String.◌∷◌ d t) = code c == code d && starts_with s t

unfoldable pub contains : String → String → Bool
unfolding starts_with
contains s String.[] = starts_with s String.[]
contains s (String.◌∷◌ d t) = starts_with s (String.◌∷◌ d t) || contains s t

-- `value not in schema["enum"]`: an item of a list, a key of a dict, or a part of a text.
unfoldable pub not_in_enum : Value → String → Result Bool
unfolding contains
not_in_enum (arr vs) s = ok (not (exists (is_text s) (items vs)))
not_in_enum (obj gs) s = ok (not (has_key gs s))
not_in_enum (str t) s = ok (not (contains s t))
not_in_enum _ s = raise type_error "argument is not iterable"

-- `re.search(schema["pattern"], value) is None`
unfoldable pub no_match : Regex → Value → String → Result Bool
no_match re (str p) s = ok (not (re.search p s))
no_match re _ s = raise type_error "first argument must be string or compiled pattern"

-- `if k in schema and test(schema[k])`
abbrev pub when_present : Fields → String → (Value → Result Bool) → Result Bool
when_present schema k test = elim (get schema k) [ none ↦ ok false | some v ↦ test v ]

unfoldable pub check_string : Regex → Fields → String → Message → Verdict
unfolding check_size not_in_enum no_match
check_string re schema s path =
    then_check
      (check_size schema "minLength" "maxLength" (str_length s)
        (path ++ lit ": length must be at least " ∷ bound schema "minLength" ∷ [])
        (path ++ lit ": length must be at most " ∷ bound schema "maxLength" ∷ []))
      (then_check
        (return_if (when_present schema "enum" (λ v. not_in_enum v s))
          (path ++ lit ": value is not in enum" ∷ []))
        (return_if (when_present schema "pattern" (λ v. no_match re v s))
          (path ++ lit ": value does not match pattern" ∷ [])))

unfoldable pub check_number : Fields → Value → Message → Verdict
unfolding is_finite py_lt
check_number schema v path =
    then_check
      (return_if (do f ← is_finite v; ok (not f)) (path ++ lit ": number must be finite" ∷ []))
      (then_check
        (return_if (py_lt v (get_or schema "minimum" (float minus_infinity)))
          (path ++ lit ": must be at least " ∷ bound schema "minimum" ∷ []))
        (return_if (py_lt (get_or schema "maximum" (float infinity)) v)
          (path ++ lit ": must be at most " ∷ bound schema "maximum" ∷ [])))

-- `schema["type"]` and the type test, before the branch on the type.
abbrev pub typed : Value → Value → Message → (SchemaType → Verdict) → Verdict
typed schema v path k = do
  t ← type_key schema
  if matches_type t v then k t else wrong (path ++ lit ": expected " ∷ text (type_name t) ∷ [])

unfoldable mutual
  unfolding type_key matches_type check_required required_list property_table forbids_additional
      check_size check_string check_number property_path

  -- `_validate_value`, by the value: the type test lets a mapping through for the type object only,
  -- a list for array, and so on.
  pub validate_value : Regex → Value → Value → Message → Verdict
  validate_value re (obj fs) schema path = typed schema (obj fs) path λ t. do
    required ← required_list (fields_of schema)
    then_check (check_required required fs path)
        (with_table fs (fields_of schema) λ ps. validate_fields re fs (fields_of schema) ps path)
  validate_value re (arr vs) schema path = typed schema (arr vs) path λ t.
      then_check
        (check_size (fields_of schema) "minItems" "maxItems" (length (items vs))
          (path
            ++ lit ": must contain at least "
              ∷ bound (fields_of schema) "minItems"
              ∷ lit " items"
              ∷ [])
          (path
            ++ lit ": must contain at most "
              ∷ bound (fields_of schema) "maxItems"
              ∷ lit " items"
              ∷ []))
        (validate_items re vs (fields_of schema) 0 path)
  validate_value re (str s) schema path =
      typed schema (str s) path λ t. check_string re (fields_of schema) s path
  validate_value re (int n) schema path =
      typed schema (int n) path λ t. check_number (fields_of schema) (int n) path
  validate_value re (float x) schema path =
      typed schema (float x) path λ t. check_number (fields_of schema) (float x) path
  validate_value re (bool b) schema path = typed schema (bool b) path λ t. fine
  validate_value re null schema path = typed schema null path λ t. fine
  validate_value re (other c) schema path = typed schema (other c) path λ t. fine

  -- `for index, item in enumerate(value)`
  pub validate_items : Regex → Items → Fields → ℕ → Message → Verdict
  validate_items re nil schema i path = fine
  validate_items re (cons v vs) schema i path = elim (get schema "items") [
    | none ↦ raise key_error "items"
    | some child ↦
        then_check (validate_value re v child (path ++ lit "[" ∷ nat i ∷ lit "]" ∷ []))
          (validate_items re vs schema (suc i) path)
  ]

  -- `for key, item in value.items()`
  pub validate_fields : Regex → Fields → Fields → Fields → Message → Verdict
  validate_fields re end schema ps path = fine
  validate_fields re (field key v rest) schema ps path =
      if is_none (get ps key)
      then (if forbids_additional schema
          then wrong (property_path path key ++ lit ": additional property is not allowed" ∷ [])
          else validate_fields re rest schema ps path)
      else then_check (validate_value re v (get_or_null ps key) (property_path path key))
          (validate_fields re rest schema ps path)

-- `validate_arguments`
unfoldable pub validate_arguments : Regex → ℕ → Value → Value → Verdict
unfolding validate_schema validate_value
validate_arguments re n schema v =
    validate_schema re n schema false >> validate_value re v schema (lit "$" ∷ [])
