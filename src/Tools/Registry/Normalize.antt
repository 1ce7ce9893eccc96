-- ===== src/Tools/Registry/Normalize.antt =====
-- `_validate_json_value` and `_normalize_json` of tools/registry.py, on values without cycles.
use astraship.Base.{◌≡◌, ◌⊎◌, inl, inr, arith, false, Option, none, some}
use astraship.Errors.{
  ErrorClass, Error, Result-cases, Result, ok, err, raise, ◌>>=◌, ◌>>◌, value_error, type_error,
}
use astraship.Value.{
  Value, null, bool, int, float, str, arr, obj, other, Items, nil, cons, Fields, end, field, finite,
  nan, infinity, minus_infinity,
}
use astraship.Value.Json.{Json}

unfoldable mutual
  pub validate_json_value : Value → Result (Unit {0})
  validate_json_value null = ok tt
  validate_json_value (bool b) = ok tt
  validate_json_value (str s) = ok tt
  validate_json_value (int n) = ok tt
  validate_json_value (float (finite n k)) = ok tt
  validate_json_value (float nan) = raise value_error "JSON numbers must be finite"
  validate_json_value (float infinity) = raise value_error "JSON numbers must be finite"
  validate_json_value (float minus_infinity) = raise value_error "JSON numbers must be finite"
  validate_json_value (arr vs) = validate_json_items vs
  validate_json_value (obj fs) = validate_json_fields fs
  validate_json_value (other c) = raise type_error "is not JSON-compatible"

  pub validate_json_items : Items → Result (Unit {0})
  validate_json_items nil = ok tt
  validate_json_items (cons v vs) = validate_json_value v >> validate_json_items vs

  pub validate_json_fields : Fields → Result (Unit {0})
  validate_json_fields end = ok tt
  validate_json_fields (field k v fs) = validate_json_value v >> validate_json_fields fs

loaded : Option Value → Result Value
loaded none = raise value_error "JSONDecodeError"
loaded (some u) = ok u

-- `json.loads` of what `json.dumps` wrote; a JSONDecodeError is a ValueError.
unfoldable pub normalize_json : Json → Value → Result Value
unfolding validate_json_value loaded
normalize_json json v = do
  validate_json_value v
  encoded ← json.dumps false v
  loaded (json.loads encoded)

abbrev pub IsDocumented : ErrorClass → Type 0
IsDocumented c = (c ≡ type_error) ⊎ (c ≡ value_error)

mutual
  unfolding validate_json_value

  validate_json_value-errors :
      (v : Value) (e : Error) → validate_json_value v ≡ err e → IsDocumented e.class
  validate_json_value-errors (float (finite n k)) e h = absurd (cc)
  validate_json_value-errors (float x) e h = ground arith
  validate_json_value-errors (arr vs) e h = validate_json_items-errors vs e h
  validate_json_value-errors (obj fs) e h = validate_json_fields-errors fs e h
  validate_json_value-errors (other c) e h = ground arith
  validate_json_value-errors v e h = absurd (cc)

  validate_json_items-errors :
      (vs : Items) (e : Error) → validate_json_items vs ≡ err e → IsDocumented e.class
  validate_json_items-errors nil e h = absurd (cc)
  validate_json_items-errors (cons v vs) e h = elim (Result-cases (validate_json_value v)) [
    | inl (u, p) ↦ validate_json_items-errors vs e (rw p at h)
    | inr (x, p) ↦ validate_json_value-errors v e (ground (arith, p, h))
  ]

  validate_json_fields-errors :
      (fs : Fields) (e : Error) → validate_json_fields fs ≡ err e → IsDocumented e.class
  validate_json_fields-errors end e h = absurd (cc)
  validate_json_fields-errors (field k v fs) e h = elim (Result-cases (validate_json_value v)) [
    | inl (u, p) ↦ validate_json_fields-errors fs e (rw p at h)
    | inr (x, p) ↦ validate_json_value-errors v e (ground (arith, p, h))
  ]

loaded-errors : (o : Option Value) (e : Error) → loaded o ≡ err e → IsDocumented e.class
unfolding loaded
loaded-errors none e h = ground arith
loaded-errors (some u) e h = absurd (cc)

-- Where `dumps` raises only what it documents, so does the normalization.
pub normalize_json-errors :
    (json : Json)
    → ((v : Value) (e : Error) → json.dumps false v ≡ err e → IsDocumented e.class)
    → (v : Value) (e : Error) → normalize_json json v ≡ err e
    → IsDocumented e.class
unfolding normalize_json
normalize_json-errors json documented v e h = elim (Result-cases (validate_json_value v)) [
  | inr (x, p) ↦ validate_json_value-errors v e (ground (arith, p, h))
  | inl (u, p) ↦ elim (Result-cases (json.dumps false v)) [
    | inr (x, q) ↦ documented v e (ground (arith, p, q, h))
    | inl (s, q) ↦ loaded-errors (json.loads s) e (rw (p, q) at h)
  ]
]
