-- ===== src/Tools/Schema/Termination.antt =====
-- `_validate_schema_node` of tools/schema.py raises no RecursionError where the recursion limit is
-- above the depth of the schema.
use astraship.Base.{
  ℕ, zero, suc, ◌<◌, String, ◌≡◌, refl, ◌∙◌, sym, ap, inl, inr, Bool, true, false, not, List, [],
  ◌∷◌, ◌++◌, arith, Option-cases,
}
use astraship.Base.Int.{pos}
use astraship.Errors.{
  ErrorClass, Message, lit, Result, ok, err, raise_f_if, ◌>>=◌, ◌>>◌, Result-cases, recursion_error,
  tool_registration,
}
use astraship.Value.{Value, int, float, obj, Fields, end, field, get, infinity, minus_infinity}
use astraship.Value.Numbers.{py_lt, is_finite}
use astraship.Tools.Schema.Keywords.{
  SchemaType, object, array, string, integer, number, boolean, null_type, property_path,
}
use astraship.Tools.Schema.Node.{
  Regex, get_or, schema_type, check_keywords, properties_of, required_of, check_known,
  check_additional, each_property, check_body, validate_mapping, validate_node, validate_schema,
  check_root, check_nonnegative, check_order, check_enum, check_pattern, check_bound, is_bad_bound,
}
use astraship.Tools.Schema.Depth.{
  depth, depth_fields, Call, larger-left, larger-right, get-depth, properties_of-depth,
  validate_node-Agree,
}

is_recursion : ErrorClass → Bool
is_recursion recursion_error = true
is_recursion c = false

-- The call does not raise RecursionError.
pub is_graceful {ℓ} : {A : Type ℓ} → Result A → Bool
unfolding is_recursion
is_graceful (ok a) = true
is_graceful (err e) = not (is_recursion e.class)

is_graceful-bind {ℓ ℓ'} :
    {A : Type ℓ} {B : Type ℓ'} (r : Result A) (next : A → Result B)
    → is_graceful r ≡ true
    → ((a : A) → is_graceful (next a) ≡ true)
    → is_graceful (r >>= next) ≡ true
unfolding is_graceful
is_graceful-bind (ok a) next h k = k a
is_graceful-bind (err e) next h k = h

is_graceful-raise_f_if :
    (b : Bool) (m : Message) → is_graceful (raise_f_if b tool_registration m) ≡ true
unfolding is_graceful
is_graceful-raise_f_if true m = refl
is_graceful-raise_f_if false m = refl

is_graceful-schema_type : (fs : Fields) (path : Message) → is_graceful (schema_type fs path) ≡ true
unfolding schema_type is_graceful
is_graceful-schema_type fs path = ground arith

is_graceful-check_keywords :
    (t : SchemaType) (fs : Fields) (path : Message) → is_graceful (check_keywords t fs path) ≡ true
unfolding check_keywords is_graceful
is_graceful-check_keywords t fs path = ground arith

is_graceful-properties_of :
    (fs : Fields) (path : Message) → is_graceful (properties_of fs path) ≡ true
unfolding properties_of is_graceful
is_graceful-properties_of fs path = ground arith

is_graceful-required_of : (fs : Fields) (path : Message) → is_graceful (required_of fs path) ≡ true
unfolding required_of is_graceful
is_graceful-required_of fs path = ground arith

is_graceful-check_known :
    (ks : List String) (ps : Fields) (path : Message) → is_graceful (check_known ks ps path) ≡ true
unfolding check_known is_graceful
is_graceful-check_known ks ps path = ground arith

is_graceful-check_additional :
    (fs : Fields) (path : Message) → is_graceful (check_additional fs path) ≡ true
unfolding check_additional is_graceful
is_graceful-check_additional fs path = ground arith

is_graceful-check_nonnegative :
    (fs : Fields) (k : String) (path : Message) → is_graceful (check_nonnegative fs k path) ≡ true
unfolding check_nonnegative is_graceful
is_graceful-check_nonnegative fs k path = ground arith

is_graceful-py_lt : (a b : Value) → is_graceful (py_lt a b) ≡ true
unfolding py_lt is_graceful
is_graceful-py_lt a b = ground arith

is_graceful-check_order :
    (fs : Fields) (low : String) (default : Value) (high : String) (path : Message)
    → is_graceful (check_order fs low default high path) ≡ true
unfolding check_order
is_graceful-check_order fs low default high path =
    is_graceful-bind (py_lt (get_or fs high (float infinity)) (get_or fs low default)) _
      (is_graceful-py_lt (get_or fs high (float infinity)) (get_or fs low default))
      λ b. is_graceful-raise_f_if b _

is_graceful-check_enum : (fs : Fields) (path : Message) → is_graceful (check_enum fs path) ≡ true
unfolding check_enum is_graceful
is_graceful-check_enum fs path = ground arith

is_graceful-check_pattern :
    (re : Regex) (fs : Fields) (path : Message) → is_graceful (check_pattern re fs path) ≡ true
unfolding check_pattern is_graceful
is_graceful-check_pattern re fs path = ground arith

is_graceful-is_bad_bound : (v : Value) → is_graceful (is_bad_bound v) ≡ true
unfolding is_bad_bound is_finite is_graceful
is_graceful-is_bad_bound v = ground arith

is_graceful-check_bound :
    (fs : Fields) (k : String) (path : Message) → is_graceful (check_bound fs k path) ≡ true
unfolding check_bound is_graceful
is_graceful-check_bound fs k path = ground arith

is_graceful-bounds :
    (fs : Fields) (path : Message)
    → is_graceful (do
      check_bound fs "minimum" path
      check_bound fs "maximum" path
      check_order fs "minimum" (float minus_infinity) "maximum" path)
      ≡ true
is_graceful-bounds fs path =
    is_graceful-bind (check_bound fs "minimum" path) _ (is_graceful-check_bound fs "minimum" path)
      λ u.
        is_graceful-bind (check_bound fs "maximum" path) _
          (is_graceful-check_bound fs "maximum" path)
          λ v. is_graceful-check_order fs "minimum" (float minus_infinity) "maximum" path

is_graceful-check_root : (b : Bool) (schema : Value) → is_graceful (check_root b schema) ≡ true
unfolding check_root is_graceful
is_graceful-check_root b schema = ground arith

-- The call raises no RecursionError on what is less deep.
abbrev IsGracefulBelow : ℕ → Call → Type 0
IsGracefulBelow d f = (v : Value) (path : Message) → depth v < d → is_graceful (f v path) ≡ true

is_graceful-each_property :
    (d : ℕ) (f : Call) (ps : Fields) (path : Message)
    → IsGracefulBelow d f
    → depth_fields ps < d
    → is_graceful (each_property f ps path) ≡ true
unfolding each_property depth_fields is_graceful
is_graceful-each_property d f end path g h = refl
is_graceful-each_property d f (field k v ps) path g h =
    is_graceful-bind (f v (property_path path k)) (λ done. each_property f ps path)
      (g v (property_path path k) (omega (arith, h, larger-left (depth v) (depth_fields ps))))
      λ done.
        is_graceful-each_property d f ps path g
          (omega (arith, h, larger-right (depth v) (depth_fields ps)))

is_graceful-check_body :
    (re : Regex) (f : Call) (t : SchemaType) (fs : Fields) (path : Message)
    → IsGracefulBelow (suc (depth_fields fs)) f
    → is_graceful (check_body re f t fs path) ≡ true
unfolding check_body is_graceful
is_graceful-check_body re f object fs path g = elim (Result-cases (properties_of fs path)) [
  | inr (e, p) ↦ rw (p, check_body) (ap is_graceful (sym p) ∙ is_graceful-properties_of fs path)
  | inl (ps, p) ↦
      rw (p, check_body)
        (is_graceful-bind (each_property f ps path) _
          (is_graceful-each_property (suc (depth_fields fs)) f ps path g
            (omega (arith, properties_of-depth fs path ps p)))
          λ u. is_graceful-bind (required_of fs path) _ (is_graceful-required_of fs path) λ ks.
            is_graceful-bind (check_known ks ps path) _ (is_graceful-check_known ks ps path)
              λ v. is_graceful-check_additional fs path)
]
is_graceful-check_body re f array fs path g = elim (Option-cases (get fs "items")) [
  | inl n ↦ rw (n, check_body) refl
  | inr (v, n) ↦
      rw (n, check_body)
        (is_graceful-bind (f v (path ++ lit "[]" ∷ [])) _
          (g v (path ++ lit "[]" ∷ []) (omega (arith, get-depth fs "items" v n)))
          λ u.
            is_graceful-bind (check_nonnegative fs "minItems" path) _
              (is_graceful-check_nonnegative fs "minItems" path)
              λ v.
                is_graceful-bind (check_nonnegative fs "maxItems" path) _
                  (is_graceful-check_nonnegative fs "maxItems" path)
                  λ w. is_graceful-check_order fs "minItems" (int (pos 0)) "maxItems" path)
]
is_graceful-check_body re f string fs path g =
    is_graceful-bind (check_nonnegative fs "minLength" path) _
      (is_graceful-check_nonnegative fs "minLength" path)
      λ u.
        is_graceful-bind (check_nonnegative fs "maxLength" path) _
          (is_graceful-check_nonnegative fs "maxLength" path)
          λ v.
            is_graceful-bind (check_order fs "minLength" (int (pos 0)) "maxLength" path) _
              (is_graceful-check_order fs "minLength" (int (pos 0)) "maxLength" path)
              λ w.
                is_graceful-bind (check_enum fs path) _ (is_graceful-check_enum fs path)
                  λ x. is_graceful-check_pattern re fs path
is_graceful-check_body re f integer fs path g = is_graceful-bounds fs path
is_graceful-check_body re f number fs path g = is_graceful-bounds fs path
is_graceful-check_body re f boolean fs path g = refl
is_graceful-check_body re f null_type fs path g = refl

is_graceful-validate_node :
    (re : Regex) (n : ℕ) (schema : Value) (path : Message)
    → depth schema < n
    → is_graceful (validate_node re n schema path) ≡ true
unfolding validate_node validate_mapping depth is_graceful
is_graceful-validate_node re zero schema path h = absurd (omega (arith, h))
is_graceful-validate_node re (suc n) (obj fs) path h =
    is_graceful-bind (schema_type fs path) _ (is_graceful-schema_type fs path) λ t.
      is_graceful-bind (check_keywords t fs path) _ (is_graceful-check_keywords t fs path) λ u.
        is_graceful-check_body re (validate_node re n) t fs path
          λ v p less. is_graceful-validate_node re n v p (omega (arith, less, h))
is_graceful-validate_node re (suc n) v path h = refl

-- The validation of a schema ends within a recursion limit that is above the depth of the schema:
-- it then raises no RecursionError, and what it returns or raises is the same for every such limit.
pub validate_schema-terminates :
    (re : Regex) (n m : ℕ) (schema : Value) (root_object : Bool)
    → depth schema < n
    → depth schema < m
    → (validate_schema re n schema root_object ≡ validate_schema re m schema root_object)
      × (is_graceful (validate_schema re n schema root_object) ≡ true)
unfolding validate_schema
validate_schema-terminates re n m schema root_object h k =
    let same = validate_node-Agree re n m schema (lit "$" ∷ []) h k in
    let graceful =
      is_graceful-bind (validate_node re n schema (lit "$" ∷ []))
        (λ u. check_root root_object schema)
        (is_graceful-validate_node re n schema (lit "$" ∷ []) h)
        λ u. is_graceful-check_root root_object schema in
    (λ i. same i >> check_root root_object schema, graceful)
