-- ===== src/Tools/Schema/Conformance/Sound.antt =====
-- A value that `_validate_value` of tools/schema.py accepts conforms to the schema.
use astraship.Base.{
  ℕ, suc, String, ◌≡◌, refl, ◌∙◌, sym, ap, subst, ◌⊎◌, inl, inr, Bool, true, false, none, some,
  List, [], ◌∷◌, ◌++◌, arith, All, length, Bool-cases, Option-cases,
}
use astraship.Base.Int.{ℤ, pos}
use astraship.Base.Text.{str_length}
use astraship.Errors.{raise, attribute_error, shown, Message, lit, nat, ok, Result-cases}
use astraship.Value.{
  Value, null, bool, int, float, str, arr, obj, other, Float, infinity, minus_infinity, Items, nil,
  cons, Fields, end, field, get, items, get_or_null, is_none, as_obj,
}
use astraship.Value.Numbers.{is_finite, py_lt}
use astraship.Tools.Schema.Keywords.{
  SchemaType, object, array, string, integer, number, boolean, null_type, type_name, property_path,
}
use astraship.Tools.Schema.Node.{Regex, get_or}
use astraship.Tools.Schema.Check.{
  Verdict, return_if, matches_type, type_key, typed, check_required, required_list, iterated,
  with_table, property_table, forbids_additional, not_in_enum, no_match, check_string, check_number,
  validate_value, validate_items, validate_fields,
}
use astraship.Tools.Schema.Objects.{check_required-All, then_check-inversion, with_table-ok}
use astraship.Tools.Schema.Conformance.{
  When, Within, Enumerates, Matches, HasProperties, Iterates, Requires, HasKey, IsType, IsOpen,
  Conforms, EachItem, EachField,
}
use astraship.Tools.Schema.Conformance.Keywords.{
  return_if-ok, low-When, high-When, check_size-Within, not_in_enum-Enumerates, no_match-Matches,
  when_present-When, type_key-IsType, typed-ok,
}

property_table-HasProperties : (s ps : Fields) → property_table s ≡ ok ps → HasProperties s ps
unfolding property_table
property_table-HasProperties s ps h = elim (Option-cases (get s "properties")) [
  | inl g ↦
      let same : end ≡ ps = ground (arith, h, g) in
      subst (HasProperties s) same (HasProperties.no_table g)
  | inr (v, g) ↦ from v g (ground (arith, h, g))
]
  where
    from :
        (v : Value)
        → get s "properties" ≡ some v
        → (elim (as_obj v) [ some qs ↦ ok qs | none ↦ raise attribute_error "get" ]) ≡ ok ps
        → HasProperties s ps
    from (obj qs) g e = HasProperties.given (g ∙ ap (λ x. some (obj x)) (ground (arith, e)))
    from v g e = absurd (cc)

iterated-Iterates : (v : Value) (ks : List Value) → iterated v ≡ ok ks → Iterates v ks
unfolding iterated
iterated-Iterates (arr vs) ks h = subst (Iterates (arr vs)) (ground (arith, h)) Iterates.a_list
iterated-Iterates (obj gs) ks h = subst (Iterates (obj gs)) (ground (arith, h)) Iterates.a_dict
iterated-Iterates (str u) ks h = subst (Iterates (str u)) (ground (arith, h)) Iterates.a_text
iterated-Iterates v ks h = absurd (cc)

required_list-Requires : (s : Fields) (ks : List Value) → required_list s ≡ ok ks → Requires s ks
unfolding required_list
required_list-Requires s ks h = elim (Option-cases (get s "required")) [
  | inl g ↦
      let same : [] ≡ ks = unfold iterated in ground (arith, h, g) in
      subst (Requires s) same (Requires.no_list g)
  | inr (v, g) ↦
      Requires.given g (iterated-Iterates v ks (ap iterated (sym (ground (arith, g))) ∙ h))
]

forbids_additional-IsOpen : (s : Fields) → forbids_additional s ≡ false → IsOpen s
unfolding forbids_additional
forbids_additional-IsOpen s h = λ g. absurd (ground (arith, h, g))

check_number-ok :
    (s : Fields) (v : Value) (path : Message)
    → check_number s v path ≡ ok none
    → (is_finite v ≡ ok true) × Within s "minimum" "maximum" v
unfolding check_number
check_number-ok s v path h = elim (Result-cases (is_finite v)) [
  | inr (e, f) ↦ absurd (ground (arith, h, f))
  | inl (false, f) ↦ absurd (ground (arith, h, f))
  | inl (true, f) ↦
      let first =
        return_if (py_lt v (get_or s "minimum" (float minus_infinity)))
          (path ++ lit ": must be at least " ∷ shown (get_or_null s "minimum") ∷ []) in
      let second =
        return_if (py_lt (get_or s "maximum" (float infinity)) v)
          (path ++ lit ": must be at most " ∷ shown (get_or_null s "maximum") ∷ []) in
      let (p, q) = then_check-inversion first second (rw (f, check_number) at h) in
      (
        f,
        (
          low-When s "minimum" (float minus_infinity) v (return_if-ok _ _ p),
          high-When s "maximum" (float infinity) v (return_if-ok _ _ q),
        ),
      )
]

check_string-ok :
    (re : Regex) (s : Fields) (t : String) (path : Message)
    → check_string re s t path ≡ ok none
    → Within s "minLength" "maxLength" (int (pos (str_length t)))
      × When s "enum" (Enumerates t)
      × When s "pattern" (Matches re t)
unfolding check_string
check_string-ok re s t path h =
    let (p, q) = then_check-inversion _ _ h in
    let (u, v) = then_check-inversion _ _ q in
    (
      check_size-Within s "minLength" "maxLength" (str_length t) _ _ p,
      when_present-When s "enum" (λ x. not_in_enum x t) (Enumerates t)
          (λ x. not_in_enum-Enumerates x t) (return_if-ok _ _ u),
      when_present-When s "pattern" (λ x. no_match re x t) (Matches re t)
          (λ x. no_match-Matches re x t) (return_if-ok _ _ v),
    )

-- The type that lets a value of this kind through.
object_only :
    (t : SchemaType) (fs : Fields) → matches_type t (obj fs) ≡ true → type_name t ≡ "object"
unfolding matches_type type_name
object_only object fs h = refl
object_only t fs h = absurd (cc)

array_only : (t : SchemaType) (vs : Items) → matches_type t (arr vs) ≡ true → type_name t ≡ "array"
unfolding matches_type type_name
array_only array vs h = refl
array_only t vs h = absurd (cc)

string_only : (t : SchemaType) (x : String) → matches_type t (str x) ≡ true → type_name t ≡ "string"
unfolding matches_type type_name
string_only string x h = refl
string_only t x h = absurd (cc)

integer_only :
    (t : SchemaType) (n : ℤ)
    → matches_type t (int n) ≡ true
    → (type_name t ≡ "integer") ⊎ (type_name t ≡ "number")
unfolding matches_type type_name
integer_only integer n h = inl refl
integer_only number n h = inr refl
integer_only t n h = absurd (cc)

number_only :
    (t : SchemaType) (x : Float) → matches_type t (float x) ≡ true → type_name t ≡ "number"
unfolding matches_type type_name
number_only number x h = refl
number_only t x h = absurd (cc)

boolean_only :
    (t : SchemaType) (b : Bool) → matches_type t (bool b) ≡ true → type_name t ≡ "boolean"
unfolding matches_type type_name
boolean_only boolean b h = refl
boolean_only t b h = absurd (cc)

null_only : (t : SchemaType) → matches_type t null ≡ true → type_name t ≡ "null"
unfolding matches_type type_name
null_only null_type h = refl
null_only t h = absurd (cc)

no_other : (t : SchemaType) (c : String) → matches_type t (other c) ≡ false
unfolding matches_type
no_other t c = ground arith

-- A schema that is no mapping has no type.
type_key-obj :
    (schema : Value) (t : SchemaType) → type_key schema ≡ ok t → (s : Fields) × (schema ≡ obj s)
unfolding type_key
type_key-obj (obj s) t h = (s, refl)
type_key-obj v t h = absurd (cc)

of_type :
    (s : Fields) (t : SchemaType) (name : String)
    → type_key (obj s) ≡ ok t
    → type_name t ≡ name
    → IsType s name
of_type s t name h e = type_key-IsType s t h ∙ ap (λ x. some (str x)) e

typed-mapping :
    (schema v : Value) (path : Message) (k : SchemaType → Verdict)
    → typed schema v path k ≡ ok none
    → (s : Fields) × (schema ≡ obj s)
typed-mapping schema v path k h =
    let (t, q, m, r) = typed-ok schema v path k h in type_key-obj schema t q

accepted-mapping :
    (re : Regex) (v schema : Value) (path : Message)
    → validate_value re v schema path ≡ ok none
    → (s : Fields) × (schema ≡ obj s)
unfolding validate_value
accepted-mapping re (obj fs) schema path h = typed-mapping schema (obj fs) path _ h
accepted-mapping re (arr vs) schema path h = typed-mapping schema (arr vs) path _ h
accepted-mapping re (str x) schema path h = typed-mapping schema (str x) path _ h
accepted-mapping re (int n) schema path h = typed-mapping schema (int n) path _ h
accepted-mapping re (float x) schema path h = typed-mapping schema (float x) path _ h
accepted-mapping re (bool b) schema path h = typed-mapping schema (bool b) path _ h
accepted-mapping re null schema path h = typed-mapping schema null path _ h
accepted-mapping re (other c) schema path h = typed-mapping schema (other c) path _ h

-- From schemas that are mappings to all.
pub by_mapping :
    (re : Regex) (v : Value)
    → ((s : Fields) (path : Message)
        → validate_value re v (obj s) path ≡ ok none
        → Conforms re v (obj s))
    → (schema : Value) (path : Message) → validate_value re v schema path ≡ ok none
    → Conforms re v schema
by_mapping re v f schema path h =
    let (s, e) = accepted-mapping re v schema path h in
    subst (Conforms re v) (sym e) (f s path (ap (λ x. validate_value re v x path) (sym e) ∙ h))

mutual
  unfolding validate_value

  pub validate_value_sound :
      (re : Regex) (v : Value) (s : Fields) (path : Message)
      → validate_value re v (obj s) path ≡ ok none
      → Conforms re v (obj s)
  validate_value_sound re (obj fs) s path h =
      let (t, k, m, r) = typed-ok (obj s) (obj fs) path _ h in
      elim (Result-cases (required_list s)) [
        | inr (e, q) ↦ absurd (ground (arith, r, q))
        | inl (ks, q) ↦
            let (a, b) =
              then_check-inversion (check_required ks fs path)
                (with_table fs s λ ps. validate_fields re fs s ps path) (ground (arith, r, q)) in
            let keys = check_required-All ks fs path a in
            elim (with_table-ok fs s _ b) [
              | inl e ↦
                  subst (λ x. Conforms re (obj x) (obj s)) (sym e)
                    (Conforms.an_empty_object (of_type s t "object" k (object_only t fs m))
                      (required_list-Requires s ks q) (subst (λ x. All (HasKey x) ks) e keys))
              | inr (ps, p, c) ↦
                  Conforms.an_object (of_type s t "object" k (object_only t fs m))
                    (property_table-HasProperties s ps p) (required_list-Requires s ks q) keys
                    (validate_fields_sound re fs s ps path c)
            ]
      ]
  validate_value_sound re (arr vs) s path h =
      let (t, k, m, r) = typed-ok (obj s) (arr vs) path _ h in
      let (a, b) = then_check-inversion _ _ r in
      Conforms.an_array (of_type s t "array" k (array_only t vs m))
        (check_size-Within s "minItems" "maxItems" (length (items vs)) _ _ a)
        (validate_items_sound re vs s 0 path b)
  validate_value_sound re (str x) s path h =
      let (t, k, m, r) = typed-ok (obj s) (str x) path _ h in
      let (a, b, c) = check_string-ok re s x path r in
      Conforms.a_string (of_type s t "string" k (string_only t x m)) a b c
  validate_value_sound re (int n) s path h =
      let (t, k, m, r) = typed-ok (obj s) (int n) path _ h in
      let (a, b) = check_number-ok s (int n) path r in
      Conforms.an_integer
        (elim (integer_only t n m) [
          | inl e ↦ inl (of_type s t "integer" k e)
          | inr e ↦ inr (of_type s t "number" k e)
        ])
        a b
  validate_value_sound re (float x) s path h =
      let (t, k, m, r) = typed-ok (obj s) (float x) path _ h in
      let (a, b) = check_number-ok s (float x) path r in
      Conforms.a_float (of_type s t "number" k (number_only t x m)) a b
  validate_value_sound re (bool b) s path h =
      let (t, k, m, r) = typed-ok (obj s) (bool b) path _ h in
      Conforms.a_boolean (of_type s t "boolean" k (boolean_only t b m))
  validate_value_sound re null s path h =
      let (t, k, m, r) = typed-ok (obj s) null path _ h in
      Conforms.a_null (of_type s t "null" k (null_only t m))
  validate_value_sound re (other c) s path h =
      let (t, k, m, r) = typed-ok (obj s) (other c) path _ h in absurd (cc (m, no_other t c))

  validate_items_sound :
      (re : Regex) (vs : Items) (s : Fields) (i : ℕ) (path : Message)
      → validate_items re vs s i path ≡ ok none
      → EachItem re s vs
  validate_items_sound re nil s i path h = EachItem.none_left
  validate_items_sound re (cons v vs) s i path h = elim (Option-cases (get s "items")) [
    | inl g ↦ absurd (ground (arith, h, g))
    | inr (child, g) ↦
        let (a, b) =
          then_check-inversion (validate_value re v child (path ++ lit "[" ∷ nat i ∷ lit "]" ∷ []))
            (validate_items re vs s (suc i) path) (ground (arith, h, g)) in
        EachItem.next_item g (by_mapping re v (λ x p e. validate_value_sound re v x p e) child _ a)
          (validate_items_sound re vs s (suc i) path b)
  ]

  validate_fields_sound :
      (re : Regex) (fs s ps : Fields) (path : Message)
      → validate_fields re fs s ps path ≡ ok none
      → EachField re s ps fs
  validate_fields_sound re end s ps path h = EachField.no_field
  validate_fields_sound re (field k v fs) s ps path h = elim (Bool-cases (is_none (get ps k))) [
    | inl b ↦ elim (Bool-cases (forbids_additional s)) [
      | inl f ↦ absurd (ground (arith, h, b, f))
      | inr f ↦
          EachField.extra b (forbids_additional-IsOpen s f)
            (validate_fields_sound re fs s ps path (ground (arith, h, b, f)))
    ]
    | inr b ↦
        let (p, q) =
          then_check-inversion (validate_value re v (get_or_null ps k) (property_path path k))
            (validate_fields re fs s ps path) (ground (arith, h, b)) in
        EachField.known b
          (by_mapping re v (λ x y e. validate_value_sound re v x y e) (get_or_null ps k) _ p)
          (validate_fields_sound re fs s ps path q)
  ]
