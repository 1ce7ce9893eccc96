-- ===== src/Tools/Schema/Objects.antt =====
-- Which objects `_validate_value` of tools/schema.py accepts.
mod Tests
use astraship.Base.{
  ℕ, String, ◌≡◌, refl, ◌∙◌, sym, ap, subst, ◌⊎◌, inl, inr, Bool, true, false, not, Option, none,
  some, List, [], ◌∷◌, ◌++◌, arith, All, str_eq, eq_iff, if◌then◌else◌, Bool-cases, Option-cases,
}
use astraship.Errors.{Error, Message, Result, ok, err, ◌>>=◌, ◌>>◌, >>=-eq-ok, Result-cases}
use astraship.Value.{Value, str, obj, Fields, end, field, get, get_or_null, has_key, keys, is_none}
use astraship.Tools.Schema.Keywords.{SchemaType, object, property_path}
use astraship.Tools.Schema.Node.{Regex}
use astraship.Tools.Schema.Check.{
  then_check, matches_type, type_key, check_required, required_list, property_table,
  forbids_additional, with_table, validate_value, validate_fields,
}
use astraship.Tools.Schema.Conformance.{HasKey}

-- This value is accepted, at some path.
abbrev pub IsAccepted : Regex → Value → Value → Type 0
IsAccepted re v schema = (path : Message) × (validate_value re v schema path ≡ ok none)

-- The object has what the schema requires, and nothing that it forbids; what it has for a property
-- of the schema is accepted against the schema of that property.
pub record IsShaped (re : Regex) (fs schema : Fields) : Type 0 where
  pub is_object : type_key (obj schema) ≡ ok object
  pub properties : Fields
  -- an object without a key does not ask for them
  pub has_properties : (k : String) → has_key fs k ≡ true → property_table schema ≡ ok properties
  pub required : List Value
  pub has_required : required_list schema ≡ ok required
  pub present : All (HasKey fs) required
  pub known :
      forbids_additional schema ≡ true → All (λ k. is_none (get properties k) ≡ false) (keys fs)
  pub values :
      (k : String) (v : Value)
      → get fs k ≡ some v
      → is_none (get properties k) ≡ false
      → IsAccepted re v (get_or_null properties k)

pub check_required-All :
    (ks : List Value) (fs : Fields) (path : Message)
    → check_required ks fs path ≡ ok none
    → All (HasKey fs) ks
unfolding check_required
check_required-All [] fs path h = tt
check_required-All (str k ∷ ks) fs path h = elim (Bool-cases (has_key fs k)) [
  | inl b ↦ (b, check_required-All ks fs path (ground (arith, h, b)))
  | inr b ↦ absurd (ground (arith, h, b))
]
check_required-All (v ∷ ks) fs path h = absurd (cc)

-- The table is there, unless the object is empty.
pub with_table-ok :
    (fs schema : Fields) (k : Fields → Result (Option Message))
    → with_table fs schema k ≡ ok none
    → (fs ≡ end) ⊎ ((ps : Fields) × (property_table schema ≡ ok ps) × (k ps ≡ ok none))
with_table-ok end schema k h = inl refl
with_table-ok (field key v fs) schema k h = elim (Result-cases (property_table schema)) [
  | inr (e, q) ↦ absurd (ground (arith, h, q))
  | inl (ps, q) ↦ inr (ps, q, ground (arith, h, q))
]

pub then_check-inversion :
    (a b : Result (Option Message)) → then_check a b ≡ ok none → (a ≡ ok none) × (b ≡ ok none)
then_check-inversion (ok none) b h = (refl, h)
then_check-inversion (ok (some m)) b h = absurd (cc)
then_check-inversion (err e) b h = absurd (cc)

validate_fields-All :
    (re : Regex) (fs schema ps : Fields) (path : Message)
    → validate_fields re fs schema ps path ≡ ok none
    → forbids_additional schema ≡ true
    → All (λ k. is_none (get ps k) ≡ false) (keys fs)
unfolding validate_fields
validate_fields-All re end schema ps path h f = tt
validate_fields-All re (field k v rest) schema ps path h f =
    elim (Bool-cases (is_none (get ps k))) [
      | inl b ↦ absurd (ground (arith, h, b, f))
      | inr b ↦
          let (p, q) =
            then_check-inversion (validate_value re v (get_or_null ps k) (property_path path k))
              (validate_fields re rest schema ps path) (ground (arith, h, b)) in
          (b, validate_fields-All re rest schema ps path q f)
    ]

validate_fields-values :
    (re : Regex) (fs schema ps : Fields) (path : Message)
    → validate_fields re fs schema ps path ≡ ok none
    → (k : String) (v : Value) → get fs k ≡ some v
    → is_none (get ps k) ≡ false
    → IsAccepted re v (get_or_null ps k)
unfolding validate_fields get
validate_fields-values re end schema ps path h k v g n = absurd (cc)
validate_fields-values re (field j w rest) schema ps path h k v g n =
    elim (Bool-cases (is_none (get ps j))) [
      | inl b ↦ elim (Bool-cases (str_eq j k)) [
        | inl e ↦ absurd (cc (b, n, ap (λ x. is_none (get ps x)) ((eq_iff j k).0 e)))
        | inr e ↦
            validate_fields-values re rest schema ps path (ground (arith, h, b)) k v
              (ground (arith, g, e)) n
      ]
      | inr b ↦
          let (p, q) =
            then_check-inversion (validate_value re w (get_or_null ps j) (property_path path j))
              (validate_fields re rest schema ps path) (ground (arith, h, b)) in
          elim (Bool-cases (str_eq j k)) [
            | inl e ↦
                let same : w ≡ v = ground (arith, g, e) in
                (
                  property_path path j,
                  ap (λ x. validate_value re v (get_or_null ps x) (property_path path j))
                        (sym ((eq_iff j k).0 e))
                      ∙ ap (λ x. validate_value re x (get_or_null ps j) (property_path path j))
                          (sym same)
                      ∙ p,
                )
            | inr e ↦ validate_fields-values re rest schema ps path q k v (ground (arith, g, e)) n
          ]
    ]

object_type : (t : SchemaType) (fs : Fields) → matches_type t (obj fs) ≡ true → t ≡ object
unfolding matches_type
object_type object fs h = refl
object_type t fs h = absurd (cc)

shaped :
    (re : Regex) (fs schema : Fields) (path : Message)
    → type_key (obj schema) ≡ ok object
    → (ks : List Value) → required_list schema ≡ ok ks
    → All (HasKey fs) ks
    → (fs ≡ end)
      ⊎ ((ps : Fields) × (property_table schema ≡ ok ps)
          × (validate_fields re fs schema ps path ≡ ok none))
    → IsShaped re fs schema
unfolding get
shaped re fs schema path t ks r x (inr (ps, q, y)) = record {
  is_object = t;
  properties = ps;
  has_properties = λ k h. q;
  required = ks;
  has_required = r;
  present = x;
  known = validate_fields-All re fs schema ps path y;
  values = validate_fields-values re fs schema ps path y;
}
shaped re fs schema path t ks r x (inl e) =
    subst (λ y. IsShaped re y schema) (sym e)
      (record {
        is_object = t;
        properties = end;
        has_properties = λ k h. absurd (cc);
        required = ks;
        has_required = r;
        present = subst (λ y. All (HasKey y) ks) e x;
        known = λ f. tt;
        values = λ k v g. absurd (cc);
      })

-- An object that is accepted against a schema has every required key and, where the schema forbids
-- additional properties, no key but those of its properties; the schema is one of type object. What the
-- object has for one of these properties is
-- accepted against the schema of the property.
pub validate_value-IsShaped :
    (re : Regex) (fs schema : Fields) (path : Message)
    → validate_value re (obj fs) (obj schema) path ≡ ok none
    → IsShaped re fs schema
unfolding validate_value
validate_value-IsShaped re fs schema path h = elim (Result-cases (type_key (obj schema))) [
  | inr (e, p) ↦ absurd (ground (arith, h, p))
  | inl (t, p) ↦ elim (Bool-cases (matches_type t (obj fs))) [
    | inr b ↦ absurd (ground (arith, h, p, b))
    | inl b ↦ elim (Result-cases (required_list schema)) [
      | inr (e, r) ↦ absurd (ground (arith, h, p, b, r))
      | inl (ks, r) ↦
          let (x, y) =
            then_check-inversion (check_required ks fs path)
              (with_table fs schema λ ps. validate_fields re fs schema ps path)
              (ground (arith, h, p, b, r)) in
          shaped re fs schema path (p ∙ ap ok (object_type t fs b)) ks r
            (check_required-All ks fs path x) (with_table-ok fs schema _ y)
    ]
  ]
]
