-- ===== src/Tools/Schema/Depth.antt =====
-- The recursion of `_validate_schema_node` of tools/schema.py ends: it goes down the schema.
use astraship.Base.{
  ℕ, zero, suc, ◌≤◌, ◌<◌, String, ◌≡◌, refl, subst, inl, inr, none, some, [], ◌∷◌, ◌++◌, arith,
  str_eq, Bool-cases, Option-cases, if◌then◌else◌, ltb,
}
use astraship.Errors.{Message, lit, Result, ok, ◌>>◌, Result-cases}
use astraship.Value.{Value, obj, Fields, end, field, get, as_obj}
use astraship.Tools.Schema.Keywords.{
  SchemaType, object, array, string, integer, number, boolean, null_type, property_path,
}
use astraship.Tools.Schema.Node.{
  Regex, schema_type, properties_of, each_property, check_body, validate_mapping, validate_node,
  registration, at,
}

pub larger : ℕ → ℕ → ℕ
larger a b = if ltb a b then b else a

pub larger-left : (a b : ℕ) → a ≤ larger a b
unfolding larger
larger-left a b = ground arith

pub larger-right : (a b : ℕ) → b ≤ larger a b
unfolding larger
larger-right a b = ground arith

unfoldable mutual
  unfolding larger

  -- How deep objects are nested in a value.
  pub depth : Value → ℕ
  depth (obj fs) = suc (depth_fields fs)
  depth _ = 0

  pub depth_fields : Fields → ℕ
  depth_fields end = 0
  depth_fields (field k v fs) = larger (depth v) (depth_fields fs)

pub get-depth :
    (fs : Fields) (k : String) (v : Value) → get fs k ≡ some v → depth v ≤ depth_fields fs
unfolding get depth_fields
get-depth end k v h = absurd (cc)
get-depth (field j w fs) k v h = elim (Bool-cases (str_eq j k)) [
  | inl b ↦
      let same : w ≡ v = ground (arith, h, b) in
      subst (λ x. depth x ≤ larger (depth w) (depth_fields fs)) same
        (larger-left (depth w) (depth_fields fs))
  | inr b ↦
      omega
        (arith, get-depth fs k v (ground (arith, h, b)), larger-right (depth w) (depth_fields fs))
]

-- The two calls agree on what is less deep.
abbrev pub Call : Type 0
Call = Value → Message → Result (Unit {0})

abbrev Agree : ℕ → Call → Call → Type 0
Agree d f g = (v : Value) (path : Message) → depth v < d → f v path ≡ g v path

each_property-Agree :
    (d : ℕ) (f g : Call) (ps : Fields) (path : Message)
    → Agree d f g
    → depth_fields ps < d
    → each_property f ps path ≡ each_property g ps path
unfolding each_property depth_fields
each_property-Agree d f g end path a h = refl
each_property-Agree d f g (field k v ps) path a h =
    let here : f v (property_path path k) ≡ g v (property_path path k) =
      a v (property_path path k) (omega (arith, h, larger-left (depth v) (depth_fields ps))) in
    let rest =
      each_property-Agree d f g ps path a
        (omega (arith, h, larger-right (depth v) (depth_fields ps))) in
    λ i. here i >> rest i

pub properties_of-depth :
    (fs : Fields) (path : Message) (ps : Fields)
    → properties_of fs path ≡ ok ps
    → depth_fields ps ≤ depth_fields fs
unfolding properties_of depth
properties_of-depth fs path ps h = elim (Option-cases (get fs "properties")) [
  | inl g ↦
      let same : end ≡ ps = ground (arith, h, g) in
      subst (λ x. depth_fields x ≤ depth_fields fs) same (unfold depth_fields in omega arith)
  | inr (v, g) ↦ from v (get-depth fs "properties" v g) (rw (g, properties_of) at h)
]
  where
    from :
        (v : Value)
        → depth v ≤ depth_fields fs
        → (elim (as_obj v) [
          | none ↦ registration (at path ".properties must be an object")
          | some qs ↦ ok qs
        ])
          ≡ ok ps
        → depth_fields ps ≤ depth_fields fs
    from (obj qs) le e =
        let same : qs ≡ ps = ground (arith, e) in
        subst (λ x. depth_fields x ≤ depth_fields fs) same (omega (arith, le))
    from v le e = absurd (cc)

-- The calls on the children of a schema are calls on what is less deep.
check_body-Agree :
    (re : Regex) (f g : Call) (t : SchemaType) (fs : Fields) (path : Message)
    → Agree (suc (depth_fields fs)) f g
    → check_body re f t fs path ≡ check_body re g t fs path
unfolding check_body
check_body-Agree re f g object fs path a = elim (Result-cases (properties_of fs path)) [
  | inr (e, p) ↦ rw p refl
  | inl (ps, p) ↦
      let same =
        each_property-Agree (suc (depth_fields fs)) f g ps path a
          (omega (arith, properties_of-depth fs path ps p)) in
      rw (p, same) refl
]
check_body-Agree re f g array fs path a = elim (Option-cases (get fs "items")) [
  | inl n ↦ rw (n, check_body) refl
  | inr (v, n) ↦
      let same = a v (path ++ lit "[]" ∷ []) (omega (arith, get-depth fs "items" v n)) in
      rw (n, check_body, same) refl
]
check_body-Agree re f g string fs path a = refl
check_body-Agree re f g integer fs path a = refl
check_body-Agree re f g number fs path a = refl
check_body-Agree re f g boolean fs path a = refl
check_body-Agree re f g null_type fs path a = refl

validate_mapping-Agree :
    (re : Regex) (f g : Call) (fs : Fields) (path : Message)
    → Agree (suc (depth_fields fs)) f g
    → validate_mapping re f fs path ≡ validate_mapping re g fs path
unfolding validate_mapping
validate_mapping-Agree re f g fs path a = elim (Result-cases (schema_type fs path)) [
  | inr (e, p) ↦ rw p refl
  | inl (t, p) ↦ rw (p, check_body-Agree re f g t fs path a) refl
]

pub validate_node-Agree :
    (re : Regex) (n m : ℕ) (schema : Value) (path : Message)
    → depth schema < n
    → depth schema < m
    → validate_node re n schema path ≡ validate_node re m schema path
unfolding validate_node depth
validate_node-Agree re zero m schema path h k = absurd (omega (arith, h))
validate_node-Agree re (suc n) zero schema path h k = absurd (omega (arith, k))
validate_node-Agree re (suc n) (suc m) (obj fs) path h k =
    validate_mapping-Agree re (validate_node re n) (validate_node re m) fs path
      λ v p less. validate_node-Agree re n m v p (omega (arith, less, h)) (omega (arith, less, k))
validate_node-Agree re (suc n) (suc m) v path h k = refl
