-- ===== src/Tools/Builtins/Accepted.antt =====
-- What the schema of `write_file` of tools/builtins.py guarantees to its executor.
use astraship.Base.{
  ℕ, String, ◌≡◌, refl, ◌∙◌, sym, ap, subst, inl, inr, Bool, true, false, none, some, List, [], ◌∷◌,
  ◌||◌, str_eq, arith, All, Option-cases,
}
use astraship.Base.Text.{is_nonempty}
use astraship.Errors.{ok, Result-cases, lit}
use astraship.Value.{Value, bool, str, obj, Fields, get, get_or_null, is_none, has_key, keys}
use astraship.Value.Numbers.{py_lt, float_lt, number_of}
use astraship.Tools.Schema.Node.{Regex, validate_schema}
use astraship.Tools.Schema.Keywords.{type_of}
use astraship.Tools.Schema.Check.{
  validate_value, validate_arguments, type_key, matches_type, check_string, check_size,
  property_table, required_list, forbids_additional, fields_of,
}
use astraship.Tools.Schema.Objects.{IsShaped, IsAccepted, validate_value-IsShaped}
use astraship.Tools.Schema.Conformance.{HasKey}
use astraship.Tools.Builtins.{Host}
use astraship.Tools.Builtins.Calls.{
  Limits, path_schema, of_type, write_parameters, write_properties, write_arguments, argument,
  to_text, truth,
}

text-Accepted :
    (re : Regex) (v : Value) → IsAccepted re v (of_type "string") → (s : String) × (v ≡ str s)
unfolding validate_value type_key type_of get matches_type
text-Accepted re (str s) h = (s, refl)
text-Accepted re v h = absurd (cc)

path-Accepted :
    (re : Regex) (v : Value)
    → IsAccepted re v path_schema
    → (s : String) × (v ≡ str s) × (is_nonempty s ≡ true)
unfolding validate_value type_key type_of get matches_type check_string check_size py_lt number_of
    float_lt
path-Accepted re (str String.[]) (path, h) = absurd (cc)
path-Accepted re (str (String.◌∷◌ c s)) h = (String.◌∷◌ c s, refl, refl)
path-Accepted re v h = absurd (cc)

flag-Accepted :
    (re : Regex) (v : Value) → IsAccepted re v (of_type "boolean") → (b : Bool) × (v ≡ bool b)
unfolding validate_value type_key type_of get matches_type
flag-Accepted re (bool b) h = (b, refl)
flag-Accepted re v h = absurd (cc)

write_schema : Fields
write_schema = fields_of write_parameters

-- A required property of the schema has an accepted value.
has_value :
    (re : Regex) (arguments : Fields)
    → IsShaped re arguments write_schema
    → (k : String) → has_key arguments k ≡ true
    → is_none (get write_properties k) ≡ false
    → (v : Value) × (get arguments k ≡ some v) × IsAccepted re v (get_or_null write_properties k)
unfolding write_schema property_table get
has_value re arguments s k h n =
    let same : write_properties ≡ s.properties = ground (arith, s.has_properties k h) in
    elim (Option-cases (get arguments k)) [
      | inl g ↦ absurd (ground (arith, h, g))
      | inr (v, g) ↦ (
        v,
        g,
        subst (λ ps. IsAccepted re v (get_or_null ps k)) (sym same)
            (s.values k v g (ap (λ ps. is_none (get ps k)) (sym same) ∙ n)),
      )
    ]

-- Is this the name of one of the three?
abbrev pub is_argument : String → Bool
is_argument k = str_eq "path" k || str_eq "content" k || str_eq "overwrite" k

only_arguments :
    (ks : List String)
    → All (λ k. is_none (get write_properties k) ≡ false) ks
    → All (λ k. is_argument k ≡ true) ks
unfolding get
only_arguments [] h = tt
only_arguments (k ∷ ks) (b, h) = (ground (arith, b), only_arguments ks h)

-- The three arguments, by their types, and no other.
pub record IsWrite (arguments : Fields) : Type 0 where
  pub path : String
  pub content : String
  pub overwrite : Bool
  pub has_path : get arguments "path" ≡ some (str path)
  pub path_is_nonempty : is_nonempty path ≡ true
  pub has_content : get arguments "content" ≡ some (str content)
  pub has_overwrite : get arguments "overwrite" ≡ some (bool overwrite)
  pub only : All (λ k. is_argument k ≡ true) (keys arguments)

IsShaped-IsWrite :
    (re : Regex) (arguments : Fields) → IsShaped re arguments write_schema → IsWrite arguments
unfolding write_schema required_list property_table forbids_additional get
IsShaped-IsWrite re arguments s =
    let listed : (str "path" ∷ str "content" ∷ str "overwrite" ∷ []) ≡ s.required =
      ground (arith, s.has_required) in
    let present = subst (All (HasKey arguments)) (sym listed) s.present in
    let same : write_properties ≡ s.properties =
      ground (arith, s.has_properties "path" present.0) in
    let (p, gp, ap') = has_value re arguments s "path" present.0 refl in
    let (c, gc, ac) = has_value re arguments s "content" present.1.0 refl in
    let (o, go, ao) = has_value re arguments s "overwrite" present.1.1.0 refl in
    let (path, ep, np) = path-Accepted re p ap' in
    let (content, ec) = text-Accepted re c ac in
    let (overwrite, eo) = flag-Accepted re o ao in
    record {
      path = path;
      content = content;
      overwrite = overwrite;
      has_path = gp ∙ ap some ep;
      path_is_nonempty = np;
      has_content = gc ∙ ap some ec;
      has_overwrite = go ∙ ap some eo;
      only = only_arguments (keys arguments) (
          subst (λ ps. All (λ k. is_none (get ps k) ≡ false) (keys arguments)) (sym same)
            (s.known refl));
    }

IsWrite-arguments :
    (h : Host) (limits : Limits) (arguments : Fields) (w : IsWrite arguments)
    → write_arguments h limits arguments ≡ ok (w.path, w.content, w.overwrite)
unfolding write_arguments argument to_text truth
IsWrite-arguments h limits arguments w = ground (arith, w.has_path, w.has_content, w.has_overwrite)

-- Arguments that the validation accepts for `write_file` are three: a path that is a text and not
-- empty, a text as the content, and a Boolean; there is no other. The executor calls `_write_file` with exactly these,
-- so that none of its conversions changes or refuses an argument.
pub write_arguments-IsWrite :
    (re : Regex) (n : ℕ) (h : Host) (limits : Limits) (arguments : Fields)
    → validate_arguments re n write_parameters (obj arguments) ≡ ok none
    → (w : IsWrite arguments) × (write_arguments h limits arguments
        ≡ ok (w.path, w.content, w.overwrite))
unfolding validate_arguments write_schema
write_arguments-IsWrite re n h limits arguments e =
    elim (Result-cases (validate_schema re n write_parameters false)) [
      | inr (x, v) ↦ absurd (ground (arith, e, v))
      | inl (done, v) ↦
          let shaped =
            validate_value-IsShaped re arguments write_schema (lit "$" ∷ [])
              (ground (arith, e, v)) in
          let w = IsShaped-IsWrite re arguments shaped in
          (w, IsWrite-arguments h limits arguments w)
    ]
