-- ===== src/Tools/Schema/Conformance/Complete.antt =====
-- A value that conforms to a schema is accepted by `_validate_value` of tools/schema.py.
use astraship.Base.{ℕ, suc, ◌≡◌, refl, ◌↔◌, inl, inr, none, [], ◌∷◌, ◌++◌, arith, length}
use astraship.Errors.{Message, lit, nat, ok}
use astraship.Value.{
  Value, null, bool, int, float, str, arr, obj, finite, Items, Fields, end, items, get_or_null,
}
use astraship.Value.Numbers.{number_of}
use astraship.Tools.Schema.Keywords.{
  object, array, string, integer, number, boolean, null_type, type_name,
}
use astraship.Tools.Schema.Node.{Regex}
use astraship.Tools.Schema.Check.{matches_type, validate_value, validate_items, validate_fields}
use astraship.Tools.Schema.Conformance.{Conforms, EachItem, EachField}
use astraship.Tools.Schema.Conformance.Sound.{validate_value_sound, by_mapping}
use astraship.Tools.Schema.Conformance.Passing.{
  then_check-intro, typed-intro, IsType-key, Within-check_size, check_number-intro,
  check_string-intro, HasProperties-table, Requires-list, with_table-intro, IsOpen-forbids,
  All-check_required,
}

mutual
  unfolding validate_value matches_type type_name number_of

  pub validate_value_complete :
      (re : Regex) (v schema : Value) (path : Message)
      → Conforms re v schema
      → validate_value re v schema path ≡ ok none
  validate_value_complete re _ _ path (Conforms.an_object {fs} {s} {ps} {ks} t p r a e) =
      typed-intro (obj s) (obj fs) path _ object (IsType-key s object t) refl (
        rw (Requires-list s ks r) (
          then_check-intro _ _ (All-check_required ks fs path a) (
            with_table-intro fs s ps _ (HasProperties-table s ps p)
              (validate_fields_complete re fs s ps path e))))
  validate_value_complete re _ _ path (Conforms.an_empty_object {s} {ks} t r a) =
      typed-intro (obj s) (obj end) path _ object (IsType-key s object t) refl
        (rw (Requires-list s ks r) (then_check-intro _ _ (All-check_required ks end path a) refl))
  validate_value_complete re _ _ path (Conforms.an_array {vs} {s} t w e) =
      typed-intro (obj s) (arr vs) path _ array (IsType-key s array t) refl (
        then_check-intro _ _ (Within-check_size s "minItems" "maxItems" (length (items vs)) _ _ w)
          (validate_items_complete re vs s 0 path e))
  validate_value_complete re _ _ path (Conforms.a_string {t = x} {s} t a b c) =
      typed-intro (obj s) (str x) path _ string (IsType-key s string t) refl
        (check_string-intro re s x path a b c)
  validate_value_complete re _ _ path (Conforms.an_integer {n} {s} (inl t) f w) =
      typed-intro (obj s) (int n) path _ integer (IsType-key s integer t) refl
        (check_number-intro s (int n) (finite n 0) path refl f w)
  validate_value_complete re _ _ path (Conforms.an_integer {n} {s} (inr t) f w) =
      typed-intro (obj s) (int n) path _ number (IsType-key s number t) refl
        (check_number-intro s (int n) (finite n 0) path refl f w)
  validate_value_complete re _ _ path (Conforms.a_float {x} {s} t f w) =
      typed-intro (obj s) (float x) path _ number (IsType-key s number t) refl
        (check_number-intro s (float x) x path refl f w)
  validate_value_complete re _ _ path (Conforms.a_boolean {b} {s} t) =
      typed-intro (obj s) (bool b) path _ boolean (IsType-key s boolean t) refl refl
  validate_value_complete re _ _ path (Conforms.a_null {s} t) =
      typed-intro (obj s) null path _ null_type (IsType-key s null_type t) refl refl

  validate_items_complete :
      (re : Regex) (vs : Items) (s : Fields) (i : ℕ) (path : Message)
      → EachItem re s vs
      → validate_items re vs s i path ≡ ok none
  validate_items_complete re _ s i path EachItem.none_left = refl
  validate_items_complete re _ s i path
        (EachItem.next_item {v = v} {child = child} {vs = vs} g c e) =
      let here = validate_value_complete re v child (path ++ lit "[" ∷ nat i ∷ lit "]" ∷ []) c in
      let rest = validate_items_complete re vs s (suc i) path e in ground (arith, g, here, rest)

  validate_fields_complete :
      (re : Regex) (fs s ps : Fields) (path : Message)
      → EachField re s ps fs
      → validate_fields re fs s ps path ≡ ok none
  validate_fields_complete re _ s ps path EachField.no_field = refl
  validate_fields_complete re _ s ps path (EachField.known {k = k} {v = v} {fs = fs} b c e) = rw b (
      then_check-intro _ _ (validate_value_complete re v (get_or_null ps k) _ c)
        (validate_fields_complete re fs s ps path e))
  validate_fields_complete re _ s ps path (EachField.extra {k = k} {v = v} {fs = fs} b o e) =
      rw (b, IsOpen-forbids s o) (validate_fields_complete re fs s ps path e)

-- `_validate_value` accepts a value against a schema, with no error and no exception, exactly when
-- the value conforms to the schema as the relation describes it, at whatever path.
pub validate_value_iff :
    (re : Regex) (v schema : Value) (path : Message)
    → (validate_value re v schema path ≡ ok none) ↔ Conforms re v schema
validate_value_iff re v schema path = (
  by_mapping re v (λ s p h. validate_value_sound re v s p h) schema path,
  validate_value_complete re v schema path,
)
