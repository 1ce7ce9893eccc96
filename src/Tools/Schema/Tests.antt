-- ===== src/Tools/Schema/Tests.antt =====
-- Runs of the validation of a schema, and an instance of its termination (tools/schema.py).
use astraship.Base.{none, ◌∷◌, ◌↔◌, ℕ, ◌<◌, ◌≡◌, refl, true, false, arith}
use astraship.Errors.{Result, ok, raise, recursion_error}
use astraship.Base.{[]}
use astraship.Value.{Value, arr, of_list, int, str, obj, end, field, get}
use astraship.Tools.Schema.Node.{Regex, validate_schema}
use astraship.Base.Int.{pos}
use astraship.Tools.Schema.Check.{validate_value}
use astraship.Tools.Schema.Conformance.{Conforms}
use astraship.Tools.Schema.Conformance.Complete.{validate_value_iff}
use astraship.Tools.Schema.Depth.{depth}
use astraship.Tools.Schema.Termination.{is_graceful, validate_schema-terminates}

abbrev re : Regex
re = record { compiles = λ p. true; search = λ p s. true }

-- A list of lists of texts.
abbrev schema : Value
schema = obj (
    field "type" (str "array") (
      field "items"
        (obj
          (field "type" (str "array") (field "items" (obj (field "type" (str "string") end)) end)))
        end))

abbrev raised : Result (Unit {0})
raised = raise recursion_error "maximum recursion depth exceeded"

limit_tests :
    (validate_schema re 2 schema false ≡ raised) × (validate_schema re 3 schema false ≡ ok tt)
unfolding validate_schema get
limit_tests = (refl, refl)

depth-schema : depth schema ≡ 3
unfolding depth
depth-schema = refl

deep_enough : (n : ℕ) → 3 < n → depth schema < n
deep_enough n h = rw depth-schema h

validate_schema-terminates_example :
    (validate_schema re 4 schema true ≡ validate_schema re 1000 schema true)
    × (is_graceful (validate_schema re 4 schema true) ≡ true)
validate_schema-terminates_example =
    validate_schema-terminates re 4 1000 schema true (deep_enough 4 (omega arith))
      (deep_enough 1000 (omega arith))

-- A list of at most two lists of texts.
abbrev short_lists : Value
short_lists = obj (
    field "type" (str "array") (
      field "maxItems" (int (pos 2)) (
        field "items"
          (obj (
            field "type" (str "array") (field "items" (obj (field "type" (str "string") end)) end)))
          end)))

abbrev lists : Value
lists = arr (of_list (arr (of_list (str "a" ∷ [])) ∷ arr (of_list []) ∷ []))

accepts_lists : validate_value re lists short_lists [] ≡ ok none
unfolding validate_value get
accepts_lists = refl

validate_value_iff_example :
    (validate_value re lists short_lists [] ≡ ok none) ↔ Conforms re lists short_lists
validate_value_iff_example = validate_value_iff re lists short_lists []

lists-Conforms : Conforms re lists short_lists
lists-Conforms = (validate_value_iff re lists short_lists []).0 accepts_lists
