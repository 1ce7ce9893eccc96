-- ===== src/Tools/Schema/Objects/Tests.antt =====
-- An object that a schema accepts, and the theorem at it (tools/schema.py).
use astraship.Base.{◌≡◌, refl, true, false, none}
use astraship.Errors.{ok}
use astraship.Value.{bool, str, arr, of_list, obj, Fields, end, field, get}
use astraship.Base.{[], ◌∷◌}
use astraship.Tools.Schema.Node.{Regex}
use astraship.Tools.Schema.Check.{validate_value}
use astraship.Tools.Schema.Objects.{IsShaped, validate_value-IsShaped}

abbrev re : Regex
re = record { compiles = λ p. true; search = λ p s. true }

abbrev schema : Fields
schema = field "type" (str "object") (
    field "properties" (obj (field "path" (obj (field "type" (str "string") end)) end)) (
      field "required" (arr (of_list (str "path" ∷ [])))
        (field "additionalProperties" (bool false) end)))

abbrev arguments : Fields
arguments = field "path" (str "a.txt") end

accepted : validate_value re (obj arguments) (obj schema) [] ≡ ok none
unfolding validate_value get
accepted = refl

arguments-IsShaped : IsShaped re arguments schema
arguments-IsShaped = validate_value-IsShaped re arguments schema [] accepted
