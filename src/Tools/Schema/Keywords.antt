-- ===== src/Tools/Schema/Keywords.antt =====
-- The schema types of tools/schema.py, their keywords, and the paths of the error messages.
use Prim.Native.Char.{code}
use astraship.Base.{
  ℕ, String, Bool, true, false, ◌&&◌, ◌||◌, Option, none, some, List, [], ◌∷◌, ◌++◌, str_eq, leb,
  ◌==◌, if◌then◌else◌, exists, keep, not,
}
use astraship.Base.Text.{str_leb}
use astraship.Errors.{Message, lit, text, repr}

-- `_TYPES`
pub data SchemaType : Type 0 where
  object array string integer number boolean null_type : SchemaType

unfoldable pub type_of : String → Option SchemaType
type_of s =
    if str_eq s "object"
    then some object
    else if str_eq s "array"
    then some array
    else if str_eq s "string"
    then some string
    else if str_eq s "integer"
    then some integer
    else if str_eq s "number"
    then some number
    else if str_eq s "boolean"
    then some boolean
    else if str_eq s "null"
    then some null_type
    else none

unfoldable pub type_name : SchemaType → String
type_name object = "object"
type_name array = "array"
type_name string = "string"
type_name integer = "integer"
type_name number = "number"
type_name boolean = "boolean"
type_name null_type = "null"

-- `_KEYWORDS`, with `_COMMON` written out.
unfoldable pub keywords : SchemaType → List String
keywords object = "type" ∷ "properties" ∷ "required" ∷ "additionalProperties" ∷ []
keywords array = "type" ∷ "items" ∷ "minItems" ∷ "maxItems" ∷ []
keywords string = "type" ∷ "minLength" ∷ "maxLength" ∷ "enum" ∷ "pattern" ∷ []
keywords integer = "type" ∷ "minimum" ∷ "maximum" ∷ []
keywords number = "type" ∷ "minimum" ∷ "maximum" ∷ []
keywords boolean = "type" ∷ []
keywords null_type = "type" ∷ []

-- `s in xs`
abbrev pub elem : String → List String → Bool
elem s xs = exists (λ x. str_eq x s) xs

-- `len(set(xs)) == len(xs)`
unfoldable pub is_unique : List String → Bool
is_unique [] = true
is_unique (x ∷ xs) = not (elem x xs) && is_unique xs

-- `set(xs) - set(ys)`, as a list that may repeat.
abbrev pub difference : List String → List String → List String
difference xs ys = keep (λ x. not (elem x ys)) xs

-- `sorted(xs)[0]`, for a list that is not empty.
unfoldable pub smallest : String → List String → String
smallest x [] = x
smallest x (y ∷ ys) = smallest (if str_leb x y then x else y) ys

is_letter : ℕ → Bool
is_letter c = (leb b'A' c && leb c b'Z') || (leb b'a' c && leb c b'z') || c == b'_'

is_digit : ℕ → Bool
is_digit c = leb b'0' c && leb c b'9'

identifier_tail : String → Bool
unfolding is_letter is_digit
identifier_tail String.[] = true
identifier_tail (String.◌∷◌ c s) = (is_letter (code c) || is_digit (code c)) && identifier_tail s

-- The regular expression `[A-Za-z_][A-Za-z0-9_]*`, matched in full.
unfoldable pub is_identifier : String → Bool
unfolding identifier_tail
is_identifier String.[] = false
is_identifier (String.◌∷◌ c s) = is_letter (code c) && identifier_tail s

unfoldable pub property_path : Message → String → Message
unfolding is_identifier
property_path path key =
    if is_identifier key
    then path ++ lit "." ∷ text key ∷ []
    else path ++ lit "[" ∷ repr key ∷ lit "]" ∷ []
