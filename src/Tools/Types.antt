-- ===== src/Tools/Types.antt =====
-- tools/types.py: the values of a tool execution, made by checked constructors.
use Prim.Native.Char.{code}
use astraship.Base.{ℕ, String, Bool, true, false, not, ◌&&◌, ◌||◌, Option, List, [], ◌∷◌, leb, ◌==◌}
use astraship.Base.Text.{is_blank, is_nonempty, str_length}
use astraship.Errors.{
  Message, Result, ok, raise, raise_if, ◌>>=◌, ◌>>◌, tool_registration, tool_call,
}
use astraship.Value.{Value, bool, str, obj, Fields, end, field}
use astraship.Tools.Schema.Node.{Regex, validate_schema}

is_name_char : ℕ → Bool
is_name_char c = (leb b'a' c && leb c b'z') || (leb b'0' c && leb c b'9') || c == b'_'

name_tail : String → Bool
unfolding is_name_char
name_tail String.[] = true
name_tail (String.◌∷◌ c s) = is_name_char (code c) && name_tail s

-- `_TOOL_NAME.fullmatch(s)`, for `[a-z][a-z0-9_]{0,63}`.
unfoldable pub is_tool_name : String → Bool
unfolding name_tail
is_tool_name String.[] = false
is_tool_name (String.◌∷◌ c s) =
    leb b'a' (code c) && leb (code c) b'z' && name_tail s && leb (str_length s) 63

pub record ToolContext : Type 0 where
  pub workspace : String
  pub metadata : List (String × String)

-- The dict of the metadata, if all its values are texts.
text_items : Fields → Result (List (String × String))
text_items end = ok []
text_items (field k (str s) fs) = do rest ← text_items fs; ok ((k, s) ∷ rest)
text_items (field k _ fs) =
    raise tool_call "tool context metadata must contain string keys and values"

-- `ToolContext.__post_init__`; `resolve` is `Path.resolve`.
unfoldable pub make_context : (String → String) → String → Fields → Result ToolContext
unfolding text_items
make_context resolve workspace metadata = do
  m ← text_items metadata
  ok (record { workspace = resolve workspace; metadata = m })

-- A definition's executor is looked up by its name: names are unique in a registry.
pub record ToolDefinition : Type 0 where
  pub name : String
  pub description : String
  pub parameters : Fields
  pub concurrency_safe : Bool

definition_name : Value → Result String
definition_name (str s) =
    raise_if (not (is_tool_name s)) tool_registration "tool name must match ^[a-z][a-z0-9_]{0,63}$"
    >> ok s
definition_name _ = raise tool_registration "tool name must match ^[a-z][a-z0-9_]{0,63}$"

definition_description : Value → Result String
definition_description (str s) =
    raise_if (is_blank s) tool_registration "tool description must be non-empty" >> ok s
definition_description _ = raise tool_registration "tool description must be non-empty"

definition_parameters : Regex → ℕ → Value → Result Fields
definition_parameters re n (obj fs) = validate_schema re n (obj fs) true >> ok fs
definition_parameters re n _ = raise tool_registration "tool parameters schema must be an object"

definition_safe : Value → Result Bool
definition_safe (bool b) = ok b
definition_safe _ = raise tool_registration "tool concurrency_safe must be boolean"

-- `ToolDefinition.__post_init__`
pub make_definition : Regex → ℕ → Value → Value → Value → Bool → Value → Result ToolDefinition
unfolding is_tool_name definition_name definition_description definition_parameters definition_safe
make_definition re n name description parameters callable concurrency_safe = do
  s ← definition_name name
  d ← definition_description description
  p ← definition_parameters re n parameters
  raise_if (not callable) tool_registration "tool execute must be callable"
  b ← definition_safe concurrency_safe
  ok (record { name = s; description = d; parameters = p; concurrency_safe = b })

pub record ToolCall : Type 0 where
  pub call_id : String
  pub name : String
  pub arguments : Fields

call_text : (String → Bool) → Value → String → Result String
call_text good (str s) m = raise_if (not (good s)) tool_call m >> ok s
call_text good _ m = raise tool_call m

call_arguments : Value → Result Fields
call_arguments (obj fs) = ok fs
call_arguments _ = raise tool_call "tool call arguments must be an object"

-- `ToolCall.__post_init__`
unfoldable pub make_call : Value → Value → Value → Result ToolCall
unfolding call_text call_arguments is_blank
make_call call_id name arguments = do
  i ← call_text (λ s. not (is_blank s)) call_id "tool call ID must be non-empty"
  s ← call_text is_nonempty name "tool call name must be non-empty"
  a ← call_arguments arguments
  ok (record { call_id = i; name = s; arguments = a })

pub record ToolError : Type 0 where
  pub code : String
  pub message : Message

-- The elapsed time is a number of milliseconds.
pub record ToolResult : Type 0 where
  pub call_id : String
  pub name : String
  pub output : Value
  pub error : Option ToolError
  pub is_error : Bool
  pub elapsed_ms : ℕ
