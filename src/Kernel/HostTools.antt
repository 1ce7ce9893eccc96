-- ===== src/Kernel/HostTools.antt =====
-- kernel/host_tools.py: the registry's tools behind the wire contract of Felix.
pub mod Envelope
mod Tests
use astraship.Base.{
  String, Bool, true, false, not, ◌&&◌, Option, none, some, List, [], ◌∷◌, str_eq, every, exists,
  if◌then◌else◌,
}
use astraship.Base.Int.{pos}
use astraship.Base.Text.{is_blank}
use astraship.Errors.{
  Message, Result, ok, err, raise, raise_f, raise_if, ◌>>=◌, ◌>>◌, invalid_request_params, lit,
  text,
}
use astraship.Value.{
  Value, bool, int, str, obj, arr, of_list, Fields, end, field, get_or_null, keys,
}
use astraship.Tools.Types.{ToolContext, ToolCall, make_call, ToolError, ToolResult}
use astraship.Tools.Registry.{Registry, World, schemas, execute}

pub record HostToolAdapter : Type 0 where
  pub registry : Registry
  pub context : ToolContext

-- `__init__` and `capability`
abbrev pub capability : HostToolAdapter → Value
capability a = obj (
    field "hostTools"
      (obj (field "version" (int (pos 1)) (field "tools" (arr (of_list (schemas a.registry))) end)))
      end)

-- `_EXECUTE_FIELDS`
abbrev pub execute_fields : List String
execute_fields = "sessionId" ∷ "callId" ∷ "name" ∷ "arguments" ∷ []

abbrev is_elem : List String → String → Bool
is_elem ss s = exists (λ t. str_eq t s) ss

-- `set(params) == _EXECUTE_FIELDS`
unfoldable pub has_execute_fields : Fields → Bool
has_execute_fields fs =
    every (is_elem execute_fields) (keys fs) && every (is_elem (keys fs)) execute_fields

-- `_non_empty_string`
unfoldable pub non_empty_string : Value → String → Result String
non_empty_string (str s) name =
    if is_blank s
    then raise_f invalid_request_params
        (lit "tool/execute " ∷ text name ∷ lit " must be a non-empty string" ∷ [])
    else ok s
non_empty_string v name =
    raise_f invalid_request_params
      (lit "tool/execute " ∷ text name ∷ lit " must be a non-empty string" ∷ [])

unfoldable pub required_arguments : Value → Result Fields
required_arguments (obj fs) = ok fs
required_arguments v = raise invalid_request_params "tool/execute arguments must be an object"

-- `metadata["sessionId"] = session_id`
unfoldable pub with_session : String → List (String × String) → List (String × String)
with_session s [] = ("sessionId", s) ∷ []
with_session s ((k, v) ∷ rest) =
    if str_eq k "sessionId" then (k, s) ∷ rest else (k, v) ∷ with_session s rest

-- The `error` of the wire form. `render` makes the text of a message.
abbrev pub wire_error : (Message → String) → Option ToolError → Fields
wire_error render none = end
wire_error render (some e) =
    field "error" (obj (field "code" (str e.code) (field "message" (str (render e.message)) end)))
      end

abbrev pub wire_result : (Message → String) → ToolResult → Fields
wire_result render r = field "callId" (str r.call_id) (
    field "name" (str r.name) (
      field "isError" (bool r.is_error) (
        field "output" r.output
          (field "elapsedMs" (int (pos r.elapsed_ms)) (wire_error render r.error)))))

module _ (w : World) (render : Message → String) (resolve : String → String)
    (a : HostToolAdapter) where
  -- The execution of a call for a session.
  unfoldable pub execute_for : String → ToolCall → Result Fields
  unfolding with_session
  execute_for session_id call = do
    result ← execute w a.registry call (record {
      workspace = resolve a.context.workspace;
      metadata = with_session session_id a.context.metadata;
    })
    ok (wire_result render result)

  unfoldable pub handle_fields : Fields → Result Fields
  unfolding has_execute_fields non_empty_string required_arguments
  handle_fields fs = do
    raise_if (not (has_execute_fields fs)) invalid_request_params
        "tool/execute params require only sessionId, callId, name, and arguments"
    session_id ← non_empty_string (get_or_null fs "sessionId") "sessionId"
    call_id ← non_empty_string (get_or_null fs "callId") "callId"
    name ← non_empty_string (get_or_null fs "name") "name"
    arguments ← required_arguments (get_or_null fs "arguments")
    call ← make_call (str call_id) (str name) (obj arguments)
    execute_for session_id call

  -- `handle`
  unfoldable pub handle : Value → Result Fields
  unfolding handle_fields
  handle (obj fs) = handle_fields fs
  handle v = raise invalid_request_params "tool/execute params must be an object"
