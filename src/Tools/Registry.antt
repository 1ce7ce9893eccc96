-- ===== src/Tools/Registry.antt =====
-- `ToolRegistry` of tools/registry.py: registration, and the guarded execution of one call and of a
-- batch. What an executor does, the observer, the clock and `re` are arguments.
pub mod Registration
pub mod Ordering
pub mod Normalize
pub mod Execution
pub mod Batch
mod Tests
use astraship.Base.{
  ℕ, ◌+◌, ◌-◌, String, ◌≡◌, Bool, true, false, not, ◌&&◌, ◌||◌, Option, none, some, List, [], ◌∷◌,
  ◌++◌, map, str_eq, ltb, leb, ◌==◌, if◌then◌else◌, exists, every,
}
use astraship.Base.Int.{ℤ, pos, leb_ℤ}
use astraship.Base.Text.{is_nonempty, str_leb}
use astraship.Errors.{
  ErrorClass, Message, lit, text, repr, int, Error, Result, ok, err, raise, raise_if, raise_f,
  ◌>>=◌, ◌>>◌, is_exception, value_error, type_error, tool_registration, tool_call, timeout_error,
  unicode_error,
}
use astraship.Value.{Value, null, str, obj, Fields, end, field}
use astraship.Value.Json.{Json}
use astraship.Tools.Schema.Node.{Regex}
use astraship.Tools.Schema.Check.{validate_arguments}
use astraship.Tools.Types.{ToolContext, ToolDefinition, ToolCall, ToolError, ToolResult}
use Normalize.{normalize_json}

-- `default_timeout` counts the units of the clock.
pub record Registry : Type 0 where
  pub default_timeout : ℤ
  pub max_concurrency : ℤ
  pub definitions : List ToolDefinition

unfoldable pub make_registry : ℤ → ℤ → Result Registry
make_registry default_timeout max_concurrency = do
  raise_if (leb_ℤ default_timeout (pos 0)) value_error "default_timeout must be greater than zero"
  raise_if (leb_ℤ max_concurrency (pos 0)) value_error "max_concurrency must be greater than zero"
  ok (record {
    default_timeout = default_timeout;
    max_concurrency = max_concurrency;
    definitions = [];
  })

-- `self._definitions.get(name)`
unfoldable pub find_definition : String → List ToolDefinition → Option ToolDefinition
find_definition name [] = none
find_definition name (d ∷ ds) = if str_eq d.name name then some d else find_definition name ds

unfoldable pub register : Registry → ToolDefinition → Result Registry
unfolding find_definition
register r d = elim (find_definition d.name r.definitions) [
  | some old ↦
      raise_f tool_registration (lit "tool " ∷ repr d.name ∷ lit " is already registered" ∷ [])
  | none ↦ ok (record r { definitions = r.definitions ++ d ∷ [] })
]

-- `sorted(..., key=lambda item: item.name)`, which is stable.
unfoldable pub insert_sorted : ToolDefinition → List ToolDefinition → List ToolDefinition
insert_sorted d [] = d ∷ []
insert_sorted d (e ∷ es) = if str_leb d.name e.name then d ∷ e ∷ es else e ∷ insert_sorted d es

unfoldable pub sort_by_name : List ToolDefinition → List ToolDefinition
unfolding insert_sorted
sort_by_name [] = []
sort_by_name (d ∷ ds) = insert_sorted d (sort_by_name ds)

pub schema_of : ToolDefinition → Value
schema_of d = obj (
    field "name" (str d.name)
      (field "description" (str d.description) (field "parameters" (obj d.parameters) end)))

unfoldable pub schemas : Registry → List Value
unfolding sort_by_name schema_of
schemas r = map schema_of (sort_by_name r.definitions)

-- What an awaited executor does: it returns, or it raises, with `str(exc)` and the name of the
-- class. The expiry of `asyncio.timeout` is a TimeoutError too.
pub data Outcome : Type 0 where
  returns : Value → Outcome
  raises : ErrorClass → String → String → Outcome

pub record World : Type 0 where
  pub re : Regex
  pub json : Json
  pub recursion_limit : ℕ
  pub executor : String → Fields → ToolContext → Outcome
  -- `time.monotonic()` at the start of a call and at its end
  pub started : ToolCall → ℕ
  pub finished : ToolCall → ℕ
  -- the observer, if there is one: it returns, or it raises
  pub observer : Option (ToolResult → Option Error)

module _ (w : World) where
  -- `_elapsed_ms`: `max(0.0, ...)`
  elapsed_ms : ToolCall → ℕ
  elapsed_ms call = w.finished call - w.started call

  -- `_error`
  pub error_result : ToolCall → String → Message → ToolResult
  unfolding elapsed_ms
  error_result call code message = record {
    call_id = call.call_id;
    name = call.name;
    output = null;
    error = some (record { code = code; message = message });
    is_error = true;
    elapsed_ms = elapsed_ms call;
  }

  success_result : ToolCall → Value → ToolResult
  unfolding elapsed_ms
  success_result call output = record {
    call_id = call.call_id;
    name = call.name;
    output = output;
    error = none;
    is_error = false;
    elapsed_ms = elapsed_ms call;
  }

  abbrev pub not_found : ToolCall → ToolResult
  not_found call =
      error_result call "tool_not_found"
        (lit "tool " ∷ repr call.name ∷ lit " is not registered" ∷ [])

  abbrev pub invalid_result : ToolCall → ToolResult
  invalid_result call =
      error_result call "invalid_result" (lit "tool returned a non-JSON-compatible result" ∷ [])

  -- `_observe`: what is no `Exception`, a cancellation, goes through.
  pub observe : ToolResult → Result ToolResult
  observe r = elim w.observer [
    | none ↦ ok r
    | some observer ↦ elim (observer r) [
      | none ↦ ok r
      | some e ↦ if is_exception e.class then ok r else err e
    ]
  ]

  -- `except (TypeError, ValueError)` around the normalization.
  pub normalized : ToolCall → Result Value → Result ToolResult
  unfolding error_result success_result
  normalized call (ok v) = ok (success_result call v)
  normalized call (err e) = elim e.class [
    | type_error ↦ ok (invalid_result call)
    -- a UnicodeError is a ValueError
    | value_error ↦ ok (invalid_result call)
    | unicode_error ↦ ok (invalid_result call)
    | _ ↦ err e
  ]

  -- The `try` statement of `execute`.
  pub settle : Registry → ToolCall → Outcome → Result ToolResult
  unfolding normalized
  settle r call (returns v) = normalized call (normalize_json w.json v)
  settle r call (raises timeout_error s n) = ok (
      error_result call "timeout"
        (lit "tool exceeded " ∷ int r.default_timeout ∷ lit " second timeout" ∷ []))
  settle r call (raises c s n) =
      if is_exception c
      then ok (error_result call "execution_error" (text (if is_nonempty s then s else n) ∷ []))
      else raise c s

  -- What follows the validation of the arguments.
  pub after_verdict :
      Registry → ToolCall → ToolContext → ToolDefinition → Option Message → Result ToolResult
  unfolding settle observe
  after_verdict r call context d (some m) = observe (error_result call "invalid_arguments" m)
  after_verdict r call context d none = do
    result ← settle r call (w.executor d.name call.arguments context)
    observe result

  pub execute_known : Registry → ToolCall → ToolContext → ToolDefinition → Result ToolResult
  unfolding after_verdict
  execute_known r call context d = do
    verdict ← validate_arguments w.re w.recursion_limit (obj d.parameters) (obj call.arguments)
    after_verdict r call context d verdict

  unfoldable pub execute : Registry → ToolCall → ToolContext → Result ToolResult
  unfolding find_definition execute_known observe
  execute r call context = elim (find_definition call.name r.definitions) [
    | none ↦ observe (not_found call)
    | some d ↦ execute_known r call context d
  ]
