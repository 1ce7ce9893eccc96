-- ===== src/Tools/Registry/Tests.antt =====
-- A registry with a shared and an exclusive tool, runs of it, and its theorems at them
-- (tools/registry.py).
use mathlib.Core.List.{Permᴰ}
use astraship.Base.{
  String, ◌≡◌, refl, ◌⊎◌, true, false, none, some, [], ◌∷◌, arith, str_eq, if◌then◌else◌,
}
use astraship.Base.Int.{pos}
use astraship.Errors.{
  Error, Result, ok, err, raise, tool_call, type_error, value_error, other_error,
}
use astraship.Value.{Value, int, str, obj, Fields, end, field, get}
use astraship.Value.Json.{Json}
use astraship.Tools.Schema.Node.{Regex}
use astraship.Tools.Schema.Check.{validate_arguments}
use astraship.Tools.Types.{ToolContext, ToolDefinition, ToolCall, ToolResult}
use astraship.Tools.Registry.{
  Registry, World, Outcome, returns, raises, find_definition, register, execute,
}
use astraship.Tools.Registry.Normalize.{normalize_json}
use astraship.Tools.Registry.Execution.{Answers, execute-Answers, Settles, Reports, execute_total}
use astraship.Tools.Registry.Registration.{register_all}
use astraship.Tools.Registry.Ordering.{SameSchemas, register_all-SameSchemas}
use astraship.Tools.Registry.Batch.{execute_many}
use astraship.Tools.Registry.Batch.Order.{Covers, execute_many-Covers}
use astraship.Tools.Registry.Batch.Ids.{execute_many-twice}

-- A `json` that knows the value 7 only.
dumps_seven : Value → Result String
dumps_seven (int n) = ok "7"
dumps_seven _ = raise type_error "not serializable"

dumps_seven-errors :
    (v : Value) (e : Error)
    → dumps_seven v ≡ err e
    → (e.class ≡ type_error) ⊎ (e.class ≡ value_error)
unfolding dumps_seven
dumps_seven-errors (int n) e h = absurd (cc)
dumps_seven-errors v e h = ground arith

abbrev sevens : Json
sevens = record { dumps = λ nan v. dumps_seven v; loads = λ s. some (int (pos 7)) }

abbrev any_pattern : Regex
any_pattern = record { compiles = λ p. true; search = λ p s. true }

abbrev no_parameters : Fields
no_parameters = field "type" (str "object") end

abbrev look_up : ToolDefinition
look_up = record {
  name = "look_up";
  description = "Look something up";
  parameters = no_parameters;
  concurrency_safe = true;
}

abbrev store : ToolDefinition
store = record {
  name = "store";
  description = "Store something";
  parameters = no_parameters;
  concurrency_safe = false;
}

abbrev tools : Registry
tools = record {
  default_timeout = pos 30;
  max_concurrency = pos 8;
  definitions = look_up ∷ store ∷ [];
}

abbrev executor : String → Fields → ToolContext → Outcome
executor name arguments context =
    if str_eq name "store" then raises other_error "disk full" "OSError" else returns (int (pos 7))

abbrev world : World
world = record {
  re = any_pattern;
  json = sevens;
  recursion_limit = 100;
  executor = executor;
  started = λ c. 3;
  finished = λ c. 5;
  observer = none;
}

abbrev context : ToolContext
context = record { workspace = "/work"; metadata = [] }

abbrev call : String → String → ToolCall
call i name = record { call_id = i; name = name; arguments = end }

looked_up : ToolResult
looked_up = record {
  call_id = "a";
  name = "look_up";
  output = int (pos 7);
  error = none;
  is_error = false;
  elapsed_ms = 2;
}

execute_look_up : execute world tools (call "a" "look_up") context ≡ ok looked_up
unfolding execute looked_up validate_arguments normalize_json get dumps_seven
execute_look_up = refl

execute_many_phases :
    (execute_many world tools context
      (call "a" "look_up" ∷ call "b" "none" ∷ call "c" "store" ∷ call "d" "look_up" ∷ [])).phases
    ≡ (call "a" "look_up" ∷ call "b" "none" ∷ [])
      ∷ (call "c" "store" ∷ [])
      ∷ (call "d" "look_up" ∷ [])
      ∷ []
unfolding execute_many execute validate_arguments normalize_json get dumps_seven
execute_many_phases = refl

Answers-look_up : Answers (call "a" "look_up") looked_up
Answers-look_up = execute-Answers world tools (call "a" "look_up") context looked_up execute_look_up

settles : Settles world tools (call "a" "look_up") context
settles = record {
  not_cancelled = λ name x n e. ground (arith, e);
  observer_not_cancelled = λ o r e p q. absurd (cc);
  dumps_documented = λ v e h. dumps_seven-errors v e h;
}

execute_total_example :
    ((r : ToolResult) × (execute world tools (call "a" "look_up") context ≡ ok r)
      × Reports world tools (call "a" "look_up") context r)
    ⊎ ((d : ToolDefinition) × (e : Error) × (find_definition "look_up" tools.definitions ≡ some d)
        × (validate_arguments any_pattern 100 (obj d.parameters) (obj end) ≡ err e)
        × (execute world tools (call "a" "look_up") context ≡ err e))
execute_total_example = execute_total world tools (call "a" "look_up") context settles

execute_many-Covers_example :
    Covers tools
      (call "a" "look_up" ∷ call "c" "store" ∷ [])
      (execute_many world tools context (call "a" "look_up" ∷ call "c" "store" ∷ []))
execute_many-Covers_example =
    execute_many-Covers world tools context (call "a" "look_up" ∷ call "c" "store" ∷ [])

twice-look_up :
    let run =
      execute_many world tools context
        (call "a" "look_up" ∷ call "b" "store" ∷ call "a" "store" ∷ []) in
    (run.phases ≡ []) × (e : Error) × (run.results ≡ err e) × (e.class ≡ tool_call)
twice-look_up =
    execute_many-twice world tools context [] (call "a" "look_up") (call "b" "store" ∷ [])
      (call "a" "store") [] refl

abbrev no_tools : Registry
no_tools = record { default_timeout = pos 30; max_concurrency = pos 8; definitions = [] }

registers : register_all no_tools (look_up ∷ store ∷ []) ≡ ok tools
unfolding register_all register find_definition
registers = refl

register_all-SameSchemas_example : SameSchemas no_tools (store ∷ look_up ∷ []) tools
register_all-SameSchemas_example =
    register_all-SameSchemas no_tools tools (Permᴰ.swap refl refl) refl registers
