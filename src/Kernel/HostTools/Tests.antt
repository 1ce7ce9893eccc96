-- ===== src/Kernel/HostTools/Tests.antt =====
-- A request for a tool that is not there, and the theorems of kernel/host_tools.py at it.
use astraship.Base.{◌≡◌, refl, ◌⊎◌, true, none, [], ◌∷◌}
use astraship.Base.Int.{pos}
use astraship.Base.Text.{is_blank}
use astraship.Errors.{Error, ok, err, invalid_request_params, lit}
use astraship.Value.{null, bool, int, str, obj, Fields, end, field, get}
use astraship.Value.Json.Sample.{codec}
use astraship.Tools.Types.{ToolContext, ToolCall, make_call}
use astraship.Tools.Registry.{World, returns, execute}
use astraship.Kernel.HostTools.{HostToolAdapter, execute_for, handle}
use astraship.Kernel.HostTools.Envelope.{Envelope, Executed, handle-Reply, handle-errors}

abbrev world : World
world = record {
  re = record { compiles = λ p. true; search = λ p s. true };
  json = codec null;
  recursion_limit = 100;
  executor = λ name arguments context. returns null;
  started = λ c. 3;
  finished = λ c. 5;
  observer = none;
}

abbrev adapter : HostToolAdapter
adapter = record {
  registry = record { default_timeout = pos 30; max_concurrency = pos 8; definitions = [] };
  context = record { workspace = "/work"; metadata = [] };
}

abbrev params : Fields
params =
    field "sessionId" (str "s")
      (field "callId" (str "c-1") (field "name" (str "look_up") (field "arguments" (obj end) end)))

abbrev wire : Fields
wire = field "callId" (str "c-1") (
    field "name" (str "look_up") (
      field "isError" (bool true) (
        field "output" null (
          field "elapsedMs" (int (pos 2)) (
            field "error"
              (obj (field "code" (str "tool_not_found") (field "message" (str "no tool") end)))
              end)))))

answered : handle world (λ m. "no tool") (λ p. p) adapter (obj params) ≡ ok wire
unfolding handle execute_for get make_call execute is_blank
answered = refl

handle-Reply_example :
    (fs : Fields) × (call : ToolCall) × (obj params ≡ obj fs)
    × (v : Envelope fs call) × Executed world
        (λ m. "no tool")
        (λ p. p)
        adapter
        v.session_id
        call
        wire
handle-Reply_example =
    handle-Reply world (λ m. "no tool") (λ p. p) adapter (obj params) wire answered

abbrev refusal : Error
refusal = record {
  class = invalid_request_params;
  message = lit "tool/execute params must be an object" ∷ [];
}

handle-errors_example :
    (refusal.class ≡ invalid_request_params)
    ⊎ ((fs : Fields) × (call : ToolCall) × (context : ToolContext) × (null ≡ obj fs)
        × Envelope fs call
        × (execute world adapter.registry call context ≡ err refusal))
unfolding handle
handle-errors_example = handle-errors world (λ m. "no tool") (λ p. p) adapter null refusal refl
