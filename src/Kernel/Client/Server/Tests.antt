-- ===== src/Kernel/Client/Server/Tests.antt =====
-- A request of Felix that is cancelled while its handler runs, and the theorems of the client at it.
use astraship.Base.{◌+◌, ◌≡◌, refl, true, none, List, [], ◌∷◌, str_eq}
use astraship.Base.Int.{pos}
use astraship.Errors.{cancelled_error}
use astraship.Value.{Value, int, str, obj, end, field, get}
use astraship.Value.Json.Sample.{codec, dumps_one}
use astraship.Kernel.Protocol.{RequestId, int_id, encode_error_response}
use astraship.Kernel.Client.{raises, new_client}
use astraship.Kernel.Client.Server.{
  World, begin, resume, send_error, minus, dispatch_server_request, write_response,
  server_task_done, cancel_server_request, final_line, cancel_target,
}
use astraship.Kernel.Client.Server.Steps.{
  Event, requested, cancels, begins, finishes, resumes, writes, drains, reaps, run,
}
use astraship.Kernel.Client.Server.Cancellation.{Inv}
use astraship.Kernel.Client.Server.Honesty.{run-Honest}
use astraship.Kernel.Client.Replies.{count, answers, owes, start, run_all}
use astraship.Kernel.Client.Replies.Balance.{run-answers_once}

abbrev request_id : RequestId
request_id = int_id (pos 4)

abbrev cancelled : Value
cancelled = obj (
    field "jsonrpc" (str "2.0") (
      field "id" (int (pos 4)) (
        field "error"
          (obj (field "code" (minus 32800) (field "message" (str "Request cancelled") end))) end)))

abbrev world : World
world = record {
  json = codec cancelled;
  has_handler = λ m. str_eq m "tool/execute";
  text_of = λ e. "failed";
}

-- The handler is cancelled while it runs, and the second request with the ID is refused.
abbrev events : List Event
events =
    requested request_id "tool/execute"
    ∷ begins request_id
    ∷ requested request_id "tool/execute"
    ∷ cancels (obj (field "id" (int (pos 4)) end))
    ∷ finishes request_id (raises (record { class = cancelled_error; message = [] }))
    ∷ resumes request_id
    ∷ writes request_id
    ∷ drains request_id none
    ∷ reaps request_id
    ∷ []

sent_cancelled :
    (run world new_client events).sent
    ≡ record { request_id = request_id; by_task = true; was_cancelled = true; line = "{}\n" } ∷ []
unfolding run new_client dispatch_server_request begin cancel_server_request resume send_error
    write_response final_line cancel_target server_task_done encode_error_response dumps_one get
sent_cancelled = refl

run-Honest_example : Inv world (run world new_client events)
run-Honest_example = run-Honest world events

run-answers_once_example :
    let y = run_all world start events in
    answers request_id y.client.sent
      + owes (y.client.server_tasks request_id)
      + count request_id y.silent
    ≡ count request_id y.accepted
run-answers_once_example = run-answers_once world events request_id
