-- ===== src/Kernel/Client/Server.antt =====
-- The requests of Felix to the client: `_dispatch_server_request`, `_handle_server_request`,
-- `_cancel_server_request` and the writes of kernel/client.py. Between two awaits a task is atomic;
-- each such stretch is one event.
pub mod Steps
pub mod Cancellation
pub mod Honesty
mod Tests
use astraship.Base.{
  ℕ, suc, ◌-◌, String, Bool, true, false, not, ◌&&◌, Option, none, some, List, [], ◌∷◌, ◌++◌, ◌==◌,
  is_some, if◌then◌else◌,
}
use astraship.Base.Int.{ℤ, pos, negsuc}
use astraship.Errors.{
  ErrorClass, Error, Result, ok, err, kernel_state, cancelled_error, invalid_request_params,
  is_protocol_error, lit,
}
use astraship.Value.{Value, null, int, str, obj, get_or_null}
use astraship.Value.Json.{Json}
use astraship.Kernel.Protocol.{
  RequestId, int_id, str_id, id_value, encode_result_response, encode_error_response,
}
use astraship.Kernel.Client.{
  same_id, put, Ending, returned, cancelled, raised, Outcome, returns, raises, Phase, created,
  executing, executed, waiting, draining, ended, Task, Notice, Writer, task, notice, Sent, Client,
  handle_task_failure,
}

-- The module json, the handlers that are registered, and `str(exc)`.
pub record World : Type 0 where
  pub json : Json
  pub has_handler : String → Bool
  pub text_of : Error → String

-- JSON-RPC codes; `minus n` is -n for a positive n.
abbrev pub minus : ℕ → Value
minus n = int (negsuc (n - 1))

abbrev pub not_running : Error
not_running = record { class = kernel_state; message = lit "kernel process is not running" ∷ [] }

-- The phase of a task whose coroutine raises: a CancelledError makes it a cancelled task.
abbrev pub raised_phase : Bool → Error → Phase
raised_phase wrote e = elim e.class [
  | cancelled_error ↦ ended wrote cancelled
  | _ ↦ ended wrote (raised e)
]

module _ (w : World) where
  -- The line of a response with the code -32800.
  abbrev pub cancelled_line : RequestId → Result String
  cancelled_line i =
      encode_error_response w.json (id_value i) (minus 32800) (str "Request cancelled") null

  -- At the write lock, with this line.
  unfoldable pub to_lock : Bool → Result String → Phase
  to_lock final (ok line) = waiting final line
  to_lock final (err e) = raised_phase false e

  -- `_send_error`, up to the write lock.
  unfoldable pub send_error : RequestId → ℕ → String → Value → Bool → Phase
  unfolding to_lock
  send_error i code message info honor_cancellation =
      to_lock honor_cancellation
        (encode_error_response w.json (id_value i) (minus code) (str message) info)

  -- The start of `_handle_server_request`.
  unfoldable pub begin : Client → RequestId → String → Phase
  unfolding send_error
  begin c i method =
      if c.cancelled_requests i
      then send_error i 32800 "Request cancelled" null false
      else if w.has_handler method
      then executing
      else send_error i 32601 "Method not found" null true

  -- The `else` of the handler's `try`.
  unfoldable pub result_phase : RequestId → Result String → Phase
  unfolding send_error
  result_phase i (ok line) = waiting true line
  result_phase i (err e) =
      if is_protocol_error e.class
      then send_error i 32603 "Internal error" null true
      else raised_phase false e

  -- What `_handle_server_request` goes on to do when the handler has ended.
  unfoldable pub resume : Client → RequestId → Outcome → Phase
  unfolding send_error result_phase
  resume c i (returns v) = result_phase i (encode_result_response w.json (id_value i) v)
  resume c i (raises e) = elim e.class [
    | invalid_request_params ↦ send_error i 32602 "Invalid params" (str (w.text_of e)) true
    | cancelled_error ↦
        if c.closed
        then ended false cancelled
        else send_error i 32800 "Request cancelled" null false
    | _ ↦ send_error i 32603 "Internal error" null true
  ]

  abbrev pub set_phase : RequestId → Task → Phase → Client → Client
  set_phase i t p c = record c {
    server_tasks = put i (some (record t { phase = p })) c.server_tasks;
  }

  -- `_dispatch_server_request`
  unfoldable pub dispatch_server_request : RequestId → String → Client → Client
  unfolding send_error
  dispatch_server_request i method c =
      if is_some (c.server_tasks i)
      then record c {
        response_tasks = λ n.
            if n == c.next_notice
            then some
                (record { request_id = i; phase = send_error i 32600 "Invalid Request" null false })
            else c.response_tasks n;
        next_notice = suc c.next_notice;
      }
      else record c {
        server_tasks = put i (some (record { method = method; phase = created })) c.server_tasks;
      }

  -- The line that `_write` and `_write_final_response` send.
  unfoldable pub final_line : Client → RequestId → Bool → String → Result String
  final_line c i final line = if final && c.cancelled_requests i then cancelled_line i else ok line

  -- The log and the lock after a write.
  unfoldable pub sent_by_task : RequestId → String → Client → Client
  sent_by_task i line c = record c {
    write_lock = some (task i);
    sent =
        c.sent
        ++ record {
          request_id = i;
          by_task = true;
          was_cancelled = c.cancelled_requests i;
          line = line;
        }
          ∷ [];
  }

  unfoldable pub write_line : RequestId → Task → Result String → Client → Client
  unfolding sent_by_task
  write_line i t (ok line) c = set_phase i t draining (sent_by_task i line c)
  write_line i t (err e) c = set_phase i t (raised_phase false e) c

  -- A task at the write lock gets it. The lock is held until `drain` returns.
  unfoldable pub write_response : RequestId → Task → Bool → String → Client → Client
  unfolding write_line final_line
  write_response i t final line c =
      if is_some c.write_lock
      then c
      else if c.closed
      then set_phase i t (ended false (raised not_running)) c
      else write_line i t (final_line c i final line) c

  abbrev pub drained : Option Error → Phase
  drained none = ended true returned
  drained (some e) = raised_phase true e

  abbrev pub without_task : RequestId → Client → Client
  without_task i c = record c {
    server_tasks = put i none c.server_tasks;
    cancelled_requests = put i false c.cancelled_requests;
  }

  -- `_server_task_done`
  unfoldable pub server_task_done : RequestId → Ending → Client → Client
  unfolding handle_task_failure
  server_task_done i (raised e) c = handle_task_failure e (without_task i c)
  server_task_done i ending c = without_task i c

  -- `params.get("id")` of a cancel notification, where it is an ID.
  unfoldable pub cancel_target : Value → Option RequestId
  cancel_target (obj fs) = elim (get_or_null fs "id") [
    | str s ↦ some (str_id s)
    | int n ↦ some (int_id n)
    | _ ↦ none
  ]
  cancel_target v = none

  unfoldable pub mark_cancelled : RequestId → Task → Client → Client
  mark_cancelled i t c = elim t.phase [
    | ended wrote ending ↦ c
    | _ ↦ record c { cancelled_requests = put i true c.cancelled_requests }
  ]

  -- `_cancel_server_request`. What the cancelled handler does then is its own affair: it may end with
  -- any outcome.
  unfoldable pub cancel_server_request : Value → Client → Client
  unfolding mark_cancelled
  cancel_server_request params c = elim (cancel_target params) [
    | none ↦ c
    | some i ↦ elim (c.server_tasks i) [ none ↦ c | some t ↦ mark_cancelled i t c ]
  ]
