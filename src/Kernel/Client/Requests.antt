-- ===== src/Kernel/Client/Requests.antt =====
-- The requests of the client to Felix: `_request`, the responses that `_read_stdout` takes, and the
-- failures of the transport (kernel/client.py). Between two awaits each coroutine is atomic; such a
-- stretch is one event. The client is between the start of its process and the end of `close`, so
-- that the test of `_process` at the head of `_request` passes. How a write ends and when the timeout is over are arguments of the events.
pub mod Correlation
pub mod Endings
mod Tests
use astraship.Base.{
  ℕ, suc, String, Bool, true, false, ◌&&◌, Option, none, some, List, [], ◌∷◌, ◌++◌, ◌==◌, is_some,
  if◌then◌else◌,
}
use astraship.Base.Int.{pos}
use astraship.Errors.{
  Error, Message, Result, ok, err, kernel_process, kernel_remote, kernel_timeout, timeout_error,
  cancelled_error, lit, text, int,
}
use astraship.Value.{Value}
use astraship.Value.Json.{Json}
use astraship.Kernel.Protocol.{RequestId, int_id, RemoteError, encode_request}
use astraship.Kernel.Client.{
  same_id, put, Future, unresolved, resolved, failed, Client, new_client, set_failure, fail_pending,
  as_transport_error,
}

-- Where the coroutine of a `_request` stands: at `_write`, at `asyncio.wait`, or done.
pub data Progress : Type 0 where
  writing waiting : Progress
  over : Result Value → Progress

pub record Call : Type 0 where
  pub method : String
  pub progress : Progress

-- A response that was read.
pub record Received : Type 0 where
  pub request_id : RequestId
  pub result : Value
  pub error : Option RemoteError

-- The client, the coroutines by the number of their request, the responses read so far, and whether
-- `_process_task` is done.
pub record System : Type 0 where
  pub client : Client
  pub calls : ℕ → Option Call
  pub received : List Received
  pub process_done : Bool

pub data Event : Type 0 where
  -- `_request` up to its write
  calls : String → Value → Event
  -- the write ends; the wait is over; the timeout is over, with the end of the process if there was one;
  -- the caller is cancelled
  written : ℕ → Option Error → Option Message → Event
  wakes : ℕ → Event
  times_out : ℕ → Option Message → Event
  cancels : ℕ → Event
  -- a response is read; `_read_stdout` or the process fails
  responds : Received → Event
  stdout_fails : Error → Event
  exits : Message → Event

abbrev pub id_of : ℕ → RequestId
id_of n = int_id (pos n)

abbrev pub set_call : ℕ → Call → Progress → System → System
set_call n k p y = record y {
  calls = λ m. if n == m then some (record k { progress = p }) else y.calls m;
}

-- `self._pending.pop(request_id, None)`, and the end of the coroutine.
abbrev pub end_call : ℕ → Call → Result Value → System → System
end_call n k r y =
    let z = set_call n k (over r) y in
    record z { client = record y.client { pending = put (id_of n) false y.client.pending } }

-- A new entry of `_pending`, with its future, for the next ID.
abbrev pub opened : String → System → System
opened method y = record y {
  client = record y.client {
    pending = put (id_of y.client.next_id) true y.client.pending;
    futures = put (id_of y.client.next_id) (some unresolved) y.client.futures;
    next_id = suc y.client.next_id;
  };
  calls = λ m.
      if y.client.next_id == m
      then some (record { method = method; progress = writing })
      else y.calls m;
}

-- `encode_request` stands in the `try`.
unfoldable pub encoded : ℕ → String → Result String → System → System
encoded n method (ok line) y = y
encoded n method (err e) y = end_call n (record { method = method; progress = writing }) (err e) y

-- `_process_failure`, with the detail that it composes.
unfoldable pub process_failure : Message → Client → Client × Error
unfolding set_failure
process_failure detail c =
    let e : Error = record { class = kernel_process; message = detail } in
    elim c.failure [
      | none ↦ (set_failure e c, e)
      | some x ↦ elim x.class [ kernel_process ↦ (c, x) | _ ↦ (set_failure e c, e) ]
    ]

-- `except TimeoutError`
unfoldable pub time_out : ℕ → Call → Option Message → System → System
unfolding process_failure
time_out n k none y =
    end_call n k
      (err (record {
        class = kernel_timeout;
        message = lit "Felix request timed out: " ∷ text k.method ∷ [];
      }))
      y
time_out n k (some detail) y =
    let (c, e) = process_failure detail y.client in end_call n k (err e) (record y { client = c })

abbrev pub remote_error : RemoteError → Error
remote_error e = record {
  class = kernel_remote;
  message = lit "Felix JSON-RPC error " ∷ int e.code ∷ lit ": " ∷ text e.message ∷ [];
}

abbrev pub exited_error : Client → Error
exited_error c = elim c.failure [
  | none ↦ record {
    class = kernel_process;
    message = lit "Felix process exited before completing the request" ∷ [];
  }
  | some e ↦ e
]

-- What follows on `asyncio.wait`, by the future; nothing if neither the future nor the process is done.
unfoldable pub wake : ℕ → Call → Option Future → System → System
wake n k (some (resolved v none)) y = set_call n k (over (ok v)) y
wake n k (some (resolved v (some e))) y = set_call n k (over (err (remote_error e))) y
wake n k (some (failed e)) y = end_call n k (err e) y
wake n k f y = if y.process_done then end_call n k (err (exited_error y.client)) y else y

-- The futures with the answer at this ID, if its request waits for it.
abbrev pub answered : Value → Option RemoteError → Option Future → Option Future
answered v x (some unresolved) = some (resolved v x)
answered v x f = f

-- `_read_stdout` with a `Response`.
unfoldable pub respond : Received → System → System
respond r y =
    if y.client.pending r.request_id
    then record y {
      client = record y.client {
        pending = put r.request_id false y.client.pending;
        futures =
            put r.request_id (answered r.result r.error (y.client.futures r.request_id))
              y.client.futures;
      };
      received = y.received ++ r ∷ [];
    }
    else record y { received = y.received ++ r ∷ [] }

-- The end of `_read_stdout`, and `_watch_process`.
unfoldable pub transport_failure : Error → Client → Client
unfolding set_failure fail_pending
transport_failure e c = fail_pending e (set_failure e c)

unfoldable pub process_exit : Message → Client → Client
unfolding set_failure fail_pending
process_exit detail c =
    if c.closed
    then c
    else let d = set_failure (record { class = kernel_process; message = detail }) c in
      fail_pending (exited_error d) d

abbrev pub on_call : ℕ → (Call → System → System) → System → System
on_call n f y = elim (y.calls n) [ none ↦ y | some k ↦ f k y ]

unfoldable pub end_write : ℕ → Option Error → Option Message → Call → Progress → System → System
unfolding time_out
end_write n none d k writing y = set_call n k waiting y
end_write n (some e) d k writing y = elim e.class [
  | timeout_error ↦ time_out n k d y
  | _ ↦ end_call n k (err e) y
]
end_write n r d k p y = y

unfoldable pub wake_call : ℕ → Call → Progress → System → System
unfolding wake
wake_call n k waiting y = wake n k (y.client.futures (id_of n)) y
wake_call n k p y = y

-- The timeout counts only where neither the future nor the process is done.
unfoldable pub time_out_call : ℕ → Option Message → Call → Progress → System → System
unfolding time_out
time_out_call n d k waiting y = elim (y.client.futures (id_of n)) [
  | some unresolved ↦ if y.process_done then y else time_out n k d y
  | _ ↦ y
]
time_out_call n d k p y = y

-- A CancelledError passes the handlers by: the entry of `_pending` stays.
unfoldable pub cancel_call : ℕ → Call → Progress → System → System
cancel_call n k (over r) y = y
cancel_call n k p y = set_call n k (over (err (record { class = cancelled_error; message = [] }))) y

unfoldable pub step : Json → System → Event → System
unfolding encoded end_write wake_call time_out_call cancel_call respond transport_failure
    process_exit
step json y (calls method params) =
    encoded y.client.next_id method
      (encode_request json (Value.int (pos y.client.next_id)) method params) (opened method y)
step json y (written n r d) = on_call n (λ k. end_write n r d k k.progress) y
step json y (wakes n) = on_call n (λ k. wake_call n k k.progress) y
step json y (times_out n d) = on_call n (λ k. time_out_call n d k k.progress) y
step json y (cancels n) = on_call n (λ k. cancel_call n k k.progress) y
step json y (responds r) = respond r y
step json y (stdout_fails e) = record y {
  client = transport_failure (as_transport_error e) y.client;
}
step json y (exits detail) = record y { client = process_exit detail y.client; process_done = true }

unfoldable pub run : Json → System → List Event → System
unfolding step
run json y [] = y
run json y (e ∷ es) = run json (step json y e) es

unfoldable pub start : System
unfolding new_client
start = record { client = new_client; calls = λ n. none; received = []; process_done = false }
