-- ===== src/Kernel/Client/Lifecycle.antt =====
-- The life of a client: `start`, `close` and the guards of kernel/client.py. Each is taken as one
-- step: what the machine, the process and Felix answer to it are arguments. How the tasks of the
-- client run in between is in the other modules on the client.
pub mod Reaping
mod Tests
use astraship.Base.{
  ℕ, String, Bool, true, false, not, ◌&&◌, ◌||◌, Option, none, some, List, [], ◌∷◌, is_some, map,
  if◌then◌else◌,
}
use astraship.Base.Int.{pos}
use astraship.Errors.{
  ErrorClass, Error, Message, lit, caught, Result, ok, err, raise, raise_if, is_exception, ◌>>=◌,
  ◌>>◌, kernel_state, kernel_process, kernel_protocol, os_error, file_not_found, file_exists,
  timeout_error, type_error, value_error, unicode_error, recursion_error,
}
use astraship.Value.{Value, int, str, obj, Fields, end, field}
use astraship.Value.Json.{Json}
use astraship.Config.{KernelConfig, Machine, resolve_kernel_command}
use astraship.Kernel.Client.{Client, new_client, fail_pending}
use astraship.Kernel.Client.Handshake.{
  InitializeResult, protocol_version, parse_initialize_result, check_version,
}

pub data Signal : Type 0 where
  terminate kill : Signal

-- `_process`: has its stdin been closed, has it ended, and what was sent to it.
pub record Child : Type 0 where
  pub command : List String
  pub stdin_open : Bool
  pub ended : Bool
  pub signals : List Signal

-- `_stdout_task`, `_stderr_task` and `_process_task`, from the start of the process on: does the task
-- run, has it ended by itself, or was it cancelled?
pub data Transport : Type 0 where
  active done cancelled : Transport

-- A client, with what `start` and `close` change besides the tables.
pub record Owner : Type 0 where
  pub capabilities : Fields
  pub client : Client
  pub transport : List Transport
  pub started : Bool
  pub child : Option Child
  pub initialize_result : Option InitializeResult

-- `_snapshot_capabilities`
snapshot_error : Error → Error
snapshot_error e = elim e.class [
  | type_error ↦ record {
    class = kernel_protocol;
    message = lit "capabilities must be JSON-compatible" ∷ [];
  }
  | value_error ↦ record {
    class = kernel_protocol;
    message = lit "capabilities must be JSON-compatible" ∷ [];
  }
  | unicode_error ↦ record {
    class = kernel_protocol;
    message = lit "capabilities must be JSON-compatible" ∷ [];
  }
  | recursion_error ↦ record {
    class = kernel_protocol;
    message = lit "capabilities must be JSON-compatible" ∷ [];
  }
  | _ ↦ e
]

loaded_capabilities : Option Value → Result Fields
loaded_capabilities (some (obj fs)) = ok fs
loaded_capabilities (some v) = raise kernel_protocol "capabilities must be a JSON object"
loaded_capabilities none = raise kernel_protocol "capabilities must be JSON-compatible"

encoded_capabilities : Json → Result String → Result Fields
unfolding snapshot_error loaded_capabilities
encoded_capabilities json (err e) = err (snapshot_error e)
encoded_capabilities json (ok s) = loaded_capabilities (json.loads s)

-- `None` and an empty mapping are the same here.
unfoldable pub snapshot_capabilities : Json → Fields → Result Fields
unfolding encoded_capabilities
snapshot_capabilities json capabilities =
    encoded_capabilities json (json.dumps false (obj capabilities))

-- `__init__`
unfoldable pub make_owner : Json → Fields → Result Owner
unfolding snapshot_capabilities
make_owner json capabilities = do
  fs ← snapshot_capabilities json capabilities
  ok (record {
    capabilities = fs;
    client = new_client;
    transport = [];
    started = false;
    child = none;
    initialize_result = none;
  })

-- Does the process end when its stdin is closed, and when it is terminated, each within the timeout?
pub record Habits : Type 0 where
  pub ends_on_eof : Bool
  pub ends_on_terminate : Bool

-- The part of `close` about the process. A killed process ends.
unfoldable pub reap : Habits → Child → Child
reap h c =
    if c.ended || h.ends_on_eof
    then record c { stdin_open = false; ended = true }
    else if h.ends_on_terminate
    then record c { stdin_open = false; ended = true; signals = terminate ∷ [] }
    else record c { stdin_open = false; ended = true; signals = terminate ∷ kill ∷ [] }

unfoldable pub reap_child : Habits → Option Child → Option Child
unfolding reap
reap_child h none = none
reap_child h (some c) = some (reap h c)

abbrev closed_error : Error
closed_error = record { class = kernel_process; message = lit "Felix kernel client closed" ∷ [] }

-- `self._failure or KernelProcessError(...)`
abbrev pub failure_on_close : Client → Error
failure_on_close c = elim c.failure [ none ↦ closed_error | some e ↦ e ]

-- The tasks are cancelled and awaited; their done callbacks take their IDs out of
-- `_cancelled_server_requests`, and then the tables are cleared.
unfoldable pub clear_tasks : Client → Client
clear_tasks c = record c {
  closed = true;
  server_tasks = λ i. none;
  response_tasks = λ n. none;
  cancelled_requests = λ i. c.cancelled_requests i && not (is_some (c.server_tasks i));
}

-- A transport task that is not done is cancelled; each is awaited.
unfoldable pub stop_transport : Transport → Transport
stop_transport active = cancelled
stop_transport t = t

-- `close`
unfoldable pub close : Habits → Owner → Owner
unfolding reap_child fail_pending clear_tasks stop_transport
close h o = if o.client.closed then o else record o {
  client = fail_pending (failure_on_close o.client) (clear_tasks o.client);
  child = reap_child h o.child;
  transport = map stop_transport o.transport;
}

-- `except OSError`, with its subclasses.
unfoldable pub is_os_error : ErrorClass → Bool
is_os_error os_error = true
is_os_error file_not_found = true
is_os_error file_exists = true
is_os_error timeout_error = true
is_os_error c = false

-- The `except` clauses of `start`. What is no `Exception` passes both.
unfoldable pub start_failed : Habits → Error → Owner → Owner × Result InitializeResult
unfolding is_os_error close
start_failed h e o =
    if is_os_error e.class
    then (
      close h o,
      err (record {
        class = kernel_process;
        message = lit "failed to start Felix: " ∷ caught ∷ [];
      }),
    )
    else if is_exception e.class
    then (close h o, err e)
    else (o, err e)

-- The check of the version, after the result is stored.
accept : Habits → Owner → InitializeResult → Result (Unit {0}) → Owner × Result InitializeResult
unfolding start_failed
accept h o r (ok u) = (o, ok r)
accept h o r (err e) = start_failed h e o

initialized : Habits → Owner → Result InitializeResult → Owner × Result InitializeResult
unfolding accept start_failed
initialized h o (err e) = start_failed h e o
initialized h o (ok r) = accept h (record o { initialize_result = some r }) r (check_version r)

-- What `create_subprocess_exec` raises, if it does, and what the request `initialize` does; whether
-- the process has ended by then, what the transport tasks have come to, and what they and the other
-- tasks have made of the tables of the client: Felix may send requests of its own, answer and exit.
pub record Launch : Type 0 where
  pub spawn : Option Error
  pub answer : Result Value
  pub exited : Bool
  pub stdout_task : Transport
  pub stderr_task : Transport
  pub process_task : Transport
  pub tables : Client

-- The client at the end of the handshake. A `close` in between is left out.
abbrev pub served : Launch → Owner → Client
served l o = record l.tables { closed = o.client.closed }

abbrev pub initialize_params : Owner → Value
initialize_params o = obj (
    field "protocolVersion" (int (pos protocol_version)) (
      field "clientInfo" (obj (field "name" (str "astraship") (field "version" (str "0.1.0") end)))
        (field "capabilities" (obj o.capabilities) end)))

launched : Habits → Launch → List String → Owner → Owner × Result InitializeResult
unfolding initialized start_failed
launched h l command o = elim l.spawn [
  | some e ↦ start_failed h e o
  | none ↦
      initialized h
        (record o {
          client = served l o;
          started = true;
          child =
              some
                (record { command = command; stdin_open = true; ended = l.exited; signals = [] });
          transport = l.stdout_task ∷ l.stderr_task ∷ l.process_task ∷ [];
        })
        (l.answer >>= parse_initialize_result)
]

resolved : Habits → Launch → Owner → Result (List String) → Owner × Result InitializeResult
unfolding launched
resolved h l o (err e) = (o, err e)
resolved h l o (ok command) = launched h l command o

-- `start`
unfoldable pub start :
    KernelConfig → Machine → Habits → Launch → Owner → Owner × Result InitializeResult
unfolding resolved
start config m h l o =
    if o.client.closed
    then (o, raise kernel_state "kernel client is closed")
    else if o.started
    then (o, raise kernel_state "kernel client is already started")
    else resolved h l o (resolve_kernel_command config m)

-- `_require_initialized`
unfoldable pub require_initialized : Owner → Result (Unit {0})
require_initialized o = do
  raise_if o.client.closed kernel_state "kernel client is closed"
  raise_if (not (o.started && is_some o.initialize_result)) kernel_state
      "kernel client is not initialized"

-- The property `initialize_result`
unfoldable pub get_initialize_result : Owner → Result InitializeResult
get_initialize_result o = elim o.initialize_result [
  | none ↦ raise kernel_state "kernel is not initialized"
  | some r ↦ ok r
]
