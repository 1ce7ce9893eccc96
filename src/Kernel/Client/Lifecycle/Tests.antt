-- ===== src/Kernel/Client/Lifecycle/Tests.antt =====
-- Runs of the life of a client, and an instance of each theorem on it (kernel/client.py).
use astraship.Base.{ℕ, ◌≡◌, refl, true, false, none, some, [], ◌∷◌}
use astraship.Base.Int.{pos}
use astraship.Errors.{ok}
use astraship.Value.{Value, int, str, obj, end, field, get, finite}
use astraship.Config.{KernelConfig, Machine, resolve_kernel_command}
use astraship.Kernel.Client.{new_client}
use astraship.Kernel.Client.Handshake.{parse_initialize_result, check_version}
use astraship.Kernel.Client.Lifecycle.{
  Owner, Child, Habits, Launch, start, require_initialized, terminate, kill, active,
}

abbrev config : KernelConfig
config = record {
  command = some ("felix" ∷ []);
  request_timeout = finite (pos 30) 0;
  shutdown_timeout = finite (pos 2) 0;
  stderr_tail_lines = pos 40;
}

abbrev machine : Machine
machine = record {
  environ = λ name. none;
  is_windows = false;
  split = λ posix s. ok [];
  which = λ name. none;
}

-- A process that only a kill ends.
abbrev stubborn : Habits
stubborn = record { ends_on_eof = false; ends_on_terminate = false }

abbrev fresh : Owner
fresh = record {
  capabilities = end;
  client = new_client;
  transport = [];
  started = false;
  child = none;
  initialize_result = none;
}

abbrev answer : ℕ → Value
answer version = obj (
    field "protocolVersion" (int (pos version)) (
      field "serverInfo" (obj (field "name" (str "felix") (field "version" (str "2") end)))
        (field "capabilities" (obj end) end)))

abbrev launch : ℕ → Launch
launch version = record {
  spawn = none;
  answer = ok (answer version);
  exited = false;
  stdout_task = active;
  stderr_task = active;
  process_task = active;
  tables = new_client;
}

abbrev reaped : Child
reaped = record {
  command = "felix" ∷ [];
  stdin_open = false;
  ended = true;
  signals = terminate ∷ kill ∷ [];
}

start_tests :
    ((start config machine stubborn (launch 2) fresh).0.child ≡ some reaped)
    × ((start config machine stubborn (launch 2) fresh).0.client.closed ≡ true)
    × (require_initialized (start config machine stubborn (launch 1) fresh).0 ≡ ok tt)
unfolding start resolve_kernel_command parse_initialize_result check_version get new_client
    require_initialized
start_tests = (refl, refl, refl)
