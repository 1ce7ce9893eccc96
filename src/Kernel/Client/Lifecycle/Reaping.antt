-- ===== src/Kernel/Client/Lifecycle/Reaping.antt =====
-- What `start` and `close` of kernel/client.py leave behind.
use astraship.Base.{String, ◌≡◌, true, false, Option, none, some, List, [], ◌∷◌, ℕ, Bool, every}
use astraship.Errors.{Error, ok, err, is_exception, kernel_process, lit}
use astraship.Config.{KernelConfig, Machine, resolve_kernel_command}
use astraship.Kernel.Protocol.{RequestId}
use astraship.Kernel.Client.{Client, Future, unresolved, resolved as with_response, failed}
use astraship.Kernel.Client.Handshake.{InitializeResult, check_version}
use astraship.Kernel.Client.Lifecycle.{
  Owner, Transport, active, Child, Habits, Launch, served, resolved, require_initialized,
}

-- No process of the client is left: there was none, or it has ended.
abbrev pub IsQuiet : Option Child → Type 0
IsQuiet none = Unit
IsQuiet (some c) = c.ended ≡ true

-- What becomes of the future of a request when it fails: one that waits gets the error.
abbrev pub failed_by : Error → Bool → Option Future → Option Future
failed_by e true (some unresolved) = some (failed e)
failed_by e pending f = f

-- The recorded failure, or that the client is closed.
abbrev pub closing_error : Option Error → Error
closing_error none = record {
  class = kernel_process;
  message = lit "Felix kernel client closed" ∷ [];
}
closing_error (some e) = e

abbrev pub is_over : Transport → Bool
is_over active = false
is_over t = true

-- This is what the closing of a client makes of it.
pub record IsClosed (before : Client) (o : Owner) : Type 0 where
  pub closed : o.client.closed ≡ true
  pub quiet : IsQuiet o.child
  -- no request is pending, and the futures of those that were have failed
  pub idle : (i : RequestId) → o.client.pending i ≡ false
  pub answered :
      (i : RequestId)
      → o.client.futures i
        ≡ failed_by (closing_error before.failure) (before.pending i) (before.futures i)
  -- no task is left: neither for a request of Felix, nor one that refuses, nor one of the transport
  pub no_tasks : (i : RequestId) → o.client.server_tasks i ≡ none
  pub no_notices : (n : ℕ) → o.client.response_tasks n ≡ none
  pub no_transport : every is_over o.transport ≡ true

-- A started client: its process was made with the command that was resolved, and it may be used. The
-- process may have ended by itself since.
pub record IsRunning (config : KernelConfig) (m : Machine) (o : Owner) (r : InitializeResult)
    : Type 0 where
  pub command : List String
  pub has_command : resolve_kernel_command config m ≡ ok command
  pub child : Child
  pub has_child : o.child ≡ some child
  pub spawned : (child.command ≡ command) × (child.stdin_open ≡ true) × (child.signals ≡ [])
  pub has_result : o.initialize_result ≡ some r
  pub supported : check_version r ≡ ok tt
  pub usable : require_initialized o ≡ ok tt

-- The client when `start` fails: as it was, or as the handshake has left it.
abbrev pub before_stop : Option Error → Launch → Owner → Client
before_stop (some e) l o = o.client
before_stop none l o = served l o

module _ (config : KernelConfig) (m : Machine) (h : Habits) (l : Launch) where
  -- What a `start` that raised leaves: the client as it was, where no command was resolved, or a
  -- closed one. A cancellation, which is no `Exception`, passes the handlers by.
  pub data IsStopped (o p : Owner) (x : Error) : Type 0 where
    unchanged : p ≡ o → resolve_kernel_command config m ≡ err x → IsStopped o p x
    closed : IsClosed (before_stop l.spawn l o) p → IsStopped o p x
    passed : is_exception x.class ≡ false → IsStopped o p x
