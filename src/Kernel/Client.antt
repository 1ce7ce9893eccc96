-- ===== src/Kernel/Client.antt =====
-- kernel/client.py: the state of `FelixClient`, between the start of the process and its end. The
-- dicts that have a request ID as their key are functions; a task and the future that it waits for
-- are entries of them.
pub mod Server
pub mod Requests
pub mod Handshake
pub mod Lifecycle
pub mod Reader
pub mod Stderr
pub mod Replies
use astraship.Base.{
  ℕ, String, ◌≡◌, refl, ap, subst, inl, inr, Bool-cases, Option-cases, Bool, true, false, ◌&&◌,
  Option, none, some, str_eq, eq_iff, ◌==◌, arith, if◌then◌else◌, List, [], ◌∷◌,
}
use astraship.Base.Int.{ℤ, pos, negsuc}
use astraship.Errors.{Error, kernel_process, is_protocol_error, lit}
use astraship.Value.{Value}
use astraship.Kernel.Protocol.{RequestId, int_id, str_id, RemoteError}

-- `==` of two request IDs.
abbrev pub same_id : RequestId → RequestId → Bool
same_id (int_id (pos n)) (int_id (pos m)) = n == m
same_id (int_id (negsuc n)) (int_id (negsuc m)) = n == m
same_id (str_id s) (str_id t) = str_eq s t
same_id i j = false

pub same_id-eq : (i j : RequestId) → same_id i j ≡ true → i ≡ j
same_id-eq (int_id (pos n)) (int_id (pos m)) h = ground (arith, h)
same_id-eq (int_id (negsuc n)) (int_id (negsuc m)) h = ground (arith, h)
same_id-eq (str_id s) (str_id t) h = ap str_id ((eq_iff s t).0 h)
same_id-eq i j h = absurd (cc)

pub same_id_refl : (i : RequestId) → same_id i i ≡ true
same_id_refl (int_id (pos n)) = ground arith
same_id_refl (int_id (negsuc n)) = ground arith
same_id_refl (str_id s) = (eq_iff s s).1 refl

-- `d[i] = v`, and the deletion of a key.
abbrev pub put {ℓ} : {A : Type ℓ} → RequestId → A → (RequestId → A) → RequestId → A
put i v d = λ j. if same_id i j then v else d j

-- How a task has ended, as its done callback sees it.
pub data Ending : Type 0 where
  returned cancelled : Ending
  raised : Error → Ending

-- What a handler does in the end.
pub data Outcome : Type 0 where
  returns : Value → Outcome
  raises : Error → Outcome

-- Where `_handle_server_request` stands: not yet begun; at `await execution`; there, but with the
-- execution done; at the write lock with a line, which is final if a cancellation still replaces it;
-- at `drain`, with the line written; done, and whether it had written a line.
pub data Phase : Type 0 where
  created executing : Phase
  executed : Outcome → Phase
  waiting : Bool → String → Phase
  draining : Phase
  ended : Bool → Ending → Phase

-- An entry of `_server_tasks`, with the one of `_execution_tasks`.
pub record Task : Type 0 where
  pub method : String
  pub phase : Phase

-- An entry of `_response_tasks`.
pub record Notice : Type 0 where
  pub request_id : RequestId
  pub phase : Phase

-- What holds the write lock across a `drain`.
pub data Writer : Type 0 where
  task : RequestId → Writer
  notice : ℕ → Writer

-- A line that was written, who wrote it, and whether its request was cancelled then.
pub record Sent : Type 0 where
  pub request_id : RequestId
  pub by_task : Bool
  pub was_cancelled : Bool
  pub line : String

pub data Future : Type 0 where
  unresolved : Future
  resolved : Value → Option RemoteError → Future
  failed : Error → Future

pub record Client : Type 0 where
  -- `_pending`, and the futures by the request that waits for them
  pub pending : RequestId → Bool
  pub futures : RequestId → Option Future
  pub next_id : ℕ
  pub server_tasks : RequestId → Option Task
  pub cancelled_requests : RequestId → Bool
  pub response_tasks : ℕ → Option Notice
  pub next_notice : ℕ
  pub write_lock : Option Writer
  pub sent : List Sent
  pub closed : Bool
  pub failure : Option Error

-- `__init__`
unfoldable pub new_client : Client
new_client = record {
  pending = λ i. false;
  futures = λ i. none;
  next_id = 1;
  server_tasks = λ i. none;
  cancelled_requests = λ i. false;
  response_tasks = λ n. none;
  next_notice = 0;
  write_lock = none;
  sent = [];
  closed = false;
  failure = none;
}

-- `_set_failure`: the first failure stays.
unfoldable pub set_failure : Error → Client → Client
set_failure e c = elim c.failure [ none ↦ record c { failure = some e } | some x ↦ c ]

abbrev pub fail_future : Error → Option Future → Option Future
fail_future e (some unresolved) = some (failed e)
fail_future e f = f

-- `_fail_pending`
unfoldable pub fail_pending : Error → Client → Client
fail_pending e c = record c {
  futures = λ i. if c.pending i then fail_future e (c.futures i) else c.futures i;
  pending = λ i. false;
}

-- `KernelProcessError(str(failure))`, unless it is a protocol or a process error.
abbrev pub as_transport_error : Error → Error
as_transport_error e = if is_protocol_error e.class then e else elim e.class [
  | kernel_process ↦ e
  | _ ↦ record { class = kernel_process; message = e.message }
]

-- `_handle_server_task_failure`
unfoldable pub handle_task_failure : Error → Client → Client
unfolding set_failure fail_pending
handle_task_failure e c =
    if c.closed
    then c
    else fail_pending (as_transport_error e) (set_failure (as_transport_error e) c)

-- A property of every entry, kept by `put`.
pub put-All {ℓ} :
    {A : Type ℓ} (P : RequestId → A → Type 0) (i : RequestId) (v : A) (d : RequestId → A)
    → P i v
    → ((j : RequestId) → P j (d j))
    → (j : RequestId) → P j (put i v d j)
put-All P i v d p h j = elim (Bool-cases (same_id i j)) [
  | inl b ↦ rw b (subst (λ (k : RequestId). P k v) (same_id-eq i j b) p)
  | inr b ↦ rw b (h j)
]

-- A failure of a task changes the pending requests, their futures and the recorded failure only.
pub handle_task_failure-shape :
    (e : Error) (c : Client)
    → let d = handle_task_failure e c in
      d ≡ record c { pending = d.pending; futures = d.futures; failure = d.failure }
unfolding handle_task_failure set_failure fail_pending
handle_task_failure-shape e c = elim (Bool-cases c.closed) [
  | inl b ↦ rw b
  | inr b ↦ elim (Option-cases c.failure) [ inl n ↦ rw (b, n) | inr (x, n) ↦ rw (b, n) ]
]
