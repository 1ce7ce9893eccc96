-- ===== src/Kernel/Client/Replies.antt =====
-- How many responses the requests of Felix get (kernel/client.py).
pub mod Owing
pub mod Account
pub mod Balance
use astraship.Base.{
  ℕ, suc, ◌+◌, ◌≤◌, ◌≡◌, refl, sym, ap, subst, inl, inr, Bool, true, false, ◌&&◌, Option, none,
  some, List, [], ◌∷◌, ◌++◌, arith, is_some, if◌then◌else◌, length, Bool-cases, Option-cases,
}
use astraship.Errors.{Error}
use astraship.Kernel.Protocol.{RequestId}
use astraship.Kernel.Client.{
  same_id, returned, cancelled, raised, Phase, draining, ended, Task, Sent, Client, new_client,
}
use astraship.Kernel.Client.Server.{World}
use astraship.Kernel.Client.Server.Steps.{Event, requested, reaps, step}

-- How often the ID stands there.
abbrev pub count : RequestId → List RequestId → ℕ
count i [] = 0
count i (j ∷ js) = if same_id j i then suc (count i js) else count i js

-- The lines that tasks have written for the ID.
abbrev pub answers : RequestId → List Sent → ℕ
answers i [] = 0
answers i (s ∷ ss) =
    if s.by_task && same_id s.request_id i then suc (answers i ss) else answers i ss

-- 1 for a task that has not written its line, unless it has returned: then it never will.
abbrev pub owed : Phase → ℕ
owed draining = 0
owed (ended true ending) = 0
owed (ended false returned) = 0
owed p = 1

abbrev pub owes : Option Task → ℕ
owes none = 0
owes (some t) = owed t.phase

-- A request gets a task unless one with its ID has one.
abbrev pub taken_on : Client → Event → List RequestId
taken_on c (requested i m) = if is_some (c.server_tasks i) then [] else i ∷ []
taken_on c e = []

-- A task that is reaped without having written, since it raised or was cancelled.
abbrev pub unanswered : RequestId → Option Task → List RequestId
unanswered i none = []
unanswered i (some t) = elim t.phase [
  | ended false (raised e) ↦ i ∷ []
  | ended false cancelled ↦ i ∷ []
  | _ ↦ []
]

abbrev pub gives_up : Client → Event → List RequestId
gives_up c (reaps i) = unanswered i (c.server_tasks i)
gives_up c e = []

-- The client, the requests that got a task, and those whose task raised or was cancelled without
-- having written a line.
pub record System : Type 0 where
  pub client : Client
  pub accepted : List RequestId
  pub silent : List RequestId

abbrev pub start : System
start = record { client = new_client; accepted = []; silent = [] }

abbrev pub advance : World → System → Event → System
advance w y e = record {
  client = step w y.client e;
  accepted = y.accepted ++ taken_on y.client e;
  silent = y.silent ++ gives_up y.client e;
}

unfoldable pub run_all : World → System → List Event → System
run_all w y [] = y
run_all w y (e ∷ es) = run_all w (advance w y e) es

-- The responses that are written or due.
abbrev pub due : RequestId → Client → ℕ
due i c = answers i c.sent + owes (c.server_tasks i)
