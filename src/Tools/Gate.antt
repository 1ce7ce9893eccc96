-- ===== src/Tools/Gate.antt =====
-- `_ExecutionGate` of tools/registry.py: a fair shared/exclusive gate with a bounded shared width.
-- The code between two awaits is atomic, so each such stretch is one event of `step`: a coroutine
-- arrives and tests the condition, is woken and tests it again, is cancelled while it waits, or
-- leaves the block that it holds. A token is a fresh object: a number that is used once.
pub mod Exclusion
pub mod Fairness
pub mod Progress
mod Tests
use mathlib.Core.Option
use astraship.Base.{
  ℕ, zero, suc, ◌+◌, ◌-◌, Bool, true, false, not, ◌&&◌, Option, none, some, List, [], ◌∷◌, ◌++◌,
  ltb, ◌==◌, if◌then◌else◌, take, keep, every, exists,
}

-- An entry of `_waiting`.
pub record Waiter : Type 0 where
  pub token : ℕ
  pub shared : Bool

pub record Gate : Type 0 where
  pub shared_limit : ℕ
  pub waiting : List Waiter
  pub active_shared : ℕ
  pub active_exclusive : Bool

-- The index of the token among the waiting; `next` raises StopIteration where there is none.
pub position : ℕ → List Waiter → Option ℕ
position t [] = none
position t (w ∷ ws) = if w.token == t then some 0 else Option.map suc (position t ws)

may_enter : Gate → Bool → ℕ → Bool
may_enter g true i = ltb g.active_shared g.shared_limit && every (λ w. w.shared) (take i g.waiting)
may_enter g false i = i == 0 && g.active_shared == 0

-- `none` stands for the StopIteration.
pub can_enter : Gate → ℕ → Bool → Option Bool
unfolding position may_enter
can_enter g t shared =
    if g.active_exclusive
    then some false
    else Option.map (may_enter g shared) (position t g.waiting)

-- `[item for item in self._waiting if item[0] is not token]`
pub without : ℕ → List Waiter → List Waiter
without t ws = keep (λ w. not (w.token == t)) ws

-- `_acquire` before the condition, between it and the return, and under a cancellation.
pub enqueue : Gate → ℕ → Bool → Gate
enqueue g t shared = record g { waiting = g.waiting ++ record { token = t; shared = shared } ∷ [] }

pub enter : Gate → ℕ → Bool → Gate
unfolding without
enter g t true = record g { waiting = without t g.waiting; active_shared = g.active_shared + 1 }
enter g t false = record g { waiting = without t g.waiting; active_exclusive = true }

pub give_up : Gate → ℕ → Gate
unfolding without
give_up g t = record g { waiting = without t g.waiting }

-- `_release`. Subtraction stops at 0, where Python would go on to -1.
pub release : Gate → Bool → Gate
release g true = record g { active_shared = g.active_shared - 1 }
release g false = record g { active_exclusive = false }

-- The gate, the coroutines that sleep in its `_condition` and were not notified since, those inside
-- `hold`, and the next fresh token.
pub record System : Type 0 where
  pub gate : Gate
  pub sleeping : List Waiter
  pub holders : List Waiter
  pub next_token : ℕ

pub init : ℕ → System
init limit = record {
  gate = record { shared_limit = limit; waiting = []; active_shared = 0; active_exclusive = false };
  sleeping = [];
  holders = [];
  next_token = 0;
}

pub find : ℕ → List Waiter → Option Waiter
find t [] = none
find t (w ∷ ws) = if w.token == t then some w else find t ws

pub remove : ℕ → List Waiter → List Waiter
remove t [] = []
remove t (w ∷ ws) = if w.token == t then ws else w ∷ remove t ws

pub data Event : Type 0 where
  arrive : Bool → Event
  wake cancel leave : ℕ → Event

-- Does a coroutine sleep that has this token?
pub is_asleep : ℕ → List Waiter → Bool
is_asleep t ws = exists (λ w. w.token == t) ws

-- `notify_all`: nobody sleeps any more.
abbrev pub notify_all : System → System
notify_all s = record s { sleeping = [] }

-- The test of `wait_for`, by the coroutine of `w`: it enters and notifies the others, or sleeps.
pub try_enter : System → Waiter → System
unfolding can_enter enter
try_enter s w = elim (can_enter s.gate w.token w.shared) [
  | none ↦ s
  | some false ↦ record s { sleeping = w ∷ s.sleeping }
  | some true ↦
      notify_all (record s { gate = enter s.gate w.token w.shared; holders = w ∷ s.holders })
]

-- A new coroutine, with a fresh token, takes its place among the waiting.
pub queued : System → Bool → System
unfolding enqueue
queued s shared = record s {
  gate = enqueue s.gate s.next_token shared;
  next_token = suc s.next_token;
}

-- An event for a coroutine that is not there to have it changes nothing. A coroutine that sleeps is
-- not woken: it has to be notified first.
pub step : System → Event → System
unfolding find remove try_enter queued give_up release is_asleep
step s (arrive shared) =
    try_enter (queued s shared) (record { token = s.next_token; shared = shared })
step s (wake t) = elim (find t s.gate.waiting) [
  | none ↦ s
  | some w ↦ if is_asleep t s.sleeping then s else try_enter s w
]
step s (cancel t) = elim (find t s.gate.waiting) [
  | none ↦ s
  | some w ↦ notify_all (record s { gate = give_up s.gate t })
]
step s (leave t) = elim (find t s.holders) [
  | none ↦ s
  | some w ↦ notify_all (record s { gate = release s.gate w.shared; holders = remove t s.holders })
]

pub run : System → List Event → System
unfolding step
run s [] = s
run s (e ∷ es) = run (step s e) es
