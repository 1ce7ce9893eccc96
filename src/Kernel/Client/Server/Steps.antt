-- ===== src/Kernel/Client/Server/Steps.antt =====
-- The tasks that answer the requests of Felix, in any interleaving (kernel/client.py).
use astraship.Base.{
  ℕ, String, true, false, Option, none, some, List, [], ◌∷◌, ◌++◌, ◌==◌, is_some, if◌then◌else◌,
}
use astraship.Errors.{Error}
use astraship.Value.{Value}
use astraship.Kernel.Protocol.{RequestId}
use astraship.Kernel.Client.{
  same_id, cancelled, raised, Outcome, Phase, created, executing, executed, waiting, draining,
  ended, Task, Notice, Writer, task, notice, Client, handle_task_failure,
}
use astraship.Kernel.Client.Server.{
  World, not_running, begin, resume, set_phase, dispatch_server_request, write_response, drained,
  server_task_done, cancel_server_request,
}

-- A request or a cancellation is read; a task begins, its handler ends, it resumes, it gets the
-- lock, `drain` ends, its done callback runs; the same for the tasks that refuse a duplicate; the
-- client begins to close, and a task is cancelled then.
pub data Event : Type 0 where
  requested : RequestId → String → Event
  cancels : Value → Event
  begins resumes writes reaps kills : RequestId → Event
  finishes : RequestId → Outcome → Event
  drains : RequestId → Option Error → Event
  notice_writes notice_reaps notice_kills : ℕ → Event
  notice_drains : ℕ → Option Error → Event
  closes : Event

-- The lock without this task or notice.
abbrev pub released : Writer → Option Writer → Option Writer
released (task i) (some (task j)) = if same_id i j then none else some (task j)
released (notice n) (some (notice m)) = if n == m then none else some (notice m)
released x l = l

abbrev pub release_lock : Writer → Client → Client
release_lock x c = record c { write_lock = released x c.write_lock }

abbrev pub killed : Phase → Phase
killed draining = ended true cancelled
killed (ended wrote ending) = ended wrote ending
killed p = ended false cancelled

-- Each of these is about a task in a phase, and changes nothing in the other phases.
module _ (w : World) where
  unfoldable pub begin_task : RequestId → Task → Phase → Client → Client
  begin_task i t created c = set_phase w i t (begin w c i t.method) c
  begin_task i t p c = c

  unfoldable pub finish_task : RequestId → Outcome → Task → Phase → Client → Client
  finish_task i o t executing c = set_phase w i t (executed o) c
  finish_task i o t p c = c

  unfoldable pub resume_task : RequestId → Task → Phase → Client → Client
  resume_task i t (executed o) c = set_phase w i t (resume w c i o) c
  resume_task i t p c = c

  unfoldable pub write_task : RequestId → Task → Phase → Client → Client
  write_task i t (waiting final line) c = write_response w i t final line c
  write_task i t p c = c

  unfoldable pub drain_task : RequestId → Option Error → Task → Phase → Client → Client
  drain_task i r t draining c = release_lock (task i) (set_phase w i t (drained w r) c)
  drain_task i r t p c = c

  unfoldable pub reap_task : RequestId → Task → Phase → Client → Client
  reap_task i t (ended wrote ending) c = server_task_done w i ending c
  reap_task i t p c = c

  unfoldable pub kill_task : RequestId → Task → Phase → Client → Client
  kill_task i t p c = if c.closed then release_lock (task i) (set_phase w i t (killed p) c) else c

  -- What happens to the task of a request, if there is one.
  abbrev pub on_task : RequestId → (Task → Phase → Client → Client) → Client → Client
  on_task i f c = elim (c.server_tasks i) [ none ↦ c | some t ↦ f t t.phase c ]

  abbrev pub set_notice : ℕ → Option Notice → Client → Client
  set_notice n x c = record c { response_tasks = λ m. if m == n then x else c.response_tasks m }

  abbrev pub notice_phase : ℕ → Notice → Phase → Client → Client
  notice_phase n x p = set_notice n (some (record x { phase = p }))

  unfoldable pub sent_by_notice : ℕ → Notice → String → Client → Client
  sent_by_notice n x line c = record c {
    write_lock = some (notice n);
    sent =
        c.sent
        ++ record {
          request_id = x.request_id;
          by_task = false;
          was_cancelled = c.cancelled_requests x.request_id;
          line = line;
        }
          ∷ [];
  }

  unfoldable pub write_notice : ℕ → Notice → Phase → Client → Client
  unfolding sent_by_notice
  write_notice n x (waiting final line) c =
      if is_some c.write_lock
      then c
      else if c.closed
      then notice_phase n x (ended false (raised not_running)) c
      else notice_phase n x draining (sent_by_notice n x line c)
  write_notice n x p c = c

  unfoldable pub drain_notice : ℕ → Option Error → Notice → Phase → Client → Client
  drain_notice n r x draining c = release_lock (notice n) (notice_phase n x (drained w r) c)
  drain_notice n r x p c = c

  -- `_response_task_done`
  unfoldable pub reap_notice : ℕ → Notice → Phase → Client → Client
  unfolding handle_task_failure
  reap_notice n x (ended wrote (raised e)) c = handle_task_failure e (set_notice n none c)
  reap_notice n x (ended wrote ending) c = set_notice n none c
  reap_notice n x p c = c

  unfoldable pub kill_notice : ℕ → Notice → Phase → Client → Client
  kill_notice n x p c =
      if c.closed then release_lock (notice n) (notice_phase n x (killed p) c) else c

  abbrev pub on_notice : ℕ → (Notice → Phase → Client → Client) → Client → Client
  on_notice n f c = elim (c.response_tasks n) [ none ↦ c | some x ↦ f x x.phase c ]

  unfoldable pub step : Client → Event → Client
  unfolding begin_task finish_task resume_task write_task drain_task reap_task kill_task
      write_notice drain_notice reap_notice kill_notice
  step c (requested i method) = dispatch_server_request w i method c
  step c (cancels params) = cancel_server_request w params c
  step c (begins i) = on_task i (begin_task i) c
  step c (finishes i o) = on_task i (finish_task i o) c
  step c (resumes i) = on_task i (resume_task i) c
  step c (writes i) = on_task i (write_task i) c
  step c (drains i r) = on_task i (drain_task i r) c
  step c (reaps i) = on_task i (reap_task i) c
  step c (kills i) = on_task i (kill_task i) c
  step c (notice_writes n) = on_notice n (write_notice n) c
  step c (notice_drains n r) = on_notice n (drain_notice n r) c
  step c (notice_reaps n) = on_notice n (reap_notice n) c
  step c (notice_kills n) = on_notice n (kill_notice n) c
  step c closes = record c { closed = true }

  unfoldable pub run : Client → List Event → Client
  unfolding step
  run c [] = c
  run c (e ∷ es) = run (step c e) es
