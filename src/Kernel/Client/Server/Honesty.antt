-- ===== src/Kernel/Client/Server/Honesty.antt =====
-- What holds of cancelled requests in any interleaving (kernel/client.py).
use astraship.Base.{
  ℕ, ◌≡◌, subst, inl, inr, true, false, Option, none, some, List, [], ◌∷◌, ◌++◌, arith, is_some,
  All, Bool-cases, Option-cases,
}
use astraship.Errors.{Error}
use astraship.Kernel.Protocol.{RequestId}
use astraship.Kernel.Client.{
  returned, cancelled, raised, Outcome, Phase, created, executing, executed, waiting, draining,
  ended, Task, Notice, task, notice, Sent, Client, new_client,
}
use astraship.Kernel.Client.Server.{World, not_running, begin, resume, set_phase, drained}
use astraship.Kernel.Client.Server.Steps.{
  Event, requested, cancels, begins, resumes, writes, reaps, kills, finishes, drains, notice_writes,
  notice_reaps, notice_kills, notice_drains, closes, release_lock, killed, on_task, on_notice,
  set_notice, notice_phase, begin_task, finish_task, resume_task, write_task, drain_task, reap_task,
  kill_task, write_notice, sent_by_notice, drain_notice, reap_notice, kill_notice, step, run,
}
use astraship.Kernel.Client.Server.Cancellation.{
  IsPlain, PlainTask, IsHonest, Inv, set_phase-Inv, begin-IsPlain, resume-IsPlain,
  raised_phase-IsPlain, write_response-Inv, failure-Inv, lock-Inv, server_task_done-Inv,
  dispatch-Inv, cancel-Inv,
}

module _ (w : World) where
  task-Inv :
      (i : RequestId) (f : Task → Phase → Client → Client) (c : Client)
      → ((t : Task) → c.server_tasks i ≡ some t → Inv w (f t t.phase c))
      → Inv w c
      → Inv w (on_task w i f c)
  task-Inv i f c h v = elim (Option-cases (c.server_tasks i)) [
    | inl m ↦ subst (Inv w) {x = c} (ground (arith, m)) v
    | inr (t, m) ↦ subst (Inv w) {x = f t t.phase c} (ground (arith, m)) (h t m)
  ]

  notice-Inv :
      (n : ℕ) (f : Notice → Phase → Client → Client) (c : Client)
      → ((x : Notice) → Inv w (f x x.phase c))
      → Inv w c
      → Inv w (on_notice w n f c)
  notice-Inv n f c h v = elim (Option-cases (c.response_tasks n)) [
    | inl m ↦ subst (Inv w) {x = c} (ground (arith, m)) v
    | inr (x, m) ↦ subst (Inv w) {x = f x x.phase c} (ground (arith, m)) (h x)
  ]

  same-Inv : (c : Client) (n : ℕ) (x : Option Notice) → Inv w c → Inv w (set_notice w n x c)
  same-Inv c n x v = record { live = v.live; plain = v.plain; honest = v.honest }

  task_at :
      {i : RequestId} {c : Client} {t : Task}
      → Inv w c
      → c.server_tasks i ≡ some t
      → IsPlain w i t.phase
  task_at {i} v e = subst (PlainTask w i) e (v.plain i)

  begin_task-Inv :
      (i : RequestId) (t : Task) (p : Phase) (c : Client) → Inv w c → Inv w (begin_task w i t p c)
  unfolding begin_task
  begin_task-Inv i t created c v =
      set_phase-Inv w i t (begin w c i t.method) c v (begin-IsPlain w c i t.method)
  begin_task-Inv i t p c v = v

  finish_task-Inv :
      (i : RequestId) (o : Outcome) (t : Task) (p : Phase) (c : Client)
      → Inv w c
      → Inv w (finish_task w i o t p c)
  unfolding finish_task
  finish_task-Inv i o t executing c v = set_phase-Inv w i t (executed o) c v tt
  finish_task-Inv i o t p c v = v

  resume_task-Inv :
      (i : RequestId) (t : Task) (p : Phase) (c : Client) → Inv w c → Inv w (resume_task w i t p c)
  unfolding resume_task
  resume_task-Inv i t (executed o) c v =
      set_phase-Inv w i t (resume w c i o) c v (resume-IsPlain w c i o)
  resume_task-Inv i t p c v = v

  write_task-Inv :
      (i : RequestId) (t : Task) (p : Phase) (c : Client)
      → IsPlain w i p
      → Inv w c
      → Inv w (write_task w i t p c)
  unfolding write_task
  write_task-Inv i t (waiting final line) c h v = write_response-Inv w i t final line c v h
  write_task-Inv i t p c h v = v

  drained-IsPlain : (i : RequestId) (r : Option Error) → IsPlain w i (drained w r)
  drained-IsPlain i none = tt
  drained-IsPlain i (some e) = raised_phase-IsPlain w i true e

  drain_task-Inv :
      (i : RequestId) (r : Option Error) (t : Task) (p : Phase) (c : Client)
      → Inv w c
      → Inv w (drain_task w i r t p c)
  unfolding drain_task
  drain_task-Inv i r t draining c v =
      lock-Inv w (task i) _ (set_phase-Inv w i t (drained w r) c v (drained-IsPlain i r))
  drain_task-Inv i r t p c v = v

  reap_task-Inv :
      (i : RequestId) (t : Task) (p : Phase) (c : Client) → Inv w c → Inv w (reap_task w i t p c)
  unfolding reap_task
  reap_task-Inv i t (ended wrote ending) c v = server_task_done-Inv w i ending c v
  reap_task-Inv i t p c v = v

  killed-IsPlain : (i : RequestId) (p : Phase) → IsPlain w i (killed p)
  killed-IsPlain i (ended wrote ending) = tt
  killed-IsPlain i draining = tt
  killed-IsPlain i p = tt

  kill_task-Inv :
      (i : RequestId) (t : Task) (p : Phase) (c : Client) → Inv w c → Inv w (kill_task w i t p c)
  unfolding kill_task
  kill_task-Inv i t p c v = elim (Bool-cases c.closed) [
    | inr b ↦ subst (Inv w) {x = c} (ground (arith, b)) v
    | inl b ↦
        subst (Inv w) {x = release_lock (task i) (set_phase w i t (killed p) c)} (ground (arith, b))
          (lock-Inv w (task i) _ (set_phase-Inv w i t (killed p) c v (killed-IsPlain i p)))
  ]

  notice_phase-Inv :
      (n : ℕ) (x : Notice) (p : Phase) (c : Client) → Inv w c → Inv w (notice_phase w n x p c)
  notice_phase-Inv n x p c v = same-Inv c n (some (record x { phase = p })) v

  IsHonest-snoc :
      (xs : List Sent) (s : Sent)
      → All (IsHonest w) xs
      → IsHonest w s
      → All (IsHonest w) (xs ++ s ∷ [])
  IsHonest-snoc [] s h k = (k, tt)
  IsHonest-snoc (x ∷ xs) s h k = (h.0, IsHonest-snoc xs s h.1 k)

  write_notice-Inv :
      (n : ℕ) (x : Notice) (p : Phase) (c : Client) → Inv w c → Inv w (write_notice w n x p c)
  unfolding write_notice sent_by_notice
  write_notice-Inv n x (waiting final line) c v = elim (Bool-cases (is_some c.write_lock)) [
    | inl a ↦ subst (Inv w) {x = c} (ground (arith, a)) v
    | inr a ↦ elim (Bool-cases c.closed) [
      | inl b ↦
          subst (Inv w) {x = notice_phase w n x (ended false (raised not_running)) c}
            (ground (arith, a, b)) (notice_phase-Inv n x (ended false (raised not_running)) c v)
      | inr b ↦
          subst (Inv w) {x = notice_phase w n x draining (sent_by_notice w n x line c)}
            (ground (arith, a, b))
            (notice_phase-Inv n x draining _ (record {
              live = v.live;
              plain = v.plain;
              honest = IsHonest-snoc c.sent _ v.honest (λ t. absurd (cc));
            }))
    ]
  ]
  write_notice-Inv n x p c v = v

  drain_notice-Inv :
      (n : ℕ) (r : Option Error) (x : Notice) (p : Phase) (c : Client)
      → Inv w c
      → Inv w (drain_notice w n r x p c)
  unfolding drain_notice
  drain_notice-Inv n r x draining c v =
      lock-Inv w (notice n) _ (notice_phase-Inv n x (drained w r) c v)
  drain_notice-Inv n r x p c v = v

  reap_notice-Inv :
      (n : ℕ) (x : Notice) (p : Phase) (c : Client) → Inv w c → Inv w (reap_notice w n x p c)
  unfolding reap_notice
  reap_notice-Inv n x (ended wrote (raised e)) c v = failure-Inv w e _ (same-Inv c n none v)
  reap_notice-Inv n x (ended wrote returned) c v = same-Inv c n none v
  reap_notice-Inv n x (ended wrote cancelled) c v = same-Inv c n none v
  reap_notice-Inv n x p c v = v

  kill_notice-Inv :
      (n : ℕ) (x : Notice) (p : Phase) (c : Client) → Inv w c → Inv w (kill_notice w n x p c)
  unfolding kill_notice
  kill_notice-Inv n x p c v = elim (Bool-cases c.closed) [
    | inr b ↦ subst (Inv w) {x = c} (ground (arith, b)) v
    | inl b ↦
        subst (Inv w) {x = release_lock (notice n) (notice_phase w n x (killed p) c)}
          (ground (arith, b)) (lock-Inv w (notice n) _ (notice_phase-Inv n x (killed p) c v))
  ]

  step-Inv : (c : Client) (e : Event) → Inv w c → Inv w (step w c e)
  unfolding step
  step-Inv c (requested i m) v = dispatch-Inv w i m c v
  step-Inv c (cancels params) v = cancel-Inv w params c v
  step-Inv c (begins i) v = task-Inv i (begin_task w i) c (λ t e. begin_task-Inv i t t.phase c v) v
  step-Inv c (finishes i o) v =
      task-Inv i (finish_task w i o) c (λ t e. finish_task-Inv i o t t.phase c v) v
  step-Inv c (resumes i) v =
      task-Inv i (resume_task w i) c (λ t e. resume_task-Inv i t t.phase c v) v
  step-Inv c (writes i) v =
      task-Inv i (write_task w i) c (λ t e. write_task-Inv i t t.phase c (task_at v e) v) v
  step-Inv c (drains i r) v =
      task-Inv i (drain_task w i r) c (λ t e. drain_task-Inv i r t t.phase c v) v
  step-Inv c (reaps i) v = task-Inv i (reap_task w i) c (λ t e. reap_task-Inv i t t.phase c v) v
  step-Inv c (kills i) v = task-Inv i (kill_task w i) c (λ t e. kill_task-Inv i t t.phase c v) v
  step-Inv c (notice_writes n) v =
      notice-Inv n (write_notice w n) c (λ x. write_notice-Inv n x x.phase c v) v
  step-Inv c (notice_drains n r) v =
      notice-Inv n (drain_notice w n r) c (λ x. drain_notice-Inv n r x x.phase c v) v
  step-Inv c (notice_reaps n) v =
      notice-Inv n (reap_notice w n) c (λ x. reap_notice-Inv n x x.phase c v) v
  step-Inv c (notice_kills n) v =
      notice-Inv n (kill_notice w n) c (λ x. kill_notice-Inv n x x.phase c v) v
  step-Inv c closes v = record { live = v.live; plain = v.plain; honest = v.honest }

  run-Inv : (c : Client) (es : List Event) → Inv w c → Inv w (run w c es)
  unfolding run
  run-Inv c [] v = v
  run-Inv c (e ∷ es) v = run-Inv (step w c e) es (step-Inv c e v)

  -- In any interleaving, from a client that has just started: each line that a task wrote while its
  -- request was cancelled is the encoded error -32800 with the request's ID; and only a request whose
  -- task is there counts as cancelled, so that a later request with the same ID does not.
  pub run-Honest : (es : List Event) → Inv w (run w new_client es)
  unfolding new_client
  run-Honest es =
      run-Inv new_client es (record { live = λ i h. absurd (cc); plain = λ i. tt; honest = tt })
