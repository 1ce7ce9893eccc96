-- ===== src/Kernel/Client/Replies/Account.antt =====
-- The responses that are due, before and after each event (kernel/client.py).
use astraship.Base.{
  ℕ, ◌+◌, String, ◌≡◌, refl, ◌∙◌, sym, ap, subst, inl, inr, true, false, Option, none, some, arith,
  Bool-cases, Option-cases,
}
use astraship.Errors.{Error}
use astraship.Value.{Value}
use astraship.Kernel.Protocol.{RequestId}
use astraship.Kernel.Client.{
  same_id, same_id-eq, put, Ending, returned, cancelled, raised, Outcome, Phase, created, executing,
  executed, waiting, draining, ended, Task, Notice, task, Client,
}
use astraship.Kernel.Client.Server.{
  World, begin, resume, set_phase, dispatch_server_request, drained, server_task_done, without_task,
  cancel_target, cancel_server_request, mark_cancelled,
}
use astraship.Kernel.Client.Server.Steps.{
  Event, requested, cancels, begins, resumes, writes, reaps, kills, finishes, drains, notice_writes,
  notice_reaps, notice_kills, notice_drains, closes, release_lock, killed, on_task, on_notice,
  set_notice, begin_task, finish_task, resume_task, write_task, drain_task, reap_task, kill_task,
  write_notice, sent_by_notice, drain_notice, reap_notice, kill_notice, step,
}
use astraship.Kernel.Client.Replies.{
  count, answers, owed, owes, taken_on, unanswered, gives_up, due,
}
use astraship.Kernel.Client.Replies.Owing.{
  answers-append, begin-owed, resume-owed, raised_phase-owed, due-set_phase, due-write_response,
  due-failure,
}

module _ (w : World) where
  begin_task-due :
      (j i : RequestId) (t : Task) (p : Phase) (c : Client)
      → c.server_tasks i ≡ some t
      → t.phase ≡ p
      → due j (begin_task w i t p c) ≡ due j c
  unfolding begin_task
  begin_task-due j i t created c e h =
      due-set_phase w j i t (begin w c i t.method) c e (begin-owed w c i t.method ∙ sym (ap owed h))
  begin_task-due j i t p c e h = refl

  finish_task-due :
      (j i : RequestId) (o : Outcome) (t : Task) (p : Phase) (c : Client)
      → c.server_tasks i ≡ some t
      → t.phase ≡ p
      → due j (finish_task w i o t p c) ≡ due j c
  unfolding finish_task
  finish_task-due j i o t executing c e h = due-set_phase w j i t (executed o) c e (sym (ap owed h))
  finish_task-due j i o t p c e h = refl

  resume_task-due :
      (j i : RequestId) (t : Task) (p : Phase) (c : Client)
      → c.server_tasks i ≡ some t
      → t.phase ≡ p
      → due j (resume_task w i t p c) ≡ due j c
  unfolding resume_task
  resume_task-due j i t (executed o) c e h =
      due-set_phase w j i t (resume w c i o) c e (resume-owed w c i o ∙ sym (ap owed h))
  resume_task-due j i t p c e h = refl

  write_task-due :
      (j i : RequestId) (t : Task) (p : Phase) (c : Client)
      → c.server_tasks i ≡ some t
      → t.phase ≡ p
      → due j (write_task w i t p c) ≡ due j c
  unfolding write_task
  write_task-due j i t (waiting final line) c e h =
      due-write_response w j i t final line c e (ap owed h)
  write_task-due j i t p c e h = refl

  drained-owed : (r : Option Error) → owed (drained w r) ≡ 0
  drained-owed none = refl
  drained-owed (some e) = raised_phase-owed w true e

  drain_task-due :
      (j i : RequestId) (r : Option Error) (t : Task) (p : Phase) (c : Client)
      → c.server_tasks i ≡ some t
      → t.phase ≡ p
      → due j (drain_task w i r t p c) ≡ due j c
  unfolding drain_task
  drain_task-due j i r t draining c e h =
      due-set_phase w j i t (drained w r) c e (drained-owed r ∙ sym (ap owed h))
  drain_task-due j i r t p c e h = refl

  killed-owed : (p : Phase) → owed (killed p) ≡ owed p
  killed-owed draining = refl
  killed-owed (ended wrote ending) = refl
  killed-owed p = refl

  kill_task-due :
      (j i : RequestId) (t : Task) (p : Phase) (c : Client)
      → c.server_tasks i ≡ some t
      → t.phase ≡ p
      → due j (kill_task w i t p c) ≡ due j c
  unfolding kill_task
  kill_task-due j i t p c e h = elim (Bool-cases c.closed) [
    | inl b ↦
        let q : kill_task w i t p c ≡ release_lock (task i) (set_phase w i t (killed p) c) =
          ground (arith, b) in
        ap (due j) q ∙ due-set_phase w j i t (killed p) c e (killed-owed p ∙ sym (ap owed h))
    | inr b ↦ let q : kill_task w i t p c ≡ c = ground (arith, b) in ap (due j) q
  ]

  server_task_done-due :
      (j i : RequestId) (x : Ending) (c : Client)
      → due j (server_task_done w i x c) ≡ answers j c.sent + owes (put i none c.server_tasks j)
  unfolding server_task_done
  server_task_done-due j i returned c = refl
  server_task_done-due j i cancelled c = refl
  server_task_done-due j i (raised e) c = due-failure w j e (without_task w i c)

  reap_task-due :
      (j i : RequestId) (t : Task) (p : Phase) (c : Client)
      → c.server_tasks i ≡ some t
      → t.phase ≡ p
      → due j (reap_task w i t p c) + count j (unanswered i (some t)) ≡ due j c
  unfolding reap_task
  reap_task-due j i t (ended wrote x) c e h = elim (Bool-cases (same_id i j)) [
    | inr b ↦ ground (arith, b, h, server_task_done-due j i x c)
    | inl b ↦
        let f : c.server_tasks j ≡ some t =
          subst (λ (k : RequestId). c.server_tasks k ≡ some t) (same_id-eq i j b) e in
        ground (arith, b, ap owes f, h, server_task_done-due j i x c)
  ]
  reap_task-due j i t p c e h = ground (arith, h)

  write_notice-due :
      (j : RequestId) (n : ℕ) (x : Notice) (p : Phase) (c : Client)
      → due j (write_notice w n x p c) ≡ due j c
  unfolding write_notice sent_by_notice
  write_notice-due j n x (waiting final line) c = ground (
    arith,
    answers-append j c.sent (record {
      request_id = x.request_id;
      by_task = false;
      was_cancelled = c.cancelled_requests x.request_id;
      line = line;
    }),
  )
  write_notice-due j n x p c = refl

  drain_notice-due :
      (j : RequestId) (n : ℕ) (r : Option Error) (x : Notice) (p : Phase) (c : Client)
      → due j (drain_notice w n r x p c) ≡ due j c
  unfolding drain_notice
  drain_notice-due j n r x draining c = refl
  drain_notice-due j n r x p c = refl

  reap_notice-due :
      (j : RequestId) (n : ℕ) (x : Notice) (p : Phase) (c : Client)
      → due j (reap_notice w n x p c) ≡ due j c
  unfolding reap_notice
  reap_notice-due j n x (ended wrote (raised e)) c = due-failure w j e (set_notice w n none c)
  reap_notice-due j n x (ended wrote ending) c = refl
  reap_notice-due j n x p c = refl

  kill_notice-due :
      (j : RequestId) (n : ℕ) (x : Notice) (p : Phase) (c : Client)
      → due j (kill_notice w n x p c) ≡ due j c
  unfolding kill_notice
  kill_notice-due j n x p c = ground arith

  on_task-due :
      (j i : RequestId) (f : Task → Phase → Client → Client) (c : Client)
      → ((t : Task) (p : Phase)
          → c.server_tasks i ≡ some t
          → t.phase ≡ p
          → due j (f t p c) ≡ due j c)
      → due j (on_task w i f c) ≡ due j c
  on_task-due j i f c h = elim (Option-cases (c.server_tasks i)) [
    | inl m ↦ let q : on_task w i f c ≡ c = ground (arith, m) in ap (due j) q
    | inr (t, m) ↦
        let q : on_task w i f c ≡ f t t.phase c = ground (arith, m) in
        ap (due j) q ∙ h t t.phase m refl
  ]

  on_notice-due :
      (j : RequestId) (n : ℕ) (f : Notice → Phase → Client → Client) (c : Client)
      → ((x : Notice) (p : Phase) → due j (f x p c) ≡ due j c)
      → due j (on_notice w n f c) ≡ due j c
  on_notice-due j n f c h = elim (Option-cases (c.response_tasks n)) [
    | inl m ↦ let q : on_notice w n f c ≡ c = ground (arith, m) in ap (due j) q
    | inr (x, m) ↦
        let q : on_notice w n f c ≡ f x x.phase c = ground (arith, m) in ap (due j) q ∙ h x x.phase
  ]

  dispatch-due :
      (j i : RequestId) (m : String) (c : Client)
      → due j (dispatch_server_request w i m c) ≡ due j c + count j (taken_on c (requested i m))
  unfolding dispatch_server_request
  dispatch-due j i m c = elim (Option-cases (c.server_tasks i)) [
    | inr (t, e) ↦ ground (arith, e)
    | inl e ↦ elim (Bool-cases (same_id i j)) [
      | inr b ↦ ground (arith, e, b)
      | inl b ↦
          let f : c.server_tasks j ≡ none =
            subst (λ (k : RequestId). c.server_tasks k ≡ none) (same_id-eq i j b) e in
          ground (arith, e, b, ap owes f)
    ]
  ]

  mark-due : (j i : RequestId) (t : Task) (c : Client) → due j (mark_cancelled w i t c) ≡ due j c
  unfolding mark_cancelled
  mark-due j i t c = from t.phase
    where
      from :
          (p : Phase)
          → due j (elim p [
            | ended wrote ending ↦ c
            | _ ↦ record c { cancelled_requests = put i true c.cancelled_requests }
          ])
            ≡ due j c
      from (ended wrote ending) = refl
      from p = refl

  cancel-due :
      (j : RequestId) (v : Value) (c : Client) → due j (cancel_server_request w v c) ≡ due j c
  unfolding cancel_server_request
  cancel-due j v c = elim (Option-cases (cancel_target w v)) [
    | inl n ↦ let q : cancel_server_request w v c ≡ c = ground (arith, n) in ap (due j) q
    | inr (i, n) ↦ elim (Option-cases (c.server_tasks i)) [
      | inl m ↦ let q : cancel_server_request w v c ≡ c = ground (arith, n, m) in ap (due j) q
      | inr (t, m) ↦
          let q : cancel_server_request w v c ≡ mark_cancelled w i t c = ground (arith, n, m) in
          ap (due j) q ∙ mark-due j i t c
    ]
  ]

  reaps-due :
      (j i : RequestId) (c : Client)
      → due j (on_task w i (reap_task w i) c) + count j (gives_up c (reaps i)) ≡ due j c
  reaps-due j i c = elim (Option-cases (c.server_tasks i)) [
    | inl m ↦ ground (arith, m)
    | inr (t, m) ↦
        let q : on_task w i (reap_task w i) c ≡ reap_task w i t t.phase c = ground (arith, m) in
        let u : unanswered i (c.server_tasks i) ≡ unanswered i (some t) = ap (unanswered i) m in
        (λ k. due j (q k) + count j (u k)) ∙ reap_task-due j i t t.phase c m refl
  ]

  quiet : {x y : ℕ} → x ≡ y → x + 0 ≡ y + 0
  quiet h = ap (λ n. n + 0) h

  -- What is due after a step and what it gives up, against what was due and what it takes on.
  pub step-due :
      (j : RequestId) (c : Client) (e : Event)
      → due j (step w c e) + count j (gives_up c e) ≡ due j c + count j (taken_on c e)
  unfolding step
  step-due j c (requested i m) = ground (arith, dispatch-due j i m c)
  step-due j c (reaps i) = ground (arith, reaps-due j i c)
  step-due j c (cancels v) = quiet (cancel-due j v c)
  step-due j c (begins i) =
      quiet (on_task-due j i (begin_task w i) c λ t p. begin_task-due j i t p c)
  step-due j c (finishes i o) =
      quiet (on_task-due j i (finish_task w i o) c λ t p. finish_task-due j i o t p c)
  step-due j c (resumes i) =
      quiet (on_task-due j i (resume_task w i) c λ t p. resume_task-due j i t p c)
  step-due j c (writes i) =
      quiet (on_task-due j i (write_task w i) c λ t p. write_task-due j i t p c)
  step-due j c (drains i r) =
      quiet (on_task-due j i (drain_task w i r) c λ t p. drain_task-due j i r t p c)
  step-due j c (kills i) = quiet (on_task-due j i (kill_task w i) c λ t p. kill_task-due j i t p c)
  step-due j c (notice_writes n) =
      quiet (on_notice-due j n (write_notice w n) c λ x p. write_notice-due j n x p c)
  step-due j c (notice_drains n r) =
      quiet (on_notice-due j n (drain_notice w n r) c λ x p. drain_notice-due j n r x p c)
  step-due j c (notice_reaps n) =
      quiet (on_notice-due j n (reap_notice w n) c λ x p. reap_notice-due j n x p c)
  step-due j c (notice_kills n) =
      quiet (on_notice-due j n (kill_notice w n) c λ x p. kill_notice-due j n x p c)
  step-due j c closes = refl
