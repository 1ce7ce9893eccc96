-- ===== src/Kernel/Client/Replies/Owing.antt =====
-- The responses that a task owes, by its phase (kernel/client.py).
use astraship.Base.{
  ℕ, ◌+◌, String, ◌≡◌, refl, ◌∙◌, sym, ap, subst, inl, inr, Bool, true, false, some, List, [], ◌∷◌,
  ◌++◌, arith, is_some, if◌then◌else◌, Bool-cases,
}
use astraship.Errors.{
  ErrorClass, Error, Result, ok, err, Result-cases, cancelled_error, invalid_request_params,
  is_protocol_error,
}
use astraship.Value.{Value, null, str}
use astraship.Kernel.Protocol.{RequestId, id_value, encode_result_response, encode_error_response}
use astraship.Kernel.Client.{
  same_id, same_id-eq, cancelled, raised, Outcome, returns, raises, Phase, draining, ended, Task,
  Sent, Client, handle_task_failure, handle_task_failure-shape,
}
use astraship.Kernel.Client.Server.{
  World, minus, raised_phase, not_running, send_error, to_lock, result_phase, begin, resume,
  set_phase, final_line, sent_by_task, write_line, write_response,
}
use astraship.Kernel.Client.Replies.{count, answers, owed, owes, due}

pub count-append :
    (i : RequestId) (xs ys : List RequestId) → count i (xs ++ ys) ≡ count i xs + count i ys
count-append i [] ys = ground arith
count-append i (x ∷ xs) ys = ground (arith, count-append i xs ys)

pub answers-append :
    (i : RequestId) (xs : List Sent) (s : Sent)
    → answers i (xs ++ s ∷ []) ≡ answers i xs + answers i (s ∷ [])
answers-append i [] s = ground arith
answers-append i (x ∷ xs) s = ground (arith, answers-append i xs s)

module _ (w : World) where
  pub raised_phase-owed :
      (wrote : Bool) (e : Error) → owed (raised_phase wrote e) ≡ (if wrote then 0 else 1)
  raised_phase-owed wrote e = from e.class wrote
    where
      from :
          (k : ErrorClass) (b : Bool)
          → owed (elim k [ cancelled_error ↦ ended b cancelled | _ ↦ ended b (raised e) ])
            ≡ (if b then 0 else 1)
      from cancelled_error true = refl
      from cancelled_error false = refl
      from k true = refl
      from k false = refl

  to_lock-owed : (final : Bool) (r : Result String) → owed (to_lock w final r) ≡ 1
  unfolding to_lock
  to_lock-owed final (ok line) = refl
  to_lock-owed final (err e) = raised_phase-owed false e

  send_error-owed :
      (i : RequestId) (n : ℕ) (m : String) (v : Value) (b : Bool)
      → owed (send_error w i n m v b) ≡ 1
  unfolding send_error
  send_error-owed i n m v b =
      to_lock-owed b (encode_error_response w.json (id_value i) (minus n) (str m) v)

  pub begin-owed : (c : Client) (i : RequestId) (m : String) → owed (begin w c i m) ≡ 1
  unfolding begin
  begin-owed c i m = elim (Bool-cases (c.cancelled_requests i)) [
    | inl b ↦ rw b (send_error-owed i 32800 "Request cancelled" null false)
    | inr b ↦ elim (Bool-cases (w.has_handler m)) [
      | inl h ↦ rw (b, h)
      | inr h ↦ rw (b, h) (send_error-owed i 32601 "Method not found" null true)
    ]
  ]

  result-owed : (i : RequestId) (r : Result String) → owed (result_phase w i r) ≡ 1
  unfolding result_phase
  result-owed i (ok line) = refl
  result-owed i (err e) = elim (Bool-cases (is_protocol_error e.class)) [
    | inl b ↦ rw b (send_error-owed i 32603 "Internal error" null true)
    | inr b ↦ rw b (raised_phase-owed false e)
  ]

  pub resume-owed : (c : Client) (i : RequestId) (o : Outcome) → owed (resume w c i o) ≡ 1
  unfolding resume
  resume-owed c i (returns v) = result-owed i (encode_result_response w.json (id_value i) v)
  resume-owed c i (raises e) = from e.class
    where
      from :
          (k : ErrorClass)
          → owed (elim k [
            | invalid_request_params ↦
                send_error w i 32602 "Invalid params" (str (w.text_of e)) true
            | cancelled_error ↦
                if c.closed
                then ended false cancelled
                else send_error w i 32800 "Request cancelled" null false
            | _ ↦ send_error w i 32603 "Internal error" null true
          ])
            ≡ 1
      from invalid_request_params =
          send_error-owed i 32602 "Invalid params" (str (w.text_of e)) true
      from cancelled_error = elim (Bool-cases c.closed) [
        | inl b ↦ rw b
        | inr b ↦ rw b (send_error-owed i 32800 "Request cancelled" null false)
      ]
      from k = send_error-owed i 32603 "Internal error" null true

  -- A task that goes on owes what it owed.
  pub due-set_phase :
      (j i : RequestId) (t : Task) (p : Phase) (c : Client)
      → c.server_tasks i ≡ some t
      → owed p ≡ owed t.phase
      → due j (set_phase w i t p c) ≡ due j c
  due-set_phase j i t p c e h = elim (Bool-cases (same_id i j)) [
    | inr b ↦ ground (arith, b)
    | inl b ↦
        let f : c.server_tasks j ≡ some t =
          subst (λ (k : RequestId). c.server_tasks k ≡ some t) (same_id-eq i j b) e in
        ground (arith, b, ap owes f, h)
  ]

  due-write :
      (j i : RequestId) (t : Task) (line : String) (c : Client)
      → c.server_tasks i ≡ some t
      → owed t.phase ≡ 1
      → due j (set_phase w i t draining (sent_by_task w i line c)) ≡ due j c
  unfolding sent_by_task
  due-write j i t line c e h =
      let s : Sent = record {
        request_id = i;
        by_task = true;
        was_cancelled = c.cancelled_requests i;
        line = line;
      } in
      elim (Bool-cases (same_id i j)) [
        | inr b ↦ ground (arith, b, answers-append j c.sent s)
        | inl b ↦
            let f : c.server_tasks j ≡ some t =
              subst (λ (k : RequestId). c.server_tasks k ≡ some t) (same_id-eq i j b) e in
            ground (arith, b, ap owes f, h, answers-append j c.sent s)
      ]

  pub due-write_response :
      (j i : RequestId) (t : Task) (final : Bool) (line : String) (c : Client)
      → c.server_tasks i ≡ some t
      → owed t.phase ≡ 1
      → due j (write_response w i t final line c) ≡ due j c
  unfolding write_response write_line
  due-write_response j i t final line c e h = elim (Bool-cases (is_some c.write_lock)) [
    | inl a ↦ let q : write_response w i t final line c ≡ c = ground (arith, a) in ap (due j) q
    | inr a ↦ elim (Bool-cases c.closed) [
      | inl b ↦
          let q : write_response w i t final line c
              ≡ set_phase w i t (ended false (raised not_running)) c =
            ground (arith, a, b) in
          ap (due j) q ∙ due-set_phase j i t (ended false (raised not_running)) c e (sym h)
      | inr b ↦ elim (Result-cases (final_line w c i final line)) [
        | inr (x, f) ↦
            let q : write_response w i t final line c ≡ set_phase w i t (raised_phase false x) c =
              ground (arith, a, b, f) in
            ap (due j) q
            ∙ due-set_phase j i t (raised_phase false x) c e (raised_phase-owed false x ∙ sym h)
        | inl (s, f) ↦
            let q : write_response w i t final line c
                ≡ set_phase w i t draining (sent_by_task w i s c) =
              ground (arith, a, b, f) in
            ap (due j) q ∙ due-write j i t s c e h
      ]
    ]
  ]

  pub due-failure :
      (j : RequestId) (e : Error) (c : Client) → due j (handle_task_failure e c) ≡ due j c
  due-failure j e c =
      subst (λ (d : Client). due j d ≡ due j c) (sym (handle_task_failure-shape e c)) refl
