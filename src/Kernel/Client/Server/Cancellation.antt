-- ===== src/Kernel/Client/Server/Cancellation.antt =====
-- Cancelled requests of Felix (kernel/client.py).
use astraship.Base.{
  ℕ, String, ◌≡◌, refl, sym, ap, subst, inl, inr, Bool, true, false, Option, none, some, List, [],
  ◌∷◌, ◌++◌, arith, is_some, if◌then◌else◌, All, Bool-cases, Option-cases,
}
use astraship.Errors.{
  ErrorClass, Error, Result, ok, err, cancelled_error, invalid_request_params, is_protocol_error,
  Result-cases,
}
use astraship.Value.{Value, null, str}
use astraship.Kernel.Protocol.{RequestId, id_value, encode_result_response, encode_error_response}
use astraship.Kernel.Client.{
  same_id, put, put-All, Ending, cancelled, raised, Outcome, returns, raises, Phase, waiting,
  draining, ended, Task, Writer, Sent, Client, handle_task_failure, handle_task_failure-shape,
}
use astraship.Kernel.Client.Server.{
  World, minus, raised_phase, not_running, cancelled_line, send_error, begin, resume, set_phase,
  dispatch_server_request, final_line, write_response, write_line, sent_by_task, result_phase,
  mark_cancelled, server_task_done, without_task, cancel_target, cancel_server_request,
}
use astraship.Kernel.Client.Server.Steps.{release_lock}

module _ (w : World) where
  -- A line at the lock that a cancellation cannot replace is the response of a cancelled request.
  abbrev pub IsPlain : RequestId → Phase → Type 0
  IsPlain i (waiting false line) = cancelled_line w i ≡ ok line
  IsPlain i p = Unit

  abbrev pub PlainTask : RequestId → Option Task → Type 0
  PlainTask i none = Unit
  PlainTask i (some t) = IsPlain i t.phase

  -- A task that writes for a cancelled request writes that it was cancelled.
  abbrev pub IsHonest : Sent → Type 0
  IsHonest s = s.by_task ≡ true → s.was_cancelled ≡ true → cancelled_line w s.request_id ≡ ok s.line

  pub record Inv (c : Client) : Type 0 where
    pub live : (i : RequestId) → c.cancelled_requests i ≡ true → is_some (c.server_tasks i) ≡ true
    pub plain : (i : RequestId) → PlainTask i (c.server_tasks i)
    pub honest : All IsHonest c.sent

  pub set_phase-Inv :
      (i : RequestId) (t : Task) (p : Phase) (c : Client)
      → Inv c
      → IsPlain i p
      → Inv (set_phase w i t p c)
  set_phase-Inv i t p c v h = record {
    live =
        put-All (λ j (o : Option Task). c.cancelled_requests j ≡ true → is_some o ≡ true) i
          (some (record t { phase = p })) c.server_tasks (λ _. refl) v.live;
    plain = put-All PlainTask i (some (record t { phase = p })) c.server_tasks h v.plain;
    honest = v.honest;
  }

  pub raised_phase-IsPlain :
      (i : RequestId) (wrote : Bool) (e : Error) → IsPlain i (raised_phase wrote e)
  raised_phase-IsPlain i wrote e = from e.class
    where
      from :
          (k : ErrorClass)
          → IsPlain i
              (elim k [ cancelled_error ↦ ended wrote cancelled | _ ↦ ended wrote (raised e) ])
      from cancelled_error = tt
      from k = tt

  final-IsPlain :
      (i : RequestId) (code : ℕ) (m : String) (info : Value)
      → IsPlain i (send_error w i code m info true)
  unfolding send_error
  final-IsPlain i code m info =
      elim (Result-cases (encode_error_response w.json (id_value i) (minus code) (str m) info)) [
        | inl (line, e) ↦ rw e tt
        | inr (x, e) ↦ rw e (raised_phase-IsPlain i false x)
      ]

  cancelled-IsPlain :
      (i : RequestId) → IsPlain i (send_error w i 32800 "Request cancelled" null false)
  unfolding send_error
  cancelled-IsPlain i = elim (Result-cases (cancelled_line w i)) [
    | inl (line, e) ↦ rw e e
    | inr (x, e) ↦ rw e (raised_phase-IsPlain i false x)
  ]

  pub begin-IsPlain : (c : Client) (i : RequestId) (m : String) → IsPlain i (begin w c i m)
  unfolding begin
  begin-IsPlain c i m = elim (Bool-cases (c.cancelled_requests i)) [
    | inl b ↦ rw b (cancelled-IsPlain i)
    | inr b ↦ elim (Bool-cases (w.has_handler m)) [
      | inl h ↦ rw (b, h) tt
      | inr h ↦ rw (b, h) (final-IsPlain i 32601 "Method not found" null)
    ]
  ]

  result-IsPlain : (i : RequestId) (r : Result String) → IsPlain i (result_phase w i r)
  unfolding result_phase
  result-IsPlain i (ok line) = tt
  result-IsPlain i (err e) = elim (Bool-cases (is_protocol_error e.class)) [
    | inl b ↦ rw b (final-IsPlain i 32603 "Internal error" null)
    | inr b ↦ rw b (raised_phase-IsPlain i false e)
  ]

  pub resume-IsPlain : (c : Client) (i : RequestId) (o : Outcome) → IsPlain i (resume w c i o)
  unfolding resume
  resume-IsPlain c i (returns v) = result-IsPlain i (encode_result_response w.json (id_value i) v)
  resume-IsPlain c i (raises e) = from e.class
    where
      from :
          (k : ErrorClass)
          → IsPlain i (elim k [
            | invalid_request_params ↦
                send_error w i 32602 "Invalid params" (str (w.text_of e)) true
            | cancelled_error ↦
                if c.closed
                then ended false cancelled
                else send_error w i 32800 "Request cancelled" null false
            | _ ↦ send_error w i 32603 "Internal error" null true
          ])
      from invalid_request_params = final-IsPlain i 32602 "Invalid params" (str (w.text_of e))
      from cancelled_error = elim (Bool-cases c.closed) [
        | inl b ↦ rw b tt
        | inr b ↦ rw b (cancelled-IsPlain i)
      ]
      from k = final-IsPlain i 32603 "Internal error" null

  -- What a task writes is honest, by what stands at the lock.
  final_line-IsHonest :
      (c : Client) (i : RequestId) (final : Bool) (line sent : String)
      → IsPlain i (waiting final line)
      → final_line w c i final line ≡ ok sent
      → IsHonest (record {
        request_id = i;
        by_task = true;
        was_cancelled = c.cancelled_requests i;
        line = sent;
      })
  unfolding final_line
  final_line-IsHonest c i true line sent p h _ b = ground (arith, h, b)
  final_line-IsHonest c i false line sent p h _ b = ground (arith, h, p)

  IsHonest-append :
      (xs : List Sent) (s : Sent) → All IsHonest xs → IsHonest s → All IsHonest (xs ++ s ∷ [])
  IsHonest-append [] s h k = (k, tt)
  IsHonest-append (x ∷ xs) s h k = (h.0, IsHonest-append xs s h.1 k)

  pub write_response-Inv :
      (i : RequestId) (t : Task) (final : Bool) (line : String) (c : Client)
      → Inv c
      → IsPlain i (waiting final line)
      → Inv (write_response w i t final line c)
  unfolding write_response write_line sent_by_task
  write_response-Inv i t final line c v p = elim (Bool-cases (is_some c.write_lock)) [
    | inl a ↦ subst Inv {x = c} (ground (arith, a)) v
    | inr a ↦ elim (Bool-cases c.closed) [
      | inl b ↦
          subst Inv {x = set_phase w i t (ended false (raised not_running)) c}
            (ground (arith, a, b)) (set_phase-Inv i t (ended false (raised not_running)) c v tt)
      | inr b ↦ elim (Result-cases (final_line w c i final line)) [
        | inr (e, f) ↦
            subst Inv {x = set_phase w i t (raised_phase false e) c} (ground (arith, a, b, f))
              (set_phase-Inv i t (raised_phase false e) c v (raised_phase-IsPlain i false e))
        | inl (s, f) ↦
            subst Inv {x = set_phase w i t draining (sent_by_task w i s c)}
              (ground (arith, a, b, f))
              (set_phase-Inv i t draining (sent_by_task w i s c)
                (record {
                  live = v.live;
                  plain = v.plain;
                  honest =
                      IsHonest-append c.sent _ v.honest (final_line-IsHonest c i final line s p f);
                })
                tt)
      ]
    ]
  ]

  pub failure-Inv : (e : Error) (c : Client) → Inv c → Inv (handle_task_failure e c)
  failure-Inv e c v =
      subst Inv (sym (handle_task_failure-shape e c))
        (record { live = v.live; plain = v.plain; honest = v.honest })

  pub lock-Inv : (x : Writer) (c : Client) → Inv c → Inv (release_lock x c)
  lock-Inv x c v = record { live = v.live; plain = v.plain; honest = v.honest }

  without_task-Inv : (i : RequestId) (c : Client) → Inv c → Inv (without_task w i c)
  without_task-Inv i c v = record {
    live = λ j h. elim (Bool-cases (same_id i j)) [
      | inl b ↦ absurd (ground (arith, h, b))
      | inr b ↦ ground (arith, h, b, v.live j)
    ];
    plain = put-All PlainTask i none c.server_tasks tt v.plain;
    honest = v.honest;
  }

  pub server_task_done-Inv :
      (i : RequestId) (e : Ending) (c : Client) → Inv c → Inv (server_task_done w i e c)
  unfolding server_task_done
  server_task_done-Inv i (raised e) c v =
      failure-Inv e (without_task w i c) (without_task-Inv i c v)
  server_task_done-Inv i e c v = without_task-Inv i c v

  pub dispatch-Inv :
      (i : RequestId) (m : String) (c : Client) → Inv c → Inv (dispatch_server_request w i m c)
  unfolding dispatch_server_request
  dispatch-Inv i m c v = elim (Bool-cases (is_some (c.server_tasks i))) [
    | inl b ↦ rw b (record { live = v.live; plain = v.plain; honest = v.honest })
    | inr b ↦ rw b (record {
      live =
          put-All (λ j (o : Option Task). c.cancelled_requests j ≡ true → is_some o ≡ true) i _
            c.server_tasks (λ _. refl) v.live;
      plain = put-All PlainTask i _ c.server_tasks tt v.plain;
      honest = v.honest;
    })
  ]

  mark-Inv :
      (i : RequestId) (t : Task) (c : Client)
      → Inv c
      → c.server_tasks i ≡ some t
      → Inv (mark_cancelled w i t c)
  unfolding mark_cancelled
  mark-Inv i t c v e = from t.phase
    where
      marked : Inv (record c { cancelled_requests = put i true c.cancelled_requests })
      marked = record {
        live =
            put-All (λ j (b : Bool). b ≡ true → is_some (c.server_tasks j) ≡ true) i true
              c.cancelled_requests (λ _. ap is_some e) v.live;
        plain = v.plain;
        honest = v.honest;
      }

      from :
          (p : Phase)
          → Inv (elim p [
            | ended wrote ending ↦ c
            | _ ↦ record c { cancelled_requests = put i true c.cancelled_requests }
          ])
      from (ended wrote ending) = v
      from p = marked

  pub cancel-Inv : (params : Value) (c : Client) → Inv c → Inv (cancel_server_request w params c)
  unfolding cancel_server_request
  cancel-Inv params c v = elim (Option-cases (cancel_target w params)) [
    | inl n ↦ subst Inv {x = c} (ground (arith, n)) v
    | inr (i, n) ↦ elim (Option-cases (c.server_tasks i)) [
      | inl m ↦ subst Inv {x = c} (ground (arith, n, m)) v
      | inr (t, m) ↦
          subst Inv {x = mark_cancelled w i t c} (ground (arith, n, m)) (mark-Inv i t c v m)
    ]
  ]
