-- ===== src/Kernel/Client/Requests/Endings.antt =====
-- How the requests of the client end (kernel/client.py).
use astraship.Base.{
  ℕ, String, ◌≡◌, ◌≢◌, refl, ◌∙◌, sym, subst, inl, inr, Bool, true, false, Option, none, some, List,
  [], ◌∷◌, arith, if◌then◌else◌, Bool-cases, Option-cases,
}
use astraship.Base.Int.{pos}
use astraship.Errors.{ErrorClass, Error, Message, Result, ok, err, kernel_process, timeout_error}
use astraship.Value.{Value, int}
use astraship.Value.Json.{Json}
use astraship.Kernel.Protocol.{RequestId, encode_request}
use astraship.Kernel.Client.{
  Future, unresolved, resolved, failed, Client, new_client, set_failure, fail_pending,
  as_transport_error,
}
use astraship.Kernel.Client.Requests.{
  Progress, writing, waiting, over, Call, System, Event, calls, written, wakes, times_out, cancels,
  responds, stdout_fails, exits, id_of, end_call, opened, encoded, process_failure, time_out,
  remote_error, exited_error, wake, transport_failure, process_exit, on_call, end_write, wake_call,
  time_out_call, cancel_call, step, run, start,
}
use astraship.Kernel.Client.Requests.Correlation.{
  Answered, IsTracked, Sound, SoundCall, Inv, set_call-Inv, end_call-Inv, opened-Inv, respond-Inv,
  fail_pending-Inv,
}

client-Inv :
    (y : System) (x : Option Error)
    → Inv y
    → Inv (record y { client = record y.client { failure = x } })
client-Inv y x v = record { open_futures = v.open_futures; told = v.told; sound = v.sound }

set_failure-shape :
    (e : Error) (c : Client) → set_failure e c ≡ record c { failure = (set_failure e c).failure }
unfolding set_failure
set_failure-shape e c = elim (Option-cases c.failure) [ inl n ↦ rw n | inr (x, n) ↦ rw n ]

set_failure-Inv :
    (e : Error) (y : System) → Inv y → Inv (record y { client = set_failure e y.client })
set_failure-Inv e y v =
    subst (λ (c : Client). Inv (record y { client = c })) (sym (set_failure-shape e y.client))
      (client-Inv y (set_failure e y.client).failure v)

process_failure-Inv :
    (d : Message) (y : System) → Inv y → Inv (record y { client = (process_failure d y.client).0 })
unfolding process_failure
process_failure-Inv d y v = elim (Option-cases y.client.failure) [
  | inl n ↦
      subst Inv
        {x = record y {
          client = set_failure (record { class = kernel_process; message = d }) y.client;
        }}
        (ground (arith, n)) (set_failure-Inv (record { class = kernel_process; message = d }) y v)
  | inr (x, n) ↦ from x n x.class refl
]
  where
    from :
        (x : Error)
        → y.client.failure ≡ some x
        → (k : ErrorClass) → x.class ≡ k
        → Inv (record y { client = (process_failure d y.client).0 })
    from x n kernel_process e = subst Inv {x = y} (ground (arith, n, e)) v
    from x n k e =
        subst Inv
          {x = record y {
            client = set_failure (record { class = kernel_process; message = d }) y.client;
          }}
          (ground (arith, n, e))
          (set_failure-Inv (record { class = kernel_process; message = d }) y v)

time_out-Inv : (n : ℕ) (k : Call) (d : Option Message) (y : System) → Inv y → Inv (time_out n k d y)
unfolding time_out
time_out-Inv n k none y v = end_call-Inv n k _ y v
time_out-Inv n k (some d) y v =
    end_call-Inv n k (process_failure d y.client).1
      (record y { client = (process_failure d y.client).0 }) (process_failure-Inv d y v)

wake-Inv :
    (n : ℕ) (k : Call) (f : Option Future) (y : System)
    → y.client.futures (id_of n) ≡ f
    → Inv y
    → Inv (wake n k f y)
unfolding wake
wake-Inv n k (some (resolved u none)) y e v =
    set_call-Inv n k (over (ok u)) y v (v.told (id_of n) u none e)
wake-Inv n k (some (resolved u (some x))) y e v =
    set_call-Inv n k (over (err (remote_error x))) y v tt
wake-Inv n k (some (failed x)) y e v = end_call-Inv n k x y v
wake-Inv n k f y e v = elim (Bool-cases y.process_done) [
  | inl b ↦
      subst Inv {x = end_call n k (err (exited_error y.client)) y} (ground (arith, b))
        (end_call-Inv n k _ y v)
  | inr b ↦ subst Inv {x = y} (ground (arith, b)) v
]

wake_call-Inv : (n : ℕ) (k : Call) (p : Progress) (y : System) → Inv y → Inv (wake_call n k p y)
unfolding wake_call
wake_call-Inv n k waiting y v = wake-Inv n k (y.client.futures (id_of n)) y refl v
wake_call-Inv n k p y v = v

end_write-Inv :
    (n : ℕ) (r : Option Error) (d : Option Message) (k : Call) (p : Progress) (y : System)
    → Inv y
    → Sound n y.received (y.client.pending (id_of n)) (y.client.futures (id_of n)) p
    → Inv (end_write n r d k p y)
unfolding end_write
end_write-Inv n none d k writing y v h = set_call-Inv n k waiting y v h
end_write-Inv n (some e) d k writing y v h = from e.class
  where
    from :
        (c : ErrorClass)
        → Inv (elim c [ timeout_error ↦ time_out n k d y | _ ↦ end_call n k (err e) y ])
    from timeout_error = time_out-Inv n k d y v
    from c = end_call-Inv n k e y v
end_write-Inv n r d k p y v h = v

time_out_call-Inv :
    (n : ℕ) (d : Option Message) (k : Call) (p : Progress) (y : System)
    → Inv y
    → Inv (time_out_call n d k p y)
unfolding time_out_call
time_out_call-Inv n d k waiting y v = from (y.client.futures (id_of n))
  where
    unless : (b : Bool) → Inv (if b then y else time_out n k d y)
    unless true = v
    unless false = time_out-Inv n k d y v

    from :
        (f : Option Future)
        → Inv (elim f [ some unresolved ↦ if y.process_done then y else time_out n k d y | _ ↦ y ])
    from (some unresolved) = unless y.process_done
    from f = v
time_out_call-Inv n d k p y v = v

cancel_call-Inv : (n : ℕ) (k : Call) (p : Progress) (y : System) → Inv y → Inv (cancel_call n k p y)
unfolding cancel_call
cancel_call-Inv n k (over r) y v = v
cancel_call-Inv n k p y v = set_call-Inv n k (over (err _)) y v tt

transport_failure-Inv :
    (e : Error) (y : System) → Inv y → Inv (record y { client = transport_failure e y.client })
unfolding transport_failure
transport_failure-Inv e y v =
    fail_pending-Inv e (record y { client = set_failure e y.client }) (set_failure-Inv e y v)

process_exit-Inv :
    (d : Message) (y : System) → Inv y → Inv (record y { client = process_exit d y.client })
unfolding process_exit
process_exit-Inv d y v = elim (Bool-cases y.client.closed) [
  | inl b ↦ subst Inv {x = y} (ground (arith, b)) v
  | inr b ↦
      let c : Client = set_failure (record { class = kernel_process; message = d }) y.client in
      subst Inv {x = record y { client = fail_pending (exited_error c) c }} (ground (arith, b)) (
        fail_pending-Inv (exited_error c) (record y { client = c })
          (set_failure-Inv (record { class = kernel_process; message = d }) y v))
]

encoded-Inv : (n : ℕ) (m : String) (r : Result String) (y : System) → Inv y → Inv (encoded n m r y)
unfolding encoded
encoded-Inv n m (ok line) y v = v
encoded-Inv n m (err e) y v = end_call-Inv n (record { method = m; progress = writing }) e y v

on_call-Inv :
    (n : ℕ) (f : Call → System → System) (y : System)
    → Inv y
    → ((k : Call) → y.calls n ≡ some k → Inv (f k y))
    → Inv (on_call n f y)
on_call-Inv n f y v h = elim (Option-cases (y.calls n)) [
  | inl e ↦ subst Inv {x = y} (ground (arith, e)) v
  | inr (k, e) ↦ subst Inv {x = f k y} (ground (arith, e)) (h k e)
]

call-Sound :
    (n : ℕ) (k : Call) (y : System)
    → Inv y
    → y.calls n ≡ some k
    → Sound n y.received (y.client.pending (id_of n)) (y.client.futures (id_of n)) k.progress
call-Sound n k y v e =
    subst (SoundCall n y.received (y.client.pending (id_of n)) (y.client.futures (id_of n))) e
      (v.sound n)

step-Inv : (json : Json) (y : System) (e : Event) → Inv y → Inv (step json y e)
unfolding step
step-Inv json y (calls m params) v =
    encoded-Inv y.client.next_id m (encode_request json (int (pos y.client.next_id)) m params)
      (opened m y) (opened-Inv m y v)
step-Inv json y (written n r d) v =
    on_call-Inv n (λ k. end_write n r d k k.progress) y v
      λ k e. end_write-Inv n r d k k.progress y v (call-Sound n k y v e)
step-Inv json y (wakes n) v =
    on_call-Inv n (λ k. wake_call n k k.progress) y v λ k e. wake_call-Inv n k k.progress y v
step-Inv json y (times_out n d) v =
    on_call-Inv n (λ k. time_out_call n d k k.progress) y v
      λ k e. time_out_call-Inv n d k k.progress y v
step-Inv json y (cancels n) v =
    on_call-Inv n (λ k. cancel_call n k k.progress) y v λ k e. cancel_call-Inv n k k.progress y v
step-Inv json y (responds r) v = respond-Inv r y v
step-Inv json y (stdout_fails e) v = transport_failure-Inv (as_transport_error e) y v
step-Inv json y (exits d) v =
    let u = process_exit-Inv d y v in
    record { open_futures = u.open_futures; told = u.told; sound = u.sound }

run-Inv : (json : Json) (y : System) (es : List Event) → Inv y → Inv (run json y es)
unfolding run
run-Inv json y [] v = v
run-Inv json y (e ∷ es) v = run-Inv json (step json y e) es (step-Inv json y e v)

start-Inv : Inv start
unfolding start new_client
start-Inv = record {
  open_futures = λ i h. absurd (cc);
  told = λ i v x h. absurd (cc);
  sound = λ n. tt;
}

-- In any interleaving, a request that returns a result returns one that was read in a response with
-- the request's own ID and without an error.
pub run-Answered :
    (json : Json) (es : List Event) (n : ℕ) (k : Call) (v : Value)
    → (run json start es).calls n ≡ some k
    → k.progress ≡ over (ok v)
    → Answered (id_of n) v none (run json start es).received
run-Answered json es n k v e h =
    let y : System = run json start es in
    subst (Sound n y.received (y.client.pending (id_of n)) (y.client.futures (id_of n))) h
      (call-Sound n k y (run-Inv json start es start-Inv) e)

wake-over :
    (n : ℕ) (k : Call) (f : Option Future) (y : System)
    → f ≢ none
    → f ≢ some unresolved
    → (r : Result Value) × ((wake n k f y).calls n ≡ some (record k { progress = over r }))
unfolding wake
wake-over n k none y a b = absurd (a refl)
wake-over n k (some unresolved) y a b = absurd (b refl)
wake-over n k (some (resolved u none)) y a b = (ok u, ground arith)
wake-over n k (some (resolved u (some x))) y a b = (err (remote_error x), ground arith)
wake-over n k (some (failed x)) y a b = (err x, ground arith)

failed_transport-idle :
    (e : Error) (c : Client) (i : RequestId) → (transport_failure e c).pending i ≡ false
unfolding transport_failure fail_pending
failed_transport-idle e c i = refl

-- A failure of the transport forgets no request: in any interleaving, a request that waits when
-- `_read_stdout` fails is over as soon as its task runs again.
pub run-stdout_fails :
    (json : Json) (es : List Event) (e : Error) (n : ℕ) (k : Call)
    → (run json start es).calls n ≡ some k
    → k.progress ≡ waiting
    → (r : Result Value) × ((step json
            (step json (run json start es) (stdout_fails e))
            (wakes n)).calls
          n
        ≡ some (record k { progress = over r }))
unfolding step wake_call
run-stdout_fails json es e n k c p =
    let y : System = run json start es in
    let z : System = record y { client = transport_failure (as_transport_error e) y.client } in
    let v : Inv z =
      transport_failure-Inv (as_transport_error e) y (run-Inv json start es start-Inv) in
    let t : IsTracked (z.client.pending (id_of n)) (z.client.futures (id_of n)) =
      subst (Sound n z.received (z.client.pending (id_of n)) (z.client.futures (id_of n))) p
        (call-Sound n k z v c) in
    let closed : z.client.futures (id_of n) ≢ some unresolved = λ h.
      false_true (sym (failed_transport-idle (as_transport_error e) y.client (id_of n)) ∙ t.1 h) in
    let (r, q) = wake-over n k (z.client.futures (id_of n)) z t.0 closed in
    (r, ground (arith, c, p, q))
  where
    false_true : false ≢ true
    false_true h = cc
