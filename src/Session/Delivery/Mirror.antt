-- ===== src/Session/Delivery/Mirror.antt =====
-- The store against the events that a session delivers (session.py over persistence.py).
use mathlib.Core.List.{append-nil}
use astraship.Base.{
  ℕ, String, ◌≡◌, ◌≢◌, refl, ◌∙◌, sym, ap, subst, inl, inr, true, false, List, [], ◌∷◌, ◌++◌, arith,
  str_eq, keep-append, Bool-cases,
}
use astraship.Base.Text.{has_char}
use astraship.Errors.{ok, Result-cases}
use astraship.Value.Json.{Json, IsJson}
use astraship.Persistence.{
  SessionEvent, Disk, WriteOutcome, written, append, is_safe_session_id, read,
}
use astraship.Persistence.RoundTrip.{Appends, of_session, read-Appends}
use astraship.Session.{
  Notification, Item, running, finished, Session, parse_event, open_session, notify,
  handle_notification, demultiplex, next_event, begin_close,
}
use astraship.Session.Delivery.{
  own, accepted, Event, arrives, demultiplexes, consumes, closes, System, start, step, run,
}
use astraship.Session.Delivery.Cases.{Cases, handle_notification-Cases}
use astraship.Session.Delivery.Order.{accepted_more, demultiplex_busy, demultiplex_idle, work-cases}

-- As long as the demultiplexer has not ended by an error, the store holds the accepted events.
abbrev Mirrors : Json → Disk → System → Type 0
Mirrors json d y =
    y.session.demux ≢ finished
    → y.session.has_store ≡ true
    → Appends json d (accepted y.session.session_id y.processed) y.session.disk

Appends-append :
    (json : Json) (d d' d'' : Disk) (es : List SessionEvent) (e : SessionEvent)
    → Appends json d es d'
    → append json written e d' ≡ (d'', ok tt)
    → Appends json d (es ++ e ∷ []) d''
Appends-append json d d' d'' [] e a h =
    (d'', subst (λ (x : Disk). append json written e x ≡ (d'', ok tt)) (sym a) h, refl)
Appends-append json d d' d'' (x ∷ es) e (m, p, a) h = (m, p, Appends-append json m d' d'' es e a h)

module _ (json : Json) (d : Disk) (s : Session) (n : Notification) (consumed : List Item)
    (processed : List Notification) where
  abbrev after_round : Session → System
  after_round r = record { session = r; consumed = consumed; processed = processed ++ n ∷ [] }

  module _ (active : s.demux ≡ running)
      (so_far : s.has_store ≡ true → Appends json d (accepted s.session_id processed) s.disk) where
    round-Mirrors : (r : Session) → Cases json s n r → Mirrors json d (after_round r)
    round-Mirrors r (inl c) =
        subst (λ (q : Session). Mirrors json d (after_round q)) (sym c.unchanged)
          λ _ h.
            subst (λ (es : List SessionEvent). Appends json d es s.disk)
              (sym (
                accepted_more s n consumed processed
                ∙ ap (◌++◌ (accepted s.session_id processed)) c.not_own
                ∙ append-nil _))
              (so_far h)
    round-Mirrors r (inr (inl c)) =
        subst (λ (q : Session). Mirrors json d (after_round q)) (sym c.result)
          λ _ h.
            subst (λ (es : List SessionEvent). Appends json d es c.disk_after)
              (sym (
                accepted_more s n consumed processed
                ∙ ap (◌++◌ (accepted s.session_id processed)) c.is_own))
              (Appends-append json d s.disk c.disk_after (accepted s.session_id processed)
                c.delivered (so_far h) (c.is_stored.stored h))
    round-Mirrors r (inr (inr c)) =
        subst (λ (q : Session). Mirrors json d (after_round q)) (sym c.result)
          λ f h. absurd (f refl)

demultiplexes-Mirrors :
    (json : Json) (d : Disk) (io : WriteOutcome) (y : System)
    → Mirrors json d y
    → Mirrors json d (step json y (demultiplexes io))
unfolding step
demultiplexes-Mirrors json d io y v = elim (work-cases y.session) [
  | inl idle ↦
      let (p, q) = demultiplex_idle json io y.session idle in
      subst (Mirrors json d) {x = y}
        (λ i. record {
          session = sym p i;
          consumed = y.consumed;
          processed = sym (ap (◌++◌ y.processed) q ∙ append-nil y.processed) i;
        })
        v
  | inr (active, n, rest, queue) ↦
      let (p, q) = demultiplex_busy json io y.session n rest active queue in
      let s : Session = record y.session { event_queue = rest } in
      subst (Mirrors json d)
        {x = after_round json d s n y.consumed y.processed (handle_notification json io s n)}
        (λ i. record {
          session = sym p i;
          consumed = y.consumed;
          processed = y.processed ++ sym q i;
        })
        (round-Mirrors json d s n y.consumed y.processed active
          (v (λ e. running-ne-finished (sym active ∙ e))) (handle_notification json io s n)
          (handle_notification-Cases json io s n))
]
  where
    running-ne-finished : running ≢ finished
    running-ne-finished e = cc

quiet-Mirrors :
    (json : Json) (d : Disk) (y : System) (e : Event)
    → ((io : WriteOutcome) → e ≢ demultiplexes io)
    → Mirrors json d y
    → Mirrors json d (step json y e)
unfolding step notify next_event begin_close
quiet-Mirrors json d y (arrives n) ne v = ground (arith, v)
quiet-Mirrors json d y (demultiplexes io) ne v = absurd (ne io refl)
quiet-Mirrors json d y consumes ne v = ground (arith, v)
quiet-Mirrors json d y closes ne v = ground (arith, v)

step-Mirrors :
    (json : Json) (d : Disk) (y : System) (e : Event)
    → Mirrors json d y
    → Mirrors json d (step json y e)
step-Mirrors json d y (demultiplexes io) v = demultiplexes-Mirrors json d io y v
step-Mirrors json d y (arrives n) v = quiet-Mirrors json d y (arrives n) (λ io e. cc) v
step-Mirrors json d y consumes v = quiet-Mirrors json d y consumes (λ io e. cc) v
step-Mirrors json d y closes v = quiet-Mirrors json d y closes (λ io e. cc) v

run-Mirrors :
    (json : Json) (d : Disk) (y : System) (es : List Event)
    → Mirrors json d y
    → Mirrors json d (run json y es)
unfolding run
run-Mirrors json d y [] v = v
run-Mirrors json d y (e ∷ es) v = run-Mirrors json d (step json y e) es (step-Mirrors json d y e v)

-- A session keeps its ID and its store.
record Fixed (s : String) (x : Session) : Type 0 where
  same_id : x.session_id ≡ s
  same_store : x.has_store ≡ true

round-Fixed :
    (json : Json) (s : String) (x : Session) (n : Notification) (r : Session)
    → Cases json x n r
    → Fixed s x
    → Fixed s r
round-Fixed json s x n r (inl c) f = subst (Fixed s) (sym c.unchanged) f
round-Fixed json s x n r (inr (inl c)) f =
    subst (Fixed s) (sym c.result) (record { same_id = f.same_id; same_store = f.same_store })
round-Fixed json s x n r (inr (inr c)) f =
    subst (Fixed s) (sym c.result) (record { same_id = f.same_id; same_store = f.same_store })

demultiplex-Fixed :
    (json : Json) (s : String) (io : WriteOutcome) (x : Session)
    → Fixed s x
    → Fixed s (demultiplex json io x)
demultiplex-Fixed json s io x f = elim (work-cases x) [
  | inl idle ↦ subst (Fixed s) (sym (demultiplex_idle json io x idle).0) f
  | inr (active, n, rest, queue) ↦
      let q : Session = record x { event_queue = rest } in
      subst (Fixed s) (sym (demultiplex_busy json io x n rest active queue).0) (
        round-Fixed json s q n (handle_notification json io q n)
          (handle_notification-Cases json io q n)
          (record { same_id = f.same_id; same_store = f.same_store }))
]

step-Fixed :
    (json : Json) (s : String) (y : System) (e : Event)
    → Fixed s y.session
    → Fixed s (step json y e).session
unfolding step notify next_event begin_close
step-Fixed json s y (demultiplexes io) f = demultiplex-Fixed json s io y.session f
step-Fixed json s y (arrives n) f = record {
  same_id = ground (arith, f.same_id);
  same_store = ground (arith, f.same_store);
}
step-Fixed json s y consumes f = record {
  same_id = ground (arith, f.same_id);
  same_store = ground (arith, f.same_store);
}
step-Fixed json s y closes f = record {
  same_id = ground (arith, f.same_id);
  same_store = ground (arith, f.same_store);
}

run-Fixed :
    (json : Json) (s : String) (y : System) (es : List Event)
    → Fixed s y.session
    → Fixed s (run json y es).session
unfolding run
run-Fixed json s y [] f = f
run-Fixed json s y (e ∷ es) f = run-Fixed json s (step json y e) es (step-Fixed json s y e f)

own-of_session : (s : String) (n : Notification) → of_session s (own s n) ≡ own s n
unfolding own
own-of_session s n = elim (Bool-cases (str_eq n.method "session.event")) [
  | inr u ↦ ground (arith, u)
  | inl u ↦ elim (Result-cases (parse_event n.params)) [
    | inr (x, p) ↦ ground (arith, u, p)
    | inl (e, p) ↦ elim (Bool-cases (str_eq e.session_id s)) [
      | inl v ↦ ground (arith, u, p, v)
      | inr v ↦ ground (arith, u, p, v)
    ]
  ]
]

accepted-of_session :
    (s : String) (ns : List Notification) → of_session s (accepted s ns) ≡ accepted s ns
unfolding accepted
accepted-of_session s [] = refl
accepted-of_session s (n ∷ ns) =
    keep-append (λ (e : SessionEvent). str_eq e.session_id s) (own s n) (accepted s ns)
    ∙ (λ i. own-of_session s n i ++ accepted-of_session s ns i)

-- For a session with a store that is empty at first, in any interleaving of arrivals, rounds of the
-- demultiplexer with writes that may fail, reads of the consumer and closes: unless the demultiplexer
-- has ended by an error, the transcript of the session reads back as all the events of the session
-- that the demultiplexer has taken, in order.
pub run-Mirror :
    (json : Json)
    → IsJson json
    → (s : String) (size : ℕ) (es : List Event) → is_safe_session_id s ≡ true
    → has_char 0 s ≡ false
    → (run json (start (open_session s size true [])) es).session.demux ≢ finished
    → read json (run json (start (open_session s size true [])) es).session.disk s
      ≡ ok (accepted s (run json (start (open_session s size true [])) es).processed)
unfolding start
run-Mirror json laws s size es safe null alive =
    let y : System = start (open_session s size true []) in
    let z : System = run json y es in
    let f : Fixed s z.session =
      run-Fixed json s y es (unfold open_session in record { same_id = refl; same_store = refl }) in
    let m : Mirrors json [] z =
      run-Mirrors json [] y es (unfold open_session accepted in λ _ _. refl) in
    let a : Appends json [] (accepted s z.processed) z.session.disk =
      subst (λ (i : String). Appends json [] (accepted i z.processed) z.session.disk) f.same_id
        (m alive f.same_store) in
    read-Appends json laws s (accepted s z.processed) z.session.disk safe null a
    ∙ ap ok (accepted-of_session s z.processed)
