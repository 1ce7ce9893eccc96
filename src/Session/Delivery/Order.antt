-- ===== src/Session/Delivery/Order.antt =====
-- What the consumer of a session gets, by the state of its demultiplexer (session.py).
use mathlib.Core.List.{append_assoc, append-nil, map-append}
use astraship.Base.{
  ℕ, ◌≤◌, ◌<◌, String, ◌≡◌, ◌≢◌, refl, ◌∙◌, sym, ap, subst, ◌⊎◌, inl, inr, Bool, true, false, List,
  [], ◌∷◌, ◌++◌, map, arith, length, length-append, Bool-cases,
}
use astraship.Errors.{Error}
use astraship.Value.Json.{Json}
use astraship.Persistence.{SessionEvent, Disk, WriteOutcome}
use astraship.Session.{
  Notification, Item, event, failure, TaskStatus, running, finished, cancelled, Session,
  open_session, notify, fail_with, handle_notification, demultiplex, next_event, begin_close,
}
use astraship.Session.Delivery.{
  own, accepted, Event, arrives, demultiplexes, consumes, closes, System, start, taken, got, step,
  run,
}
use astraship.Session.Delivery.Cases.{Cases, handle_notification-Cases}

accepted-append :
    (s : String) (ns ms : List Notification)
    → accepted s (ns ++ ms) ≡ accepted s ns ++ accepted s ms
unfolding accepted
accepted-append s [] ms = refl
accepted-append s (n ∷ ns) ms =
    ap (◌++◌ (own s n)) (accepted-append s ns ms)
    ∙ sym (append_assoc (own s n) (accepted s ns) (accepted s ms))

accepted-single : (s : String) (n : Notification) → accepted s (n ∷ []) ≡ own s n
unfolding accepted
accepted-single s n = append-nil (own s n)

-- These events are the first of those.
pub record IsFirst (ps all : List SessionEvent) : Type 0 where
  pub rest : List SessionEvent
  pub parts : ps ++ rest ≡ all

-- What the consumer has got and can get, by the state of the demultiplexer: all the events that were
-- accepted; or, after an error, the first of them and then the error.
pub data Stream (all : List SessionEvent) (items : List Item) : TaskStatus → Type 0 where
  whole : items ≡ map event all → Stream all items running
  stopped : items ≡ map event all → Stream all items cancelled
  broken :
      (ps : List SessionEvent) (e : Error)
      → items ≡ map event ps ++ failure e ∷ []
      → IsFirst ps all
      → Stream all items finished

pub record Inv (y : System) : Type 0 where
  pub stream :
      Stream
        (accepted y.session.session_id y.processed)
        (y.consumed ++ y.session.events)
        y.session.demux
  pub bounded : length y.session.events ≤ y.session.event_queue_size
  pub positive : 0 < y.session.event_queue_size

split-map :
    (xs ys : List Item) (zs : List SessionEvent)
    → xs ++ ys ≡ map event zs
    → (ps : List SessionEvent) × (xs ≡ map event ps) × IsFirst ps zs
split-map [] ys zs h = ([], refl, record { rest = zs; parts = refl })
split-map (x ∷ xs) ys [] h = absurd (cc)
split-map (x ∷ xs) ys (z ∷ zs) h =
    let (ps, e, f) = split-map xs ys zs (ground (arith, h)) in
    (z ∷ ps, ground (arith, h, e), record { rest = f.rest; parts = ap (◌∷◌ z) f.parts })

IsFirst-append : (ps all more : List SessionEvent) → IsFirst ps all → IsFirst ps (all ++ more)
IsFirst-append ps all more f = record {
  rest = f.rest ++ more;
  parts = sym (append_assoc ps f.rest more) ∙ ap (λ (l : List SessionEvent). l ++ more) f.parts;
}

Stream-running :
    {all : List SessionEvent} {items : List Item} {t : TaskStatus}
    → Stream all items t
    → t ≡ running
    → items ≡ map event all
Stream-running (whole e) r = e
Stream-running (stopped e) r = e
Stream-running (broken ps x e f) r = absurd (cc)

module _ (s : Session) (n : Notification) (consumed : List Item)
    (processed : List Notification) where
  abbrev after_round : Session → System
  after_round r = record { session = r; consumed = consumed; processed = processed ++ n ∷ [] }

  pub accepted_more :
      accepted s.session_id (processed ++ n ∷ [])
      ≡ accepted s.session_id processed ++ own s.session_id n
  accepted_more =
      accepted-append s.session_id processed (n ∷ [])
      ∙ ap (◌++◌ (accepted s.session_id processed)) (accepted-single s.session_id n)

  module _ (active : s.demux ≡ running)
      (so_far : consumed ++ s.events ≡ map event (accepted s.session_id processed))
      (bounded : length s.events ≤ s.event_queue_size) (positive : 0 < s.event_queue_size) where
    skip-Inv : own s.session_id n ≡ [] → Inv (after_round s)
    skip-Inv o = record {
      stream = subst (Stream _ _) (sym active) (
          whole (
            so_far
            ∙ ap (map event) (
                sym
                  (accepted_more ∙ ap (◌++◌ (accepted s.session_id processed)) o ∙ append-nil _))));
      bounded = bounded;
      positive = positive;
    }

    deliver-Inv :
        (e : SessionEvent) (d : Disk)
        → own s.session_id n ≡ e ∷ []
        → length s.events < s.event_queue_size
        → Inv (after_round (record s { disk = d; events = s.events ++ event e ∷ [] }))
    deliver-Inv e d o room = record {
      stream = subst (Stream _ _) (sym active) (
          whole (
            sym (append_assoc consumed s.events (event e ∷ []))
            ∙ ap (λ (l : List Item). l ++ event e ∷ []) so_far
            ∙ sym (map-append event (accepted s.session_id processed) (e ∷ []))
            ∙ ap (map event)
                (sym (accepted_more ∙ ap (◌++◌ (accepted s.session_id processed)) o))));
      bounded = omega (arith, length-append s.events (event e ∷ []));
      positive = positive;
    }

    fail-Inv : (x : Error) (d : Disk) → Inv (after_round (fail_with (record s { disk = d }) x))
    fail-Inv x d =
        let (ps, e, f) = split-map consumed s.events (accepted s.session_id processed) so_far in
        record {
          stream =
              broken ps x (ap (λ (l : List Item). l ++ failure x ∷ []) e) (
                subst (IsFirst ps) (sym accepted_more)
                  (IsFirst-append ps _ (own s.session_id n) f));
          bounded = positive;
          positive = positive;
        }

    round-Inv : (json : Json) (r : Session) → Cases json s n r → Inv (after_round r)
    round-Inv json r (inl c) =
        subst (λ (q : Session). Inv (after_round q)) (sym c.unchanged) (skip-Inv c.not_own)
    round-Inv json r (inr (inl c)) =
        subst (λ (q : Session). Inv (after_round q)) (sym c.result)
          (deliver-Inv c.delivered c.disk_after c.is_own c.room)
    round-Inv json r (inr (inr c)) =
        subst (λ (q : Session). Inv (after_round q)) (sym c.result) (fail-Inv c.reason c.disk_after)

pub demultiplex_busy :
    (json : Json) (io : WriteOutcome) (s : Session) (n : Notification) (rest : List Notification)
    → s.demux ≡ running
    → s.event_queue ≡ n ∷ rest
    → (demultiplex json io s ≡ handle_notification json io (record s { event_queue = rest }) n)
      × (taken s ≡ n ∷ [])
unfolding demultiplex taken
demultiplex_busy json io s n rest e f = (ground (arith, e, f), ground (arith, e, f))

pub demultiplex_idle :
    (json : Json) (io : WriteOutcome) (s : Session)
    → (s.demux ≢ running) ⊎ (s.event_queue ≡ [])
    → (demultiplex json io s ≡ s) × (taken s ≡ [])
unfolding demultiplex taken
demultiplex_idle json io s h = (ground (arith, h), ground (arith, h))

-- Is there a notification for the demultiplexer to take?
pub work-cases :
    (s : Session)
    → ((s.demux ≢ running) ⊎ (s.event_queue ≡ []))
      ⊎ ((s.demux ≡ running)
          × (n : Notification) × (rest : List Notification) × (s.event_queue ≡ n ∷ rest))
work-cases s = from s.demux s.event_queue refl refl
  where
    from :
        (t : TaskStatus) (q : List Notification)
        → s.demux ≡ t
        → s.event_queue ≡ q
        → ((s.demux ≢ running) ⊎ (s.event_queue ≡ []))
          ⊎ ((s.demux ≡ running)
              × (n : Notification) × (rest : List Notification) × (s.event_queue ≡ n ∷ rest))
    from running [] e f = inl (inr f)
    from running (n ∷ rest) e f = inr (e, n, rest, f)
    from finished q e f = inl (inl (λ g. cc))
    from cancelled q e f = inl (inl (λ g. cc))

demultiplexes-Inv :
    (json : Json) (io : WriteOutcome) (y : System) → Inv y → Inv (step json y (demultiplexes io))
unfolding step
demultiplexes-Inv json io y v = elim (work-cases y.session) [
  | inl idle ↦
      let (p, q) = demultiplex_idle json io y.session idle in
      subst Inv {x = y}
        (λ i. record {
          session = sym p i;
          consumed = y.consumed;
          processed = sym (ap (◌++◌ y.processed) q ∙ append-nil y.processed) i;
        })
        v
  | inr (active, n, rest, queue) ↦
      let (p, q) = demultiplex_busy json io y.session n rest active queue in
      let s : Session = record y.session { event_queue = rest } in
      subst Inv {x = after_round s n y.consumed y.processed (handle_notification json io s n)}
        (λ i. record {
          session = sym p i;
          consumed = y.consumed;
          processed = y.processed ++ sym q i;
        })
        (round-Inv s n y.consumed y.processed active (Stream-running v.stream active) v.bounded
          v.positive json (handle_notification json io s n) (handle_notification-Cases json io s n))
]

Stream-closes :
    (all : List SessionEvent) (items : List Item) (t : TaskStatus)
    → Stream all items t
    → Stream all items (elim t [ running ↦ cancelled | other ↦ other ])
Stream-closes all items running (whole e) = stopped e
Stream-closes all items cancelled s = s
Stream-closes all items finished s = s

arrives-Inv : (json : Json) (y : System) (n : Notification) → Inv y → Inv (step json y (arrives n))
unfolding step
arrives-Inv json y n v =
    subst Inv {x = record y { session = record y.session { event_queue = q } }}
      (λ i. record y { session = queued i })
      (record { stream = v.stream; bounded = v.bounded; positive = v.positive })
  where
    q : List Notification
    q = (notify n y.session).event_queue

    queued : record y.session { event_queue = q } ≡ notify n y.session
    queued = unfold notify in ground arith

consumes-Inv :
    (json : Json) (y : System) (xs : List Item)
    → y.session.events ≡ xs
    → Inv y
    → Inv (step json y consumes)
unfolding step next_event got
consumes-Inv json y [] e v = subst Inv {x = y} (ground (arith, e, append-nil y.consumed)) v
consumes-Inv json y (x ∷ rest) e v =
    subst Inv
      {x = record y {
        session = record y.session { events = rest };
        consumed = y.consumed ++ x ∷ [];
      }}
      (ground (arith, e))
      (record {
        stream =
            subst
              (λ (l : List Item).
                Stream (accepted y.session.session_id y.processed) l y.session.demux)
              (ap (◌++◌ y.consumed) e ∙ sym (append_assoc y.consumed (x ∷ []) rest)) v.stream;
        bounded = omega (arith, v.bounded, ap length e);
        positive = v.positive;
      })

closes-Inv : (json : Json) (y : System) → Inv y → Inv (step json y closes)
unfolding step begin_close
closes-Inv json y v = elim (Bool-cases y.session.closed) [
  | inl b ↦ subst Inv {x = y} (ground (arith, b)) v
  | inr b ↦
      subst Inv
        {x = record y {
          session = record y.session {
            closed = true;
            subscribed = false;
            demux = (elim y.session.demux [ running ↦ cancelled | other ↦ other ]);
          };
        }}
        (ground (arith, b))
        (record {
          stream = Stream-closes _ _ y.session.demux v.stream;
          bounded = v.bounded;
          positive = v.positive;
        })
]

pub step-Inv : (json : Json) (y : System) (e : Event) → Inv y → Inv (step json y e)
step-Inv json y (arrives n) v = arrives-Inv json y n v
step-Inv json y (demultiplexes io) v = demultiplexes-Inv json io y v
step-Inv json y consumes v = consumes-Inv json y y.session.events refl v
step-Inv json y closes v = closes-Inv json y v

run-Inv : (json : Json) (y : System) (es : List Event) → Inv y → Inv (run json y es)
unfolding run
run-Inv json y [] v = v
run-Inv json y (e ∷ es) v = run-Inv json (step json y e) es (step-Inv json y e v)

start-Inv :
    (s : String) (size : ℕ) (has_store : Bool) (d : Disk)
    → 0 < size
    → Inv (start (open_session s size has_store d))
unfolding start open_session accepted
start-Inv s size has_store d h = record { stream = whole refl; bounded = omega arith; positive = h }

-- In any interleaving of arrivals, rounds of the demultiplexer, reads of the consumer and closes,
-- the facade queue stays within its size; and what the consumer has got, with what it can still
-- get, is the accepted events of the session in order: all of them, or, once the demultiplexer has
-- ended by an error, the first ones and then that error.
pub run-Stream :
    (json : Json) (s : String) (size : ℕ) (has_store : Bool) (d : Disk) (es : List Event)
    → 0 < size
    → Inv (run json (start (open_session s size has_store d)) es)
run-Stream json s size has_store d es h = run-Inv json _ es (start-Inv s size has_store d h)
