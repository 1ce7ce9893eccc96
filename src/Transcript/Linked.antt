-- ===== src/Transcript/Linked.antt =====
-- What has come to the queue of a session of session.py from kernel/client.py.
use mathlib.Core.List.{append_assoc, append-nil}
use astraship.Base.{
  ℕ, ◌≡◌, refl, ◌∙◌, sym, ap, subst, ◌⊎◌, inl, inr, Bool, true, false, List, [], ◌∷◌, ◌++◌, arith,
}
use astraship.Value.Json.{Json}
use astraship.Persistence.{Disk, WriteOutcome}
use astraship.Session.{
  Notification, Item, TaskStatus, running, finished, Session, notify, handle_notification,
  next_event,
}
use astraship.Session.Delivery.{System, arrives, step as session_step, run as session_run}
use astraship.Session.Delivery.Cases.{Cases, handle_notification-Cases}
use astraship.Session.Delivery.Order.{demultiplex_busy, demultiplex_idle, work-cases}
use astraship.Kernel.Client.Server.{World}
use astraship.Kernel.Client.Reader.{Connection, Event, take_from, step as client_step}
use astraship.Kernel.Client.Reader.Delivery.{arrivals}
use astraship.Transcript.Queue.{
  untouched, HasQueue, client_step-HasQueue, take_from-HasQueue, take_none-HasQueue,
}
use astraship.Transcript.{
  Pipeline, Task, client_runs, demux_runs, consumer_runs, session_closes, arrive, demux_takes,
  perform,
}

-- The two models of the queue agree, and these are the notifications that came to it.
pub record Linked (y : Pipeline) (all : List Notification) : Type 0 where
  pub subscribed : y.system.session.subscribed ≡ true
  pub active : y.system.session.demux ≡ running
  pub queued : HasQueue y.queue y.connection y.system.processed y.system.session.event_queue
  pub seen : y.system.processed ++ y.system.session.event_queue ≡ all

abbrev pub Alive : Pipeline → List Notification → Type 0
Alive y all = (y.system.session.demux ≡ finished) ⊎ Linked y all

abbrev waits : List Notification → System → System
waits ms s = record s { session = record s.session { event_queue = s.session.event_queue ++ ms } }

arrive-waits :
    (json : Json) (ms : List Notification) (s : System)
    → s.session.subscribed ≡ true
    → arrive json ms s ≡ waits ms s
unfolding arrive session_run session_step notify
arrive-waits json [] s h = λ i. record s {
  session = record s.session { event_queue = sym (append-nil s.session.event_queue) i };
}
arrive-waits json (m ∷ ms) s h =
    ap (arrive json ms) {x = session_step json s (arrives m)} {y = waits (m ∷ []) s}
      (ground (arith, h))
    ∙ arrive-waits json ms (waits (m ∷ []) s) h
    ∙ (λ i. record s {
      session = record s.session { event_queue = append_assoc s.session.event_queue (m ∷ []) ms i };
    })

arrive-demux :
    (json : Json) (ms : List Notification) (s : System)
    → (arrive json ms s).session.demux ≡ s.session.demux
unfolding arrive session_run session_step
arrive-demux json [] s = refl
arrive-demux json (m ∷ ms) s =
    arrive-demux json ms (session_step json s (arrives m)) ∙ unfold notify in ground arith

client_runs-Alive :
    (w : World) (y : Pipeline) (all : List Notification) (e : Event)
    → untouched y.queue e ≡ true
    → Alive y all
    → Alive (perform w y (client_runs e)) (all ++ arrivals w.json y.connection e)
unfolding perform
client_runs-Alive w y all e u (inl f) = inl (arrive-demux w.json _ y.system ∙ f)
client_runs-Alive w y all e u (inr h) =
    let ms = arrivals w.json y.connection e in
    inr (
      subst
        (λ s.
          Linked (record y { connection = client_step w y.connection e; system = s }) (all ++ ms))
        (sym (arrive-waits w.json ms y.system h.subscribed))
        (record {
          subscribed = h.subscribed;
          active = h.active;
          queued =
              client_step-HasQueue y.queue y.system.processed y.system.session.event_queue w
                y.connection e u h.queued;
          seen =
              sym (append_assoc y.system.processed y.system.session.event_queue ms)
              ∙ ap (λ xs. xs ++ ms) h.seen;
        }))

module _ (json : Json) (y : Pipeline) (all : List Notification) (m : Notification)
    (rest : List Notification) where
  abbrev round : Session → Pipeline
  round r = record y {
    connection = take_from y.queue y.connection;
    system = record y.system { session = r; processed = y.system.processed ++ m ∷ [] };
  }

  -- A round that goes on changes the disk and the facade queue.
  kept :
      (d : Disk) (items : List Item)
      → y.system.session.event_queue ≡ m ∷ rest
      → Linked y all
      → Linked
          (round (record y.system.session { event_queue = rest; disk = d; events = items }))
          all
  kept d items q h = record {
    subscribed = h.subscribed;
    active = h.active;
    queued =
        take_from-HasQueue y.queue y.system.processed rest m y.connection
          (subst (HasQueue y.queue y.connection y.system.processed) q h.queued);
    seen =
        append_assoc y.system.processed (m ∷ []) rest
        ∙ ap (◌++◌ y.system.processed) (sym q)
        ∙ h.seen;
  }

  round-Alive :
      (r : Session)
      → y.system.session.event_queue ≡ m ∷ rest
      → Linked y all
      → Cases json (record y.system.session { event_queue = rest }) m r
      → Alive (round r) all
  round-Alive r q h (inl c) = inr (
      subst (λ s. Linked (round s) all) (sym c.unchanged)
        (kept y.system.session.disk y.system.session.events q h))
  round-Alive r q h (inr (inl c)) =
      inr (subst (λ s. Linked (round s) all) (sym c.result) (kept c.disk_after _ q h))
  round-Alive r q h (inr (inr c)) = inl (ap (λ s. s.demux) c.result)

demux_runs-Linked :
    (w : World) (y : Pipeline) (all : List Notification) (io : WriteOutcome)
    → Linked y all
    → Alive (perform w y (demux_runs io)) all
unfolding perform demux_takes session_step
demux_runs-Linked w y all io h = elim (work-cases y.system.session) [
  | inl (inl idle) ↦ absurd (idle h.active)
  | inl (inr empty) ↦
      let (p, q) = demultiplex_idle w.json io y.system.session (inr empty) in
      inr (
        subst (λ x. Linked x all)
          (λ i. record y {
            connection = takes (sym h.active) i;
            system = record y.system {
              session = sym p i;
              processed = sym (ap (◌++◌ y.system.processed) q ∙ append-nil y.system.processed) i;
            };
          })
          (record {
            subscribed = h.subscribed;
            active = h.active;
            queued = subst (HasQueue y.queue _ y.system.processed) (sym empty) (
                take_none-HasQueue y.queue y.system.processed y.connection
                  (subst (HasQueue y.queue y.connection y.system.processed) empty h.queued));
            seen = h.seen;
          }))
  | inr (active, m, rest, queue) ↦
      let (p, q) = demultiplex_busy w.json io y.system.session m rest active queue in
      let s : Session = record y.system.session { event_queue = rest } in
      subst (λ x. Alive x all) {x = round w.json y all m rest (handle_notification w.json io s m)}
        (λ i. record y {
          connection = takes (sym h.active) i;
          system = record y.system { session = sym p i; processed = y.system.processed ++ sym q i };
        })
        (round-Alive w.json y all m rest (handle_notification w.json io s m) queue h
          (handle_notification-Cases w.json io s m))
]
  where
    takes :
        {t : TaskStatus}
        → running ≡ t
        → take_from y.queue y.connection ≡ (elim t as (λ x. Connection) [
          | running ↦ take_from y.queue y.connection
          | _ ↦ y.connection
        ])
    takes e = ground (arith, e)

next_event-only_events :
    (s : Session) → (items : List Item) × ((next_event s).0 ≡ record s { events = items })
unfolding next_event
next_event-only_events s = from s.events refl
  where
    from :
        (xs : List Item)
        → s.events ≡ xs
        → (items : List Item) × ((next_event s).0 ≡ record s { events = items })
    from [] e = (s.events, ground (arith, e))
    from (x ∷ rest) e = (rest, ground (arith, e))

consumer_runs-Alive :
    (w : World) (y : Pipeline) (all : List Notification)
    → Alive y all
    → Alive (perform w y consumer_runs) all
unfolding perform session_step
consumer_runs-Alive w y all v =
    let (items, e) = next_event-only_events y.system.session in
    let z : System = (perform w y consumer_runs).system in
    subst (λ s. Alive (record y { system = record z { session = s } }) all) (sym e)
      (elim v [
        | inl f ↦ inl f
        | inr h ↦ inr (record {
          subscribed = h.subscribed;
          active = h.active;
          queued = h.queued;
          seen = h.seen;
        })
      ])

-- The notifications that a task brings.
abbrev pub brings : World → Pipeline → Task → List Notification
brings w y (client_runs e) = arrivals w.json y.connection e
brings w y t = []

-- The session is not closed, and its queue is left to it.
abbrev pub keeps : ℕ → Task → Bool
keeps n (client_runs e) = untouched n e
keeps n session_closes = false
keeps n t = true

pub perform-Alive :
    (w : World) (y : Pipeline) (all : List Notification) (t : Task)
    → keeps y.queue t ≡ true
    → Alive y all
    → Alive (perform w y t) (all ++ brings w y t)
unfolding perform session_step
perform-Alive w y all (client_runs e) k v = client_runs-Alive w y all e k v
perform-Alive w y all (demux_runs io) k (inr h) =
    subst (Alive (perform w y (demux_runs io))) (sym (append-nil all))
      (demux_runs-Linked w y all io h)
perform-Alive w y all (demux_runs io) k (inl f) =
    inl (
      ap (λ s. s.demux) (demultiplex_idle w.json io y.system.session (inl (λ r. absurd (cc)))).0
      ∙ f)
perform-Alive w y all consumer_runs k v =
    subst (Alive (perform w y consumer_runs)) (sym (append-nil all)) (consumer_runs-Alive w y all v)
perform-Alive w y all session_closes k v = absurd (cc)
