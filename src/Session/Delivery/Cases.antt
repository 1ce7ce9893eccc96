-- ===== src/Session/Delivery/Cases.antt =====
-- The three ways in which a round of the demultiplexer of session.py ends.
use astraship.Base.{
  ◌<◌, ◌≡◌, refl, subst, ◌⊎◌, inl, inr, true, false, [], ◌∷◌, ◌++◌, arith, str_eq, length, ltb,
  Bool-cases,
}
use astraship.Errors.{Error, Result, ok, err, Result-cases}
use astraship.Value.Json.{Json}
use astraship.Persistence.{SessionEvent, Disk, WriteOutcome, written, append}
use astraship.Persistence.RoundTrip.{append-written}
use astraship.Session.{
  Notification, event, Session, parse_event, fail_with, deliver, after_append, store_and_deliver,
  handle_event, handle_notification, overflow_error,
}
use astraship.Session.Delivery.{own}

-- The event was stored, if there is a store.
pub record IsStored (json : Json) (s : Session) (e : SessionEvent) (d : Disk) : Type 0 where
  pub stored : s.has_store ≡ true → append json written e s.disk ≡ (d, ok tt)
  pub unstored : s.has_store ≡ false → d ≡ s.disk

pub record Delivers (json : Json) (s : Session) (n : Notification) (r : Session) : Type 0 where
  pub delivered : SessionEvent
  pub disk_after : Disk
  pub is_own : own s.session_id n ≡ delivered ∷ []
  pub room : length s.events < s.event_queue_size
  pub result : r ≡ record s { disk = disk_after; events = s.events ++ event delivered ∷ [] }
  pub is_stored : IsStored json s delivered disk_after

pub record Skips (s : Session) (n : Notification) (r : Session) : Type 0 where
  pub not_own : own s.session_id n ≡ []
  pub unchanged : r ≡ s

pub record Fails (s : Session) (r : Session) : Type 0 where
  pub reason : Error
  pub disk_after : Disk
  pub result : r ≡ fail_with (record s { disk = disk_after }) reason

abbrev pub Cases : Json → Session → Notification → Session → Type 0
Cases json s n r = Skips s n r ⊎ (Delivers json s n r ⊎ Fails s r)

deliver-Cases :
    (json : Json) (s : Session) (n : Notification) (e : SessionEvent) (d : Disk)
    → own s.session_id n ≡ e ∷ []
    → IsStored json s e d
    → Cases json s n (deliver (record s { disk = d }) e)
unfolding deliver
deliver-Cases json s n e d o i = elim (Bool-cases (ltb (length s.events) s.event_queue_size)) [
  | inl b ↦ inr (
      inl (record {
        delivered = e;
        disk_after = d;
        is_own = o;
        room = ground (arith, b);
        result = rw b;
        is_stored = i;
      }))
  | inr b ↦
      inr
        (inr (record { reason = overflow_error s.event_queue_size; disk_after = d; result = rw b }))
]

after_append-Cases :
    (json : Json) (io : WriteOutcome) (s : Session) (n : Notification) (e : SessionEvent)
    (a : Disk × Result (Unit {0}))
    → own s.session_id n ≡ e ∷ []
    → s.has_store ≡ true
    → append json io e s.disk ≡ a
    → Cases json s n (after_append s e a)
unfolding after_append
after_append-Cases json io s n e (d, ok tt) o h a =
    deliver-Cases json s n e d o
      (record { stored = λ _. append-written json io e s.disk d a; unstored = λ f. absurd (cc) })
after_append-Cases json io s n e (d, err x) o h a =
    inr (inr (record { reason = x; disk_after = d; result = refl }))

store_and_deliver-Cases :
    (json : Json) (io : WriteOutcome) (s : Session) (n : Notification) (e : SessionEvent)
    → own s.session_id n ≡ e ∷ []
    → Cases json s n (store_and_deliver json io s e)
unfolding store_and_deliver
store_and_deliver-Cases json io s n e o = elim (Bool-cases s.has_store) [
  | inl h ↦
      subst (Cases json s n) {x = after_append s e (append json io e s.disk)} (ground (arith, h))
        (after_append-Cases json io s n e (append json io e s.disk) o h refl)
  | inr h ↦ subst (Cases json s n) {x = deliver s e} (ground (arith, h)) (
      deliver-Cases json s n e s.disk o
        (record { stored = λ t. absurd (cc); unstored = λ _. refl }))
]

-- A round passes over a notification that carries no event of the session; or it delivers the event,
-- which is then stored and finds room in the queue; or the demultiplexer ends with an error.
pub handle_notification-Cases :
    (json : Json) (io : WriteOutcome) (s : Session) (n : Notification)
    → Cases json s n (handle_notification json io s n)
unfolding handle_notification handle_event own
handle_notification-Cases json io s n = elim (Bool-cases (str_eq n.method "session.event")) [
  | inr m ↦ inl (record { not_own = rw m; unchanged = rw m })
  | inl m ↦ elim (Result-cases (parse_event n.params)) [
    | inr (x, p) ↦
        inr (inr (record { reason = x; disk_after = s.disk; result = ground (arith, m, p) }))
    | inl (e, p) ↦ elim (Bool-cases (str_eq e.session_id s.session_id)) [
      | inr i ↦
          inl (record { not_own = ground (arith, m, p, i); unchanged = ground (arith, m, p, i) })
      | inl i ↦
          subst (Cases json s n) {x = store_and_deliver json io s e} (ground (arith, m, p, i))
            (store_and_deliver-Cases json io s n e (ground (arith, m, p, i)))
    ]
  ]
]
