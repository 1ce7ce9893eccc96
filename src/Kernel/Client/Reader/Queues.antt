-- ===== src/Kernel/Client/Reader/Queues.antt =====
-- What the steps of the reader do to one queue of notifications (kernel/client.py).
use mathlib.Core.List.{append_assoc, append-nil}
use astraship.Base.{
  ℕ, ◌<◌, ◌≡◌, refl, ◌∙◌, sym, ap, subst, inl, inr, Bool, true, false, not, some, List, [], ◌∷◌,
  ◌++◌, arith, ◌==◌, Bool-cases, if◌then◌else◌,
}
use astraship.Base.Int.{ℤ, pos, negsuc}
use astraship.Errors.{raise, kernel_state}
use astraship.Session.{Notification}
use astraship.Kernel.Client.Server.{World}
use astraship.Kernel.Client.Requests.{System, respond}
use astraship.Kernel.Client.Reader.{
  Action, responds, cancels, publishes, serves, fails, Subscriber, Connection, put_nowait, offer,
  publish, act, new_queue, subscribe, unsubscribe, take_first, take_from, next_notification,
}

-- The notifications that an action publishes, and whether it ends the reading.
abbrev pub emitted : Action → List Notification
emitted (publishes m) = m ∷ []
emitted a = []

abbrev pub stops : Action → Bool
stops (fails e) = true
stops a = false

-- The queue is there, has no bound, and these are what its consumer has taken and what stands in it.
pub record Holds (n : ℕ) (y : Connection) (all : List Notification) : Type 0 where
  pub subscriber : Subscriber
  pub subscribed : y.subscribers n ≡ some subscriber
  pub unbounded : subscriber.maxsize ≡ 0
  pub old : n < y.next_subscriber
  pub seen : subscriber.taken ++ subscriber.queue ≡ all

module _ (n : ℕ) (all : List Notification) where
  publish-Holds :
      (m : Notification) (y : Connection) → Holds n y all → Holds n (publish m y) (all ++ m ∷ [])
  unfolding publish offer put_nowait
  publish-Holds m y h =
      let s = h.subscriber in
      let t : Subscriber = record s { queue = s.queue ++ m ∷ [] } in
      let put : put_nowait m s ≡ t = ground (arith, h.unbounded) in
      record {
        subscriber = t;
        subscribed = ap (offer m) h.subscribed ∙ ap some put;
        unbounded = h.unbounded;
        old = h.old;
        seen = sym (append_assoc s.taken s.queue (m ∷ [])) ∙ ap (λ xs. xs ++ m ∷ []) h.seen;
      }

  take_first-Holds : (y : Connection) → Holds n y all → Holds n (take_from n y) all
  unfolding take_from take_first
  take_first-Holds y h = from h.subscriber.queue refl
    where
      from : (q : List Notification) → h.subscriber.queue ≡ q → Holds n (take_from n y) all
      from [] e = record {
        subscriber = h.subscriber;
        subscribed = ground (arith, h.subscribed, e);
        unbounded = h.unbounded;
        old = h.old;
        seen = h.seen;
      }
      from (m ∷ more) e = record {
        subscriber = record h.subscriber { queue = more; taken = h.subscriber.taken ++ m ∷ [] };
        subscribed = ground (arith, h.subscribed, e);
        unbounded = h.unbounded;
        old = h.old;
        seen =
            append_assoc h.subscriber.taken (m ∷ []) more
            ∙ ap (◌++◌ h.subscriber.taken) (sym e)
            ∙ h.seen;
      }

  pub take_from-Holds : (k : ℕ) (y : Connection) → Holds n y all → Holds n (take_from k y) all
  unfolding take_from
  take_from-Holds k y h = elim (Bool-cases (k == n)) [
    | inl b ↦
        let same : k ≡ n = ground (arith, b) in
        subst (λ j. Holds n (take_from j y) all) (sym same) (take_first-Holds y h)
    | inr b ↦ record {
      subscriber = h.subscriber;
      subscribed = ground (arith, b, h.subscribed);
      unbounded = h.unbounded;
      old = h.old;
      seen = h.seen;
    }
  ]

  new_queue-Holds : (k : ℤ) (y : Connection) → Holds n y all → Holds n (new_queue k y).0 all
  unfolding new_queue
  new_queue-Holds (negsuc k) y h = h
  new_queue-Holds (pos k) y h = record {
    subscriber = h.subscriber;
    subscribed = ground (arith, h.old, h.subscribed);
    unbounded = h.unbounded;
    old = omega (arith, h.old);
    seen = h.seen;
  }

  pub subscribe-Holds : (k : ℤ) (y : Connection) → Holds n y all → Holds n (subscribe k y).0 all
  unfolding subscribe
  subscribe-Holds k y h = from y.system.client.closed
    where
      from :
          (b : Bool)
          → Holds n
              (if b then (y, raise kernel_state "kernel client is closed") else new_queue k y).0
              all
      from true = h
      from false = new_queue-Holds k y h

  pub unsubscribe-Holds :
      (k : ℕ) (y : Connection) → (k == n) ≡ false → Holds n y all → Holds n (unsubscribe k y) all
  unfolding unsubscribe
  unsubscribe-Holds k y b h = record {
    subscriber = h.subscriber;
    subscribed = ground (arith, b, h.subscribed);
    unbounded = h.unbounded;
    old = h.old;
    seen = h.seen;
  }

  pub next_notification-Holds : (y : Connection) → Holds n y all → Holds n (next_notification y) all
  unfolding next_notification
  next_notification-Holds y h = from y.notifications
    where
      from :
          (ms : List Notification)
          → Holds n
              (elim ms as (λ x. Connection) [
                | [] ↦ y
                | m ∷ more ↦ record y { notifications = more }
              ])
              all
      from [] = h
      from (m ∷ more) = record {
        subscriber = h.subscriber;
        subscribed = h.subscribed;
        unbounded = h.unbounded;
        old = h.old;
        seen = h.seen;
      }

  only_system :
      (z : System) (b : Bool) (y : Connection)
      → Holds n y all
      → Holds n (record y { system = z; reading = b }) (all ++ [])
  only_system z b y h = record {
    subscriber = h.subscriber;
    subscribed = h.subscribed;
    unbounded = h.unbounded;
    old = h.old;
    seen = h.seen ∙ sym (append-nil all);
  }

  -- Only a published notification comes to a queue.
  pub act-Holds :
      (w : World) (a : Action) (y : Connection)
      → Holds n y all
      → Holds n (act w a y) (all ++ emitted a)
  unfolding act
  act-Holds w (publishes m) y h = publish-Holds m y h
  act-Holds w (responds r) y h = only_system (respond r y.system) y.reading y h
  act-Holds w (cancels params) y h = only_system _ y.reading y h
  act-Holds w (serves i method) y h = only_system _ y.reading y h
  act-Holds w (fails e) y h = only_system _ false y h

pub act-reading :
    (w : World) (a : Action) (y : Connection)
    → y.reading ≡ true
    → (act w a y).reading ≡ not (stops a)
unfolding act publish
act-reading w (publishes m) y h = h
act-reading w (responds r) y h = h
act-reading w (cancels params) y h = h
act-reading w (serves i method) y h = h
act-reading w (fails e) y h = refl

pub subscribe-reading : (k : ℤ) (y : Connection) → (subscribe k y).0.reading ≡ y.reading
unfolding subscribe new_queue
subscribe-reading k y = ground arith

pub next_notification-reading : (y : Connection) → (next_notification y).reading ≡ y.reading
unfolding next_notification
next_notification-reading y = ground arith
