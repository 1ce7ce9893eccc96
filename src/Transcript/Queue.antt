-- ===== src/Transcript/Queue.antt =====
-- What the client of kernel/client.py does to the queue of one session.
use mathlib.Core.List.{append-nil}
use astraship.Base.{
  ℕ, ◌<◌, ◌≡◌, refl, ◌∙◌, sym, ap, Bool, true, false, not, Option, some, List, [], ◌∷◌, ◌++◌, arith,
  ◌==◌, if◌then◌else◌,
}
use astraship.Base.Int.{ℤ, pos, negsuc}
use astraship.Errors.{raise, kernel_state}
use astraship.Session.{Notification}
use astraship.Kernel.Client.Server.{World}
use astraship.Kernel.Client.Reader.{
  Action, responds, cancels, publishes, serves, fails, Subscriber, Connection, Event, reads,
  subscribes, unsubscribes, takes, takes_next, read_line, put_nowait, offer, publish, act,
  new_queue, subscribe, unsubscribe, take_first, take_from, step as client_step,
}
use astraship.Kernel.Client.Reader.Queues.{emitted}
use astraship.Kernel.Client.Reader.Delivery.{arrivals}

-- Only the session takes from its queue, and it is not given up.
abbrev pub untouched : ℕ → Event → Bool
untouched n (unsubscribes k) = not (k == n)
untouched n (takes k) = not (k == n)
untouched n e = true

-- A queue that has no bound, and a number that was given.
abbrev pub unbounded : List Notification → List Notification → Option Subscriber
unbounded seen waiting = some (record { maxsize = 0; queue = waiting; taken = seen })

pub record HasQueue (n : ℕ) (c : Connection) (seen waiting : List Notification) : Type 0 where
  pub there : c.subscribers n ≡ unbounded seen waiting
  pub old : n < c.next_subscriber

module _ (n : ℕ) (seen waiting : List Notification) where
  abbrev Same : Connection → Type 0
  Same c = HasQueue n c seen (waiting ++ [])

  same :
      (c d : Connection)
      → d.subscribers n ≡ c.subscribers n
      → n < d.next_subscriber
      → HasQueue n c seen waiting
      → Same d
  same c d e o h = record {
    there = e ∙ h.there ∙ ap (unbounded seen) (sym (append-nil waiting));
    old = o;
  }

  act-HasQueue :
      (w : World) (a : Action) (c : Connection)
      → HasQueue n c seen waiting
      → HasQueue n (act w a c) seen (waiting ++ emitted a)
  unfolding act publish offer put_nowait
  act-HasQueue w (publishes m) c h = record { there = ap (offer m) h.there; old = h.old }
  act-HasQueue w (responds r) c h = same c (act w (responds r) c) refl h.old h
  act-HasQueue w (cancels params) c h = same c (act w (cancels params) c) refl h.old h
  act-HasQueue w (serves i method) c h = same c (act w (serves i method) c) refl h.old h
  act-HasQueue w (fails e) c h = same c (act w (fails e) c) refl h.old h

  subscribe-HasQueue : (k : ℤ) (c : Connection) → HasQueue n c seen waiting → Same (subscribe k c).0
  unfolding subscribe new_queue
  subscribe-HasQueue k c h = from c.system.client.closed k
    where
      from :
          (b : Bool) (k : ℤ)
          → Same (if b then (c, raise kernel_state "kernel client is closed") else new_queue k c).0
      from true k = same c c refl h.old h
      from false (negsuc k) = same c c refl h.old h
      from false (pos k) =
          same c (new_queue (pos k) c).0 (ground (arith, h.old)) (omega (arith, h.old)) h

  -- An event of the client adds the notifications that it brings to the queue.
  pub client_step-HasQueue :
      (w : World) (c : Connection) (e : Event)
      → untouched n e ≡ true
      → HasQueue n c seen waiting
      → HasQueue n (client_step w c e) seen (waiting ++ arrivals w.json c e)
  unfolding client_step arrivals
  client_step-HasQueue w c (subscribes k) u h = subscribe-HasQueue k c h
  client_step-HasQueue w c (unsubscribes k) u h =
      same c (unsubscribe k c) (unfold unsubscribe in ground (arith, u)) h.old h
  client_step-HasQueue w c (takes k) u h =
      same c (take_from k c) (unfold take_from in ground (arith, u)) h.old h
  client_step-HasQueue w c (takes_next) u h = from c.notifications
    where
      from :
          (ms : List Notification)
          → Same (elim ms as (λ x. Connection) [
            | [] ↦ c
            | m ∷ more ↦ record c { notifications = more }
          ])
      from [] = same c c refl h.old h
      from (m ∷ more) = same c (record c { notifications = more }) refl h.old h
  client_step-HasQueue w c (reads line) u h = from c.reading
    where
      from :
          (b : Bool)
          → HasQueue n
              (if b then act w (read_line w.json line) c else c)
              seen
              (waiting ++ (if b then emitted (read_line w.json line) else []))
      from true = act-HasQueue w (read_line w.json line) c h
      from false = same c c refl h.old h

-- The get of its consumer, at a queue with something in it and at an empty one.
pub take_from-HasQueue :
    (n : ℕ) (seen rest : List Notification) (m : Notification) (c : Connection)
    → HasQueue n c seen (m ∷ rest)
    → HasQueue n (take_from n c) (seen ++ m ∷ []) rest
unfolding take_from take_first
take_from-HasQueue n seen rest m c h = record { there = ground (arith, h.there); old = h.old }

pub take_none-HasQueue :
    (n : ℕ) (seen : List Notification) (c : Connection)
    → HasQueue n c seen []
    → HasQueue n (take_from n c) seen []
unfolding take_from take_first
take_none-HasQueue n seen c h = record { there = ground (arith, h.there); old = h.old }
