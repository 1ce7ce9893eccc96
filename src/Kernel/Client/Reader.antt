-- ===== src/Kernel/Client/Reader.antt =====
-- `_read_stdout` of kernel/client.py: what each line of Felix sets off, and the queues of
-- notifications. A line is read and dispatched in one event; the consumers of the queues run between.
pub mod Queues
pub mod Delivery
mod Tests
use astraship.Base.{
  ℕ, suc, String, Bool, true, false, not, ◌&&◌, ◌||◌, Option, none, some, List, [], ◌∷◌, ◌++◌,
  str_eq, ltb, ◌==◌, if◌then◌else◌, length,
}
use astraship.Base.Int.{ℤ, pos, negsuc}
use astraship.Errors.{
  Error, Result, ok, err, raise, lit, kernel_protocol, kernel_state, value_error,
}
use astraship.Value.{Value}
use astraship.Value.Json.{Json}
use astraship.Session.{Notification}
use astraship.Kernel.Protocol.{
  RequestId, WireMessage, response, notification, server_request, decode_message,
}
use astraship.Kernel.Client.{Client, as_transport_error}
use astraship.Kernel.Client.Server.{World, dispatch_server_request, cancel_server_request}
use astraship.Kernel.Client.Requests.{System, Received, respond, transport_failure}

-- What a line sets off.
pub data Action : Type 0 where
  responds : Received → Action
  cancels : Value → Action
  publishes : Notification → Action
  serves : RequestId → String → Action
  fails : Error → Action

abbrev pub not_utf8 : Error
not_utf8 = record { class = kernel_protocol; message = lit "Felix emitted non-UTF-8 output" ∷ [] }

-- The branches on the class of the message.
unfoldable pub action_of : Result WireMessage → Action
action_of (err e) = fails (as_transport_error e)
action_of (ok (response i v e)) = responds (record { request_id = i; result = v; error = e })
action_of (ok (server_request i method params)) = serves i method
action_of (ok (notification method params)) =
    if str_eq method "$/cancelRequest"
    then cancels params
    else publishes (record { method = method; params = params })

-- A line that is no UTF-8 is `none`.
unfoldable pub read_line : Json → Option String → Action
unfolding action_of
read_line json none = fails not_utf8
read_line json (some line) = action_of (decode_message json line)

-- A queue of `subscribe_notifications`; the size 0 is no bound. What its consumer has taken from it is
-- kept for the statements.
pub record Subscriber : Type 0 where
  pub maxsize : ℕ
  pub queue : List Notification
  pub taken : List Notification

-- The client with its requests, `_notifications` and `_notification_subscribers`, and whether
-- `_read_stdout` still runs.
pub record Connection : Type 0 where
  pub system : System
  pub notifications : List Notification
  pub subscribers : ℕ → Option Subscriber
  pub next_subscriber : ℕ
  pub reading : Bool

-- `put_nowait`, where a full queue drops the notification.
unfoldable pub put_nowait : Notification → Subscriber → Subscriber
put_nowait m s =
    if s.maxsize == 0 || ltb (length s.queue) s.maxsize
    then record s { queue = s.queue ++ m ∷ [] }
    else s

unfoldable pub offer : Notification → Option Subscriber → Option Subscriber
unfolding put_nowait
offer m none = none
offer m (some s) = some (put_nowait m s)

unfoldable pub publish : Notification → Connection → Connection
unfolding offer
publish m y = record y {
  notifications = y.notifications ++ m ∷ [];
  subscribers = λ n. offer m (y.subscribers n);
}

abbrev on_client : (Client → Client) → Connection → Connection
on_client f y = record y { system = record y.system { client = f y.system.client } }

unfoldable pub act : World → Action → Connection → Connection
unfolding publish respond transport_failure dispatch_server_request cancel_server_request
act w (responds r) y = record y { system = respond r y.system }
act w (cancels params) y = on_client (cancel_server_request w params) y
act w (publishes m) y = publish m y
act w (serves i method) y = on_client (dispatch_server_request w i method) y
act w (fails e) y = on_client (transport_failure e) (record y { reading = false })

unfoldable pub new_queue : ℤ → Connection → Connection × Result ℕ
new_queue (negsuc k) y = (y, raise value_error "maxsize cannot be negative")
new_queue (pos k) y = (
  record y {
    subscribers = λ n.
        if y.next_subscriber == n
        then some (record { maxsize = k; queue = []; taken = [] })
        else y.subscribers n;
    next_subscriber = suc y.next_subscriber;
  },
  ok y.next_subscriber,
)

-- `subscribe_notifications`, with the number of the new queue.
unfoldable pub subscribe : ℤ → Connection → Connection × Result ℕ
unfolding new_queue
subscribe maxsize y =
    if y.system.client.closed
    then (y, raise kernel_state "kernel client is closed")
    else new_queue maxsize y

-- `unsubscribe_notifications`
unfoldable pub unsubscribe : ℕ → Connection → Connection
unsubscribe n y = record y { subscribers = λ k. if n == k then none else y.subscribers k }

-- A `get` of the consumer.
unfoldable pub take_first : Subscriber → Subscriber
take_first s = elim s.queue [
  | [] ↦ s
  | m ∷ more ↦ record s { queue = more; taken = s.taken ++ m ∷ [] }
]

unfoldable pub take_from : ℕ → Connection → Connection
unfolding take_first
take_from n y = record y {
  subscribers = λ k.
      if n == k
      then (elim (y.subscribers k) [ none ↦ none | some s ↦ some (take_first s) ])
      else y.subscribers k;
}

-- The get of `next_notification`, where one is there.
unfoldable pub next_notification : Connection → Connection
next_notification y = elim y.notifications [ [] ↦ y | m ∷ more ↦ record y { notifications = more } ]

pub data Event : Type 0 where
  -- a line is read; a queue is made, given up, or asked for a notification
  reads : Option String → Event
  subscribes : ℤ → Event
  unsubscribes takes : ℕ → Event
  takes_next : Event

unfoldable pub step : World → Connection → Event → Connection
unfolding act read_line subscribe unsubscribe take_from next_notification
step w y (reads line) = if y.reading then act w (read_line w.json line) y else y
step w y (subscribes maxsize) = (subscribe maxsize y).0
step w y (unsubscribes n) = unsubscribe n y
step w y (takes n) = take_from n y
step w y takes_next = next_notification y

unfoldable pub run : World → Connection → List Event → Connection
unfolding step
run w y [] = y
run w y (e ∷ es) = run w (step w y e) es
