-- ===== src/Session.antt =====
-- session.py: one Felix session, its operations and its demultiplexer. What the client answers, how
-- a write to the store ends, and which task runs next, are arguments.
pub mod Delivery
mod Tests
use astraship.Base.{
  ℕ, zero, suc, ◌+◌, String, ◌≡◌, Bool, true, false, not, ◌&&◌, ◌||◌, Option, none, some, List, [],
  ◌∷◌, ◌++◌, str_eq, ltb, if◌then◌else◌, length, map,
}
use astraship.Base.Int.{ℤ, pos, negsuc, leb_ℤ}
use astraship.Base.Text.{is_nonempty, is_blank}
use astraship.Errors.{
  ErrorClass, Error, Message, lit, nat, Result, ok, err, raise, raise_if, ◌>>=◌, ◌>>◌,
  kernel_protocol, session_state, session_overflow, value_error,
}
use astraship.Value.{Value, null, str, obj, Fields, end, field, get_or_null}
use astraship.Value.Json.{Json}
use astraship.Persistence.{SessionEvent, Disk, WriteOutcome, append, read}

-- `Notification` of kernel/protocol.py, as the client hands it on.
pub record Notification : Type 0 where
  pub method : String
  pub params : Value

-- A text that is not empty, at a key.
required_text : Fields → String → String → Result String
required_text fs k message = elim (get_or_null fs k) [
  | str s ↦ if is_nonempty s then ok s else raise kernel_protocol message
  | _ ↦ raise kernel_protocol message
]

required_object : Fields → String → String → Result Fields
required_object fs k message = elim (get_or_null fs k) [
  | obj gs ↦ ok gs
  | _ ↦ raise kernel_protocol message
]

-- `_parse_event`
unfoldable pub parse_event : Value → Result SessionEvent
unfolding required_text required_object
parse_event (obj fs) = do
  session_id ← required_text fs "sessionId" "session.event requires sessionId"
  payload ← required_object fs "event" "session.event requires event object"
  type ← required_text payload "type" "session.event requires event type"
  info ← required_object payload "data" "session.event requires data object"
  ok (record { session_id = session_id; type = type; info = info })
parse_event v = raise kernel_protocol "session.event params must be an object"

-- What stands in the facade queue `_events`.
pub data Item : Type 0 where
  event : SessionEvent → Item
  failure : Error → Item

pub data TaskStatus : Type 0 where
  running finished cancelled : TaskStatus

pub record Session : Type 0 where
  pub session_id : String
  -- `_event_queue`, the subscription at the client, and whether it is still subscribed
  pub event_queue : List Notification
  pub subscribed : Bool
  pub event_queue_size : ℕ
  pub events : List Item
  -- `_store`
  pub has_store : Bool
  pub disk : Disk
  pub demux : TaskStatus
  pub closed : Bool
  pub remote_closed : Bool

-- `__init__`
unfoldable pub open_session : String → ℕ → Bool → Disk → Session
open_session session_id size has_store disk = record {
  session_id = session_id;
  event_queue = [];
  subscribed = true;
  event_queue_size = size;
  events = [];
  has_store = has_store;
  disk = disk;
  demux = running;
  closed = false;
  remote_closed = false;
}

-- `value["k"]`, for a result that has to be an object with a text there.
text_result : String → String → String → Value → Result String
text_result k missing empty (obj fs) = elim (get_or_null fs k) [
  | str s ↦ if is_nonempty s then ok s else raise kernel_protocol empty
  | _ ↦ raise kernel_protocol missing
]
text_result k missing empty v = raise kernel_protocol missing

session_size : ℤ → Result ℕ
session_size (pos (suc n)) = ok (suc n)
session_size _ = raise value_error "event_queue_size must be greater than zero"

-- `create`, where `answer` is what `client.request("session/new", {})` does.
unfoldable pub create : ℤ → Bool → Disk → Result Value → Result Session
unfolding session_size text_result open_session
create event_queue_size has_store disk answer = do
  size ← session_size event_queue_size
  value ← answer
  session_id ←
      text_result "sessionId" "session/new result requires sessionId"
        "session/new result requires non-empty sessionId" value
  ok (open_session session_id size has_store disk)

-- `_require_open`
unfoldable pub require_open : Session → Result (Unit {0})
require_open s = raise_if s.closed session_state "session is closed"

-- `prompt`: the parameters that it sends. The request is not made where this raises.
unfoldable pub prompt_request : Session → String → Result Value
unfolding require_open
prompt_request s content = do
  require_open s
  raise_if (is_blank content) session_state "prompt content must be non-empty"
  ok (obj (field "sessionId" (str s.session_id) (field "content" (str content) end)))

-- The rest of `prompt`: the receipt's message ID.
unfoldable pub prompt_receipt : Value → Result String
unfolding text_result
prompt_receipt =
    text_result "messageId" "session/prompt result requires messageId"
      "session/prompt result requires non-empty messageId"

unfoldable pub prompt : Session → String → (Value → Result Value) → Result String
unfolding prompt_request prompt_receipt
prompt s content client = do
  params ← prompt_request s content
  value ← client params
  prompt_receipt value

-- `replay`
unfoldable pub replay : Json → Disk → String → Result (List SessionEvent)
replay json d session_id = read json d session_id

-- The client puts a notification to a subscriber.
unfoldable pub notify : Notification → Session → Session
notify n s = if s.subscribed then record s { event_queue = s.event_queue ++ n ∷ [] } else s

abbrev pub overflow_error : ℕ → Error
overflow_error size = record {
  class = session_overflow;
  message = lit "session event queue overflow (size=" ∷ nat size ∷ lit ")" ∷ [];
}

-- `_clear_queue`, then one item: the demultiplexer ends so.
abbrev pub fail_with : Session → Error → Session
fail_with s e = record s { events = failure e ∷ []; demux = finished }

-- `put_nowait`, and the `except asyncio.QueueFull`.
deliver : Session → SessionEvent → Session
deliver s e =
    if ltb (length s.events) s.event_queue_size
    then record s { events = s.events ++ event e ∷ [] }
    else fail_with s (overflow_error s.event_queue_size)

after_append : Session → SessionEvent → Disk × Result (Unit {0}) → Session
unfolding deliver
after_append s e (d, ok u) = deliver (record s { disk = d }) e
after_append s e (d, err x) = fail_with (record s { disk = d }) x

store_and_deliver : Json → WriteOutcome → Session → SessionEvent → Session
unfolding after_append
store_and_deliver json io s e =
    if s.has_store then after_append s e (append json io e s.disk) else deliver s e

handle_event : Json → WriteOutcome → Session → Result SessionEvent → Session
unfolding store_and_deliver
handle_event json io s (err x) = fail_with s x
handle_event json io s (ok e) =
    if str_eq e.session_id s.session_id then store_and_deliver json io s e else s

unfoldable pub handle_notification : Json → WriteOutcome → Session → Notification → Session
unfolding handle_event parse_event
handle_notification json io s n =
    if str_eq n.method "session.event" then handle_event json io s (parse_event n.params) else s

-- One round of the loop in `_demultiplex`, from one `get` to the next.
unfoldable pub demultiplex : Json → WriteOutcome → Session → Session
demultiplex json io s = elim s.demux [
  | running ↦ elim s.event_queue [
    | [] ↦ s
    | n ∷ rest ↦ handle_notification json io (record s { event_queue = rest }) n
  ]
  | _ ↦ s
]

-- One `get` of the generator `events`.
unfoldable pub next_event : Session → Session × Option Item
next_event s = elim s.events [ [] ↦ (s, none) | x ∷ rest ↦ (record s { events = rest }, some x) ]

-- `close` up to the request, and its `finally`; a second call does nothing. A demultiplexer that has
-- ended is not cancelled.
unfoldable pub begin_close : Session → Session
begin_close s = if s.closed then s else record s {
  closed = true;
  subscribed = false;
  demux = (elim s.demux [ running ↦ cancelled | other ↦ other ]);
}

unfoldable pub end_close : Session → Session
end_close s = record s { remote_closed = true }
