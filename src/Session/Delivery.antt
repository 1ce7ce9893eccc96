-- ===== src/Session/Delivery.antt =====
-- What the consumer of a session gets, against the notifications that the demultiplexer of
-- session.py has taken; and what the store holds.
pub mod Cases
pub mod Order
pub mod Mirror
use astraship.Base.{
  String, Bool, true, false, Option, none, some, List, [], ◌∷◌, ◌++◌, str_eq, if◌then◌else◌, length,
}
use astraship.Errors.{ok, err}
use astraship.Value.Json.{Json}
use astraship.Persistence.{SessionEvent, Disk, WriteOutcome}
use astraship.Session.{
  Notification, Item, TaskStatus, running, finished, cancelled, Session, parse_event, open_session,
  notify, demultiplex, next_event, begin_close,
}

-- The event of the session that a notification carries, if any.
unfoldable pub own : String → Notification → List SessionEvent
own s n =
    if str_eq n.method "session.event"
    then elim (parse_event n.params) [
      | ok e ↦ if str_eq e.session_id s then e ∷ [] else []
      | err x ↦ []
    ]
    else []

unfoldable pub accepted : String → List Notification → List SessionEvent
unfolding own
accepted s [] = []
accepted s (n ∷ ns) = own s n ++ accepted s ns

-- The tasks of the event loop: the client puts a notification, the demultiplexer takes one, the
-- consumer takes an item, the session is closed.
pub data Event : Type 0 where
  arrives : Notification → Event
  demultiplexes : WriteOutcome → Event
  consumes closes : Event

-- A session with what its consumer has got and what its demultiplexer has taken.
pub record System : Type 0 where
  pub session : Session
  pub consumed : List Item
  pub processed : List Notification

unfoldable pub start : Session → System
start s = record { session = s; consumed = []; processed = [] }

-- The notification that the next round takes.
pub taken : Session → List Notification
taken s = elim s.demux [ running ↦ elim s.event_queue [ [] ↦ [] | n ∷ rest ↦ n ∷ [] ] | _ ↦ [] ]

pub got : Option Item → List Item
got none = []
got (some x) = x ∷ []

unfoldable pub step : Json → System → Event → System
unfolding taken got
step json y (arrives n) = record y { session = notify n y.session }
step json y (demultiplexes io) = record y {
  session = demultiplex json io y.session;
  processed = y.processed ++ taken y.session;
}
step json y consumes =
    let (s, x) = next_event y.session in record y { session = s; consumed = y.consumed ++ got x }
step json y closes = record y { session = begin_close y.session }

unfoldable pub run : Json → System → List Event → System
unfolding step
run json y [] = y
run json y (e ∷ es) = run json (step json y e) es
