-- ===== src/Transcript.antt =====
-- From the pipe of Felix to a transcript: the reader of kernel/client.py, a session of session.py
-- that is subscribed to it, and the store of persistence.py. `_event_queue` of the session is one of
-- the queues of the client; both models hold it, and each step changes it in both.
pub mod Queue
pub mod Linked
pub mod Complete
pub mod Drains
mod Tests
use astraship.Base.{ℕ, String, true, List, [], ◌∷◌, map, if◌then◌else◌}
use astraship.Base.Int.{pos}
use astraship.Value.Json.{Json}
use astraship.Persistence.{WriteOutcome}
use astraship.Session.{Notification, running, Session, open_session}
use astraship.Session.Delivery.{
  System, arrives, demultiplexes, consumes, closes, start, step as session_step, run as session_run,
}
use astraship.Kernel.Client.Server.{World}
use astraship.Kernel.Client.Reader.{
  Connection, Event, subscribe, unsubscribe, take_from, step as client_step,
}
use astraship.Kernel.Client.Reader.Delivery.{arrivals}

pub record Pipeline : Type 0 where
  pub connection : Connection
  pub system : System
  -- the number of `_event_queue` among the queues of the client
  pub queue : ℕ

-- What runs next: the reader of the client or the consumer of a queue, the demultiplexer, the
-- consumer of the session, or its `close`.
pub data Task : Type 0 where
  client_runs : Event → Task
  demux_runs : WriteOutcome → Task
  consumer_runs session_closes : Task

-- The end of `create` on an open client, where subscribing does not raise: the queue has no bound, and
-- the session has an empty store.
unfoldable pub opened : String → ℕ → Connection → Pipeline
unfolding start
opened session_id size c = record {
  connection = (subscribe (pos 0) c).0;
  system = start (open_session session_id size true []);
  queue = c.next_subscriber;
}

unfoldable pub arrive : Json → List Notification → System → System
arrive json ms s = session_run json s (map arrives ms)

-- The get of the demultiplexer.
unfoldable pub demux_takes : ℕ → Session → Connection → Connection
demux_takes n s c = elim s.demux [ running ↦ take_from n c | _ ↦ c ]

unfoldable pub perform : World → Pipeline → Task → Pipeline
unfolding arrive demux_takes
perform w y (client_runs e) = record y {
  connection = client_step w y.connection e;
  system = arrive w.json (arrivals w.json y.connection e) y.system;
}
perform w y (demux_runs io) = record y {
  connection = demux_takes y.queue y.system.session y.connection;
  system = session_step w.json y.system (demultiplexes io);
}
perform w y consumer_runs = record y { system = session_step w.json y.system consumes }
perform w y session_closes = record y {
  connection = (if y.system.session.closed then y.connection else unsubscribe y.queue y.connection);
  system = session_step w.json y.system closes;
}

unfoldable pub perform_all : World → Pipeline → List Task → Pipeline
unfolding perform
perform_all w y [] = y
perform_all w y (t ∷ ts) = perform_all w (perform w y t) ts

-- The events of the client among these.
unfoldable pub client_events : List Task → List Event
client_events [] = []
client_events (client_runs e ∷ ts) = e ∷ client_events ts
client_events (t ∷ ts) = client_events ts
