-- ===== src/Kernel/Client/Reader/Tests.antt =====
-- Runs of the reader, and the delivery to a subscriber at one of them (kernel/client.py).
use astraship.Base.{◌≡◌, refl, true, false, some, List, [], ◌∷◌, ◌++◌, arith, every}
use astraship.Base.Int.{pos, negsuc}
use astraship.Errors.{raise, value_error}
use astraship.Value.{Value, str, obj, field, end, get}
use astraship.Value.Json.Sample.{codec, loads_one}
use astraship.Session.{Notification}
use astraship.Kernel.Protocol.{decode_message}
use astraship.Kernel.Client.{new_client}
use astraship.Kernel.Client.Server.{World}
use astraship.Kernel.Client.Requests.{start}
use astraship.Kernel.Client.Reader.{
  Connection, Event, reads, subscribes, takes, run, subscribe, read_line,
}
use astraship.Kernel.Client.Reader.Queues.{Holds}
use astraship.Kernel.Client.Reader.Delivery.{published, stays, run-Holds}

abbrev ready : Value
ready = obj (field "jsonrpc" (str "2.0") (field "method" (str "ready") end))

abbrev world : World
world = record { json = codec ready; has_handler = λ method. false; text_of = λ e. "" }

abbrev is_ready : Notification
is_ready = record { method = "ready"; params = Value.null }

-- A connection with the queue 0, which has no bound.
abbrev connection : Connection
connection = record {
  system = start;
  notifications = [];
  subscribers = λ n. some (record { maxsize = 0; queue = []; taken = [] });
  next_subscriber = 1;
  reading = true;
}

-- Two notifications, of which one is taken between; a bounded queue; then a line that is no message.
abbrev events : List Event
events =
    reads (some "{")
    ∷ subscribes (pos 1)
    ∷ takes 0
    ∷ reads (some "{")
    ∷ reads (some "")
    ∷ reads (some "{")
    ∷ []

refuses : (subscribe (negsuc 0) connection).1 ≡ raise value_error "maxsize cannot be negative"
unfolding subscribe start new_client
refuses = refl

publishes_two : published (codec ready) true events ≡ is_ready ∷ is_ready ∷ []
unfolding published read_line decode_message loads_one get
publishes_two = refl

keeps_queue : every (stays 0) events ≡ true
keeps_queue = refl

at_first : Holds 0 connection []
at_first = record {
  subscriber = record { maxsize = 0; queue = []; taken = [] };
  subscribed = refl;
  unbounded = refl;
  old = omega arith;
  seen = refl;
}

run-Holds_example :
    Holds 0 (run world connection events) ([] ++ published (codec ready) true events)
run-Holds_example = run-Holds world 0 events connection [] keeps_queue at_first
