-- ===== src/Transcript/Tests.antt =====
-- Felix writes two events of a session and then a line that is no message (kernel/client.py,
-- session.py and persistence.py).
use astraship.Base.{
  ◌≡◌, ◌≢◌, refl, ◌∙◌, sym, ap, ◌⊎◌, true, false, none, some, List, [], ◌∷◌, ◌++◌, arith, every,
  length,
}
use astraship.Base.Int.{pos}
use astraship.Value.{Value, str, obj, field, end, get}
use astraship.Value.Json.Sample.Pair.{pair_codec, pair_codec-IsJson, loads_pair, dumps_pair}
use astraship.Persistence.{SessionEvent, written, append, event_record, is_safe_session_id, read}
use astraship.Errors.{ok}
use astraship.Session.{
  Notification, finished, running, open_session, notify, demultiplex, handle_notification,
  next_event,
}
use astraship.Session.Delivery.{
  accepted, step as session_step, run as session_run, start as session_start,
}
use astraship.Kernel.Protocol.{decode_message}
use astraship.Kernel.Client.{new_client}
use astraship.Kernel.Client.Server.{World}
use astraship.Kernel.Client.Requests.{start}
use astraship.Kernel.Client.Reader.{
  Connection, reads, subscribes, step as client_step, read_line, act, subscribe, publish, take_from,
}
use astraship.Kernel.Client.Reader.Delivery.{published, arrivals}
use astraship.Transcript.{
  Task, client_runs, demux_runs, consumer_runs, opened, perform_all, client_events,
}
use astraship.Transcript.Linked.{keeps}
use astraship.Transcript.Complete.{Carries, perform_all-Carries}
use astraship.Transcript.Drains.{perform_all-Drains}

abbrev started : SessionEvent
started = record { session_id = "s"; type = "turn.started"; info = end }

abbrev params : Value
params = obj (
    field "sessionId" (str "s")
      (field "event" (obj (field "type" (str "turn.started") (field "data" (obj end) end))) end))

abbrev message : Value
message =
    obj (
      field "jsonrpc" (str "2.0")
        (field "method" (str "session.event") (field "params" params end)))

abbrev world : World
world = record {
  json = pair_codec message (event_record started);
  has_handler = λ method. false;
  text_of = λ e. "";
}

abbrev announced : Notification
announced = record { method = "session.event"; params = params }

abbrev connection : Connection
connection = record {
  system = start;
  notifications = [];
  subscribers = λ n. none;
  next_subscriber = 0;
  reading = true;
}

abbrev tasks : List Task
tasks =
    client_runs (reads (some "{"))
    ∷ client_runs (subscribes (pos 1))
    ∷ demux_runs written
    ∷ client_runs (reads (some "{"))
    ∷ consumer_runs
    ∷ client_runs (reads (some ""))
    ∷ client_runs (reads (some "{"))
    ∷ []

publishes_two : published world.json true (client_events tasks) ≡ announced ∷ announced ∷ []
unfolding published client_events read_line decode_message loads_pair get
publishes_two = refl

keeps_queue : every (keeps 0) tasks ≡ true
keeps_queue = refl

after_tasks :
    ((perform_all world (opened "s" 8 connection) tasks).system.session.demux ≡ running)
    × ((perform_all world (opened "s" 8 connection) tasks).system.session.event_queue
        ≡ announced ∷ [])
unfolding perform_all opened client_step session_step session_run session_start open_session
    arrivals read_line decode_message loads_pair dumps_pair get act subscribe publish take_from
    notify demultiplex handle_notification next_event append is_safe_session_id start new_client
after_tasks = (refl, refl)

not_finished : (perform_all world (opened "s" 8 connection) tasks).system.session.demux ≢ finished
not_finished e = let f : running ≡ finished = sym after_tasks.0 ∙ e in absurd (cc)

is_open : connection.system.client.closed ≡ false
unfolding start new_client
is_open = refl

perform_all-Carries_example :
    Carries world.json "s"
      (perform_all world (opened "s" 8 connection) tasks)
      (published world.json true (client_events tasks))
unfolding is_safe_session_id
perform_all-Carries_example =
    perform_all-Carries world (pair_codec-IsJson message (event_record started)) "s" 8 connection
      tasks is_open refl refl keeps_queue not_finished

perform_all-Drains_example :
    ((perform_all world
        (opened "s" 8 connection)
        (tasks ++ demux_runs written ∷ [])).system.session.demux
      ≡ finished)
    ⊎ (read world.json
          (perform_all world
            (opened "s" 8 connection)
            (tasks ++ demux_runs written ∷ [])).system.session.disk
          "s"
        ≡ ok (accepted "s" (published world.json true (client_events tasks))))
unfolding is_safe_session_id
perform_all-Drains_example =
    perform_all-Drains world (pair_codec-IsJson message (event_record started)) "s" 8 connection
      tasks (written ∷ []) is_open refl refl keeps_queue (omega (arith, ap length after_tasks.1))
