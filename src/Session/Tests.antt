-- ===== src/Session/Tests.antt =====
-- Runs of a session, and the theorems of session.py at them.
use astraship.Base.{String, ◌≡◌, ◌≢◌, refl, sym, ◌∙◌, true, List, [], ◌∷◌, arith}
use astraship.Errors.{ok}
use astraship.Value.{str, obj, end, field, get}
use astraship.Value.Json.{Json}
use astraship.Value.Json.Sample.{codec, codec-IsJson, dumps_one}
use astraship.Persistence.{SessionEvent, written, append, event_record, is_safe_session_id, read}
use astraship.Session.{
  Notification, event, finished, running, open_session, notify, handle_notification, demultiplex,
  next_event,
}
use astraship.Session.Delivery.{
  accepted, Event, arrives, demultiplexes, consumes, System, start, run,
}
use astraship.Session.Delivery.Order.{Inv, run-Stream}
use astraship.Session.Delivery.Mirror.{run-Mirror}

abbrev started : SessionEvent
started = record { session_id = "s"; type = "turn.started"; info = end }

abbrev json : Json
json = codec (event_record started)

abbrev announced : String → Notification
announced session_id = record {
  method = "session.event";
  params = obj (
      field "sessionId" (str session_id)
        (field "event" (obj (field "type" (str "turn.started") (field "data" (obj end) end))) end));
}

abbrev events : List Event
events =
    arrives (announced "s")
    ∷ arrives (announced "other")
    ∷ demultiplexes written
    ∷ demultiplexes written
    ∷ consumes
    ∷ arrives (announced "s")
    ∷ demultiplexes written
    ∷ []

abbrev system : System
system = start (open_session "s" 1 true [])

run_events :
    ((run json system events).consumed ≡ event started ∷ [])
    × ((run json system events).session.events ≡ event started ∷ [])
    × ((run json system events).session.demux ≡ running)
unfolding run start open_session notify demultiplex handle_notification next_event append dumps_one
    is_safe_session_id get
run_events = (refl, refl, refl)

run-Stream_example : Inv (run json system events)
run-Stream_example = run-Stream json "s" 1 true [] events (omega arith)

still_running : (run json system events).session.demux ≢ finished
still_running e = let f : running ≡ finished = sym run_events.2 ∙ e in absurd (cc)

run-Mirror_example :
    read json (run json system events).session.disk "s"
    ≡ ok (accepted "s" (run json system events).processed)
unfolding is_safe_session_id
run-Mirror_example =
    run-Mirror json (codec-IsJson (event_record started)) "s" 1 events refl refl still_running
