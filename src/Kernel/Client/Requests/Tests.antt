-- ===== src/Kernel/Client/Requests/Tests.antt =====
-- Runs of the requests of the client, and the theorems at them (kernel/client.py).
use astraship.Base.{◌≡◌, refl, none, some, List, [], ◌∷◌, ◌++◌}
use astraship.Base.Int.{pos}
use astraship.Errors.{Error, Result, ok, other_error}
use astraship.Value.{Value, null, int}
use astraship.Value.Json.{Json}
use astraship.Value.Json.Sample.{codec, dumps_one}
use astraship.Kernel.Protocol.{int_id, request_payload, encode_request}
use astraship.Kernel.Client.{new_client}
use astraship.Kernel.Client.Requests.{
  waiting, over, Call, Event, calls, written, wakes, responds, stdout_fails, id_of, encoded,
  end_write, wake_call, respond, step, run, start,
}
use astraship.Kernel.Client.Requests.Correlation.{Answered}
use astraship.Kernel.Client.Requests.Endings.{run-Answered, run-stdout_fails}

abbrev json : Json
json = codec (request_payload (int (pos 1)) "session/new" null)

abbrev sent : List Event
sent = calls "session/new" null ∷ written 1 none none ∷ []

-- A response with another ID comes first.
abbrev answered : List Event
answered =
    sent
    ++ responds (record { request_id = int_id (pos 2); result = null; error = none })
      ∷ responds (record { request_id = int_id (pos 1); result = int (pos 7); error = none })
      ∷ wakes 1
      ∷ []

abbrev new_session : Call
new_session = record { method = "session/new"; progress = over (ok (int (pos 7))) }

call_returns : (run json start answered).calls 1 ≡ some new_session
unfolding run start new_client encoded encode_request dumps_one end_write respond wake_call
call_returns = refl

call_waits : (run json start sent).calls 1 ≡ some (record new_session { progress = waiting })
unfolding run start new_client encoded encode_request dumps_one end_write
call_waits = refl

run-Answered_example : Answered (id_of 1) (int (pos 7)) none (run json start answered).received
run-Answered_example = run-Answered json answered 1 new_session (int (pos 7)) call_returns refl

abbrev broken : Error
broken = record { class = other_error; message = [] }

run-stdout_fails_example :
    (r : Result Value) × ((step json
          (step json (run json start sent) (stdout_fails broken))
          (wakes 1)).calls
        1
      ≡ some (record new_session { progress = over r }))
run-stdout_fails_example =
    run-stdout_fails json sent broken 1 (record new_session { progress = waiting }) call_waits refl
