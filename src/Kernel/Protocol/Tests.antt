-- ===== src/Kernel/Protocol/Tests.antt =====
-- Messages of kernel/protocol.py, and its theorems at them.
use astraship.Base.{◌≡◌, ◌↔◌, refl, some}
use astraship.Base.Int.{pos}
use astraship.Errors.{ok, kernel_protocol}
use astraship.Value.{Value, null, int, str, obj, Fields, end, field}
use astraship.Value.Json.Sample.{codec, codec-IsJson, dumps_one, loads_one}
use astraship.Kernel.Protocol.{
  int_id, str_id, server_request, encode_request, encode_result_response, encode_error_response,
  request_payload, result_payload, error_payload, decode_message,
}
use astraship.Kernel.Protocol.Decoding.{Wire, decode_message_iff}
use astraship.Kernel.Protocol.Refusals.{decode_message-errors}
use astraship.Kernel.Protocol.RoundTrip.{request, answer, refusal, encode, received, decode-encode}

abbrev params : Value
params = obj (field "sessionId" (str "s-1") end)

abbrev prompt : Value
prompt = request_payload (int (pos 1)) "session/prompt" params

abbrev answered : Value
answered = result_payload (str "call") (int (pos 7))

abbrev cancelled : Value
cancelled = error_payload (int (pos 4)) (pos 32800) "cancelled" null

decode_message_iff_example :
    (decode_message (codec prompt) "{}"
      ≡ ok (server_request (int_id (pos 1)) "session/prompt" params))
    ↔ ((fs : Fields) × ((codec prompt).loads "{}" ≡ some (obj fs))
        × Wire fs (server_request (int_id (pos 1)) "session/prompt" params))
decode_message_iff_example =
    decode_message_iff (codec prompt) "{}" (server_request (int_id (pos 1)) "session/prompt" params)

errors-bracket : kernel_protocol ≡ kernel_protocol
unfolding decode_message loads_one
errors-bracket = decode_message-errors (codec prompt) "[1" _ refl

encodes :
    encode (codec cancelled) (refusal (int_id (pos 4)) (pos 32800) "cancelled" null) ≡ ok "{}\n"
unfolding encode encode_error_response dumps_one
encodes = refl

encode_tests :
    (encode (codec prompt) (request (int_id (pos 1)) "session/prompt" params) ≡ ok "{}\n")
    × (encode (codec answered) (answer (str_id "call") (int (pos 7))) ≡ ok "{}\n")
unfolding encode encode_request encode_result_response dumps_one
encode_tests = (refl, refl)

decode-encode_example :
    decode_message (codec cancelled) "{}\n"
    ≡ ok (received (refusal (int_id (pos 4)) (pos 32800) "cancelled" null))
decode-encode_example =
    decode-encode (codec cancelled) (codec-IsJson cancelled)
      (refusal (int_id (pos 4)) (pos 32800) "cancelled" null) "{}\n" encodes
