-- ===== src/Kernel/Protocol/RoundTrip.antt =====
-- `decode_message` of kernel/protocol.py after its encoders.
use Prim.Native.String.{◌++◌ as str_append}
use astraship.Base.{
  String, ◌≡◌, refl, ◌∙◌, sym, Bool-cases, inl, inr, Bool, true, false, none, some, arith,
}
use astraship.Base.Int.{ℤ}
use astraship.Base.Text.{is_nonempty}
use astraship.Errors.{Result, ok, ◌>>=◌, >>=-eq-ok, Result-cases}
use astraship.Value.{Value, null, int, str, get, get_or_null}
use astraship.Value.Json.{Json, IsJson}
use astraship.Kernel.Protocol.{
  RequestId, WireMessage, int_id, str_id, id_value, response, server_request, valid_request_id,
  encode_request, encode_response, encode_result_response, encode_error_response, or_protocol_error,
  with_newline, optional, request_payload, result_payload, error_payload, decode_message,
}
use astraship.Kernel.Protocol.Decoding.{decode_message_iff}

-- The messages that the program sends: what the three encoders take.
pub data Outgoing : Type 0 where
  request : RequestId → String → Value → Outgoing
  answer : RequestId → Value → Outgoing
  refusal : RequestId → ℤ → String → Value → Outgoing

-- By the encoder for it.
unfoldable pub encode : Json → Outgoing → Result String
encode json (request i method params) = encode_request json (id_value i) method params
encode json (answer i result) = encode_result_response json (id_value i) result
encode json (refusal i code message info) =
    encode_error_response json (id_value i) (int code) (str message) info

unfoldable pub received : Outgoing → WireMessage
received (request i method params) = server_request i method params
received (answer i result) = response i result none
received (refusal i code message info) =
    response i null (some (record { code = code; message = message; info = info }))

get-params : (v : Value) → get_or_null (optional "params" v) "params" ≡ v
unfolding get
get-params null = refl
get-params v = refl

get-info : (v : Value) → get_or_null (optional "data" v) "data" ≡ v
unfolding get
get-info null = refl
get-info v = refl

get-id-params : (v : Value) → get (optional "params" v) "id" ≡ none
unfolding get
get-id-params null = refl
get-id-params v = refl

valid-id_value : (i : RequestId) → valid_request_id (id_value i) ≡ true
unfolding valid_request_id
valid-id_value (int_id n) = refl
valid-id_value (str_id s) = refl

module _ (json : Json) (laws : IsJson json) where
  written :
      (nan : Bool) (v : Value) (s line : String)
      → json.dumps nan v ≡ ok s
      → ok (str_append s "\n") ≡ ok line
      → json.loads line ≡ some v
  written nan v s line d e =
      let f : str_append s "\n" ≡ line = cc in rw (← f) (laws.newline s ∙ laws.round_trip nan v s d)

  dumped :
      (nan : Bool) (v : Value) (line : String)
      → (json.dumps nan v >>= with_newline) ≡ ok line
      → json.loads line ≡ some v
  dumped nan v line h =
      let (s, d, e) = >>=-eq-ok (json.dumps nan v) with_newline h in written nan v s line d e

  decode-encode_request :
      (i : RequestId) (method : String) (params : Value) (line : String)
      → encode_request json (id_value i) method params ≡ ok line
      → decode_message json line ≡ ok (server_request i method params)
  unfolding encode_request get
  decode-encode_request i method params line h = elim (Bool-cases (is_nonempty method)) [
    | inr n ↦ absurd (ground (arith, h, n, valid-id_value i))
    | inl n ↦ (decode_message_iff json line (server_request i method params)).1 (
      _,
      dumped true (request_payload (id_value i) method params) line
          (ground (arith, h, n, valid-id_value i)),
      (refl, refl, n, refl, sym (get-params params)),
    )
  ]

  caught :
      (v : Value) (line : String)
      → (or_protocol_error (json.dumps false v) >>= with_newline) ≡ ok line
      → json.loads line ≡ some v
  unfolding or_protocol_error
  caught v line h = elim (Result-cases (json.dumps false v)) [
    | inl (s, d) ↦ written false v s line d (ground (arith, h, d))
    | inr (e, d) ↦ absurd (ground (arith, h, d))
  ]

  decode-encode_result_response :
      (i : RequestId) (result : Value) (line : String)
      → encode_result_response json (id_value i) result ≡ ok line
      → decode_message json line ≡ ok (response i result none)
  unfolding encode_result_response encode_response get
  decode-encode_result_response i result line h =
      (decode_message_iff json line (response i result none)).1 (
        _,
        caught (result_payload (id_value i) result) line (ground (arith, h, valid-id_value i)),
        (refl, refl, refl, refl, refl),
      )

  decode-encode_error_response :
      (i : RequestId) (code : ℤ) (message : String) (info : Value) (line : String)
      → encode_error_response json (id_value i) (int code) (str message) info ≡ ok line
      → decode_message json line
        ≡ ok (response i null (some (record { code = code; message = message; info = info })))
  unfolding encode_error_response encode_response get
  decode-encode_error_response i code message info line h =
      (decode_message_iff json line
          (response i null (some (record { code = code; message = message; info = info })))).1
        (
          _,
          caught (error_payload (id_value i) code message info) line
              (ground (arith, h, valid-id_value i)),
          (refl, refl, refl, refl, refl, _, refl, refl, refl, sym (get-info info)),
        )

  -- Every message that is encoded is decoded by the other side to the same message: a request with its
  -- ID, method and parameters; a result response with its ID and result; an error response with its
  -- ID, and with the code, the message and the data of its error.
  pub decode-encode :
      (m : Outgoing) (line : String)
      → encode json m ≡ ok line
      → decode_message json line ≡ ok (received m)
  unfolding encode received
  decode-encode (request i method params) line h = decode-encode_request i method params line h
  decode-encode (answer i result) line h = decode-encode_result_response i result line h
  decode-encode (refusal i code message info) line h =
      decode-encode_error_response i code message info line h
