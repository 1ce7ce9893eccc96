-- ===== src/Kernel/Protocol.antt =====
-- kernel/protocol.py: newline-delimited JSON-RPC messages.
pub mod Decoding
pub mod Refusals
pub mod RoundTrip
mod Tests
use Prim.Native.String.{◌++◌ as str_append}
use astraship.Base.{
  String, ◌≡◌, Bool, true, false, not, ◌&&◌, ◌||◌, Option, none, some, [], ◌∷◌, str_eq, is_some,
  if◌then◌else◌,
}
use astraship.Base.Int.{ℤ}
use astraship.Base.Text.{is_nonempty}
use astraship.Errors.{
  ErrorClass, Error, Result, ok, err, raise, raise_f, raise_if, lit, caught, ◌>>=◌, ◌>>◌,
  kernel_protocol, type_error, value_error, recursion_error, unicode_error,
}
use astraship.Value.{
  Value, null, bool, int, str, arr, obj, Fields, end, field, get, has_key, get_or_null, as_obj,
  as_str, as_int,
}
use astraship.Value.Json.{Json}

-- `RequestId = int | str`
pub data RequestId : Type 0 where
  int_id : ℤ → RequestId
  str_id : String → RequestId

abbrev pub id_value : RequestId → Value
id_value (int_id n) = int n
id_value (str_id s) = str s

pub record RemoteError : Type 0 where
  pub code : ℤ
  pub message : String
  pub info : Value

-- `Response`, `Notification` and `ServerRequest`. A missing `result` or `params` is None.
pub data WireMessage : Type 0 where
  response : RequestId → Value → Option RemoteError → WireMessage
  notification : String → Value → WireMessage
  server_request : RequestId → String → Value → WireMessage

-- `_valid_request_id`
unfoldable pub valid_request_id : Value → Bool
valid_request_id (str s) = true
valid_request_id (int n) = true
valid_request_id _ = false

-- `_require_request_id`
unfoldable pub require_request_id : Value → Result RequestId
require_request_id (str s) = ok (str_id s)
require_request_id (int n) = ok (int_id n)
require_request_id _ = raise kernel_protocol "JSON-RPC id must be a string or integer"

-- `if value is not None: d[key] = value`, at the end of the dict.
abbrev pub optional : String → Value → Fields
optional k null = end
optional k v = field k v end

abbrev pub request_payload : Value → String → Value → Value
request_payload request_id method params = obj (
    field "jsonrpc" (str "2.0")
      (field "id" request_id (field "method" (str method) (optional "params" params))))

-- `json.dumps(...) + "\n"`
abbrev pub with_newline : String → Result String
with_newline s = ok (str_append s "\n")

-- `dumps` without `allow_nan`; what it raises is not caught.
unfoldable pub encode_request : Json → Value → String → Value → Result String
unfolding valid_request_id
encode_request json request_id method params = do
  raise_if (not (valid_request_id request_id)) kernel_protocol
      "request ID must be a string or integer"
  raise_if (not (is_nonempty method)) kernel_protocol "request method cannot be empty"
  s ← json.dumps true (request_payload request_id method params)
  with_newline s

-- `except (TypeError, ValueError, RecursionError)`
unfoldable pub or_protocol_error : Result String → Result String
or_protocol_error (ok s) = ok s
or_protocol_error (err e) = elim e.class [
  | type_error ↦ raise kernel_protocol "response must be JSON-compatible"
  | value_error ↦ raise kernel_protocol "response must be JSON-compatible"
  | unicode_error ↦ raise kernel_protocol "response must be JSON-compatible"
  | recursion_error ↦ raise kernel_protocol "response must be JSON-compatible"
  | _ ↦ err e
]

-- `_encode_response`, for a payload with this ID.
unfoldable pub encode_response : Json → Value → Value → Result String
unfolding valid_request_id or_protocol_error
encode_response json request_id payload = do
  raise_if (not (valid_request_id request_id)) kernel_protocol
      "request ID must be a string or integer"
  s ← or_protocol_error (json.dumps false payload)
  with_newline s

abbrev pub result_payload : Value → Value → Value
result_payload request_id result =
    obj (field "jsonrpc" (str "2.0") (field "id" request_id (field "result" result end)))

abbrev pub error_payload : Value → ℤ → String → Value → Value
error_payload request_id code message info = obj (
    field "jsonrpc" (str "2.0") (
      field "id" request_id (
        field "error"
          (obj (field "code" (int code) (field "message" (str message) (optional "data" info))))
          end)))

unfoldable pub encode_result_response : Json → Value → Value → Result String
unfolding encode_response
encode_result_response json request_id result =
    encode_response json request_id (result_payload request_id result)

unfoldable pub encode_error_response : Json → Value → Value → Value → Value → Result String
unfolding encode_response
encode_error_response json request_id (int code) (str message) info =
    encode_response json request_id (error_payload request_id code message info)
encode_error_response json request_id (int code) message info =
    raise kernel_protocol "error message must be a string"
encode_error_response json request_id code message info =
    raise kernel_protocol "error code must be an integer"

-- `value.get("jsonrpc") != "2.0"`
is_version : Value → Bool
is_version (str s) = str_eq s "2.0"
is_version _ = false

-- A message with a method.
decode_call : Fields → Value → Result WireMessage
unfolding require_request_id
decode_call fs (str method) =
    raise_if (not (is_nonempty method)) kernel_protocol "JSON-RPC method must be a non-empty string"
    >> elim (get fs "id") [
      | none ↦ ok (notification method (get_or_null fs "params"))
      | some v ↦ do
        request_id ← require_request_id v
        ok (server_request request_id method (get_or_null fs "params"))
    ]
decode_call fs method = raise kernel_protocol "JSON-RPC method must be a non-empty string"

-- The object of an error response.
decode_error : RequestId → Value → Result WireMessage
decode_error request_id (obj es) = elim (get_or_null es "code") [
  | int code ↦ elim (get_or_null es "message") [
    | str message ↦ ok (
        response request_id null
          (some (record { code = code; message = message; info = get_or_null es "data" })))
    | _ ↦ raise kernel_protocol "JSON-RPC error requires integer code and string message"
  ]
  | _ ↦ raise kernel_protocol "JSON-RPC error requires integer code and string message"
]
decode_error request_id _ = raise kernel_protocol "JSON-RPC error must be an object"

-- A response has exactly one of `result` and `error`.
decode_outcome : RequestId → Option Value → Option Value → Result WireMessage
unfolding decode_error
decode_outcome request_id (some result) none = ok (response request_id result none)
decode_outcome request_id none (some error) = decode_error request_id error
decode_outcome request_id _ _ =
    raise kernel_protocol "JSON-RPC response must contain exactly one of result or error"

decode_response : Fields → Result WireMessage
unfolding require_request_id decode_outcome
decode_response fs = elim (get fs "id") [
  | none ↦ raise kernel_protocol "JSON-RPC response is missing id"
  | some v ↦ do
    request_id ← require_request_id v
    decode_outcome request_id (get fs "result") (get fs "error")
]

pub decode_object : Fields → Result WireMessage
unfolding is_version decode_call decode_response
decode_object fs =
    raise_if (not (is_version (get_or_null fs "jsonrpc"))) kernel_protocol
      "JSON-RPC message must use version 2.0"
    >> elim (get fs "method") [ some method ↦ decode_call fs method | none ↦ decode_response fs ]

decode_value : Value → Result WireMessage
unfolding decode_object
decode_value (obj fs) = decode_object fs
decode_value _ = raise kernel_protocol "JSON-RPC message must be an object"

unfoldable pub decode_message : Json → String → Result WireMessage
unfolding decode_value
decode_message json line = elim (json.loads line) [
  | none ↦ raise_f kernel_protocol (lit "invalid JSON: " ∷ caught ∷ [])
  | some v ↦ decode_value v
]
