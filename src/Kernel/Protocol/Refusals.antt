-- ===== src/Kernel/Protocol/Refusals.antt =====
-- How `decode_message` of kernel/protocol.py refuses.
use astraship.Base.{
  String, ◌≡◌, refl, inl, inr, Option, none, some, arith, Option-cases, Bool-cases,
}
use astraship.Errors.{Error, err, Result-cases, kernel_protocol}
use astraship.Value.{Value, str, obj, Fields, get, get_or_null}
use astraship.Value.Json.{Json}
use astraship.Kernel.Protocol.{
  RequestId, require_request_id, is_version, decode_call, decode_error, decode_outcome,
  decode_response, decode_object, decode_value, decode_message,
}

abbrev IsProtocolError : Error → Type 0
IsProtocolError e = e.class ≡ kernel_protocol

require_request_id-errors :
    (v : Value) (e : Error) → require_request_id v ≡ err e → IsProtocolError e
unfolding require_request_id
require_request_id-errors (str s) e h = absurd (cc)
require_request_id-errors v e h = ground (arith, h)

decode_call-errors :
    (fs : Fields) (v : Value) (e : Error) → decode_call fs v ≡ err e → IsProtocolError e
unfolding decode_call
decode_call-errors fs (str m) e h = elim (Option-cases (get fs "id")) [
  | inl n ↦ ground (arith, h, n)
  | inr (v, f) ↦ ground (arith, h, f, require_request_id-errors v e)
]
decode_call-errors fs v e h = ground (arith, h)

decode_error-errors :
    (i : RequestId) (v : Value) (e : Error) → decode_error i v ≡ err e → IsProtocolError e
unfolding decode_error
decode_error-errors i (obj es) e h = ground (arith, h)
decode_error-errors i v e h = ground (arith, h)

decode_outcome-errors :
    (i : RequestId) (x y : Option Value) (e : Error)
    → decode_outcome i x y ≡ err e
    → IsProtocolError e
unfolding decode_outcome
decode_outcome-errors i (some r) none e h = absurd (cc)
decode_outcome-errors i none (some v) e h = decode_error-errors i v e h
decode_outcome-errors i none none e h = ground (arith, h)
decode_outcome-errors i (some r) (some v) e h = ground (arith, h)

decode_response-errors : (fs : Fields) (e : Error) → decode_response fs ≡ err e → IsProtocolError e
unfolding decode_response
decode_response-errors fs e h = elim (Option-cases (get fs "id")) [
  | inl n ↦ ground (arith, h, n)
  | inr (v, f) ↦ elim (Result-cases (require_request_id v)) [
    | inr (x, g) ↦ ground (arith, h, f, g, require_request_id-errors v x g)
    | inl (i, g) ↦
        decode_outcome-errors i (get fs "result") (get fs "error") e (ground (arith, h, f, g))
  ]
]

decode_object-errors : (fs : Fields) (e : Error) → decode_object fs ≡ err e → IsProtocolError e
unfolding decode_object
decode_object-errors fs e h = elim (Bool-cases (is_version (get_or_null fs "jsonrpc"))) [
  | inr v ↦ ground (arith, h, v)
  | inl v ↦ elim (Option-cases (get fs "method")) [
    | inl f ↦ decode_response-errors fs e (ground (arith, h, v, f))
    | inr (x, f) ↦ decode_call-errors fs x e (ground (arith, h, v, f))
  ]
]

-- Every line that it refuses, it refuses as a KernelProtocolError.
pub decode_message-errors :
    (json : Json) (line : String) (e : Error)
    → decode_message json line ≡ err e
    → e.class ≡ kernel_protocol
unfolding decode_message decode_value
decode_message-errors json line e h = from (json.loads line) refl
  where
    from : (v : Option Value) → json.loads line ≡ v → e.class ≡ kernel_protocol
    from none f = ground (arith, h, f)
    from (some (obj fs)) f = decode_object-errors fs e (ground (arith, h, f))
    from (some v) f = ground (arith, h, f)
