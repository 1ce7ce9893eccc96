-- ===== src/Kernel/Protocol/Decoding.antt =====
-- Which objects `decode_message` of kernel/protocol.py takes, and for which messages.
use astraship.Base.{
  String, ◌≡◌, refl, subst, ◌↔◌, inl, inr, true, Option, none, some, arith, eq_iff, Option-cases,
  Bool-cases,
}
use astraship.Base.Text.{is_nonempty}
use astraship.Errors.{ok, Result-cases}
use astraship.Value.{Value, null, int, str, obj, Fields, get, get_or_null}
use astraship.Value.Json.{Json}
use astraship.Kernel.Protocol.{
  RequestId, int_id, str_id, id_value, WireMessage, response, notification, server_request,
  require_request_id, is_version, decode_call, decode_error, decode_outcome, decode_response,
  decode_object, decode_value, decode_message,
}

-- The object says that it is this message, in the words of JSON-RPC.
abbrev pub Wire : Fields → WireMessage → Type 0
Wire fs (server_request i method params) =
    (get fs "jsonrpc" ≡ some (str "2.0"))
    × (get fs "method" ≡ some (str method))
    × (is_nonempty method ≡ true)
    × (get fs "id" ≡ some (id_value i))
    × (params ≡ get_or_null fs "params")
Wire fs (notification method params) =
    (get fs "jsonrpc" ≡ some (str "2.0"))
    × (get fs "method" ≡ some (str method))
    × (is_nonempty method ≡ true)
    × (get fs "id" ≡ none)
    × (params ≡ get_or_null fs "params")
Wire fs (response i result none) =
    (get fs "jsonrpc" ≡ some (str "2.0"))
    × (get fs "method" ≡ none)
    × (get fs "id" ≡ some (id_value i))
    × (get fs "result" ≡ some result)
    × (get fs "error" ≡ none)
Wire fs (response i result (some e)) =
    (get fs "jsonrpc" ≡ some (str "2.0"))
    × (get fs "method" ≡ none)
    × (get fs "id" ≡ some (id_value i))
    × (get fs "result" ≡ none)
    × (result ≡ null)
    × (es : Fields) × (get fs "error" ≡ some (obj es))
    × (get es "code" ≡ some (int e.code))
    × (get es "message" ≡ some (str e.message))
    × (e.info ≡ get_or_null es "data")

version_present :
    (fs : Fields)
    → is_version (get_or_null fs "jsonrpc") ≡ true
    → get fs "jsonrpc" ≡ some (str "2.0")
unfolding is_version
version_present fs h = elim (Option-cases (get fs "jsonrpc")) [
  | inl e ↦ absurd (ground (arith, e, h))
  | inr (v, e) ↦ from v e (rw (e, get_or_null) at h)
]
  where
    from :
        (v : Value)
        → get fs "jsonrpc" ≡ some v
        → is_version v ≡ true
        → get fs "jsonrpc" ≡ some (str "2.0")
    from (str s) e g = ground (arith, e, (eq_iff s "2.0").0 g)
    from v e g = absurd (cc)

require_id : (v : Value) (i : RequestId) → require_request_id v ≡ ok i → v ≡ id_value i
unfolding require_request_id
require_id (str s) i h = ground arith
require_id (int n) i h = ground arith
require_id v i h = absurd (cc)

require-id_value : (i : RequestId) → require_request_id (id_value i) ≡ ok i
unfolding require_request_id
require-id_value (int_id n) = refl
require-id_value (str_id s) = refl

module _ (fs : Fields) (version : get fs "jsonrpc" ≡ some (str "2.0")) where
  decode_call-Wire :
      (v : Value) (m : WireMessage) → get fs "method" ≡ some v → decode_call fs v ≡ ok m → Wire fs m
  unfolding decode_call
  decode_call-Wire (str method) (server_request i m p) e h = elim (Option-cases (get fs "id")) [
    | inl n ↦ absurd (ground (arith, h, n))
    | inr (v, f) ↦ ground (arith, version, e, h, f, require_id v i)
  ]
  decode_call-Wire (str method) (notification m p) e h = elim (Option-cases (get fs "id")) [
    | inl n ↦ ground (arith, version, e, h, n)
    | inr (v, f) ↦ absurd (ground (arith, h, f))
  ]
  decode_call-Wire (str method) (response i r x) e h = absurd (ground (arith, h))
  decode_call-Wire v m e h = absurd (cc)

  decode_error-Wire :
      (i : RequestId) (x : Value) (m : WireMessage)
      → get fs "method" ≡ none
      → get fs "id" ≡ some (id_value i)
      → get fs "result" ≡ none
      → get fs "error" ≡ some x
      → decode_error i x ≡ ok m
      → Wire fs m
  unfolding decode_error
  decode_error-Wire i (obj es) (response k r (some x)) a b c d h = (
    version,
    a,
    ground (arith, b, h),
    c,
    ground (arith, h),
    es,
    d,
    ground (arith, h),
    ground (arith, h),
    ground (arith, h),
  )
  decode_error-Wire i (obj es) m a b c d h = absurd (ground (arith, h))
  decode_error-Wire i x m a b c d h = absurd (cc)

  decode_outcome-Wire :
      (i : RequestId) (x y : Option Value) (m : WireMessage)
      → get fs "method" ≡ none
      → get fs "id" ≡ some (id_value i)
      → get fs "result" ≡ x
      → get fs "error" ≡ y
      → decode_outcome i x y ≡ ok m
      → Wire fs m
  unfolding decode_outcome
  decode_outcome-Wire i (some r) none m a b c d h =
      subst (Wire fs) {x = response i r none} (ground (arith, h)) (version, a, b, c, d)
  decode_outcome-Wire i none (some x) m a b c d h = decode_error-Wire i x m a b c d h
  decode_outcome-Wire i none none m a b c d h = absurd (cc)
  decode_outcome-Wire i (some r) (some x) m a b c d h = absurd (cc)

  decode_response-Wire :
      (m : WireMessage) → get fs "method" ≡ none → decode_response fs ≡ ok m → Wire fs m
  unfolding decode_response
  decode_response-Wire m a h = elim (Option-cases (get fs "id")) [
    | inl n ↦ absurd (ground (arith, h, n))
    | inr (v, f) ↦ elim (Result-cases (require_request_id v)) [
      | inr (x, g) ↦ absurd (ground (arith, h, f, g))
      | inl (i, g) ↦
          decode_outcome-Wire i (get fs "result") (get fs "error") m a
            (ground (arith, f, require_id v i g)) refl refl (ground (arith, h, f, g))
    ]
  ]

decode_object-Wire : (fs : Fields) (m : WireMessage) → decode_object fs ≡ ok m → Wire fs m
unfolding decode_object
decode_object-Wire fs m h = elim (Bool-cases (is_version (get_or_null fs "jsonrpc"))) [
  | inr v ↦ absurd (ground (arith, h, v))
  | inl v ↦ elim (Option-cases (get fs "method")) [
    | inl e ↦ decode_response-Wire fs (version_present fs v) m e (ground (arith, h, v, e))
    | inr (x, e) ↦ decode_call-Wire fs (version_present fs v) x m e (ground (arith, h, v, e))
  ]
]

version_true :
    (fs : Fields)
    → get fs "jsonrpc" ≡ some (str "2.0")
    → is_version (get_or_null fs "jsonrpc") ≡ true
unfolding is_version
version_true fs e = rw (e, get_or_null) refl

Wire-decode_object : (fs : Fields) (m : WireMessage) → Wire fs m → decode_object fs ≡ ok m
unfolding decode_object decode_call decode_response decode_outcome decode_error
Wire-decode_object fs (server_request i p q) h =
    ground (arith, h, version_true fs h.0, require-id_value i)
Wire-decode_object fs (notification p q) h = ground (arith, h, version_true fs h.0)
Wire-decode_object fs (response i r none) h =
    ground (arith, h, version_true fs h.0, require-id_value i)
Wire-decode_object fs (response i r (some x)) h =
    ground (arith, h, version_true fs h.0, require-id_value i)

-- `decode_message` returns a message exactly for a line that is a JSON object which says so: version
-- 2.0; with a non-empty method, a request or, without an ID, a notification; without a method, a
-- response with an ID and exactly one of a result and a well-formed error.
pub decode_message_iff :
    (json : Json) (line : String) (m : WireMessage)
    → (decode_message json line ≡ ok m)
      ↔ ((fs : Fields) × (json.loads line ≡ some (obj fs)) × Wire fs m)
unfolding decode_message decode_value
decode_message_iff json line m = (to (json.loads line) refl, from)
  where
    to :
        (v : Option Value)
        → json.loads line ≡ v
        → decode_message json line ≡ ok m
        → (fs : Fields) × (json.loads line ≡ some (obj fs)) × Wire fs m
    to (some (obj fs)) e h = (fs, e, decode_object-Wire fs m (ground (arith, e, h)))
    to (some v) e h = absurd (ground (arith, e, h))
    to none e h = absurd (ground (arith, e, h))

    from :
        (fs : Fields) × (json.loads line ≡ some (obj fs)) × Wire fs m
        → decode_message json line ≡ ok m
    from (fs, e, h) = ground (arith, e, Wire-decode_object fs m h)
