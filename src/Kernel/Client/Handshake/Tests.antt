-- ===== src/Kernel/Client/Handshake/Tests.antt =====
-- An answer to `initialize`, and the theorem of the handshake at it (kernel/client.py).
use astraship.Base.{◌≡◌, refl}
use astraship.Base.Int.{pos}
use astraship.Errors.{ok}
use astraship.Value.{Value, int, str, obj, Fields, end, field, get}
use astraship.Kernel.Client.Handshake.{InitializeResult, negotiate, Offers, negotiate-Offers}

abbrev answer : Value
answer = obj (
    field "protocolVersion" (int (pos 1)) (
      field "serverInfo" (obj (field "name" (str "felix") (field "version" (str "0.3") end)))
        (field "capabilities" (obj end) end)))

abbrev result : InitializeResult
result = record { protocol_version = pos 1; name = "felix"; version = "0.3"; capabilities = end }

negotiated : negotiate answer ≡ ok result
unfolding negotiate get
negotiated = refl

negotiate-Offers_example : (fs : Fields) × (answer ≡ obj fs) × Offers fs result
negotiate-Offers_example = negotiate-Offers answer result negotiated
