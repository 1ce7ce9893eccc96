-- ===== src/Kernel/Client/Handshake.antt =====
-- The handshake of kernel/client.py: what `start` does with the answer to `initialize`.
mod Tests
use astraship.Base.{
  ℕ, String, ◌≡◌, refl, ◌∙◌, sym, ap, subst, ◌↔◌, inl, inr, Bool, true, false, not, ◌&&◌, Option,
  none, some, [], ◌∷◌, ◌==◌, arith, Bool-cases, Option-cases, if◌then◌else◌,
}
use astraship.Base.Int.{ℤ, pos, negsuc}
use astraship.Base.Text.{is_nonempty}
use astraship.Errors.{
  Error, Result, ok, err, raise, raise_f_if, lit, int, ◌>>=◌, ◌>>◌, Result-cases, kernel_protocol,
  kernel_version_mismatch,
}
use astraship.Value.{
  Value, str, obj, Fields, get, get_int, get_obj, get_str, get_or_null, as_int, as_str, as_obj,
}

-- `ServerInfo` and `InitializeResult`
pub record InitializeResult : Type 0 where
  pub protocol_version : ℤ
  pub name : String
  pub version : String
  pub capabilities : Fields

abbrev pub protocol_version : ℕ
protocol_version = 1

-- `serverInfo` of `_parse_initialize_result`.
server_text : Option String → Result String
server_text (some s) =
    if is_nonempty s
    then ok s
    else raise kernel_protocol "initialize.serverInfo requires name and version"
server_text none = raise kernel_protocol "initialize.serverInfo requires name and version"

required {ℓ} : {A : Type ℓ} → Option A → String → Result A
required (some a) message = ok a
required none message = raise kernel_protocol message

-- `_parse_initialize_result`. The keys of a dict of JSON are texts.
unfoldable pub parse_initialize_result : Value → Result InitializeResult
unfolding server_text required
parse_initialize_result (obj fs) = do
  n ← required (get_int fs "protocolVersion") "initialize.protocolVersion must be an integer"
  info ← required (get_obj fs "serverInfo") "initialize.serverInfo must be an object"
  name ← server_text (get_str info "name")
  version ← server_text (get_str info "version")
  capabilities ← required (get_obj fs "capabilities") "initialize.capabilities must be an object"
  ok (record { protocol_version = n; name = name; version = version; capabilities = capabilities })
parse_initialize_result v = raise kernel_protocol "initialize result must be an object"

is_version : ℤ → Bool
is_version (pos n) = n == protocol_version
is_version (negsuc n) = false

unfoldable pub check_version : InitializeResult → Result (Unit {0})
unfolding is_version
check_version r = raise_f_if (not (is_version r.protocol_version)) kernel_version_mismatch (
    lit "unsupported Felix protocol version: expected "
    ∷ lit "1"
    ∷ lit ", received "
    ∷ int r.protocol_version
    ∷ [])

-- The rest of `start`, from the answer on.
unfoldable pub negotiate : Value → Result InitializeResult
unfolding parse_initialize_result check_version
negotiate answer = do r ← parse_initialize_result answer; check_version r; ok r

-- What an answer has to say.
pub record Offers (fs : Fields) (r : InitializeResult) : Type 0 where
  pub supported : r.protocol_version ≡ pos protocol_version
  pub has_version : get_int fs "protocolVersion" ≡ some r.protocol_version
  pub info : Fields
  pub has_info : get_obj fs "serverInfo" ≡ some info
  pub has_name : (get_str info "name" ≡ some r.name) × (is_nonempty r.name ≡ true)
  pub has_release : (get_str info "version" ≡ some r.version) × (is_nonempty r.version ≡ true)
  pub has_capabilities : get_obj fs "capabilities" ≡ some r.capabilities

server_text-inversion :
    (o : Option String) (s : String) → server_text o ≡ ok s → (o ≡ some s) × (is_nonempty s ≡ true)
unfolding server_text
server_text-inversion (some t) s h = ground (arith, h)
server_text-inversion none s h = absurd (cc)

required-inversion {ℓ} :
    {A : Type ℓ} (o : Option A) (m : String) (a : A) → required o m ≡ ok a → o ≡ some a
unfolding required
required-inversion (some b) m a h = ground (arith, h)
required-inversion none m a h = absurd (cc)

version-eq : (n : ℤ) → is_version n ≡ true → n ≡ pos protocol_version
unfolding is_version
version-eq (pos n) h = ground (arith, h)
version-eq (negsuc n) h = absurd (cc)

fields-Offers :
    (fs : Fields) (r : InitializeResult)
    → parse_initialize_result (obj fs) ≡ ok r
    → is_version r.protocol_version ≡ true
    → Offers fs r
unfolding parse_initialize_result
fields-Offers fs r h k =
    elim (Result-cases
      (required (get_int fs "protocolVersion") "initialize.protocolVersion must be an integer")) [
        | inr (e, p) ↦ absurd (ground (arith, h, p))
        | inl (n, p) ↦
            elim (Result-cases
              (required (get_obj fs "serverInfo") "initialize.serverInfo must be an object")) [
                | inr (e, q) ↦ absurd (ground (arith, h, p, q))
                | inl (info, q) ↦ elim (Result-cases (server_text (get_str info "name"))) [
                  | inr (e, u) ↦ absurd (ground (arith, h, p, q, u))
                  | inl (name, u) ↦ elim (Result-cases (server_text (get_str info "version"))) [
                    | inr (e, v) ↦ absurd (ground (arith, h, p, q, u, v))
                    | inl (version, v) ↦
                        elim (Result-cases (
                          required (get_obj fs "capabilities")
                            "initialize.capabilities must be an object")) [
                              | inr (e, x) ↦ absurd (ground (arith, h, p, q, u, v, x))
                              | inl (caps, x) ↦
                                  let same : record {
                                    protocol_version = n;
                                    name = name;
                                    version = version;
                                    capabilities = caps;
                                  }
                                      ≡ r =
                                    ground (arith, h, p, q, u, v, x) in
                                  subst (Offers fs) same (record {
                                    supported = version-eq n (ground (arith, k, same));
                                    has_version =
                                        required-inversion (get_int fs "protocolVersion") _ n p;
                                    info = info;
                                    has_info =
                                        required-inversion (get_obj fs "serverInfo") _ info q;
                                    has_name = server_text-inversion (get_str info "name") name u;
                                    has_release =
                                        server_text-inversion (get_str info "version") version v;
                                    has_capabilities =
                                        required-inversion (get_obj fs "capabilities") _ caps x;
                                  })
                            ]
                  ]
                ]
              ]
      ]

-- A handshake that succeeds has an answer that is an object with the supported protocol version, with
-- a name and a version of the server that are not empty, and with an object of capabilities; and
-- these are the result.
pub negotiate-Offers :
    (answer : Value) (r : InitializeResult)
    → negotiate answer ≡ ok r
    → (fs : Fields) × (answer ≡ obj fs) × Offers fs r
unfolding negotiate
negotiate-Offers (obj fs) r h = elim (Result-cases (parse_initialize_result (obj fs))) [
  | inr (e, p) ↦ absurd (ground (arith, h, p))
  | inl (q, p) ↦ elim (Bool-cases (is_version q.protocol_version)) [
    | inr b ↦ absurd (ground (arith, h, p, b))
    | inl b ↦
        let same : q ≡ r = ground (arith, h, p, b) in
        (fs, refl, subst (Offers fs) same (fields-Offers fs q p b))
  ]
]
negotiate-Offers v r h = absurd (unfold parse_initialize_result in cc)
