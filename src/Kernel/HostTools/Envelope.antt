-- ===== src/Kernel/HostTools/Envelope.antt =====
-- What `handle` of kernel/host_tools.py takes and refuses.
use astraship.Base.{
  String, ◌≡◌, refl, ◌∙◌, sym, ap, subst, ◌⊎◌, inl, inr, Bool, true, false, ◌||◌, none, some, List,
  [], ◌∷◌, str_eq, eq_iff, every, exists, arith, Bool-cases, Option-cases,
}
use astraship.Base.Text.{is_blank, is_nonempty}
use astraship.Errors.{Error, Message, ok, err, Result-cases, invalid_request_params, lit, >>=-eq-ok}
use astraship.Value.{
  Value, bool, int, str, obj, Fields, end, field, get, get_or_null, has_key, keys,
}
use astraship.Base.Int.{pos}
use astraship.Tools.Types.{ToolContext, ToolCall, make_call, ToolError, ToolResult}
use astraship.Tools.Registry.{World, execute}
use astraship.Tools.Registry.Execution.{Answers, execute-Answers}
use astraship.Kernel.HostTools.{
  HostToolAdapter, execute_fields, has_execute_fields, non_empty_string, required_arguments,
  with_session, wire_result, execute_for, handle_fields, handle,
}

-- Is this the name of one of the four fields?
abbrev pub is_field : String → Bool
is_field k = str_eq "sessionId" k || str_eq "callId" k || str_eq "name" k || str_eq "arguments" k

-- The params of a request that is passed on to the registry: the keys are the four, and no other.
pub record Envelope (fs : Fields) (call : ToolCall) : Type 0 where
  pub exact : (k : String) → exists (λ t. str_eq t k) (keys fs) ≡ is_field k
  pub session_id : String
  pub has_session : get fs "sessionId" ≡ some (str session_id)
  pub has_call_id : get fs "callId" ≡ some (str call.call_id)
  pub has_name : get fs "name" ≡ some (str call.name)
  pub has_arguments : get fs "arguments" ≡ some (obj call.arguments)
  pub not_blank :
      (is_blank session_id ≡ false) × (is_blank call.call_id ≡ false) × (is_blank call.name ≡ false)

elem-every :
    (test : String → Bool) (ks : List String) (k : String)
    → every test ks ≡ true
    → exists (λ t. str_eq t k) ks ≡ true
    → test k ≡ true
elem-every test [] k h e = absurd (cc)
elem-every test (x ∷ ks) k h e = elim (Bool-cases (str_eq x k)) [
  | inl b ↦ ap test (sym ((eq_iff x k).0 b)) ∙ ground (arith, h)
  | inr b ↦ elem-every test ks k (ground (arith, h)) (ground (arith, e, b))
]

execute_fields-exact :
    (fs : Fields)
    → has_execute_fields fs ≡ true
    → (k : String) → exists (λ t. str_eq t k) (keys fs) ≡ is_field k
unfolding has_execute_fields
execute_fields-exact fs h k = elim (Bool-cases (exists (λ t. str_eq t k) (keys fs))) [
  | inl b ↦
      let named =
        elem-every (λ s. exists (λ t. str_eq t s) execute_fields) (keys fs) k (ground (arith, h))
          b in
      b ∙ ground (arith, named)
  | inr b ↦ elim (Bool-cases (is_field k)) [
    | inr c ↦ b ∙ sym c
    | inl c ↦
        let there =
          elem-every (λ s. exists (λ t. str_eq t s) (keys fs)) execute_fields k (ground (arith, h))
            (ground (arith, c)) in
        absurd (cc (there, b))
  ]
]

string-inversion :
    (fs : Fields) (k name s : String)
    → non_empty_string (get_or_null fs k) name ≡ ok s
    → (get fs k ≡ some (str s)) × (is_blank s ≡ false)
unfolding non_empty_string
string-inversion fs k name s h = elim (Option-cases (get fs k)) [
  | inl e ↦ absurd (ground (arith, h, e))
  | inr (v, e) ↦
      from v e (subst (λ (u : Value). non_empty_string u name ≡ ok s) (ground (arith, e)) h)
]
  where
    from :
        (v : Value)
        → get fs k ≡ some v
        → non_empty_string v name ≡ ok s
        → (get fs k ≡ some (str s)) × (is_blank s ≡ false)
    from (str t) e g = ground (arith, e, g)
    from v e g = absurd (cc)

string-errors :
    (v : Value) (name : String) (e : Error)
    → non_empty_string v name ≡ err e
    → e.class ≡ invalid_request_params
unfolding non_empty_string
string-errors (str s) name e h = ground (arith, h)
string-errors v name e h = ground (arith, h)

arguments-inversion :
    (fs gs : Fields)
    → required_arguments (get_or_null fs "arguments") ≡ ok gs
    → get fs "arguments" ≡ some (obj gs)
unfolding required_arguments
arguments-inversion fs gs h = elim (Option-cases (get fs "arguments")) [
  | inl e ↦ absurd (ground (arith, h, e))
  | inr (v, e) ↦
      from v e (subst (λ (u : Value). required_arguments u ≡ ok gs) (ground (arith, e)) h)
]
  where
    from :
        (v : Value)
        → get fs "arguments" ≡ some v
        → required_arguments v ≡ ok gs
        → get fs "arguments" ≡ some (obj gs)
    from (obj hs) e g = ground (arith, e, g)
    from v e g = absurd (cc)

arguments-errors :
    (v : Value) (e : Error) → required_arguments v ≡ err e → e.class ≡ invalid_request_params
unfolding required_arguments
arguments-errors (obj gs) e h = absurd (cc)
arguments-errors v e h = ground (arith, h)

blank-nonempty : (s : String) → is_blank s ≡ false → is_nonempty s ≡ true
unfolding is_blank
blank-nonempty String.[] h = absurd (cc)
blank-nonempty (String.◌∷◌ c s) h = refl

-- A call that passes the envelope passes the checks of `ToolCall`.
make-call :
    (i n : String) (gs : Fields)
    → is_blank i ≡ false
    → is_blank n ≡ false
    → make_call (str i) (str n) (obj gs) ≡ ok (record { call_id = i; name = n; arguments = gs })
unfolding make_call
make-call i n gs h k = ground (arith, h, blank-nonempty n k)

-- What is sent back for this call, when this is its result.
pub record Reply (render : Message → String) (call : ToolCall) (r : ToolResult) (wire : Fields)
    : Type 0 where
  pub same_id : get wire "callId" ≡ some (str call.call_id)
  pub same_name : get wire "name" ≡ some (str call.name)
  pub flagged : get wire "isError" ≡ some (bool (has_key wire "error"))
  pub output : get wire "output" ≡ some r.output
  pub elapsed : get wire "elapsedMs" ≡ some (int (pos r.elapsed_ms))
  pub no_error : r.error ≡ none → get wire "error" ≡ none
  pub told_error :
      (e : ToolError)
      → r.error ≡ some e
      → get wire "error"
        ≡ some (obj (field "code" (str e.code) (field "message" (str (render e.message)) end)))

module _ (w : World) (render : Message → String) (resolve : String → String)
    (a : HostToolAdapter) where
  -- Either the envelope is refused, or its call is executed for its session.
  abbrev Handled : Fields → Type 0
  Handled fs =
      ((e : Error) × (handle_fields w render resolve a fs ≡ err e)
        × (e.class ≡ invalid_request_params))
      ⊎ ((call : ToolCall) × (v : Envelope fs call) × (handle_fields w render resolve a fs
            ≡ execute_for w render resolve a v.session_id call))

  pub handle_fields-Handled : (fs : Fields) → Handled fs
  unfolding handle_fields
  handle_fields-Handled fs = elim (Bool-cases (has_execute_fields fs)) [
    | inr x ↦ inl (
      record {
        class = invalid_request_params;
        message =
            lit "tool/execute params require only sessionId, callId, name, and arguments" ∷ [];
      },
      ground (arith, x),
      refl,
    )
    | inl x ↦ elim (Result-cases (non_empty_string (get_or_null fs "sessionId") "sessionId")) [
      | inr (e, p) ↦ inl (e, ground (arith, x, p), string-errors _ _ e p)
      | inl (s, p) ↦ elim (Result-cases (non_empty_string (get_or_null fs "callId") "callId")) [
        | inr (e, q) ↦ inl (e, ground (arith, x, p, q), string-errors _ _ e q)
        | inl (i, q) ↦ elim (Result-cases (non_empty_string (get_or_null fs "name") "name")) [
          | inr (e, r) ↦ inl (e, ground (arith, x, p, q, r), string-errors _ _ e r)
          | inl (n, r) ↦ elim (Result-cases (required_arguments (get_or_null fs "arguments"))) [
            | inr (e, t) ↦ inl (e, ground (arith, x, p, q, r, t), arguments-errors _ e t)
            | inl (gs, t) ↦
                let (hs, bs) = string-inversion fs "sessionId" "sessionId" s p in
                let (hi, bi) = string-inversion fs "callId" "callId" i q in
                let (hn, bn) = string-inversion fs "name" "name" n r in
                inr (
                  record { call_id = i; name = n; arguments = gs },
                  record {
                    exact = execute_fields-exact fs x;
                    session_id = s;
                    has_session = hs;
                    has_call_id = hi;
                    has_name = hn;
                    has_arguments = arguments-inversion fs gs t;
                    not_blank = (bs, bi, bn);
                  },
                  ground (arith, x, p, q, r, t, make-call i n gs bi bn),
                )
          ]
        ]
      ]
    ]
  ]

  abbrev pub run_context : String → ToolContext
  run_context session_id = record {
    workspace = resolve a.context.workspace;
    metadata = with_session session_id a.context.metadata;
  }

  wire_result-Reply :
      (call : ToolCall) (r : ToolResult)
      → Answers call r
      → Reply render call r (wire_result render r)
  unfolding get
  wire_result-Reply call r h = record {
    same_id = ap (λ (s : String). some (str s)) h.same_id;
    same_name = ap (λ (s : String). some (str s)) h.same_name;
    flagged = elim (Option-cases r.error) [
      | inl e ↦ ground (arith, h, e)
      | inr (x, e) ↦ ground (arith, h, e)
    ];
    output = refl;
    elapsed = refl;
    no_error = λ e. ground (arith, e);
    told_error = λ x e. ground (arith, e);
  }

  -- The execution of the call for the session, and what is sent back for its result.
  pub record Executed (session_id : String) (call : ToolCall) (wire : Fields) : Type 0 where
    pub result : ToolResult
    pub executed : execute w a.registry call (run_context session_id) ≡ ok result
    pub reply : Reply render call result wire

  execute_for-Reply :
      (s : String) (call : ToolCall) (wire : Fields)
      → execute_for w render resolve a s call ≡ ok wire
      → Executed s call wire
  unfolding execute_for
  execute_for-Reply s call wire h =
      let (r, p, q) =
        >>=-eq-ok (execute w a.registry call (run_context s)) (λ r. ok (wire_result render r)) h in
      record {
        result = r;
        executed = p;
        reply =
            subst (Reply render call r) {x = wire_result render r} (ground (arith, q))
              (wire_result-Reply call r (execute-Answers w a.registry call (run_context s) r p));
      }

  -- A request that `handle` answers has an envelope of exactly the four fields, with texts that are
  -- not blank. Its call was executed by the registry, with the session in the metadata of the context,
  -- and the answer has the ID and the name of the call, and the output, the time and the error of its
  -- result; it says that it is an error exactly when it holds one.
  pub handle-Reply :
      (params : Value) (wire : Fields)
      → handle w render resolve a params ≡ ok wire
      → (fs : Fields) × (call : ToolCall) × (params ≡ obj fs)
        × (v : Envelope fs call) × Executed v.session_id call wire
  unfolding handle
  handle-Reply (obj fs) wire h = elim (handle_fields-Handled fs) [
    | inl (e, p, c) ↦ absurd (ground (arith, h, p))
    | inr (call, v, p) ↦ (fs, call, refl, v, execute_for-Reply v.session_id call wire (sym p ∙ h))
  ]
  handle-Reply v wire h = absurd (cc)

  -- The exceptions of `handle` are an InvalidRequestParams, and what the execution of a call with a
  -- well-formed envelope raises.
  pub handle-errors :
      (params : Value) (e : Error)
      → handle w render resolve a params ≡ err e
      → (e.class ≡ invalid_request_params)
        ⊎ ((fs : Fields) × (call : ToolCall) × (context : ToolContext) × (params ≡ obj fs)
            × Envelope fs call
            × (execute w a.registry call context ≡ err e))
  unfolding handle execute_for
  handle-errors (obj fs) e h = elim (handle_fields-Handled fs) [
    | inl (x, p, c) ↦ inl (ground (arith, h, p, c))
    | inr (call, v, p) ↦
        elim (Result-cases (execute w a.registry call (run_context v.session_id))) [
          | inl (r, q) ↦ absurd (ground (arith, h, p, q))
          | inr (x, q) ↦
              inr (fs, call, run_context v.session_id, refl, v, q ∙ ground (arith, h, p, q))
        ]
  ]
  handle-errors v e h = inl (ground (arith, h))
