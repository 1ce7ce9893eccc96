-- ===== src/Tools/Registry/Execution.antt =====
-- What one `execute` of tools/registry.py returns.
use astraship.Base.{
  String, ◌≡◌, ◌≢◌, refl, subst, inl, inr, ◌⊎◌, false, Option, none, some, [], ◌∷◌, if◌then◌else◌,
  arith, is_some, Option-cases,
}
use astraship.Errors.{
  Message, Error, Result, ok, err, >>=-eq-ok, Result-cases, value_error, type_error, timeout_error,
  cancelled_error, ErrorClass, lit, text, repr, int,
}
use astraship.Base.Text.{is_nonempty}
use astraship.Value.{Value, null, obj}
use astraship.Tools.Schema.Check.{validate_arguments}
use astraship.Tools.Types.{ToolContext, ToolDefinition, ToolCall, ToolResult}
use astraship.Tools.Registry.Normalize.{normalize_json, normalize_json-errors}
use astraship.Tools.Registry.{
  Registry, World, Outcome, returns, raises, find_definition, error_result, success_result,
  not_found, invalid_result, observe, normalized, settle, after_verdict, execute_known, execute,
}

-- The result belongs to the call, and says that it is an error exactly when it holds one.
pub record Answers (call : ToolCall) (r : ToolResult) : Type 0 where
  pub same_id : r.call_id ≡ call.call_id
  pub same_name : r.name ≡ call.name
  pub flagged : r.is_error ≡ is_some r.error

module _ (w : World) where
  error_result-Answers :
      (call : ToolCall) (code : String) (m : Message) → Answers call (error_result w call code m)
  unfolding error_result
  error_result-Answers call code m = record { same_id = refl; same_name = refl; flagged = refl }

  observe-eq : (r r' : ToolResult) → observe w r ≡ ok r' → r ≡ r'
  unfolding observe
  observe-eq r r' h = ground arith

  normalized-Answers :
      (call : ToolCall) (v : Result Value) (r : ToolResult)
      → normalized w call v ≡ ok r
      → Answers call r
  unfolding normalized error_result success_result
  normalized-Answers call v r h = ground arith

  settle-Answers :
      (s : Registry) (call : ToolCall) (o : Outcome) (r : ToolResult)
      → settle w s call o ≡ ok r
      → Answers call r
  unfolding settle error_result
  settle-Answers s call (returns v) r h = normalized-Answers call _ r h
  settle-Answers s call (raises timeout_error x n) r h = ground arith
  settle-Answers s call (raises c x n) r h = ground arith

  observe-Answers :
      (call : ToolCall) (r r' : ToolResult) → Answers call r → observe w r ≡ ok r' → Answers call r'
  observe-Answers call r r' a h = subst (Answers call) (observe-eq r r' h) a

  after_verdict-Answers :
      (s : Registry) (call : ToolCall) (context : ToolContext) (d : ToolDefinition)
      (verdict : Option Message) (r : ToolResult)
      → after_verdict w s call context d verdict ≡ ok r
      → Answers call r
  unfolding after_verdict
  after_verdict-Answers s call context d (some m) r h =
      observe-Answers call _ r (error_result-Answers call "invalid_arguments" m) h
  after_verdict-Answers s call context d none r h =
      let o : Outcome = w.executor d.name call.arguments context in
      let (x, p, q) = >>=-eq-ok (settle w s call o) (observe w) h in
      observe-Answers call x r (settle-Answers s call o x p) q

  -- Whatever the executor does, a result that `execute` returns carries the call's ID and name, and
  -- its flag says whether it holds an error.
  pub execute-Answers :
      (s : Registry) (call : ToolCall) (context : ToolContext) (r : ToolResult)
      → execute w s call context ≡ ok r
      → Answers call r
  unfolding execute execute_known
  execute-Answers s call context r h =
      elim (Option-cases (find_definition call.name s.definitions)) [
        | inl e ↦
            observe-Answers call _ r (error_result-Answers call "tool_not_found" _)
              (rw (e, execute) at h)
        | inr (d, e) ↦
            let h' : execute_known w s call context d ≡ ok r = rw (e, execute) at h in
            let (v, _, q) = >>=-eq-ok _ (after_verdict w s call context d) h' in
            after_verdict-Answers s call context d v r q
      ]

-- The result is an error with this code, and has no output.
abbrev pub IsError : ToolResult → String → Message → Type 0
IsError r code m = (r.error ≡ some (record { code = code; message = m })) × (r.output ≡ null)

-- What is to be reported of an executor that was asked.
pub data Settled (w : World) (s : Registry) (call : ToolCall) (context : ToolContext)
    (d : ToolDefinition) (r : ToolResult) : Type 0 where
  succeeded :
      {v u : Value}
      → w.executor d.name call.arguments context ≡ returns v
      → normalize_json w.json v ≡ ok u
      → r.output ≡ u
      → r.error ≡ none
      → Settled w s call context d r
  no_json :
      {v : Value} {e : Error}
      → w.executor d.name call.arguments context ≡ returns v
      → normalize_json w.json v ≡ err e
      → IsError r "invalid_result" (lit "tool returned a non-JSON-compatible result" ∷ [])
      → Settled w s call context d r
  timed_out :
      {x n : String}
      → w.executor d.name call.arguments context ≡ raises timeout_error x n
      → IsError r "timeout"
          (lit "tool exceeded " ∷ int s.default_timeout ∷ lit " second timeout" ∷ [])
      → Settled w s call context d r
  -- the text of the exception, or the name of its class where it has none
  failed :
      {c : ErrorClass} {x n : String}
      → w.executor d.name call.arguments context ≡ raises c x n
      → c ≢ timeout_error
      → IsError r "execution_error" (text (if is_nonempty x then x else n) ∷ [])
      → Settled w s call context d r

-- What is to be reported of a call.
pub data Reports (w : World) (s : Registry) (call : ToolCall) (context : ToolContext)
    (r : ToolResult) : Type 0 where
  unknown :
      find_definition call.name s.definitions ≡ none
      → IsError r "tool_not_found" (lit "tool " ∷ repr call.name ∷ lit " is not registered" ∷ [])
      → Reports w s call context r
  refused :
      {d : ToolDefinition} {m : Message}
      → find_definition call.name s.definitions ≡ some d
      → validate_arguments w.re w.recursion_limit (obj d.parameters) (obj call.arguments)
        ≡ ok (some m)
      → IsError r "invalid_arguments" m
      → Reports w s call context r
  settled :
      {d : ToolDefinition}
      → find_definition call.name s.definitions ≡ some d
      → validate_arguments w.re w.recursion_limit (obj d.parameters) (obj call.arguments) ≡ ok none
      → Settled w s call context d r
      → Reports w s call context r

-- No cancellation of the executor or of the observer, and no error of `json` that is none of the two
-- documented ones.
pub record Settles (w : World) (s : Registry) (call : ToolCall) (context : ToolContext)
    : Type 0 where
  pub not_cancelled :
      (name x n : String) → w.executor name call.arguments context ≢ raises cancelled_error x n
  pub observer_not_cancelled :
      (observer : ToolResult → Option Error) (r : ToolResult) (e : Error)
      → w.observer ≡ some observer
      → observer r ≡ some e
      → e.class ≢ cancelled_error
  pub dumps_documented :
      (v : Value) (e : Error)
      → w.json.dumps false v ≡ err e
      → (e.class ≡ type_error) ⊎ (e.class ≡ value_error)

module _ (w : World) (s : Registry) (call : ToolCall) (context : ToolContext)
    (settles : Settles w s call context) where
  observe-total : (r : ToolResult) → observe w r ≡ ok r
  unfolding observe
  observe-total r = elim (Option-cases w.observer) [
    | inl e ↦ rw (e, observe)
    | inr (o, e) ↦ elim (Option-cases (o r)) [
      | inl f ↦ rw (e, observe, f)
      | inr (x, f) ↦ ground (arith, e, f, settles.observer_not_cancelled o r x e f)
    ]
  ]

  settle-Settled :
      (d : ToolDefinition) (o : Outcome)
      → w.executor d.name call.arguments context ≡ o
      → (r : ToolResult) × (settle w s call o ≡ ok r) × Settled w s call context d r
  unfolding settle normalized error_result success_result
  settle-Settled d (returns v) g = elim (Result-cases (normalize_json w.json v)) [
    | inl (u, e) ↦
        (success_result w call u, rw (e, settle, normalized), Settled.succeeded g e refl refl)
    | inr (x, e) ↦ (
      invalid_result w call,
      ground (arith, e, normalize_json-errors w.json settles.dumps_documented v x e),
      Settled.no_json g e (refl, refl),
    )
  ]
  settle-Settled d (raises timeout_error x n) g = (_, refl, Settled.timed_out g (refl, refl))
  settle-Settled d (raises cancelled_error x n) g = absurd (settles.not_cancelled d.name x n g)
  settle-Settled d (raises c x n) g = (_, refl, Settled.failed g (λ e. cc) (refl, refl))

  after_verdict-Settled :
      (d : ToolDefinition) (m : Option Message)
      → find_definition call.name s.definitions ≡ some d
      → validate_arguments w.re w.recursion_limit (obj d.parameters) (obj call.arguments) ≡ ok m
      → (r : ToolResult) × (after_verdict w s call context d m ≡ ok r) × Reports w s call context r
  unfolding after_verdict error_result
  after_verdict-Settled d (some m) e v = (_, observe-total _, Reports.refused e v (refl, refl))
  after_verdict-Settled d none e v =
      let (r, p, q) = settle-Settled d (w.executor d.name call.arguments context) refl in
      (r, rw (p, after_verdict) (observe-total r), Reports.settled e v q)

  -- Where neither the executor nor the observer is cancelled, and `json.dumps` raises only what it
  -- documents, `execute` raises only what the validation of the arguments raises. Otherwise it returns
  -- a result, and it is the one that the events call for: an unknown tool, arguments that are refused, a timeout, an
  -- exception of the executor and an output that is no JSON each give an error with its own code, and
  -- no output; an output that is JSON gives a success with the normalized output. An observer that
  -- fails changes nothing.
  pub execute_total :
      ((r : ToolResult) × (execute w s call context ≡ ok r) × Reports w s call context r)
      ⊎ ((d : ToolDefinition) × (e : Error) × (find_definition call.name s.definitions ≡ some d)
          × (validate_arguments w.re w.recursion_limit (obj d.parameters) (obj call.arguments)
              ≡ err e)
          × (execute w s call context ≡ err e))
  unfolding execute execute_known error_result
  execute_total = elim (Option-cases (find_definition call.name s.definitions)) [
    | inl e ↦ inl (
      not_found w call,
      rw (e, execute) (observe-total (not_found w call)),
      Reports.unknown e (refl, refl),
    )
    | inr (d, e) ↦
        elim (Result-cases
          (validate_arguments w.re w.recursion_limit (obj d.parameters) (obj call.arguments))) [
            | inl (m, v) ↦
                let (r, p, q) = after_verdict-Settled d m e v in inl (r, rw (e, execute, v) p, q)
            | inr (x, v) ↦ inr (d, x, e, v, rw (e, execute, v) refl)
          ]
  ]
