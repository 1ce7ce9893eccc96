-- ===== src/Cli/Output.antt =====
-- What the commands of cli.py print.
use astraship.Base.{
  ℕ, String, ◌≡◌, ◌≢◌, refl, ap, ◌⊎◌, inl, inr, Option, none, some, str_eq, eq_iff, List, [], ◌∷◌,
  ◌++◌, arith, Bool-cases,
}
use astraship.Errors.{Error, Message, text, Result, ok, err, Result-cases}
use astraship.Value.{Value, str, get}
use astraship.Persistence.{SessionEvent}
use astraship.Session.{Item, event, failure}
use astraship.Kernel.Client.Handshake.{InitializeResult}
use astraship.Cli.{
  Ending, exits, raises, waits, Run, Kernel, finally, replaced, line_of, is_end, print_events,
  prompt_and_print, with_session, run_prompt,
}

-- What is to be printed for an event: the content of an assistant message that is a text.
pub data Prints (e : SessionEvent) : List Message → Type 0 where
  says :
      {s : String}
      → e.type ≡ "assistant/message"
      → get e.info "content" ≡ some (str s)
      → Prints e ((text s ∷ []) ∷ [])
  no_message : e.type ≢ "assistant/message" → Prints e []
  no_text : ((s : String) → get e.info "content" ≢ some (str s)) → Prints e []

-- The items up to the end of a turn, with what is to be printed for them.
pub data Turn : List Item → List Message → Type 0 where
  ends :
      {e : SessionEvent} {rest : List Item} {line : List Message}
      → e.type ≡ "turn/end"
      → Prints e line
      → Turn (event e ∷ rest) line
  goes_on :
      {e : SessionEvent} {rest : List Item} {line lines : List Message}
      → e.type ≢ "turn/end"
      → Prints e line
      → Turn rest lines
      → Turn (event e ∷ rest) (line ++ lines)

content-Prints :
    (e : SessionEvent) (o : Option Value)
    → e.type ≡ "assistant/message"
    → get e.info "content" ≡ o
    → Prints e (elim o as (λ x. List Message) [ some (str s) ↦ (text s ∷ []) ∷ [] | _ ↦ [] ])
content-Prints e (some (str s)) t g = Prints.says t g
content-Prints e none t g = Prints.no_text (λ s h. cc)
content-Prints e (some v) t g = Prints.no_text (λ s h. cc)

line_of-Prints : (e : SessionEvent) → Prints e (line_of e)
unfolding line_of
line_of-Prints e = elim (Bool-cases (str_eq e.type "assistant/message")) [
  | inl b ↦
      rw (b, line_of)
        (content-Prints e (get e.info "content") ((eq_iff e.type "assistant/message").0 b) refl)
  | inr b ↦
      rw (b, line_of) (Prints.no_message (λ t. cc (b, (eq_iff e.type "assistant/message").1 t)))
]

append-nil : (xs : List Message) → xs ++ [] ≡ xs
append-nil [] = refl
append-nil (x ∷ xs) = ap (◌∷◌ x) (append-nil xs)

print_events-Turn :
    (items : List Item) (n : ℕ)
    → (print_events items).ending ≡ exits n
    → (n ≡ 0) × Turn items (print_events items).out
unfolding print_events
print_events-Turn [] n h = absurd (cc)
print_events-Turn (failure e ∷ items) n h = absurd (cc)
print_events-Turn (event e ∷ items) n h = elim (Bool-cases (is_end e)) [
  | inl b ↦
      rw (b, print_events, append-nil (line_of e))
        (ground (arith, h, b), Turn.ends ((eq_iff e.type "turn/end").0 b) (line_of-Prints e))
  | inr b ↦
      let (z, t) = print_events-Turn items n (ground (arith, h, b)) in
      rw (b, print_events)
        (z, Turn.goes_on (λ q. cc (b, (eq_iff e.type "turn/end").1 q)) (line_of-Prints e) t)
]

-- An exit status passes through a `finally` that raises nothing.
finally-exits :
    (c : Result (Unit {0})) (r : Run) (n : ℕ)
    → (finally c r).ending ≡ exits n
    → (c ≡ ok tt) × (finally c r ≡ r) × (r.ending ≡ exits n)
unfolding finally
finally-exits (ok tt) r n h = (refl, refl, h)
finally-exits (err e) r n h = absurd (from r.ending h)
  where
    from : (x : Ending) → replaced e x ≡ exits n → ⊥
    from waits g = cc
    from (exits m) g = cc
    from (raises y) g = cc

-- A prompt that is run to its end: the client has started, the session was created, took the prompt
-- and was closed, and the client stopped, each without an exception.
pub record IsDone (k : Kernel) (content : String) : Type 0 where
  pub result : InitializeResult
  pub started : k.start ≡ ok result
  pub created : k.create ≡ ok tt
  pub prompted : k.prompt content ≡ ok tt
  pub closed : k.close ≡ ok tt
  pub stopped : k.stop ≡ ok tt

Unit-cases : (r : Result (Unit {0})) → (r ≡ ok tt) ⊎ ((e : Error) × (r ≡ err e))
Unit-cases (ok tt) = inl refl
Unit-cases (err e) = inr (e, refl)

-- `astraship run` that ends with an exit status ends with 0, after every step of it was done; and it
-- has printed, in order, exactly the text contents of the assistant messages up to the end of the
-- turn, which is the first `turn/end` event. Items behind that are not looked at.
pub run_prompt-Turn :
    (k : Kernel) (content : String) (items : List Item) (n : ℕ)
    → (run_prompt k content items).ending ≡ exits n
    → (n ≡ 0) × IsDone k content × Turn items (run_prompt k content items).out
unfolding run_prompt with_session prompt_and_print finally
run_prompt-Turn k content items n h = elim (Result-cases k.start) [
  | inr (e, s) ↦ absurd (ground (arith, h, s))
  | inl (r, s) ↦
      let body = with_session k content items in
      let (p, same, g) = finally-exits k.stop body n (rw (s, run_prompt) at h) in
      elim (Unit-cases k.create) [
        | inr (e, c) ↦ absurd (ground (arith, g, c))
        | inl c ↦
            let inner = prompt_and_print k content items in
            let (q, same', g') = finally-exits k.close inner n (rw (c, with_session) at g) in
            elim (Unit-cases (k.prompt content)) [
              | inr (e, x) ↦ absurd (ground (arith, g', x))
              | inl x ↦
                  let (z, t) = print_events-Turn items n (rw (x, prompt_and_print) at g') in
                  (
                    z,
                    record {
                      result = r;
                      started = s;
                      created = c;
                      prompted = x;
                      closed = q;
                      stopped = p;
                    },
                    rw (s, p, run_prompt, c, q, x, with_session, prompt_and_print) t,
                  )
            ]
      ]
]
