-- ===== src/Kernel/Client/Reader/Delivery.antt =====
-- Which notifications a subscriber of the client gets (kernel/client.py).
use mathlib.Core.List.{append_assoc, append-nil}
use astraship.Base.{
  ℕ, ◌≡◌, refl, ◌∙◌, sym, ap, subst, inl, inr, Bool, true, false, not, List, [], ◌∷◌, ◌++◌, arith,
  Option, none, some, String, str_eq, every, ◌==◌, Bool-cases, if◌then◌else◌,
}
use astraship.Value.Json.{Json}
use astraship.Errors.{Result, ok, err}
use astraship.Kernel.Protocol.{WireMessage, response, notification, server_request, decode_message}
use astraship.Session.{Notification}
use astraship.Kernel.Client.Server.{World}
use astraship.Kernel.Client.Reader.Queues.{
  emitted, stops, Holds, take_from-Holds, subscribe-Holds, unsubscribe-Holds,
  next_notification-Holds, act-Holds, act-reading, subscribe-reading, next_notification-reading,
}
use astraship.Kernel.Client.Reader.{
  not_utf8, action_of, read_line, Connection, act, unsubscribe, take_from, Event, reads, subscribes,
  unsubscribes, takes, takes_next, step, run,
}

-- The message in a line, where the bytes are UTF-8.
abbrev pub decoded : Json → Option String → Result WireMessage
decoded json none = err not_utf8
decoded json (some line) = decode_message json line

-- The notification that a line holds, unless it is a cancellation.
abbrev pub told : Result WireMessage → List Notification
told (ok (notification method params)) =
    if str_eq method "$/cancelRequest" then [] else record { method = method; params = params } ∷ []
told r = []

-- Is the line no message?
abbrev pub broken : Result WireMessage → Bool
broken (ok m) = false
broken (err e) = true

emitted-told : (r : Result WireMessage) → emitted (action_of r) ≡ told r
unfolding action_of
emitted-told (err e) = refl
emitted-told (ok (response i v e)) = refl
emitted-told (ok (server_request i method params)) = refl
emitted-told (ok (notification method params)) =
    elim (Bool-cases (str_eq method "$/cancelRequest")) [ inl b ↦ rw b refl | inr b ↦ rw b refl ]

stops-broken : (r : Result WireMessage) → stops (action_of r) ≡ broken r
unfolding action_of
stops-broken (err e) = refl
stops-broken (ok (response i v e)) = refl
stops-broken (ok (server_request i method params)) = refl
stops-broken (ok (notification method params)) =
    elim (Bool-cases (str_eq method "$/cancelRequest")) [ inl b ↦ rw b refl | inr b ↦ rw b refl ]

emitted-line :
    (json : Json) (line : Option String) → emitted (read_line json line) ≡ told (decoded json line)
unfolding read_line
emitted-line json none = refl
emitted-line json (some line) = emitted-told (decode_message json line)

stops-line :
    (json : Json) (line : Option String) → stops (read_line json line) ≡ broken (decoded json line)
unfolding read_line
stops-line json none = refl
stops-line json (some line) = stops-broken (decode_message json line)

-- The notifications in the lines that are read: those up to the first line that is no message, but
-- for the cancellations.
unfoldable pub published : Json → Bool → List Event → List Notification
published json reading [] = []
published json reading (reads line ∷ es) =
    let rest = published json true es in
    if reading
    then told (decoded json line) ++ (if broken (decoded json line) then [] else rest)
    else []
published json reading (e ∷ es) = published json reading es

published-stopped : (json : Json) (es : List Event) → published json false es ≡ []
unfolding published
published-stopped json [] = refl
published-stopped json (reads line ∷ es) = refl
published-stopped json (subscribes k ∷ es) = published-stopped json es
published-stopped json (unsubscribes k ∷ es) = published-stopped json es
published-stopped json (takes k ∷ es) = published-stopped json es
published-stopped json (takes_next ∷ es) = published-stopped json es

-- The notifications that an event brings.
unfoldable pub arrivals : Json → Connection → Event → List Notification
arrivals json y (reads line) = if y.reading then emitted (read_line json line) else []
arrivals json y e = []

pub published-step :
    (w : World) (y : Connection) (e : Event) (es : List Event)
    → published w.json y.reading (e ∷ es)
      ≡ arrivals w.json y e ++ published w.json (step w y e).reading es
unfolding step published arrivals
published-step w y (subscribes m) es = ap (λ b. published w.json b es) (sym (subscribe-reading m y))
published-step w y (unsubscribes m) es =
    ap (λ b. published w.json b es) (unfold unsubscribe in refl)
published-step w y (takes m) es = ap (λ b. published w.json b es) (unfold take_from in refl)
published-step w y (takes_next) es =
    ap (λ b. published w.json b es) (sym (next_notification-reading y))
published-step w y (reads line) es = elim (Bool-cases y.reading) [
  | inr b ↦
      let same : step w y (reads line) ≡ y = ground (arith, b) in
      ground (arith, b)
      ∙ sym (published-stopped w.json es)
      ∙ ap (λ c. published w.json c es) (sym b ∙ ap (λ z. z.reading) (sym same))
      ∙ ground (arith, b)
  | inl b ↦
      let a = read_line w.json line in
      let same : step w y (reads line) ≡ act w a y = ground (arith, b) in
      let rest : published w.json (step w y (reads line)).reading es
          ≡ (if broken (decoded w.json line) then [] else published w.json true es) =
        ap (λ z. published w.json z.reading es) same
        ∙ ap (λ c. published w.json c es) (act-reading w a y b)
        ∙ from (stops a)
        ∙ ap (λ c. if c then [] else published w.json true es) (stops-line w.json line) in
      ground (arith, b)
      ∙ ap (◌++◌ (told (decoded w.json line))) (sym rest)
      ∙ ap (λ ns. ns ++ published w.json (step w y (reads line)).reading es)
          (sym (emitted-line w.json line))
      ∙ ground (arith, b)
]
  where
    from : (c : Bool) → published w.json (not c) es ≡ (if c then [] else published w.json true es)
    from true = published-stopped w.json es
    from false = refl

-- The queue is not given up.
abbrev pub stays : ℕ → Event → Bool
stays n (unsubscribes k) = not (k == n)
stays n e = true

module _ (w : World) (n : ℕ) where
  step-Holds :
      (e : Event) (y : Connection) (all : List Notification)
      → stays n e ≡ true
      → Holds n y all
      → Holds n (step w y e) (all ++ arrivals w.json y e)
  unfolding step arrivals
  step-Holds (subscribes m) y all k h =
      subst (Holds n _) (sym (append-nil all)) (subscribe-Holds n all m y h)
  step-Holds (unsubscribes m) y all k h =
      subst (Holds n _) (sym (append-nil all)) (unsubscribe-Holds n all m y (ground (arith, k)) h)
  step-Holds (takes m) y all k h =
      subst (Holds n _) (sym (append-nil all)) (take_from-Holds n all m y h)
  step-Holds (takes_next) y all k h =
      subst (Holds n _) (sym (append-nil all)) (next_notification-Holds n all y h)
  step-Holds (reads line) y all k h = from y.reading
    where
      from :
          (b : Bool)
          → Holds n
              (if b then act w (read_line w.json line) y else y)
              (all ++ (if b then emitted (read_line w.json line) else []))
      from true = act-Holds n all w (read_line w.json line) y h
      from false = subst (Holds n y) (sym (append-nil all)) h

  -- A queue without a bound loses nothing and keeps the order, in every interleaving: what its
  -- consumer has taken and what still stands in it is what it was before, and then the notifications
  -- in the lines that Felix sent since, up to the first line that is no message. This holds as long as
  -- the queue is not given up, whatever the other queues and their consumers do.
  pub run-Holds :
      (es : List Event) (y : Connection) (all : List Notification)
      → every (stays n) es ≡ true
      → Holds n y all
      → Holds n (run w y es) (all ++ published w.json y.reading es)
  unfolding run published
  run-Holds [] y all k h = subst (Holds n y) (sym (append-nil all)) h
  run-Holds (e ∷ es) y all k h =
      subst (Holds n (run w (step w y e) es))
        (append_assoc all (arrivals w.json y e) (published w.json (step w y e).reading es)
          ∙ ap (◌++◌ all) (sym (published-step w y e es)))
        (run-Holds es (step w y e) (all ++ arrivals w.json y e) (ground (arith, k))
          (step-Holds e y all (ground (arith, k)) h))
