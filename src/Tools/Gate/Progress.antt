-- ===== src/Tools/Gate/Progress.antt =====
-- Schedules by which the gate of tools/registry.py lets a waiting coroutine in.
use astraship.Base.{
  ℕ, zero, suc, ◌≤◌, ◌<◌, ◌≡◌, ◌≢◌, refl, ◌∙◌, ap, sym, ◌⊎◌, inl, inr, true, false, not, List, [],
  ◌∷◌, ◌++◌, some, arith, ◌==◌, length, exists, All, All-append, Option-cases, Bool-cases,
  length-keep-le, take, Bool,
}
use astraship.Tools.Gate.{
  Waiter, Gate, System, Event, arrive, wake, cancel, leave, position, may_enter, can_enter, enqueue,
  enter, without, queued, init, find, remove, is_asleep, try_enter, step, run,
}
use astraship.Tools.Gate.Exclusion.{
  Inv, step-Inv, run-Inv, init-Inv, limit-step, limit-run, counters_idle,
}
use astraship.Tools.Gate.Fairness.{step-wake}

-- A coroutine that sleeps could not enter: no notification is missing.
abbrev pub Refused : Gate → Waiter → Type 0
Refused g w = can_enter g w.token w.shared ≡ some false

abbrev pub Awake : System → Type 0
Awake s = All (Refused s.gate) s.sleeping

position-append :
    (t i : ℕ) (ws xs : List Waiter)
    → position t ws ≡ some i
    → (position t (ws ++ xs) ≡ some i) × (take i (ws ++ xs) ≡ take i ws)
unfolding position
position-append t i [] xs e = absurd (cc)
position-append t i (w ∷ ws) xs e = elim (Option-cases (position t ws)) [
  | inl p ↦ ground (arith, p)
  | inr (j, p) ↦ ground (arith, p, position-append t j ws xs p)
]

Refused-enqueue :
    (g : Gate) (w : Waiter) (t : ℕ) (shared : Bool) → Refused g w → Refused (enqueue g t shared) w
unfolding can_enter may_enter enqueue
Refused-enqueue g w t shared h = elim (Option-cases (position w.token g.waiting)) [
  | inl p ↦ ground (arith, p)
  | inr (i, p) ↦
      ground (
        arith,
        p,
        position-append w.token i g.waiting (record { token = t; shared = shared } ∷ []) p,
      )
]

All-Refused-enqueue :
    (g : Gate) (t : ℕ) (shared : Bool) (ws : List Waiter)
    → All (Refused g) ws
    → All (Refused (enqueue g t shared)) ws
All-Refused-enqueue g t shared [] a = tt
All-Refused-enqueue g t shared (w ∷ ws) a =
    (Refused-enqueue g w t shared a.0, All-Refused-enqueue g t shared ws a.1)

try_enter-Awake : (s : System) (w : Waiter) → Awake s → Awake (try_enter s w)
unfolding try_enter
try_enter-Awake s w a = elim (Option-cases (can_enter s.gate w.token w.shared)) [
  | inl e ↦ rw (e, try_enter) a
  | inr (true, e) ↦ rw (e, try_enter) tt
  | inr (false, e) ↦ rw (e, try_enter) (e, a)
]

step-Awake : (s : System) (e : Event) → Awake s → Awake (step s e)
unfolding step queued
step-Awake s (arrive shared) a =
    try_enter-Awake (queued s shared) (record { token = s.next_token; shared = shared })
      (All-Refused-enqueue s.gate s.next_token shared s.sleeping a)
step-Awake s (wake t) a = elim (Option-cases (find t s.gate.waiting)) [
  | inl e ↦ rw (e, step) a
  | inr (w, e) ↦ elim (Bool-cases (is_asleep t s.sleeping)) [
    | inl b ↦ rw (e, b, step) a
    | inr b ↦ rw (e, b, step) (try_enter-Awake s w a)
  ]
]
step-Awake s (cancel t) a = elim (Option-cases (find t s.gate.waiting)) [
  | inl e ↦ rw (e, step) a
  | inr (w, e) ↦ rw (e, step) tt
]
step-Awake s (leave t) a = elim (Option-cases (find t s.holders)) [
  | inl e ↦ rw (e, step) a
  | inr (w, e) ↦ rw (e, step) tt
]

run-Awake : (s : System) (es : List Event) → Awake s → Awake (run s es)
unfolding run
run-Awake s [] a = a
run-Awake s (e ∷ es) a = run-Awake (step s e) es (step-Awake s e a)

-- The head of the queue of an idle gate does not sleep.
head-awake :
    (g : Gate) (w : Waiter) (ws xs : List Waiter)
    → (g.active_shared ≡ 0) × (g.active_exclusive ≡ false)
    → 0 < g.shared_limit
    → g.waiting ≡ w ∷ ws
    → All (Refused g) xs
    → is_asleep w.token xs ≡ false
unfolding is_asleep can_enter may_enter position
head-awake g w ws [] idle pos e a = refl
head-awake g w ws (x ∷ xs) idle pos e a =
    ground (arith, idle, e, a.0, head-awake g w ws xs idle pos e a.1)

-- Only holders that leave, and waiting coroutines that test their condition again.
abbrev pub IsProgress : Event → Type 0
IsProgress (wake t) = Unit
IsProgress (leave t) = Unit
IsProgress _ = ⊥

run-append : (s : System) (es fs : List Event) → run s (es ++ fs) ≡ run (run s es) fs
unfolding run
run-append s [] fs = refl
run-append s (e ∷ es) fs = run-append (step s e) es fs

record Cleared (s : System) (hs : List Waiter) : Type 0 where
  events : List Event
  progress : All IsProgress events
  nobody : (run s events).holders ≡ []
  queue : (run s events).gate.waiting ≡ s.gate.waiting

-- Every holder leaves.
clear : (s : System) (hs : List Waiter) → s.holders ≡ hs → Cleared s hs
unfolding run
clear s [] e = record { events = []; progress = tt; nobody = e; queue = refl }
clear s (h ∷ hs) e =
    let rest =
      clear (step s (leave h.token)) hs (unfold step find remove in rw (e, step) (ground arith)) in
    record {
      events = leave h.token ∷ rest.events;
      progress = (tt, rest.progress);
      nobody = rest.nobody;
      queue = rest.queue ∙ (unfold step find in rw (e, step) (ground arith));
    }

-- The coroutine is inside, and has notified the others.
abbrev entered : System → Waiter → System
entered s w = record s {
  gate = enter s.gate w.token w.shared;
  sleeping = [];
  holders = w ∷ s.holders;
}

-- With nobody inside and room for one, the first of the queue is let in.
head_enters :
    (s : System) (w : Waiter) (ws : List Waiter)
    → Inv s
    → Awake s
    → 0 < s.gate.shared_limit
    → s.holders ≡ []
    → s.gate.waiting ≡ w ∷ ws
    → step s (wake w.token) ≡ entered s w
unfolding try_enter can_enter may_enter position find
head_enters s w ws v a pos nobody e =
    let idle = counters_idle s v nobody in
    step-wake s w.token w (ground (arith, e)) (head-awake s.gate w ws s.sleeping idle pos e a)
    ∙ ground (arith, e, idle)

find-without : (t u : ℕ) (ws : List Waiter) → u ≢ t → find t (without u ws) ≡ find t ws
unfolding find without
find-without t u [] ne = refl
find-without t u (x ∷ ws) ne = ground (arith, find-without t u ws ne)

-- A schedule of such events that ends with a holder of this token.
record Admits (s : System) (t : ℕ) : Type 0 where
  pub events : List Event
  pub progress : All IsProgress events
  pub inside : exists (λ h. h.token == t) (run s events).holders ≡ true

Admits-prefix :
    (s : System) (t : ℕ) (es : List Event) → All IsProgress es → Admits (run s es) t → Admits s t
Admits-prefix s t es p a = record {
  events = es ++ a.events;
  progress = All-append IsProgress es a.events p a.progress;
  inside = rw (run-append s es a.events) a.inside;
}

Admits-here : (s : System) (t : ℕ) → exists (λ h. h.token == t) s.holders ≡ true → Admits s t
unfolding run
Admits-here s t e = record { events = []; progress = tt; inside = e }

Admits-wake : (s : System) (t u : ℕ) → Admits (step s (wake u)) t → Admits s t
unfolding run
Admits-wake s t u = Admits-prefix s t (wake u ∷ []) (tt, tt)

length-without-cons :
    (w : Waiter) (ws : List Waiter) → length (without w.token (w ∷ ws)) ≤ length ws
unfolding without
length-without-cons w ws = ground (arith, length-keep-le (λ v. not (v.token == w.token)) ws)

waiting-enter :
    (s : System) (w : Waiter)
    → (enter s.gate w.token w.shared).waiting ≡ without w.token s.gate.waiting
unfolding enter
waiting-enter s w = ground arith

List-cases : (ws : List Waiter) → (ws ≡ []) ⊎ ((x : Waiter) × (xs : List Waiter) × (ws ≡ x ∷ xs))
List-cases [] = inl refl
List-cases (x ∷ xs) = inr (x, xs, refl)

-- The head of a cleared queue is let in: it is the coroutine itself, or the queue gets shorter.
admit_head :
    (n : ℕ) (s : System) (t : ℕ) (w x : Waiter) (xs : List Waiter)
    → ((r : System)
        → length r.gate.waiting ≤ n
        → Inv r
        → Awake r
        → 0 < r.gate.shared_limit
        → find t r.gate.waiting ≡ some w
        → Admits r t)
    → length s.gate.waiting ≤ suc n
    → Inv s
    → Awake s
    → 0 < s.gate.shared_limit
    → s.holders ≡ []
    → s.gate.waiting ≡ x ∷ xs
    → find t s.gate.waiting ≡ some w
    → Admits s t
admit_head n s t w x xs ih fits v a pos nobody e f =
    Admits-wake s t x.token (rest (Bool-cases (x.token == t)))
  where
    r : System
    r = entered s x

    inside : step s (wake x.token) ≡ r
    inside = head_enters s x xs v a pos nobody e

    queue : r.gate.waiting ≡ without x.token (x ∷ xs)
    queue = waiting-enter s x ∙ ap (without x.token) e

    rest : ((x.token == t) ≡ true) ⊎ ((x.token == t) ≡ false) → Admits (step s (wake x.token)) t
    rest (inl same) = Admits-here _ t (rw (inside, same))
    rest (inr other) =
        ih (step s (wake x.token))
          (rw inside (omega (arith, ap length queue, ap length e, length-without-cons x xs)))
          (step-Inv s (wake x.token) v) (step-Awake s (wake x.token) a) (rw limit-step pos)
          (rw inside (
            ap (find t) queue
            ∙ find-without t x.token (x ∷ xs) (ground arith)
            ∙ ap (find t) (sym e)
            ∙ f))

-- The holders leave first, then the queue is served from its head.
admit :
    (n : ℕ) (s : System) (t : ℕ) (w : Waiter)
    → length s.gate.waiting ≤ n
    → Inv s
    → Awake s
    → 0 < s.gate.shared_limit
    → find t s.gate.waiting ≡ some w
    → Admits s t
unfolding find
admit zero s t w fits v a pos f = elim (List-cases s.gate.waiting) [
  | inl e ↦ absurd (ground (arith, e, f))
  | inr (x, xs, e) ↦ absurd (omega (arith, ap length e))
]
admit (suc n) s t w fits v a pos f =
    let c = clear s s.holders refl in
    let f' : find t (run s c.events).gate.waiting ≡ some w = ap (find t) c.queue ∙ f in
    Admits-prefix s t c.events c.progress (elim (List-cases (run s c.events).gate.waiting) [
      | inl e ↦ absurd (ground (arith, e, f'))
      | inr (x, xs, e) ↦
          admit_head n (run s c.events) t w x xs (λ r. admit n r t w)
            (omega (arith, ap length c.queue)) (run-Inv s c.events v) (run-Awake s c.events a)
            (rw limit-run pos) c.nobody e f'
    ])

-- With a positive limit, whatever has happened, each waiting coroutine can still get in: there is a
-- schedule, of holders that leave and waiting coroutines that were notified and test their
-- condition again (and of no cancellation), after which it is a holder.
pub waiter_admitted :
    (limit : ℕ) (es : List Event) (t : ℕ) (w : Waiter)
    → 0 < limit
    → find t (run (init limit) es).gate.waiting ≡ some w
    → (fs : List Event) × All IsProgress fs
      × (exists (λ h. h.token == t) (run (init limit) (es ++ fs)).holders ≡ true)
waiter_admitted limit es t w pos f =
    let s = run (init limit) es in
    let a =
      admit (length s.gate.waiting) s t w (omega arith) (run-Inv (init limit) es (init-Inv limit))
        (run-Awake (init limit) es (unfold init in tt)) (rw limit-run (unfold init in pos)) f in
    (a.events, a.progress, rw run-append a.inside)
