-- ===== src/Tools/Gate/Exclusion.antt =====
-- Who is inside the gate of tools/registry.py: the counters against the coroutines that hold it.
use astraship.Base.{
  ℕ, ◌+◌, ◌≤◌, ◌<◌, ◌≡◌, refl, ap, inl, inr, false, ◌&&◌, List, [], ◌∷◌, some, arith, ltb,
  if◌then◌else◌, length, Option-cases, Bool-cases,
}
use astraship.Tools.Gate.{
  Waiter, System, Event, arrive, wake, cancel, leave, may_enter, init, queued, find, is_asleep,
  remove, try_enter, step, run,
}

pub shared_count : List Waiter → ℕ
shared_count [] = 0
shared_count (w ∷ ws) = (if w.shared then 1 else 0) + shared_count ws

pub exclusive_count : List Waiter → ℕ
exclusive_count [] = 0
exclusive_count (w ∷ ws) = (if w.shared then 0 else 1) + exclusive_count ws

counts-length : (ws : List Waiter) → shared_count ws + exclusive_count ws ≡ length ws
unfolding shared_count exclusive_count
counts-length [] = refl
counts-length (w ∷ ws) = ground (arith, counts-length ws)

pub record Inv (s : System) : Type 0 where
  pub shared : shared_count s.holders ≡ s.gate.active_shared
  pub exclusive : exclusive_count s.holders ≡ (if s.gate.active_exclusive then 1 else 0)
  pub bounded : s.gate.active_shared ≤ s.gate.shared_limit
  pub apart : s.gate.active_exclusive && ltb 0 s.gate.active_shared ≡ false

counts-remove :
    (t : ℕ) (ws : List Waiter) (w : Waiter)
    → find t ws ≡ some w
    → (shared_count (remove t ws) + (if w.shared then 1 else 0) ≡ shared_count ws)
      × (exclusive_count (remove t ws) + (if w.shared then 0 else 1) ≡ exclusive_count ws)
unfolding find remove shared_count exclusive_count
counts-remove t [] w h = absurd (cc)
counts-remove t (x ∷ ws) w h = ground (arith, counts-remove t ws w)

try_enter-Inv : (s : System) (w : Waiter) → Inv s → Inv (try_enter s w)
unfolding try_enter may_enter shared_count exclusive_count
try_enter-Inv s w v = ground arith

leave-Inv : (s : System) (t : ℕ) → Inv s → Inv (step s (leave t))
unfolding step
leave-Inv s t v = elim (Option-cases (find t s.holders)) [
  | inl e ↦ rw (e, step) v
  | inr (w, e) ↦ rw (e, step) (ground (arith, counts-remove t s.holders w e))
]

pub step-Inv : (s : System) (e : Event) → Inv s → Inv (step s e)
unfolding step
step-Inv s (arrive shared) v =
    try_enter-Inv (queued s shared) (record { token = s.next_token; shared = shared })
      (ground arith)
step-Inv s (wake t) v = elim (Option-cases (find t s.gate.waiting)) [
  | inl e ↦ rw (e, step) v
  | inr (w, e) ↦ elim (Bool-cases (is_asleep t s.sleeping)) [
    | inl b ↦ rw (e, b, step) v
    | inr b ↦ rw (e, b, step) (try_enter-Inv s w v)
  ]
]
step-Inv s (cancel t) v = elim (Option-cases (find t s.gate.waiting)) [
  | inl e ↦ rw (e, step) v
  | inr (w, e) ↦ rw (e, step) (ground arith)
]
step-Inv s (leave t) v = leave-Inv s t v

pub run-Inv : (s : System) (es : List Event) → Inv s → Inv (run s es)
unfolding run
run-Inv s [] v = v
run-Inv s (e ∷ es) v = run-Inv (step s e) es (step-Inv s e v)

pub init-Inv : (limit : ℕ) → Inv (init limit)
unfolding init shared_count exclusive_count
init-Inv limit = ground arith

pub limit-step : (s : System) (e : Event) → (step s e).gate.shared_limit ≡ s.gate.shared_limit
unfolding step
limit-step s (arrive shared) = ground arith
limit-step s (wake t) = ground arith
limit-step s (cancel t) = ground arith
limit-step s (leave t) = ground arith

pub limit-run : (s : System) (es : List Event) → (run s es).gate.shared_limit ≡ s.gate.shared_limit
unfolding run
limit-run s [] = refl
limit-run s (e ∷ es) = rw (limit-run (step s e) es) (limit-step s e)

pub counters_idle :
    (s : System)
    → Inv s
    → s.holders ≡ []
    → (s.gate.active_shared ≡ 0) × (s.gate.active_exclusive ≡ false)
unfolding shared_count exclusive_count
counters_idle s v e = ground (arith, v, ap shared_count e, ap exclusive_count e)

-- After any events, a coroutine that holds the gate exclusively is the only holder, and the
-- coroutines that share it are at most the limit.
pub run_exclusion :
    (limit : ℕ) (es : List Event)
    → let s = run (init limit) es in
      (0 < exclusive_count s.holders → length s.holders ≡ 1) × (shared_count s.holders ≤ limit)
unfolding init
run_exclusion limit es =
    let v = run-Inv (init limit) es (init-Inv limit) in
    let l = limit-run (init limit) es in
    let c = counts-length (run (init limit) es).holders in
    (λ h. ground (arith, v, l, c), ground (arith, v, l))
