-- ===== src/Tools/Gate/Fairness.antt =====
-- The order in which the gate of tools/registry.py lets coroutines in.

use mathlib.Core.List.{append_assoc}
use astraship.Base.{
  ℕ, suc, ◌≤◌, ◌<◌, ◌≡◌, refl, ap, subst, sym, ◌∙◌, inl, inr, Bool, false, List, [], ◌∷◌, ◌++◌,
  some, arith, ◌==◌, take, every, Option-cases, Bool-cases,
}
use astraship.Tools.Gate.{
  Waiter, System, Event, arrive, wake, cancel, leave, position, may_enter, enqueue, without, init,
  find, is_asleep, try_enter, queued, step, run,
}

-- Tokens grow along the list, from the first argument on, and stay below the second.
abbrev pub Between : ℕ → ℕ → List Waiter → Type 0
Between lo hi [] = lo ≤ hi
Between lo hi (w ∷ ws) = (lo ≤ w.token) × Between (suc w.token) hi ws

Between-low : (lo lo' hi : ℕ) (ws : List Waiter) → lo ≤ lo' → Between lo' hi ws → Between lo hi ws
Between-low lo lo' hi [] h b = omega arith
Between-low lo lo' hi (w ∷ ws) h b = (omega arith, b.1)

Between-high : (lo hi hi' : ℕ) (ws : List Waiter) → hi ≤ hi' → Between lo hi ws → Between lo hi' ws
Between-high lo hi hi' [] h b = omega arith
Between-high lo hi hi' (w ∷ ws) h b = (b.0, Between-high (suc w.token) hi hi' ws h b.1)

Between-le : (lo hi : ℕ) (ws : List Waiter) → Between lo hi ws → lo ≤ hi
Between-le lo hi [] b = b
Between-le lo hi (w ∷ ws) b = omega (arith, Between-le (suc w.token) hi ws b.1)

Between-append :
    (lo hi : ℕ) (w : Waiter) (ws : List Waiter)
    → Between lo hi ws
    → hi ≤ w.token
    → Between lo (suc w.token) (ws ++ w ∷ [])
Between-append lo hi w [] b h = (omega arith, omega arith)
Between-append lo hi w (x ∷ ws) b h = (b.0, Between-append (suc x.token) hi w ws b.1 h)

Between-without : (t lo hi : ℕ) (ws : List Waiter) → Between lo hi ws → Between lo hi (without t ws)
unfolding without
Between-without t lo hi [] b = b
Between-without t lo hi (w ∷ ws) b = ground (
  arith,
  Between-without t (suc w.token) hi ws b.1,
  Between-low lo (suc w.token) hi (without t ws),
)

-- The queue is in the order of arrival.
abbrev pub InOrder : System → Type 0
InOrder s = Between 0 s.next_token s.gate.waiting

try_enter-InOrder : (s : System) (w : Waiter) → InOrder s → InOrder (try_enter s w)
unfolding try_enter
try_enter-InOrder s w h = ground (arith, Between-without w.token 0 s.next_token s.gate.waiting h)

queued-InOrder : (s : System) (shared : Bool) → InOrder s → InOrder (queued s shared)
unfolding queued
queued-InOrder s shared h =
    Between-append 0 s.next_token (record { token = s.next_token; shared = shared }) s.gate.waiting
      h (omega arith)

pub step-InOrder : (s : System) (e : Event) → InOrder s → InOrder (step s e)
unfolding step
step-InOrder s (arrive shared) h =
    try_enter-InOrder (queued s shared) (record { token = s.next_token; shared = shared })
      (queued-InOrder s shared h)
step-InOrder s (wake t) h = elim (Option-cases (find t s.gate.waiting)) [
  | inl e ↦ rw (e, step) h
  | inr (w, e) ↦ elim (Bool-cases (is_asleep t s.sleeping)) [
    | inl b ↦ rw (e, b, step) h
    | inr b ↦ rw (e, b, step) (try_enter-InOrder s w h)
  ]
]
step-InOrder s (cancel t) h = elim (Option-cases (find t s.gate.waiting)) [
  | inl e ↦ rw (e, step) h
  | inr (w, e) ↦ rw (e, step) (Between-without t 0 s.next_token s.gate.waiting h)
]
step-InOrder s (leave t) h = elim (Option-cases (find t s.holders)) [
  | inl e ↦ rw (e, step) h
  | inr (w, e) ↦ rw (e, step) (ground arith)
]

pub run-InOrder : (s : System) (es : List Event) → InOrder s → InOrder (run s es)
unfolding run
run-InOrder s [] h = h
run-InOrder s (e ∷ es) h = run-InOrder (step s e) es (step-InOrder s e h)

find-Between :
    (t lo hi : ℕ) (ws : List Waiter) {w : Waiter}
    → find t ws ≡ some w
    → Between lo hi ws
    → (lo ≤ t) × (t < hi)
unfolding find
find-Between t lo hi [] e b = absurd (cc)
find-Between t lo hi (x ∷ ws) e b = elim (Bool-cases (x.token == t)) [
  | inl same ↦ ground (arith, Between-le (suc x.token) hi ws b.1)
  | inr other ↦ ground (arith, find-Between t (suc x.token) hi ws (rw (other, find) at e) b.1)
]

find-position :
    (t : ℕ) (ws : List Waiter) {w : Waiter}
    → find t ws ≡ some w
    → (i : ℕ) × (position t ws ≡ some i)
unfolding find position
find-position t [] e = absurd (cc)
find-position t (x ∷ ws) e = elim (Bool-cases (x.token == t)) [
  | inl same ↦ (0, rw same)
  | inr other ↦ let (i, p) = find-position t ws (rw other at e) in (suc i, rw (other, p))
]

-- Behind an exclusive waiter a position is not 0, and not every earlier waiter is shared.
position_behind :
    (t lo hi : ℕ) (earlier : List Waiter) (x : Waiter) (later : List Waiter) {w : Waiter}
    → Between lo hi (earlier ++ x ∷ later)
    → x.shared ≡ false
    → find t later ≡ some w
    → (i : ℕ) × (position t (earlier ++ x ∷ later) ≡ some (suc i))
      × (every (λ w. w.shared) (take (suc i) (earlier ++ x ∷ later)) ≡ false)
      × (lo ≤ t)
unfolding position
position_behind t lo hi [] x later b e f =
    let (i, p) = find-position t later f in
    let r = find-Between t (suc x.token) hi later f b.1 in
    (i, ground (arith, r, p), ground arith, ground (arith, r))
position_behind t lo hi (y ∷ earlier) x later b e f =
    let (i, p, q, r) = position_behind t (suc y.token) hi earlier x later b.1 e f in
    (suc i, ground (arith, p, r), ground (arith, q), ground (arith, r))

blocked :
    (s : System) (earlier : List Waiter) (x : Waiter) (later : List Waiter) (v : Waiter)
    {w : Waiter}
    → InOrder s
    → s.gate.waiting ≡ earlier ++ x ∷ later
    → x.shared ≡ false
    → find v.token later ≡ some w
    → try_enter s v ≡ record s { sleeping = v ∷ s.sleeping }
unfolding try_enter may_enter
blocked s earlier x later v o e ex f =
    let (i, p, q, _) =
      position_behind v.token 0 s.next_token earlier x later (subst (Between 0 s.next_token) e o) ex
        f in
    ground (arith, p, q, e)

find-append :
    (t lo : ℕ) (ws : List Waiter) (w : Waiter)
    → Between lo t ws
    → w.token ≡ t
    → find t (ws ++ w ∷ []) ≡ some w
unfolding find
find-append t lo [] w b e = ground arith
find-append t lo (x ∷ ws) w b e =
    ground (arith, find-append t (suc x.token) ws w b.1 e, Between-le (suc x.token) t ws b.1)

-- The part of an ordered queue behind an entry is ordered too.
Between-behind :
    (lo hi : ℕ) (earlier : List Waiter) (x : Waiter) (later : List Waiter)
    → Between lo hi (earlier ++ x ∷ later)
    → Between (suc x.token) hi later
Between-behind lo hi [] x later b = b.1
Between-behind lo hi (y ∷ earlier) x later b = Between-behind (suc y.token) hi earlier x later b.1

find-wake :
    (t lo hi : ℕ) (earlier : List Waiter) (x : Waiter) (later : List Waiter) {w : Waiter}
    → Between lo hi (earlier ++ x ∷ later)
    → find t later ≡ some w
    → (find t (earlier ++ x ∷ later) ≡ some w) × (lo ≤ t)
unfolding find
find-wake t lo hi [] x later b f = ground (arith, find-Between t (suc x.token) hi later f b.1)
find-wake t lo hi (y ∷ earlier) x later b f =
    ground (arith, find-wake t (suc y.token) hi earlier x later b.1 f)

find-token : (t : ℕ) (ws : List Waiter) (w : Waiter) → find t ws ≡ some w → w.token ≡ t
unfolding find
find-token t [] w e = absurd (cc)
find-token t (x ∷ ws) w e = ground (arith, find-token t ws w)

pub step-wake :
    (s : System) (t : ℕ) (w : Waiter)
    → find t s.gate.waiting ≡ some w
    → is_asleep t s.sleeping ≡ false
    → step s (wake t) ≡ try_enter s w
unfolding step
step-wake s t w e b = rw (e, b, step)

-- The gate and the coroutines inside are the same in both.
pub record SameGate (r s : System) : Type 0 where
  pub gate : r.gate ≡ s.gate
  pub holders : r.holders ≡ s.holders

-- While an exclusive coroutine waits, after any events, nobody behind it is let in: waking a later
-- one changes neither the gate nor who is inside, and a newcomer only takes its place at the end of
-- the queue.
pub no_overtaking :
    (limit : ℕ) (es : List Event) (earlier : List Waiter) (x : Waiter) (later : List Waiter)
    → let s = run (init limit) es in
      s.gate.waiting ≡ earlier ++ x ∷ later
      → x.shared ≡ false
      → ((t : ℕ) (w : Waiter) → find t later ≡ some w → SameGate (step s (wake t)) s)
        × ((shared : Bool) → SameGate (step s (arrive shared)) (queued s shared))
unfolding step
no_overtaking limit es earlier x later e ex = (overtake, newcomer)
  where
    s : System
    s = run (init limit) es

    o : InOrder s
    o = run-InOrder (init limit) es (unfold init in omega arith)

    b : Between 0 s.next_token (earlier ++ x ∷ later)
    b = subst (Between 0 s.next_token) e o

    overtake : (t : ℕ) (w : Waiter) → find t later ≡ some w → SameGate (step s (wake t)) s
    overtake t w f =
        let found =
          subst (λ (ws : List Waiter). find t ws ≡ some w) (sym e)
            (find-wake t 0 s.next_token earlier x later b f).0 in
        elim (Bool-cases (is_asleep t s.sleeping)) [
          | inl a ↦
              let same : step s (wake t) ≡ s = rw (found, a, step) refl in
              record { gate = ap (λ r. r.gate) same; holders = ap (λ r. r.holders) same }
          | inr a ↦
              let same =
                step-wake s t w found a
                ∙ blocked s earlier x later w o e ex
                    (subst (λ (n : ℕ). find n later ≡ some w) (sym (find-token t later w f)) f) in
              record { gate = ap (λ r. r.gate) same; holders = ap (λ r. r.holders) same }
        ]

    newcomer : (shared : Bool) → SameGate (step s (arrive shared)) (queued s shared)
    newcomer shared =
        let n : Waiter = record { token = s.next_token; shared = shared } in
        let same =
          blocked (queued s shared) earlier x (later ++ n ∷ []) n (queued-InOrder s shared o)
            (unfold queued enqueue in
              ap (λ (ws : List Waiter). ws ++ n ∷ []) e ∙ append_assoc earlier (x ∷ later) (n ∷ []))
            ex
            (find-append s.next_token (suc x.token) later n
              (Between-behind 0 s.next_token earlier x later b) refl) in
        record { gate = ap (λ r. r.gate) same; holders = ap (λ r. r.holders) same }
