-- ===== src/Tools/Gate/Tests.antt =====
-- Runs of the gate of tools/registry.py, and its theorems at them.
use astraship.Base.{
  ℕ, ◌≤◌, ◌<◌, ◌≡◌, refl, Bool, true, false, List, [], ◌∷◌, ◌++◌, some, arith, ◌==◌, length, exists,
  All,
}
use astraship.Tools.Gate.{Waiter, Event, arrive, wake, cancel, leave, init, queued, find, step, run}
use astraship.Tools.Gate.Exclusion.{shared_count, exclusive_count, run_exclusion}
use astraship.Tools.Gate.Fairness.{SameGate, no_overtaking}
use astraship.Tools.Gate.Progress.{IsProgress, waiter_admitted}

-- A reader is inside, a writer waits, and behind it another reader.
abbrev readers_and_writer : List Event
readers_and_writer = arrive true ∷ arrive false ∷ arrive true ∷ []

abbrev reader : Waiter
reader = record { token = 0; shared = true }

abbrev writer : Waiter
writer = record { token = 1; shared = false }

abbrev late_reader : Waiter
late_reader = record { token = 2; shared = true }

waiting_behind_writer : (run (init 2) readers_and_writer).gate.waiting ≡ writer ∷ late_reader ∷ []
unfolding run init
waiting_behind_writer = refl

-- The writer is let in when the reader leaves, and the late reader only after the writer.
barrier_order :
    ((run (init 2) (readers_and_writer ++ leave 0 ∷ wake 2 ∷ wake 1 ∷ [])).holders ≡ writer ∷ [])
    × ((run (init 2) (readers_and_writer ++ leave 0 ∷ wake 1 ∷ leave 1 ∷ wake 2 ∷ [])).holders
        ≡ late_reader ∷ [])
unfolding run init
barrier_order = (refl, refl)

-- A cancelled writer no longer blocks.
cancelled_writer :
    (run (init 2) (readers_and_writer ++ cancel 1 ∷ wake 2 ∷ [])).holders
    ≡ late_reader ∷ reader ∷ []
unfolding run init
cancelled_writer = refl

run_exclusion_example :
    let s = run (init 2) (readers_and_writer ++ leave 0 ∷ wake 1 ∷ []) in
    (0 < exclusive_count s.holders → length s.holders ≡ 1) × (shared_count s.holders ≤ 2)
run_exclusion_example = run_exclusion 2 (readers_and_writer ++ leave 0 ∷ wake 1 ∷ [])

no_overtaking_example :
    let s = run (init 2) readers_and_writer in
    ((t : ℕ) (w : Waiter) → find t (late_reader ∷ []) ≡ some w → SameGate (step s (wake t)) s)
    × ((shared : Bool) → SameGate (step s (arrive shared)) (queued s shared))
no_overtaking_example =
    no_overtaking 2 readers_and_writer [] writer (late_reader ∷ []) waiting_behind_writer refl

waiter_admitted_example :
    (fs : List Event) × All IsProgress fs
    × (exists (λ h. h.token == 2) (run (init 2) (readers_and_writer ++ fs)).holders ≡ true)
unfolding run init find
waiter_admitted_example = waiter_admitted 2 readers_and_writer 2 late_reader (omega arith) refl
