-- ===== src/Kernel/Client/Replies/Balance.antt =====
-- The account of responses over a run (kernel/client.py).
use astraship.Base.{◌+◌, ◌≡◌, refl, List, [], ◌∷◌, arith}
use astraship.Kernel.Protocol.{RequestId}
use astraship.Kernel.Client.{new_client}
use astraship.Kernel.Client.Server.{World}
use astraship.Kernel.Client.Server.Steps.{Event}
use astraship.Kernel.Client.Replies.{
  count, answers, owes, taken_on, gives_up, System, start, advance, run_all, due,
}
use astraship.Kernel.Client.Replies.Owing.{count-append}
use astraship.Kernel.Client.Replies.Account.{step-due}

abbrev Balanced : RequestId → System → Type 0
Balanced j y = due j y.client + count j y.silent ≡ count j y.accepted

advance-Balanced :
    (w : World) (j : RequestId) (y : System) (e : Event) → Balanced j y → Balanced j (advance w y e)
advance-Balanced w j y e h = omega (
  arith,
  h,
  step-due w j y.client e,
  count-append j y.accepted (taken_on y.client e),
  count-append j y.silent (gives_up y.client e),
)

run_all-Balanced :
    (w : World) (j : RequestId) (y : System) (es : List Event)
    → Balanced j y
    → Balanced j (run_all w y es)
unfolding run_all
run_all-Balanced w j y [] h = h
run_all-Balanced w j y (e ∷ es) h =
    run_all-Balanced w j (advance w y e) es (advance-Balanced w j y e h)

-- In any interleaving, from a client that has just started, the tasks account for every request: the
-- lines that tasks have written for an ID, the line that its task still owes, and the tasks of the ID
-- that raised or were cancelled without having written one, are as many as the requests with that ID
-- that got a task. A task that returned without a line would be in none of these. So no request is
-- answered twice, and an answer is missing only while its task lives or where the task raised or was
-- cancelled.
pub run-answers_once :
    (w : World) (es : List Event) (j : RequestId)
    → let y = run_all w start es in
      answers j y.client.sent + owes (y.client.server_tasks j) + count j y.silent
      ≡ count j y.accepted
unfolding new_client
run-answers_once w es j = run_all-Balanced w j start es refl
