-- ===== src/Tools/Registry/Batch.antt =====
-- `execute_many` of tools/registry.py: a batch in order, with exclusive calls as barriers. A phase
-- is what the batch awaits at a time: a group that runs concurrently, or one exclusive call.
pub mod Order
pub mod Ids
use astraship.Base.{
  String, Bool, true, false, not, ◌||◌, Option, none, some, List, [], ◌∷◌, ◌++◌, str_eq, exists,
  if◌then◌else◌,
}
use astraship.Errors.{
  Message, Result, ok, err, raise_f, raise_f_if, lit, repr, ◌>>=◌, ◌>>◌, tool_call,
}
use astraship.Tools.Types.{ToolContext, ToolDefinition, ToolCall, ToolResult}
use astraship.Tools.Registry.{Registry, World, find_definition, execute}

abbrev pub Phase : Type 0
Phase = List ToolCall

-- The phases that were begun, and the results, or what was raised.
pub record Run : Type 0 where
  pub phases : List Phase
  pub results : Result (List ToolResult)

abbrev pub duplicate_id : ToolCall → Message
duplicate_id c = lit "duplicate tool call ID " ∷ repr c.call_id ∷ []

-- The loop over `call_ids`.
unfoldable pub check_call_ids : List String → List ToolCall → Result (Unit {0})
check_call_ids seen [] = ok tt
check_call_ids seen (c ∷ cs) =
    raise_f_if (exists (λ i. str_eq i c.call_id) seen) tool_call (duplicate_id c)
    >> check_call_ids (c.call_id ∷ seen) cs

-- `definition is None or definition.concurrency_safe`
unfoldable pub joins_group : Registry → ToolCall → Bool
joins_group r c = elim (find_definition c.name r.definitions) [
  | none ↦ true
  | some d ↦ d.concurrency_safe
]

-- What a statement begins is logged; after an exception the later ones begin nothing.
abbrev pub then_run : Run → Run → Run
then_run a b = elim a.results [
  | err e ↦ a
  | ok rs ↦ record {
    phases = a.phases ++ b.phases;
    results = (do more ← b.results; ok (rs ++ more));
  }
]

module _ (w : World) (r : Registry) (context : ToolContext) where
  -- `asyncio.gather` returns the results in the order of its arguments. Where several of them
  -- raise, the one that it passes on is taken to be the first in that order.
  unfoldable pub gather : List ToolCall → Result (List ToolResult)
  gather [] = ok []
  gather (c ∷ cs) = do result ← execute w r c context; rest ← gather cs; ok (result ∷ rest)

  -- `_execute_safe_group`
  unfoldable pub execute_safe_group : List ToolCall → Run
  unfolding gather
  execute_safe_group [] = record { phases = []; results = ok [] }
  execute_safe_group (c ∷ cs) = record { phases = (c ∷ cs) ∷ []; results = gather (c ∷ cs) }

  unfoldable pub execute_alone : ToolCall → Run
  unfolding gather
  execute_alone c = record { phases = (c ∷ []) ∷ []; results = gather (c ∷ []) }

  -- The loop over the calls, with `safe_group`.
  unfoldable pub run_calls : List ToolCall → List ToolCall → Run
  unfolding execute_safe_group execute_alone joins_group
  run_calls [] safe_group = execute_safe_group safe_group
  run_calls (c ∷ cs) safe_group = elim (joins_group r c) [
    | true ↦ run_calls cs (safe_group ++ c ∷ [])
    | false ↦
        then_run (execute_safe_group safe_group) (then_run (execute_alone c) (run_calls cs []))
  ]

  unfoldable pub execute_many : List ToolCall → Run
  unfolding run_calls check_call_ids
  execute_many calls = elim (check_call_ids [] calls) [
    | err e ↦ record { phases = []; results = err e }
    | ok u ↦ run_calls calls []
  ]
