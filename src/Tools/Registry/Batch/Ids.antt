-- ===== src/Tools/Registry/Batch/Ids.antt =====
-- The IDs of a batch (`execute_many` of tools/registry.py).
use astraship.Base.{
  String, ◌≡◌, refl, inl, inr, true, List, [], ◌∷◌, ◌++◌, arith, str_eq, eq_iff, exists, Bool-cases,
}
use astraship.Errors.{Error, Result, err, tool_call}
use astraship.Tools.Types.{ToolContext, ToolCall}
use astraship.Tools.Registry.{Registry, World}
use astraship.Tools.Registry.Batch.{check_call_ids, duplicate_id, execute_many}

-- Raised as a ToolCallError.
abbrev pub IsRefused : Result (Unit {0}) → Type 0
IsRefused r = (e : Error) × (r ≡ err e) × (e.class ≡ tool_call)

abbrev refusal : ToolCall → Error
refusal c = record { class = tool_call; message = duplicate_id c }

seen-IsRefused :
    (seen : List String) (b : List ToolCall) (d : ToolCall) (rest : List ToolCall)
    → exists (λ i. str_eq i d.call_id) seen ≡ true
    → IsRefused (check_call_ids seen (b ++ d ∷ rest))
unfolding check_call_ids
seen-IsRefused seen [] d rest h = (refusal d, ground (arith, h), refl)
seen-IsRefused seen (c ∷ b) d rest h = elim (Bool-cases (exists (λ i. str_eq i c.call_id) seen)) [
  | inl e ↦ (refusal c, rw (e, check_call_ids), refl)
  | inr e ↦ rw (e, check_call_ids) (seen-IsRefused (c.call_id ∷ seen) b d rest (ground (arith, h)))
]

twice-IsRefused :
    (seen : List String) (a : List ToolCall) (c : ToolCall) (b : List ToolCall) (d : ToolCall)
    (rest : List ToolCall)
    → c.call_id ≡ d.call_id
    → IsRefused (check_call_ids seen (a ++ c ∷ (b ++ d ∷ rest)))
unfolding check_call_ids
twice-IsRefused seen [] c b d rest h = elim (Bool-cases (exists (λ i. str_eq i c.call_id) seen)) [
  | inl e ↦ (refusal c, rw (e, check_call_ids), refl)
  | inr e ↦
      rw (e, check_call_ids)
        (seen-IsRefused (c.call_id ∷ seen) b d rest
          (ground (arith, (eq_iff c.call_id d.call_id).1 h)))
]
twice-IsRefused seen (x ∷ a) c b d rest h =
    elim (Bool-cases (exists (λ i. str_eq i x.call_id) seen)) [
      | inl e ↦ (refusal x, rw (e, check_call_ids), refl)
      | inr e ↦ rw (e, check_call_ids) (twice-IsRefused (x.call_id ∷ seen) a c b d rest h)
    ]

-- A batch in which two calls have the same ID is refused as a ToolCallError before any call begins.
pub execute_many-twice :
    (w : World) (s : Registry) (context : ToolContext) (a : List ToolCall) (c : ToolCall)
    (b : List ToolCall) (d : ToolCall) (rest : List ToolCall)
    → c.call_id ≡ d.call_id
    → let run = execute_many w s context (a ++ c ∷ (b ++ d ∷ rest)) in
      (run.phases ≡ []) × (e : Error) × (run.results ≡ err e) × (e.class ≡ tool_call)
unfolding execute_many
execute_many-twice w s context a c b d rest h =
    let (e, p, q) = twice-IsRefused [] a c b d rest h in
    (rw (p, execute_many), e, rw (p, execute_many), q)
