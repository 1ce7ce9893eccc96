-- ===== src/Tools/Registry/Batch/Order.antt =====
-- The order of a batch: its results, its phases and its barriers (`execute_many` of
-- tools/registry.py).
use mathlib.Core.List.{append_assoc, append-nil, flatten}
use astraship.Base.{
  ◌≡◌, refl, ◌∙◌, sym, ap, subst, ◌⊎◌, inl, inr, true, some, List, [], ◌∷◌, ◌++◌, arith, All,
  All-append, every, Bool-cases,
}
use astraship.Errors.{ok, Result-cases}
use astraship.Tools.Types.{ToolContext, ToolDefinition, ToolCall, ToolResult}
use astraship.Tools.Registry.{Registry, World, find_definition, execute}
use astraship.Tools.Registry.Execution.{Answers, execute-Answers}
use astraship.Tools.Registry.Batch.{
  Phase, Run, check_call_ids, joins_group, then_run, gather, execute_safe_group, execute_alone,
  run_calls, execute_many,
}

-- One result for each call, in the order of the calls.
abbrev pub AnswersAll : List ToolCall → List ToolResult → Type 0
AnswersAll [] [] = Unit
AnswersAll [] (r ∷ rs) = ⊥
AnswersAll (c ∷ cs) [] = ⊥
AnswersAll (c ∷ cs) (r ∷ rs) = Answers c r × AnswersAll cs rs

AnswersAll-append :
    (cs ds : List ToolCall) (rs ss : List ToolResult)
    → AnswersAll cs rs
    → AnswersAll ds ss
    → AnswersAll (cs ++ ds) (rs ++ ss)
AnswersAll-append [] ds [] ss a b = b
AnswersAll-append [] ds (r ∷ rs) ss a b = absurd a
AnswersAll-append (c ∷ cs) ds [] ss a b = absurd a
AnswersAll-append (c ∷ cs) ds (r ∷ rs) ss a b = (a.0, AnswersAll-append cs ds rs ss a.1 b)

-- The tool of the call, if it is there, is safe to run beside others.
abbrev pub IsShared : Registry → ToolCall → Type 0
IsShared s c =
    (d : ToolDefinition) → find_definition c.name s.definitions ≡ some d → d.concurrency_safe ≡ true

-- A phase is a group of calls that may run together, or a single call.
abbrev pub IsPhase : Registry → Phase → Type 0
IsPhase s p = All (IsShared s) p ⊎ ((c : ToolCall) × (p ≡ c ∷ []))

joins_group-IsShared : (s : Registry) (c : ToolCall) → joins_group s c ≡ true → IsShared s c
unfolding joins_group
joins_group-IsShared s c h d e = ground (arith, h, e)

group-IsShared : (s : Registry) (p : Phase) → every (joins_group s) p ≡ true → All (IsShared s) p
group-IsShared s [] h = tt
group-IsShared s (c ∷ cs) h = elim (Bool-cases (joins_group s c)) [
  | inl b ↦ (joins_group-IsShared s c b, group-IsShared s cs (ground (arith, h, b)))
  | inr b ↦ absurd (ground (arith, h, b))
]

-- What a run that returned has done for these calls.
pub record Covers (s : Registry) (cs : List ToolCall) (run : Run) : Type 0 where
  pub answers : (rs : List ToolResult) → run.results ≡ ok rs → AnswersAll cs rs
  pub complete : (rs : List ToolResult) → run.results ≡ ok rs → flatten run.phases ≡ cs
  pub barriers : All (IsPhase s) run.phases

module _ (w : World) (s : Registry) (context : ToolContext) where
  gather-AnswersAll :
      (cs : List ToolCall) (rs : List ToolResult) → gather w s context cs ≡ ok rs → AnswersAll cs rs
  unfolding gather
  gather-AnswersAll [] [] h = tt
  gather-AnswersAll [] (r ∷ rs) h = absurd (cc)
  gather-AnswersAll (c ∷ cs) rs h = elim (Result-cases (execute w s c context)) [
    | inr (e, p) ↦ absurd (ground (arith, p, h))
    | inl (r, p) ↦ elim (Result-cases (gather w s context cs)) [
      | inr (e, q) ↦ absurd (ground (arith, p, q, h))
      | inl (more, q) ↦ subst (AnswersAll (c ∷ cs)) {x = r ∷ more} (ground (arith, p, q, h)) (
          let a : AnswersAll (c ∷ cs) (r ∷ more) =
            (execute-Answers w s c context r p, gather-AnswersAll cs more q) in
          a)
    ]
  ]

flatten-append : (ps qs : List Phase) → flatten (ps ++ qs) ≡ flatten ps ++ flatten qs
unfolding flatten
flatten-append [] qs = refl
flatten-append (p ∷ ps) qs =
    ap (◌++◌ p) (flatten-append ps qs) ∙ sym (append_assoc p (flatten ps) (flatten qs))

flatten-single : (p : Phase) → flatten (p ∷ []) ≡ p
unfolding flatten
flatten-single p = append-nil p

module _ (s : Registry) where
  then_run-results :
      (a b : Run) (rs : List ToolResult)
      → (then_run a b).results ≡ ok rs
      → (xs ys : List ToolResult) × (a.results ≡ ok xs)
        × (b.results ≡ ok ys)
        × (rs ≡ xs ++ ys)
        × ((then_run a b).phases ≡ a.phases ++ b.phases)
  then_run-results a b rs h = elim (Result-cases a.results) [
    | inr (e, p) ↦ absurd (ground (arith, p, h))
    | inl (xs, p) ↦ elim (Result-cases b.results) [
      | inr (e, q) ↦ absurd (ground (arith, p, q, h))
      | inl (ys, q) ↦ (xs, ys, p, q, ground (arith, p, q, h), ground (arith, p))
    ]
  ]

  then_run-barriers :
      (a b : Run)
      → All (IsPhase s) a.phases
      → All (IsPhase s) b.phases
      → All (IsPhase s) (then_run a b).phases
  then_run-barriers a b x y = elim (Result-cases a.results) [
    | inr (e, p) ↦ rw (p, then_run) x
    | inl (rs, p) ↦ rw (p, then_run) (All-append (IsPhase s) a.phases b.phases x y)
  ]

  then_run-Covers :
      (cs ds : List ToolCall) (a b : Run)
      → Covers s cs a
      → Covers s ds b
      → Covers s (cs ++ ds) (then_run a b)
  then_run-Covers cs ds a b x y = record {
    answers = λ rs h.
        let (xs, ys, p, q, e, _) = then_run-results a b rs h in
        subst (AnswersAll (cs ++ ds)) (sym e)
          (AnswersAll-append cs ds xs ys (x.answers xs p) (y.answers ys q));
    complete = λ rs h.
        let (xs, ys, p, q, _, f) = then_run-results a b rs h in
        ap flatten f ∙ flatten-append a.phases b.phases ∙ cc (x.complete xs p, y.complete ys q);
    barriers = then_run-barriers a b x.barriers y.barriers;
  }

every-append_true :
    (s : Registry) (g : Phase) (c : ToolCall)
    → every (joins_group s) g ≡ true
    → joins_group s c ≡ true
    → every (joins_group s) (g ++ c ∷ []) ≡ true
every-append_true s [] c h k = ground (arith, k)
every-append_true s (x ∷ g) c h k = ground (arith, every-append_true s g c)

module _ (w : World) (s : Registry) (context : ToolContext) where
  group-Covers :
      (g : Phase) → every (joins_group s) g ≡ true → Covers s g (execute_safe_group w s context g)
  unfolding execute_safe_group flatten
  group-Covers [] h = record {
    answers = λ rs e. subst (AnswersAll []) {x = []} (ground (arith, e)) tt;
    complete = λ rs e. refl;
    barriers = tt;
  }
  group-Covers (c ∷ g) h = record {
    answers = gather-AnswersAll w s context (c ∷ g);
    complete = λ rs e. flatten-single (c ∷ g);
    barriers = (inl (group-IsShared s (c ∷ g) h), tt);
  }

  alone-Covers : (c : ToolCall) → Covers s (c ∷ []) (execute_alone w s context c)
  unfolding execute_alone
  alone-Covers c = record {
    answers = gather-AnswersAll w s context (c ∷ []);
    complete = λ rs e. flatten-single (c ∷ []);
    barriers = (inr (c, refl), tt);
  }

  run_calls-Covers :
      (cs : List ToolCall) (g : Phase)
      → every (joins_group s) g ≡ true
      → Covers s (g ++ cs) (run_calls w s context cs g)
  unfolding run_calls
  run_calls-Covers [] g h = rw append-nil (group-Covers g h)
  run_calls-Covers (c ∷ cs) g h = elim (Bool-cases (joins_group s c)) [
    | inl j ↦
        rw (j, run_calls)
          (subst (λ (l : List ToolCall). Covers s l (run_calls w s context cs (g ++ c ∷ [])))
            (append_assoc g (c ∷ []) cs)
            (run_calls-Covers cs (g ++ c ∷ []) (every-append_true s g c h j)))
    | inr j ↦
        rw (j, run_calls)
          (then_run-Covers s g (c ∷ cs) (execute_safe_group w s context g)
            (then_run (execute_alone w s context c) (run_calls w s context cs []))
            (group-Covers g h)
            (then_run-Covers s (c ∷ []) cs (execute_alone w s context c)
              (run_calls w s context cs []) (alone-Covers c) (run_calls-Covers cs [] refl)))
  ]

  -- A batch that returns has one result for each call, in the order of the calls and with their IDs,
  -- and its phases are the calls in order. Whether it returns or raises, a phase of several calls
  -- holds none that is exclusive.
  pub execute_many-Covers :
      (calls : List ToolCall) → Covers s calls (execute_many w s context calls)
  unfolding execute_many flatten
  execute_many-Covers calls = elim (Result-cases (check_call_ids [] calls)) [
    | inr (e, p) ↦
        rw (p, execute_many)
          (record { answers = λ rs h. absurd (cc); complete = λ rs h. absurd (cc); barriers = tt })
    | inl (u, p) ↦ rw (p, execute_many) (run_calls-Covers calls [] refl)
  ]
