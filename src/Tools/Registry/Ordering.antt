-- ===== src/Tools/Registry/Ordering.antt =====
-- The schemas of a registry (tools/registry.py) do not depend on the order of the registrations.
use mathlib.Core.List.{Permᴰ}
use mathlib.Core.List.Permᴰ
use astraship.Base.{
  String, ◌≡◌, ◌≢◌, refl, ◌∙◌, sym, ap, subst, inl, inr, Bool, true, false, ◌||◌, List, [], ◌∷◌,
  ◌++◌, map, arith, str_eq, eq_iff, Bool-cases,
}
use astraship.Base.Text.{str_leb}
use astraship.Base.TextOrder.{str_leb_total, str_leb_trans, str_leb_antisymm}
use astraship.Base.Sorting.{IsSorted, insert_text, sort_texts, sort_texts-IsSorted}
use astraship.Errors.{ok}
use astraship.Value.{Value, str, obj, end, field}
use astraship.Tools.Types.{ToolDefinition}
use astraship.Tools.Registry.{Registry, insert_sorted, sort_by_name, schema_of, schemas}
use astraship.Tools.Registry.Registration.{
  has_name, IsUnique, register_all, register_all-ok, register_all-succeeds,
}

abbrev pub names : List ToolDefinition → List String
names ds = map (λ (d : ToolDefinition). d.name) ds

names-insert_sorted :
    (d : ToolDefinition) (es : List ToolDefinition)
    → names (insert_sorted d es) ≡ insert_text d.name (names es)
unfolding insert_sorted insert_text
names-insert_sorted d [] = refl
names-insert_sorted d (e ∷ es) = elim (Bool-cases (str_leb d.name e.name)) [
  | inl b ↦ ground (arith, b)
  | inr b ↦ ground (arith, b, names-insert_sorted d es)
]

names-sort_by_name : (ds : List ToolDefinition) → names (sort_by_name ds) ≡ sort_texts (names ds)
unfolding sort_by_name sort_texts
names-sort_by_name [] = refl
names-sort_by_name (d ∷ ds) =
    names-insert_sorted d (sort_by_name ds) ∙ ap (insert_text d.name) (names-sort_by_name ds)

leb_different : (s t : String) → s ≢ t → str_leb s t ≡ true → str_leb t s ≡ false
leb_different s t n h = elim (Bool-cases (str_leb t s)) [
  | inr b ↦ b
  | inl b ↦ absurd (n (str_leb_antisymm s t h b))
]

insert_sorted_comm :
    (d e : ToolDefinition) (xs : List ToolDefinition)
    → d.name ≢ e.name
    → insert_sorted d (insert_sorted e xs) ≡ insert_sorted e (insert_sorted d xs)
unfolding insert_sorted
insert_sorted_comm d e [] n = elim (Bool-cases (str_leb d.name e.name)) [
  | inl b ↦ ground (arith, b, leb_different d.name e.name n b)
  | inr b ↦ ground (arith, b, str_leb_total d.name e.name b)
]
insert_sorted_comm d e (x ∷ xs) n = elim (Bool-cases (str_leb d.name e.name)) [
  | inl b ↦ ground (
    arith,
    b,
    leb_different d.name e.name n b,
    insert_sorted_comm d e xs n,
    str_leb_trans d.name e.name x.name,
  )
  | inr b ↦ ground (
    arith,
    b,
    str_leb_total d.name e.name b,
    insert_sorted_comm d e xs n,
    str_leb_trans e.name d.name x.name,
  )
]

or_swap : (x y z : Bool) → (x || (y || z)) ≡ (y || (x || z))
or_swap true true z = refl
or_swap true false z = refl
or_swap false y z = refl

has_name-perm :
    (s : String) {ds ds' : List ToolDefinition} → Permᴰ ds ds' → has_name s ds ≡ has_name s ds'
has_name-perm s Permᴰ.nil = refl
has_name-perm s (Permᴰ.cons e p) = λ i. str_eq (e i).name s || has_name-perm s p i
has_name-perm s (Permᴰ.swap {a = a} {b = b} {a' = a'} {b' = b'} {l = l} e f) =
    or_swap (str_eq a.name s) (str_eq b.name s) (has_name s l)
    ∙ (λ i. str_eq (f i).name s || (str_eq (e i).name s || has_name s l))
has_name-perm s (Permᴰ.trans p q) = has_name-perm s p ∙ has_name-perm s q

swap-IsUnique :
    (a b : ToolDefinition) (l : List ToolDefinition) → IsUnique (a ∷ b ∷ l) → IsUnique (b ∷ a ∷ l)
swap-IsUnique a b l u = elim (Bool-cases (str_eq b.name a.name)) [
  | inl h ↦ absurd (ground (arith, u.0, h))
  | inr h ↦ elim (Bool-cases (str_eq a.name b.name)) [
    | inl k ↦ absurd (cc (h, (eq_iff b.name a.name).1 (sym ((eq_iff a.name b.name).0 k))))
    | inr k ↦
        let swapped : has_name b.name (a ∷ l) ≡ false = ground (arith, k, u.1.0) in
        let rest : has_name a.name l ≡ false = ground (arith, h, u.0) in (swapped, (rest, u.1.1))
  ]
]

IsUnique-perm : {ds ds' : List ToolDefinition} → Permᴰ ds ds' → IsUnique ds → IsUnique ds'
IsUnique-perm Permᴰ.nil u = tt
IsUnique-perm (Permᴰ.cons {a = a} {b = b} {l₁ = l} {l₂ = m} e p) u = (
  sym (has_name-perm b.name p) ∙ ap (λ (x : ToolDefinition). has_name x.name l) (sym e) ∙ u.0,
  IsUnique-perm p u.1,
)
IsUnique-perm (Permᴰ.swap {a = a} {b = b} {a' = a'} {b' = b'} {l = l} e f) u =
    subst (λ x. IsUnique (x ∷ b' ∷ l)) f
      (subst (λ x. IsUnique (b ∷ x ∷ l)) e (swap-IsUnique a b l u))
IsUnique-perm (Permᴰ.trans p q) u = IsUnique-perm q (IsUnique-perm p u)

different :
    (a b : ToolDefinition) (l : List ToolDefinition) → IsUnique (a ∷ b ∷ l) → a.name ≢ b.name
different a b l u = λ e. absurd (ground (arith, u.0, (eq_iff b.name a.name).1 (sym e)))

sort_by_name-perm :
    {ds ds' : List ToolDefinition} → Permᴰ ds ds' → IsUnique ds → sort_by_name ds ≡ sort_by_name ds'
unfolding sort_by_name
sort_by_name-perm Permᴰ.nil u = refl
sort_by_name-perm (Permᴰ.cons e p) u = λ i. insert_sorted (e i) (sort_by_name-perm p u.1 i)
sort_by_name-perm (Permᴰ.swap {a = a} {b = b} {a' = a'} {b' = b'} {l = l} e f) u =
    insert_sorted_comm a b (sort_by_name l) (different a b l u)
    ∙ (λ i. insert_sorted (f i) (insert_sorted (e i) (sort_by_name l)))
sort_by_name-perm (Permᴰ.trans p q) u =
    sort_by_name-perm p u ∙ sort_by_name-perm q (IsUnique-perm p u)

insert_sorted-Perm :
    (d : ToolDefinition) (es : List ToolDefinition) → Permᴰ (d ∷ es) (insert_sorted d es)
unfolding insert_sorted
insert_sorted-Perm d [] = Permᴰ.refl (d ∷ [])
insert_sorted-Perm d (e ∷ es) = elim (Bool-cases (str_leb d.name e.name)) [
  | inl b ↦ rw (b, insert_sorted) (Permᴰ.refl (d ∷ e ∷ es))
  | inr b ↦
      rw (b, insert_sorted)
        (Permᴰ.trans (Permᴰ.swap refl refl) (Permᴰ.cons refl (insert_sorted-Perm d es)))
]

sort_by_name-Perm : (ds : List ToolDefinition) → Permᴰ ds (sort_by_name ds)
unfolding sort_by_name
sort_by_name-Perm [] = Permᴰ.nil
sort_by_name-Perm (d ∷ ds) =
    Permᴰ.trans (Permᴰ.cons refl (sort_by_name-Perm ds)) (insert_sorted-Perm d (sort_by_name ds))

-- What a host is told of a definition: three keys, and no more.
abbrev pub described : ToolDefinition → Value
described d = obj (
    field "name" (str d.name)
      (field "description" (str d.description) (field "parameters" (obj d.parameters) end)))

-- What two registries that have taken the same definitions have in common.
pub record SameSchemas (r : Registry) (ds' : List ToolDefinition) (s : Registry) : Type 0 where
  pub other : Registry
  pub registered : register_all r ds' ≡ ok other
  pub same : schemas other ≡ schemas s
  -- the schemas are those of the definitions, sorted by name: none is left out
  pub ordered : List ToolDefinition
  pub same_definitions : Permᴰ ds' ordered
  pub of_ordered : schemas s ≡ map described ordered
  pub sorted : IsSorted (names ordered)

-- Definitions that an empty registry takes one after the other it takes in every order, and the
-- schemas that it then gives are the same: the name, description and parameters of each of the
-- definitions, sorted by the names.
pub register_all-SameSchemas :
    {ds ds' : List ToolDefinition} (r s : Registry)
    → Permᴰ ds ds'
    → r.definitions ≡ []
    → register_all r ds ≡ ok s
    → SameSchemas r ds' s
unfolding schemas schema_of
register_all-SameSchemas {ds} {ds'} r s p empty h =
    let (u, e) = register_all-ok ds r s h (subst IsUnique (sym empty) tt) in
    let all : s.definitions ≡ ds =
      ap (λ (x : Registry). x.definitions) e ∙ ap (λ xs. xs ++ ds) empty in
    let unique = subst IsUnique all u in
    let here : r.definitions ++ ds' ≡ ds' = ap (λ xs. xs ++ ds') empty in
    record {
      other = record r { definitions = r.definitions ++ ds' };
      registered = register_all-succeeds ds' r (subst IsUnique (sym here) (IsUnique-perm p unique));
      same =
          ap (λ xs. map schema_of (sort_by_name xs)) here
          ∙ ap (map schema_of) (sym (sort_by_name-perm p unique))
          ∙ ap (λ xs. map schema_of (sort_by_name xs)) (sym all);
      ordered = sort_by_name s.definitions;
      same_definitions =
          Permᴰ.trans (Permᴰ.symm p)
            (subst (λ xs. Permᴰ ds (sort_by_name xs)) (sym all) (sort_by_name-Perm ds));
      of_ordered = refl;
      sorted =
          subst IsSorted (sym (names-sort_by_name s.definitions))
            (sort_texts-IsSorted (names s.definitions));
    }
