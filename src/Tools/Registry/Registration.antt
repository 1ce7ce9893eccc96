-- ===== src/Tools/Registry/Registration.antt =====
-- `register` and `schemas` of tools/registry.py: the names of a registry, and the order of its schemas.
use mathlib.Core.List.{append_assoc, append-nil}
use astraship.Base.{
  String, ◌≡◌, refl, ◌∙◌, sym, ap, subst, inl, inr, Bool, true, false, none, List, [], ◌∷◌, ◌++◌,
  arith, str_eq, eq_iff, exists, Bool-cases, Option-cases,
}
use astraship.Errors.{Result, ok, ◌>>=◌, Result-cases}
use astraship.Tools.Types.{ToolDefinition}
use astraship.Tools.Registry.{Registry, find_definition, register}

-- Is this the name of one of the definitions?
abbrev pub has_name : String → List ToolDefinition → Bool
has_name s ds = exists (λ (d : ToolDefinition). str_eq d.name s) ds

abbrev pub IsUnique : List ToolDefinition → Type 0
IsUnique [] = Unit
IsUnique (d ∷ ds) = (has_name d.name ds ≡ false) × IsUnique ds

-- The definitions, registered one after the other.
unfoldable pub register_all : Registry → List ToolDefinition → Result Registry
register_all r [] = ok r
register_all r (d ∷ ds) = do s ← register r d; register_all s ds

find-has_name :
    (s : String) (ds : List ToolDefinition) → find_definition s ds ≡ none → has_name s ds ≡ false
unfolding find_definition
find-has_name s [] h = refl
find-has_name s (d ∷ ds) h = elim (Bool-cases (str_eq d.name s)) [
  | inl b ↦ absurd (ground (arith, h, b))
  | inr b ↦ ground (arith, b, find-has_name s ds (ground (arith, h, b)))
]

str_eq_sym : (s t : String) → str_eq s t ≡ false → str_eq t s ≡ false
str_eq_sym s t h = elim (Bool-cases (str_eq t s)) [
  | inr b ↦ b
  | inl b ↦ absurd (cc (h, (eq_iff s t).1 (sym ((eq_iff t s).0 b))))
]

has_name-append :
    (s : String) (ds : List ToolDefinition) (d : ToolDefinition)
    → has_name s ds ≡ false
    → str_eq d.name s ≡ false
    → has_name s (ds ++ d ∷ []) ≡ false
has_name-append s [] d h k = ground (arith, k)
has_name-append s (e ∷ ds) d h k = elim (Bool-cases (str_eq e.name s)) [
  | inl b ↦ absurd (ground (arith, h, b))
  | inr b ↦ ground (arith, b, has_name-append s ds d (ground (arith, h, b)) k)
]

append-IsUnique :
    (ds : List ToolDefinition) (d : ToolDefinition)
    → IsUnique ds
    → has_name d.name ds ≡ false
    → IsUnique (ds ++ d ∷ [])
append-IsUnique [] d u h = (refl, tt)
append-IsUnique (e ∷ ds) d u h = elim (Bool-cases (str_eq e.name d.name)) [
  | inl b ↦ absurd (ground (arith, h, b))
  | inr b ↦ (
    has_name-append e.name ds d u.0 (str_eq_sym e.name d.name b),
    append-IsUnique ds d u.1 (ground (arith, h, b)),
  )
]

-- What a registration that is taken does.
pub register-ok :
    (r s : Registry) (d : ToolDefinition)
    → register r d ≡ ok s
    → (has_name d.name r.definitions ≡ false)
      × (s ≡ record r { definitions = r.definitions ++ d ∷ [] })
unfolding register
register-ok r s d h = elim (Option-cases (find_definition d.name r.definitions)) [
  | inr (old, f) ↦ absurd (ground (arith, h, f))
  | inl f ↦ (find-has_name d.name r.definitions f, ground (arith, h, f))
]

pub register_all-ok :
    (ds : List ToolDefinition) (r s : Registry)
    → register_all r ds ≡ ok s
    → IsUnique r.definitions
    → IsUnique s.definitions × (s ≡ record r { definitions = r.definitions ++ ds })
unfolding register_all
register_all-ok [] r s h u =
    let same : r ≡ s = ground (arith, h) in
    (
      subst (λ (x : Registry). IsUnique x.definitions) same u,
      sym same ∙ ap (λ ds. record r { definitions = ds }) (sym (append-nil r.definitions)),
    )
register_all-ok (d ∷ ds) r s h u = elim (Result-cases (register r d)) [
  | inr (e, p) ↦ absurd (ground (arith, h, p))
  | inl (t, p) ↦
      let (fresh, e) = register-ok r t d p in
      let v =
        subst (λ (x : Registry). IsUnique x.definitions) (sym e)
          (append-IsUnique r.definitions d u fresh) in
      let (w, f) = register_all-ok ds t s (ground (arith, h, p)) v in
      (
        w,
        f
            ∙ ap (λ (x : Registry). record x { definitions = x.definitions ++ ds }) e
            ∙ ap (λ xs. record r { definitions = xs }) (append_assoc r.definitions (d ∷ []) ds),
      )
]

has_name-find :
    (s : String) (ds : List ToolDefinition) → has_name s ds ≡ false → find_definition s ds ≡ none
unfolding find_definition
has_name-find s [] h = refl
has_name-find s (d ∷ ds) h = elim (Bool-cases (str_eq d.name s)) [
  | inl b ↦ absurd (ground (arith, h, b))
  | inr b ↦ ground (arith, b, has_name-find s ds (ground (arith, h, b)))
]

has_name-middle :
    (s : String) (ds : List ToolDefinition) (d : ToolDefinition) (es : List ToolDefinition)
    → d.name ≡ s
    → has_name s (ds ++ d ∷ es) ≡ true
has_name-middle s [] d es h = ground (arith, (eq_iff d.name s).1 h)
has_name-middle s (e ∷ ds) d es h = ground (arith, has_name-middle s ds d es h)

-- The name stands behind a list with that name before it.
IsUnique-fresh :
    (ds : List ToolDefinition) (d : ToolDefinition) (es : List ToolDefinition)
    → IsUnique (ds ++ d ∷ es)
    → has_name d.name ds ≡ false
IsUnique-fresh [] d es u = refl
IsUnique-fresh (e ∷ ds) d es u = elim (Bool-cases (str_eq e.name d.name)) [
  | inr b ↦ ground (arith, b, IsUnique-fresh ds d es u.1)
  | inl b ↦ absurd (cc (u.0, has_name-middle e.name ds d es (sym ((eq_iff e.name d.name).0 b))))
]

-- Definitions with names that differ from each other can be registered.
pub register_all-succeeds :
    (ds : List ToolDefinition) (r : Registry)
    → IsUnique (r.definitions ++ ds)
    → register_all r ds ≡ ok (record r { definitions = r.definitions ++ ds })
unfolding register_all register
register_all-succeeds [] r u =
    ap (λ ds. ok (record r { definitions = ds })) (sym (append-nil r.definitions))
register_all-succeeds (d ∷ ds) r u =
    let fresh = has_name-find d.name r.definitions (IsUnique-fresh r.definitions d ds u) in
    let assoc = append_assoc r.definitions (d ∷ []) ds in
    let s : Registry = record r { definitions = r.definitions ++ d ∷ [] } in
    let first : register_all r (d ∷ ds) ≡ register_all s ds = ground (arith, fresh) in
    first
    ∙ register_all-succeeds ds s (subst IsUnique (sym assoc) u)
    ∙ ap (λ xs. ok (record r { definitions = xs })) assoc
