-- ===== src/Tools/Schema/Conformance/Keywords.antt =====
-- What the tests on single keywords of `_validate_value` (tools/schema.py) say when they pass.
use astraship.Base.{
  ℕ, ◌≡◌, refl, ◌∙◌, sym, ap, subst, ◌⊎◌, inl, inr, String, List, [], ◌∷◌, exists, ◌==◌, Bool, true,
  false, Option, none, some, arith, str_eq, eq_iff, Bool-cases, Option-cases, if◌then◌else◌,
}
use astraship.Base.Int.{pos}
use astraship.Errors.{raise, key_error, type_error, Message, Result, ok, err, Result-cases}
use astraship.Value.{Value, int, float, str, arr, obj, infinity, Fields, get, items}
use astraship.Value.Numbers.{number_of, py_lt}
use astraship.Tools.Schema.Keywords.{
  SchemaType, object, array, string, integer, number, boolean, null_type, type_of, type_name,
}
use astraship.Tools.Schema.Node.{Regex, get_or}
use Prim.Native.Char.{code}
use astraship.Tools.Schema.Check.{
  Verdict, return_if, matches_type, type_key, typed, check_size, is_text, starts_with, contains,
  not_in_enum, no_match, when_present,
}
use astraship.Tools.Schema.Objects.{then_check-inversion}
use astraship.Tools.Schema.Conformance.{
  NotAbove, When, Within, Among, IsStart, IsPart, Enumerates, listed, keyed, part, Matches, matched,
  IsType,
}

pub return_if-ok : (r : Result Bool) (m : Message) → return_if r m ≡ ok none → r ≡ ok false
return_if-ok (ok false) m h = refl
return_if-ok (ok true) m h = absurd (cc)
return_if-ok (err e) m h = absurd (cc)

-- The comparison of two numbers that is false.
pub py_lt-NotAbove : (a b : Value) → py_lt a b ≡ ok false → NotAbove b a
unfolding py_lt
py_lt-NotAbove a b h = elim (Option-cases (number_of a)) [
  | inl n ↦ absurd (ground (arith, h, n))
  | inr (x, n) ↦ elim (Option-cases (number_of b)) [
    | inl m ↦ absurd (ground (arith, h, n, m))
    | inr (y, m) ↦ record {
      low = y;
      high = x;
      is_low = m;
      is_high = n;
      in_order = ground (arith, h, n, m);
    }
  ]
]

module _ (s : Fields) (k : String) (d v : Value) where
  pub low-When : py_lt v (get_or s k d) ≡ ok false → When s k (λ b. NotAbove b v)
  low-When h = elim (Option-cases (get s k)) [
    | inl g ↦ When.absent g
    | inr (b, g) ↦ When.present g (py_lt-NotAbove v b (rw (g, get_or) at h))
  ]

  pub high-When : py_lt (get_or s k d) v ≡ ok false → When s k (λ b. NotAbove v b)
  high-When h = elim (Option-cases (get s k)) [
    | inl g ↦ When.absent g
    | inr (b, g) ↦ When.present g (py_lt-NotAbove b v (rw (g, get_or) at h))
  ]

pub check_size-Within :
    (s : Fields) (low high : String) (n : ℕ) (below above : Message)
    → check_size s low high n below above ≡ ok none
    → Within s low high (int (pos n))
unfolding check_size
check_size-Within s low high n below above h =
    let first = return_if (py_lt (int (pos n)) (get_or s low (int (pos 0)))) below in
    let second = return_if (py_lt (get_or s high (float infinity)) (int (pos n))) above in
    let (p, q) = then_check-inversion first second h in
    (
      low-When s low (int (pos 0)) (int (pos n)) (return_if-ok _ below p),
      high-When s high (float infinity) (int (pos n)) (return_if-ok _ above q),
    )

exists-Among : (t : String) (vs : List Value) → exists (is_text t) vs ≡ true → Among t vs
exists-Among t [] h = absurd (cc)
exists-Among t (str u ∷ vs) h = elim (Bool-cases (str_eq u t)) [
  | inl b ↦ subst (λ x. Among t (str x ∷ vs)) (sym ((eq_iff u t).0 b)) Among.here
  | inr b ↦ Among.there (exists-Among t vs (ground (arith, h, b)))
]
exists-Among t (v ∷ vs) h = Among.there (exists-Among t vs h)

starts_with-IsStart : (t u : String) → starts_with t u ≡ true → IsStart t u
unfolding starts_with
starts_with-IsStart String.[] u h = IsStart.no_more
starts_with-IsStart (String.◌∷◌ c t) String.[] h = absurd (cc)
starts_with-IsStart (String.◌∷◌ c t) (String.◌∷◌ d u) h = elim (Bool-cases (code c == code d)) [
  | inl b ↦ IsStart.next_same (ground (arith, b)) (starts_with-IsStart t u (ground (arith, h, b)))
  | inr b ↦ absurd (ground (arith, h, b))
]

contains-IsPart : (t u : String) → contains t u ≡ true → IsPart t u
unfolding contains
contains-IsPart t String.[] h = IsPart.starts (starts_with-IsStart t String.[] h)
contains-IsPart t (String.◌∷◌ d u) h = elim (Bool-cases (starts_with t (String.◌∷◌ d u))) [
  | inl b ↦ IsPart.starts (starts_with-IsStart t (String.◌∷◌ d u) b)
  | inr b ↦ IsPart.later (contains-IsPart t u (ground (arith, h, b)))
]

pub not_in_enum-Enumerates : (v : Value) (t : String) → not_in_enum v t ≡ ok false → Enumerates t v
unfolding not_in_enum
not_in_enum-Enumerates (arr vs) t h = listed (exists-Among t (items vs) (ground (arith, h)))
not_in_enum-Enumerates (obj gs) t h = elim (Option-cases (get gs t)) [
  | inl n ↦ absurd (ground (arith, h, n))
  | inr (v, n) ↦ keyed n
]
not_in_enum-Enumerates (str u) t h = part (contains-IsPart t u (ground (arith, h)))
not_in_enum-Enumerates v t h = absurd (cc)

pub no_match-Matches :
    (re : Regex) (v : Value) (t : String) → no_match re v t ≡ ok false → Matches re t v
unfolding no_match
no_match-Matches re (str p) t h = matched (ground (arith, h))
no_match-Matches re v t h = absurd (cc)

pub when_present-When :
    (s : Fields) (k : String) (test : Value → Result Bool) (P : Value → Type 0)
    → ((v : Value) → test v ≡ ok false → P v)
    → when_present s k test ≡ ok false
    → When s k P
when_present-When s k test P f h = elim (Option-cases (get s k)) [
  | inl g ↦ When.absent g
  | inr (v, g) ↦ When.present g (f v (rw (g, when_present) at h))
]

pick :
    (name k : String) (t u : SchemaType) (rest : Option SchemaType)
    → k ≡ type_name t
    → (if str_eq name k then some t else rest) ≡ some u
    → (name ≡ type_name u) ⊎ (rest ≡ some u)
pick name k t u rest e h = elim (Bool-cases (str_eq name k)) [
  | inr b ↦ inr (ground (arith, h, b))
  | inl b ↦
      let same : t ≡ u = ground (arith, h, b) in inl ((eq_iff name k).0 b ∙ e ∙ ap type_name same)
]

pub type_of-name : (name : String) (t : SchemaType) → type_of name ≡ some t → name ≡ type_name t
unfolding type_of type_name
type_of-name name t h = elim (pick name "object" object t _ refl h) [
  | inl e ↦ e
  | inr h ↦ elim (pick name "array" array t _ refl h) [
    | inl e ↦ e
    | inr h ↦ elim (pick name "string" string t _ refl h) [
      | inl e ↦ e
      | inr h ↦ elim (pick name "integer" integer t _ refl h) [
        | inl e ↦ e
        | inr h ↦ elim (pick name "number" number t _ refl h) [
          | inl e ↦ e
          | inr h ↦ elim (pick name "boolean" boolean t _ refl h) [
            | inl e ↦ e
            | inr h ↦ elim (pick name "null" null_type t none refl h) [
              | inl e ↦ e
              | inr h ↦ absurd (cc)
            ]
          ]
        ]
      ]
    ]
  ]
]

pub type_key-IsType :
    (s : Fields) (t : SchemaType) → type_key (obj s) ≡ ok t → IsType s (type_name t)
unfolding type_key
type_key-IsType s t h = elim (Option-cases (get s "type")) [
  | inl g ↦ absurd (ground (arith, h, g))
  | inr (v, g) ↦ g ∙ ap some (from v (rw (g, type_key) at h))
]
  where
    from :
        (v : Value)
        → (elim v as (λ x. Result SchemaType) [
          | str n ↦ elim (type_of n) [ some u ↦ ok u | none ↦ raise key_error n ]
          | arr vs ↦ raise type_error "unhashable type: 'list'"
          | obj gs ↦ raise type_error "unhashable type: 'dict'"
          | _ ↦ raise key_error "type"
        ])
          ≡ ok t
        → v ≡ str (type_name t)
    from (str n) h = elim (Option-cases (type_of n)) [
      | inl g ↦ absurd (ground (arith, h, g))
      | inr (u, g) ↦
          let same : u ≡ t = ground (arith, h, g) in ap str (type_of-name n t (g ∙ ap some same))
    ]
    from v h = absurd (cc)

-- The type test lets the value through.
pub typed-ok :
    (schema v : Value) (path : Message) (k : SchemaType → Verdict)
    → typed schema v path k ≡ ok none
    → (t : SchemaType) × (type_key schema ≡ ok t) × (matches_type t v ≡ true) × (k t ≡ ok none)
typed-ok schema v path k h = elim (Result-cases (type_key schema)) [
  | inr (e, p) ↦ absurd (ground (arith, h, p))
  | inl (t, p) ↦ elim (Bool-cases (matches_type t v)) [
    | inl b ↦ (t, p, b, ground (arith, h, p, b))
    | inr b ↦ absurd (ground (arith, h, p, b))
  ]
]
