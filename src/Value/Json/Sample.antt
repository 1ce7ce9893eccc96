-- ===== src/Value/Json/Sample.antt =====
-- A `json` that writes and reads one value.
pub mod Pair
use Prim.Native.String.{String, [], ◌∷◌, ◌++◌ as str_append}
use Prim.Native.Char.{code}
use text.Mathlib.TextLemmas.{nil-append, cons-append}
use astraship.Base.{
  ◌≡◌, refl, ◌∙◌, ap, inl, inr, Bool, true, false, ◌&&◌, ◌||◌, Option, none, some, arith, str_eq,
  eq_iff, ◌==◌, if◌then◌else◌, Bool-cases,
}
use astraship.Base.Int.{pos, negsuc}
use astraship.Base.Text.{has_char, is_blank, is_space}
use astraship.Errors.{Result, ok, raise, type_error}
use astraship.Value.{Value, null, int, str, arr, obj, Items, nil, cons, Fields, end, field}
use astraship.Value.Json.{Json, IsJson}

mutual
  -- Are these the same value? Only for the values that the codec may be for.
  pub same : Value → Value → Bool
  same null null = true
  same (int (pos n)) (int (pos m)) = n == m
  same (int (negsuc n)) (int (negsuc m)) = n == m
  same (str s) (str t) = str_eq s t
  same (obj fs) (obj gs) = same_fields fs gs
  same (arr vs) (arr ws) = same_items vs ws
  same v w = false

  same_items : Items → Items → Bool
  same_items nil nil = true
  same_items (cons v vs) (cons w ws) = same v w && same_items vs ws
  same_items vs ws = false

  same_fields : Fields → Fields → Bool
  same_fields end end = true
  same_fields (field j v fs) (field k w gs) = str_eq j k && same v w && same_fields fs gs
  same_fields fs gs = false

and2 : (a b : Bool) → (a && b) ≡ true → (a ≡ true) × (b ≡ true)
and2 true true h = (refl, refl)
and2 a b h = absurd (cc)

and3 : (a b c : Bool) → (a && b && c) ≡ true → (a ≡ true) × (b ≡ true) × (c ≡ true)
and3 true true true h = (refl, refl, refl)
and3 a b c h = absurd (cc)

mutual
  unfolding same same_fields same_items

  pub same-eq : (v w : Value) → same v w ≡ true → v ≡ w
  same-eq null null h = refl
  same-eq (int (pos n)) (int (pos m)) h = ground (arith, h)
  same-eq (int (negsuc n)) (int (negsuc m)) h = ground (arith, h)
  same-eq (str s) (str t) h = ap str ((eq_iff s t).0 h)
  same-eq (obj fs) (obj gs) h = ap obj (same_fields-eq fs gs h)
  same-eq (arr vs) (arr ws) h = ap arr (same_items-eq vs ws h)
  same-eq v w h = absurd (cc)

  same_items-eq : (vs ws : Items) → same_items vs ws ≡ true → vs ≡ ws
  same_items-eq nil nil h = refl
  same_items-eq (cons v vs) (cons w ws) h =
      let (p, q) = and2 (same v w) (same_items vs ws) h in
      λ i. cons (same-eq v w p i) (same_items-eq vs ws q i)
  same_items-eq vs ws h = absurd (cc)

  same_fields-eq : (fs gs : Fields) → same_fields fs gs ≡ true → fs ≡ gs
  same_fields-eq end end h = refl
  same_fields-eq (field j v fs) (field k w gs) h =
      let (p, q, r) = and3 (str_eq j k) (same v w) (same_fields fs gs) h in
      λ i. field ((eq_iff j k).0 p i) (same-eq v w q i) (same_fields-eq fs gs r i)
  same_fields-eq fs gs h = absurd (cc)

unfoldable pub dumps_one : Value → Value → Result String
unfolding same
dumps_one v w = if same v w then ok "{}" else raise type_error "not serializable"

-- The text is one with a brace.
unfoldable pub loads_one : Value → String → Option Value
loads_one v s = if has_char 123 s then some v else none

abbrev pub codec : Value → Json
codec v = record { dumps = λ allow_nan w. dumps_one v w; loads = loads_one v }

pub has_char-newline : (s : String) → has_char 123 (str_append s "\n") ≡ has_char 123 s
has_char-newline [] = ap (has_char 123) (nil-append "\n")
has_char-newline (c ∷ s) =
    ap (has_char 123) (cons-append c s "\n") ∙ ap (◌||◌ (code c == 123)) (has_char-newline s)

pub brace-not_blank : (s : String) → has_char 123 s ≡ true → is_blank s ≡ false
unfolding is_blank is_space
brace-not_blank [] h = absurd (cc)
brace-not_blank (c ∷ s) h = elim (Bool-cases (code c == 123)) [
  | inl b ↦ ground (arith, b)
  | inr b ↦ ground (arith, brace-not_blank s (ground (arith, h, b)))
]

dumps_one-inversion : (v w : Value) (s : String) → dumps_one v w ≡ ok s → (v ≡ w) × ("{}" ≡ s)
unfolding dumps_one
dumps_one-inversion v w s h = elim (Bool-cases (same v w)) [
  | inl b ↦ (same-eq v w b, ground (arith, h, b))
  | inr b ↦ absurd (ground (arith, h, b))
]

pub codec-IsJson : (v : Value) → IsJson (codec v)
unfolding loads_one
codec-IsJson v = record {
  round_trip = λ allow_nan w s h. let (e, f) = dumps_one-inversion v w s h in rw (← f) (ap some e);
  one_line = λ allow_nan w s h. let (e, f) = dumps_one-inversion v w s h in rw (← f) refl;
  no_return = λ allow_nan w s h. let (e, f) = dumps_one-inversion v w s h in rw (← f) refl;
  newline = λ s. ap (λ (b : Bool). if b then some v else none) (has_char-newline s);
  not_blank = λ s w h. elim (Bool-cases (has_char 123 s)) [
    | inl b ↦ brace-not_blank s b
    | inr b ↦ absurd (ground (arith, h, b))
  ];
}
