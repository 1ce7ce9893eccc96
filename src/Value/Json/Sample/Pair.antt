-- ===== src/Value/Json/Sample/Pair.antt =====
-- A `json` that writes and reads two values: the text of the second one begins with an exclamation
-- mark.
use Prim.Native.String.{String, [], ◌∷◌, ◌++◌ as str_append}
use text.Mathlib.TextLemmas.{nil-append, cons-append}
use Prim.Native.Char.{code}
use astraship.Base.{
  ◌≡◌, refl, ◌∙◌, ap, ◌⊎◌, inl, inr, ◌||◌, Option, none, some, arith, ◌==◌, if◌then◌else◌,
  Bool-cases,
}
use astraship.Base.Text.{has_char}
use astraship.Errors.{Result, ok, raise, type_error}
use astraship.Value.{Value}
use astraship.Value.Json.{Json, IsJson}
use astraship.Value.Json.Sample.{same, same-eq, brace-not_blank, has_char-newline}

unfoldable pub dumps_pair : Value → Value → Value → Result String
unfolding same
dumps_pair v w u =
    if same v u then ok "{}" else if same w u then ok "{!}" else raise type_error "not serializable"

unfoldable pub loads_pair : Value → Value → String → Option Value
loads_pair v w s = if has_char 123 s then (if has_char 33 s then some w else some v) else none

abbrev pub pair_codec : Value → Value → Json
pair_codec v w = record { dumps = λ allow_nan u. dumps_pair v w u; loads = loads_pair v w }

has_bang-newline : (s : String) → has_char 33 (str_append s "\n") ≡ has_char 33 s
has_bang-newline [] = ap (has_char 33) (nil-append "\n")
has_bang-newline (c ∷ s) =
    ap (has_char 33) (cons-append c s "\n") ∙ ap (◌||◌ (code c == 33)) (has_bang-newline s)

dumps_pair-inversion :
    (v w u : Value) (s : String)
    → dumps_pair v w u ≡ ok s
    → ((v ≡ u) × ("{}" ≡ s)) ⊎ ((w ≡ u) × ("{!}" ≡ s))
unfolding dumps_pair
dumps_pair-inversion v w u s h = elim (Bool-cases (same v u)) [
  | inl b ↦ inl (same-eq v u b, ground (arith, h, b))
  | inr b ↦ elim (Bool-cases (same w u)) [
    | inl c ↦ inr (same-eq w u c, ground (arith, h, b, c))
    | inr c ↦ absurd (ground (arith, h, b, c))
  ]
]

pub pair_codec-IsJson : (v w : Value) → IsJson (pair_codec v w)
unfolding loads_pair
pair_codec-IsJson v w = record {
  round_trip = λ allow_nan u s h. elim (dumps_pair-inversion v w u s h) [
    | inl (e, f) ↦ rw (← f) (ap some e)
    | inr (e, f) ↦ rw (← f) (ap some e)
  ];
  one_line = λ allow_nan u s h. elim (dumps_pair-inversion v w u s h) [
    | inl (e, f) ↦ rw (← f) refl
    | inr (e, f) ↦ rw (← f) refl
  ];
  no_return = λ allow_nan u s h. elim (dumps_pair-inversion v w u s h) [
    | inl (e, f) ↦ rw (← f) refl
    | inr (e, f) ↦ rw (← f) refl
  ];
  newline = λ s i.
      if has_char-newline s i then (if has_bang-newline s i then some w else some v) else none;
  not_blank = λ s u h. elim (Bool-cases (has_char 123 s)) [
    | inl b ↦ brace-not_blank s b
    | inr b ↦ absurd (ground (arith, h, b))
  ];
}
