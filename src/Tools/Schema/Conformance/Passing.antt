-- ===== src/Tools/Schema/Conformance/Passing.antt =====
-- The tests of `_validate_value` (tools/schema.py) pass where the keywords are respected.
use astraship.Base.{
  ℕ, String, ◌≡◌, refl, inl, inr, Bool, true, false, none, some, List, [], ◌∷◌, All, arith, exists,
  eq_iff, Option-cases,
}
use astraship.Base.Int.{pos}
use astraship.Base.Text.{str_length}
use astraship.Errors.{Message, Result, ok, err}
use astraship.Value.{
  Value, bool, int, float, str, obj, Float, infinity, minus_infinity, nan, finite, Fields, end,
  field, get, items,
}
use astraship.Value.Numbers.{float_lt, number_of, is_finite, py_lt}
use astraship.Tools.Schema.Keywords.{
  SchemaType, object, array, string, integer, number, boolean, null_type, type_of, type_name,
}
use astraship.Tools.Schema.Node.{Regex, get_or}
use astraship.Tools.Schema.Check.{
  Verdict, return_if, then_check, matches_type, type_key, typed, check_required, required_list,
  property_table, forbids_additional, iterated, with_table, check_size, is_text, starts_with,
  contains, not_in_enum, no_match, when_present, check_string, check_number,
}
use astraship.Tools.Schema.Conformance.{
  NotAbove, When, absent, present, Within, Among, IsStart, IsPart, Enumerates, listed, keyed, part,
  Iterates, HasKey, Matches, matched, HasProperties, Requires, IsType, IsOpen,
}

pub then_check-intro : (a b : Verdict) → a ≡ ok none → b ≡ ok none → then_check a b ≡ ok none
then_check-intro (ok none) b h k = k
then_check-intro (ok (some m)) b h k = absurd (cc)
then_check-intro (err e) b h k = absurd (cc)

return_if-intro : (r : Result Bool) (m : Message) → r ≡ ok false → return_if r m ≡ ok none
return_if-intro (ok false) m h = refl
return_if-intro (ok true) m h = absurd (cc)
return_if-intro (err e) m h = absurd (cc)

pub typed-intro :
    (schema v : Value) (path : Message) (k : SchemaType → Verdict) (t : SchemaType)
    → type_key schema ≡ ok t
    → matches_type t v ≡ true
    → k t ≡ ok none
    → typed schema v path k ≡ ok none
typed-intro schema v path k t h m r = ground (arith, h, m, r)

pub IsType-key : (s : Fields) (t : SchemaType) → IsType s (type_name t) → type_key (obj s) ≡ ok t
unfolding type_key type_of type_name
IsType-key s object g = rw (g, type_key) refl
IsType-key s array g = rw (g, type_key) refl
IsType-key s string g = rw (g, type_key) refl
IsType-key s integer g = rw (g, type_key) refl
IsType-key s number g = rw (g, type_key) refl
IsType-key s boolean g = rw (g, type_key) refl
IsType-key s null_type g = rw (g, type_key) refl

NotAbove-py_lt : (a b : Value) → NotAbove b a → py_lt a b ≡ ok false
unfolding py_lt
NotAbove-py_lt a b h = ground (arith, h.is_low, h.is_high, h.in_order)

module _ (s : Fields) (k : String) (d v : Value) where
  When-low : When s k (λ b. NotAbove b v) → py_lt v d ≡ ok false → py_lt v (get_or s k d) ≡ ok false
  When-low (absent g) h = rw (g, get_or) h
  When-low (present {v = b} g n) h = rw (g, get_or) (NotAbove-py_lt v b n)

  When-high :
      When s k (λ b. NotAbove v b) → py_lt d v ≡ ok false → py_lt (get_or s k d) v ≡ ok false
  When-high (absent g) h = rw (g, get_or) h
  When-high (present {v = b} g n) h = rw (g, get_or) (NotAbove-py_lt b v n)

When-test :
    (s : Fields) (k : String) (test : Value → Result Bool) (P : Value → Type 0)
    → ((v : Value) → P v → test v ≡ ok false)
    → When s k P
    → when_present s k test ≡ ok false
When-test s k test P f (absent g) = rw (g, when_present) refl
When-test s k test P f (present {v} g p) = rw (g, when_present) (f v p)

-- The defaults of the bounds.
from_zero : (n : ℕ) → py_lt (int (pos n)) (int (pos 0)) ≡ ok false
unfolding py_lt number_of float_lt
from_zero n = ground arith

below_infinity :
    (v : Value) (x : Float) → number_of v ≡ some x → py_lt (float infinity) v ≡ ok false
unfolding py_lt number_of float_lt
below_infinity v x h = rw (h, py_lt) (from x)
  where
    from : (x : Float) → ok (float_lt infinity x) ≡ ok false
    from nan = refl
    from infinity = refl
    from minus_infinity = refl
    from (finite n k) = refl

above_minus_infinity :
    (v : Value) (x : Float) → number_of v ≡ some x → py_lt v (float minus_infinity) ≡ ok false
unfolding py_lt number_of float_lt
above_minus_infinity v x h = rw (h, py_lt) (from x)
  where
    from : (x : Float) → ok (float_lt x minus_infinity) ≡ ok false
    from nan = refl
    from infinity = refl
    from minus_infinity = refl
    from (finite n k) = refl

pub Within-check_size :
    (s : Fields) (low high : String) (n : ℕ) (below above : Message)
    → Within s low high (int (pos n))
    → check_size s low high n below above ≡ ok none
unfolding check_size number_of
Within-check_size s low high n below above (a, b) =
    then_check-intro _ _
      (return_if-intro _ below (When-low s low (int (pos 0)) (int (pos n)) a (from_zero n)))
      (return_if-intro _ above
        (When-high s high (float infinity) (int (pos n)) b (below_infinity (int (pos n)) _ refl)))

Among-exists : (t : String) (vs : List Value) → Among t vs → exists (is_text t) vs ≡ true
Among-exists t _ (Among.here {vs}) = ground (arith, (eq_iff t t).1 refl)
Among-exists t _ (Among.there {v} {vs} a) = ground (arith, Among-exists t vs a)

IsStart-starts_with : (t u : String) → IsStart t u → starts_with t u ≡ true
unfolding starts_with
IsStart-starts_with _ u IsStart.no_more = refl
IsStart-starts_with _ _ (IsStart.next_same {c} {d} {t} {u} e s) =
    ground (arith, e, IsStart-starts_with t u s)

IsPart-contains : (t u : String) → IsPart t u → contains t u ≡ true
unfolding contains
IsPart-contains t String.[] (IsPart.starts s) = IsStart-starts_with t String.[] s
IsPart-contains t (String.◌∷◌ d u) (IsPart.starts s) =
    ground (arith, IsStart-starts_with t (String.◌∷◌ d u) s)
IsPart-contains t (String.◌∷◌ d u) (IsPart.later p) = ground (arith, IsPart-contains t u p)

Enumerates-not_in_enum : (t : String) (v : Value) → Enumerates t v → not_in_enum v t ≡ ok false
unfolding not_in_enum
Enumerates-not_in_enum t _ (listed {vs} a) = ground (arith, Among-exists t (items vs) a)
Enumerates-not_in_enum t _ (keyed {gs} {v} e) = ground (arith, e)
Enumerates-not_in_enum t _ (part {u} p) = ground (arith, IsPart-contains t u p)

Matches-no_match :
    (re : Regex) (t : String) (v : Value) → Matches re t v → no_match re v t ≡ ok false
unfolding no_match
Matches-no_match re t _ (matched {p} m) = ground (arith, m)

pub check_number-intro :
    (s : Fields) (v : Value) (x : Float) (path : Message)
    → number_of v ≡ some x
    → is_finite v ≡ ok true
    → Within s "minimum" "maximum" v
    → check_number s v path ≡ ok none
unfolding check_number
check_number-intro s v x path n f (a, b) =
    rw (f, check_number)
      (then_check-intro _ _
        (return_if-intro _ _
          (When-low s "minimum" (float minus_infinity) v a (above_minus_infinity v x n)))
        (return_if-intro _ _ (When-high s "maximum" (float infinity) v b (below_infinity v x n))))

pub check_string-intro :
    (re : Regex) (s : Fields) (t : String) (path : Message)
    → Within s "minLength" "maxLength" (int (pos (str_length t)))
    → When s "enum" (Enumerates t)
    → When s "pattern" (Matches re t)
    → check_string re s t path ≡ ok none
unfolding check_string
check_string-intro re s t path a b c =
    then_check-intro _ _ (Within-check_size s "minLength" "maxLength" (str_length t) _ _ a) (
      then_check-intro _ _
        (return_if-intro _ _
          (When-test s "enum" (λ x. not_in_enum x t) (Enumerates t) (Enumerates-not_in_enum t) b))
        (return_if-intro _ _
          (When-test s "pattern" (λ x. no_match re x t) (Matches re t) (Matches-no_match re t) c)))

pub HasProperties-table : (s ps : Fields) → HasProperties s ps → property_table s ≡ ok ps
unfolding property_table
HasProperties-table s ps (HasProperties.given g) = ground (arith, g)
HasProperties-table s _ (HasProperties.no_table g) = ground (arith, g)

Iterates-iterated : (v : Value) (ks : List Value) → Iterates v ks → iterated v ≡ ok ks
unfolding iterated
Iterates-iterated _ _ (Iterates.a_list {vs}) = refl
Iterates-iterated _ _ (Iterates.a_dict {gs}) = refl
Iterates-iterated _ _ (Iterates.a_text {u}) = refl

pub Requires-list : (s : Fields) (ks : List Value) → Requires s ks → required_list s ≡ ok ks
unfolding required_list
Requires-list s ks (Requires.given {v} g e) =
    rw (g, required_list, get_or) (Iterates-iterated v ks e)
Requires-list s _ (Requires.no_list g) = rw (g, required_list, get_or) (unfold iterated in refl)

pub with_table-intro :
    (fs s ps : Fields) (k : Fields → Verdict)
    → property_table s ≡ ok ps
    → k ps ≡ ok none
    → with_table fs s k ≡ ok none
with_table-intro end s ps k h r = refl
with_table-intro (field key v fs) s ps k h r = ground (arith, h, r)

pub IsOpen-forbids : (s : Fields) → IsOpen s → forbids_additional s ≡ false
unfolding forbids_additional
IsOpen-forbids s h = elim (Option-cases (get s "additionalProperties")) [
  | inl g ↦ ground (arith, g)
  | inr (v, g) ↦ from v g
]
  where
    from : (v : Value) → get s "additionalProperties" ≡ some v → forbids_additional s ≡ false
    from (bool false) g = absurd (h g)
    from (bool true) g = ground (arith, g)
    from v g = ground (arith, g)

pub All-check_required :
    (ks : List Value) (fs : Fields) (path : Message)
    → All (HasKey fs) ks
    → check_required ks fs path ≡ ok none
unfolding check_required
All-check_required [] fs path h = refl
All-check_required (str k ∷ ks) fs path (b, h) = ground (arith, b, All-check_required ks fs path h)
All-check_required (v ∷ ks) fs path (b, h) = absurd b
