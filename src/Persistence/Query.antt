-- ===== src/Persistence/Query.antt =====
-- What `read` and `query` of persistence.py return.
use native.Mathlib.Nat.{zero-add}
use astraship.Base.{
  ℕ, zero, suc, ◌+◌, ◌≤◌, String, ◌≡◌, ◌≢◌, refl, ◌∙◌, sym, ap, subst, ◌⊎◌, inl, inr, true, false,
  str_eq, eq_iff, Option, none, some, List, [], ◌∷◌, ◌++◌, arith, take, drop, length, length-take,
  take-append-drop, Option-cases, Bool-cases,
}
use astraship.Base.Int.{pos}
use astraship.Base.Text.{is_nonempty, is_blank, has_char}
use astraship.Errors.{ok, Result-cases}
use astraship.Value.{Value, null, int, str, obj, Fields, get, get_or_null}
use astraship.Value.Json.{Json}
use astraship.Persistence.Lines.{lines_of}
use astraship.Persistence.{
  SessionEvent, Entry, Disk, find_entry, is_safe_session_id, validate_session_id, record_data,
  record_type, record_session, parse_fields, parse_record, parse_line, parse_lines, read_content,
  read_entry, read, page, of_type, check_filter, check_offset, check_limit, query,
}

-- The line holds a record of the session, and this is its event.
pub record IsOf (json : Json) (s line : String) (e : SessionEvent) : Type 0 where
  pub fields : Fields
  pub not_blank : is_blank line ≡ false
  pub decoded : json.loads line ≡ some (obj fields)
  pub has_session : get fields "sessionId" ≡ some (str s)
  pub has_type : get fields "type" ≡ some (str e.type)
  pub has_data : get fields "data" ≡ some (obj e.info)
  pub session : e.session_id ≡ s
  pub typed : is_nonempty e.type ≡ true

-- What the fields of a record say of its event.
record Says (s : String) (fs : Fields) (e : SessionEvent) : Type 0 where
  has_session : get fs "sessionId" ≡ some (str s)
  has_type : get fs "type" ≡ some (str e.type)
  has_data : get fs "data" ≡ some (obj e.info)
  session : e.session_id ≡ s
  typed : is_nonempty e.type ≡ true

got : (fs : Fields) (k : String) (v : Value) → get_or_null fs k ≡ v → v ≢ null → get fs k ≡ some v
got fs k v h n = elim (Option-cases (get fs k)) [
  | inl e ↦ absurd (n (sym h ∙ ground (arith, e)))
  | inr (w, e) ↦ e ∙ ap some (ground (arith, e, h))
]

module _ (s : String) (n : ℕ) (fs : Fields) (e : SessionEvent)
    (has_session : get fs "sessionId" ≡ some (str s)) where
  data-Says :
      (t : String) (v : Value)
      → get fs "type" ≡ some (str t)
      → is_nonempty t ≡ true
      → get_or_null fs "data" ≡ v
      → record_data s n t v ≡ ok e
      → Says s fs e
  unfolding record_data
  data-Says t (obj info) g b d h =
      subst (Says s fs) {x = record { session_id = s; type = t; info = info }} (ground (arith, h))
        (record {
          has_session = has_session;
          has_type = g;
          has_data = got fs "data" (obj info) d (λ z. cc);
          session = refl;
          typed = b;
        })
  data-Says t v g b d h = absurd (cc)

  type-Says : (v : Value) → get_or_null fs "type" ≡ v → record_type s n fs v ≡ ok e → Says s fs e
  unfolding record_type
  type-Says (str t) g h = elim (Bool-cases (is_nonempty t)) [
    | inr b ↦ absurd (ground (arith, h, b))
    | inl b ↦
        data-Says t (get_or_null fs "data") (got fs "type" (str t) g (λ z. cc)) b refl
          (ground (arith, h, b))
  ]
  type-Says v g h = absurd (cc)

session-Says :
    (s : String) (n : ℕ) (fs : Fields) (e : SessionEvent) (v : Value)
    → get_or_null fs "sessionId" ≡ v
    → record_session s n fs v ≡ ok e
    → Says s fs e
unfolding record_session
session-Says s n fs e (str i) g h = elim (Bool-cases (str_eq i s)) [
  | inr b ↦ absurd (ground (arith, h, b))
  | inl b ↦
      type-Says s n fs e
        (got fs "sessionId" (str i) g (λ z. cc) ∙ ap (λ x. some (str x)) ((eq_iff i s).0 b))
        (get_or_null fs "type") refl (ground (arith, h, b))
]
session-Says s n fs e v g h = absurd (cc)

parse_line-IsOf :
    (json : Json) (s : String) (n : ℕ) (l : String) (e : SessionEvent)
    → parse_line json s n l ≡ ok e
    → IsOf json s l e
unfolding parse_line parse_record parse_fields
parse_line-IsOf json s n l e h = elim (Bool-cases (is_blank l)) [
  | inl b ↦ absurd (ground (arith, h, b))
  | inr b ↦ from b (json.loads l) refl (rw (b, parse_line) at h)
]
  where
    from :
        is_blank l ≡ false
        → (v : Option Value) → json.loads l ≡ v
        → parse_record s n v ≡ ok e
        → IsOf json s l e
    from b none g h = absurd (cc)
    from b (some (obj fs)) g h =
        let says = session-Says s n fs e (get_or_null fs "sessionId") refl h in
        record {
          fields = fs;
          not_blank = b;
          decoded = g;
          has_session = says.has_session;
          has_type = says.has_type;
          has_data = says.has_data;
          session = says.session;
          typed = says.typed;
        }
    from b (some v) g h = absurd (cc)

-- Each line of a transcript that is read is one event of the session; none is skipped.
pub data ReadsAll (json : Json) (s : String) : List String → List SessionEvent → Type 0 where
  no_line : ReadsAll json s [] []
  next_line :
      {l : String} {ls : List String} {e : SessionEvent} {es : List SessionEvent}
      → IsOf json s l e
      → ReadsAll json s ls es
      → ReadsAll json s (l ∷ ls) (e ∷ es)

parse_lines-ReadsAll :
    (json : Json) (s : String) (n : ℕ) (ls : List String) (es : List SessionEvent)
    → parse_lines json s n ls ≡ ok es
    → ReadsAll json s ls es
unfolding parse_lines
parse_lines-ReadsAll json s n [] es h =
    subst (ReadsAll json s []) {x = []} (ground (arith, h)) ReadsAll.no_line
parse_lines-ReadsAll json s n (l ∷ ls) es h = elim (Result-cases (parse_line json s n l)) [
  | inr (x, p) ↦ absurd (ground (arith, h, p))
  | inl (e, p) ↦ elim (Result-cases (parse_lines json s (suc n) ls)) [
    | inr (x, q) ↦ absurd (ground (arith, h, p, q))
    | inl (more, q) ↦ subst (ReadsAll json s (l ∷ ls)) {x = e ∷ more} (ground (arith, h, p, q)) (
        ReadsAll.next_line (parse_line-IsOf json s n l e p)
          (parse_lines-ReadsAll json s (suc n) ls more q))
  ]
]

read_content-ReadsAll :
    (json : Json) (s c : String) (es : List SessionEvent)
    → read_content json s (some c) ≡ ok es
    → ReadsAll json s (lines_of c) es
unfolding read_content
read_content-ReadsAll json s c es h = parse_lines-ReadsAll json s 1 (lines_of c) es h

-- A transcript that is read has a safe session ID. A missing file reads as no event; of a file that
-- is there every line, in order, is read as an event: the line is not blank and holds a record whose
-- sessionId is that of the session, whose type is a text that is not empty, and whose data is an
-- object, and these are the event's.
pub read-ReadsAll :
    (json : Json) (d : Disk) (s : String) (es : List SessionEvent)
    → read json d s ≡ ok es
    → (is_safe_session_id s ≡ true)
      × (((find_entry s d ≡ none) × (es ≡ []))
          ⊎ ((x : Entry) × (c : String) × (find_entry s d ≡ some x)
              × (x.content ≡ some c)
              × ReadsAll json s (lines_of c) es))
unfolding read validate_session_id read_entry
read-ReadsAll json d s es h = elim (Bool-cases (is_safe_session_id s)) [
  | inr b ↦ absurd (ground (arith, h, b))
  | inl b ↦ elim (Bool-cases (has_char 0 s)) [
    | inl z ↦ absurd (ground (arith, h, b, z))
    | inr z ↦ elim (Option-cases (find_entry s d)) [
      | inl f ↦ (b, inl (f, ground (arith, h, b, z, f)))
      | inr (x, f) ↦ elim (Option-cases x.content) [
        | inl c ↦ absurd (unfold read_content in ground (arith, h, b, z, f, c))
        | inr (c, g) ↦
            (b, inr (x, c, f, g, read_content-ReadsAll json s c es (ground (arith, h, b, z, f, g))))
      ]
    ]
  ]
]

module _ {ℓ} {A : Type ℓ} where
  take-nil : (n : ℕ) → take {A = A} n [] ≡ []
  take-nil zero = refl
  take-nil (suc n) = refl

  drop-nil : (n : ℕ) → drop {A = A} n [] ≡ []
  drop-nil zero = refl
  drop-nil (suc n) = refl

  drop-drop : (n k : ℕ) (xs : List A) → drop (n + k) xs ≡ drop k (drop n xs)
  drop-drop zero k xs = rw zero-add
  drop-drop (suc n) k [] = drop-nil (suc n + k) ∙ sym (drop-nil k)
  drop-drop (suc n) k (x ∷ xs) =
      let e : suc n + k ≡ suc (n + k) = omega arith in rw e (drop-drop n k xs)

  -- The page is the stretch that slicing gives: `limit` items from `offset` on.
  page-take-drop :
      (offset limit : ℕ) (xs : List A) → page offset (some limit) xs ≡ take limit (drop offset xs)
  unfolding page
  page-take-drop zero limit xs = rw zero-add
  page-take-drop (suc n) limit [] = rw (take-nil (suc n + limit), take-nil limit)
  page-take-drop (suc n) limit (x ∷ xs) =
      let e : suc n + limit ≡ suc (n + limit) = omega arith in rw e (page-take-drop n limit xs)

  page-tiles : (n k : ℕ) (xs : List A) → page n (some k) xs ++ page (n + k) none xs ≡ page n none xs
  unfolding page
  page-tiles n k xs = rw (page-take-drop n k xs, drop-drop n k xs) (take-append-drop k (drop n xs))

  length-page-le : (n k : ℕ) (xs : List A) → length (page n (some k) xs) ≤ k
  length-page-le n k xs = rw page-take-drop (omega (arith, length-take k (drop n xs)))

module _ (json : Json) (d : Disk) (s : String) (event_type : Option String) where
  -- What a query that returned has done.
  query-inversion :
      (offset limit : Value) (n : ℕ) (l : Option ℕ) (es : List SessionEvent)
      → check_offset offset ≡ ok n
      → check_limit limit ≡ ok l
      → query json d s event_type offset limit ≡ ok es
      → (all : List SessionEvent) × (check_filter event_type ≡ ok tt)
        × (read json d s ≡ ok all)
        × (es ≡ page n l (of_type event_type all))
  unfolding query
  query-inversion offset limit n l es o m h = elim (Result-cases (check_filter event_type)) [
    | inr (x, p) ↦ absurd (ground (arith, h, p))
    | inl (tt, p) ↦ elim (Result-cases (read json d s)) [
      | inr (x, q) ↦ absurd (ground (arith, h, p, o, m, q))
      | inl (all, q) ↦ (all, p, q, ground (arith, h, p, o, m, q))
    ]
  ]

  limited : (k : ℕ) → check_limit (int (pos (suc k))) ≡ ok (some (suc k))
  unfolding check_limit
  limited k = refl

  from_offset : (n : ℕ) → check_offset (int (pos n)) ≡ ok n
  unfolding check_offset
  from_offset n = refl

  unlimited : check_limit null ≡ ok none
  unfolding check_limit
  unlimited = refl

  -- Pages tile: a page of at most `k + 1` events, and the rest from the offset behind it, make up
  -- all that the query returns from the first offset on.
  pub query-tiles :
      (n k : ℕ) (a b : List SessionEvent)
      → query json d s event_type (int (pos n)) (int (pos (suc k))) ≡ ok a
      → query json d s event_type (int (pos (n + suc k))) null ≡ ok b
      → (query json d s event_type (int (pos n)) null ≡ ok (a ++ b)) × (length a ≤ suc k)
  unfolding query
  query-tiles n k a b p q =
      let (all, f, r, e) =
        query-inversion (int (pos n)) (int (pos (suc k))) n (some (suc k)) a (from_offset n)
          (limited k) p in
      let (all', _, r', e') =
        query-inversion (int (pos (n + suc k))) null (n + suc k) none b (from_offset (n + suc k))
          unlimited q in
      let same : all ≡ all' = ground (arith, r, r') in
      (
        rw (f, r, e, e', ← same) (ap ok (sym (page-tiles n (suc k) (of_type event_type all)))),
        rw e (length-page-le n (suc k) (of_type event_type all)),
      )
