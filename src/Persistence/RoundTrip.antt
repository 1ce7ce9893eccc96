-- ===== src/Persistence/RoundTrip.antt =====
-- `read` of persistence.py after `append`.
use Prim.Native.String.{◌++◌ as str_append}
use mathlib.Core.Option
use mathlib.Core.List.{append_assoc, append-nil}
use astraship.Base.{
  ℕ, suc, String, ◌≡◌, refl, ◌∙◌, sym, ap, subst, ◌⊎◌, inl, inr, Bool, true, false, Option, none,
  some, List, [], ◌∷◌, ◌++◌, map, arith, str_eq, eq_iff, if◌then◌else◌, All, keep, Bool-cases,
}
use astraship.Base.Text.{is_nonempty, has_char}
use astraship.Errors.{ok, Result-cases}
use astraship.Value.{get}
use astraship.Value.Json.{Json, IsJson}
use astraship.Persistence.Lines.{
  IsPlain, line_before, line_before_empty, unlines, unlines-single, lines_of-unlines,
  unlines-append,
}
use astraship.Persistence.{
  SessionEvent, Entry, Disk, WriteOutcome, written, refused, torn, is_safe_session_id,
  validate_session_id, find_entry, append_text, event_record, write_line, check_event,
  append_encoded, append_checked, append, parse_fields, parse_record, parse_line, parse_lines,
  read_content, read_entry, read,
}

-- The lines are the records of the events of this session.
abbrev pub Holds : Json → String → List String → List SessionEvent → Type 0
Holds json s [] [] = Unit
Holds json s [] (e ∷ es) = ⊥
Holds json s (l ∷ ls) [] = ⊥
Holds json s (l ∷ ls) (e ∷ es) =
    IsPlain l
    × (json.loads l ≡ some (event_record e))
    × (e.session_id ≡ s)
    × (is_nonempty e.type ≡ true)
    × Holds json s ls es

module _ (json : Json) (laws : IsJson json) where
  Holds-IsPlain :
      (s : String) (ls : List String) (es : List SessionEvent) → Holds json s ls es → All IsPlain ls
  Holds-IsPlain s [] [] h = tt
  Holds-IsPlain s [] (e ∷ es) h = absurd h
  Holds-IsPlain s (l ∷ ls) [] h = absurd h
  Holds-IsPlain s (l ∷ ls) (e ∷ es) h = (h.0, Holds-IsPlain s ls es h.4)

  Holds-append :
      (s : String) (ls : List String) (es : List SessionEvent) (l : String) (e : SessionEvent)
      → Holds json s ls es
      → Holds json s (l ∷ []) (e ∷ [])
      → Holds json s (ls ++ l ∷ []) (es ++ e ∷ [])
  Holds-append s [] [] l e h k = k
  Holds-append s [] (x ∷ es) l e h k = absurd h
  Holds-append s (x ∷ ls) [] l e h k = absurd h
  Holds-append s (x ∷ ls) (y ∷ es) l e h k = (h.0, h.1, h.2, h.3, Holds-append s ls es l e h.4 k)

  loads-line_before : (l : String) → json.loads (line_before l "") ≡ json.loads l
  loads-line_before l = ap json.loads (sym (line_before_empty l)) ∙ laws.newline l

  parse_record-event :
      (s : String) (n : ℕ) (e : SessionEvent)
      → e.session_id ≡ s
      → is_nonempty e.type ≡ true
      → parse_record s n (some (event_record e)) ≡ ok e
  unfolding parse_record parse_fields get
  parse_record-event s n e i t = ground (arith, i, t, (eq_iff e.session_id s).1 i)

  parse_line-event :
      (s : String) (n : ℕ) (l : String) (e : SessionEvent)
      → json.loads l ≡ some (event_record e)
      → e.session_id ≡ s
      → is_nonempty e.type ≡ true
      → parse_line json s n (line_before l "") ≡ ok e
  unfolding parse_line
  parse_line-event s n l e h i t =
      let k : json.loads (line_before l "") ≡ some (event_record e) = loads-line_before l ∙ h in
      rw (laws.not_blank (line_before l "") (event_record e) k, k) (parse_record-event s n e i t)

  parse_lines-Holds :
      (s : String) (n : ℕ) (ls : List String) (es : List SessionEvent)
      → Holds json s ls es
      → parse_lines json s n (map (λ l. line_before l "") ls) ≡ ok es
  unfolding parse_lines
  parse_lines-Holds s n [] [] h = refl
  parse_lines-Holds s n [] (e ∷ es) h = absurd h
  parse_lines-Holds s n (l ∷ ls) [] h = absurd h
  parse_lines-Holds s n (l ∷ ls) (e ∷ es) h =
      rw (parse_line-event s n l e h.1 h.2 h.3, parse_lines-Holds s (suc n) ls es h.4)

-- The file of the session, if it is there, holds the records of these events.
pub record Transcript (json : Json) (s : String) (es : List SessionEvent) (d : Disk) : Type 0 where
  pub lines : List String
  pub holds : Holds json s lines es
  pub stored :
      ((find_entry s d ≡ none) × (lines ≡ []))
      ⊎ ((x : Entry) × (find_entry s d ≡ some x) × (x.content ≡ some (unlines lines)))

module _ (json : Json) (laws : IsJson json) where
  pub read-Transcript :
      (s : String) (es : List SessionEvent) (d : Disk)
      → is_safe_session_id s ≡ true
      → has_char 0 s ≡ false
      → Transcript json s es d
      → read json d s ≡ ok es
  unfolding read validate_session_id read_entry read_content
  read-Transcript s es d safe null t = elim t.stored [
    | inl (f, n) ↦
        let h : Holds json s [] es = subst (λ (ls : List String). Holds json s ls es) n t.holds in
        ground (arith, safe, null, f, no_events es h)
    | inr (x, f, c) ↦ ground (
      arith,
      safe,
      null,
      f,
      c,
      ap (parse_lines json s 1)
          (lines_of-unlines t.lines (Holds-IsPlain json laws s t.lines es t.holds)),
      parse_lines-Holds json laws s 1 t.lines es t.holds,
    )
  ]
    where
      no_events : (fs : List SessionEvent) → Holds json s [] fs → fs ≡ []
      no_events [] h = refl
      no_events (e ∷ fs) h = absurd h

-- The entry of a file after a text was written to a file.
after_write : String → String → String → Option Entry → Option Entry
after_write s t j o =
    if str_eq s j
    then elim o [
      | none ↦ some (record { stem = s; is_file = true; content = some t })
      | some x ↦ some (record x { content = Option.map (λ c. str_append c t) x.content })
    ]
    else o

find-append_text :
    (s t j : String) (d : Disk)
    → find_entry j (append_text s t d) ≡ after_write s t j (find_entry j d)
unfolding find_entry append_text after_write
find-append_text s t j [] = ground arith
find-append_text s t j (e ∷ d) =
    ground (arith, eq_iff e.stem s, eq_iff e.stem j, eq_iff s j, find-append_text s t j d)

module _ (json : Json) (laws : IsJson json) where
  record_line :
      (e : SessionEvent) (l : String)
      → json.dumps true (event_record e) ≡ ok l
      → is_nonempty e.type ≡ true
      → Holds json e.session_id (l ∷ []) (e ∷ [])
  record_line e l h t = (
    record { no_feed = laws.one_line true _ l h; no_return = laws.no_return true _ l h },
    laws.round_trip true _ l h,
    refl,
    t,
    tt,
  )

  write-Transcript :
      (s : String) (es : List SessionEvent) (d : Disk) (e : SessionEvent) (l : String)
      → Transcript json s es d
      → e.session_id ≡ s
      → Holds json s (l ∷ []) (e ∷ [])
      → Transcript json s (es ++ e ∷ []) (append_text e.session_id (str_append l "\n") d)
  unfolding after_write
  write-Transcript s es d e l t i h = record {
    lines = t.lines ++ l ∷ [];
    holds = Holds-append json laws s t.lines es l e t.holds h;
    stored = elim t.stored [
      | inl (f, n) ↦ inr (
        record { stem = e.session_id; is_file = true; content = some (str_append l "\n") },
        found ∙ ground (arith, f, (eq_iff e.session_id s).1 i),
        ap some (
            line_before_empty l
            ∙ unlines-single l
            ∙ ap (λ (ls : List String). unlines (ls ++ l ∷ [])) (sym n)),
      )
      | inr (x, f, c) ↦ inr (
        record x { content = some (str_append (unlines t.lines) (str_append l "\n")) },
        found ∙ ground (arith, f, c, (eq_iff e.session_id s).1 i),
        ap some (unlines-append t.lines l),
      )
    ];
  }
    where
      found :
          find_entry s (append_text e.session_id (str_append l "\n") d)
          ≡ after_write e.session_id (str_append l "\n") s (find_entry s d)
      found = find-append_text e.session_id (str_append l "\n") s d

  other-Transcript :
      (s : String) (es : List SessionEvent) (d : Disk) (j t : String)
      → Transcript json s es d
      → str_eq j s ≡ false
      → Transcript json s es (append_text j t d)
  unfolding after_write
  other-Transcript s es d j t x ne = record {
    lines = x.lines;
    holds = x.holds;
    stored =
        subst
          (λ (o : Option Entry).
            ((o ≡ none) × (x.lines ≡ []))
            ⊎ ((y : Entry) × (o ≡ some y) × (y.content ≡ some (unlines x.lines))))
          (sym (find-append_text j t s d ∙ rw ne)) x.stored;
  }

  -- What an append that returned has seen and done.
  append-inversion :
      (e : SessionEvent) (d d' : Disk)
      → append json written e d ≡ (d', ok tt)
      → (l : String) × (json.dumps true (event_record e) ≡ ok l)
        × (is_nonempty e.type ≡ true)
        × (d' ≡ append_text e.session_id (str_append l "\n") d)
  unfolding append check_event append_checked append_encoded write_line validate_session_id
  append-inversion e d d' h = elim (Bool-cases (is_safe_session_id e.session_id)) [
    | inr u ↦ absurd (ground (arith, h, u))
    | inl u ↦ elim (Bool-cases (is_nonempty e.type)) [
      | inr v ↦ absurd (ground (arith, h, u, v))
      | inl v ↦ elim (Result-cases (json.dumps true (event_record e))) [
        | inr (x, w) ↦ absurd (ground (arith, h, u, v, w))
        | inl (l, w) ↦ (l, w, v, ground (arith, h, u, v, w))
      ]
    ]
  ]

  append-Transcript :
      (s : String) (es : List SessionEvent) (e : SessionEvent) (d d' : Disk)
      → Transcript json s es d
      → append json written e d ≡ (d', ok tt)
      → Transcript json s (if str_eq e.session_id s then es ++ e ∷ [] else es) d'
  append-Transcript s es e d d' t h =
      let (l, w, v, f) = append-inversion e d d' h in
      elim (Bool-cases (str_eq e.session_id s)) [
        | inl same ↦
            let i : e.session_id ≡ s = (eq_iff e.session_id s).0 same in
            rw (f, same)
              (write-Transcript s es d e l t i
                (subst (λ (j : String). Holds json j (l ∷ []) (e ∷ [])) i (record_line e l w v)))
        | inr other ↦
            rw (f, other) (other-Transcript s es d e.session_id (str_append l "\n") t other)
      ]

-- These appends all return, one after the other.
abbrev pub Appends : Json → Disk → List SessionEvent → Disk → Type 0
Appends json d [] d' = d ≡ d'
Appends json d (e ∷ es) d' =
    (m : Disk) × (append json written e d ≡ (m, ok tt)) × Appends json m es d'

abbrev pub of_session : String → List SessionEvent → List SessionEvent
of_session s es = keep (λ e. str_eq e.session_id s) es

module _ (json : Json) (laws : IsJson json) where
  Appends-Transcript :
      (s : String) (fs es : List SessionEvent) (d d' : Disk)
      → Transcript json s fs d
      → Appends json d es d'
      → Transcript json s (fs ++ of_session s es) d'
  Appends-Transcript s fs [] d d' t a = subst (Transcript json s (fs ++ [])) a (rw append-nil t)
  Appends-Transcript s fs (e ∷ es) d d' t (m, h, a) =
      subst (λ (gs : List SessionEvent). Transcript json s gs d') (regroup (str_eq e.session_id s))
        (Appends-Transcript s (if str_eq e.session_id s then fs ++ e ∷ [] else fs) es m d'
          (append-Transcript json laws s fs e d m t h) a)
    where
      regroup :
          (b : Bool)
          → (if b then fs ++ e ∷ [] else fs) ++ of_session s es
            ≡ fs ++ (if b then e ∷ of_session s es else of_session s es)
      regroup true = append_assoc fs (e ∷ []) (of_session s es)
      regroup false = refl

  -- After appends that all returned, to an empty store, the transcript of a session reads back as
  -- the events that were appended for it, in order.
  pub read-Appends :
      (s : String) (es : List SessionEvent) (d : Disk)
      → is_safe_session_id s ≡ true
      → has_char 0 s ≡ false
      → Appends json [] es d
      → read json d s ≡ ok (of_session s es)
  unfolding find_entry
  read-Appends s es d safe null a = read-Transcript json laws s (of_session s es) d safe null (
      Appends-Transcript s [] es [] d (record { lines = []; holds = tt; stored = inl (refl, refl) })
        a)

write_line-written :
    (io : WriteOutcome) (s t : String) (d d' : Disk)
    → write_line io s t d ≡ (d', ok tt)
    → write_line written s t d ≡ (d', ok tt)
unfolding write_line
write_line-written written s t d d' h = h
write_line-written refused s t d d' h = absurd (cc)
write_line-written (torn part) s t d d' h = absurd (cc)

-- An append that returns has written the whole line.
pub append-written :
    (json : Json) (io : WriteOutcome) (e : SessionEvent) (d d' : Disk)
    → append json io e d ≡ (d', ok tt)
    → append json written e d ≡ (d', ok tt)
unfolding append append_checked append_encoded
append-written json io e d d' h = elim (Result-cases (check_event e)) [
  | inr (x, p) ↦ absurd (ground (arith, h, p))
  | inl (tt, p) ↦ elim (Result-cases (json.dumps true (event_record e))) [
    | inr (x, q) ↦ absurd (ground (arith, h, p, q))
    | inl (l, q) ↦ ground (
      arith,
      p,
      q,
      write_line-written io e.session_id (str_append l "\n") d d' (ground (arith, h, p, q)),
    )
  ]
]
