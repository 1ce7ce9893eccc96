-- ===== src/Persistence.antt =====
-- persistence.py: append-only transcripts of session events, one file for each session. The store is
-- the directory's files; how a write ends, and what the disk refuses, are arguments.
pub mod Lines
pub mod RoundTrip
pub mod Query
pub mod Listing
mod Tests
use Prim.Native.String.{◌++◌ as str_append}
use mathlib.Core.Option
use astraship.Base.{
  ℕ, zero, suc, ◌+◌, String, ◌≡◌, Bool, true, false, not, ◌&&◌, ◌||◌, Option, none, some, List, [],
  ◌∷◌, ◌++◌, str_eq, ◌==◌, leb, if◌then◌else◌, take, drop, keep, map,
}
use astraship.Base.Int.{ℤ, pos, negsuc}
use astraship.Base.Text.{is_nonempty, is_blank, has_char, str_leb}
use astraship.Errors.{
  ErrorClass, Error, Message, lit, caught, nat, Result, ok, err, raise, raise_if, raise_f, ◌>>=◌,
  ◌>>◌, session_persistence, value_error, os_error, type_error, unicode_error,
}
use astraship.Value.{
  Value, null, bool, int, str, obj, Fields, end, field, get, get_or_null, as_obj, as_str,
}
use astraship.Value.Json.{Json}
use astraship.Base.Sorting.{insert_text, sort_texts}
use Lines.{lines_of}

-- `SessionEvent` of session.py.
pub record SessionEvent : Type 0 where
  pub session_id : String
  pub type : String
  pub info : Fields

-- An entry `stem.jsonl` of the directory. The content is `none` where it cannot be read as UTF-8.
pub record Entry : Type 0 where
  pub stem : String
  pub is_file : Bool
  pub content : Option String

abbrev pub Disk : Type 0
Disk = List Entry

-- `_is_safe_session_id`
unfoldable pub is_safe_session_id : String → Bool
is_safe_session_id s =
    is_nonempty s
    && not (str_eq s "." || str_eq s "..")
    && not (has_char b'/' s)
    && not (has_char 92 s)

-- `_validate_session_id`
unfoldable pub validate_session_id : String → Result (Unit {0})
unfolding is_safe_session_id
validate_session_id s =
    raise_if (not (is_safe_session_id s)) session_persistence "invalid session ID"

unfoldable pub find_entry : String → Disk → Option Entry
find_entry s [] = none
find_entry s (e ∷ d) = if str_eq e.stem s then some e else find_entry s d

-- Writing to a file that is not there makes it.
unfoldable pub append_text : String → String → Disk → Disk
append_text s t [] = record { stem = s; is_file = true; content = some t } ∷ []
append_text s t (e ∷ d) =
    if str_eq e.stem s
    then record e { content = Option.map (λ c. str_append c t) e.content } ∷ d
    else e ∷ append_text s t d

abbrev pub event_record : SessionEvent → Value
event_record e = obj (
    field "sessionId" (str e.session_id)
      (field "type" (str e.type) (field "data" (obj e.info) end)))

-- How the file operations of an append end: they are done; the directory or the file cannot be
-- opened; or a part of the text reaches the file, and then the disk fails.
pub data WriteOutcome : Type 0 where
  written refused : WriteOutcome
  torn : String → WriteOutcome

abbrev pub failed_append : Error
failed_append = record {
  class = session_persistence;
  message = lit "failed to append session event: " ∷ caught ∷ [];
}

write_line : WriteOutcome → String → String → Disk → Disk × Result (Unit {0})
unfolding append_text
write_line written s t d = (append_text s t d, ok tt)
write_line refused s t d = (d, err failed_append)
write_line (torn part) s t d = (append_text s part d, err failed_append)

-- `except (OSError, TypeError, ValueError)`
or_failed : Error → Error
or_failed e = elim e.class [
  | os_error ↦ failed_append
  | type_error ↦ failed_append
  | value_error ↦ failed_append
  | unicode_error ↦ failed_append
  | _ ↦ e
]

check_event : SessionEvent → Result (Unit {0})
unfolding validate_session_id
check_event e =
    validate_session_id e.session_id
    >> raise_if (not (is_nonempty e.type)) session_persistence
        "session event type must be non-empty"

append_encoded : WriteOutcome → SessionEvent → Disk → Result String → Disk × Result (Unit {0})
unfolding write_line or_failed
append_encoded io e d (err x) = (d, err (or_failed x))
append_encoded io e d (ok s) = write_line io e.session_id (str_append s "\n") d

append_checked :
    Json → WriteOutcome → SessionEvent → Disk → Result (Unit {0}) → Disk × Result (Unit {0})
unfolding append_encoded
append_checked json io e d (err x) = (d, err x)
append_checked json io e d (ok u) = append_encoded io e d (json.dumps true (event_record e))

-- `JsonlSessionStore.append`. A file name with a null character is an ordinary refusal here: the
-- ValueError of `open` is caught.
unfoldable pub append : Json → WriteOutcome → SessionEvent → Disk → Disk × Result (Unit {0})
unfolding check_event append_checked
append json io e d = append_checked json io e d (check_event e)

abbrev at_line : ErrorClass → String → ℕ → String → Error
at_line c before n after = record { class = c; message = lit before ∷ nat n ∷ lit after ∷ [] }

-- The tests on one record of a transcript.
record_data : String → ℕ → String → Value → Result SessionEvent
record_data s n t (obj info) = ok (record { session_id = s; type = t; info = info })
record_data s n t _ =
    err
      (at_line session_persistence "session event data object at line " n " must be a data object")

record_type : String → ℕ → Fields → Value → Result SessionEvent
unfolding record_data
record_type s n fs (str t) =
    if is_nonempty t
    then record_data s n t (get_or_null fs "data")
    else err (at_line session_persistence "session event type at line " n " must be non-empty")
record_type s n fs _ =
    err (at_line session_persistence "session event type at line " n " must be non-empty")

record_session : String → ℕ → Fields → Value → Result SessionEvent
unfolding record_type
record_session s n fs (str i) =
    if str_eq i s
    then record_type s n fs (get_or_null fs "type")
    else err (at_line session_persistence "session ID mismatch in session transcript at line " n "")
record_session s n fs _ =
    err (at_line session_persistence "session ID mismatch in session transcript at line " n "")

parse_fields : String → ℕ → Fields → Result SessionEvent
unfolding record_session
parse_fields s n fs = record_session s n fs (get_or_null fs "sessionId")

parse_record : String → ℕ → Option Value → Result SessionEvent
unfolding parse_fields
parse_record s n none =
    err (at_line session_persistence "malformed JSON in session transcript at line " n "")
parse_record s n (some (obj fs)) = parse_fields s n fs
parse_record s n (some v) =
    err (at_line session_persistence "session record at line " n " must be an object")

parse_line : Json → String → ℕ → String → Result SessionEvent
unfolding parse_record
parse_line json s n line =
    if is_blank line
    then err (at_line session_persistence "blank line in session transcript at line " n "")
    else parse_record s n (json.loads line)

-- The loop of `read`; the first bad line ends it.
unfoldable pub parse_lines : Json → String → ℕ → List String → Result (List SessionEvent)
unfolding parse_line
parse_lines json s n [] = ok []
parse_lines json s n (line ∷ rest) = do
  e ← parse_line json s n line
  es ← parse_lines json s (suc n) rest
  ok (e ∷ es)

read_content : Json → String → Option String → Result (List SessionEvent)
unfolding parse_lines lines_of
read_content json s none =
    raise_f session_persistence (lit "failed to read session transcript: " ∷ caught ∷ [])
read_content json s (some c) = parse_lines json s 1 (lines_of c)

-- `path.open("r")`. A null character in the name is a ValueError, which the code does not catch.
unfoldable pub read_entry : Json → Disk → String → Result (List SessionEvent)
unfolding read_content find_entry
read_entry json d s =
    if has_char 0 s
    then raise value_error "embedded null byte"
    else elim (find_entry s d) [ none ↦ ok [] | some e ↦ read_content json s e.content ]

-- `JsonlSessionStore.read`
unfoldable pub read : Json → Disk → String → Result (List SessionEvent)
unfolding validate_session_id read_entry
read json d s = validate_session_id s >> read_entry json d s

-- `Path.stem`: a name whose only full stop is its first character is its own stem.
unfoldable pub path_stem : Entry → String
path_stem e = if str_eq e.stem "" then ".jsonl" else e.stem

-- `JsonlSessionStore.list_sessions`
unfoldable pub list_sessions : Disk → List String
unfolding is_safe_session_id sort_texts path_stem
list_sessions d =
    sort_texts (map path_stem (keep (λ e. e.is_file && is_safe_session_id (path_stem e)) d))

-- `offset` and `limit` may be any object.
nonnegative : Value → Option ℕ
nonnegative (int (pos n)) = some n
nonnegative _ = none

positive : Value → Option (Option ℕ)
positive null = some none
positive (int (pos (suc n))) = some (some (suc n))
positive _ = none

-- `events[offset:end]`
unfoldable pub page {ℓ} : {A : Type ℓ} → ℕ → Option ℕ → List A → List A
page offset none es = drop offset es
page offset (some limit) es = drop offset (take (offset + limit) es)

abbrev pub of_type : Option String → List SessionEvent → List SessionEvent
of_type none es = es
of_type (some t) es = keep (λ e. str_eq e.type t) es

check_filter : Option String → Result (Unit {0})
check_filter none = ok tt
check_filter (some t) =
    raise_if (not (is_nonempty t)) session_persistence "event type filter must be non-empty"

check_offset : Value → Result ℕ
unfolding nonnegative
check_offset v = elim (nonnegative v) [
  | none ↦ raise session_persistence "query offset must be a non-negative integer"
  | some n ↦ ok n
]

check_limit : Value → Result (Option ℕ)
unfolding positive
check_limit v = elim (positive v) [
  | none ↦ raise session_persistence "query limit must be a positive integer"
  | some l ↦ ok l
]

-- `JsonlSessionStore.query`
unfoldable pub query :
    Json → Disk → String → Option String → Value → Value → Result (List SessionEvent)
unfolding check_filter check_offset check_limit page
query json d s event_type offset limit = do
  check_filter event_type
  n ← check_offset offset
  l ← check_limit limit
  es ← read json d s
  ok (page n l (of_type event_type es))
