-- ===== src/Persistence/Tests.antt =====
-- A small store, and the theorems of persistence.py at it.
use mathlib.Core.List.{Permᴰ}
use astraship.Base.{
  ◌≤◌, String, ◌≡◌, refl, ◌⊎◌, true, false, ◌&&◌, none, some, [], ◌∷◌, length, exists, str_eq,
  arith,
}
use astraship.Base.Int.{pos}
use astraship.Base.Text.{is_blank, is_space}
use astraship.Errors.{ok}
use astraship.Value.{null, int, end, get}
use astraship.Value.Json.{Json}
use astraship.Value.Json.Sample.{codec, codec-IsJson, dumps_one, loads_one}
use astraship.Persistence.Lines.{lines_of}
use astraship.Persistence.{
  SessionEvent, Entry, Disk, append, append_text, event_record, find_entry, is_safe_session_id,
  path_stem, list_sessions, parse_lines, query, read,
}
use astraship.Persistence.RoundTrip.{Appends, of_session, read-Appends}
use astraship.Persistence.Query.{ReadsAll, read-ReadsAll, query-tiles}
use astraship.Base.Sorting.{IsSorted}
use astraship.Persistence.Listing.{is_listed, list_sessions-IsSorted, list_sessions-perm}

abbrev started : SessionEvent
started = record { session_id = "s"; type = "turn.started"; info = end }

abbrev json : Json
json = codec (event_record started)

abbrev transcript : Entry
transcript = record { stem = "s"; is_file = true; content = some "{}\n{}\n" }

abbrev store : Disk
store = transcript ∷ []

append_twice : Appends json [] (started ∷ started ∷ []) store
unfolding append append_text dumps_one is_safe_session_id
append_twice =
    ((record { stem = "s"; is_file = true; content = some "{}\n" }) ∷ [], refl, (store, refl, refl))

read-store : read json store "s" ≡ ok (started ∷ started ∷ [])
unfolding read find_entry is_safe_session_id lines_of loads_one get is_blank parse_lines is_space
read-store = refl

read-Appends_example : read json store "s" ≡ ok (of_session "s" (started ∷ started ∷ []))
unfolding is_safe_session_id
read-Appends_example =
    read-Appends json (codec-IsJson (event_record started)) "s" (started ∷ started ∷ []) store refl
      refl append_twice

read-ReadsAll_example :
    (is_safe_session_id "s" ≡ true)
    × (((find_entry "s" store ≡ none) × (started ∷ started ∷ [] ≡ []))
        ⊎ ((x : Entry) × (c : String) × (find_entry "s" store ≡ some x)
            × (x.content ≡ some c)
            × ReadsAll json "s" (lines_of c) (started ∷ started ∷ [])))
read-ReadsAll_example = read-ReadsAll json store "s" (started ∷ started ∷ []) read-store

first_page : query json store "s" none (int (pos 0)) (int (pos 1)) ≡ ok (started ∷ [])
unfolding query
first_page = ground (arith, read-store)

second_page : query json store "s" none (int (pos 1)) null ≡ ok (started ∷ [])
unfolding query
second_page = ground (arith, read-store)

query-tiles_example :
    (query json store "s" none (int (pos 0)) null ≡ ok (started ∷ started ∷ []))
    × (length (started ∷ []) ≤ 1)
query-tiles_example =
    query-tiles json store "s" none 0 0 (started ∷ []) (started ∷ []) first_page second_page

abbrev directory : Entry
directory = record { stem = "a"; is_file = false; content = none }

list_sessions-IsSorted_example :
    IsSorted (list_sessions (transcript ∷ directory ∷ []))
    × ((x : String)
        → exists (λ t. str_eq t x) (list_sessions (transcript ∷ directory ∷ []))
          ≡ exists (λ e. is_listed e && str_eq (path_stem e) x) (transcript ∷ directory ∷ []))
list_sessions-IsSorted_example = list_sessions-IsSorted (transcript ∷ directory ∷ [])

-- A file whose name is the suffix alone is listed under that name.
bare_suffix :
    list_sessions (record { stem = ""; is_file = true; content = some "" } ∷ []) ≡ ".jsonl" ∷ []
unfolding list_sessions
bare_suffix = refl

list_sessions-perm_example :
    list_sessions (transcript ∷ directory ∷ []) ≡ list_sessions (directory ∷ transcript ∷ [])
list_sessions-perm_example = list_sessions-perm (Permᴰ.swap refl refl)
