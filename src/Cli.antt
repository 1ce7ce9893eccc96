-- ===== src/Cli.antt =====
-- cli.py: the commands of the command line, by what they print and their exit status. The parsed
-- arguments, what the client and its session answer, and the store on the disk are arguments.
pub mod Output
pub mod Status
mod Tests
use astraship.Base.{
  ℕ, String, Bool, true, false, ◌&&◌, Option, none, some, List, [], ◌∷◌, ◌++◌, str_eq,
  if◌then◌else◌, map,
}
use astraship.Base.Int.{ℤ, pos}
use astraship.Errors.{
  Error, Message, lit, text, int, Result, ok, err, ◌>>=◌, is_astraship_error, session_state, raise,
}
use astraship.Value.{Value, str, int, null, arr, obj, of_list, get}
use astraship.Value.Json.{Json}
use astraship.Persistence.{SessionEvent, Disk, event_record, list_sessions, query}
use astraship.Session.{Item, event, failure}
use astraship.Kernel.Client.Handshake.{InitializeResult}

-- The namespace that `build_parser().parse_args` returns; an option of another command is not there.
pub record Namespace : Type 0 where
  pub command : Option String
  pub kernel_command : Option String
  pub session_command : Option String
  pub prompt : String
  pub has_store : Bool
  pub session_id : String
  pub event_type : Option String
  pub offset : ℤ
  pub limit : Option ℤ

-- How a command ends: with an exit status, by an exception, or it still waits for an event.
pub data Ending : Type 0 where
  exits : ℕ → Ending
  raises : Error → Ending
  waits : Ending

-- What it has printed, to stdout and to stderr.
pub record Run : Type 0 where
  pub out : List Message
  pub errors : List Message
  pub ending : Ending

abbrev pub ended : List Message → Ending → Run
ended lines e = record { out = lines; errors = []; ending = e }

abbrev of_result {ℓ} : {A : Type ℓ} → Result A → (A → Run) → Run
of_result (err e) next = ended [] (raises e)
of_result (ok a) next = next a

-- What the client and its session do, apart from the events: `__aenter__` and `__aexit__` of the
-- client, `KernelSession.create`, `prompt` and `close` of the session.
pub record Kernel : Type 0 where
  pub start : Result InitializeResult
  pub stop : Result (Unit {0})
  pub create : Result (Unit {0})
  pub prompt : String → Result (Unit {0})
  pub close : Result (Unit {0})

-- `finally`, and the exit of an `async with`: an exception there takes the place of what was.
replaced : Error → Ending → Ending
replaced e waits = waits
replaced e x = raises e

unfoldable pub finally : Result (Unit {0}) → Run → Run
unfolding replaced
finally (ok u) r = r
finally (err e) r = record r { ending = replaced e r.ending }

abbrev pub version_line : InitializeResult → Message
version_line r =
    lit "Felix "
    ∷ text r.name
    ∷ lit " "
    ∷ text r.version
    ∷ lit " (protocol "
    ∷ int r.protocol_version
    ∷ lit ")"
    ∷ []

-- `_kernel_check`. Where `__aenter__` raises, `__aexit__` is not called.
unfoldable pub kernel_check : Kernel → Run
unfolding finally
kernel_check k = of_result k.start λ r. finally k.stop (ended (version_line r ∷ []) (exits 0))

-- The line that an event prints, if it prints one.
unfoldable pub line_of : SessionEvent → List Message
line_of e =
    if str_eq e.type "assistant/message"
    then elim (get e.info "content") [ some (str s) ↦ (text s ∷ []) ∷ [] | _ ↦ [] ]
    else []

abbrev pub is_end : SessionEvent → Bool
is_end e = str_eq e.type "turn/end"

abbrev pub and_print : List Message → Run → Run
and_print lines r = record r { out = lines ++ r.out }

-- The loop over `session.events()`, by the items that the queue of the session gives. Where they run
-- out, the loop waits.
unfoldable pub print_events : List Item → Run
unfolding line_of
print_events [] = ended [] waits
print_events (failure e ∷ items) = ended [] (raises e)
print_events (event e ∷ items) =
    let rest = print_events items in
    and_print (line_of e) (if is_end e then ended [] (exits 0) else rest)

-- The body of the `try` in `_run_prompt`.
prompt_and_print : Kernel → String → List Item → Run
unfolding print_events
prompt_and_print k content items = of_result (k.prompt content) λ u. print_events items

with_session : Kernel → String → List Item → Run
unfolding prompt_and_print finally
with_session k content items =
    of_result k.create λ u. finally k.close (prompt_and_print k content items)

-- `_run_prompt`. The store of the session is in what the session does.
unfoldable pub run_prompt : Kernel → String → List Item → Run
unfolding with_session
run_prompt k content items = of_result k.start λ r. finally k.stop (with_session k content items)

-- `_session_list`
unfoldable pub session_list : Disk → Run
session_list d = ended (map (λ s. text s ∷ []) (list_sessions d)) (exits 0)

abbrev pub as_value : Option ℤ → Value
as_value none = null
as_value (some n) = Value.int n

-- `_session_replay`
unfoldable pub session_replay : Json → Disk → String → Option String → ℤ → Option ℤ → Run
session_replay json d session_id event_type offset limit =
    of_result (query json d session_id event_type (Value.int offset) (as_value limit)) λ events.
      of_result (json.dumps true (arr (of_list (map event_record events))))
        λ line. ended ((text line ∷ []) ∷ []) (exits 0)

-- `except AstrashipError as exc`
reported : Run → Ending → Run
reported r (raises e) =
    if is_astraship_error e.class
    then record r { errors = r.errors ++ (lit "astraship: " ∷ e.message) ∷ []; ending = exits 1 }
    else r
reported r x = r

unfoldable pub report : Run → Run
unfolding reported
report r = reported r r.ending

abbrev pub is_command : Option String → String → Bool
is_command o s = elim o [ none ↦ false | some t ↦ str_eq t s ]

-- `main`, after the arguments are parsed; `help` is the text of `print_help`.
unfoldable pub main : Json → Kernel → List Item → Disk → Message → Namespace → Run
unfolding report kernel_check run_prompt session_list session_replay
main json k items d help args =
    if is_command args.command "kernel" && is_command args.kernel_command "check"
    then report (kernel_check k)
    else if is_command args.command "run"
    then report (run_prompt k args.prompt items)
    else if is_command args.command "session" && is_command args.session_command "list"
    then report (session_list d)
    else if is_command args.command "session" && is_command args.session_command "replay"
    then report (session_replay json d args.session_id args.event_type args.offset args.limit)
    else ended (help ∷ []) (exits 0)
