-- ===== src/Cli/Status.antt =====
-- How the commands of cli.py end.
use astraship.Base.{◌≡◌, false, List, [], ◌∷◌}
use astraship.Errors.{Error, Message, is_astraship_error}
use astraship.Value.{Value}
use astraship.Value.Json.{Json}
use astraship.Cli.{exits, raises, waits, Run, ended}

-- How a command may end: without an error and with status 0; with one line of error and status 1; by
-- an exception that is none of Astraship's; or it still waits.
pub data IsReported : Run → Type 0 where
  done : {lines : List Message} → IsReported (ended lines (exits 0))
  failed :
      {lines : List Message} {line : Message}
      → IsReported (record { out = lines; errors = line ∷ []; ending = exits 1 })
  escaped :
      {lines : List Message} {e : Error}
      → is_astraship_error e.class ≡ false
      → IsReported (ended lines (raises e))
  waiting : {lines : List Message} → IsReported (ended lines waits)

-- A run before its exception is reported.
pub data IsPlain : Run → Type 0 where
  done : {lines : List Message} → IsPlain (ended lines (exits 0))
  raised : {lines : List Message} {e : Error} → IsPlain (ended lines (raises e))
  waiting : {lines : List Message} → IsPlain (ended lines waits)
