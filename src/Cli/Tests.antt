-- ===== src/Cli/Tests.antt =====
-- Runs of cli.py, and an instance of each theorem.
use astraship.Base.{ℕ, String, ◌≡◌, refl, false, none, some, List, [], ◌∷◌}
use astraship.Base.Int.{pos}
use astraship.Errors.{Error, lit, text, int, ok, session_overflow}
use astraship.Value.{Value, str, arr, of_list, end, field, get}
use astraship.Value.Json.{Json}
use astraship.Value.Json.Sample.{codec, dumps_one}
use astraship.Persistence.{query, read}
use astraship.Session.{Item, event, failure}
use astraship.Kernel.Client.Handshake.{InitializeResult}
use astraship.Cli.{Namespace, exits, raises, waits, ended, Kernel, run_prompt, session_replay, main}
use astraship.Cli.Output.{Turn, IsDone, run_prompt-Turn}

abbrev felix : InitializeResult
felix = record { protocol_version = pos 1; name = "felix"; version = "2"; capabilities = end }

abbrev kernel : Kernel
kernel = record {
  start = ok felix;
  stop = ok tt;
  create = ok tt;
  prompt = λ content. ok tt;
  close = ok tt;
}

abbrev assistant : Value → Item
assistant v =
    event (record { session_id = "s"; type = "assistant/message"; info = field "content" v end })

abbrev turn_end : Item
turn_end = event (record { session_id = "s"; type = "turn/end"; info = end })

abbrev items : List Item
items =
    assistant (str "hello") ∷ assistant (arr (of_list [])) ∷ turn_end ∷ assistant (str "late") ∷ []

abbrev overflow : Error
overflow = record { class = session_overflow; message = lit "full" ∷ [] }

abbrev arguments : String → String → Namespace
arguments command subcommand = record {
  command = some command;
  kernel_command = some subcommand;
  session_command = some subcommand;
  prompt = "hi";
  has_store = false;
  session_id = "s";
  event_type = none;
  offset = pos 0;
  limit = none;
}

run_tests :
    (run_prompt kernel "hi" items ≡ ended ((text "hello" ∷ []) ∷ []) (exits 0))
    × (run_prompt kernel "hi" (assistant (str "a") ∷ failure overflow ∷ [])
        ≡ ended ((text "a" ∷ []) ∷ []) (raises overflow))
    × (run_prompt kernel "hi" [] ≡ ended [] waits)
unfolding run_prompt get
run_tests = (refl, refl, refl)

main_tests :
    (main (codec (str "")) kernel (failure overflow ∷ []) [] [] (arguments "run" "")
      ≡ record { out = []; errors = (lit "astraship: " ∷ lit "full" ∷ []) ∷ []; ending = exits 1 })
    × (main (codec (str "")) kernel [] [] [] (arguments "kernel" "check")
        ≡ ended
            ((lit "Felix "
                ∷ text "felix"
                ∷ lit " "
                ∷ text "2"
                ∷ lit " (protocol "
                ∷ int (pos 1)
                ∷ lit ")"
                ∷ [])
              ∷ [])
            (exits 0))
unfolding main
main_tests = (refl, refl)

exits_well : (run_prompt kernel "hi" items).ending ≡ exits 0
unfolding run_prompt
exits_well = refl

run_prompt-Turn_example :
    (◌≡◌ {A = ℕ} 0 0) × IsDone kernel "hi" × Turn items (run_prompt kernel "hi" items).out
run_prompt-Turn_example = run_prompt-Turn kernel "hi" items 0 exits_well

abbrev json : Json
json = codec (arr (of_list []))

replays : (session_replay json [] "s" none (pos 0) none).ending ≡ exits 0
unfolding session_replay query dumps_one read
replays = refl
