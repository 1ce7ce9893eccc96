-- ===== src/Kernel/Client/Stderr/Tests.antt =====
-- Three lines with a bound of two (kernel/client.py).
use astraship.Base.{◌≡◌, ◌-◌, ◌≤◌, refl, String, List, [], ◌∷◌, map, length, drop}
use astraship.Base.Int.{pos}
use astraship.Errors.{lit, int, text}
use astraship.Kernel.Client.Stderr.{rstrip, read_stderr, exit_detail}
use astraship.Kernel.Client.Stderr.Tail.{read_stderr-bounded}

abbrev lines : List String
lines = "first\n" ∷ "second \t\n" ∷ "\n" ∷ []

keeps_two : read_stderr 2 [] lines ≡ "second" ∷ "" ∷ []
unfolding read_stderr
keeps_two = refl

tells :
    exit_detail (pos 3) ("second" ∷ "" ∷ [])
    ≡ lit "Felix process exited with code " ∷ int (pos 3) ∷ lit ": " ∷ text "second | " ∷ []
unfolding exit_detail
tells = refl

read_stderr-bounded_example :
    (read_stderr 2 [] lines ≡ drop (length lines - 2) (map rstrip lines))
    × (length (read_stderr 2 [] lines) ≤ 2)
read_stderr-bounded_example = read_stderr-bounded 2 lines
