-- ===== src/Config/Tests.antt =====
-- Runs of config.py, and an instance of each of its theorems.
use astraship.Base.{
  String, ◌≡◌, refl, ◌⊎◌, inl, inr, ◌↔◌, Bool, false, Option, none, some, List, [], ◌∷◌, arith,
  str_eq, if◌then◌else◌, Bool-cases,
}
use astraship.Base.Int.{pos}
use astraship.Base.Text.{has_char, is_blank, is_space}
use astraship.Errors.{
  lit, Error, Result, ok, err, raise, kernel_config, kernel_not_found, value_error,
}
use astraship.Value.{finite}
use astraship.Config.{KernelConfig, Machine, make_config, resolve_kernel_command}
use astraship.Config.Resolution.{
  Source, IsUnset, resolve_kernel_command_iff, resolve_kernel_command-errors,
}

-- A text without a quotation mark is one word.
abbrev one_word : String → Result (List String)
one_word s = if has_char 34 s then raise value_error "No closing quotation" else ok (s ∷ [])

abbrev machine : Option String → Option String → Machine
machine variable found = record {
  environ = λ name. if str_eq name "ASTRASHIP_FELIX_COMMAND" then variable else none;
  is_windows = false;
  split = λ posix s. one_word s;
  which = λ name. found;
}

abbrev config : Option (List String) → KernelConfig
config command = record {
  command = command;
  request_timeout = finite (pos 30) 0;
  shutdown_timeout = finite (pos 2) 0;
  stderr_tail_lines = pos 40;
}

make_config_tests :
    (make_config none (finite (pos 30) 0) (finite (pos 2) 0) (pos 40) ≡ ok (config none))
    × (make_config none (finite (pos 0) 3) (finite (pos 2) 0) (pos 40)
        ≡ raise kernel_config "request_timeout must be greater than zero")
    × (make_config none (finite (pos 30) 0) (finite (pos 2) 0) (pos 0)
        ≡ raise kernel_config "stderr_tail_lines must be greater than zero")
unfolding make_config
make_config_tests = (refl, refl, refl)

resolve_tests :
    (resolve_kernel_command (config (some ("a" ∷ []))) (machine (some "b") (some "c"))
      ≡ ok ("a" ∷ []))
    × (resolve_kernel_command (config (some ("" ∷ []))) (machine (some "b") (some "c"))
        ≡ raise kernel_config "kernel.command cannot be empty")
    × (resolve_kernel_command (config none) (machine (some " ") (some "c"))
        ≡ raise kernel_config "ASTRASHIP_FELIX_COMMAND cannot be empty")
    × (resolve_kernel_command (config none) (machine none (some "c")) ≡ ok ("c" ∷ []))
unfolding resolve_kernel_command is_blank is_space
resolve_tests = (refl, refl, refl, refl)

resolve_kernel_command_iff_example :
    (resolve_kernel_command (config none) (machine (some "b") (some "c")) ≡ ok ("b" ∷ []))
    ↔ Source (config none) (machine (some "b") (some "c")) ("b" ∷ [])
resolve_kernel_command_iff_example =
    resolve_kernel_command_iff (config none) (machine (some "b") (some "c")) ("b" ∷ [])

one_word-errors :
    (posix : Bool) (s : String) (x : Error) → one_word s ≡ err x → x.class ≡ value_error
one_word-errors posix s x h = elim (Bool-cases (has_char 34 s)) [
  | inl b ↦ ground (arith, h, b)
  | inr b ↦ absurd (ground (arith, h, b))
]

abbrev not_found : Error
not_found = record {
  class = kernel_not_found;
  message =
      lit
        "Felix kernel not found; configure kernel.command, set ASTRASHIP_FELIX_COMMAND, or install felix-server on PATH"
      ∷ [];
}

finds_nothing : resolve_kernel_command (config none) (machine none none) ≡ err not_found
unfolding resolve_kernel_command
finds_nothing = refl

errors-machine :
    (not_found.class ≡ kernel_config)
    ⊎ ((not_found.class ≡ kernel_not_found) × IsUnset (config none) (machine none none))
errors-machine =
    resolve_kernel_command-errors (config none) (machine none none) not_found one_word-errors
      finds_nothing
