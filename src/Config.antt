-- ===== src/Config.antt =====
-- config.py: the configuration of the kernel client, and where the Felix command is found.
pub mod Resolution
mod Tests
use astraship.Base.{
  String, Bool, true, false, not, ◌&&◌, Option, none, some, List, [], ◌∷◌, every, if◌then◌else◌,
}
use astraship.Base.Int.{ℤ, pos, leb_ℤ}
use astraship.Base.Text.{is_nonempty, is_blank}
use astraship.Errors.{
  ErrorClass, Error, lit, caught, Result, ok, err, raise, raise_if, ◌>>=◌, ◌>>◌, kernel_config,
  kernel_not_found, value_error,
}
use astraship.Value.{Float, finite, nan, infinity, minus_infinity}

pub record KernelConfig : Type 0 where
  pub command : Option (List String)
  pub request_timeout : Float
  pub shutdown_timeout : Float
  pub stderr_tail_lines : ℤ

-- `x <= 0`, which is false for a NaN.
unfoldable pub is_nonpositive : Float → Bool
is_nonpositive (finite n k) = leb_ℤ n (pos 0)
is_nonpositive minus_infinity = true
is_nonpositive infinity = false
is_nonpositive nan = false

-- `KernelConfig.__post_init__`
unfoldable pub make_config : Option (List String) → Float → Float → ℤ → Result KernelConfig
unfolding is_nonpositive
make_config command request_timeout shutdown_timeout stderr_tail_lines = do
  raise_if (is_nonpositive request_timeout) kernel_config
      "request_timeout must be greater than zero"
  raise_if (is_nonpositive shutdown_timeout) kernel_config
      "shutdown_timeout must be greater than zero"
  raise_if (leb_ℤ stderr_tail_lines (pos 0)) kernel_config
      "stderr_tail_lines must be greater than zero"
  ok (record {
    command = command;
    request_timeout = request_timeout;
    shutdown_timeout = shutdown_timeout;
    stderr_tail_lines = stderr_tail_lines;
  })

-- What the resolution asks of the machine: the environment, `shlex.split` in the mode of its
-- platform (None is not passed to it), and `shutil.which`.
pub record Machine : Type 0 where
  pub environ : String → Option String
  pub is_windows : Bool
  pub split : Bool → String → Result (List String)
  pub which : String → Option String

abbrev pub command_variable : String
command_variable = "ASTRASHIP_FELIX_COMMAND"

is_nonempty_list : List String → Bool
is_nonempty_list [] = false
is_nonempty_list (s ∷ ss) = true

-- `not command or not all(command)` is what this refuses.
unfoldable pub is_command : List String → Bool
unfolding is_nonempty_list
is_command command = is_nonempty_list command && every is_nonempty command

-- `except ValueError`
unfoldable pub or_invalid : Error → Error
or_invalid e = elim e.class [
  | value_error ↦ record {
    class = kernel_config;
    message = lit "invalid ASTRASHIP_FELIX_COMMAND: " ∷ caught ∷ [];
  }
  | _ ↦ e
]

unfoldable pub split_command : Result (List String) → Result (List String)
unfolding or_invalid is_nonempty_list
split_command (err e) = err (or_invalid e)
split_command (ok command) =
    raise_if (not (is_nonempty_list command)) kernel_config
      "ASTRASHIP_FELIX_COMMAND cannot be empty"
    >> ok command

unfoldable pub from_variable : Machine → String → Result (List String)
unfolding split_command
from_variable m raw =
    raise_if (is_blank raw) kernel_config "ASTRASHIP_FELIX_COMMAND cannot be empty"
    >> split_command (m.split (not m.is_windows) raw)

unfoldable pub from_path : Machine → Result (List String)
from_path m = elim (m.which "felix-server") [
  | some executable ↦ ok (executable ∷ [])
  | none ↦
      raise kernel_not_found
        "Felix kernel not found; configure kernel.command, set ASTRASHIP_FELIX_COMMAND, or install felix-server on PATH"
]

-- `resolve_kernel_command`
unfoldable pub resolve_kernel_command : KernelConfig → Machine → Result (List String)
unfolding is_command from_variable from_path
resolve_kernel_command config m = elim config.command [
  | some command ↦
      raise_if (not (is_command command)) kernel_config "kernel.command cannot be empty"
      >> ok command
  | none ↦ elim (m.environ command_variable) [ some raw ↦ from_variable m raw | none ↦ from_path m ]
]
