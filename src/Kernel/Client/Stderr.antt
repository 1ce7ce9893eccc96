-- ===== src/Kernel/Client/Stderr.antt =====
-- `_read_stderr` of kernel/client.py, and what the failures of the process tell of it. A line is the
-- text that the bytes decode to, with the replacement character where they are no UTF-8.
pub mod Tail
mod Tests
use Prim.Native.Char.{code}
use Prim.Native.String.{String, [], ◌∷◌, ◌++◌ as str_append}
use astraship.Base.{ℕ, ◌-◌, Bool, true, false, ◌&&◌, List, length, drop, if◌then◌else◌}
use mathlib.Core.List.{[], ◌∷◌, ◌++◌}
use astraship.Base.Int.{ℤ}
use astraship.Base.Text.{is_nonempty, is_space}
use astraship.Errors.{Message, lit, text, int}

-- `str.rstrip`
unfoldable pub rstrip : String → String
unfolding is_space
rstrip [] = []
rstrip (c ∷ s) =
    let rest = rstrip s in
    if is_nonempty rest then c ∷ rest else if is_space (code c) then [] else c ∷ []

-- `append` of a deque with `maxlen`, which lets go of what is oldest.
unfoldable pub append_bounded : ℕ → String → List String → List String
append_bounded maxlen x xs = let all = xs ++ x ∷ [] in drop (length all - maxlen) all

unfoldable pub read_stderr : ℕ → List String → List String → List String
unfolding append_bounded rstrip
read_stderr maxlen tail [] = tail
read_stderr maxlen tail (line ∷ lines) =
    read_stderr maxlen (append_bounded maxlen (rstrip line) tail) lines

-- `" | ".join`
unfoldable pub join_lines : List String → String
join_lines [] = ""
join_lines (x ∷ xs) =
    let rest = join_lines xs in elim xs [ [] ↦ x | y ∷ ys ↦ str_append x (str_append " | " rest) ]

-- The detail in `_watch_process` and `_process_failure`.
unfoldable pub exit_detail : ℤ → List String → Message
unfolding join_lines
exit_detail returncode tail =
    let stderr = join_lines tail in
    lit "Felix process exited with code "
    ∷ int returncode
    ∷ (if is_nonempty stderr then lit ": " ∷ text stderr ∷ [] else [])
