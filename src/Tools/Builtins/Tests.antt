-- ===== src/Tools/Builtins/Tests.antt =====
-- Runs of tools/builtins.py on a small disk, and an instance of each theorem.
use astraship.Base.{
  ◌≤◌, String, ◌≡◌, refl, true, false, none, some, List, [], ◌∷◌, arith, if◌then◌else◌, drop,
}
use astraship.Base.Int.{pos}
use astraship.Base.Newlines.{translate}
use astraship.Errors.{ok, raise, raise_f, text, lit, value_error, file_exists, file_not_found}
use astraship.Value.{Value, bool, int, str, arr, of_list, obj, Fields, end, field, get}
use astraship.Tools.Schema.Node.{Regex}
use astraship.Tools.Schema.Check.{validate_arguments}
use astraship.Tools.Types.{ToolContext}
use astraship.Tools.Builtins.Paths.{FilePath, parts, relative, is_inside, validate_relative, parent}
use astraship.Tools.Builtins.{
  Files, directory, file, utf8, binary, Host, Io, written, put, read_file, write_file, write_result,
  list_files, resolve_path, utf8_size,
}
use astraship.Tools.Builtins.Calls.{
  Limits, make_limits, call_tools, write_arguments, writes, reads, write_parameters, workspace,
  Call,
}
use astraship.Tools.Builtins.Contained.{Confined, call_tools-Confined}
use astraship.Tools.Builtins.Writing.{Keeps, write_file-Keeps, read-write_file}
use astraship.Tools.Builtins.Reading.{read_file-Reads}
use astraship.Tools.Builtins.Listing.{IsListing, list_files-IsListing}
use astraship.Tools.Builtins.Accepted.{IsWrite, write_arguments-IsWrite}

-- The workspace /w holds a file, and a link `out` to /etc.
abbrev root : FilePath
root = "w" ∷ []

abbrev files : Files
files = put [] directory (
    put root directory (
      put ("w" ∷ "a" ∷ []) (file (utf8 "x\r\n"))
        (put ("w" ∷ "b" ∷ []) (file (binary 9)) (λ p. none))))

abbrev resolve : FilePath → FilePath
resolve p = if is_inside ("w" ∷ "out" ∷ []) p then "etc" ∷ drop 2 p else p

abbrev host : Host
host = record {
  resolve = λ p. ok (resolve p);
  glob = λ fs p pattern. (("w" ∷ "b" ∷ []) ∷ ("w" ∷ "a" ∷ []) ∷ ("w" ∷ "b" ∷ []) ∷ [], none);
  text_of = λ v. "?";
}

abbrev io : Io
io = record { directories = 5; write = written; read_fails = none }

path_tests :
    (parts "/a//b/./c/" ≡ "a" ∷ "b" ∷ "c" ∷ [])
    × (parts "" ≡ [])
    × (validate_relative "a/../b" ≡ raise value_error "file path must remain inside the workspace")
    × (validate_relative "/a" ≡ raise value_error "file path must be relative to the workspace")
    × (relative root ("w" ∷ "d" ∷ "e" ∷ []) ≡ "d/e")
unfolding parts validate_relative relative
path_tests = (refl, refl, refl, refl, refl)

abbrev read_result : Value
read_result = obj (field "path" (str "a") (field "content" (str "x\n") end))

read_tests :
    (read_file host io files root "a" 3 ≡ ok read_result)
    × (read_file host io files root "out/passwd" 3
        ≡ raise value_error "file path resolves outside the workspace")
    × (read_file host io files root "c" 3
        ≡ raise_f file_not_found (lit "file does not exist: " ∷ text "c" ∷ []))
unfolding read_file translate utf8_size relative put
read_tests = (refl, refl, refl)

write_tests :
    ((write_file host io files root "d/e" "héh" false).1
      ≡ ok (obj (field "path" (str "d/e") (field "bytes" (int (pos 4)) end))))
    × ((write_file host io files root "d/e" "héh" false).0 ("w" ∷ "d" ∷ []) ≡ some directory)
    × ((write_file host io files root "a" "" false).1
        ≡ raise_f file_exists (lit "file already exists: " ∷ text "a" ∷ []))
    × ((write_file host io files root "a/b" "" false).1 ≡ raise file_exists "File exists")
unfolding write_file utf8_size relative put parent
write_tests = (refl, refl, refl, refl)

limit_tests :
    (make_limits (pos 1) (pos 2) ≡ ok (record { max_read_bytes = 1; max_list_results = 2 }))
    × (make_limits (pos 0) (pos 2) ≡ raise value_error "max_read_bytes must be greater than zero")
unfolding make_limits
limit_tests = (refl, refl)

abbrev limits : Limits
limits = record { max_read_bytes = 100; max_list_results = 1 }

abbrev context : ToolContext
context = record { workspace = "/w"; metadata = [] }

abbrev arguments : Fields
arguments = field "path" (str "n") (field "content" (str "t") (field "overwrite" (bool true) end))

abbrev calls : List (Io × Call host limits)
calls = (io, writes arguments) ∷ (io, reads arguments) ∷ []

in_workspace : workspace context ≡ root
unfolding parts
in_workspace = refl

call_tools-Confined_example : Confined root files (call_tools host limits context files calls)
unfolding parts put
call_tools-Confined_example = call_tools-Confined host limits context files calls (refl, tt)

write_file-Keeps_example : Keeps files (write_file host io files root "a" "new" false).0
write_file-Keeps_example = write_file-Keeps host io files root "a" "new"

abbrev written_value : Value
written_value = obj (field "path" (str "d/e") (field "bytes" (int (pos 2)) end))

writes_a_file : (write_file host io files root "d/e" "\r\n" false).1 ≡ ok written_value
unfolding write_file utf8_size relative put parent
writes_a_file = refl

small : utf8_size "\r\n" ≤ 100
unfolding utf8_size
small = omega arith

read-write_file_example :
    (p : FilePath) × (resolve_path host root "d/e" ≡ ok p)
    × (write_result root p "\r\n" ≡ written_value)
    × (read_file host io (write_file host io files root "d/e" "\r\n" false).0 root "d/e" 100
        ≡ ok (
            obj (
              field "path"
                (str (relative root p))
                (field "content" (str (translate false "\r\n")) end))))
read-write_file_example =
    read-write_file host io io files root "d/e" "\r\n" false 100 written_value writes_a_file small
      refl

reads_a_file : read_file host io files root "a" 3 ≡ ok read_result
unfolding read_file translate utf8_size relative put
reads_a_file = refl

read_file-Reads_example :
    (p : FilePath) × (s : String) × (resolve_path host root "a" ≡ ok p)
    × (is_inside root p ≡ true)
    × (files p ≡ some (file (utf8 s)))
    × (utf8_size s ≤ 3)
    × (obj (field "path" (str (relative root p)) (field "content" (str (translate false s)) end))
        ≡ read_result)
read_file-Reads_example = read_file-Reads host io files root "a" 3 read_result reads_a_file

abbrev listed : Value
listed = obj (field "paths" (arr (of_list (str "a" ∷ []))) (field "truncated" (bool true) end))

lists_files : list_files host files root "*" 1 ≡ ok listed
unfolding list_files relative put
lists_files = refl

list_files-IsListing_example : IsListing host files root (host.glob files root "*").0 1 listed
list_files-IsListing_example = list_files-IsListing host files root "*" 1 listed lists_files

abbrev re : Regex
re = record { compiles = λ p. true; search = λ p s. true }

accepted : validate_arguments re 2 write_parameters (obj arguments) ≡ ok none
unfolding validate_arguments get
accepted = refl

write_arguments-IsWrite_example :
    (w : IsWrite arguments) × (write_arguments host limits arguments
      ≡ ok (w.path, w.content, w.overwrite))
write_arguments-IsWrite_example = write_arguments-IsWrite re 2 host limits arguments accepted
