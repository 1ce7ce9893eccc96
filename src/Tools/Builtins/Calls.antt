-- ===== src/Tools/Builtins/Calls.antt =====
-- `builtin_file_tools` of tools/builtins.py: the definitions of the tools, and their executors.
use astraship.Base.{ℕ, suc, String, Bool, true, false, not, none, some, List, [], ◌∷◌, ◌==◌}
use astraship.Base.Int.{ℤ, pos}
use astraship.Base.Text.{is_nonempty}
use astraship.Errors.{Result, ok, err, raise, raise_f, repr, ◌>>=◌, value_error, key_error}
use astraship.Value.{
  Value, null, bool, int, float, str, arr, obj, nil, cons, Fields, end, field, finite, get,
}
use astraship.Tools.Schema.Node.{Regex}
use astraship.Tools.Types.{ToolContext, ToolDefinition, make_definition}
use astraship.Tools.Builtins.Paths.{FilePath, parts}
use astraship.Tools.Builtins.{Files, Host, Io, read_file, write_file, list_files}

pub record Limits : Type 0 where
  pub max_read_bytes : ℕ
  pub max_list_results : ℕ

limit_of : String → ℤ → Result ℕ
limit_of message (pos (suc n)) = ok (suc n)
limit_of message _ = raise value_error message

-- The two tests at the head of `builtin_file_tools`.
unfoldable pub make_limits : ℤ → ℤ → Result Limits
unfolding limit_of
make_limits max_read_bytes max_list_results = do
  bytes ← limit_of "max_read_bytes must be greater than zero" max_read_bytes
  results ← limit_of "max_list_results must be greater than zero" max_list_results
  ok (record { max_read_bytes = bytes; max_list_results = results })

abbrev pub path_schema : Value
path_schema = obj (field "type" (str "string") (field "minLength" (int (pos 1)) end))

abbrev pub of_type : String → Value
of_type t = obj (field "type" (str t) end)

-- A closed object schema with these properties, which are all required.
abbrev closed : Fields → Value → Value
closed properties required = obj (
    field "type" (str "object") (
      field "properties" (obj properties)
        (field "required" required (field "additionalProperties" (bool false) end))))

abbrev pub read_parameters : Value
read_parameters = closed (field "path" path_schema end) (arr (cons (str "path") nil))

abbrev pub write_properties : Fields
write_properties =
    field "path" path_schema
      (field "content" (of_type "string") (field "overwrite" (of_type "boolean") end))

abbrev pub write_parameters : Value
write_parameters =
    closed write_properties
      (arr (cons (str "path") (cons (str "content") (cons (str "overwrite") nil))))

abbrev pub list_parameters : Value
list_parameters = closed (field "pattern" path_schema end) (arr (cons (str "pattern") nil))

-- The definitions that `builtin_file_tools` returns; the fuel is that of `make_definition`.
unfoldable pub file_tools : Regex → ℕ → Result (List ToolDefinition)
file_tools re n = do
  reading ←
      make_definition re n (str "read_file") (str "Read a UTF-8 text file inside the workspace")
        read_parameters true (bool true)
  writing ←
      make_definition re n (str "write_file") (str "Write a UTF-8 text file inside the workspace")
        write_parameters true (bool false)
  listing ←
      make_definition re n (str "list_files") (str "List sorted files matching a workspace glob")
        list_parameters true (bool true)
  ok (reading ∷ writing ∷ listing ∷ [])

unfoldable pub builtin_file_tools : Regex → ℕ → ℤ → ℤ → Result (Limits × List ToolDefinition)
unfolding make_limits file_tools
builtin_file_tools re n max_read_bytes max_list_results = do
  limits ← make_limits max_read_bytes max_list_results
  tools ← file_tools re n
  ok (limits, tools)

-- `arguments["k"]`
unfoldable pub argument : Fields → String → Result Value
argument arguments k = elim (get arguments k) [
  | none ↦ raise_f key_error (repr k ∷ [])
  | some v ↦ ok v
]

-- `str(v)`
unfoldable pub to_text : Host → Value → String
to_text h (str s) = s
to_text h v = h.text_of v

-- `bool(v)`
unfoldable pub truth : Value → Bool
truth null = false
truth (bool b) = b
truth (int (pos n)) = not (n == 0)
truth (float (finite (pos n) k)) = not (n == 0)
truth (str s) = is_nonempty s
truth (arr nil) = false
truth (obj end) = false
truth _ = true

-- `context.workspace`, which is resolved.
abbrev pub workspace : ToolContext → FilePath
workspace context = parts context.workspace

module _ (h : Host) (limits : Limits) where
  unfoldable pub read_call : Io → Files → Fields → ToolContext → Result Value
  unfolding argument to_text
  read_call io fs arguments context = do
    path ← argument arguments "path"
    read_file h io fs (workspace context) (to_text h path) limits.max_read_bytes

  -- The arguments of `_write_file`, which are computed from left to right.
  unfoldable pub write_arguments : Fields → Result (String × String × Bool)
  unfolding argument to_text truth
  write_arguments arguments = do
    path ← argument arguments "path"
    content ← argument arguments "content"
    overwrite ← argument arguments "overwrite"
    ok (to_text h path, to_text h content, truth overwrite)

  unfoldable pub write_with :
      Io → Files → ToolContext → Result (String × String × Bool) → Files × Result Value
  write_with io fs context (err e) = (fs, err e)
  write_with io fs context (ok (path, content, overwrite)) =
      write_file h io fs (workspace context) path content overwrite

  unfoldable pub write_call : Io → Files → Fields → ToolContext → Files × Result Value
  unfolding write_arguments write_with
  write_call io fs arguments context = write_with io fs context (write_arguments arguments)

  unfoldable pub list_call : Files → Fields → ToolContext → Result Value
  unfolding argument to_text
  list_call fs arguments context = do
    pattern ← argument arguments "pattern"
    list_files h fs (workspace context) (to_text h pattern) limits.max_list_results

  -- A call of one of the tools.
  pub data Call : Type 0 where
    reads writes lists : Fields → Call

  unfoldable pub call_tool : Io → ToolContext → Files → Call → Files × Result Value
  unfolding read_call write_call list_call
  call_tool io context fs (reads arguments) = (fs, read_call io fs arguments context)
  call_tool io context fs (writes arguments) = write_call io fs arguments context
  call_tool io context fs (lists arguments) = (fs, list_call fs arguments context)

  -- Calls one after the other, each with what the disk refuses.
  unfoldable pub call_tools : ToolContext → Files → List (Io × Call) → Files
  unfolding call_tool
  call_tools context fs [] = fs
  call_tools context fs ((io, call) ∷ more) =
      call_tools context (call_tool io context fs call).0 more
