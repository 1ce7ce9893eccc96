-- ===== src/Tools/Builtins.antt =====
-- tools/builtins.py: the built-in file tools, over a file system as a function from paths. Symbolic
-- links are in what `Path.resolve` and `Path.glob` return, which are arguments, as is what the disk
-- refuses.
pub mod Paths
pub mod Calls
pub mod Contained
pub mod Reading
pub mod Listing
pub mod Accepted
mod Tests
pub mod Writing
use Prim.Native.Char.{code}
use astraship.Base.{
  ℕ, zero, suc, ◌+◌, String, ◌≡◌, Bool, true, false, not, ◌&&◌, ◌||◌, Option, none, some, List, [],
  ◌∷◌, ◌++◌, ltb, str_eq, if◌then◌else◌, length, take, exists, map,
}
use astraship.Base.Int.{ℤ, pos}
use astraship.Base.Sorting.{sort_texts}
use astraship.Base.Newlines.{translate}
use astraship.Errors.{
  Error, Message, lit, text, nat, Result, ok, err, raise, raise_f, raise_if, ◌>>=◌, ◌>>◌,
  value_error, key_error, os_error, file_not_found, file_exists,
}
use astraship.Value.{Value, bool, int, str, arr, obj, of_list, Fields, end, field, get}
use Paths.{FilePath, parts, validate_relative, require_contained, relative, parent, same_path}

-- The bytes of a file: those of a text in UTF-8, or a number of bytes that are none.
pub data File : Type 0 where
  utf8 : String → File
  binary : ℕ → File

pub data Node : Type 0 where
  directory : Node
  file : File → Node

-- What is at a path without symbolic links.
abbrev pub Files : Type 0
Files = FilePath → Option Node

unfoldable pub put : FilePath → Node → Files → Files
unfolding same_path
put p n fs q = if same_path p q then some n else fs q

-- The bytes of a character, and of a text.
char_size : ℕ → ℕ
char_size c = if ltb c 128 then 1 else if ltb c 2048 then 2 else if ltb c 65536 then 3 else 4

unfoldable pub utf8_size : String → ℕ
unfolding char_size
utf8_size String.[] = 0
utf8_size (String.◌∷◌ c s) = char_size (code c) + utf8_size s

-- `path.stat().st_size`
unfoldable pub file_size : File → ℕ
unfolding utf8_size
file_size (utf8 s) = utf8_size s
file_size (binary n) = n

-- `Path.resolve`, which may raise (on a loop of links); `Path.glob`, which yields paths and may then
-- raise; `str` of a value that is no text.
pub record Host : Type 0 where
  pub resolve : FilePath → Result FilePath
  pub glob : Files → FilePath → String → List FilePath × Option Error
  pub text_of : Value → String

-- How the disk answers a call: how many directories it lets it make; how the write of a file ends, or
-- the read.
pub data WriteOutcome : Type 0 where
  written refused : WriteOutcome
  torn : File → WriteOutcome

pub record Io : Type 0 where
  pub directories : ℕ
  pub write : WriteOutcome
  pub read_fails : Option Error

-- `_resolve_path`
unfoldable pub resolve_path : Host → FilePath → String → Result FilePath
unfolding validate_relative require_contained
resolve_path h root raw_path = do
  validate_relative raw_path
  resolved ← h.resolve (root ++ parts raw_path)
  require_contained root resolved
  ok resolved

-- `read_text` translates the ends of lines.
decoded : String → File → Result String
decoded raw_path (utf8 s) = ok (translate false s)
decoded raw_path (binary n) =
    raise_f value_error (lit "file is not valid UTF-8: " ∷ text raw_path ∷ [])

read_text : Io → String → File → Result String
unfolding decoded
read_text io raw_path f = elim io.read_fails [ some e ↦ err e | none ↦ decoded raw_path f ]

unfoldable pub read_node : Io → ℕ → String → Option Node → Result String
unfolding read_text file_size
read_node io max_bytes raw_path (some (file f)) =
    if ltb max_bytes (file_size f)
    then raise_f value_error (lit "file exceeds " ∷ nat max_bytes ∷ lit " byte limit" ∷ [])
    else read_text io raw_path f
read_node io max_bytes raw_path n =
    raise_f file_not_found (lit "file does not exist: " ∷ text raw_path ∷ [])

-- `_read_file`
unfoldable pub read_file : Host → Io → Files → FilePath → String → ℕ → Result Value
unfolding resolve_path read_node
read_file h io fs root raw_path max_bytes = do
  path ← resolve_path h root raw_path
  content ← read_node io max_bytes raw_path (fs path)
  ok (obj (field "path" (str (relative root path)) (field "content" (str content) end)))

-- `mkdir(parents=True, exist_ok=True)`, from the root down: `done` is there, `rest` is looked at.
unfoldable pub make_directories : ℕ → Files → FilePath → FilePath → Files × Result (Unit {0})
unfolding put
make_directories n fs done [] = (fs, ok tt)
make_directories n fs done (name ∷ rest) = elim (fs (done ++ name ∷ [])) [
  | some directory ↦ make_directories n fs (done ++ name ∷ []) rest
  | some (file f) ↦ elim rest [
    | [] ↦ (fs, raise file_exists "File exists")
    | more ∷ others ↦ (fs, raise os_error "Not a directory")
  ]
  | none ↦ elim n [
    | zero ↦ (fs, raise os_error "cannot make directory")
    | suc m ↦ make_directories m (put (done ++ name ∷ []) directory fs) (done ++ name ∷ []) rest
  ]
]

abbrev write_result : FilePath → FilePath → String → Value
write_result root path content =
    obj
      (field "path" (str (relative root path)) (field "bytes" (int (pos (utf8_size content))) end))

-- The write into the opened file, which has been made empty.
store : WriteOutcome → Files → FilePath → FilePath → String → Files × Result Value
unfolding put utf8_size
store written fs root path content =
    (put path (file (utf8 content)) fs, ok (write_result root path content))
store refused fs root path content = (fs, raise os_error "cannot open")
store (torn part) fs root path content = (put path (file part) fs, raise os_error "cannot write")

already_exists : String → Result Value
already_exists raw_path = raise_f file_exists (lit "file already exists: " ∷ text raw_path ∷ [])

-- `path.open("w" if overwrite else "x")`, and the `with` statement.
unfoldable pub open_and_store :
    Io → Files → FilePath → FilePath → String → String → Bool → Files × Result Value
unfolding store already_exists
open_and_store io fs root path raw_path content overwrite = elim (fs path) [
  | none ↦ store io.write fs root path content
  | some directory ↦
      (fs, if overwrite then raise os_error "Is a directory" else already_exists raw_path)
  | some (file f) ↦
      if overwrite then store io.write fs root path content else (fs, already_exists raw_path)
]

after_directories :
    Io
    → FilePath
    → FilePath
    → String
    → String
    → Bool
    → Files × Result (Unit {0})
    → Files × Result Value
unfolding open_and_store
after_directories io root path raw_path content overwrite (fs, err e) = (fs, err e)
after_directories io root path raw_path content overwrite (fs, ok u) =
    open_and_store io fs root path raw_path content overwrite

write_resolved :
    Io → Files → FilePath → String → String → Bool → Result FilePath → Files × Result Value
unfolding after_directories make_directories
write_resolved io fs root raw_path content overwrite (err e) = (fs, err e)
write_resolved io fs root raw_path content overwrite (ok path) =
    after_directories io root path raw_path content overwrite
      (make_directories io.directories fs [] (parent path))

-- `_write_file`
unfoldable pub write_file :
    Host → Io → Files → FilePath → String → String → Bool → Files × Result Value
unfolding write_resolved resolve_path
write_file h io fs root raw_path content overwrite =
    write_resolved io fs root raw_path content overwrite (resolve_path h root raw_path)

-- `resolved.is_file()`
unfoldable pub is_file : Option Node → Bool
is_file (some (file f)) = true
is_file n = false

-- The loop of `_list_files`.
unfoldable pub collect :
    Host → Files → FilePath → Option Error → List FilePath → Result (List String)
unfolding require_contained is_file
collect h fs root stop [] = elim stop [ none ↦ ok [] | some e ↦ err e ]
collect h fs root stop (candidate ∷ more) = do
  resolved ← h.resolve candidate
  require_contained root resolved
  matches ← collect h fs root stop more
  ok (if is_file (fs resolved) then relative root resolved ∷ matches else matches)

-- `set(xs)`, by the last occurrence of each text; the order is forgotten by `sorted`.
unfoldable pub distinct : List String → List String
distinct [] = []
distinct (s ∷ ss) =
    let rest = distinct ss in if exists (λ t. str_eq t s) rest then rest else s ∷ rest

abbrev listing : ℕ → List String → Value
listing limit ordered = obj (
    field "paths" (arr (of_list (map str (take limit ordered))))
      (field "truncated" (bool (ltb limit (length ordered))) end))

-- `_list_files`
unfoldable pub list_files : Host → Files → FilePath → String → ℕ → Result Value
unfolding validate_relative collect sort_texts distinct
list_files h fs root pattern limit = do
  validate_relative pattern
  matches ← (let (candidates, stop) = h.glob fs root pattern in collect h fs root stop candidates)
  ok (listing limit (sort_texts (distinct matches)))
