-- ===== src/Tools/Builtins/Paths.antt =====
-- The paths of tools/builtins.py: `pathlib` on a POSIX platform, and the tests that keep a path
-- inside the workspace.
use Prim.Native.Char.{Char, code}
use Prim.Native.String.{◌++◌ as str_append}
use astraship.Base.{
  ℕ, String, Bool, true, false, not, ◌&&◌, List, [], ◌∷◌, str_eq, ◌==◌, if◌then◌else◌, keep, exists,
  drop, length,
}
use astraship.Base.Text.{is_nonempty}
use astraship.Errors.{Result, raise_if, ◌>>◌, value_error}

-- An absolute path, by the names on it from the root on.
abbrev pub FilePath : Type 0
FilePath = List String

abbrev slash : ℕ
slash = 47

first_char : Char → List String → List String
first_char c [] = String.◌∷◌ c "" ∷ []
first_char c (s ∷ ss) = String.◌∷◌ c s ∷ ss

-- The text between the slashes.
segments : String → List String
unfolding first_char
segments String.[] = "" ∷ []
segments (String.◌∷◌ c s) =
    let rest = segments s in if code c == slash then "" ∷ rest else first_char c rest

-- `Path(s).parts`, without the root of an absolute path.
unfoldable pub parts : String → List String
unfolding segments
parts s = keep (λ name. is_nonempty name && not (str_eq name ".")) (segments s)

-- `Path(s).is_absolute()`
unfoldable pub is_absolute : String → Bool
is_absolute String.[] = false
is_absolute (String.◌∷◌ c s) = code c == slash

-- `_validate_relative`
unfoldable pub validate_relative : String → Result (Unit {0})
unfolding parts is_absolute
validate_relative raw_path = do
  raise_if (is_absolute raw_path) value_error "file path must be relative to the workspace"
  raise_if (exists (λ name. str_eq name "..") (parts raw_path)) value_error
      "file path must remain inside the workspace"

-- `path.relative_to(root)` does not raise.
unfoldable pub is_inside : FilePath → FilePath → Bool
is_inside [] path = true
is_inside (a ∷ root) [] = false
is_inside (a ∷ root) (b ∷ path) = str_eq a b && is_inside root path

-- `_require_contained`
unfoldable pub require_contained : FilePath → FilePath → Result (Unit {0})
unfolding is_inside
require_contained root path =
    raise_if (not (is_inside root path)) value_error "file path resolves outside the workspace"

-- `as_posix()` of a relative path.
unfoldable pub as_posix : List String → String
as_posix [] = "."
as_posix (name ∷ []) = name
as_posix (name ∷ more) = str_append name (str_append "/" (as_posix more))

-- `_relative`
unfoldable pub relative : FilePath → FilePath → String
unfolding as_posix
relative root path = as_posix (drop (length root) path)

-- `path.parent`; the parent of the root is the root.
unfoldable pub parent : FilePath → FilePath
parent [] = []
parent (name ∷ []) = []
parent (name ∷ more) = name ∷ parent more

unfoldable pub same_path : FilePath → FilePath → Bool
same_path [] [] = true
same_path (a ∷ p) (b ∷ q) = str_eq a b && same_path p q
same_path p q = false
