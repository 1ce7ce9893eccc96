-- ===== src/Persistence/Lines.antt =====
-- The lines of a text file, as the iteration over it in `read` of persistence.py gives them.
use Prim.Native.Char.{Char, code}
use Prim.Native.String.{String, ◌++◌ as str_append}
use text.Mathlib.TextLemmas.{nil-append, cons-append}
use astraship.Base.{
  ◌≡◌, refl, ◌∙◌, ap, false, List, [], ◌∷◌, ◌++◌, arith, ◌==◌, if◌then◌else◌, map, All,
}
use astraship.Base.Text.{has_char}
use astraship.Base.Newlines.{line_feed, translate}

-- A character in front of the first line.
push_char : Char → List String → List String
push_char c [] = String.◌∷◌ c "" ∷ []
push_char c (l ∷ ls) = String.◌∷◌ c l ∷ ls

-- Each line keeps its line feed.
split_lines : String → List String
unfolding push_char
split_lines String.[] = []
split_lines (String.◌∷◌ c s) =
    let rest = split_lines s in if code c == 10 then String.◌∷◌ c "" ∷ rest else push_char c rest

unfoldable pub lines_of : String → List String
unfolding translate split_lines
lines_of s = split_lines (translate false s)

-- A line, its line feed, and the rest.
pub line_before : String → String → String
line_before String.[] s = String.◌∷◌ line_feed s
line_before (String.◌∷◌ c l) s = String.◌∷◌ c (line_before l s)

pub unlines : List String → String
unfolding line_before
unlines [] = ""
unlines (l ∷ ls) = line_before l (unlines ls)

pub record IsPlain (l : String) : Type 0 where
  pub no_feed : has_char 10 l ≡ false
  pub no_return : has_char 13 l ≡ false

translate-line_before :
    (l s : String)
    → IsPlain l
    → translate false (line_before l s) ≡ line_before l (translate false s)
unfolding translate line_before
translate-line_before String.[] s h = refl
translate-line_before (String.◌∷◌ c l) s h = ground (
  arith,
  h,
  translate-line_before l s (record { no_feed = ground (arith, h); no_return = ground (arith, h) }),
)

split_lines-line_before :
    (l s : String) → IsPlain l → split_lines (line_before l s) ≡ line_before l "" ∷ split_lines s
unfolding split_lines line_before
split_lines-line_before String.[] s h = refl
split_lines-line_before (String.◌∷◌ c l) s h = ground (
  arith,
  h,
  split_lines-line_before l s
      (record { no_feed = ground (arith, h); no_return = ground (arith, h) }),
)

-- The lines of a text that was written by lines are those.
pub lines_of-unlines :
    (ls : List String) → All IsPlain ls → lines_of (unlines ls) ≡ map (λ l. line_before l "") ls
unfolding lines_of unlines
lines_of-unlines [] h = refl
lines_of-unlines (l ∷ ls) h =
    ap split_lines (translate-line_before l (unlines ls) h.0)
    ∙ split_lines-line_before l (translate false (unlines ls)) h.0
    ∙ ap (◌∷◌ (line_before l "")) (lines_of-unlines ls h.1)

append-line_before :
    (l s t : String) → str_append (line_before l s) t ≡ line_before l (str_append s t)
unfolding line_before
append-line_before String.[] s t = cons-append line_feed s t
append-line_before (String.◌∷◌ c l) s t =
    cons-append c (line_before l s) t ∙ ap (String.◌∷◌ c) (append-line_before l s t)

pub line_before_empty : (l : String) → str_append l "\n" ≡ line_before l ""
unfolding line_before
line_before_empty String.[] = nil-append "\n"
line_before_empty (String.◌∷◌ c l) = cons-append c l "\n" ∙ ap (String.◌∷◌ c) (line_before_empty l)

pub unlines-single : (l : String) → line_before l "" ≡ unlines (l ∷ [])
unfolding unlines
unlines-single l = refl

-- Another line at the end.
pub unlines-append :
    (ls : List String) (l : String)
    → str_append (unlines ls) (str_append l "\n") ≡ unlines (ls ++ l ∷ [])
unfolding unlines
unlines-append [] l = nil-append (str_append l "\n") ∙ line_before_empty l
unlines-append (k ∷ ls) l =
    append-line_before k (unlines ls) (str_append l "\n") ∙ ap (line_before k) (unlines-append ls l)

lines_of_runs : lines_of "a\r\n\nbc\rd" ≡ "a\n" ∷ "\n" ∷ "bc\n" ∷ "d" ∷ []
unfolding lines_of
lines_of_runs = refl
