-- ===== src/Base/Newlines.antt =====
-- What reading a text file in Python does to the ends of its lines.
use Prim.Native.Char.{Char, code}
use astraship.Base.{String, Bool, ◌&&◌, ◌==◌, if◌then◌else◌}

abbrev pub line_feed : Char
line_feed = "\n"

-- Universal newlines: a carriage return, alone or before a line feed, is read as a line feed. The
-- flag says that the character before was a carriage return.
unfoldable pub translate : Bool → String → String
translate after_return String.[] = ""
translate after_return (String.◌∷◌ c s) =
    let rest = translate (code c == 13) s in
    if code c == 13
    then String.◌∷◌ line_feed rest
    else if after_return && code c == 10
    then rest
    else String.◌∷◌ c rest
