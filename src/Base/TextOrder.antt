-- ===== src/Base/TextOrder.antt =====
-- The order of texts by code points.
use Prim.Native.Char.{code}
use text.Mathlib.TextEquality.{Char-path}
use astraship.Base.{String, ◌≡◌, refl, true, false, arith}
use astraship.Base.Text.{str_leb}

pub str_leb_refl : (s : String) → str_leb s s ≡ true
str_leb_refl String.[] = refl
str_leb_refl (String.◌∷◌ c s) = ground (arith, str_leb_refl s)

pub str_leb_total : (s t : String) → str_leb s t ≡ false → str_leb t s ≡ true
str_leb_total String.[] t h = absurd (cc)
str_leb_total (String.◌∷◌ c s) String.[] h = refl
str_leb_total (String.◌∷◌ c s) (String.◌∷◌ d t) h = ground (arith, h, str_leb_total s t)

pub str_leb_trans : (s t u : String) → str_leb s t ≡ true → str_leb t u ≡ true → str_leb s u ≡ true
str_leb_trans String.[] t u h k = refl
str_leb_trans (String.◌∷◌ c s) String.[] u h k = absurd (cc)
str_leb_trans (String.◌∷◌ c s) (String.◌∷◌ d t) String.[] h k = absurd (cc)
str_leb_trans (String.◌∷◌ c s) (String.◌∷◌ d t) (String.◌∷◌ e u) h k =
    ground (arith, h, k, str_leb_trans s t u)

pub str_leb_antisymm : (s t : String) → str_leb s t ≡ true → str_leb t s ≡ true → s ≡ t
str_leb_antisymm String.[] String.[] h k = refl
str_leb_antisymm String.[] (String.◌∷◌ d t) h k = absurd (cc)
str_leb_antisymm (String.◌∷◌ c s) String.[] h k = absurd (cc)
str_leb_antisymm (String.◌∷◌ c s) (String.◌∷◌ d t) h k =
    let same : code c ≡ code d = ground (arith, h, k) in
    let rest : s ≡ t = str_leb_antisymm s t (ground (arith, h, same)) (ground (arith, k, same)) in
    λ i. String.◌∷◌ (Char-path c d same i) (rest i)
