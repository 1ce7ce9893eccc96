-- ===== src/Base/Sorting.antt =====
-- Python's `sorted` on texts: the result is in order, holds the same texts, and does not depend on
-- the order of the input.
use astraship.Base.{
  String, ◌≡◌, refl, ◌∙◌, sym, ap, inl, inr, Bool, true, false, ◌||◌, List, [], ◌∷◌, arith, str_eq,
  eq_iff, if◌then◌else◌, exists, Bool-cases,
}
use astraship.Base.Text.{str_leb}
use astraship.Base.TextOrder.{str_leb_total, str_leb_trans, str_leb_antisymm}

-- `sorted` of texts.
unfoldable pub insert_text : String → List String → List String
insert_text s [] = s ∷ []
insert_text s (t ∷ ts) = if str_leb s t then s ∷ t ∷ ts else t ∷ insert_text s ts

unfoldable pub sort_texts : List String → List String
unfolding insert_text
sort_texts [] = []
sort_texts (s ∷ ss) = insert_text s (sort_texts ss)

abbrev pub AtLeast : String → List String → Type 0
AtLeast s [] = Unit
AtLeast s (t ∷ ts) = (str_leb s t ≡ true) × AtLeast s ts

abbrev pub IsSorted : List String → Type 0
IsSorted [] = Unit
IsSorted (s ∷ ss) = AtLeast s ss × IsSorted ss

AtLeast-trans : (s t : String) (ts : List String) → str_leb s t ≡ true → AtLeast t ts → AtLeast s ts
AtLeast-trans s t [] h a = tt
AtLeast-trans s t (u ∷ ts) h a = (str_leb_trans s t u h a.0, AtLeast-trans s t ts h a.1)

AtLeast-insert_text :
    (s t : String) (ts : List String)
    → str_leb s t ≡ true
    → AtLeast s ts
    → AtLeast s (insert_text t ts)
unfolding insert_text
AtLeast-insert_text s t [] h a = (h, tt)
AtLeast-insert_text s t (u ∷ ts) h a = ground (arith, h, a, AtLeast-insert_text s t ts h a.1)

insert_text-IsSorted : (s : String) (ts : List String) → IsSorted ts → IsSorted (insert_text s ts)
unfolding insert_text
insert_text-IsSorted s [] h = (tt, tt)
insert_text-IsSorted s (t ∷ ts) h = elim (Bool-cases (str_leb s t)) [
  | inl b ↦ rw b ((b, AtLeast-trans s t ts b h.0), h)
  | inr b ↦
      rw b (AtLeast-insert_text t s ts (str_leb_total s t b) h.0, insert_text-IsSorted s ts h.1)
]

pub sort_texts-IsSorted : (ss : List String) → IsSorted (sort_texts ss)
unfolding sort_texts
sort_texts-IsSorted [] = tt
sort_texts-IsSorted (s ∷ ss) = insert_text-IsSorted s (sort_texts ss) (sort_texts-IsSorted ss)

pub insert_text_comm :
    (s t : String) (us : List String)
    → insert_text s (insert_text t us) ≡ insert_text t (insert_text s us)
unfolding insert_text
insert_text_comm s t [] = ground (arith, str_leb_total s t, str_leb_total t s, str_leb_antisymm s t)
insert_text_comm s t (u ∷ us) = ground (
  arith,
  insert_text_comm s t us,
  str_leb_total s t,
  str_leb_total t s,
  str_leb_antisymm s t,
  str_leb_trans s t u,
  str_leb_trans t s u,
)

exists-insert_text :
    (x s : String) (ts : List String)
    → exists (λ t. str_eq t x) (insert_text s ts) ≡ (str_eq s x || exists (λ t. str_eq t x) ts)
unfolding insert_text
exists-insert_text x s [] = refl
exists-insert_text x s (t ∷ ts) = ground (arith, exists-insert_text x s ts)

pub exists-sort_texts :
    (x : String) (ss : List String)
    → exists (λ t. str_eq t x) (sort_texts ss) ≡ exists (λ t. str_eq t x) ss
unfolding sort_texts
exists-sort_texts x [] = refl
exists-sort_texts x (s ∷ ss) =
    exists-insert_text x s (sort_texts ss) ∙ ap (◌||◌ (str_eq s x)) (exists-sort_texts x ss)

-- Is this one of the texts?
abbrev pub is_in : String → List String → Bool
is_in x ss = exists (λ t. str_eq t x) ss

-- No text stands there twice.
abbrev pub IsDistinct : List String → Type 0
IsDistinct [] = Unit
IsDistinct (s ∷ ss) = (is_in s ss ≡ false) × IsDistinct ss

str_eq_sym : (s t : String) → str_eq s t ≡ str_eq t s
str_eq_sym s t = elim (Bool-cases (str_eq s t)) [
  | inl b ↦ b ∙ sym ((eq_iff t s).1 (sym ((eq_iff s t).0 b)))
  | inr b ↦ elim (Bool-cases (str_eq t s)) [
    | inl c ↦ absurd (cc (b, (eq_iff s t).1 (sym ((eq_iff t s).0 c))))
    | inr c ↦ b ∙ sym c
  ]
]

insert_text-IsDistinct :
    (s : String) (ts : List String)
    → is_in s ts ≡ false
    → IsDistinct ts
    → IsDistinct (insert_text s ts)
unfolding insert_text
insert_text-IsDistinct s [] h d = (refl, tt)
insert_text-IsDistinct s (t ∷ ts) h d = elim (Bool-cases (str_leb s t)) [
  | inl b ↦ rw b (h, d)
  | inr b ↦
      let other : str_eq s t ≡ false = str_eq_sym s t ∙ ground (arith, h) in
      let rest : is_in s ts ≡ false = ground (arith, h) in
      rw b (
        exists-insert_text t s ts ∙ ground (arith, other, d.0),
        insert_text-IsDistinct s ts rest d.1,
      )
]

pub sort_texts-IsDistinct : (ss : List String) → IsDistinct ss → IsDistinct (sort_texts ss)
unfolding sort_texts
sort_texts-IsDistinct [] d = tt
sort_texts-IsDistinct (s ∷ ss) d =
    insert_text-IsDistinct s (sort_texts ss) (exists-sort_texts s ss ∙ d.0)
      (sort_texts-IsDistinct ss d.1)
