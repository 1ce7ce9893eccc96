-- ===== src/Persistence/Listing.antt =====
-- `list_sessions` of persistence.py: the order of the listing.
use mathlib.Core.List.{Permᴰ}
use astraship.Base.{
  String, ◌≡◌, refl, ◌∙◌, sym, ap, inl, inr, Bool, ◌&&◌, List, [], ◌∷◌, map, arith, str_eq,
  if◌then◌else◌, keep, exists, Bool-cases,
}
use astraship.Base.Sorting.{
  IsSorted, insert_text, sort_texts, sort_texts-IsSorted, insert_text_comm, exists-sort_texts,
}
use astraship.Persistence.{Entry, Disk, is_safe_session_id, path_stem, list_sessions}

-- Is this the stem of a file with a safe name?
abbrev pub is_listed : Entry → Bool
is_listed e = e.is_file && is_safe_session_id (path_stem e)

exists-listed :
    (x : String) (d : Disk)
    → exists (λ t. str_eq t x) (map path_stem (keep is_listed d))
      ≡ exists (λ e. is_listed e && str_eq (path_stem e) x) d
exists-listed x [] = refl
exists-listed x (e ∷ d) = ground (arith, exists-listed x d)

-- The listing is sorted, and names exactly the stems of the files with a safe name.
pub list_sessions-IsSorted :
    (d : Disk)
    → IsSorted (list_sessions d)
      × ((x : String)
          → exists (λ t. str_eq t x) (list_sessions d)
            ≡ exists (λ e. is_listed e && str_eq (path_stem e) x) d)
unfolding list_sessions
list_sessions-IsSorted d = (
  sort_texts-IsSorted (map path_stem (keep is_listed d)),
  λ x. exists-sort_texts x (map path_stem (keep is_listed d)) ∙ exists-listed x d,
)

-- The listing with one more entry in the directory.
with_entry : Entry → List String → List String
with_entry e ss = if is_listed e then insert_text (path_stem e) ss else ss

list_sessions-cons : (e : Entry) (d : Disk) → list_sessions (e ∷ d) ≡ with_entry e (list_sessions d)
unfolding list_sessions sort_texts with_entry
list_sessions-cons e d = elim (Bool-cases (is_listed e)) [ inl b ↦ rw b | inr b ↦ rw b ]

with_entry_comm :
    (a b : Entry) (ss : List String)
    → with_entry a (with_entry b ss) ≡ with_entry b (with_entry a ss)
unfolding with_entry
with_entry_comm a b ss = elim (Bool-cases (is_listed a)) [
  | inl x ↦ elim (Bool-cases (is_listed b)) [
    | inl y ↦ rw (x, y) (insert_text_comm (path_stem a) (path_stem b) ss)
    | inr y ↦ rw (x, y)
  ]
  | inr x ↦ rw x
]

-- The listing does not depend on the order in which the directory gives its entries.
pub list_sessions-perm : {d d' : Disk} → Permᴰ d d' → list_sessions d ≡ list_sessions d'
list_sessions-perm Permᴰ.nil = refl
list_sessions-perm (Permᴰ.cons {a = a} {b = b} {l₁ = l} {l₂ = m} e p) =
    list_sessions-cons a l
    ∙ (λ i. with_entry (e i) (list_sessions-perm p i))
    ∙ sym (list_sessions-cons b m)
list_sessions-perm (Permᴰ.swap {a = a} {b = b} {a' = a'} {b' = b'} {l = l} e f) =
    list_sessions-cons a (b ∷ l)
    ∙ ap (with_entry a) (list_sessions-cons b l)
    ∙ with_entry_comm a b (list_sessions l)
    ∙ (λ i. with_entry (f i) (with_entry (e i) (list_sessions l)))
    ∙ ap (with_entry a') (sym (list_sessions-cons b' l))
    ∙ sym (list_sessions-cons a' (b' ∷ l))
list_sessions-perm (Permᴰ.trans p q) = list_sessions-perm p ∙ list_sessions-perm q
