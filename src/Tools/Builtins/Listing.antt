-- ===== src/Tools/Builtins/Listing.antt =====
-- `_list_files` of tools/builtins.py: what it lists.
use astraship.Base.{
  ℕ, zero, suc, ◌≤◌, ltb, map, length, length-take, take, drop, take-append-drop, ◌++◌, ◌⊎◌, String,
  ◌≡◌, refl, ◌∙◌, sym, ap, inl, inr, Bool, true, false, ◌||◌, ◌&&◌, Option, none, List, [], ◌∷◌,
  arith, All, exists, str_eq, eq_iff, Bool-cases, Option-cases, if◌then◌else◌,
}
use astraship.Base.Sorting.{
  IsSorted, IsDistinct, is_in, sort_texts, sort_texts-IsSorted, sort_texts-IsDistinct,
  exists-sort_texts,
}
use astraship.Errors.{Error, Result, ok, err, Result-cases}
use astraship.Value.{Value, bool, str, arr, obj, of_list, end, field}
use astraship.Tools.Builtins.Paths.{
  FilePath, is_inside, relative, validate_relative, require_contained,
}
use astraship.Tools.Builtins.{Files, Host, is_file, collect, distinct, list_files}

distinct-IsDistinct : (ss : List String) → IsDistinct (distinct ss)
unfolding distinct
distinct-IsDistinct [] = tt
distinct-IsDistinct (s ∷ ss) = elim (Bool-cases (is_in s (distinct ss))) [
  | inl b ↦ rw b (distinct-IsDistinct ss)
  | inr b ↦ rw b (b, distinct-IsDistinct ss)
]

exists-distinct : (x : String) (ss : List String) → is_in x (distinct ss) ≡ is_in x ss
unfolding distinct
exists-distinct x [] = refl
exists-distinct x (s ∷ ss) = elim (Bool-cases (is_in s (distinct ss))) [
  | inr b ↦ rw b (ap (λ (c : Bool). str_eq s x || c) (exists-distinct x ss))
  | inl b ↦ elim (Bool-cases (str_eq s x)) [
    | inr c ↦ rw (b, c) (exists-distinct x ss)
    | inl c ↦
        let there : is_in x (distinct ss) ≡ true =
          ap (λ y. is_in y (distinct ss)) (sym ((eq_iff s x).0 c)) ∙ b in
        rw (b, c) there
  ]
]

abbrev pub is_some_left : List String → Bool
is_some_left [] = false
is_some_left (x ∷ xs) = true

left-drop : (n : ℕ) (xs : List String) → ltb n (length xs) ≡ is_some_left (drop n xs)
left-drop zero [] = refl
left-drop zero (x ∷ xs) = ground arith
left-drop (suc n) [] = ground arith
left-drop (suc n) (x ∷ xs) = ground (arith, left-drop n xs)

take-full : (n : ℕ) (xs : List String) → (drop n xs ≡ []) ⊎ (length (take n xs) ≡ n)
take-full zero xs = inr refl
take-full (suc n) [] = inl refl
take-full (suc n) (x ∷ xs) = elim (take-full n xs) [ inl e ↦ inl e | inr e ↦ inr (ap suc e) ]

module _ (h : Host) (fs : Files) (root : FilePath) where
  -- Does this path resolve to a file with this name below the workspace?
  pub is_match : String → Result FilePath → Bool
  is_match x (ok p) = is_file (fs p) && str_eq (relative root p) x
  is_match x (err e) = false

  -- This path resolves to one inside the workspace.
  abbrev pub ResolvesInside : FilePath → Type 0
  ResolvesInside c = (p : FilePath) × (h.resolve c ≡ ok p) × (is_inside root p ≡ true)

  collect-ok :
      (stop : Option Error) (cs : List FilePath) (ss : List String)
      → collect h fs root stop cs ≡ ok ss
      → (stop ≡ none)
        × All ResolvesInside cs
        × ((x : String) → is_in x ss ≡ exists (λ c. is_match x (h.resolve c)) cs)
  unfolding collect require_contained is_match
  collect-ok stop [] ss e = elim (Option-cases stop) [
    | inr (x, s) ↦ absurd (ground (arith, e, s))
    | inl s ↦ let same : [] ≡ ss = ground (arith, e, s) in (s, tt, λ x. ap (is_in x) (sym same))
  ]
  collect-ok stop (c ∷ cs) ss e = elim (Result-cases (h.resolve c)) [
    | inr (x, r) ↦ absurd (ground (arith, e, r))
    | inl (p, r) ↦ elim (Bool-cases (is_inside root p)) [
      | inr b ↦ absurd (ground (arith, e, r, b))
      | inl b ↦ elim (Result-cases (collect h fs root stop cs)) [
        | inr (x, q) ↦ absurd (ground (arith, e, r, b, q))
        | inl (more, q) ↦
            let (s, inside, members) = collect-ok stop cs more q in
            let found : (if is_file (fs p) then relative root p ∷ more else more) ≡ ss =
              ground (arith, e, r, b, q) in
            (
              s,
              ((p, r, b), inside),
              λ x. ap (is_in x) (sym found) ∙ (elim (Bool-cases (is_file (fs p))) [
                | inl f ↦ ground (arith, f, r, members x)
                | inr f ↦ ground (arith, f, r, members x)
              ]),
            )
      ]
    ]
  ]

  -- The result holds the first names of a sorted list without duplicates, as many as the limit
  -- allows, and says whether there are more.
  pub record IsListing (candidates : List FilePath) (limit : ℕ) (v : Value) : Type 0 where
    pub ordered : List String
    pub named : List String
    pub left_out : List String
    pub parts : named ++ left_out ≡ ordered
    pub within : length named ≤ limit
    -- where some are left out, the limit is reached
    pub full : (left_out ≡ []) ⊎ (length named ≡ limit)
    pub is_listing :
        v
        ≡ obj (
            field "paths"
              (arr (of_list (map str named)))
              (field "truncated" (bool (is_some_left left_out)) end))
    pub sorted : IsSorted ordered
    pub distinct : IsDistinct ordered
    -- the names are those of the files that the glob yields, and all of them
    pub exact : (x : String) → is_in x ordered ≡ exists (λ c. is_match x (h.resolve c)) candidates
    pub inside : All ResolvesInside candidates

  -- A listing that is returned is exact: every path that the glob yields resolves to one inside the
  -- workspace, the names of those that are files are sorted, each once, and the result has the first
  -- of them, at most as many as the limit, with the flag that tells whether some were left out.
  pub list_files-IsListing :
      (pattern : String) (limit : ℕ) (v : Value)
      → list_files h fs root pattern limit ≡ ok v
      → IsListing (h.glob fs root pattern).0 limit v
  unfolding list_files
  list_files-IsListing pattern limit v e = elim (Result-cases (validate_relative pattern)) [
    | inr (x, r) ↦ absurd (ground (arith, e, r))
    | inl (tt, r) ↦
        let found = h.glob fs root pattern in
        elim (Result-cases (collect h fs root found.1 found.0)) [
          | inr (x, c) ↦ absurd (ground (arith, e, r, c))
          | inl (ss, c) ↦
              let (s, inside, members) = collect-ok found.1 found.0 ss c in
              record {
                ordered = sort_texts (distinct ss);
                named = take limit (sort_texts (distinct ss));
                left_out = drop limit (sort_texts (distinct ss));
                parts = take-append-drop limit (sort_texts (distinct ss));
                within = omega (arith, length-take limit (sort_texts (distinct ss)));
                full = take-full limit (sort_texts (distinct ss));
                is_listing =
                    sym (ground (arith, e, r, c))
                    ∙ ap
                        (λ b. obj (
                          field "paths"
                            (arr (of_list (map str (take limit (sort_texts (distinct ss))))))
                            (field "truncated" (bool b) end)))
                        (left-drop limit (sort_texts (distinct ss)));
                sorted = sort_texts-IsSorted (distinct ss);
                distinct = sort_texts-IsDistinct (distinct ss) (distinct-IsDistinct ss);
                exact = λ x. exists-sort_texts x (distinct ss) ∙ exists-distinct x ss ∙ members x;
                inside = inside;
              }
        ]
  ]
