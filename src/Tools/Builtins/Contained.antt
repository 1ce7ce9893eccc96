-- ===== src/Tools/Builtins/Contained.antt =====
-- The file tools of tools/builtins.py keep to the workspace.
use astraship.Base.{
  ℕ, zero, suc, String, ◌≡◌, ◌≢◌, refl, ◌∙◌, sym, ap, inl, inr, Bool, true, false, some, List, [],
  ◌∷◌, ◌++◌, arith, str_eq, eq_iff, Bool-cases, Option-cases,
}
use mathlib.Core.List.{append_assoc, append-nil}
use astraship.Errors.{Result, ok, err, Result-cases}
use astraship.Tools.Types.{ToolContext}
use astraship.Tools.Builtins.Paths.{
  FilePath, parts, is_inside, same_path, parent, require_contained, validate_relative,
}
use astraship.Tools.Builtins.{
  Files, Node, directory, file, utf8, Host, Io, WriteOutcome, written, refused, torn, put,
  resolve_path, make_directories, store, open_and_store, after_directories, write_resolved,
  write_file,
}
use astraship.Tools.Builtins.Calls.{
  Limits, workspace, write_arguments, write_call, write_with, call_tool, call_tools, Call, reads,
  writes, lists,
}

-- The directories on the way from `done` along the rest are there.
abbrev pub IsRooted : Files → FilePath → FilePath → Type 0
IsRooted fs done [] = Unit
IsRooted fs done (name ∷ rest) =
    (fs (done ++ name ∷ []) ≡ some directory) × IsRooted fs (done ++ name ∷ []) rest

-- What a call may do to the files: outside the workspace nothing changes, and a directory stays one.
pub record Confined (root : FilePath) (fs gs : Files) : Type 0 where
  pub outside : (q : FilePath) → is_inside root q ≡ false → gs q ≡ fs q
  pub directories : (q : FilePath) → fs q ≡ some directory → gs q ≡ some directory

Confined-refl : (root : FilePath) (fs : Files) → Confined root fs fs
Confined-refl root fs = record { outside = λ q h. refl; directories = λ q h. h }

Confined-trans :
    (root : FilePath) (fs gs hs : Files)
    → Confined root fs gs
    → Confined root gs hs
    → Confined root fs hs
Confined-trans root fs gs hs a b = record {
  outside = λ q h. b.outside q h ∙ a.outside q h;
  directories = λ q h. b.directories q (a.directories q h);
}

pub same_path-eq : (p q : FilePath) → same_path p q ≡ true → p ≡ q
unfolding same_path
same_path-eq [] [] h = refl
same_path-eq (a ∷ p) (b ∷ q) h = elim (Bool-cases (str_eq a b)) [
  | inl e ↦ let rest = same_path-eq p q (ground (arith, h, e)) in λ i. (eq_iff a b).0 e i ∷ rest i
  | inr e ↦ absurd (ground (arith, h, e))
]
same_path-eq p q h = absurd (cc)

-- A write inside, where no directory was, is confined.
put-Confined :
    (root p : FilePath) (n : Node) (fs : Files)
    → is_inside root p ≡ true
    → fs p ≢ some directory
    → Confined root fs (put p n fs)
unfolding put
put-Confined root p n fs inside free = record {
  outside = λ q h. elim (Bool-cases (same_path p q)) [
    | inr e ↦ rw e
    | inl e ↦ absurd (ground (arith, sym inside ∙ ap (is_inside root) (same_path-eq p q e) ∙ h))
  ];
  directories = λ q h. elim (Bool-cases (same_path p q)) [
    | inr e ↦ rw e h
    | inl e ↦ absurd (free (ap fs (same_path-eq p q e) ∙ h))
  ];
}

is_inside-append : (root p q : FilePath) → is_inside root p ≡ true → is_inside root (p ++ q) ≡ true
unfolding is_inside
is_inside-append [] p q h = refl
is_inside-append (a ∷ root) [] q h = absurd (cc)
is_inside-append (a ∷ root) (b ∷ p) q h = elim (Bool-cases (str_eq a b)) [
  | inl e ↦ ground (arith, e, is_inside-append root p q (ground (arith, h, e)))
  | inr e ↦ absurd (ground (arith, h, e))
]

is_inside_refl : (root : FilePath) → is_inside root root ≡ true
unfolding is_inside
is_inside_refl [] = refl
is_inside_refl (a ∷ root) = ground (arith, (eq_iff a a).1 refl, is_inside_refl root)

-- A path inside is the workspace's, and names behind it.
pub is_inside-split :
    (root p : FilePath) → is_inside root p ≡ true → (r : FilePath) × (p ≡ root ++ r)
unfolding is_inside
is_inside-split [] p h = (p, refl)
is_inside-split (a ∷ root) [] h = absurd (cc)
is_inside-split (a ∷ root) (b ∷ p) h = elim (Bool-cases (str_eq a b)) [
  | inr e ↦ absurd (ground (arith, h, e))
  | inl e ↦
      let (r, s) = is_inside-split root p (ground (arith, h, e)) in
      (r, λ i. sym ((eq_iff a b).0 e) i ∷ s i)
]

parent-append :
    (root : FilePath) (c : String) (r : FilePath) → parent (root ++ c ∷ r) ≡ root ++ parent (c ∷ r)
unfolding parent
parent-append [] c r = refl
parent-append (a ∷ []) c r = refl
parent-append (a ∷ b ∷ root) c r = ap (◌∷◌ a) (parent-append (b ∷ root) c r)

parent-IsRooted :
    (fs : Files) (done root : FilePath) → IsRooted fs done root → IsRooted fs done (parent root)
unfolding parent
parent-IsRooted fs done [] h = tt
parent-IsRooted fs done (a ∷ []) h = tt
parent-IsRooted fs done (a ∷ b ∷ root) h = (h.0, parent-IsRooted fs (done ++ a ∷ []) (b ∷ root) h.1)

-- Directories that are there are passed.
make_directories-passes :
    (n : ℕ) (fs : Files) (done a r : FilePath)
    → IsRooted fs done a
    → make_directories n fs done (a ++ r) ≡ make_directories n fs (done ++ a) r
unfolding make_directories
make_directories-passes n fs done [] r h =
    ap (λ q. make_directories n fs q r) (sym (append-nil done))
make_directories-passes n fs done (c ∷ a) r h = rw h.0 (
    make_directories-passes n fs (done ++ c ∷ []) a r h.1
    ∙ ap (λ q. make_directories n fs q r) (append_assoc done (c ∷ []) a))

make_directories-Confined :
    (root : FilePath) (n : ℕ) (fs : Files) (done r : FilePath)
    → is_inside root done ≡ true
    → Confined root fs (make_directories n fs done r).0
unfolding make_directories
make_directories-Confined root n fs done [] h = Confined-refl root fs
make_directories-Confined root n fs done (c ∷ r) h = elim (Option-cases (fs (done ++ c ∷ []))) [
  | inr (directory, e) ↦
      rw (e, make_directories)
        (make_directories-Confined root n fs (done ++ c ∷ []) r
          (is_inside-append root done (c ∷ []) h))
  | inr (file f, e) ↦ elim r as (λ s. Confined root fs (make_directories n fs done (c ∷ s)).0) [
    | [] ↦ rw (e, make_directories) (Confined-refl root fs)
    | b ∷ s ↦ rw (e, make_directories) (Confined-refl root fs)
  ]
  | inl e ↦ elim n as (λ m. Confined root fs (make_directories m fs done (c ∷ r)).0) [
    | zero ↦ rw (e, make_directories) (Confined-refl root fs)
    | suc k ↦
        let inside = is_inside-append root done (c ∷ []) h in
        rw (e, make_directories)
          (Confined-trans root fs (put (done ++ c ∷ []) directory fs)
            (make_directories k (put (done ++ c ∷ []) directory fs) (done ++ c ∷ []) r).0
            (put-Confined root (done ++ c ∷ []) directory fs inside
              (λ d. absurd (ground (arith, d, e))))
            (make_directories-Confined root k (put (done ++ c ∷ []) directory fs) (done ++ c ∷ []) r
              inside))
  ]
]

make_directories_root-Confined :
    (root p : FilePath) (n : ℕ) (fs : Files)
    → IsRooted fs [] root
    → is_inside root p ≡ true
    → Confined root fs (make_directories n fs [] (parent p)).0
unfolding make_directories
make_directories_root-Confined root p n fs rooted inside =
    let (r, e) = is_inside-split root p inside in rw e (from r)
  where
    from : (r : FilePath) → Confined root fs (make_directories n fs [] (parent (root ++ r))).0
    from [] =
        let q : make_directories n fs [] (parent (root ++ [])) ≡ (fs, ok tt) =
          ap (λ x. make_directories n fs [] (parent x)) (append-nil root)
          ∙ ap (make_directories n fs []) (sym (append-nil (parent root)))
          ∙ make_directories-passes n fs [] (parent root) [] (parent-IsRooted fs [] root rooted) in
        rw q (Confined-refl root fs)
    from (c ∷ r) =
        let q : make_directories n fs [] (parent (root ++ c ∷ r))
            ≡ make_directories n fs root (parent (c ∷ r)) =
          ap (make_directories n fs []) (parent-append root c r)
          ∙ make_directories-passes n fs [] root (parent (c ∷ r)) rooted in
        rw q (make_directories-Confined root n fs root (parent (c ∷ r)) (is_inside_refl root))

pub resolve_path-inside :
    (h : Host) (root : FilePath) (raw_path : String) (p : FilePath)
    → resolve_path h root raw_path ≡ ok p
    → is_inside root p ≡ true
unfolding resolve_path require_contained
resolve_path-inside h root raw_path p e = elim (Result-cases (validate_relative raw_path)) [
  | inr (x, v) ↦ absurd (ground (arith, e, v))
  | inl (tt, v) ↦ elim (Result-cases (h.resolve (root ++ parts raw_path))) [
    | inr (x, w) ↦ absurd (ground (arith, e, v, w))
    | inl (q, w) ↦ elim (Bool-cases (is_inside root q)) [
      | inr b ↦ absurd (ground (arith, e, v, w, b))
      | inl b ↦ let same : q ≡ p = ground (arith, e, v, w, b) in ap (is_inside root) (sym same) ∙ b
    ]
  ]
]

module _ (root p : FilePath) (fs : Files) (inside : is_inside root p ≡ true) where
  store-Confined :
      (io : WriteOutcome) (content : String)
      → fs p ≢ some directory
      → Confined root fs (store io fs root p content).0
  unfolding store
  store-Confined written content free = put-Confined root p (file (utf8 content)) fs inside free
  store-Confined refused content free = Confined-refl root fs
  store-Confined (torn part) content free = put-Confined root p (file part) fs inside free

  open_and_store-Confined :
      (io : Io) (raw_path content : String) (overwrite : Bool)
      → Confined root fs (open_and_store io fs root p raw_path content overwrite).0
  unfolding open_and_store
  open_and_store-Confined io raw_path content overwrite = elim (Option-cases (fs p)) [
    | inl e ↦
        rw (e, open_and_store)
          (store-Confined io.write content (λ d. absurd (ground (arith, d, e))))
    | inr (directory, e) ↦ rw (e, open_and_store) (Confined-refl root fs)
    | inr (file f, e) ↦
        elim overwrite
          as (λ b. Confined root fs (open_and_store io fs root p raw_path content b).0) [
            | true ↦
                rw (e, open_and_store)
                  (store-Confined io.write content (λ d. absurd (ground (arith, d, e))))
            | false ↦ rw (e, open_and_store) (Confined-refl root fs)
          ]
  ]

module _ (h : Host) (context : ToolContext) where
  after_directories-Confined :
      (io : Io) (p : FilePath) (raw_path content : String) (overwrite : Bool) (fs gs : Files)
      (made : Result (Unit {0}))
      → is_inside (workspace context) p ≡ true
      → Confined (workspace context) fs gs
      → Confined
          (workspace context)
          fs
          (after_directories io (workspace context) p raw_path content overwrite (gs, made)).0
  unfolding after_directories
  after_directories-Confined io p raw_path content overwrite fs gs (err e) inside c = c
  after_directories-Confined io p raw_path content overwrite fs gs (ok u) inside c =
      Confined-trans (workspace context) fs gs
        (open_and_store io gs (workspace context) p raw_path content overwrite).0 c
        (open_and_store-Confined (workspace context) p gs inside io raw_path content overwrite)

  write_file-Confined :
      (io : Io) (fs : Files) (raw_path content : String) (overwrite : Bool)
      → IsRooted fs [] (workspace context)
      → Confined
          (workspace context)
          fs
          (write_file h io fs (workspace context) raw_path content overwrite).0
  unfolding write_file write_resolved
  write_file-Confined io fs raw_path content overwrite rooted =
      elim (Result-cases (resolve_path h (workspace context) raw_path)) [
        | inr (x, e) ↦ rw (e, write_file, write_resolved) (Confined-refl (workspace context) fs)
        | inl (p, e) ↦
            let inside = resolve_path-inside h (workspace context) raw_path p e in
            let made = make_directories io.directories fs [] (parent p) in
            rw (e, write_file, write_resolved)
              (after_directories-Confined io p raw_path content overwrite fs made.0 made.1 inside (
                make_directories_root-Confined (workspace context) p io.directories fs rooted
                  inside))
      ]

  call_tool-Confined :
      (limits : Limits) (io : Io) (fs : Files) (call : Call h limits)
      → IsRooted fs [] (workspace context)
      → Confined (workspace context) fs (call_tool h limits io context fs call).0
  unfolding call_tool write_call write_with
  call_tool-Confined limits io fs (reads arguments) rooted = Confined-refl (workspace context) fs
  call_tool-Confined limits io fs (lists arguments) rooted = Confined-refl (workspace context) fs
  call_tool-Confined limits io fs (writes arguments) rooted =
      from (write_arguments h limits arguments)
    where
      from :
          (r : Result (String × String × Bool))
          → Confined (workspace context) fs (write_with h limits io fs context r).0
      from (err e) = Confined-refl (workspace context) fs
      from (ok (path, content, overwrite)) = write_file-Confined io fs path content overwrite rooted

Confined-IsRooted :
    (root : FilePath) (fs gs : Files)
    → Confined root fs gs
    → (done p : FilePath) → IsRooted fs done p
    → IsRooted gs done p
Confined-IsRooted root fs gs c done [] h = tt
Confined-IsRooted root fs gs c done (a ∷ p) h =
    (c.directories (done ++ a ∷ []) h.0, Confined-IsRooted root fs gs c (done ++ a ∷ []) p h.1)

-- Whatever calls of the file tools are made one after the other, with any arguments, any answers of
-- the disk and any symbolic links: where the workspace and the directories above it are there at
-- first, nothing outside the workspace has changed after them, and every directory is still one.
pub call_tools-Confined :
    (h : Host) (limits : Limits) (context : ToolContext) (fs : Files)
    (calls : List (Io × Call h limits))
    → IsRooted fs [] (workspace context)
    → Confined (workspace context) fs (call_tools h limits context fs calls)
unfolding call_tools
call_tools-Confined h limits context fs [] rooted = Confined-refl (workspace context) fs
call_tools-Confined h limits context fs ((io, call) ∷ more) rooted =
    let gs = (call_tool h limits io context fs call).0 in
    let first = call_tool-Confined h context limits io fs call rooted in
    Confined-trans (workspace context) fs gs (call_tools h limits context gs more) first (
      call_tools-Confined h limits context gs more
        (Confined-IsRooted (workspace context) fs gs first [] (workspace context) rooted))
