-- ===== src/Tools/Builtins/Writing.antt =====
-- `_write_file` of tools/builtins.py: what it keeps, and what is read after it.
use astraship.Base.{
  ℕ, zero, suc, ◌≤◌, String, ◌≡◌, refl, ap, inl, inr, Bool, true, false, none, some, [], ◌∷◌, ◌++◌,
  arith, eq_iff, Bool-cases, Option-cases, if◌then◌else◌,
}
use astraship.Base.Newlines.{translate}
use astraship.Errors.{Result, ok, err, raise, os_error, Result-cases}
use astraship.Value.{Value, str, obj, field, end}
use astraship.Tools.Builtins.Paths.{FilePath, parent, same_path, relative}
use astraship.Tools.Builtins.{
  Files, Node, directory, file, utf8, Host, Io, WriteOutcome, written, refused, torn, put,
  resolve_path, make_directories, store, open_and_store, after_directories, write_resolved,
  write_file, write_result, already_exists, utf8_size, file_size, read_text, read_node, read_file,
}
use astraship.Tools.Builtins.Contained.{same_path-eq}

-- Whatever was there is there as it was.
abbrev pub Keeps : Files → Files → Type 0
Keeps fs gs = (q : FilePath) (n : Node) → fs q ≡ some n → gs q ≡ some n

put-Keeps : (p : FilePath) (m : Node) (fs : Files) → fs p ≡ none → Keeps fs (put p m fs)
unfolding put
put-Keeps p m fs free q n h = elim (Bool-cases (same_path p q)) [
  | inr e ↦ rw e h
  | inl e ↦ absurd (cc (free, ap fs (same_path-eq p q e), h))
]

make_directories-Keeps :
    (n : ℕ) (fs : Files) (done r : FilePath) → Keeps fs (make_directories n fs done r).0
unfolding make_directories
make_directories-Keeps n fs done [] q m h = h
make_directories-Keeps n fs done (c ∷ r) q m h = elim (Option-cases (fs (done ++ c ∷ []))) [
  | inr (directory, e) ↦
      rw (e, make_directories) (make_directories-Keeps n fs (done ++ c ∷ []) r q m h)
  | inr (file f, e) ↦ elim r as (λ s. (make_directories n fs done (c ∷ s)).0 q ≡ some m) [
    | [] ↦ rw (e, make_directories) h
    | b ∷ s ↦ rw (e, make_directories) h
  ]
  | inl e ↦ elim n as (λ k. (make_directories k fs done (c ∷ r)).0 q ≡ some m) [
    | zero ↦ rw (e, make_directories) h
    | suc k ↦
        rw (e, make_directories)
          (make_directories-Keeps k (put (done ++ c ∷ []) directory fs) (done ++ c ∷ []) r q m
            (put-Keeps (done ++ c ∷ []) directory fs e q m h))
  ]
]

module _ (root p : FilePath) (raw_path content : String) where
  store-Keeps :
      (io : WriteOutcome) (fs : Files) → fs p ≡ none → Keeps fs (store io fs root p content).0
  unfolding store
  store-Keeps written fs free = put-Keeps p (file (utf8 content)) fs free
  store-Keeps refused fs free = λ q n h. h
  store-Keeps (torn part) fs free = put-Keeps p (file part) fs free

  open_and_store-Keeps :
      (io : Io) (fs : Files) → Keeps fs (open_and_store io fs root p raw_path content false).0
  unfolding open_and_store
  open_and_store-Keeps io fs q n h = elim (Option-cases (fs p)) [
    | inl e ↦ rw (e, open_and_store) (store-Keeps io.write fs e q n h)
    | inr (directory, e) ↦ rw (e, open_and_store) h
    | inr (file f, e) ↦ rw (e, open_and_store) h
  ]

  after_directories-Keeps :
      (io : Io) (fs gs : Files) (made : Result (Unit {0}))
      → Keeps fs gs
      → Keeps fs (after_directories io root p raw_path content false (gs, made)).0
  unfolding after_directories
  after_directories-Keeps io fs gs (err e) k = k
  after_directories-Keeps io fs gs (ok u) k = λ q n h. open_and_store-Keeps io gs q n (k q n h)

  store-ok :
      (io : WriteOutcome) (fs : Files) (v : Value)
      → (store io fs root p content).1 ≡ ok v
      → ((store io fs root p content).0 ≡ put p (file (utf8 content)) fs)
        × (write_result root p content ≡ v)
  unfolding store
  store-ok written fs v h = (refl, ground (arith, h))
  store-ok refused fs v h = absurd (cc)
  store-ok (torn part) fs v h = absurd (cc)

  open_and_store-ok :
      (io : Io) (fs : Files) (overwrite : Bool) (v : Value)
      → (open_and_store io fs root p raw_path content overwrite).1 ≡ ok v
      → ((open_and_store io fs root p raw_path content overwrite).0
          ≡ put p (file (utf8 content)) fs)
        × (write_result root p content ≡ v)
  unfolding open_and_store
  open_and_store-ok io fs overwrite v h = elim (Option-cases (fs p)) [
    | inl e ↦
        let s = store-ok io.write fs v (rw (e, open_and_store) at h) in rw (e, open_and_store) s
    | inr (directory, e) ↦ absurd (from overwrite (rw (e, open_and_store) at h))
    | inr (file f, e) ↦ elim (Bool-cases overwrite) [
      | inl b ↦
          let s = store-ok io.write fs v (rw (e, b, open_and_store) at h) in
          rw (e, b, open_and_store) s
      | inr b ↦ absurd (ground (arith, rw (e, b, open_and_store) at h))
    ]
  ]
    where
      from :
          (b : Bool)
          → (if b then raise os_error "Is a directory" else already_exists raw_path) ≡ ok v
          → ⊥
      from true g = cc
      from false g = cc

  after_directories-ok :
      (io : Io) (fs gs : Files) (made : Result (Unit {0})) (overwrite : Bool) (v : Value)
      → (after_directories io root p raw_path content overwrite (gs, made)).1 ≡ ok v
      → ((after_directories io root p raw_path content overwrite (gs, made)).0
          ≡ put p (file (utf8 content)) gs)
        × (write_result root p content ≡ v)
  unfolding after_directories
  after_directories-ok io fs gs (err e) overwrite v h = absurd (cc)
  after_directories-ok io fs gs (ok u) overwrite v h = open_and_store-ok io gs overwrite v h

same_path_refl : (p : FilePath) → same_path p p ≡ true
unfolding same_path
same_path_refl [] = refl
same_path_refl (a ∷ p) = ground (arith, (eq_iff a a).1 refl, same_path_refl p)

read_node-put :
    (io : Io) (max_bytes : ℕ) (raw_path content : String) (p : FilePath) (fs : Files)
    → utf8_size content ≤ max_bytes
    → io.read_fails ≡ none
    → read_node io max_bytes raw_path (put p (file (utf8 content)) fs p)
      ≡ ok (translate false content)
unfolding read_node read_text file_size put
read_node-put io max_bytes raw_path content p fs small reads =
    rw (same_path_refl p, reads) (ground (arith, small))

-- A call of `_write_file` without `overwrite` leaves all that was there as it was, however it ends:
-- files and directories are only added.
pub write_file-Keeps :
    (h : Host) (io : Io) (fs : Files) (root : FilePath) (raw_path content : String)
    → Keeps fs (write_file h io fs root raw_path content false).0
unfolding write_file write_resolved
write_file-Keeps h io fs root raw_path content =
    elim (Result-cases (resolve_path h root raw_path)) [
      | inr (x, e) ↦ rw (e, write_file, write_resolved) (λ q n g. g)
      | inl (p, e) ↦
          let made = make_directories io.directories fs [] (parent p) in
          rw (e, write_file, write_resolved)
            (after_directories-Keeps root p raw_path content io fs made.0 made.1
              (make_directories-Keeps io.directories fs [] (parent p)))
    ]

-- What a call of `_write_file` that returned has written can be read: unless the disk then fails, or
-- the text has more bytes than the limit of the reader, `_read_file` returns at the same path the
-- text with its ends of lines translated. Both report the path of one file, and the writer the
-- number of bytes of the text.
pub read-write_file :
    (h : Host) (io later : Io) (fs : Files) (root : FilePath) (raw_path content : String)
    (overwrite : Bool) (max_bytes : ℕ) (v : Value)
    → (write_file h io fs root raw_path content overwrite).1 ≡ ok v
    → utf8_size content ≤ max_bytes
    → later.read_fails ≡ none
    → (p : FilePath) × (resolve_path h root raw_path ≡ ok p)
      × (write_result root p content ≡ v)
      × (read_file h later
            (write_file h io fs root raw_path content overwrite).0
            root
            raw_path
            max_bytes
          ≡ ok (
              obj (
                field "path"
                  (str (relative root p))
                  (field "content" (str (translate false content)) end))))
unfolding write_file write_resolved read_file
read-write_file h io later fs root raw_path content overwrite max_bytes v r small reads =
    elim (Result-cases (resolve_path h root raw_path)) [
      | inr (x, e) ↦ absurd (ground (arith, r, e))
      | inl (p, e) ↦
          let made = make_directories io.directories fs [] (parent p) in
          let (s, w) =
            after_directories-ok root p raw_path content io fs made.0 made.1 overwrite v
              (rw (e, write_file, write_resolved) at r) in
          (
            p,
            e,
            w,
            rw
                (
                  e,
                  write_resolved,
                  s,
                  read_node-put later max_bytes raw_path content p made.0 small reads,
                )
                refl,
          )
    ]
