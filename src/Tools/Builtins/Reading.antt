-- ===== src/Tools/Builtins/Reading.antt =====
-- `_read_file` of tools/builtins.py: which file it returns.
use astraship.Base.{
  ℕ, ◌≤◌, String, ◌≡◌, refl, ◌∙◌, sym, ap, inl, inr, true, false, Option, none, some, arith,
  Bool-cases, Option-cases, ltb,
}
use astraship.Base.Newlines.{translate}
use astraship.Errors.{ok, Result-cases}
use astraship.Value.{Value, str, obj, field, end}
use astraship.Tools.Builtins.Paths.{FilePath, is_inside, relative}
use astraship.Tools.Builtins.{
  Files, Node, directory, file, File, utf8, binary, Host, Io, resolve_path, file_size, utf8_size,
  decoded, read_text, read_node, read_file,
}
use astraship.Tools.Builtins.Contained.{resolve_path-inside}

decoded-ok :
    (raw_path : String) (f : File) (s : String)
    → decoded raw_path f ≡ ok s
    → (t : String) × (f ≡ utf8 t) × (translate false t ≡ s)
unfolding decoded
decoded-ok raw_path (utf8 t) s h = (t, refl, ground (arith, h))
decoded-ok raw_path (binary n) s h = absurd (cc)

read_text-ok :
    (io : Io) (raw_path : String) (f : File) (s : String)
    → read_text io raw_path f ≡ ok s
    → (t : String) × (f ≡ utf8 t) × (translate false t ≡ s)
unfolding read_text
read_text-ok io raw_path f s h = elim (Option-cases io.read_fails) [
  | inr (e, r) ↦ absurd (ground (arith, h, r))
  | inl r ↦ decoded-ok raw_path f s (rw (r, read_text) at h)
]

read_node-ok :
    (io : Io) (max_bytes : ℕ) (raw_path : String) (n : Option Node) (s : String)
    → read_node io max_bytes raw_path n ≡ ok s
    → (t : String) × (n ≡ some (file (utf8 t)))
      × (utf8_size t ≤ max_bytes)
      × (translate false t ≡ s)
unfolding read_node file_size
read_node-ok io max_bytes raw_path none s h = absurd (cc)
read_node-ok io max_bytes raw_path (some directory) s h = absurd (cc)
read_node-ok io max_bytes raw_path (some (file f)) s h =
    elim (Bool-cases (ltb max_bytes (file_size f))) [
      | inl b ↦ absurd (ground (arith, h, b))
      | inr b ↦
          let (t, e, r) = read_text-ok io raw_path f s (ground (arith, h, b)) in
          let small : ltb max_bytes (file_size (utf8 t)) ≡ false =
            ap (λ g. ltb max_bytes (file_size g)) (sym e) ∙ b in
          (t, ap (λ g. some (file g)) e, ground (arith, small), r)
    ]

-- What `_read_file` returns comes from a file inside the workspace, the one that the path resolves
-- to: the file is UTF-8 and has at most as many bytes as the limit, and the result has its path
-- below the workspace and its text with the ends of lines translated.
pub read_file-Reads :
    (h : Host) (io : Io) (fs : Files) (root : FilePath) (raw_path : String) (max_bytes : ℕ)
    (v : Value)
    → read_file h io fs root raw_path max_bytes ≡ ok v
    → (p : FilePath) × (s : String) × (resolve_path h root raw_path ≡ ok p)
      × (is_inside root p ≡ true)
      × (fs p ≡ some (file (utf8 s)))
      × (utf8_size s ≤ max_bytes)
      × (obj (field "path" (str (relative root p)) (field "content" (str (translate false s)) end))
          ≡ v)
unfolding read_file
read_file-Reads h io fs root raw_path max_bytes v r =
    elim (Result-cases (resolve_path h root raw_path)) [
      | inr (x, e) ↦ absurd (ground (arith, r, e))
      | inl (p, e) ↦ elim (Result-cases (read_node io max_bytes raw_path (fs p))) [
        | inr (x, g) ↦ absurd (ground (arith, r, e, g))
        | inl (c, g) ↦
            let (s, n, small, t) = read_node-ok io max_bytes raw_path (fs p) c g in
            (p, s, e, resolve_path-inside h root raw_path p e, n, small, ground (arith, r, e, g, t))
      ]
    ]
