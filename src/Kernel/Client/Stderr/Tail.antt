-- ===== src/Kernel/Client/Stderr/Tail.antt =====
-- Which lines of Felix the client keeps of stderr (kernel/client.py).
use mathlib.Core.List.{append_assoc, append-nil}
use astraship.Base.{
  ℕ, zero, suc, ◌+◌, ◌-◌, ◌≤◌, String, ◌≡◌, refl, ◌∙◌, sym, ap, List, [], ◌∷◌, ◌++◌, map, arith,
  length, length-append, drop,
}
use astraship.Kernel.Client.Stderr.{rstrip, append_bounded, read_stderr}

drop-append : (k : ℕ) (xs ys : List String) → k ≤ length xs → drop k (xs ++ ys) ≡ drop k xs ++ ys
drop-append zero xs ys h = refl
drop-append (suc k) [] ys h = absurd (omega (arith, h))
drop-append (suc k) (x ∷ xs) ys h = drop-append k xs ys (omega (arith, h))

drop-nil : (k : ℕ) → drop {A = String} k [] ≡ []
drop-nil zero = refl
drop-nil (suc k) = refl

drop-drop : (j k : ℕ) (xs : List String) → drop j (drop k xs) ≡ drop (k + j) xs
drop-drop j zero xs = ap (λ n. drop n xs) (omega arith)
drop-drop j (suc k) [] = drop-nil j ∙ sym (drop-nil (suc k + j))
drop-drop j (suc k) (x ∷ xs) =
    drop-drop j k xs ∙ ap (λ n. drop n (x ∷ xs)) {x = suc (k + j)} (omega arith)

length-drop : (k : ℕ) (xs : List String) → length (drop k xs) ≡ length xs - k
length-drop zero xs = omega arith
length-drop (suc k) [] = omega arith
length-drop (suc k) (x ∷ xs) = omega (arith, length-drop k xs)

length-map : (f : String → String) (xs : List String) → length (map f xs) ≡ length xs
length-map f [] = refl
length-map f (x ∷ xs) = ap suc (length-map f xs)

-- The last of these.
abbrev last : ℕ → List String → List String
last n xs = drop (length xs - n) xs

append_bounded-last :
    (n : ℕ) (x : String) (xs : List String) → append_bounded n x (last n xs) ≡ last n (xs ++ x ∷ [])
unfolding append_bounded
append_bounded-last n x xs =
    let k = length xs - n in
    let all = xs ++ x ∷ [] in
    let joined : last n xs ++ x ∷ [] ≡ drop k all = sym (drop-append k xs (x ∷ []) (omega arith)) in
    ap (λ ys. drop (length ys - n) ys) joined
    ∙ drop-drop (length (drop k all) - n) k all
    ∙ ap (λ j. drop j all) (omega (arith, length-drop k all, length-append xs (x ∷ [])))

read_stderr-from :
    (n : ℕ) (xs lines : List String)
    → read_stderr n (last n xs) lines ≡ last n (xs ++ map rstrip lines)
unfolding read_stderr
read_stderr-from n xs [] = ap (last n) (sym (append-nil xs))
read_stderr-from n xs (line ∷ lines) =
    ap (λ tail. read_stderr n tail lines) (append_bounded-last n (rstrip line) xs)
    ∙ read_stderr-from n (xs ++ rstrip line ∷ []) lines
    ∙ ap (last n) (append_assoc xs (rstrip line ∷ []) (map rstrip lines))

-- What the client keeps of stderr is the last lines of all that Felix wrote there, without the
-- whitespace at their ends, and never more of them than its bound.
pub read_stderr-bounded :
    (n : ℕ) (lines : List String)
    → (read_stderr n [] lines ≡ drop (length lines - n) (map rstrip lines))
      × (length (read_stderr n [] lines) ≤ n)
read_stderr-bounded n lines =
    (kept, omega (arith, ap length kept, length-drop k (map rstrip lines), length-map rstrip lines))
  where
    k : ℕ
    k = length lines - n

    kept : read_stderr n [] lines ≡ drop k (map rstrip lines)
    kept =
        ap (λ tail. read_stderr n tail lines) (sym (drop-nil (0 - n)))
        ∙ read_stderr-from n [] lines
        ∙ ap (λ m. drop (m - n) (map rstrip lines)) (length-map rstrip lines)
