-- ===== src/SmbHandler/Paths.antt =====
-- The directories above a path.
use Prim.Native.String.{[], ◌∷◌}
use cloudshell_shell_automat.Base.{
  String, Char, ap, ℕ, zero, suc, ◌<◌, ◌≤◌, ◌≡◌, refl, ◌==◌, eq_iff, eq_refl, Bool, Bool-cases,
  true, false, Option, none, some, List, elem, is_blank, arith, inl, inr, if◌then◌else◌,
}
use cloudshell_shell_automat.SmbHandler.{
  is_separator, before_or, or_empty, before_last_separator, get_dir_path,
}

abbrev pub size : String → ℕ
size [] = 0
size (c ∷ s) = suc (size s)

-- The size of what precedes a separator, and 1 for the separator.
abbrev size_or : Option String → ℕ
size_or none = 0
size_or (some a) = suc (size a)

before_or-size :
    (here : Bool) (c : Char) (n : ℕ) (o : Option String)
    → size_or o ≤ n
    → size_or (before_or here c o) ≤ suc n
before_or-size here c n (some a) h = omega (arith, h)
before_or-size true c n none h = omega arith
before_or-size false c n none h = omega arith

before_last_separator-size : (s : String) → size_or (before_last_separator s) ≤ size s
unfolding before_last_separator
before_last_separator-size [] = omega arith
before_last_separator-size (c ∷ s) =
    before_or-size (is_separator c) c (size s) (before_last_separator s)
      (before_last_separator-size s)

or_empty-size : (n : ℕ) (o : Option String) → size_or o ≤ suc n → size (or_empty o) ≤ n
or_empty-size n none h = omega arith
or_empty-size n (some a) h = omega (arith, h)

-- A directory's path is shorter than the paths in it.
pub get_dir_path-size : (s : String) → is_blank s ≡ false → size (get_dir_path s) < size s
unfolding get_dir_path
get_dir_path-size [] h = absurd (cc h)
get_dir_path-size (c ∷ s) h = omega (
  arith,
  or_empty-size (size s) (before_last_separator (c ∷ s)) (before_last_separator-size (c ∷ s)),
)

-- A path that is not there is not the root.
pub missing-is_blank :
    (path : String) (dirs : List String)
    → elem "" dirs ≡ true
    → elem path dirs ≡ false
    → is_blank path ≡ false
missing-is_blank [] dirs root new = absurd (ground arith)
missing-is_blank (c ∷ path) dirs root new = refl

longer_ne : (x path : String) → size path < size x → (x == path) ≡ false
longer_ne x path lt = elim (Bool-cases (x == path)) [
  | inl same ↦ absurd (omega (arith, ap size ((eq_iff x path).0 same)))
  | inr differ ↦ differ
]

-- The directories that are there once a path and what is missing above it are created; the number
-- bounds the depth.
unfoldable pub with_parents : ℕ → String → List String → List String
with_parents zero path dirs = dirs
with_parents (suc n) path dirs =
    let above = with_parents n (get_dir_path path) dirs in
    List.◌∷◌ path (if elem (get_dir_path path) dirs then dirs else above)

-- What is new is no longer than the path.
pub elem-with_parents :
    (n : ℕ) (path x : String) (dirs : List String)
    → elem "" dirs ≡ true
    → elem path dirs ≡ false
    → size path < size x
    → elem x (with_parents n path dirs) ≡ elem x dirs
unfolding with_parents
elem-with_parents zero path x dirs root new lt = refl
elem-with_parents (suc n) path x dirs root new lt =
    let up = get_dir_path-size path (missing-is_blank path dirs root new) in
    elim (Bool-cases (elem (get_dir_path path) dirs)) [
      | inl there ↦ rw (there, longer_ne x path lt) refl
      | inr missing ↦
          rw (missing, longer_ne x path lt)
            (elem-with_parents n (get_dir_path path) x dirs root missing (omega arith))
    ]

pub elem-with_parents_self :
    (n : ℕ) (path : String) (dirs : List String)
    → 0 < n
    → elem path (with_parents n path dirs) ≡ true
unfolding with_parents
elem-with_parents_self zero path dirs lt = absurd (omega arith)
elem-with_parents_self (suc n) path dirs lt = rw (eq_refl path) refl
