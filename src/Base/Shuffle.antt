-- ===== src/Base/Shuffle.antt =====
-- A set of futures as a list: the order in which Python goes over a set, or in which threads end, is
-- any. Each order comes from some positions.
use Prim.Native.Nat.{ℕ, zero, suc}
use mathlib.Core.List.{List, [], ◌∷◌, Perm}
use mathlib.Core.List.Perm
use cloudshell_shell_automat.Base.Lists.{length, All}

module _ {ℓ} {A : Type ℓ} where
  unfoldable pub insert_at : ℕ → A → List A → List A
  insert_at zero x xs = x ∷ xs
  insert_at (suc n) x [] = x ∷ []
  insert_at (suc n) x (y ∷ ys) = y ∷ insert_at n x ys

  -- The first element is put at a position among the others, which are shuffled before.
  unfoldable pub shuffle : (ℕ → ℕ) → List A → List A
  unfolding insert_at
  shuffle position [] = []
  shuffle position (x ∷ xs) = insert_at (position (length xs)) x (shuffle position xs)

  pub insert_at-Perm : (n : ℕ) (x : A) (xs : List A) → Perm (insert_at n x xs) (x ∷ xs)
  unfolding insert_at
  insert_at-Perm zero x xs = Perm.refl (x ∷ xs)
  insert_at-Perm (suc n) x [] = Perm.refl (x ∷ [])
  insert_at-Perm (suc n) x (y ∷ ys) =
      Perm.trans (Perm.cons y (insert_at-Perm n x ys)) (Perm.swap x y ys)

  pub shuffle-Perm : (position : ℕ → ℕ) (xs : List A) → Perm (shuffle position xs) xs
  unfolding shuffle
  shuffle-Perm position [] = Perm.nil
  shuffle-Perm position (x ∷ xs) =
      Perm.trans (insert_at-Perm (position (length xs)) x (shuffle position xs))
        (Perm.cons x (shuffle-Perm position xs))

module _ {ℓ κ} {A : Type ℓ} (P : A → Type κ) where
  insert_at-All : (n : ℕ) (x : A) (xs : List A) → All P (insert_at n x xs) → P x × All P xs
  unfolding insert_at
  insert_at-All zero x xs h = h
  insert_at-All (suc n) x [] h = h
  insert_at-All (suc n) x (y ∷ ys) h =
      let (px, rest) = insert_at-All n x ys h.1 in (px, (h.0, rest))

  -- What holds of all of the shuffled list, holds of all of the list.
  pub shuffle-All : (position : ℕ → ℕ) (xs : List A) → All P (shuffle position xs) → All P xs
  unfolding shuffle
  shuffle-All position [] h = tt
  shuffle-All position (x ∷ xs) h =
      let (px, rest) = insert_at-All (position (length xs)) x (shuffle position xs) h in
      (px, shuffle-All position xs rest)
