-- ===== src/HandlerStorage/History.antt =====
-- Calls that were made stay made, whatever follows; and what a loop over handlers asks for.
use cloudshell_shell_automat.Base.{
  ◌≡◌, ◌⊎◌, inl, inr, Option, none, some, List, [], ◌∷◌, All, arith,
}
use mathlib.Core.Path.{subst}
use cloudshell_shell_automat.Exec.{Exec, Result-cases, ok, for_each, ◌>>◌}
use cloudshell_shell_automat.Api.{Call, Calls}
use cloudshell_shell_automat.HandlerStorage.{finish_each}

-- A call was made.
abbrev pub Made : Call → Calls → Type 0
Made c [] = ⊥
Made c (x ∷ xs) = (x ≡ c) ⊎ Made c xs

-- What was asked for stays asked for.
abbrev pub Grows : {A : Type 0} → Exec Calls A → Type 0
Grows m = (calls : Calls) (c : Call) → Made c calls → Made c (m calls).1

pub >>-Grows :
    {A B : Type 0} (m : Exec Calls A) (k : Exec Calls B) → Grows m → Grows k → Grows (m >> k)
>>-Grows m k gm gk calls c h = elim (Result-cases (m calls).0) [
  | inl (a, e) ↦ rw (e, Made) (gk (m calls).1 c (gm calls c h))
  | inr (x, e) ↦ rw (e, Made) (gm calls c h)
]

pub >>-Made :
    {A B : Type 0} (m : Exec Calls A) (k : Exec Calls B) (calls : Calls) (c : Call)
    → Made c (m calls).1
    → Grows k
    → Made c ((m >> k) calls).1
>>-Made m k calls c made gk = elim (Result-cases (m calls).0) [
  | inl (a, e) ↦ rw (e, Made) (gk (m calls).1 c made)
  | inr (x, e) ↦ rw (e, Made) made
]

-- Two statements that both return.
pub >>-returns :
    (m k : Exec Calls (Unit {0})) (calls : Calls)
    → ((m >> k) calls).0 ≡ ok tt
    → ((m calls).0 ≡ ok tt) × ((k (m calls).1).0 ≡ ok tt) × ((k (m calls).1).1 ≡ ((m >> k) calls).1)
>>-returns m k calls h = elim (Result-cases (m calls).0) [
  | inl (a, e) ↦ ground arith
  | inr (x, e) ↦ absurd (ground arith)
]

module _ {X : Type 0} (f : X → Exec Calls (Unit {0})) where
  pub for_each-Grows : ((x : X) → Grows (f x)) → (xs : List X) → Grows (for_each xs f)
  unfolding for_each
  for_each-Grows g [] calls c h = h
  for_each-Grows g (x ∷ xs) calls c h =
      >>-Grows (f x) (for_each xs f) (g x) (for_each-Grows g xs) calls c h

  module _ (k : X → Call) (g : (x : X) → Grows (f x))
      (makes : (x : X) (calls : Calls) → Made (k x) (f x calls).1) where
    pub for_each-Made :
        (xs : List X) (calls : Calls)
        → (for_each xs f calls).0 ≡ ok tt
        → All (λ x. Made (k x) (for_each xs f calls).1) xs
    unfolding for_each
    for_each-Made [] calls h = tt
    for_each-Made (x ∷ xs) calls h = elim (Result-cases (f x calls).0) [
      | inr (e, p) ↦ absurd (ground arith)
      | inl (u, p) ↦
          let rest : (for_each xs f (f x calls).1).0 ≡ ok tt = ground arith in
          let after : (for_each xs f (f x calls).1).1 ≡ (for_each (x ∷ xs) f calls).1 =
            ground arith in
          subst (λ t. All (λ y. Made (k y) t) (x ∷ xs)) after
            (
              for_each-Grows g xs (f x calls).1 (k x) (makes x calls),
              for_each-Made xs (f x calls).1 rest,
            )
    ]

-- The call was made for each handler that was created, if there is a list of them.
module _ {X : Type 0} (k : X → Call) where
  abbrev pub Asked : Option (List X) → Calls → Type 0
  Asked none calls = Unit
  Asked (some xs) calls = All (λ x. Made (k x) calls) xs

  All-Grows :
      (m : Exec Calls (Unit {0})) (xs : List X) (calls : Calls)
      → Grows m
      → All (λ x. Made (k x) calls) xs
      → All (λ x. Made (k x) (m calls).1) xs
  All-Grows m [] calls gm h = tt
  All-Grows m (x ∷ xs) calls gm h = (gm calls (k x) h.0, All-Grows m xs calls gm h.1)

  pub Asked-Grows :
      (m : Exec Calls (Unit {0})) (o : Option (List X)) (calls : Calls)
      → Grows m
      → Asked o calls
      → Asked o (m calls).1
  Asked-Grows m none calls gm h = tt
  Asked-Grows m (some xs) calls gm h = All-Grows m xs calls gm h

  module _ (f : X → Exec Calls (Unit {0})) (g : (x : X) → Grows (f x))
      (makes : (x : X) (calls : Calls) → Made (k x) (f x calls).1) where
    pub finish_each-Grows : (o : Option (List X)) → Grows (finish_each f o)
    finish_each-Grows none calls c h = h
    finish_each-Grows (some xs) calls c h = for_each-Grows f g xs calls c h

    pub finish_each-Asked :
        (o : Option (List X)) (calls : Calls)
        → (finish_each f o calls).0 ≡ ok tt
        → Asked o (finish_each f o calls).1
    finish_each-Asked none calls h = tt
    finish_each-Asked (some xs) calls h = for_each-Made f k g makes xs calls h
