-- ===== src/Exec.antt =====
-- Statements of a method that may raise. What was written before a raise stays written, so the state
-- comes back beside the exception too.
use cloudshell_shell_automat.Base.{
  ◌≡◌, refl, ◌⊎◌, inl, inr, Bool, true, false, List, [], ◌∷◌, ap, sym, arith,
}
use mathlib.Core.Path.{subst}
use cloudshell_shell_automat.Errors.{Exc}

pub data Result {ℓ} (A : Type ℓ) : Type ℓ where
  ok : A → Result A
  err : Exc → Result A

pub Result-cases {ℓ} :
    {A : Type ℓ} (r : Result A) → ((a : A) × (r ≡ ok a)) ⊎ ((e : Exc) × (r ≡ err e))
Result-cases (ok a) = inl (a, refl)
Result-cases (err e) = inr (e, refl)

abbrev pub Exec {ℓ} : Type ℓ → Type ℓ → Type ℓ
Exec S A = S → Result A × S

module _ {ℓ} {S A : Type ℓ} where
  abbrev pub pure : A → Exec S A
  pure a s = (ok a, s)

  abbrev pub raise : Exc → Exec S A
  raise e s = (err e, s)

  abbrev pub gets : (S → A) → Exec S A
  gets f s = (ok (f s), s)

  -- `try: m except <what the handler takes>: h`. A handler that does not take an exception raises it.
  abbrev pub catch : Exec S A → (Exc → Exec S A) → Exec S A
  catch m h s = let (r, s') = m s in elim r [ ok a ↦ (ok a, s') | err e ↦ h e s' ]

module _ {ℓ} {S A B : Type ℓ} where
  infixl 10 ◌>>=◌ ◌>>◌
  abbrev pub ◌>>=◌ : Exec S A → (A → Exec S B) → Exec S B
  ◌>>=◌ m f s = let (r, s') = m s in elim r [ ok a ↦ f a s' | err e ↦ (err e, s') ]

  abbrev pub ◌>>◌ : Exec S A → Exec S B → Exec S B
  m >> k = m >>= λ _. k

module _ {ℓ} {S A B : Type ℓ} where
  -- `try: m finally: k`. An exception of `k` replaces the one of `m`.
  abbrev pub finally : Exec S A → Exec S B → Exec S A
  finally m k s =
      let (r, s') = m s in let (q, s'') = k s' in elim q [ ok b ↦ (r, s'') | err e ↦ (err e, s'') ]

abbrev pub skip : {S : Type 0} → Exec S (Unit {0})
skip s = (ok tt, s)

abbrev pub modify : {S : Type 0} → (S → S) → Exec S (Unit {0})
modify f s = (ok tt, f s)

abbrev pub when : {S : Type 0} → Bool → Exec S (Unit {0}) → Exec S (Unit {0})
when true m = m
when false m = skip

-- `for x in xs: body(x)`
unfoldable pub for_each : {S A : Type 0} → List A → (A → Exec S (Unit {0})) → Exec S (Unit {0})
for_each [] body = skip
for_each (x ∷ xs) body = body x >> for_each xs body

-- A method on a part of the state.
abbrev pub on : {S T A : Type 0} → (S → T) → (T → S → S) → Exec T A → Exec S A
on part put m s = let (r, t) = m (part s) in (r, put t s)

module _ {ℓ} {S A B : Type ℓ} where
  -- The parts of a sequence that returned.
  pub >>=-eq-ok :
      (m : Exec S A) (f : A → Exec S B) (s : S) {b : B}
      → ((m >>= f) s).0 ≡ ok b
      → (a : A) × (m s ≡ (ok a, (m s).1)) × ((m >>= f) s ≡ f a (m s).1) × ((f a (m s).1).0 ≡ ok b)
  >>=-eq-ok m f s h = elim (Result-cases (m s).0) [
    | inl (a, e) ↦ (a, ap (λ r. (r, (m s).1)) e, ground (arith, e), ground (arith, e, h))
    | inr (x, e) ↦ absurd (ground (arith, e, h))
  ]

  -- What holds behind the last step that returns, holds behind the sequence.
  pub >>=-Ends :
      (P : S → Type ℓ) (m : Exec S A) (f : A → Exec S B) {b : B}
      → ((a : A) (s : S) → (f a s).0 ≡ ok b → P (f a s).1)
      → (s : S) → ((m >>= f) s).0 ≡ ok b
      → P ((m >>= f) s).1
  >>=-Ends P m f last s h =
      let (a, _, e, g) = >>=-eq-ok m f s h in subst (λ r. P r.1) (sym e) (last a (m s).1 g)
