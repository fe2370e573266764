-- ===== src/Packages/Position.antt =====
-- shell_tests/helpers/package_api/app_position.py. The random positions are a parameter: the position
-- drawn at the n-th draw.
use cloudshell_shell_automat.Base.{
  ℕ, zero, suc, ◌+◌, ◌<◌, ◌≤◌, ◌≡◌, refl, Bool, Bool-cases, inl, inr, false, ◌&&◌, ◌||◌, Option,
  none, some, List, [], ◌∷◌, ◌=?◌, arith, if◌then◌else◌,
}

-- `_app_num`, `_used_positions`, and the draws made so far
pub record AppPosition : Type 0 where
  pub app_num : ℕ
  pub used : List (ℕ × ℕ)
  pub drawn : ℕ

abbrev pub new_app_position : AppPosition
new_app_position = record { app_num = 1; used = []; drawn = 0 }

-- `DEFAULT_POSITIONS[n]`, or an `IndexError`
unfoldable pub default_position : ℕ → Option (ℕ × ℕ)
default_position zero = some (600, 240)
default_position (suc zero) = some (600, 340)
default_position (suc (suc zero)) = some (1100, 340)
default_position (suc (suc (suc zero))) = some (1100, 340)
default_position _ = none

abbrev same_position : ℕ × ℕ → ℕ × ℕ → Bool
same_position (a, b) (c, d) = a =? c && b =? d

unfoldable pub is_used : ℕ × ℕ → List (ℕ × ℕ) → Bool
is_used p [] = false
is_used p (q ∷ used) = same_position p q || is_used p used

module _ (random : ℕ → ℕ × ℕ) where
  -- The loop, on a bound of draws.
  unfoldable pub get_random_position : ℕ → ℕ → List (ℕ × ℕ) → Option ((ℕ × ℕ) × ℕ)
  unfolding is_used
  get_random_position zero drawn used = none
  get_random_position (suc n) drawn used =
      let again = get_random_position n (suc drawn) used in
      if is_used (random drawn) used then again else some (random drawn, suc drawn)

  abbrev take_random : AppPosition → Option ((ℕ × ℕ) × ℕ) → Option ((ℕ × ℕ) × AppPosition)
  take_random s none = none
  take_random s (some (p, drawn)) =
      some (p, record { app_num = s.app_num + 1; used = p ∷ s.used; drawn = drawn })

  abbrev take : ℕ → AppPosition → Option (ℕ × ℕ) → Option ((ℕ × ℕ) × AppPosition)
  take fuel s (some p) =
      some (p, record { app_num = s.app_num + 1; used = p ∷ s.used; drawn = s.drawn })
  take fuel s none = take_random s (get_random_position fuel s.drawn s.used)

  -- Nothing comes if the bound on the draws is met.
  unfoldable pub get_new_position : ℕ → AppPosition → Option ((ℕ × ℕ) × AppPosition)
  unfolding default_position get_random_position
  get_new_position fuel s = take fuel s (default_position s.app_num)

  drawn_unused :
      (n drawn : ℕ) (used : List (ℕ × ℕ)) (p : ℕ × ℕ) (d : ℕ)
      → get_random_position n drawn used ≡ some (p, d)
      → is_used p used ≡ false
  unfolding get_random_position
  drawn_unused zero drawn used p d h = absurd (cc h)
  drawn_unused (suc n) drawn used p d h = ground (arith, drawn_unused n (suc drawn) used p d)

  -- If one of the next draws, within the bound, is not used, then a position comes.
  drawn_some :
      (n drawn k : ℕ) (used : List (ℕ × ℕ))
      → k < n
      → is_used (random (drawn + k)) used ≡ false
      → (r : (ℕ × ℕ) × ℕ) × (get_random_position n drawn used ≡ some r)
  unfolding get_random_position
  drawn_some zero drawn k used lt h = absurd (omega arith)
  drawn_some (suc n) drawn zero used lt h =
      let here : drawn + 0 ≡ drawn = omega arith in
      let fresh = rw here at h in rw fresh ((random drawn, suc drawn), refl)
  drawn_some (suc n) drawn (suc k) used lt h =
      let next : drawn + suc k ≡ suc drawn + k = omega arith in
      let later = drawn_some n (suc drawn) k used (omega (arith, lt)) (rw next at h) in
      elim (Bool-cases (is_used (random drawn) used)) [
        | inl taken ↦ rw taken later
        | inr fresh ↦ rw fresh ((random drawn, suc drawn), refl)
      ]

  no_default : (n : ℕ) → 4 ≤ n → default_position n ≡ none
  unfolding default_position
  no_default zero h = absurd (omega arith)
  no_default (suc zero) h = absurd (omega arith)
  no_default (suc (suc zero)) h = absurd (omega arith)
  no_default (suc (suc (suc zero))) h = absurd (omega arith)
  no_default (suc (suc (suc (suc n)))) h = refl

  -- Behind the third app of a blueprint: if one of the next draws, within the bound, is a position that is
  -- not used yet, then `get_new_position` returns a position that is not used yet, and notes it.
  pub get_new_position-is_used :
      (fuel k : ℕ) (s : AppPosition)
      → 4 ≤ s.app_num
      → k < fuel
      → is_used (random (s.drawn + k)) s.used ≡ false
      → (p : ℕ × ℕ) × (t : AppPosition) × (get_new_position fuel s ≡ some (p, t))
        × (is_used p s.used ≡ false)
        × (t.used ≡ p ∷ s.used)
        × (t.app_num ≡ s.app_num + 1)
  unfolding get_new_position
  get_new_position-is_used fuel k s many lt free =
      let ((p, d), e) = drawn_some fuel s.drawn k s.used lt free in
      let t : AppPosition = record { app_num = s.app_num + 1; used = p ∷ s.used; drawn = d } in
      (
        p,
        t,
        rw (no_default s.app_num many, e) refl,
        drawn_unused fuel s.drawn s.used p d e,
        refl,
        refl,
      )
