-- ===== src/Configs/Versions/Range.antt =====
-- Which versions of the configuration are accepted.
use Prim.Native.String.{[], ◌∷◌}
use text.Mathlib.TextLemmas.{nil-append, cons-append}
use cloudshell_shell_automat.Base.{
  String, ℕ, ◌<>◌, ◌≡◌, ◌≤◌, ◌↔◌, refl, true, some, List, split, all_digits, decimal, arith,
}
use cloudshell_shell_automat.Base.Decimal.{
  digits_value-decimal, all_digits-decimal, is_blank-decimal,
}
use cloudshell_shell_automat.Exec.{ok}
use cloudshell_shell_automat.Configs.Versions.{to_int, str_version_to_tuple, is_compatible_version}

split-digits : (v : String) → all_digits v ≡ true → split b'.' v ≡ List.◌∷◌ v List.[]
unfolding split all_digits
split-digits [] h = refl
split-digits (c ∷ v) h = ground (arith, split-digits v)

split-dot :
    (v w : String) → all_digits v ≡ true → split b'.' (v <> ("." <> w)) ≡ List.◌∷◌ v (split b'.' w)
unfolding split all_digits
split-dot [] w h = rw (nil-append, cons-append, nil-append)
split-dot (c ∷ v) w h = rw cons-append (ground (arith, split-dot v w))

to_int-decimal : (n : ℕ) → to_int (decimal n) ≡ some n
unfolding to_int
to_int-decimal n = rw (is_blank-decimal n, all_digits-decimal n, digits_value-decimal n)

-- `a.b` as a text.
abbrev pub dotted : ℕ → ℕ → String
dotted a b = decimal a <> ("." <> decimal b)

str_version_to_tuple-dotted :
    (a b : ℕ) → str_version_to_tuple (dotted a b) ≡ some (List.◌∷◌ a (List.◌∷◌ b List.[]))
unfolding str_version_to_tuple
str_version_to_tuple-dotted a b =
    rw (split-dot (decimal a) (decimal b) (all_digits-decimal a)) (
      rw (split-digits (decimal b) (all_digits-decimal b))
        (rw (to_int-decimal a, to_int-decimal b)))

-- A configuration of version a.b is accepted exactly if a is 0 and b lies between 13 and 16.
pub is_compatible_version-dotted :
    (a b : ℕ)
    → (is_compatible_version (dotted a b) ≡ ok (dotted a b)) ↔ ((a ≡ 0) × (13 ≤ b) × (b ≤ 16))
unfolding is_compatible_version
is_compatible_version-dotted a b = (
  λ h. ground (arith, str_version_to_tuple-dotted a b),
  λ h. ground (arith, str_version_to_tuple-dotted a b),
)
