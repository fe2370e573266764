-- ===== src/Base/Containing.antt =====
-- A text that is in one part of a text is in the whole.
use Prim.Native.String.{String, [], ◌∷◌, ◌++◌}
use mathlib.Core.Path.{◌≡◌, refl, ap, sym, ◌∙◌}
use mathlib.Core.Logic.{inl, inr}
use mathlib.Core.Bool.{true}
use native.Mathlib.Omega.{arith}
use text.Mathlib.Text.{starts_with}
use text.Mathlib.TextEquality.{starts_with_iff}
use text.Mathlib.TextPositions.{starts_with_of_prefix}
use text.Mathlib.TextLemmas.{nil-append, cons-append, append_assoc}
use cloudshell_shell_automat.Base.Logic.{Bool-cases}
use cloudshell_shell_automat.Base.Text.{contains}

pub contains-append_left :
    (part a s : String) → contains part s ≡ true → contains part (a ++ s) ≡ true
unfolding contains
contains-append_left part [] s h = rw nil-append h
contains-append_left part (c ∷ a) s h =
    rw cons-append (ground (arith, contains-append_left part a s h))

starts_with-append_right :
    (s b part : String) → starts_with s part ≡ true → starts_with (s ++ b) part ≡ true
starts_with-append_right s b part h =
    let (u, e) = (starts_with_iff s part).0 h in
    starts_with_of_prefix part (s ++ b) (u ++ b, sym (append_assoc part u b) ∙ ap (λ v. v ++ b) e)

starts_with-contains : (s part : String) → starts_with s part ≡ true → contains part s ≡ true
unfolding contains
starts_with-contains [] part h = h
starts_with-contains (c ∷ s) part h = rw h refl

pub contains-append_right :
    (part s b : String) → contains part s ≡ true → contains part (s ++ b) ≡ true
unfolding contains
contains-append_right part [] b h =
    starts_with-contains ([] ++ b) part (starts_with-append_right [] b part h)
contains-append_right part (c ∷ s) b h = elim (Bool-cases (starts_with (c ∷ s) part)) [
  | inl here ↦
      starts_with-contains ((c ∷ s) ++ b) part (starts_with-append_right (c ∷ s) b part here)
  | inr later ↦ rw cons-append (ground (arith, contains-append_right part s b (rw later at h)))
]
