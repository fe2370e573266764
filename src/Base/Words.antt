-- ===== src/Base/Words.antt =====
-- `s.split()`: the parts of a text between white space.
use Prim.Native.Nat.{ℕ}
use Prim.Native.Char.{Char, code}
use Prim.Native.String.{String, ◌++◌ as ◌<>◌}
use mathlib.Core.Path.{◌≡◌, refl}
use mathlib.Core.Logic.{inl, inr}
use mathlib.Core.Bool.{Bool, true, false, not, ◌&&◌, ◌||◌}
use mathlib.Core.List.{List, [], ◌∷◌, ◌++◌}
use native.Mathlib.Omega.{arith}
use text.Mathlib.TextLemmas.{nil-append, cons-append}
use cloudshell_shell_automat.Base.Logic.{Bool-cases, leb, ◌=?◌, if◌then◌else◌}

-- `str.isspace` of a character
unfoldable pub is_space : ℕ → Bool
is_space n =
    (leb 9 n && leb n 13)
    || (leb 28 n && leb n 32)
    || n =? 133
    || n =? 160
    || n =? 5760
    || (leb 8192 n && leb n 8202)
    || n =? 8232
    || n =? 8233
    || n =? 8239
    || n =? 8287
    || n =? 12288

-- No character is white space.
abbrev pub no_space : String → Bool
no_space String.[] = true
no_space (String.◌∷◌ c s) = not (is_space (code c)) && no_space s

-- A text with a character, and with no white space.
abbrev pub is_word : String → Bool
is_word String.[] = false
is_word (String.◌∷◌ c s) = not (is_space (code c)) && no_space s

abbrev begins_word : String → Bool
begins_word String.[] = false
begins_word (String.◌∷◌ c s) = not (is_space (code c))

-- A character in front of the first word.
abbrev longer : Char → List String → List String
longer c [] = String.◌∷◌ c String.[] ∷ []
longer c (w ∷ ws) = String.◌∷◌ c w ∷ ws

-- A character that is no white space, in front of a text with these words.
abbrev in_front : Char → Bool → List String → List String
in_front c true ws = longer c ws
in_front c false ws = String.◌∷◌ c String.[] ∷ ws

-- `s.split()`
unfoldable pub words : String → List String
unfolding is_space
words String.[] = []
words (String.◌∷◌ c s) =
    let rest = words s in if is_space (code c) then rest else in_front c (begins_word s) rest

in_front-cons :
    (c : Char) (b : Bool) (ws : List String)
    → (w : String) × (vs : List String) × (in_front c b ws ≡ w ∷ vs)
in_front-cons c true [] = (String.◌∷◌ c String.[], [], refl)
in_front-cons c true (w ∷ ws) = (String.◌∷◌ c w, ws, refl)
in_front-cons c false ws = (String.◌∷◌ c String.[], ws, refl)

begins_word-words :
    (s : String) → begins_word s ≡ true → (w : String) × (ws : List String) × (words s ≡ w ∷ ws)
unfolding words
begins_word-words String.[] h = absurd (ground (arith, h))
begins_word-words (String.◌∷◌ c s) h =
    let (w, vs, e) = in_front-cons c (begins_word s) (words s) in (w, vs, ground (arith, e, h))

longer-append :
    (c : Char) (w : String) (us vs ws : List String)
    → us ≡ w ∷ ws
    → longer c (us ++ vs) ≡ longer c us ++ vs
longer-append c w us vs ws e = rw e refl

begins_word-append : (s t : String) → begins_word (s <> String.◌∷◌ " " t) ≡ begins_word s
unfolding is_space
begins_word-append String.[] t = rw nil-append refl
begins_word-append (String.◌∷◌ c s) t = rw cons-append refl

in_front-append :
    (c : Char) (s : String) (vs : List String)
    → in_front c (begins_word s) (words s ++ vs) ≡ in_front c (begins_word s) (words s) ++ vs
in_front-append c s vs = elim (Bool-cases (begins_word s)) [
  | inl starts ↦
      let (w, ws, e) = begins_word-words s starts in rw starts (longer-append c w (words s) vs ws e)
  | inr ends ↦ rw ends refl
]

-- The words of two texts with a blank between them.
pub words-append : (s t : String) → words (s <> String.◌∷◌ " " t) ≡ words s ++ words t
unfolding words
words-append String.[] t = rw nil-append refl
words-append (String.◌∷◌ c s) t = rw cons-append (elim (Bool-cases (is_space (code c))) [
  | inl blank ↦ rw blank (words-append s t)
  | inr more ↦
      rw more (rw (begins_word-append s t, words-append s t) (in_front-append c s (words t)))
])

pub words-word : (w : String) → is_word w ≡ true → words w ≡ w ∷ []
unfolding words
words-word String.[] h = absurd (ground (arith, h))
words-word (String.◌∷◌ c String.[]) h = ground (arith, h)
words-word (String.◌∷◌ c (String.◌∷◌ d s)) h = ground (arith, h, words-word (String.◌∷◌ d s))
