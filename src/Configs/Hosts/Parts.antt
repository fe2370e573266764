-- ===== src/Configs/Hosts/Parts.antt =====
-- How a host splits into its location and its path.
use Prim.Native.String.{[], ◌∷◌}
use text.Mathlib.TextLemmas.{nil-append, cons-append}
use text.Mathlib.TextEquality.{Char-path}
use cloudshell_shell_automat.Base.{
  String, Char, code, ◌<>◌, ◌≡◌, refl, ap, sym, ◌∙◌, ◌⊎◌, inl, inr, true, false, none, some,
  break_first, strip, arith, ◌=?◌, Option-cases, Bool-cases,
}
use cloudshell_shell_automat.Configs.{HostConfig}
use cloudshell_shell_automat.Configs.Hosts.{netloc, path}

strip-append : (p s : String) → strip p (p <> s) ≡ some s
unfolding strip
strip-append [] s = rw nil-append
strip-append (c ∷ p) s = rw cons-append (ground (arith, strip-append p s))

strip_self : (s : String) → strip s s ≡ some ""
unfolding strip
strip_self [] = refl
strip_self (c ∷ s) = ground (arith, strip_self s)

-- The parts around the first slash.
abbrev Around : String → String → String → Type 0
Around s a b = (s ≡ a <> ("/" <> b)) × (break_first b'/' a ≡ none)

Around-here : (c : Char) (s : String) → (code c =? b'/') ≡ true → Around (c ∷ s) "" s
unfolding break_first
Around-here c s h = (
  rw (nil-append, cons-append, nil-append) (ap (λ d. d ∷ s) (Char-path c "/" (ground arith))),
  refl,
)

Around-cons :
    (c : Char) (s a b : String) → (code c =? b'/') ≡ false → Around s a b → Around (c ∷ s) (c ∷ a) b
unfolding break_first
Around-cons c s a b h (e, clean) = (rw (cons-append, e), rw (h, clean))

break_first-Around : (s a b : String) → break_first b'/' s ≡ some (a, b) → Around s a b
unfolding break_first
break_first-Around [] a b h = absurd (cc h)
break_first-Around (c ∷ s) a b h = elim (Bool-cases (code c =? b'/')) [
  | inl here ↦
      let ea : a ≡ "" = ground arith in
      let eb : b ≡ s = ground arith in rw (ea, eb) (Around-here c s here)
  | inr later ↦ elim (Option-cases (break_first b'/' s)) [
    | inl gone ↦ absurd (ground arith)
    | inr ((a', b'), e) ↦
        let ea : a ≡ c ∷ a' = ground arith in
        let eb : b ≡ b' = ground arith in
        rw (ea, eb) (Around-cons c s a' b' later (break_first-Around s a' b' e))
  ]
]

slash-append : (b : String) → "/" <> b ≡ "/" ∷ b
slash-append b = cons-append "/" "" b ∙ ap (λ t. "/" ∷ t) (nil-append b)

slashes-append : (b : String) → "//" <> b ≡ "/" ∷ ("/" ∷ b)
slashes-append b = cons-append "/" "/" b ∙ ap (λ t. "/" ∷ t) (slash-append b)

path-whole : (c : HostConfig) → break_first b'/' c.host ≡ none → path c ≡ ""
unfolding path netloc
path-whole c e = rw e (rw (strip_self c.host))

path-Around :
    (c : HostConfig) (a b : String) → break_first b'/' c.host ≡ some (a, b) → path c ≡ "//" <> b
unfolding path netloc
path-Around c a b e = rw (e) (
    rw ((break_first-Around c.host a b e).0) (
      rw (strip-append a ("/" <> b))
        (rw (slash-append b) (slash-append ("/" ∷ b) ∙ sym (slashes-append b)))))

-- The location holds no slash. Either it is the whole host, and the path is empty, or the host goes on
-- with a slash and some text, and the path is that rest of the host behind one more slash.
pub netloc-path :
    (c : HostConfig)
    → (break_first b'/' (netloc c) ≡ none)
      × (((c.host ≡ netloc c) × (path c ≡ ""))
          ⊎ ((rest : String) × (c.host ≡ netloc c <> ("/" <> rest)) × (path c ≡ "//" <> rest)))
unfolding netloc
netloc-path c = elim (Option-cases (break_first b'/' c.host)) [
  | inl whole ↦ rw whole (whole, inl (refl, path-whole c whole))
  | inr ((a, b), e) ↦ rw e (
      let (parts, clean) = break_first-Around c.host a b e in
      (clean, inr (b, parts, path-Around c a b e)))
]
