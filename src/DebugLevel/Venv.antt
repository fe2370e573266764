-- ===== src/DebugLevel/Venv.antt =====
-- The venv that is chosen for a resource.
use cloudshell_shell_automat.Base.{
  String, ℕ, ◌≤◌, ◌≡◌, Bool-cases, true, false, List, [], ◌∷◌, All, inl, inr, arith, keep, ltb,
  ltb→lt, elem, eq_refl,
}
use cloudshell_shell_automat.Exec.{Result-cases, ok}
use cloudshell_shell_automat.DebugLevel.{version_of, greatest, has_prefix, choose_venv, find_venv}

-- The name has the version v, and no name has a greater one.
abbrev pub IsLatest : String → String → ℕ → List String → Type 0
IsLatest prefix name v names =
    (version_of prefix name ≡ ok v)
    × All (λ n. (w : ℕ) × (version_of prefix n ≡ ok w) × (w ≤ v)) names

not_lt : (v w : ℕ) → ltb v w ≡ false → w ≤ v
not_lt v w h = ground arith

greatest-IsLatest :
    (prefix best : String) (v : ℕ) (names : List String) (name : String)
    → version_of prefix best ≡ ok v
    → greatest prefix best v names ≡ ok name
    → (w : ℕ) × (v ≤ w) × IsLatest prefix name w names
unfolding greatest
greatest-IsLatest prefix best v [] name h e = (v, omega arith, (ground (arith, h, e), tt))
greatest-IsLatest prefix best v (n ∷ names) name h e = elim (Result-cases (version_of prefix n)) [
  | inr (x, bad) ↦ absurd (ground (arith, bad, e))
  | inl (w, read) ↦ elim (Bool-cases (ltb v w)) [
    | inl newer ↦
        let (u, le, (same, rest)) =
          greatest-IsLatest prefix n w names name read (ground (arith, read, newer, e)) in
        (u, omega (arith, ltb→lt v w newer, le), (same, ((w, read, le), rest)))
    | inr older ↦
        let (u, le, (same, rest)) =
          greatest-IsLatest prefix best v names name h (ground (arith, read, older, e)) in
        (u, le, (same, ((w, read, omega (arith, not_lt v w older, le)), rest)))
  ]
]

-- The name is the first one or one of the others.
elem-greatest :
    (prefix best : String) (v : ℕ) (names : List String) (name : String)
    → greatest prefix best v names ≡ ok name
    → elem name (best ∷ names) ≡ true
unfolding greatest
elem-greatest prefix best v [] name e = ground (arith, e, eq_refl name)
elem-greatest prefix best v (n ∷ names) name e = elim (Result-cases (version_of prefix n)) [
  | inr (x, bad) ↦ absurd (ground (arith, bad, e))
  | inl (w, read) ↦ elim (Bool-cases (ltb v w)) [
    | inl newer ↦
        let there = elem-greatest prefix n w names name (ground (arith, read, newer, e)) in
        ground (arith, there)
    | inr older ↦
        let there = elem-greatest prefix best v names name (ground (arith, read, older, e)) in
        ground (arith, there)
  ]
]

elem-choose_venv :
    (prefix resource : String) (names suitable : List String) (name : String)
    → choose_venv prefix resource names suitable ≡ ok name
    → elem name suitable ≡ true
unfolding choose_venv
elem-choose_venv prefix resource names [] name e = absurd (cc e)
elem-choose_venv prefix resource names (n ∷ ns) name e = elim (Result-cases (version_of prefix n)) [
  | inr (x, bad) ↦ absurd (ground (arith, bad, e))
  | inl (v, read) ↦ elem-greatest prefix n v ns name (ground (arith, read, e))
]

choose_venv-IsLatest :
    (prefix resource : String) (names suitable : List String) (name : String)
    → choose_venv prefix resource names suitable ≡ ok name
    → (w : ℕ) × IsLatest prefix name w suitable
unfolding choose_venv
choose_venv-IsLatest prefix resource names [] name e = absurd (cc e)
choose_venv-IsLatest prefix resource names (n ∷ ns) name e =
    elim (Result-cases (version_of prefix n)) [
      | inr (x, bad) ↦ absurd (ground (arith, bad, e))
      | inl (v, read) ↦
          let (w, le, (same, rest)) =
            greatest-IsLatest prefix n v ns name read (ground (arith, read, e)) in
          (w, (same, ((v, read, le), rest)))
    ]

-- If a venv is found for a model, then it is one of the names that begin with the prefix of the model,
-- it has a version, and each of these names has one, which is not greater.
pub find_venv-IsLatest :
    (prefix resource : String) (names : List String) (name : String)
    → find_venv prefix resource names ≡ ok name
    → (elem name (keep (has_prefix prefix) names) ≡ true)
      × ((w : ℕ) × IsLatest prefix name w (keep (has_prefix prefix) names))
unfolding find_venv
find_venv-IsLatest prefix resource names name e =
    let suitable = keep (has_prefix prefix) names in
    (
      elem-choose_venv prefix resource names suitable name e,
      choose_venv-IsLatest prefix resource names suitable name e,
    )
