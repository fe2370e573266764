-- ===== src/CsHandler/Resources/Renaming.antt =====
-- `rename_resource` and `create_resource` end: a server that knows finitely many names runs out of
-- reasons to refuse.
use cloudshell_shell_automat.Base.{
  String, ℕ, zero, suc, ◌≤◌, ◌<◌, ◌≡◌, ◌≢◌, refl, inl, inr, true, false, List, [], ◌∷◌, ◌==◌,
  eq_iff, elem, length, is_blank, arith, ltb, if◌then◌else◌, Bool-cases,
}
use cloudshell_shell_automat.Errors.{Exc}
use cloudshell_shell_automat.Exec.{Result, ok, err}
use cloudshell_shell_automat.Api.{Api, Call, Calls}
use cloudshell_shell_automat.Naming.{generate_new_resource_name}
use cloudshell_shell_automat.Naming.Sequence.{renamed, renamed_inj}
use cloudshell_shell_automat.CsHandler.Resources.{
  has_code, create_rounds, create_resource, rename_rounds, rename_resource,
}

-- A sequence with no repetition leaves every list of texts within one step more than its length.
abbrev IsInjective : (ℕ → String) → Type 0
IsInjective f = (i j : ℕ) → f i ≡ f j → i ≡ j

-- The sequence without its k-th member.
abbrev around : ℕ → ℕ → ℕ
around k j = if ltb j k then j else suc j

abbrev without : ℕ → (ℕ → String) → ℕ → String
without k f j = f (around k j)

without-IsInjective : (k : ℕ) (f : ℕ → String) → IsInjective f → IsInjective (without k f)
without-IsInjective k f inj i j e = ground (arith, inj (around k i) (around k j) e)

without-ne : (k j : ℕ) (f : ℕ → String) → IsInjective f → without k f j ≢ f k
without-ne k j f inj e = ground (arith, inj (around k j) k e)

abbrev Escape : (ℕ → String) → List String → Type 0
Escape f xs = (k : ℕ) × (k ≤ length xs) × (elem (f k) xs ≡ false)

Escape-cons :
    (x : String) (xs : List String) (f : ℕ → String)
    → IsInjective f
    → Escape f xs
    → ((k : ℕ) → Escape (without k f) xs)
    → Escape f (x ∷ xs)
Escape-cons x xs f inj (k, le, free) again = elim (Bool-cases (f k == x)) [
  | inr other ↦ (k, omega arith, rw other free)
  | inl same ↦
      let (j, le', free') = again k in
      (
        around k j,
        ground arith,
        ground (arith, eq_iff (f k) x, eq_iff (without k f j) x, without-ne k j f inj, free'),
      )
]

escape : (xs : List String) (f : ℕ → String) → IsInjective f → Escape f xs
escape [] f inj = (0, omega arith, refl)
escape (x ∷ xs) f inj =
    Escape-cons x xs f inj (escape xs f inj)
      (λ k. escape xs (without k f) (without-IsInjective k f inj))

-- Among the first `length taken + 1` names that are tried, one is not taken.
abbrev Free : String → List String → ℕ → Type 0
Free name taken k = elem (renamed k name) taken ≡ false

untaken_name :
    (taken : List String) (name : String)
    → is_blank name ≡ false
    → (k : ℕ) × (k ≤ length taken) × Free name taken k
untaken_name taken name h = escape taken (λ k. renamed k name) (λ i j. renamed_inj i j name h)

module _ (api : Api) (taken : List String) (refusal : Exc) where
  -- A server that refuses a name with the code 114 exactly if the name is taken.
  abbrev pub RefusesTaken : (String → Call) → Type 0
  RefusesTaken call =
      (calls : Calls) (name : String)
      → api.accept calls (call name) ≡ (if elem name taken then err refusal else ok tt)

  -- The loop ends with the first name that is not taken, one of the first k + 1 that are tried.
  abbrev pub Renames : String → ℕ → Result String × Calls → Type 0
  Renames name k run =
      (j : ℕ) × (j ≤ k)
      × (run.0 ≡ ok (renamed j name))
      × (elem (renamed j name) taken ≡ false)
      × ((i : ℕ) → i < j → elem (renamed i name) taken ≡ true)

  earlier_taken :
      (name : String) (j : ℕ)
      → elem name taken ≡ true
      → ((i : ℕ) → i < j → elem (renamed i (generate_new_resource_name name)) taken ≡ true)
      → (i : ℕ) → i < suc j
      → elem (renamed i name) taken ≡ true
  unfolding renamed
  earlier_taken name j here earlier zero lt = here
  earlier_taken name j here earlier (suc i) lt = earlier i (omega arith)

  -- One more refused name in front.
  Renames-suc :
      (name : String) (k : ℕ) (r : Result String × Calls)
      → elem name taken ≡ true
      → Renames (generate_new_resource_name name) k r
      → Renames name (suc k) r
  unfolding renamed
  Renames-suc name k r here (j, le, result, free, earlier) =
      (suc j, omega arith, result, free, earlier_taken name j here earlier)

  Renames-here :
      (name : String) (k : ℕ) (calls : Calls)
      → elem name taken ≡ false
      → Renames name k (ok name, calls)
  unfolding renamed
  Renames-here name k calls free = (0, omega arith, refl, free, λ i lt. absurd (omega arith))

  -- A loop that tries a name, and goes on with the next one if the name is taken.
  module _ (call : String → Call) (loop : ℕ → String → Calls → Result String × Calls)
      (step : (n : ℕ) (name : String) (calls : Calls)
        → loop (suc n) name calls ≡ (
            if elem name taken
            then loop n (generate_new_resource_name name) (call name ∷ calls)
            else (ok name, call name ∷ calls))) where
    loop-Renames :
        (n k : ℕ) (name : String) (calls : Calls)
        → k < n
        → Free name taken k
        → Renames name k (loop n name calls)
    unfolding renamed
    loop-Renames zero k name calls lt free = absurd (omega arith)
    loop-Renames (suc n) zero name calls lt free =
        rw (step n name calls, free) (Renames-here name 0 (call name ∷ calls) free)
    loop-Renames (suc n) (suc k) name calls lt free = elim (Bool-cases (elem name taken)) [
      | inl here ↦
          rw (step n name calls, here)
            (Renames-suc name k (loop n (generate_new_resource_name name) (call name ∷ calls)) here
              (loop-Renames n k (generate_new_resource_name name) (call name ∷ calls) (omega arith)
                free))
      | inr gone ↦ rw (step n name calls, gone) (Renames-here name (suc k) (call name ∷ calls) gone)
    ]

  rename_rounds-step :
      (current : String)
      → has_code "114" refusal ≡ true
      → RefusesTaken (Call.rename_resource current)
      → (n : ℕ) (name : String) (calls : Calls)
      → rename_rounds api (suc n) current name calls ≡ (
          if elem name taken
          then rename_rounds api n current
              (generate_new_resource_name name)
              (Call.rename_resource current name ∷ calls)
          else (ok name, Call.rename_resource current name ∷ calls))
  unfolding rename_rounds
  rename_rounds-step current code server n name calls = ground (arith, server calls name)

  -- If the server refuses, with the code 114, exactly the taken names, the requested name is not
  -- empty, and the bound on the rounds is greater than the number of taken names, then
  -- `rename_resource` returns, within one round more than there are taken names. What it returns is
  -- the first name that is not taken among the requested one and those that
  -- `generate_new_resource_name` gives after it.
  pub rename_resource-Renames :
      (fuel : ℕ) (current name : String) (calls : Calls)
      → has_code "114" refusal ≡ true
      → RefusesTaken (Call.rename_resource current)
      → is_blank name ≡ false
      → length taken < fuel
      → Renames name (length taken) (rename_resource api fuel current name calls)
  unfolding rename_resource
  rename_resource-Renames fuel current name calls code server h enough =
      let (k, le, free) = untaken_name taken name h in
      let (j, le', result, free', earlier) =
        loop-Renames (Call.rename_resource current) (λ n. rename_rounds api n current)
          (rename_rounds-step current code server) fuel k name calls (omega arith) free in
      (j, omega arith, result, free', earlier)

  create_rounds-step :
      (family model address parent : String)
      → has_code "114" refusal ≡ true
      → RefusesTaken (λ name. Call.create_resource family model name address parent)
      → (n : ℕ) (name : String) (calls : Calls)
      → create_rounds api (suc n) family model address parent true name calls ≡ (
          if elem name taken
          then create_rounds api n family model address parent true
              (generate_new_resource_name name)
              (Call.create_resource family model name address parent ∷ calls)
          else (ok name, Call.create_resource family model name address parent ∷ calls))
  unfolding create_rounds
  create_rounds-step family model address parent code server n name calls =
      ground (arith, server calls name)

  -- If the server refuses, with the code 114, exactly the taken names, the requested name is not
  -- empty, and the bound on the rounds is greater than the number of taken names, then
  -- `create_resource` with `create_new_resources_if_exists` returns, within one round more than
  -- there are taken names. What it returns is the first name that is not taken among the requested
  -- one and those that `generate_new_resource_name` gives after it.
  pub create_resource-Renames :
      (fuel : ℕ) (family model address parent name : String) (calls : Calls)
      → has_code "114" refusal ≡ true
      → RefusesTaken (λ (n : String). Call.create_resource family model n address parent)
      → is_blank name ≡ false
      → length taken < fuel
      → Renames name
          (length taken)
          (create_resource api fuel name model address family parent true calls)
  unfolding create_resource
  create_resource-Renames fuel family model address parent name calls code server h enough =
      let (k, le, free) = untaken_name taken name h in
      let (j, le', result, free', earlier) =
        loop-Renames (λ (n : String). Call.create_resource family model n address parent)
          (λ n. create_rounds api n family model address parent true)
          (create_rounds-step family model address parent code server) fuel k name calls
          (omega arith) free in
      (j, omega arith, result, free', earlier)

-- What `create_resource` returns for a reply if it may not look for another name.
abbrev pub kept_name : String → Result (Unit {0}) → Result String
kept_name name (ok u) = ok name
kept_name name (err e) = if has_code "114" e then ok name else err e

-- Without `create_new_resources_if_exists` the loop of `create_resource` runs once, whatever the
-- server replies: the requested name comes back if the resource was created or exists already, and
-- any other error is passed on.
pub create_resource_once :
    (api : Api) (n : ℕ) (name model address family parent : String) (calls : Calls)
    → let call = Call.create_resource family model name address parent in
      create_resource api (suc n) name model address family parent false calls
      ≡ (kept_name name (api.accept calls call), call ∷ calls)
unfolding create_resource create_rounds
create_resource_once api n name model address family parent calls = ground arith
