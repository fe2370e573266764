-- ===== src/TestSuite/Selection/Members.antt =====
-- The suite holds exactly the classes that the tables offer, each once.
use cloudshell_shell_automat.Base.{
  String, ◌≡◌, refl, ◌∙◌, Bool-cases, inl, inr, Bool, true, false, ◌&&◌, ◌||◌, Option, none, some,
  List, [], ◌∷◌, ◌++◌, ◌==◌, eq_iff, elem, any, arith, if◌then◌else◌,
}
use cloudshell_shell_automat.Base.Dict.{Dict, lookup}
use cloudshell_shell_automat.Exec.{Result, Result-cases, ok, err}
use cloudshell_shell_automat.Errors.{other}
use mathlib.Core.Path.{subst}
use cloudshell_shell_automat.Configs.{MainConfig}
use cloudshell_shell_automat.ResourceHandler.State.{DeviceType}
use cloudshell_shell_automat.TestSuite.Table.{
  OptionalTestCase, Entry, single, optional, autoload_test_for_families,
}
use cloudshell_shell_automat.TestSuite.Selection.{
  test_case, is_suitable, lookup_lower, add_case, add_optional, add_entry, add_commands,
  first_cases, find_table, select_test_cases,
}

-- The classes that an entry of a table offers under a configuration.
abbrev pub offers : MainConfig → Option Entry → String → Bool
offers conf none case = false
offers conf (some (single c)) case = case == c
offers conf (some (optional os)) case =
    any (λ (o : OptionalTestCase). is_suitable conf o && case == test_case o) os

regroup : (a b c d : Bool) → a ≡ (b || c) → (a || d) ≡ (b || (c || d))
regroup a b c d h = ground arith

elem-append :
    (case c : String) (cases : List String)
    → elem case (cases ++ (c ∷ [])) ≡ (elem case cases || case == c)
elem-append case c [] = ground arith
elem-append case c (x ∷ cases) = ground (arith, elem-append case c cases)

elem-add_case :
    (case c : String) (cases : List String)
    → elem case (add_case c cases) ≡ (elem case cases || case == c)
unfolding add_case
elem-add_case case c cases = ground (arith, elem-append case c cases, eq_iff case c)

elem-add_optional :
    (conf : MainConfig) (case : String) (os : List OptionalTestCase) (cases : List String)
    → elem case (add_optional conf os cases)
      ≡ (elem case cases || offers conf (some (optional os)) case)
unfolding add_optional
elem-add_optional conf case [] cases = ground arith
elem-add_optional conf case (o ∷ os) cases =
    elem-add_optional conf case os
      (if is_suitable conf o then add_case (test_case o) cases else cases)
    ∙ regroup _ _ _ _ (added (is_suitable conf o))
  where
    added :
        (suits : Bool)
        → elem case (if suits then add_case (test_case o) cases else cases)
          ≡ (elem case cases || (suits && case == test_case o))
    added true = elem-add_case case (test_case o) cases
    added false = ground arith

elem-add_entry :
    (conf : MainConfig) (case : String) (e : Option Entry) (cases : List String)
    → elem case (add_entry conf e cases) ≡ (elem case cases || offers conf e case)
unfolding add_entry
elem-add_entry conf case none cases = ground arith
elem-add_entry conf case (some (single c)) cases = elem-add_case case c cases
elem-add_entry conf case (some (optional os)) cases = elem-add_optional conf case os cases

elem-add_commands :
    (conf : MainConfig) (table : Dict Entry) (case : String) (commands cases : List String)
    → elem case (add_commands conf table commands cases) ≡ (
        elem case cases
        || any (λ (command : String). offers conf (lookup_lower command table) case) commands)
unfolding add_commands
elem-add_commands conf table case [] cases = ground arith
elem-add_commands conf table case (command ∷ commands) cases =
    elem-add_commands conf table case commands (add_entry conf (lookup_lower command table) cases)
    ∙ regroup _ _ _ _ (elem-add_entry conf case (lookup_lower command table) cases)

abbrev pub first_case : Result (List String) → List String
first_case (ok cases) = cases
first_case (err e) = []

-- If there is a table for the family and the device type, and the choice of the classes succeeds,
-- then a class is in the suite exactly if it is the Autoload test of this table, where the family
-- wants one, or one of the resource's commands, in any case of letters, has an entry that offers
-- it: the class itself, or an optional class whose server is configured.
pub select_test_cases-elem :
    (conf : MainConfig) (family : String) (device : DeviceType) (commands : List String)
    (table : Dict Entry) (cases : List String) (case : String)
    → find_table family device ≡ ok table
    → select_test_cases conf family device commands ≡ ok cases
    → elem case cases ≡ (
        elem case (first_case (first_cases family table))
        || any (λ (command : String). offers conf (lookup_lower command table) case) commands)
unfolding select_test_cases
select_test_cases-elem conf family device commands table cases case found selected =
    elim (Result-cases (first_cases family table)) [
      | inl (first, e) ↦
          let made : cases ≡ add_commands conf table commands first = ground arith in
          rw (e, made) (elem-add_commands conf table case commands first)
      | inr (x, e) ↦ absurd (ground arith)
    ]

abbrev pub Distinct : List String → Type 0
Distinct [] = Unit
Distinct (x ∷ xs) = (elem x xs ≡ false) × Distinct xs

Distinct-append :
    (c : String) (cases : List String)
    → elem c cases ≡ false
    → Distinct cases
    → Distinct (cases ++ (c ∷ []))
Distinct-append c [] h d = (refl, tt)
Distinct-append c (x ∷ cases) h d = (
  ground (arith, elem-append x c cases, eq_iff x c, eq_iff c x),
  Distinct-append c cases (ground arith) d.1,
)

add_case-Distinct :
    (c : String) (cases : List String) → Distinct cases → Distinct (add_case c cases)
unfolding add_case
add_case-Distinct c cases d = elim (Bool-cases (elem c cases)) [
  | inl there ↦ rw there d
  | inr new ↦ rw new (Distinct-append c cases new d)
]

add_optional-Distinct :
    (conf : MainConfig) (os : List OptionalTestCase) (cases : List String)
    → Distinct cases
    → Distinct (add_optional conf os cases)
unfolding add_optional
add_optional-Distinct conf [] cases d = d
add_optional-Distinct conf (o ∷ os) cases d =
    add_optional-Distinct conf os _ (added (is_suitable conf o))
  where
    added : (suits : Bool) → Distinct (if suits then add_case (test_case o) cases else cases)
    added true = add_case-Distinct (test_case o) cases d
    added false = d

add_entry-Distinct :
    (conf : MainConfig) (e : Option Entry) (cases : List String)
    → Distinct cases
    → Distinct (add_entry conf e cases)
unfolding add_entry
add_entry-Distinct conf none cases d = d
add_entry-Distinct conf (some (single c)) cases d = add_case-Distinct c cases d
add_entry-Distinct conf (some (optional os)) cases d = add_optional-Distinct conf os cases d

add_commands-Distinct :
    (conf : MainConfig) (table : Dict Entry) (commands cases : List String)
    → Distinct cases
    → Distinct (add_commands conf table commands cases)
unfolding add_commands
add_commands-Distinct conf table [] cases d = d
add_commands-Distinct conf table (command ∷ commands) cases d =
    add_commands-Distinct conf table commands (add_entry conf (lookup_lower command table) cases)
      (add_entry-Distinct conf (lookup_lower command table) cases d)

first_cases-Distinct :
    (family : String) (table : Dict Entry) (cases : List String)
    → first_cases family table ≡ ok cases
    → Distinct cases
unfolding first_cases
first_cases-Distinct family table cases h =
    subst (λ r. Distinct (first_case r)) h
      (wanted (elem family autoload_test_for_families) (lookup "autoload" table))
  where
    wanted :
        (wants : Bool) (found : Option Entry)
        → Distinct (
            first_case (
              if wants
              then (elim found [
                | some (single case) ↦ ok (case ∷ [])
                | _ ↦ err (other "no class of test cases")
              ])
              else ok []))
    wanted true none = tt
    wanted true (some (single case)) = (refl, tt)
    wanted true (some (optional os)) = tt
    wanted false found = tt

-- If the choice of the classes succeeds, no class stands in the suite twice.
pub select_test_cases-Distinct :
    (conf : MainConfig) (family : String) (device : DeviceType) (commands cases : List String)
    → select_test_cases conf family device commands ≡ ok cases
    → Distinct cases
unfolding select_test_cases
select_test_cases-Distinct conf family device commands cases h =
    elim (Result-cases (find_table family device)) [
      | inr (x, e) ↦ absurd (ground arith)
      | inl (table, e) ↦ (elim (Result-cases (first_cases family table)) [
        | inr (x, f) ↦ absurd (ground arith)
        | inl (start, f) ↦
            let made : cases ≡ add_commands conf table commands start = ground arith in
            rw made (
              add_commands-Distinct conf table commands start
                (first_cases-Distinct family table start f))
      ])
    ]
