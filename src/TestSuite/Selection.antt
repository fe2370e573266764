-- ===== src/TestSuite/Selection.antt =====
-- `get_test_suite` of shell_tests/helpers/tests_helpers.py, and `is_suitable` and `test_case` of the
-- optional classes of shell_tests/automation_tests/test_save_config.py and test_restore_config.py.
-- Names of commands are taken to be ASCII.
pub mod Members
use cloudshell_shell_automat.Base.{
  String, Bool, true, false, not, ◌&&◌, Option, none, some, List, [], ◌∷◌, ◌++◌, elem, is_none,
  lowers_to, if◌then◌else◌,
}
use cloudshell_shell_automat.Base.Dict.{Dict, lookup}
use cloudshell_shell_automat.Errors.{Exc, key_error, other}
use cloudshell_shell_automat.Exec.{Result, ok, err}
use cloudshell_shell_automat.Configs.{MainConfig}
use cloudshell_shell_automat.ResourceHandler.State.{DeviceType}
use cloudshell_shell_automat.TestSuite.Table.{
  OptionalTestCase, save_ftp, save_scp, save_tftp, restore_ftp, restore_scp, restore_tftp, Entry,
  single, optional, test_cases_map, autoload_test_for_families,
}

unfoldable pub test_case : OptionalTestCase → String
test_case save_ftp = "TestSaveConfig"
test_case save_scp = "TestSaveConfigFromScp"
test_case save_tftp = "TestSaveConfigFromTftp"
test_case restore_ftp = "TestRestoreConfig"
test_case restore_scp = "TestRestoreConfigFromScp"
test_case restore_tftp = "TestRestoreConfigFromTftp"

unfoldable pub is_suitable : MainConfig → OptionalTestCase → Bool
is_suitable conf save_ftp = not (is_none conf.ftp_conf)
is_suitable conf save_scp = not (is_none conf.scp_conf)
is_suitable conf save_tftp = not (is_none conf.tftp_conf)
is_suitable conf restore_ftp = not (is_none conf.ftp_conf)
is_suitable conf restore_scp = not (is_none conf.scp_conf)
is_suitable conf restore_tftp = not (is_none conf.tftp_conf)

-- `d.get(command.lower())`, for keys with no capital letter
unfoldable pub lookup_lower : String → Dict Entry → Option Entry
lookup_lower command [] = none
lookup_lower command ((key, e) ∷ d) =
    if lowers_to key command then some e else lookup_lower command d

-- `if case not in cases: cases.append(case)`
unfoldable pub add_case : String → List String → List String
add_case case cases = if elem case cases then cases else cases ++ (case ∷ [])

unfoldable pub add_optional : MainConfig → List OptionalTestCase → List String → List String
unfolding add_case
add_optional conf [] cases = cases
add_optional conf (o ∷ os) cases =
    add_optional conf os (if is_suitable conf o then add_case (test_case o) cases else cases)

unfoldable pub add_entry : MainConfig → Option Entry → List String → List String
unfolding add_optional
add_entry conf none cases = cases
add_entry conf (some (single case)) cases = add_case case cases
add_entry conf (some (optional os)) cases = add_optional conf os cases

-- `for command in handler.get_commands()`
unfoldable pub add_commands : MainConfig → Dict Entry → List String → List String → List String
unfolding add_entry lookup_lower
add_commands conf table [] cases = cases
add_commands conf table (command ∷ commands) cases =
    add_commands conf table commands (add_entry conf (lookup_lower command table) cases)

-- `[test_cases_map.get("autoload")]`. The test loader fails later on what is no class.
unfoldable pub first_cases : String → Dict Entry → Result (List String)
first_cases family table =
    if elem family autoload_test_for_families
    then (elim (lookup "autoload" table) [
      | some (single case) ↦ ok (case ∷ [])
      | _ ↦ err (other "no class of test cases")
    ])
    else ok []

-- `TEST_CASES_MAP[handler.family][handler.device_type]`
unfoldable pub find_table : String → DeviceType → Result (Dict Entry)
find_table family device = elim (lookup family test_cases_map) [
  | none ↦ err (key_error family)
  | some cases ↦ (elim (cases device) [
    | none ↦ err (key_error "device type")
    | some table ↦ ok table
  ])
]

abbrev then_commands :
    MainConfig → Dict Entry → List String → Result (List String) → Result (List String)
then_commands conf table commands (ok cases) = ok (add_commands conf table commands cases)
then_commands conf table commands (err e) = err e

abbrev in_table : MainConfig → String → List String → Result (Dict Entry) → Result (List String)
in_table conf family commands (ok table) =
    then_commands conf table commands (first_cases family table)
in_table conf family commands (err e) = err e

-- The classes in the suite of a resource of this family and device type, with these commands.
unfoldable pub select_test_cases :
    MainConfig → String → DeviceType → List String → Result (List String)
select_test_cases conf family device commands =
    in_table conf family commands (find_table family device)

abbrev instances : String → List String → List (String × String)
instances case [] = []
instances case (name ∷ names) = (case, name) ∷ instances case names

-- The instances in the suite. The names of the tests in a class come from unittest's loader.
module _ (test_names : String → List String) where
  load : List String → List (String × String)
  load [] = []
  load (case ∷ cases) = instances case (test_names case) ++ load cases

  unfoldable pub get_test_suite :
      MainConfig → String → DeviceType → List String → Result (List (String × String))
  unfolding load
  get_test_suite conf family device commands =
      elim (select_test_cases conf family device commands) [
        | ok cases ↦ ok (load cases)
        | err e ↦ err e
      ]
