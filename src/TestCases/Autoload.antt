-- ===== src/TestCases/Autoload.antt =====
-- shell_tests/automation_tests/test_autoload.py and test_run_custom_command.py. How Python shows a text
-- in quotes is modelled for texts with nothing to escape.
pub mod Ports
use cloudshell_shell_automat.Base.{String, ◌<>◌, Bool, contains, not, is_blank, if◌then◌else◌}
use cloudshell_shell_automat.Errors.{Exc, api_error, assertion_error}
use cloudshell_shell_automat.Exec.{Exec, ok, err, raise, skip, ◌>>=◌, ◌>>◌}
use cloudshell_shell_automat.Api.{Api, ResourceInfo, Children, resource_info, no_child, child}
use cloudshell_shell_automat.ResourceHandler.State.{State, get_details}
use cloudshell_shell_automat.ResourceHandler.Autoload.{autoload}
use cloudshell_shell_automat.ResourceHandler.Commands.{
  run_custom_command, run_custom_config_command,
}
use cloudshell_shell_automat.TestCases.Base.{assert_true, assert_raises_regex}
use cloudshell_shell_automat.TestCases.SaveRestore.{is_api_error}

-- `repr(self._get_structure(info))`
unfoldable mutual
  pub repr_structure : ResourceInfo → String
  repr_structure (resource_info h no_child) = "'" <> (h.family <> "'")
  repr_structure (resource_info h (child c cs)) =
      "{'" <> (h.family <> ("': [" <> (repr_structure c <> (repr_rest cs <> "]}"))))

  pub repr_rest : Children → String
  repr_rest no_child = ""
  repr_rest (child c cs) = ", " <> (repr_structure c <> repr_rest cs)

-- `str(structure)`: a text alone stands without quotes.
unfoldable pub str_structure : ResourceInfo → String
unfolding repr_structure
str_structure (resource_info h no_child) = h.family
str_structure (resource_info h (child c cs)) = repr_structure (resource_info h (child c cs))

abbrev pub assert_in : {S : Type 0} → String → String → Exec S (Unit {0})
assert_in part s = if contains part s then skip else raise (assertion_error "not found")

module _ (api : Api) where
  -- `get_details`, `_get_structure` and the assertion
  unfoldable pub check_structure : String → Exec State (Unit {0})
  unfolding str_structure
  check_structure family = get_details api >>= λ info. assert_in family (str_structure info)

  -- `TestAutoloadNetworkDevices`, and with `CS_TrafficGeneratorPort` the traffic generator's
  unfoldable pub test_structure : String → Exec State (Unit {0})
  unfolding autoload check_structure
  test_structure family = autoload api >> check_structure family

  -- `TestAutoloadWithoutPorts` and `TestAutoloadShellFromTemplate`
  unfoldable pub test_autoload : Exec State (Unit {0})
  unfolding autoload
  test_autoload = autoload api

  -- `TestAutoloadVirtualTrafficGeneratorDevices`
  unfoldable pub test_virtual_structure : Exec State (Unit {0})
  unfolding check_structure
  test_virtual_structure = check_structure "CS_VirtualTrafficGeneratorPort"

  -- `TestRunCustomCommand`
  unfoldable pub test_run_custom_command : Exec State (Unit {0})
  unfolding run_custom_command
  test_run_custom_command =
      run_custom_command api "show version" >>= λ output. assert_true (not (is_blank output))

  unfoldable pub test_run_custom_config_command : Exec State (Unit {0})
  unfolding run_custom_config_command
  test_run_custom_config_command =
      run_custom_config_command api "show version" >>= λ output. assert_true (not (is_blank output))

module _ (api : Api) (search : String → String → Bool) where
  -- `TestAutoloadWithoutDevice`
  unfoldable pub test_autoload_without_device : Exec State (Unit {0})
  unfolding autoload is_api_error
  test_autoload_without_device =
      assert_raises_regex search is_api_error "(SessionManagerException|\\'ConnectionError\\')"
        (autoload api)

  -- `TestRunCustomCommandWithoutDevice`
  unfoldable pub test_run_custom_command_without_device : Exec State (Unit {0})
  unfolding run_custom_command is_api_error
  test_run_custom_command_without_device =
      assert_raises_regex search is_api_error "SessionManagerException"
        (run_custom_command api "show version" >> skip)

  unfoldable pub test_run_custom_config_command_without_device : Exec State (Unit {0})
  unfolding run_custom_config_command is_api_error
  test_run_custom_config_command_without_device =
      assert_raises_regex search is_api_error "SessionManagerException"
        (run_custom_config_command api "show version" >> skip)
