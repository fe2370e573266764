-- ===== src/TestSuite/Table.antt =====
-- The tables of shell_tests/helpers/tests_helpers.py. A class of test cases is its name.
use cloudshell_shell_automat.Base.{String, Option, none, some, List, [], ◌∷◌}
use cloudshell_shell_automat.Base.Dict.{Dict, insert}
use cloudshell_shell_automat.ResourceHandler.State.{
  DeviceType, real_device, simulator, without_device, shell_from_template,
}

-- The classes `OptionalTest...`.
pub data OptionalTestCase : Type 0 where
  save_ftp save_scp save_tftp restore_ftp restore_scp restore_tftp : OptionalTestCase

-- A value of the inner dicts: a class, or a tuple of optional ones.
pub data Entry : Type 0 where
  single : String → Entry
  optional : List OptionalTestCase → Entry

-- By device type; a missing device type is `none`.
abbrev pub Cases : Type 0
Cases = DeviceType → Option (Dict Entry)

abbrev save_test_cases : Entry
save_test_cases = optional (save_ftp ∷ save_scp ∷ save_tftp ∷ [])

abbrev restore_test_cases : Entry
restore_test_cases = optional (restore_ftp ∷ restore_scp ∷ restore_tftp ∷ [])

abbrev autoload_only : String → Dict Entry
autoload_only case = ("autoload", single case) ∷ []

abbrev firewall_without_device : Dict Entry
firewall_without_device =
    ("autoload", single "TestAutoloadWithoutDevice")
    ∷ ("run_custom_command", single "TestRunCustomCommandWithoutDevice")
    ∷ ("run_custom_config_command", single "TestRunCustomCommandWithoutDevice")
    ∷ ("save", single "TestSaveConfigWithoutDevice")
    ∷ ("orchestration_save", single "TestSaveConfigWithoutDevice")
    ∷ ("restore", single "TestRestoreConfigWithoutDevice")
    ∷ ("orchestration_restore", single "TestRestoreConfigWithoutDevice")
    ∷ []

abbrev pub firewall_real_device : Dict Entry
firewall_real_device =
    ("autoload", single "TestAutoloadNetworkDevices")
    ∷ ("run_custom_command", single "TestRunCustomCommand")
    ∷ ("run_custom_config_command", single "TestRunCustomCommand")
    ∷ ("save", save_test_cases)
    ∷ ("orchestration_save", save_test_cases)
    ∷ ("restore", restore_test_cases)
    ∷ ("orchestration_restore", restore_test_cases)
    ∷ []

abbrev from_template : Dict Entry
from_template =
    ("autoload", single "TestAutoloadShellFromTemplate")
    ∷ ("run_custom_command", single "TestRunCustomCommandShellFromTemplate")
    ∷ ("run_custom_config_command", single "TestRunCustomCommandShellFromTemplate")
    ∷ ("save", single "TestSaveConfigFromTemplate")
    ∷ ("restore", single "TestRestoreConfigFromTemplate")
    ∷ []

unfoldable pub test_cases_firewall : Cases
test_cases_firewall simulator = some (autoload_only "TestAutoloadNetworkDevices")
test_cases_firewall without_device = some firewall_without_device
test_cases_firewall real_device = some firewall_real_device
test_cases_firewall shell_from_template = some from_template

-- A copy of the firewall's, with one more entry for a real device.
unfoldable pub test_cases_router : Cases
unfolding test_cases_firewall
test_cases_router real_device =
    some (insert "applyconnectivitychanges" (single "TestConnectivity") firewall_real_device)
test_cases_router device = test_cases_firewall device

unfoldable pub test_cases_traffic_generator_chassis : Cases
test_cases_traffic_generator_chassis real_device =
    some (autoload_only "TestAutoloadTrafficGeneratorDevices")
test_cases_traffic_generator_chassis without_device =
    some (autoload_only "TestAutoloadWithoutDevice")
test_cases_traffic_generator_chassis simulator =
    some (autoload_only "TestAutoloadTrafficGeneratorDevices")
test_cases_traffic_generator_chassis shell_from_template = none

unfoldable pub test_cases_virtual_traffic_generator_chassis : Cases
test_cases_virtual_traffic_generator_chassis real_device =
    some (autoload_only "TestAutoloadVirtualTrafficGeneratorDevices")
test_cases_virtual_traffic_generator_chassis _ = none

unfoldable pub test_cases_traffic_generator_controller : Cases
test_cases_traffic_generator_controller real_device = some (
    ("load_config", single "TestLoadConfig")
    ∷ ("start_traffic", single "TestStartTraffic")
    ∷ ("stop_traffic", single "TestStopTraffic")
    ∷ ("get_statistics", single "TestGetStatistics")
    ∷ ("get_test_file", single "TestGetTestFile")
    ∷ [])
test_cases_traffic_generator_controller without_device = some (
    ("load_config", single "TestLoadConfigWithoutDevice")
    ∷ ("start_traffic", single "TestStartTrafficWithoutDevice")
    ∷ ("stop_traffic", single "TestStopTrafficWithoutDevice")
    ∷ ("get_statistics", single "TestGetStatisticsWithoutDevice")
    ∷ ("get_test_file", single "TestGetTestFileWithoutDevice")
    ∷ [])
test_cases_traffic_generator_controller _ = none

unfoldable pub test_cases_generic_app_family : Cases
test_cases_generic_app_family real_device = some (autoload_only "TestAutoloadWithoutPorts")
test_cases_generic_app_family without_device = some (autoload_only "TestAutoloadWithoutDevice")
test_cases_generic_app_family _ = none

unfoldable pub test_cases_generic_resource : Cases
test_cases_generic_resource shell_from_template = some from_template
test_cases_generic_resource _ = none

unfoldable pub test_cases_map : Dict Cases
unfolding test_cases_router test_cases_traffic_generator_chassis
    test_cases_virtual_traffic_generator_chassis test_cases_traffic_generator_controller
    test_cases_generic_app_family test_cases_generic_resource
test_cases_map =
    ("CS_Firewall", test_cases_firewall)
    ∷ ("CS_LoadBalancer", test_cases_firewall)
    ∷ ("CS_Router", test_cases_router)
    ∷ ("CS_Switch", test_cases_router)
    ∷ ("CS_TrafficGeneratorChassis", test_cases_traffic_generator_chassis)
    ∷ ("CS_VirtualTrafficGeneratorChassis", test_cases_virtual_traffic_generator_chassis)
    ∷ ("CS_TrafficGeneratorController", test_cases_traffic_generator_controller)
    ∷ ("CS_GenericAppFamily", test_cases_generic_app_family)
    ∷ ("CS_GenericResource", test_cases_generic_resource)
    ∷ []

unfoldable pub autoload_test_for_families : List String
autoload_test_for_families =
    "CS_Router" ∷ "CS_Firewall" ∷ "CS_LoadBalancer" ∷ "CS_Switch" ∷ "CS_TrafficGeneratorChassis"
    ∷ "CS_VirtualTrafficGeneratorChassis" ∷ "CS_GenericAppFamily" ∷ "CS_GenericResource" ∷ []
