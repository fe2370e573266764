-- ===== src/Tests/Settings.antt =====
-- Configurations, and the suites that follow from them.
use cloudshell_shell_automat.Base.{
  String, ℕ, ◌≡◌, ◌≤◌, ◌↔◌, ◌||◌, refl, true, false, none, some, [], ◌∷◌, elem, any, or_else,
  lowers_to,
}
use cloudshell_shell_automat.Base.Dict.{lookup}
use cloudshell_shell_automat.Exec.{ok}
use cloudshell_shell_automat.Configs.{HostConfig, TestsConfig, MainConfig}
use cloudshell_shell_automat.Configs.Versions.{is_compatible_version}
use cloudshell_shell_automat.Configs.Versions.Range.{dotted, is_compatible_version-dotted}
use cloudshell_shell_automat.Configs.Tests.{iadd}
use cloudshell_shell_automat.Configs.Tests.Merging.{iadd_lem}
use cloudshell_shell_automat.ResourceHandler.State.{real_device}
use cloudshell_shell_automat.TestSuite.Table.{
  firewall_real_device, test_cases_firewall, test_cases_map, autoload_test_for_families,
}
use cloudshell_shell_automat.TestSuite.Selection.{
  find_table, first_cases, select_test_cases, add_commands, lookup_lower, is_suitable, test_case,
}
use cloudshell_shell_automat.TestSuite.Selection.Members.{
  Distinct, first_case, offers, select_test_cases-elem, select_test_cases-Distinct,
}

version_example :
    (is_compatible_version (dotted 0 15) ≡ ok (dotted 0 15))
    ↔ ((◌≡◌ {A = ℕ} 0 0) × (13 ≤ 15) × (15 ≤ 16))
version_example = is_compatible_version-dotted 0 15

abbrev ftp_host : HostConfig
ftp_host = record { host = "10.0.0.1/saves" }

abbrev own_tests : TestsConfig
own_tests = record {
  expected_failures = ("TestSaveConfig", "a") ∷ [];
  run_tests = true;
  original_run_tests = none;
}

abbrev shell_tests : TestsConfig
shell_tests = record {
  expected_failures = ("TestSaveConfig", "b") ∷ ("TestRestoreConfig", "c") ∷ [];
  run_tests = false;
  original_run_tests = some false;
}

iadd_example :
    (lookup "TestSaveConfig" (iadd own_tests shell_tests).expected_failures
      ≡ or_else
          (lookup "TestSaveConfig" own_tests.expected_failures)
          (lookup "TestSaveConfig" shell_tests.expected_failures))
    × (some (iadd own_tests shell_tests).run_tests ≡ some false)
    × ((iadd own_tests shell_tests).original_run_tests ≡ none)
unfolding lookup
iadd_example = iadd_lem own_tests shell_tests "TestSaveConfig" (refl, tt)

abbrev pub main_conf : MainConfig
main_conf = record {
  version = "0.16";
  do_conf = none;
  cs_conf = none;
  shells_conf = [];
  resources_conf = [];
  deployment_resources_conf = [];
  apps_conf = [];
  services_conf = [];
  ftp_conf = some (record { host_conf = ftp_host; user = none; password = none });
  scp_conf = none;
  tftp_conf = none;
  sandboxes_conf = [];
  blueprints_conf = [];
  vcenter_conf = none;
}

-- The suite of a firewall that can save its configuration, with FTP only.
select_elem_example :
    elem "TestSaveConfig" ("TestAutoloadNetworkDevices" ∷ "TestSaveConfig" ∷ []) ≡ (
      elem "TestSaveConfig" (first_case (first_cases "CS_Firewall" firewall_real_device))
      || any
          (λ (command : String).
            offers main_conf (lookup_lower command firewall_real_device) "TestSaveConfig")
          ("Save" ∷ "unknown" ∷ []))
unfolding select_test_cases find_table first_cases add_commands lookup_lower test_cases_firewall
    test_cases_map lookup autoload_test_for_families lowers_to is_suitable test_case
select_elem_example =
    select_test_cases-elem main_conf "CS_Firewall" real_device ("Save" ∷ "unknown" ∷ [])
      firewall_real_device ("TestAutoloadNetworkDevices" ∷ "TestSaveConfig" ∷ []) "TestSaveConfig"
      refl refl

select-Distinct_example : Distinct ("TestAutoloadNetworkDevices" ∷ "TestSaveConfig" ∷ [])
unfolding select_test_cases find_table first_cases add_commands lookup_lower test_cases_firewall
    test_cases_map lookup autoload_test_for_families lowers_to is_suitable test_case
select-Distinct_example =
    select_test_cases-Distinct main_conf "CS_Firewall" real_device ("Save" ∷ "unknown" ∷ [])
      ("TestAutoloadNetworkDevices" ∷ "TestSaveConfig" ∷ []) refl
